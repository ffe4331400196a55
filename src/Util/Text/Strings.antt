-- ===== src/Util/Text/Strings.antt =====
-- CourseWorks/infos/include/infos/util/string.h: the class `String`. `_data` is the list of its
-- characters with the null behind them; that two strings may own one array is left out.
pub mod Hashing
use inf3_os.Base.{
  ℕ, zero, suc, ◌+◌, Bool, true, false, not, ◌&&◌, List, [], ◌∷◌, ◌++◌, some, Outcome, ok, panic,
  assert, ◌>>=◌, ltb, leb, ◌==◌, if◌then◌else◌, get_elem?,
}
use inf3_os.Util.LinkedList.{u32_mod}
use inf3_os.Util.Text.{strlen}
use inf3_os.Util.Text.Hash.{hash_chars, offset_basis}

pub record KernelString : Type 0 where
  pub size : ℕ
  pub chars : List ℕ
  pub has_hash : Bool
  pub hash : ℕ

-- The loops that copy `count` characters, in front of what is written next.
unfoldable pub copy_chars : ℕ → List ℕ → List ℕ → Outcome (List ℕ)
copy_chars zero source behind = ok behind
copy_chars (suc count) [] behind = panic
copy_chars (suc count) (c ∷ source) behind = do rest ← copy_chars count source behind; ok (c ∷ rest)

-- The counter of the loops is an `unsigned int`; for a string of 2 ^ 32 characters or more they do not
-- end.
unfoldable pub copy_loop : ℕ → List ℕ → List ℕ → Outcome (List ℕ)
copy_loop size source behind =
    let copied = copy_chars size source behind in if ltb size u32_mod then copied else panic

-- The constructor from a pointer.
unfoldable pub from_chars : List ℕ → Outcome KernelString
from_chars str = do
  size ← strlen (some str)
  chars ← copy_loop size str (0 ∷ [])
  ok (record { size = size; chars = chars; has_hash = false; hash = 0 })

-- The copy constructor.
unfoldable pub copy_of : KernelString → Outcome KernelString
copy_of str = do chars ← copy_loop str.size str.chars (0 ∷ []); ok (record str { chars = chars })

-- The move constructor, where `_hash` is set from `_has_hash`.
unfoldable pub moved_from : KernelString → KernelString
moved_from str = record str { hash = if str.has_hash then 1 else 0 }

-- The assignment of a copy, to another string.
unfoldable pub assigned : KernelString → KernelString → Outcome KernelString
assigned old s = do
  chars ← copy_loop s.size s.chars (0 ∷ [])
  ok (record { size = s.size; chars = chars; has_hash = false; hash = old.hash })

-- `operator+` of two strings, and of a string and a character. The size of the new array is an
-- `unsigned int`; where it wraps around, the loops write behind the array.
unfoldable pub concat : KernelString → KernelString → Outcome KernelString
concat l r = do
  fits ← assert (ltb (l.size + r.size) u32_mod)
  right ← copy_loop r.size r.chars (0 ∷ [])
  chars ← copy_loop l.size l.chars right
  ok (record { size = l.size + r.size; chars = chars; has_hash = false; hash = 0 })

unfoldable pub push_char : KernelString → ℕ → Outcome KernelString
push_char l r = do
  fits ← assert (ltb (l.size + 1) u32_mod)
  chars ← copy_loop l.size l.chars (r ∷ 0 ∷ [])
  ok (record { size = l.size + 1; chars = chars; has_hash = false; hash = 0 })

-- The loop of `compute_hash` over the first characters of the array.
unfoldable pub compute_hash_of : KernelString → Outcome ℕ
compute_hash_of str = do chars ← copy_loop str.size str.chars []; ok (hash_chars offset_basis chars)

-- `get_hash`, and the string with the hash that it keeps.
unfoldable pub get_hash : KernelString → Outcome (ℕ × KernelString)
get_hash str =
    let computed = do
      hash ← compute_hash_of str
      ok (hash, record str { has_hash = true; hash = hash })
    in if str.has_hash then ok (str.hash, str) else computed

-- The loop of `operator==`. For sizes of 2 ^ 32 or more it ends only at a difference.
unfoldable pub same_chars : ℕ → List ℕ → List ℕ → Outcome Bool
same_chars zero l r = ok true
same_chars (suc count) [] r = panic
same_chars (suc count) (a ∷ l) [] = panic
same_chars (suc count) (a ∷ l) (b ∷ r) =
    let rest = same_chars count l r in if a == b then rest else ok false

unfoldable pub equals : KernelString → KernelString → Outcome Bool
equals l r =
    let compared = same_chars l.size l.chars r.chars in
    let wrapped = (do
      same ← same_chars u32_mod l.chars r.chars
      if same then panic else ok false) in
    if not (l.size == r.size) then ok false else if ltb l.size u32_mod then compared else wrapped
