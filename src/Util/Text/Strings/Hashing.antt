-- ===== src/Util/Text/Strings/Hashing.antt =====
-- CourseWorks/infos/include/infos/util/string.h: the strings that operations build, and their hashes.
use mathlib.Core.List.{append-nil}
use inf3_os.Base.{
  ◌<◌, ◌*◌, ◌%◌, ltb, if◌then◌else◌, ℕ, ◌+◌, ◌≡◌, ◌≢◌, refl, ap, ◌∙◌, true, List, [], ◌∷◌, ◌++◌,
  Outcome, ok, ◌>>=◌, length, All, arith, Bool-cases, inl, inr,
}
use Prim.Native.Nat.{bit_xor}
use inf3_os.Util.LinkedList.{u32_mod}
use inf3_os.Util.Text.Hash.{compute_hash}
use inf3_os.Util.Text.Strings.{
  KernelString, copy_chars, copy_loop, from_chars, copy_of, assigned, concat, push_char,
  compute_hash_of, get_hash, moved_from,
}

-- A string that shows a text, and keeps its hash if it keeps one.
pub record Shows (str : KernelString) (text : List ℕ) : Type 0 where
  pub sized : str.size ≡ length text
  pub ends : str.chars ≡ text ++ 0 ∷ []
  pub short : length text < u32_mod
  pub hashed : str.has_hash ≡ true → str.hash ≡ compute_hash text

copy_chars_lem :
    (text rest behind : List ℕ)
    → copy_chars (length text) (text ++ rest) behind ≡ ok (text ++ behind)
unfolding copy_chars
copy_chars_lem [] rest behind = refl
copy_chars_lem (c ∷ text) rest behind = rw (copy_chars_lem text rest behind) refl

copy_loop_lem :
    (text rest behind : List ℕ)
    → length text < u32_mod
    → copy_loop (length text) (text ++ rest) behind ≡ ok (text ++ behind)
unfolding copy_loop
copy_loop_lem text rest behind low =
    let fits : ltb (length text) u32_mod ≡ true = ground arith in
    rw (copy_loop, fits) (copy_chars_lem text rest behind)

copied :
    (str : KernelString) (text behind : List ℕ)
    → Shows str text
    → copy_loop str.size str.chars behind ≡ ok (text ++ behind)
unfolding copy_loop
copied str text behind s =
    (λ i. copy_loop (s.sized i) (s.ends i) behind) ∙ copy_loop_lem text (0 ∷ []) behind s.short

-- How a string can be built; `hashed` asks for its hash, which it keeps then.
pub data Building : Type 0 where
  literal : List ℕ → Building
  copy : Building → Building
  assign : Building → Building → Building
  join : Building → Building → Building
  push : Building → ℕ → Building
  hashed_once : Building → Building

-- The text that it stands for.
abbrev pub text_of : Building → List ℕ
text_of (literal text) = text
text_of (copy b) = text_of b
text_of (assign old b) = text_of b
text_of (join b d) = text_of b ++ text_of d
text_of (push b c) = text_of b ++ c ∷ []
text_of (hashed_once b) = text_of b

-- The literals hold no null, and the texts fewer than 2 ^ 32 characters.
abbrev pub IsWritable : Building → Type 0
IsWritable (literal text) = All (λ c. c ≢ 0) text × (length text < u32_mod)
IsWritable (copy b) = IsWritable b
IsWritable (assign old b) = IsWritable old × IsWritable b
IsWritable (join b d) = IsWritable b × IsWritable d × (length (text_of b ++ text_of d) < u32_mod)
IsWritable (push b c) = IsWritable b × (length (text_of b ++ c ∷ []) < u32_mod)
IsWritable (hashed_once b) = IsWritable b

unfoldable pub build : Building → Outcome KernelString
build (literal text) = from_chars (text ++ 0 ∷ [])
build (copy b) = build b >>= copy_of
build (assign old b) = do before ← build old; s ← build b; assigned before s
build (join b d) = do l ← build b; r ← build d; concat l r
build (push b c) = do l ← build b; push_char l c
build (hashed_once b) = do s ← build b; (hash, after) ← get_hash s; ok after

compute_hash_of_lem :
    (str : KernelString) (text : List ℕ)
    → Shows str text
    → compute_hash_of str ≡ ok (compute_hash text)
unfolding compute_hash_of compute_hash
compute_hash_of_lem str text s = rw (copied str text [] s, append-nil text) refl

-- `get_hash` gives the hash of the text, and keeps it.
pub get_hash_lem :
    (str : KernelString) (text : List ℕ)
    → Shows str text
    → (after : KernelString) × (get_hash str ≡ ok (compute_hash text, after)) × Shows after text
unfolding get_hash
get_hash_lem str text s = elim (Bool-cases str.has_hash) [
  | inl kept ↦ (str, simp (get_hash, kept) (ap (λ h. ok (h, str)) (s.hashed kept)), s)
  | inr new ↦ (
    record str { has_hash = true; hash = compute_hash text },
    simp (get_hash, new, compute_hash_of_lem str text s) refl,
    record { sized = s.sized; ends = s.ends; short = s.short; hashed = λ h. refl },
  )
]

-- The hash FNV-1a of 64 bits over words, from a hash of what is in front of them.
abbrev pub fnv1a : ℕ → List ℕ → ℕ
fnv1a hash [] = hash
fnv1a hash (w ∷ words) = fnv1a ((bit_xor hash w * 1099511628211) % 18446744073709551616) words

-- The word of 64 bits that a signed character is extended to: itself below 128.
abbrev pub word_of : ℕ → ℕ
word_of c = if ltb c 128 then c else c + 18446744073709551360

-- A string that is moved after its hash was asked for has the hash 1, whatever its text.
pub moved_hash :
    (str : KernelString) → str.has_hash ≡ true → get_hash (moved_from str) ≡ ok (1, moved_from str)
unfolding get_hash moved_from
moved_hash str kept = simp (get_hash, moved_from, kept) refl
