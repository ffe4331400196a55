-- ===== src/Util/Text.antt =====
-- CourseWorks/infos/util/string.cpp: texts in memory. A pointer into a buffer is the list of the bytes
-- from there to the end of the buffer, so that a read past the end is a panic; a `String` is the
-- list of its characters.
pub mod Copying
pub mod Comparing
pub mod Splitting
pub mod Hash
pub mod Strings
use mathlib.Core.Option
use inf3_os.Base.{
  ℕ, zero, suc, ◌+◌, ◌-◌, ◌/◌, ◌%◌, ◌^◌, Bool, true, false, not, ◌&&◌, ◌||◌, List, [], ◌∷◌, ◌++◌,
  Option, none, some, Outcome, ok, panic, ◌>>=◌, ◌==◌, if◌then◌else◌, length,
}

abbrev pub size_mod : ℕ
size_mod = 2 ^ 64

-- The loop of `strlen`.
unfoldable pub count_chars : List ℕ → Outcome ℕ
count_chars [] = panic
count_chars (c ∷ cs) =
    let rest = count_chars cs >>= (λ n. ok (suc n)) in if c == 0 then ok 0 else rest

-- `none` is NULL.
unfoldable pub strlen : Option (List ℕ) → Outcome ℕ
strlen none = ok 0
strlen (some str) = count_chars str

-- The loop of `strncmp`; true is the answer 0, and false is -1.
unfoldable pub compare_chars : List ℕ → List ℕ → ℕ → Outcome Bool
compare_chars [] str2 n = panic
compare_chars (a ∷ str1) [] n = if a == 0 then ok true else panic
compare_chars (a ∷ str1) (b ∷ str2) n =
    let rest = compare_chars str1 str2 (n - 1) in
    if a == 0 || b == 0 || n == 0 then ok true else if not (a == b) then ok false else rest

unfoldable pub strncmp : List ℕ → List ℕ → ℕ → Outcome Bool
strncmp str1 str2 n = do
  length1 ← strlen (some str1)
  length2 ← strlen (some str2)
  (let compared = compare_chars str1 str2 n in
      if not (length1 == length2) then ok false else compared)

-- `strncpy`: the buffer at `dest` afterwards. The count wraps around below 0.
unfoldable pub strncpy : List ℕ → List ℕ → ℕ → Outcome (List ℕ)
strncpy dest [] n =
    if (n + size_mod - 1) % size_mod == 0
    then elim dest [ [] ↦ panic | _ ∷ rest ↦ ok (0 ∷ rest) ]
    else panic
strncpy [] (c ∷ src) n = panic
strncpy (d ∷ dest) (c ∷ src) n =
    let left = (n + size_mod - 1) % size_mod in
    let copied = strncpy dest src left >>= (λ rest. ok (c ∷ rest)) in
    if left == 0 || c == 0 then ok (0 ∷ dest) else copied

-- The loop of `ToString` on a value above 0, in front of the digits written so far. With `i` at 0 it
-- would write in front of the buffer.
unfoldable pub write_digits : ℕ → ℕ → List ℕ → Outcome (List ℕ)
write_digits zero v digits = if v == 0 then ok digits else panic
write_digits (suc i) v digits =
    let rest = write_digits i (v / 10) ((48 + v % 10) ∷ digits) in
    if v == 0 then ok digits else rest

unfoldable pub to_string : ℕ → Outcome (List ℕ)
to_string v = if v == 0 then ok (48 ∷ []) else write_digits 16 v []

-- The variables of `String::split`; `rest` are the characters from `start` on.
pub record SplitState : Type 0 where
  pub parts : List (List ℕ)
  pub current_part : List ℕ
  pub rest : List ℕ

abbrev pub is_empty : List ℕ → Bool
is_empty [] = true
is_empty _ = false

-- One round of the loop, which does not advance at `continue`.
unfoldable pub split_char : ℕ → Bool → List (List ℕ) → List ℕ → ℕ → List ℕ → SplitState
split_char delim remove_empty parts current_part c cs =
    if c == delim
    then (if is_empty current_part && remove_empty
        then record { parts = parts; current_part = current_part; rest = c ∷ cs }
        else record { parts = parts ++ current_part ∷ []; current_part = []; rest = cs })
    else record { parts = parts; current_part = current_part ++ c ∷ []; rest = cs }

-- After the loop.
unfoldable pub split_end : Bool → List (List ℕ) → List ℕ → List (List ℕ)
split_end remove_empty parts current_part =
    if not (is_empty current_part) || not remove_empty then parts ++ current_part ∷ [] else parts

-- The loop; `none` where the fuel does not reach its end.
unfoldable pub split_loop : ℕ → ℕ → Bool → List (List ℕ) → List ℕ → List ℕ → Option (List (List ℕ))
split_loop zero delim remove_empty parts current_part rest = none
split_loop (suc fuel) delim remove_empty parts current_part [] =
    some (split_end remove_empty parts current_part)
split_loop (suc fuel) delim remove_empty parts current_part (c ∷ cs) =
    let next = split_char delim remove_empty parts current_part c cs in
    split_loop fuel delim remove_empty next.parts next.current_part next.rest

unfoldable pub split : ℕ → List ℕ → ℕ → Bool → Option (List (List ℕ))
split fuel data_chars delim remove_empty = split_loop fuel delim remove_empty [] [] data_chars
