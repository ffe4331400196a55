-- ===== src/TarFs/Octal.antt =====
-- CourseWorks/coursework/tarfs.cpp: the number that `octal2ui` reads.
use native.Mathlib.Nat.{add-mul-mod_self_right, mod-add-mod}
use inf3_os.Base.{
  ℕ, suc, ◌+◌, ◌-◌, ◌*◌, ◌%◌, ◌<◌, ◌≤◌, ◌≡◌, refl, ap, ◌∙◌, false, arith, ◌==◌, List, [], ◌∷◌, ok,
  some, length, get_elem?, All,
}
use inf3_os.Util.LinkedList.{u32_mod}
use inf3_os.Util.Text.{count_chars, strlen}
use inf3_os.TarFs.{char_at, octal_loop, octal2ui}

-- Digits from the last to the first, and the number they stand for.
abbrev pub octal : List ℕ → ℕ
octal [] = 0
octal (d ∷ ds) = d - 48 + 8 * octal ds

abbrev pub IsOctal : ℕ → Type 0
IsOctal d = (48 ≤ d) × (d < 56)

-- The same digits from the first to the last, before `behind`.
abbrev pub backwards : List ℕ → List ℕ → List ℕ
backwards [] behind = behind
backwards (d ∷ ds) behind = backwards ds (d ∷ behind)

get_elem?-backwards :
    (ds behind : List ℕ) (k : ℕ)
    → get_elem? (backwards ds behind) (length ds + k) ≡ get_elem? behind k
get_elem?-backwards [] behind k = ap (get_elem? behind) (omega arith)
get_elem?-backwards (d ∷ ds) behind k =
    ap (get_elem? (backwards ds (d ∷ behind))) (omega arith)
    ∙ get_elem?-backwards ds (d ∷ behind) (suc k)

next_value :
    (value factor d rest : ℕ)
    → 48 ≤ d
    → ((value + factor * (d + u32_mod - 48)) % u32_mod + factor * 8 * rest) % u32_mod
      ≡ (value + factor * (d - 48 + 8 * rest)) % u32_mod
next_value value factor d rest h =
    let digit : d + u32_mod - 48 ≡ d - 48 + u32_mod = omega arith in
    let spread : value + factor * (d - 48 + u32_mod)
        ≡ value + factor * (d - 48) + factor * u32_mod =
      grind arith in
    let plain : (value + factor * (d + u32_mod - 48)) % u32_mod
        ≡ (value + factor * (d - 48)) % u32_mod =
      ap (λ n. (value + factor * n) % u32_mod) digit
      ∙ ap (λ n. n % u32_mod) spread
      ∙ add-mul-mod_self_right (value + factor * (d - 48)) factor u32_mod in
    let grouped : value + factor * (d - 48) + factor * 8 * rest
        ≡ value + factor * (d - 48 + 8 * rest) =
      grind arith in
    ap (λ n. (n + factor * 8 * rest) % u32_mod) plain
    ∙ mod-add-mod (value + factor * (d - 48)) u32_mod (factor * 8 * rest)
    ∙ ap (λ n. n % u32_mod) grouped

char_at-some :
    (data_chars : List ℕ) (index c : ℕ)
    → get_elem? data_chars index ≡ some c
    → char_at data_chars index ≡ ok c
unfolding char_at
char_at-some data_chars index c h = rw (h, char_at) refl

start_value : (value factor : ℕ) → value < u32_mod → ok value ≡ ok ((value + factor * 0) % u32_mod)
start_value value factor low =
    let same : value ≡ (value + factor * 0) % u32_mod = omega arith in ap ok same

octal_loop_lem :
    (ds behind : List ℕ) (first value factor : ℕ)
    → All IsOctal ds
    → value < u32_mod
    → octal_loop (length ds) (first ∷ backwards ds behind) value factor
      ≡ ok ((value + factor * octal ds) % u32_mod)
unfolding octal_loop
octal_loop_lem [] behind first value factor h low = start_value value factor low
octal_loop_lem (d ∷ ds) behind first value factor (digit, h) low =
    let found : get_elem? (backwards ds (d ∷ behind)) (length ds) ≡ some d =
      ap (get_elem? (backwards ds (d ∷ behind))) (omega arith)
      ∙ get_elem?-backwards ds (d ∷ behind) 0 in
    rw (char_at-some (first ∷ backwards ds (d ∷ behind)) (suc (length ds)) d found) (
      octal_loop_lem ds (d ∷ behind) first ((value + factor * (d + u32_mod - 48)) % u32_mod)
        (factor * 8) h (omega arith)
      ∙ ap ok (next_value value factor d (octal ds) digit.0))

count_chars_digit :
    (d : ℕ) (rest : List ℕ) (n : ℕ)
    → IsOctal d
    → count_chars rest ≡ ok n
    → count_chars (d ∷ rest) ≡ ok (suc n)
unfolding count_chars
count_chars_digit d rest n digit h =
    let some_char : (d == 0) ≡ false = ground (arith, digit.0) in rw (some_char, h) refl

count_chars-backwards :
    (ds rest : List ℕ) (n : ℕ)
    → All IsOctal ds
    → count_chars rest ≡ ok n
    → count_chars (backwards ds rest) ≡ ok (length ds + n)
count_chars-backwards [] rest n h e = e ∙ ap ok (omega arith)
count_chars-backwards (d ∷ ds) rest n (digit, h) e =
    count_chars-backwards ds (d ∷ rest) (suc n) h (count_chars_digit d rest n digit e)
    ∙ ap ok (omega arith)

count_chars_end : (behind : List ℕ) → count_chars (0 ∷ behind) ≡ ok 0
unfolding count_chars
count_chars_end behind = refl

-- `octal2ui` of a text of octal digits: the number that its digits stand for, but for the first,
-- which it skips whatever it is, modulo 2 ^ 32. `ds` are the digits from the last to the second.
pub octal2ui_lem :
    (ds behind : List ℕ) (first : ℕ)
    → All IsOctal ds
    → IsOctal first
    → octal2ui (first ∷ backwards ds (0 ∷ behind)) ≡ ok (octal ds % u32_mod)
unfolding octal2ui strlen
octal2ui_lem ds behind first h g =
    let len_is : strlen (some (first ∷ backwards ds (0 ∷ behind))) ≡ ok (suc (length ds + 0)) =
      count_chars_digit first (backwards ds (0 ∷ behind)) (length ds + 0) g
        (count_chars-backwards ds (0 ∷ behind) 0 h (count_chars_end behind)) in
    let left : suc (length ds + 0) - 1 ≡ length ds = omega arith in
    let value : 0 + 1 * octal ds ≡ octal ds = omega arith in
    rw (len_is, left)
      (octal_loop_lem ds (0 ∷ behind) first 0 1 h (omega arith) ∙ ap (λ n. ok (n % u32_mod)) value)
