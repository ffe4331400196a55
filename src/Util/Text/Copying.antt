-- ===== src/Util/Text/Copying.antt =====
-- CourseWorks/infos/util/string.cpp: `strlen`, `strncpy` and `ToString`.
use inf3_os.Base.{
  sym, ◌≢◌, ◌≤◌, ◌⊎◌, ℕ, zero, suc, ◌+◌, ◌-◌, ◌*◌, ◌/◌, ◌%◌, ◌^◌, ◌<◌, ◌≡◌, refl, ap, ◌∙◌, true,
  false, List, [], ◌∷◌, ◌++◌, some, ok, arith, length, ◌==◌, Bool-cases, inl, inr, All,
}
use inf3_os.Util.Text.{count_chars, strlen, strncpy, write_digits, to_string, size_mod}

-- A text has no 0 inside.
abbrev pub IsText : List ℕ → Type 0
IsText text = All (λ c. (c == 0) ≡ false) text

pub count_chars_text :
    (text behind : List ℕ) → IsText text → count_chars (text ++ 0 ∷ behind) ≡ ok (length text)
unfolding count_chars
count_chars_text [] behind h = refl
count_chars_text (c ∷ text) behind (some_char, h) =
    rw (some_char, count_chars_text text behind h) refl

-- The decimal value of a row of digits, after a value in front of them.
abbrev pub read_decimal : ℕ → List ℕ → ℕ
read_decimal front [] = front
read_decimal front (d ∷ ds) = read_decimal (front * 10 + (d - 48)) ds

abbrev pub IsDigits : List ℕ → Type 0
IsDigits digits = All (λ d. (48 ≤ d) × (d < 58)) digits

-- The first digit, or '0' where there is none.
abbrev pub leading : List ℕ → ℕ
leading [] = 48
leading (d ∷ ds) = d

-- The loop with room for `i` more digits, of a value of at most `n`.
write_digits_lem :
    (n i v : ℕ) (digits : List ℕ)
    → n ≤ i
    → v < 10 ^ n
    → IsDigits digits
    → (v ≢ 0) ⊎ (leading digits ≢ 48)
    → (written : List ℕ) × (write_digits i v digits ≡ ok written)
      × IsDigits written
      × (read_decimal 0 written ≡ read_decimal v digits)
      × (length written ≤ n + length digits)
      × (leading written ≢ 48)
unfolding write_digits
write_digits_lem zero zero v digits room h all (inl more) = absurd (more (omega arith))
write_digits_lem zero zero v digits room h all (inr first) =
    let v_is : 0 ≡ v = omega arith in
    let done : (v == 0) ≡ true = ground arith in
    (digits, rw done refl, all, ap (λ x. read_decimal x digits) v_is, omega arith, first)
write_digits_lem zero (suc i) v digits room h all (inl more) = absurd (more (omega arith))
write_digits_lem zero (suc i) v digits room h all (inr first) =
    let v_is : 0 ≡ v = omega arith in
    let done : (v == 0) ≡ true = ground arith in
    (digits, rw done refl, all, ap (λ x. read_decimal x digits) v_is, omega arith, first)
write_digits_lem (suc n) zero v digits room h all first = absurd (omega arith)
write_digits_lem (suc n) (suc i) v digits room h all first = elim (Bool-cases (v == 0)) [
  | inl done ↦
      let v_is : 0 ≡ v = ground arith in
      let led : leading digits ≢ 48 = elim first [
        | inl more ↦ absurd (more (sym v_is))
        | inr led ↦ led
      ] in
      (digits, rw done refl, all, ap (λ x. read_decimal x digits) v_is, omega arith, led)
  | inr more ↦
      let split_v : v / 10 * 10 + (48 + v % 10 - 48) ≡ v = omega arith in
      let (written, done, digits', value, short, led) =
        write_digits_lem n i (v / 10) ((48 + v % 10) ∷ digits) (omega arith) (omega (arith, h))
          ((omega arith, omega arith), all) (leads v more) in
      (
        written,
        rw more done,
        digits',
        value ∙ ap (λ x. read_decimal x digits) split_v,
        omega (arith, short),
        led,
      )
]
  where
    leads : (v : ℕ) → (v == 0) ≡ false → (v / 10 ≢ 0) ⊎ (48 + v % 10 ≢ 48)
    leads v more = elim (Bool-cases (v / 10 == 0)) [
      | inl last ↦ inr (ground arith)
      | inr further ↦ inl (ground arith)
    ]

-- `ToString` of an `unsigned int` is its decimal digits: characters from '0' to '9' whose value is
-- the number, without a leading '0' unless the number is 0. They are at most 10, so the buffer of 16
-- characters is never full.
pub to_string-read_decimal :
    (v : ℕ)
    → v < 2 ^ 32
    → (digits : List ℕ) × (to_string v ≡ ok digits)
      × All (λ d. (48 ≤ d) × (d < 58)) digits
      × (read_decimal 0 digits ≡ v)
      × (length digits ≤ 10)
      × (((v ≡ 0) × (digits ≡ 48 ∷ [])) ⊎ (leading digits ≢ 48))
unfolding to_string
to_string-read_decimal v h = elim (Bool-cases (v == 0)) [
  | inl zero_v ↦ (
    48 ∷ [],
    rw zero_v refl,
    ((omega arith, omega arith), tt),
    ground arith,
    omega arith,
    inl (ground arith, refl),
  )
  | inr more ↦
      let (written, done, all, value, short, led) =
        write_digits_lem 10 16 v [] (omega arith) (omega (arith, h)) tt (inl (ground arith)) in
      (written, rw more done, all, value, omega (arith, short), inr led)
]

copy_chars :
    (copied front behind rest : List ℕ) (c d n : ℕ)
    → IsText copied
    → length front ≡ length copied
    → length copied < n
    → n < size_mod
    → ((c == 0) ≡ true) ⊎ (suc (length copied) ≡ n)
    → strncpy (front ++ d ∷ rest) (copied ++ c ∷ behind) n ≡ ok (copied ++ 0 ∷ rest)
unfolding strncpy
copy_chars [] [] behind rest c d n t e h b (inl last) =
    elim (Bool-cases ((n + size_mod - 1) % size_mod == 0)) [
      | inl none_left ↦ rw (last, none_left) refl
      | inr some_left ↦ rw (last, some_left) refl
    ]
copy_chars [] [] behind rest c d n t e h b (inr last) =
    let none_left : ((n + size_mod - 1) % size_mod == 0) ≡ true = ground arith in rw none_left refl
copy_chars [] (f ∷ front) behind rest c d n t e h b stop = ground arith
copy_chars (x ∷ copied) [] behind rest c d n t e h b stop = ground arith
copy_chars (x ∷ copied) (f ∷ front) behind rest c d n (some_char, t) e h b stop =
    let left_is : (n + size_mod - 1) % size_mod ≡ n - 1 = omega arith in
    let more : (n - 1 == 0) ≡ false = ground arith in
    let later : ((c == 0) ≡ true) ⊎ (suc (length copied) ≡ n - 1) = elim stop [
      | inl last ↦ inl last
      | inr full ↦ inr (omega arith)
    ] in
    rw
      (
        left_is,
        more,
        some_char,
        copy_chars copied front behind rest c d (n - 1) t (omega arith) (omega arith) (omega arith)
            later,
      )
      refl

-- `strncpy` into a buffer with room for the terminator copies the source up to its terminator or up
-- to n - 1 characters, whichever comes first, writes a terminator, and leaves the buffer behind it
-- as it was. `strlen` of the copy is the number of characters copied.
pub strncpy_lem :
    (copied front behind rest : List ℕ) (c d n : ℕ)
    → IsText copied
    → length front ≡ length copied
    → length copied < n
    → n < size_mod
    → ((c == 0) ≡ true) ⊎ (suc (length copied) ≡ n)
    → (strncpy (front ++ d ∷ rest) (copied ++ c ∷ behind) n ≡ ok (copied ++ 0 ∷ rest))
      × (strlen (some (copied ++ 0 ∷ rest)) ≡ ok (length copied))
unfolding strlen
strncpy_lem copied front behind rest c d n t e h b stop =
    (copy_chars copied front behind rest c d n t e h b stop, count_chars_text copied rest t)
