-- ===== src/Util/Text/Comparing.antt =====
-- CourseWorks/infos/util/string.cpp: `strncmp`.
use inf3_os.Base.{
  ℕ, zero, suc, ◌-◌, ◌≡◌, refl, Bool, true, false, ◌&&◌, List, [], ◌∷◌, ◌++◌, ok, arith, length,
  ◌==◌, Bool-cases, inl, inr, if◌then◌else◌,
}
use inf3_os.Util.Text.{compare_chars, strncmp, strlen}
use inf3_os.Util.Text.Copying.{IsText, count_chars_text}

-- Do the first n characters agree?
abbrev pub agree : ℕ → List ℕ → List ℕ → Bool
agree zero text1 text2 = true
agree (suc n) [] [] = true
agree (suc n) [] (b ∷ text2) = false
agree (suc n) (a ∷ text1) [] = false
agree (suc n) (a ∷ text1) (b ∷ text2) = if a == b then agree n text1 text2 else false

compare_chars-agree :
    (text1 text2 behind1 behind2 : List ℕ) (n : ℕ)
    → IsText text1
    → IsText text2
    → length text1 ≡ length text2
    → compare_chars (text1 ++ 0 ∷ behind1) (text2 ++ 0 ∷ behind2) n ≡ ok (agree n text1 text2)
unfolding compare_chars
compare_chars-agree [] [] behind1 behind2 zero t u e = refl
compare_chars-agree [] [] behind1 behind2 (suc n) t u e = refl
compare_chars-agree [] (b ∷ text2) behind1 behind2 n t u e = ground arith
compare_chars-agree (a ∷ text1) [] behind1 behind2 n t u e = ground arith
compare_chars-agree (a ∷ text1) (b ∷ text2) behind1 behind2 zero (ta, t) (tb, u) e =
    rw (ta, tb) refl
compare_chars-agree (a ∷ text1) (b ∷ text2) behind1 behind2 (suc n) (ta, t) (tb, u) e =
    let more : (suc n == 0) ≡ false = ground arith in
    let less : suc n - 1 ≡ n = omega arith in
    elim (Bool-cases (a == b)) [
      | inl same ↦
          rw (ta, tb, same, more, less)
            (compare_chars-agree text1 text2 behind1 behind2 n t u (omega arith))
      | inr other ↦ rw (ta, tb, other, more) refl
    ]

-- `strncmp` of two texts answers 0 exactly where they have the same length and their first n
-- characters agree; it reads no further than the terminators. So a text is never equal to a longer
-- one, however small n is.
pub strncmp_lem :
    (text1 text2 behind1 behind2 : List ℕ) (n : ℕ)
    → IsText text1
    → IsText text2
    → strncmp (text1 ++ 0 ∷ behind1) (text2 ++ 0 ∷ behind2) n
      ≡ ok (length text1 == length text2 && agree n text1 text2)
unfolding strncmp strlen
strncmp_lem text1 text2 behind1 behind2 n t u = elim (Bool-cases (length text1 == length text2)) [
  | inl same ↦
      rw (count_chars_text text1 behind1 t, count_chars_text text2 behind2 u, same)
        (compare_chars-agree text1 text2 behind1 behind2 n t u (ground arith))
  | inr differ ↦
      rw (count_chars_text text1 behind1 t, count_chars_text text2 behind2 u, differ) refl
]
