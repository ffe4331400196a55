-- ===== src/Fs/Cutting.antt =====
-- CourseWorks/infos/fs/vfs-node.cpp: a node that loses its children.
use inf3_os.Util.Equality.{same_list, same_list-eq, same_list-ne}
use native.Mathlib.Decide.{ℕ_discrete}
use inf3_os.Base.{
  Bool-cases, if◌then◌else◌, length, ◌||◌, false, Bool, true, ℕ, ◌<◌, ◌≡◌, ◌≢◌, refl, sym, ap, ◌∙◌,
  List, [], ◌∷◌, none, some, arith, Option-cases, inl, inr,
}
use inf3_os.Fs.Forest.{Children, step_to, reach, reach_next, reach_unique, IsForest}

-- A path leads further down from another.
abbrev pub is_under : List ℕ → List ℕ → Bool
is_under top [] = false
is_under top (key ∷ path) = same_list path top || is_under top path

is_under-length : (top path : List ℕ) → is_under top path ≡ true → length top < length path
is_under-length top [] h = cc
is_under-length top (key ∷ path) h = elim (Bool-cases (same_list path top)) [
  | inl same ↦ omega (arith, ap length (same_list-eq path top same))
  | inr other ↦
      let deeper : is_under top path ≡ true = ground (h, other, arith) in
      omega (arith, is_under-length top path deeper)
]

pub not_under_itself : (top : List ℕ) → is_under top top ≡ false
not_under_itself top = elim (Bool-cases (is_under top top)) [
  | inl h ↦ absurd (omega (arith, is_under-length top top h))
  | inr h ↦ h
]

-- `after` is `before` without the children of a node.
pub record IsCut (before after : Children) (n : ℕ) : Type 0 where
  pub gone : (key : ℕ) → after n key ≡ none
  pub others : (m key : ℕ) → m ≢ n → after m key ≡ before m key

module _ (before after : Children) (root counter n : ℕ) (top : List ℕ)
    (f : IsForest before root counter) (cut : IsCut before after n)
    (at_top : reach before root top ≡ some n) where
  cut_child : (m key c : ℕ) → after m key ≡ some c → before m key ≡ some c
  cut_child m key c h = elim (ℕ_discrete m n) [
    | yes e ↦ let bad = sym (ap (λ k. after k key) e ∙ cut.gone key) ∙ h in cc
    | no other ↦ sym (cut.others m key other) ∙ h
  ]

  pub cut-IsForest : IsForest after root counter
  cut-IsForest = record {
    root_low = f.root_low;
    low = λ m key c h. f.low m key c (cut_child m key c h);
    unique = λ m k key other c h g.
        f.unique m k key other c (cut_child m key c h) (cut_child k other c g);
  }

  -- Only the paths further down lead nowhere.
  pub reach_cut :
      (q : List ℕ) → reach after root q ≡ (if is_under top q then none else reach before root q)
  unfolding reach
  reach_cut [] = refl
  reach_cut (key ∷ q) = elim (Bool-cases (same_list q top)) [
    | inl same ↦
        let e = same_list-eq q top same in
        let apart : is_under top q ≡ false = ap (is_under top) e ∙ not_under_itself top in
        let at_n : reach after root q ≡ some n =
          reach_cut q ∙ rw apart (ap (reach before root) e ∙ at_top) in
        rw same (reach_next after root key n q at_n ∙ cut.gone key)
    | inr other ↦ elim (Bool-cases (is_under top q)) [
      | inl deeper ↦
          let nowhere : reach after root q ≡ none = reach_cut q ∙ rw deeper refl in
          rw (other, deeper) (ap (λ o. step_to after o key) nowhere)
      | inr apart ↦
          let kept : reach after root q ≡ reach before root q = reach_cut q ∙ rw apart refl in
          rw (other, apart)
            (elim (Option-cases (reach before root q)) [
              | inl nowhere ↦
                  ap (λ o. step_to after o key) (kept ∙ nowhere)
                  ∙ sym (ap (λ o. step_to before o key) nowhere)
              | inr (m, found) ↦
                  ap (λ o. step_to after o key) (kept ∙ found)
                  ∙ cut.others m key (λ e.
                    same_list-ne q top other
                      (reach_unique before root counter f q top n (found ∙ ap some e) at_top))
                  ∙ sym (ap (λ o. step_to before o key) found)
            ])
    ]
  ]
