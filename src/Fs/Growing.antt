-- ===== src/Fs/Growing.antt =====
-- CourseWorks/infos/fs/vfs-node.cpp and CourseWorks/coursework/tarfs.cpp: nodes with a `Map` of
-- children by the hashes of their names, and a new node among them.
use native.Mathlib.Decide.{ℕ_discrete}
use inf3_os.Util.Map
use inf3_os.Util.Map.Entries
use inf3_os.Base.{
  ℕ, ◌≡◌, ◌≢◌, refl, sym, ap, ◌∙◌, subst, false, none, arith, ◌==◌, ==_refl, Option-cases, inl, inr,
}
use inf3_os.Util.Map.{Map, try_get_value}
use inf3_os.Util.Map.Adding.{IsMap, IsAdded}
use inf3_os.Fs.Forest.{Children, IsForest, IsGrown}

pub new-IsMap : IsMap {V = ℕ} Map.new
unfolding Entries.entries
new-IsMap = record { height = 0; shaped = tt; black_root = refl; sorted = tt; counted = refl }

-- The children that maps hold.
abbrev pub links : (ℕ → Map ℕ) → Children
links maps n key = try_get_value (maps n) key

-- A new node at the first free place, and its parent's map with it.
pub record IsExtended (before after : ℕ → Map ℕ) (parent key counter : ℕ) : Type 0 where
  pub added : IsAdded (before parent) (after parent) key counter
  pub fresh : after counter ≡ Map.new
  pub others : (n : ℕ) → n ≢ parent → n ≢ counter → after n ≡ before n

module _ (before after : ℕ → Map ℕ) (parent key counter : ℕ)
    (extended : IsExtended before after parent key counter) where
  pub extended-IsMap : ((n : ℕ) → IsMap (before n)) → (n : ℕ) → IsMap (after n)
  extended-IsMap valid n = elim (ℕ_discrete n parent) [
    | yes e ↦ subst (λ m. IsMap (after m)) (sym e) extended.added.valid
    | no a ↦ elim (ℕ_discrete n counter) [
      | yes e ↦
          subst (λ m. IsMap (after m)) (sym e) (subst (λ m. IsMap m) (sym extended.fresh) new-IsMap)
      | no b ↦ subst (λ m. IsMap m) (sym (extended.others n a b)) (valid n)
    ]
  ]

  -- A free place has no children.
  nothing_free : IsForest (links before) 0 counter → (j : ℕ) → links before counter j ≡ none
  nothing_free forest j = elim (Option-cases (links before counter j)) [
    | inl h ↦ h
    | inr (c, h) ↦ absurd (omega (arith, (forest.low counter j c h).0))
  ]

  pub extended-IsGrown :
      IsForest (links before) 0 counter → IsGrown (links before) (links after) parent key counter
  unfolding try_get_value Map.find
  extended-IsGrown forest = record {
    there = extended.added.reads key ∙ rw (==_refl key) refl;
    others = λ n j differs. elim (ℕ_discrete n parent) [
      | yes e ↦
          let other : (j == key) ≡ false = ground (arith, λ (h : j ≡ key). differs (e, h)) in
          ap (λ m. links after m j) e
          ∙ extended.added.reads j
          ∙ rw other refl
          ∙ ap (λ m. links before m j) (sym e)
      | no a ↦ elim (ℕ_discrete n counter) [
        | yes e ↦
            ap (λ m. links after m j) e
            ∙ ap (λ m. try_get_value m j) extended.fresh
            ∙ sym (nothing_free forest j)
            ∙ ap (λ m. links before m j) (sym e)
        | no b ↦ ap (λ m. try_get_value m j) (extended.others n a b)
      ]
    ];
  }
