-- ===== src/Mm/Vma/Descending.antt =====
-- CourseWorks/infos/mm/vma.cpp: a new page table, seen from the walks.
use native.Mathlib.Decide.{ℕ_discrete}
use inf3_os.Base.{
  ℕ, suc, ◌+◌, ◌<◌, ◌≡◌, ◌≢◌, ◌⊎◌, inl, inr, Bool, true, false, ◌==◌, if◌then◌else◌, none, List, [],
  ◌∷◌, length, Bool-cases, arith, refl, ap, sym, ◌∙◌,
}
use inf3_os.Base.{subst, ◌/◌, ==_refl, ==_iff}
use inf3_os.Mm.Memory.{page_size}
use inf3_os.Mm.Vma.{Tables, is_present}
use inf3_os.Mm.Vma.Entries.{zero_entry}
use inf3_os.Mm.Vma.Walking.{page_of, translate, Tree, IsUser, IsEntry, IsTree, low_end}

-- The tables after an empty entry of `table` was made to point to the zeroed page `fresh`.
pub record Grows (before after : Tables) (tree : Tree) (table idx fresh : ℕ) : Type 0 where
  pub empty : is_present (before table idx) ≡ false
  pub present : is_present (after table idx) ≡ true
  pub points : page_of (after table idx) ≡ fresh
  pub blank : (i : ℕ) → after fresh i ≡ 0
  pub others : (p i : ℕ) → p ≢ fresh → (p ≢ table) ⊎ (i ≢ idx) → after p i ≡ before p i
  pub unused : tree.is_table fresh ≡ false
  pub proper : fresh ≢ 0

-- The tree with the new table.
abbrev pub grown : Tree → ℕ → ℕ → ℕ → Tree
grown tree table idx fresh = record {
  is_table = λ page. if page == fresh then true else tree.is_table page;
  level = λ page. if page == fresh then suc (tree.level table) else tree.level page;
  up = λ page. if page == fresh then table else tree.up page;
  slot = λ page. if page == fresh then idx else tree.slot page;
}

module _ {before after : Tables} {tree : Tree} {table idx fresh : ℕ}
    (g : Grows before after tree table idx fresh) where
  pub old_table : (page : ℕ) → tree.is_table page ≡ true → page ≢ fresh
  old_table page is = λ e. let bad = g.unused in let other = rw e at is in cc

  -- Nothing is reached through an empty table.
  translate-blank : (offset i : ℕ) (rest : List ℕ) → translate after offset fresh i rest ≡ none
  unfolding translate
  translate-blank offset i [] = rw (g.blank i, zero_entry.0) refl
  translate-blank offset i (next ∷ rest) = rw (g.blank i, zero_entry.0) refl

  at_entry : (p j : ℕ) → (p ≡ table) × (j ≡ idx) ⊎ ((p ≢ table) ⊎ (j ≢ idx))
  at_entry p j = elim (ℕ_discrete p table) [
    | no ne ↦ inr (inl ne)
    | yes e ↦ elim (ℕ_discrete j idx) [ yes f ↦ inl (e, f) | no ne ↦ inr (inr ne) ]
  ]

  -- An empty table changes no translation.
  pub Grows-translate :
      {is_free : ℕ → Bool} {root : ℕ} (offset page i : ℕ) (rest : List ℕ)
      → IsTree is_free before root tree
      → tree.level table < 3
      → tree.is_table page ≡ true
      → tree.level page + length rest ≡ 3
      → IsUser tree page i
      → translate after offset page i rest ≡ translate before offset page i rest
  unfolding translate
  Grows-translate offset page i [] t low is deep user =
      let there : page ≢ table = λ e. omega (arith, ap tree.level e) in
      rw (g.others page i (old_table page is) (inl there)) refl
  Grows-translate offset page i (next ∷ rest) t low is deep user = elim (at_entry page i) [
    | inl (e, f) ↦ rw (e, f, g.empty, g.present, g.points) (translate-blank offset next rest)
    | inr other ↦ elim (t.entries page i is (omega arith) user) [
      | inl (gone, b) ↦ rw (g.others page i (old_table page is) other, gone) refl
      | inr (there, b, at, level, up, slot) ↦
          rw (g.others page i (old_table page is) other, there)
            (Grows-translate offset (page_of (before page i)) next rest t low at
              (omega (arith, level)) (λ z. absurd (omega (arith, level))))
    ]
  ]

  -- The page is none of the new table's.
  abbrev pub Off : ℕ → Type 0
  Off page = (page == fresh) ≡ false

  pub off : (page : ℕ) → tree.is_table page ≡ true → Off page
  off page is = let ne = old_table page is in ground arith

  IsEntry-grown :
      (page i entry : ℕ)
      → Off page
      → IsEntry tree page i entry
      → IsEntry (grown tree table idx fresh) page i entry
  IsEntry-grown page i entry o (inl empty) = inl empty
  IsEntry-grown page i entry o (inr (there, b, at, level, up, slot)) =
      let q = off (page_of entry) at in inr (there, b, rw q at, rw (q, o) level, rw q up, rw q slot)

  IsEntry-table :
      tree.is_table table ≡ true → IsEntry (grown tree table idx fresh) table idx (after table idx)
  IsEntry-table is =
      let f : (page_of (after table idx) == fresh) ≡ true = rw g.points (==_refl fresh) in
      inr (
        g.present,
        λ z. g.proper (sym g.points ∙ ap (λ b. b / page_size) z),
        rw f refl,
        rw (f, off table is) refl,
        rw f refl,
        rw f refl,
      )

  -- The tables are again a tree, when the page is not free any more.
  pub Grows-IsTree :
      {is_free now_free : ℕ → Bool} {root : ℕ}
      → IsTree is_free before root tree
      → tree.is_table table ≡ true
      → ((page : ℕ) → is_free page ≡ false → now_free page ≡ false)
      → now_free fresh ≡ false
      → fresh < low_end
      → IsTree now_free after root (grown tree table idx fresh)
  Grows-IsTree {is_free} {now_free} {root} t is fewer gone low_fresh = record {
    root_table = rw (off root t.root_table) t.root_table;
    root_level = rw (off root t.root_table) t.root_level;
    taken = λ page h. elim (Bool-cases (page == fresh)) [
      | inl e ↦ rw ((==_iff page fresh).0 e) gone
      | inr o ↦ fewer page (t.taken page (rw o at h))
    ];
    below = λ page h. elim (Bool-cases (page == fresh)) [
      | inl e ↦ rw ((==_iff page fresh).0 e) low_fresh
      | inr o ↦ t.below page (rw o at h)
    ];
    entries = λ page i h low user. elim (Bool-cases (page == fresh)) [
      | inl e ↦ inl (rw ((==_iff page fresh).0 e, g.blank i) zero_entry)
      | inr o ↦ elim (at_entry page i) [
        | inl (e, f) ↦
            subst (λ p. IsEntry (grown tree table idx fresh) p i (after p i)) (sym e)
              (subst (λ j. IsEntry (grown tree table idx fresh) table j (after table j)) (sym f)
                (IsEntry-table is))
        | inr other ↦ rw (g.others page i (old_table page (rw o at h)) other) (
            IsEntry-grown page i (before page i) o
              (t.entries page i (rw o at h) (rw o at low) (λ z. user (rw o z))))
      ]
    ];
  }
