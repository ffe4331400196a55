-- ===== src/Mm/Vma/Leaves.antt =====
-- CourseWorks/infos/mm/vma.cpp: an entry of a table of the last level set, seen from the walks.
use native.Mathlib.Decide.{ℕ_discrete}
use inf3_os.Base.{
  ℕ, ◌+◌, ◌<◌, ◌≡◌, ◌≢◌, ◌⊎◌, inl, inr, Bool, true, some, Option-cases, List, [], ◌∷◌, length,
  arith, refl, ap, sym, ◌∙◌,
}
use inf3_os.Mm.Vma.{Tables, put_entry}
use inf3_os.Mm.Vma.Entries.{put_entry_here, put_entry_other}
use inf3_os.Mm.Vma.Walking.{
  page_of, read_entry, read_at, translate, translate-walk, walk, walk-trail, trail, Tree, IsUser,
  IsTree,
}

module _ {is_free : ℕ → Bool} {tables : Tables} {root : ℕ} {tree : Tree}
    (t : IsTree is_free tables root tree) (leaf idx entry : ℕ) (is : tree.is_table leaf ≡ true)
    (deep : tree.level leaf ≡ 3) where
  abbrev pub with_leaf : Tables
  with_leaf = put_entry tables leaf idx entry

  above : (page i : ℕ) → tree.level page < 3 → with_leaf page i ≡ tables page i
  above page i low =
      put_entry_other tables leaf idx entry page i
        (inl (λ e. let l = ap tree.level e in omega arith))

  pub IsTree-leaf : IsTree is_free with_leaf root tree
  IsTree-leaf = record {
    root_table = t.root_table;
    root_level = t.root_level;
    taken = t.taken;
    below = t.below;
    entries = λ page i h low user. rw (above page i low) (t.entries page i h low user);
  }

  walk-leaf :
      (page i : ℕ) (rest : List ℕ)
      → tree.is_table page ≡ true
      → tree.level page + length rest ≡ 3
      → IsUser tree page i
      → walk with_leaf page i rest ≡ walk tables page i rest
  unfolding walk
  walk-leaf page i [] h l user = refl
  walk-leaf page i (next ∷ rest) h l user = elim (t.entries page i h (omega arith) user) [
    | inl (gone, b) ↦ rw (above page i (omega arith), gone) refl
    | inr (there, b, at, level, up, slot) ↦
        rw (above page i (omega arith), there)
          (walk-leaf (page_of (tables page i)) next rest at (omega (arith, level))
            (λ z. absurd (omega (arith, level))))
  ]

  root_deep : (rest : List ℕ) → length rest ≡ 3 → tree.level root + length rest ≡ 3
  root_deep rest three = omega (arith, t.root_level)

  -- The address at the end of the walk that leads to the entry.
  pub translate-leaf_here :
      (offset i : ℕ) (rest : List ℕ)
      → length rest ≡ 3
      → IsUser tree root i
      → walk tables root i rest ≡ some (leaf, idx)
      → translate with_leaf offset root i rest ≡ read_entry entry offset
  translate-leaf_here offset i rest three user ends =
      translate-walk with_leaf offset root i rest
      ∙ ap (read_at with_leaf offset)
          (walk-leaf root i rest t.root_table (root_deep rest three) user ∙ ends)
      ∙ ap (λ e. read_entry e offset) (put_entry_here tables leaf idx entry)

  -- All other walks end as before.
  pub translate-leaf_other :
      (offset i i' : ℕ) (rest rest' : List ℕ)
      → length rest ≡ 3
      → length rest' ≡ 3
      → IsUser tree root i
      → IsUser tree root i'
      → walk tables root i rest ≡ some (leaf, idx)
      → (i' ∷ rest') ≢ (i ∷ rest)
      → translate with_leaf offset root i' rest' ≡ translate tables offset root i' rest'
  translate-leaf_other offset i i' rest rest' three three' user user' ends ne =
      translate-walk with_leaf offset root i' rest'
      ∙ ap (read_at with_leaf offset)
          (walk-leaf root i' rest' t.root_table (root_deep rest' three') user')
      ∙ same
      ∙ sym (translate-walk tables offset root i' rest')
    where
      apart :
          (last end : ℕ)
          → walk tables root i' rest' ≡ some (last, end)
          → (last ≢ leaf) ⊎ (end ≢ idx)
      apart last end found = elim (ℕ_discrete last leaf) [
        | no other ↦ inl other
        | yes e ↦ inr (λ f.
            let (r, s, h, d) =
              walk-trail is_free tables root tree root i rest t t.root_table (root_deep rest three)
                user ends in
            let (r', s', h', d') =
              walk-trail is_free tables root tree root i' rest' t t.root_table
                (root_deep rest' three') user' found in
            ne (
              s'
              ∙ ap (λ n. trail tree n last end) (three' ∙ sym three)
              ∙ ap (λ p. trail tree (length rest) p end) e
              ∙ ap (trail tree (length rest) leaf) f
              ∙ sym s))
      ]

      same :
          read_at with_leaf offset (walk tables root i' rest')
          ≡ read_at tables offset (walk tables root i' rest')
      same = elim (Option-cases (walk tables root i' rest')) [
        | inl e ↦ rw e refl
        | inr ((last, end), e) ↦ rw e (
            ap (λ z. read_entry z offset)
              (put_entry_other tables leaf idx entry last end (apart last end e)))
      ]
