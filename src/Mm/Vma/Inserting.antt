-- ===== src/Mm/Vma/Inserting.antt =====
-- CourseWorks/infos/mm/vma.cpp: `insert_mapping`, level by level, on a page allocator that gives
-- out free pages only.
use native.Mathlib.Decide.{ℕ_discrete}
use inf3_os.Base.{
  ◌++◌, ==_refl, ==_iff, Outcome-cases, ℕ, suc, ◌+◌, ◌*◌, ◌<◌, ◌≡◌, ◌≢◌, ◌⊎◌, inl, inr, true, false,
  ◌==◌, Option, none, some, List, [], ◌∷◌, length, Bool-cases, Outcome, ok, panic, arith, refl, ap,
  sym, subst, ◌∙◌,
}
use inf3_os.Mm.Memory.{page_size}
use inf3_os.Mm.Vma.{
  is_low, Vma, Tables, base_address, is_present, table_entry, put_entry, zero_pages, allocate_phys,
  descend,
}
use inf3_os.Mm.Vma.Entries.{
  zero_pages_other, zero_pages_here, put_entry_other, put_entry_here, table_entry-page,
}
use inf3_os.Mm.Vma.Walking.{page_of, low_end, is_low-base, translate, Tree, IsUser, IsEntry}
use inf3_os.Mm.Vma.Source.{
  Supplies, PageSource, and_false, IsOrdered, Refuses, Runs, no_calls, gives_page,
}
use inf3_os.Mm.Vma.Descending.{old_table, off, Grows, grown, Grows-translate, Grows-IsTree}

-- An entry that is present is not the empty one.
elsewhere :
    (tables : Tables) (page i table idx : ℕ)
    → is_present (tables page i) ≡ true
    → is_present (tables table idx) ≡ false
    → (page ≢ table) ⊎ (i ≢ idx)
elsewhere tables page i table idx there gone = elim (ℕ_discrete page table) [
  | no ne ↦ inl ne
  | yes e ↦ inr (λ f. let here = rw (e, f) at there in cc)
]

module _ {State : Type 0} {alloc_pages : State → ℕ → Outcome (State × Option ℕ)}
    (source : PageSource alloc_pages) where
  -- What one level of `insert_mapping` does.
  pub record Descends (vma : Vma State) (tree : Tree) (table idx : ℕ) (after : Vma State) (next : ℕ)
      (now : Tree) : Type 0 where
    pub ordered : IsOrdered source after now
    pub next_table : now.is_table next ≡ true
    pub next_level : now.level next ≡ suc (tree.level table)
    pub reached :
        (is_present (after.tables table idx) ≡ true) × (page_of (after.tables table idx) ≡ next)
    pub kept :
        (page : ℕ)
        → tree.is_table page ≡ true
        → (now.is_table page ≡ true) × (now.level page ≡ tree.level page)
    pub steady :
        (page i : ℕ)
        → tree.is_table page ≡ true
        → is_present (vma.tables page i) ≡ true
        → after.tables page i ≡ vma.tables page i
    pub same_base : after.pgt_phys_base ≡ vma.pgt_phys_base
    pub runs : Runs alloc_pages 1 vma.pgalloc after.pgalloc
    pub same :
        (offset page i : ℕ) (rest : List ℕ)
        → tree.is_table page ≡ true
        → tree.level page + length rest ≡ 3
        → IsUser tree page i
        → translate after.tables offset page i rest ≡ translate vma.tables offset page i rest

  unshared :
      (vma : Vma State) (tree : Tree) (page fresh : ℕ)
      → IsOrdered source vma tree
      → source.is_free vma.pgalloc fresh ≡ true
      → tree.is_table page ≡ true
      → page ≢ fresh
  unshared vma tree page fresh (valid, t) free is =
      λ e. let taken = t.taken page is in let bad = rw e at taken in cc

  grows :
      (vma : Vma State) (tree : Tree) (table idx fresh : ℕ)
      → IsOrdered source vma tree
      → tree.is_table table ≡ true
      → is_present (vma.tables table idx) ≡ false
      → source.is_free vma.pgalloc fresh ≡ true
      → Grows vma.tables
          (put_entry
            (zero_pages vma.tables fresh 1)
            table
            idx
            (table_entry (zero_pages vma.tables fresh 1 table idx) fresh))
          tree
          table
          idx
          fresh
  grows vma tree table idx fresh (valid, t) is gone free =
      let clear = zero_pages vma.tables fresh 1 in
      let entry = table_entry (clear table idx) fresh in
      let here = put_entry_here clear table idx entry in
      let (points, present) = table_entry-page (clear table idx) fresh in
      let apart = unshared vma tree table fresh (valid, t) free is in
      record {
        empty = gone;
        present = ap (λ e. is_present e) here ∙ present;
        points = ap (λ e. page_of e) here ∙ points;
        blank = λ i.
            put_entry_other clear table idx entry fresh i (inl (λ e. apart (sym e)))
            ∙ zero_pages_here vma.tables fresh i;
        others = λ p i ne other.
            put_entry_other clear table idx entry p i other
            ∙ zero_pages_other vma.tables fresh p i ne;
        unused = elim (Bool-cases (tree.is_table fresh)) [
          | inl is_table ↦ let bad = t.taken fresh is_table in cc
          | inr e ↦ e
        ];
        proper = λ e.
            let zero_used = source.zero_taken vma.pgalloc valid in let bad = rw e at free in cc;
      }

  -- A table that is there already.
  descend_there :
      (vma : Vma State) (tree : Tree) (table idx : ℕ)
      → IsOrdered source vma tree
      → IsEntry tree table idx (vma.tables table idx)
      → base_address (vma.tables table idx) ≢ 0
      → Descends vma tree table idx vma (page_of (vma.tables table idx)) tree
  descend_there vma tree table idx o (inl (gone, b)) ne = absurd (ne b)
  descend_there vma tree table idx o (inr (there, b, at, level, up, slot)) ne = record {
    ordered = o;
    next_table = at;
    next_level = level;
    reached = (there, refl);
    kept = λ page is. (is, refl);
    steady = λ page i is e. refl;
    same_base = refl;
    runs = no_calls 1 vma.pgalloc;
    same = λ offset page i rest is deep user. refl;
  }

  absent :
      (tree : Tree) (table idx entry : ℕ)
      → IsEntry tree table idx entry
      → (base_address entry == 0) ≡ true
      → is_present entry ≡ false
  absent tree table idx entry (inl (gone, b)) e = gone
  absent tree table idx entry (inr (there, b, at, level, up, slot)) e =
      absurd (b ((==_iff _ 0).0 e))

  vma_after : Vma State → ℕ → ℕ → ℕ → State → Vma State
  vma_after vma table idx fresh state = record {
    pgt_phys_base = vma.pgt_phys_base;
    page_allocations = vma.page_allocations ++ (fresh, 0) ∷ [];
    pgalloc = state;
    tables =
        put_entry (zero_pages vma.tables fresh 1) table idx
          (table_entry (zero_pages vma.tables fresh 1 table idx) fresh);
  }

  -- A table on a new page.
  descend_fresh :
      (vma : Vma State) (tree : Tree) (table idx fresh : ℕ) (state : State)
      → IsOrdered source vma tree
      → tree.is_table table ≡ true
      → tree.level table < 3
      → is_present (vma.tables table idx) ≡ false
      → alloc_pages vma.pgalloc 0 ≡ ok (state, some fresh)
      → fresh < low_end
      → Supplies source.is_free source.IsValid vma.pgalloc 0 (ok (state, some fresh))
      → Descends vma tree table idx
          (vma_after vma table idx fresh state)
          fresh
          (grown tree table idx fresh)
  unfolding vma_after
  descend_fresh vma tree table idx fresh state o is low gone gives low_fresh
        (valid, free, now_free) =
      let g = grows vma tree table idx fresh o is gone (free fresh (omega arith) (omega arith)) in
      record {
        ordered = (
          valid,
          Grows-IsTree g o.1 is (λ page e. rw (now_free page, e) (and_false _))
              (rw (now_free fresh) (ground arith)) low_fresh,
        );
        next_table = rw (==_refl fresh) refl;
        next_level = rw (==_refl fresh) refl;
        reached = (g.present, g.points);
        kept = λ page h. rw (off g page h) (h, refl);
        steady = λ page i h e.
            g.others page i (old_table g page h) (elsewhere vma.tables page i table idx e gone);
        same_base = refl;
        runs = gives_page 1 0 vma.pgalloc state state fresh gives (omega arith) (no_calls 0 state);
        same = λ offset page i rest h deep user.
            Grows-translate g offset page i rest o.1 low h deep user;
      }

  -- One level fails only where the page allocator stops, answers NULL, or gives a page that is too
  -- high.
  pub descend-Descends :
      (vma : Vma State) (tree : Tree) (table idx : ℕ)
      → IsOrdered source vma tree
      → tree.is_table table ≡ true
      → tree.level table < 3
      → IsUser tree table idx
      → ((after : Vma State) × (next : ℕ) × (now : Tree) × (descend alloc_pages vma table idx
            ≡ ok (after, next))
          × Descends vma tree table idx after next now)
        ⊎ (descend alloc_pages vma table idx ≡ panic) × Refuses source 1 vma.pgalloc
  unfolding descend allocate_phys vma_after
  descend-Descends vma tree table idx o is low user =
      let entry = o.1.entries table idx is low user in
      elim (Bool-cases (base_address (vma.tables table idx) == 0)) [
        | inr there ↦
            let there_is = descend_there vma tree table idx o entry (ground arith) in
            let reachable = is_low-base (vma.tables table idx) (o.1.below _ there_is.next_table) in
            inl (vma, page_of (vma.tables table idx), tree, rw (there, reachable) refl, there_is)
        | inl gone ↦ elim (Outcome-cases (alloc_pages vma.pgalloc 0)) [
          | inl stops ↦ inr (
            rw (gone, stops) refl,
            (0, vma.pgalloc, omega arith, no_calls 0 vma.pgalloc, inl stops),
          )
          | inr ((state, none), gives) ↦ inr (
            rw (gone, gives) refl,
            (0, vma.pgalloc, omega arith, no_calls 0 vma.pgalloc, inr (inl (state, gives))),
          )
          | inr ((state, some fresh), gives) ↦ elim (Bool-cases (is_low (fresh * page_size))) [
            | inr high ↦ inr (
              rw (gone, gives, high) refl,
              (
                0,
                vma.pgalloc,
                omega arith,
                no_calls 0 vma.pgalloc,
                inr (inr (state, fresh, gives, ground arith)),
              ),
            )
            | inl reached ↦
                let low_fresh : fresh < low_end = ground arith in
                let entry_low =
                  is_low-base (table_entry (zero_pages vma.tables fresh 1 table idx) fresh) (
                    rw (table_entry-page (zero_pages vma.tables fresh 1 table idx) fresh).0
                      low_fresh) in
                let supplied =
                  subst (Supplies source.is_free source.IsValid vma.pgalloc 0) gives
                    (source.supplies vma.pgalloc 0 (omega arith) o.0) in
                let d =
                  descend_fresh vma tree table idx fresh state o is low
                    (absent tree table idx _ entry gone) gives low_fresh supplied in
                inl (
                  vma_after vma table idx fresh state,
                  page_of (table_entry (zero_pages vma.tables fresh 1 table idx) fresh),
                  grown tree table idx fresh,
                  rw (gone, gives, reached, entry_low) refl,
                  subst
                      (λ n.
                        Descends vma tree table idx (vma_after vma table idx fresh state) n
                          (grown tree table idx fresh))
                      (sym (table_entry-page (zero_pages vma.tables fresh 1 table idx) fresh).0) d,
                )
          ]
        ]
      ]
