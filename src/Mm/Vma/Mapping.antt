-- ===== src/Mm/Vma/Mapping.antt =====
-- CourseWorks/infos/mm/vma.cpp: `get_mapping` after `insert_mapping`.
use inf3_os.Base.{
  ℕ, ◌+◌, ◌*◌, ◌/◌, ◌%◌, ◌≡◌, ◌≢◌, ◌⊎◌, inl, inr, true, false, Option, none, some, List, [], ◌∷◌,
  Outcome, ok, panic, arith, refl, ap, sym, ◌∙◌,
}
use inf3_os.Mm.Memory.{page_size}
use inf3_os.Mm.Vma.{
  Tables, Vma, is_present, has_flag, page_entry, insert_mapping, get_mapping, put_entry, put_tables,
  pml4_idx, pdp_idx, pd_idx, pt_idx,
}
use inf3_os.Mm.Vma.Entries.{page_entry-page}
use inf3_os.Mm.Vma.Walking.{
  walk, translate, get_mapping-translate, indices, lower_indices, is_kernel_slot, Tree, IsTree,
}
use inf3_os.Mm.Vma.Source.{
  PageSource, IsOrdered, Refuses, Refuses-later, Runs, no_calls, Runs-append,
}
use inf3_os.Mm.Vma.Inserting.{Descends, descend-Descends}
use inf3_os.Mm.Vma.Leaves.{IsTree-leaf, translate-leaf_here, translate-leaf_other}

abbrev first_index : List ℕ → ℕ
first_index [] = 0
first_index (idx ∷ rest) = idx

-- The address that a whole list of indices gives.
abbrev translate_from : Tables → ℕ → ℕ → List ℕ → Option ℕ
translate_from tables offset root [] = none
translate_from tables offset root (idx ∷ rest) = translate tables offset root idx rest

module _ {State : Type 0} {alloc_pages : State → ℕ → Outcome (State × Option ℕ)}
    (source : PageSource alloc_pages) where
  -- The area after an address was mapped. All addresses with the same indices give the physical
  -- page, when `Present` was asked for; user addresses with other indices give what they gave.
  pub record Maps (vma : Vma State) (va pa flags : ℕ) (after : Vma State) (now : Tree)
      : Type 0 where
    pub ordered : IsOrdered source after now
    pub runs : Runs alloc_pages 3 vma.pgalloc after.pgalloc
    pub mapped :
        (other : ℕ)
        → indices other ≡ indices va
        → has_flag flags 1 ≡ true
        → get_mapping after other ≡ ok (some (pa / page_size * page_size + other % page_size))
    pub others :
        (other : ℕ)
        → is_kernel_slot (pml4_idx other) ≡ false
        → indices other ≢ indices va
        → get_mapping after other ≡ get_mapping vma other

  same_slot :
      (other va : ℕ)
      → indices other ≡ indices va
      → is_kernel_slot (pml4_idx va) ≡ false
      → is_kernel_slot (pml4_idx other) ≡ false
  same_slot other va e user =
      let first : pml4_idx other ≡ pml4_idx va = ap first_index e in ap is_kernel_slot first ∙ user

  -- Three levels down, and the walk that they make.
  record Reaches (vma : Vma State) (va : ℕ) (mid : Vma State) (leaf : ℕ) (now : Tree) : Type 0 where
    ordered : IsOrdered source mid now
    runs : Runs alloc_pages 3 vma.pgalloc mid.pgalloc
    is_leaf : now.is_table leaf ≡ true
    deep : now.level leaf ≡ 3
    same_base : mid.pgt_phys_base ≡ vma.pgt_phys_base
    walks :
        walk mid.tables (vma.pgt_phys_base / page_size) (pml4_idx va) (lower_indices va)
        ≡ some (leaf, pt_idx va)
    same :
        (offset other : ℕ)
        → is_kernel_slot (pml4_idx other) ≡ false
        → translate mid.tables offset
            (vma.pgt_phys_base / page_size)
            (pml4_idx other)
            (lower_indices other)
          ≡ translate vma.tables offset
              (vma.pgt_phys_base / page_size)
              (pml4_idx other)
              (lower_indices other)

  reaches :
      (vma : Vma State) (tree : Tree) (va : ℕ) {a b c : Vma State} {pdp pd pt : ℕ} {s t u : Tree}
      → IsOrdered source vma tree
      → is_kernel_slot (pml4_idx va) ≡ false
      → Descends source vma tree (vma.pgt_phys_base / page_size) (pml4_idx va) a pdp s
      → Descends source a s pdp (pdp_idx va) b pd t
      → Descends source b t pd (pd_idx va) c pt u
      → Reaches vma va c pt u
  unfolding walk
  reaches vma tree va {a} {b} {c} {pdp} {pd} {pt} {s} {t} {u} (valid, o) user first second third =
      let root = vma.pgt_phys_base / page_size in
      let (root_s, level_s) = first.kept root o.root_table in
      let (root_t, level_t) = second.kept root root_s in
      let (pdp_t, plevel_t) = second.kept pdp first.next_table in
      let e_b = second.steady root (pml4_idx va) root_s first.reached.0 in
      let e_c =
        third.steady root (pml4_idx va) root_t (ap (λ e. is_present e) e_b ∙ first.reached.0) in
      let f_c = third.steady pdp (pdp_idx va) pdp_t second.reached.0 in
      record {
        ordered = third.ordered;
        runs =
            Runs-append alloc_pages 1 2 3 vma.pgalloc a.pgalloc c.pgalloc (omega arith) first.runs (
              Runs-append alloc_pages 1 1 2 a.pgalloc b.pgalloc c.pgalloc (omega arith) second.runs
                third.runs);
        is_leaf = third.next_table;
        deep = omega (arith, third.next_level, second.next_level, first.next_level, o.root_level);
        same_base = third.same_base ∙ second.same_base ∙ first.same_base;
        walks =
            rw
              (
                e_c, e_b, first.reached.0, first.reached.1, f_c, second.reached.0, second.reached.1,
                third.reached.0, third.reached.1,
              )
              refl;
        same = λ offset other h.
            third.same offset root (pml4_idx other) (lower_indices other) root_t
              (omega (arith, level_t, level_s, o.root_level)) (λ z. h)
            ∙ second.same offset root (pml4_idx other) (lower_indices other) root_s
                (omega (arith, level_s, o.root_level)) (λ z. h)
            ∙ first.same offset root (pml4_idx other) (lower_indices other) o.root_table
                (omega (arith, o.root_level)) (λ z. h);
      }

  maps :
      (vma : Vma State) (tree : Tree) (va pa flags : ℕ) {mid : Vma State} {leaf : ℕ} {now : Tree}
      → IsOrdered source vma tree
      → is_kernel_slot (pml4_idx va) ≡ false
      → Reaches vma va mid leaf now
      → Maps vma va pa flags
          (put_tables mid (
            put_entry mid.tables leaf
              (pt_idx va)
              (page_entry (mid.tables leaf (pt_idx va)) pa flags)))
          now
  maps vma tree va pa flags {mid} {leaf} {now} o user r =
      let root = vma.pgt_phys_base / page_size in
      let entry = page_entry (mid.tables leaf (pt_idx va)) pa flags in
      let base : mid.pgt_phys_base / page_size ≡ root = ap (λ b. b / page_size) r.same_base in
      let tree_mid : IsTree (source.is_free mid.pgalloc) mid.tables root now =
        rw base at r.ordered.1 in
      let after = put_tables mid (put_entry mid.tables leaf (pt_idx va) entry) in
      let tree_after : IsTree (source.is_free mid.pgalloc) after.tables
          (after.pgt_phys_base / page_size) now =
        IsTree-leaf r.ordered.1 leaf (pt_idx va) entry r.is_leaf r.deep in
      record {
        ordered = (r.ordered.0, tree_after);
        runs = r.runs;
        mapped = λ other e present.
            let (points, there) = page_entry-page (mid.tables leaf (pt_idx va)) pa flags present in
            get_mapping-translate (source.is_free mid.pgalloc) after now other tree_after
              (same_slot other va e user)
            ∙ ap ok (
                ap
                  (λ p.
                    translate after.tables (other % page_size) p (pml4_idx other)
                      (lower_indices other))
                  base
                ∙ ap (translate_from after.tables (other % page_size) root) e
                ∙ translate-leaf_here tree_mid leaf (pt_idx va) entry r.is_leaf r.deep
                    (other % page_size) (pml4_idx va) (lower_indices va) (omega arith) (λ z. user)
                    r.walks
                ∙ rw (there, points) refl);
        others = λ other h ne.
            get_mapping-translate (source.is_free mid.pgalloc) after now other tree_after h
            ∙ ap ok (
                ap
                  (λ p.
                    translate after.tables (other % page_size) p (pml4_idx other)
                      (lower_indices other))
                  base
                ∙ translate-leaf_other tree_mid leaf (pt_idx va) entry r.is_leaf r.deep
                    (other % page_size) (pml4_idx va) (pml4_idx other) (lower_indices va)
                    (lower_indices other) (omega arith) (omega arith) (λ z. user) (λ z. h) r.walks
                    ne
                ∙ r.same (other % page_size) other h)
            ∙ sym (get_mapping-translate (source.is_free vma.pgalloc) vma tree other o.1 h);
      }

  -- `insert_mapping` at an address of the user's part, on an area whose tables are in order and a
  -- page allocator that gives out free pages only. It panics only when on one of the
  -- at most three calls for a page table, from the allocator's state on, the page allocator panics or
  -- answers NULL, or gives a page at or above 4 GiB, for which `pa_to_vpa` panics. Otherwise the tables are again in order; where `Present` was asked for, the
  -- address, and each with the same indices, gives the physical page; and every other user
  -- address gives what it gave before.
  pub insert_mapping-Maps :
      (vma : Vma State) (tree : Tree) (va pa flags : ℕ)
      → IsOrdered source vma tree
      → is_kernel_slot (pml4_idx va) ≡ false
      → ((after : Vma State) × (now : Tree) × (insert_mapping alloc_pages vma va pa flags
            ≡ ok after)
          × Maps vma va pa flags after now)
        ⊎ (insert_mapping alloc_pages vma va pa flags ≡ panic) × Refuses source 3 vma.pgalloc
  unfolding insert_mapping
  insert_mapping-Maps vma tree va pa flags o user =
      elim (descend-Descends source vma tree (vma.pgt_phys_base / page_size) (pml4_idx va) o
        o.1.root_table (omega (arith, o.1.root_level)) (λ z. user)) [
          | inr (stops, why) ↦ inr (
            rw stops refl,
            Refuses-later source 0 1 3 vma.pgalloc vma.pgalloc (omega arith)
                (no_calls 0 vma.pgalloc) why,
          )
          | inl (a, pdp, s, done_a, first) ↦
              elim (descend-Descends source a s pdp (pdp_idx va) first.ordered first.next_table
                (omega (arith, first.next_level, o.1.root_level))
                (λ z. absurd (omega (arith, first.next_level)))) [
                  | inr (stops, why) ↦ inr (
                    rw (done_a, stops) refl,
                    Refuses-later source 1 1 3 vma.pgalloc a.pgalloc (omega arith) first.runs why,
                  )
                  | inl (b, pd, t, done_b, second) ↦
                      elim (descend-Descends source b t pd (pd_idx va) second.ordered
                        second.next_table
                        (omega (arith, second.next_level, first.next_level, o.1.root_level))
                        (λ z. absurd (omega (arith, second.next_level)))) [
                          | inr (stops, why) ↦ inr (
                            rw (done_a, done_b, stops) refl,
                            Refuses-later source 1 2 3 vma.pgalloc a.pgalloc (omega arith)
                                first.runs
                                (Refuses-later source 1 1 2 a.pgalloc b.pgalloc (omega arith)
                                  second.runs why),
                          )
                          | inl (c, pt, u, done_c, third) ↦ inl (
                            _,
                            u,
                            rw (done_a, done_b, done_c) refl,
                            maps vma tree va pa flags o user
                                (reaches vma tree va o user first second third),
                          )
                        ]
                ]
        ]
