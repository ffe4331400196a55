-- ===== src/Mm/Vma/Starting.antt =====
-- CourseWorks/infos/mm/vma.cpp: the constructor and `install_default_kernel_mapping`.
use native.Mathlib.Decide.{ℕ_discrete}
use inf3_os.Base.{
  [], ◌∷◌, ℕ, ◌*◌, ◌/◌, ◌%◌, ◌≡◌, ◌⊎◌, inl, inr, false, ◌+◌, Bool-cases, ◌==◌, ==_refl, ==_iff,
  Option, none, some, Outcome, Outcome-cases, ok, panic, arith, refl, ap, sym, subst, ◌∙◌,
}
use inf3_os.Mm.Memory.{page_size}
use inf3_os.Mm.Vma.{
  pmem_va_start, is_low, Vma, Tables, new, allocate_phys, get_mapping,
  install_default_kernel_mapping, put_entry, zero_pages, pml4_idx,
}
use inf3_os.Mm.Vma.Entries.{zero_entry, zero_pages_here, put_entry_other}
use inf3_os.Mm.Vma.Walking.{
  IsUser, translate-agree, get_mapping-translate, lower_indices, is_kernel_slot, IsTree, Tree,
}
use inf3_os.Mm.Vma.Source.{Supplies, PageSource, IsOrdered, Refuses, no_calls}

-- The root alone.
abbrev pub root_tree : ℕ → Tree
root_tree root = record {
  is_table = λ page. page == root;
  level = λ page. 0;
  up = λ page. 0;
  slot = λ page. 0;
}

module _ {State : Type 0} {alloc_pages : State → ℕ → Outcome (State × Option ℕ)}
    (source : PageSource alloc_pages) where
  -- The constructor, on a valid page allocator that gives out free pages only. It panics only
  -- when the page allocator panics or answers NULL, or gives a page at or above 4 GiB. Otherwise the tables are in order, and no
  -- address is mapped.
  pub new-IsOrdered :
      (pgalloc : State) (tables : Tables)
      → source.IsValid pgalloc
      → ((vma : Vma State) × (tree : Tree) × (new alloc_pages pgalloc tables ≡ ok vma)
          × IsOrdered source vma tree
          × ((va : ℕ) → get_mapping vma va ≡ ok none))
        ⊎ (new alloc_pages pgalloc tables ≡ panic) × Refuses source 1 pgalloc
  unfolding new allocate_phys get_mapping
  new-IsOrdered pgalloc tables valid = elim (Outcome-cases (alloc_pages pgalloc 0)) [
    | inl stops ↦ inr (rw stops refl, (0, pgalloc, omega arith, no_calls 0 pgalloc, inl stops))
    | inr ((state, none), gives) ↦
        inr (rw gives refl, (0, pgalloc, omega arith, no_calls 0 pgalloc, inr (inl (state, gives))))
    | inr ((state, some root), gives) ↦ elim (Bool-cases (is_low (root * page_size))) [
      | inr high ↦ inr (
        rw (gives, high) refl,
        (0, pgalloc, omega arith, no_calls 0 pgalloc, inr (inr (state, root, gives, ground arith))),
      )
      | inl reached ↦
          let (now_valid, free, now_free) =
            subst (Supplies source.is_free source.IsValid pgalloc 0) gives
              (source.supplies pgalloc 0 (omega arith) valid) in
          let at : root * page_size / page_size ≡ root = omega arith in
          let blank : (i : ℕ) → zero_pages tables root 1 (root * page_size / page_size) i ≡ 0 =
            λ i. rw at (zero_pages_here tables root i) in
          inl (
            record {
              pgt_phys_base = root * page_size;
              page_allocations = (root, 0) ∷ [];
              pgalloc = state;
              tables = zero_pages tables root 1;
            },
            root_tree root,
            rw (gives, reached) refl,
            (
              now_valid,
              record {
                root_table = rw at (==_refl root);
                root_level = refl;
                taken = λ page h. rw (now_free page, (==_iff page root).0 h) (ground arith);
                below = λ page h. rw ((==_iff page root).0 h) (ground arith);
                entries = λ page i h low user.
                    inl (rw ((==_iff page root).0 h, zero_pages_here tables root i) zero_entry);
              },
            ),
            λ va.
                let based : (pmem_va_start + root * page_size == 0) ≡ false = ground arith in
                rw (based, blank (pml4_idx va), zero_entry.0) refl,
          )
    ]
  ]

  -- The two entries for the kernel.
  abbrev with_kernel : Vma State → (ℕ → ℕ) → Tables
  with_kernel vma template =
      put_entry (put_entry vma.tables (vma.pgt_phys_base / page_size) 511 (template 511))
        (vma.pgt_phys_base / page_size) 256 (template 256)

  user_entry :
      (vma : Vma State) (tree : Tree) (template : ℕ → ℕ) (page i : ℕ)
      → tree.level (vma.pgt_phys_base / page_size) ≡ 0
      → IsUser tree page i
      → with_kernel vma template page i ≡ vma.tables page i
  user_entry vma tree template page i top user =
      let root = vma.pgt_phys_base / page_size in
      elim (ℕ_discrete page root) [
        | no ne ↦
            put_entry_other (put_entry vma.tables root 511 (template 511)) root 256 (template 256)
              page i (inl ne)
            ∙ put_entry_other vma.tables root 511 (template 511) page i (inl ne)
        | yes e ↦
            let here = user (ap tree.level e ∙ top) in
            put_entry_other (put_entry vma.tables root 511 (template 511)) root 256 (template 256)
              page i (inr (ground arith))
            ∙ put_entry_other vma.tables root 511 (template 511) page i (inr (ground arith))
      ]

  install-IsTree :
      (vma : Vma State) (tree : Tree) (template : ℕ → ℕ)
      → IsTree (source.is_free vma.pgalloc) vma.tables (vma.pgt_phys_base / page_size) tree
      → IsTree
          (source.is_free vma.pgalloc)
          (with_kernel vma template)
          (vma.pgt_phys_base / page_size)
          tree
  install-IsTree vma tree template t = record {
    root_table = t.root_table;
    root_level = t.root_level;
    taken = t.taken;
    below = t.below;
    entries = λ page i h low user.
        rw (user_entry vma tree template page i t.root_level user) (t.entries page i h low user);
  }

  -- The entries for the kernel leave the tables in order, and the user addresses as they were.
  pub install_default_kernel_mapping-IsOrdered :
      (vma : Vma State) (tree : Tree) (template : ℕ → ℕ)
      → IsOrdered source vma tree
      → IsOrdered source (install_default_kernel_mapping template vma) tree
        × ((va : ℕ)
            → is_kernel_slot (pml4_idx va) ≡ false
            → get_mapping (install_default_kernel_mapping template vma) va ≡ get_mapping vma va)
  unfolding install_default_kernel_mapping
  install_default_kernel_mapping-IsOrdered vma tree template (valid, t) =
      let root = vma.pgt_phys_base / page_size in
      (
        (valid, install-IsTree vma tree template t),
        λ va h.
            get_mapping-translate (source.is_free vma.pgalloc)
              (install_default_kernel_mapping template vma) tree va
              (install-IsTree vma tree template t) h
            ∙ ap ok (
                translate-agree (source.is_free vma.pgalloc) vma.tables (with_kernel vma template)
                  root tree (va % page_size) root (pml4_idx va) (lower_indices va) t
                  (λ page i h user. user_entry vma tree template page i t.root_level user)
                  t.root_table (omega (arith, t.root_level)) (λ z. h))
            ∙ sym (get_mapping-translate (source.is_free vma.pgalloc) vma tree va t h),
      )
