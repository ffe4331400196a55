-- ===== src/Mm/Vma/Ranges.antt =====
-- CourseWorks/infos/mm/vma.cpp: `allocate_virt`, which maps a range of pages.
use inf3_os.Base.{
  ℕ, ◌+◌, ◌-◌, ◌*◌, ◌^◌, ◌≤◌, ◌<◌, ◌≡◌, ◌⊎◌, Bool, true, false, Option, none, some, [], ◌∷◌,
  Outcome, ok, panic, ◌++◌,
}
use inf3_os.Mm.Memory.{page_size}
use inf3_os.Mm.Vma.{Vma, get_mapping, zero_pages}
use inf3_os.Mm.Vma.Walking.{low_end, Tree}
use inf3_os.Mm.Vma.Source.{PageSource, IsOrdered, Refuses}
use inf3_os.Mm.Vma.Numbering.{user_end}

module _ {State : Type 0} {alloc_pages : State → ℕ → Outcome (State × Option ℕ)}
    (source : PageSource alloc_pages) where
  -- The area after `n` pages from `vbase` on were mapped to those from `pbase` on. Each address of
  -- the range gives the physical address as far from `pbase`; the other addresses of the user's part
  -- give what they gave.
  pub record MapsRange (vma : Vma State) (vbase pbase n : ℕ) (after : Vma State) (now : Tree)
      : Type 0 where
    pub ordered : IsOrdered source after now
    pub mapped :
        (other : ℕ)
        → vbase ≤ other
        → other < vbase + n * page_size
        → get_mapping after other ≡ ok (some (pbase + (other - vbase)))
    pub others :
        (other : ℕ)
        → other < user_end
        → (other < vbase) ⊎ (vbase + n * page_size ≤ other)
        → get_mapping after other ≡ get_mapping vma other

  -- What `allocate_virt` answers: true with the range mapped to a block, or false where the page
  -- allocator answers NULL; or it panics, with the page allocator, or where that gives a block at
  -- or above 4 GiB, or after the block refuses a page table.
  abbrev pub AllocatesVirt : Vma State → ℕ → ℕ → Outcome (Vma State × Bool) → Type 0
  AllocatesVirt vma va order panic =
      (alloc_pages vma.pgalloc order ≡ panic)
      ⊎ ((state : State) × (pgd : ℕ) × (alloc_pages vma.pgalloc order ≡ ok (state, some pgd))
          × ((low_end ≤ pgd) ⊎ Refuses source (3 * 2 ^ order) state))
  AllocatesVirt vma va order (ok (after, false)) =
      (state : State) × (alloc_pages vma.pgalloc order ≡ ok (state, none))
  AllocatesVirt vma va order (ok (after, true)) =
      (pgd : ℕ) × (now : Tree) × MapsRange vma va (pgd * page_size) (2 ^ order) after now

  -- The area with a zeroed block more.
  abbrev with_block : Vma State → ℕ → ℕ → State → Vma State
  with_block vma order pgd state = record {
    pgt_phys_base = vma.pgt_phys_base;
    page_allocations = vma.page_allocations ++ (pgd, order) ∷ [];
    pgalloc = state;
    tables = zero_pages vma.tables pgd (2 ^ order);
  }
