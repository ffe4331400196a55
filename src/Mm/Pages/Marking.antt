-- ===== src/Mm/Pages/Marking.antt =====
-- CourseWorks/infos/mm/page-allocator.cpp: the types of the pages after the loops that set them.
use inf3_os.Base.{
  inr, inl, Bool-cases, ◌/◌, not, ◌∷◌, false, ◌||◌, List, ℕ, zero, suc, ◌+◌, ◌≤◌, ◌<◌, ◌≡◌, Bool,
  true, ◌&&◌, ltb, leb, if◌then◌else◌, ok, arith, refl,
}
use inf3_os.Base.{List, [], ◌∷◌, false, ◌||◌, not, ◌/◌, Bool-cases, inl, inr, ◌∙◌}
use inf3_os.Mm.Memory.{MemoryType, normal, unusable, PhysicalMemoryBlock, page_size}
use inf3_os.Mm.Pages.{
  Layout, range_size, heap_size, mark_block, mark_present, mark_page_range, mark_used, is_available,
  available, allocated, reserved, heap_size, range_size, page_size, MemoryType, is_available,
  PhysicalMemoryBlock, mark_present, Layout, mark_used, mark_page_range, PageType, Types, put_type,
  change_types, set_types,
}

-- Is the page one of the `n` pages from `start` on?
abbrev pub within : ℕ → ℕ → ℕ → Bool
within start n page = leb start page && ltb page (start + n)

pub set_types_at :
    (type : PageType) (n : ℕ) (types : Types) (pfn page : ℕ)
    → set_types type n types pfn page ≡ (if within pfn n page then type else types page)
unfolding set_types
set_types_at type zero types pfn page = ground arith
set_types_at type (suc n) types pfn page =
    rw (set_types_at type n (put_type types pfn type) (pfn + 1) page) (ground arith)

-- The loop passes when each of its pages passes the test.
pub change_types-set_types :
    (test : PageType → Bool) (type : PageType) (n : ℕ) (types : Types) (pgd : ℕ)
    → ((page : ℕ) → pgd ≤ page → page < pgd + n → test (types page) ≡ true)
    → change_types test type n types pgd ≡ ok (set_types type n types pgd)
unfolding change_types set_types
change_types-set_types test type zero types pgd passes = refl
change_types-set_types test type (suc n) types pgd passes =
    rw (passes pgd (omega arith) (omega arith)) (
      change_types-set_types test type n _ (pgd + 1)
        (λ page low high. ground (arith, passes page (omega arith) (omega arith))))

abbrev pub is_normal : MemoryType → Bool
is_normal normal = true
is_normal unusable = false

-- Do the physical memory blocks of normal type hold the page?
unfoldable pub in_normal : List PhysicalMemoryBlock → ℕ → Bool
in_normal [] page = false
in_normal (block ∷ rest) page =
    is_normal block.type && within block.base_pfn block.nr_pages page || in_normal rest page

-- Does the kernel use the page from the start: page zero, the first page tables, the image, the
-- stack and the page descriptors on the heap?
abbrev pub is_used : Layout → ℕ → ℕ → Bool
is_used layout nr_pages page =
    within 0 1 page
    || within 1 6 page
    || within (layout.image_start / page_size) (range_size layout.image_start layout.image_end) page
    || within (layout.stack_start / page_size) (range_size layout.stack_start layout.stack_end) page
    || within (layout.heap_start / page_size) (heap_size nr_pages) page

mark_block_at :
    (type : MemoryType) (nr_pages : ℕ) (types : Types) (base_pfn page : ℕ)
    → is_available (mark_block type nr_pages types base_pfn page)
      ≡ (is_normal type && within base_pfn nr_pages page || is_available (types page))
mark_block_at unusable nr_pages types base_pfn page = refl
mark_block_at normal nr_pages types base_pfn page =
    rw (set_types_at available nr_pages types base_pfn page)
      (elim (Bool-cases (within base_pfn nr_pages page)) [
        | inl inside ↦ rw inside refl
        | inr outside ↦ rw outside refl
      ])

-- The blocks of normal memory are marked as available.
pub mark_present_at :
    (blocks : List PhysicalMemoryBlock) (types : Types) (page : ℕ)
    → is_available (mark_present blocks types page)
      ≡ (in_normal blocks page || is_available (types page))
unfolding mark_present in_normal
mark_present_at [] types page = refl
mark_present_at (block ∷ rest) types page =
    mark_present_at rest (mark_block block.type block.nr_pages types block.base_pfn) page
    ∙ rw (mark_block_at block.type block.nr_pages types block.base_pfn page) (ground arith)

mark_range_at :
    (type : PageType) (types : Types) (start n page : ℕ)
    → is_available type ≡ false
    → is_available ((mark_page_range types type start n).0 page)
      ≡ (not (within start n page) && is_available (types page))
unfolding mark_page_range
mark_range_at type types start n page other =
    rw (set_types_at type n types start page) (elim (Bool-cases (within start n page)) [
      | inl inside ↦ rw (inside, other) refl
      | inr outside ↦ rw outside refl
    ])

-- The pages that the kernel uses are not.
pub mark_used_at :
    (layout : Layout) (nr_pages : ℕ) (types : Types) (page : ℕ)
    → is_available (mark_used layout nr_pages types page)
      ≡ (not (is_used layout nr_pages page) && is_available (types page))
unfolding mark_used
mark_used_at layout nr_pages types page =
    rw
      (
        mark_range_at reserved _ (layout.heap_start / page_size) (heap_size nr_pages) page refl,
        mark_range_at reserved _ (layout.stack_start / page_size)
            (range_size layout.stack_start layout.stack_end) page refl,
        mark_range_at reserved _ (layout.image_start / page_size)
            (range_size layout.image_start layout.image_end) page refl,
        mark_range_at allocated _ 1 6 page refl,
        mark_range_at reserved types 0 1 page refl,
      )
      (ground arith)
