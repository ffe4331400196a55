-- ===== src/Mm/Pages/Tests.antt =====
-- Instances of the theorems on the page allocator, with both algorithms.
use inf3_os.Base.{ℕ, ◌≡◌, ◌==◌, some, [], ◌∷◌, ok, if◌then◌else◌, arith, refl}
use inf3_os.Mm.Buddy.{Areas}
use inf3_os.Mm.Memory.{normal, unusable, MemoryManager, PhysicalMemoryBlock}
use inf3_os.Mm.Pages.{
  invalid, available, allocated, Types, PageAllocator, Layout, is_available, put_type, no_types,
  alloc_pages, free_pages, change_types,
}
use inf3_os.Mm.Pages.Granting.{IsReady, alloc_pages-free_pages}
use inf3_os.Mm.Pages.Buddies.{buddies-IsLawful}
use inf3_os.Mm.Pages.Simple.{simple, find_run, find_taken, IsFirstRun, find_run-IsFirstRun}
use inf3_os.Mm.Pages.Simple.Scanning.{simple-IsLawful, Manages-simple}

-- A memory of 64 pages, the upper half of which is missing.
abbrev owner : MemoryManager
owner = record { last_pfn = 31; phys_mem_blocks = low_block ∷ high_block ∷ [] }
  where
    low_block : PhysicalMemoryBlock
    low_block = record { base_address = 0; base_pfn = 0; nr_pages = 32; type = normal }

    high_block : PhysicalMemoryBlock
    high_block = record { base_address = 131072; base_pfn = 32; nr_pages = 32; type = unusable }

abbrev layout : Layout
layout = record {
  image_start = 32768;
  image_end = 40959;
  stack_start = 40960;
  stack_end = 45055;
  heap_start = 45056;
}

abbrev no_pages : PageAllocator Areas
no_pages = record {
  nr_pages = 0;
  page_descriptors = no_types;
  allocator_algorithm = some buddies-IsLawful.start;
}

-- Pages 1 and 2 of four are available.
abbrev two_pages : Types
two_pages page = if page == 1 then available else if page == 2 then available else invalid

find_run-IsFirstRun_example : IsFirstRun 4 two_pages 2 0 (find_run 4 4 two_pages 2 0)
find_run-IsFirstRun_example = find_run-IsFirstRun 4 4 two_pages 2 0 (omega arith)

abbrev four_pages : PageAllocator ℕ
four_pages = record { nr_pages = 4; page_descriptors = two_pages; allocator_algorithm = some 4 }

abbrev one_taken : PageAllocator ℕ
one_taken = record {
  nr_pages = 4;
  page_descriptors = put_type two_pages 1 allocated;
  allocator_algorithm = some 4;
}

four_pages-IsReady : IsReady simple-IsLawful four_pages
four_pages-IsReady = (
  4,
  refl,
  Manages-simple 4 two_pages (λ page. is_available (two_pages page))
      ((λ page h. ground arith), λ page h. h),
)

one_page : alloc_pages simple four_pages 0 ≡ ok (one_taken, some 1)
unfolding alloc_pages change_types simple find_run find_taken
one_page = refl

alloc_pages-free_pages_example :
    (after : PageAllocator ℕ) × (free_pages simple one_taken 1 0 ≡ ok after)
    × IsReady simple-IsLawful after
    × ((page : ℕ) → after.page_descriptors page ≡ two_pages page)
alloc_pages-free_pages_example =
    alloc_pages-free_pages simple-IsLawful four_pages one_taken 0 1 (omega arith) four_pages-IsReady
      one_page
