-- ===== src/Mm/Pages.antt =====
-- CourseWorks/infos/mm/page-allocator.cpp and include/infos/mm/page-allocator.h: the page
-- allocator on top of an allocation algorithm. A `PageDescriptor *` is its page-frame number, and
-- `_page_descriptors` is a function from frame numbers to types; the links between the
-- descriptors belong to the algorithm. The mutex and the logging are left out.
pub mod Marking
pub mod Interface
pub mod Granting
pub mod Starting
pub mod Simple
pub mod Buddies
mod Tests
use inf3_os.Base.{
  ℕ, zero, suc, ◌+◌, ◌-◌, ◌*◌, ◌/◌, ◌%◌, ◌^◌, Bool, true, false, not, Option, none, some, List, [],
  ◌∷◌, ltb, leb, ◌==◌, if◌then◌else◌, Outcome, ok, panic, assert, ◌>>=◌, ◌>>◌,
}
use inf3_os.Mm.Memory.{
  MemoryManager, MemoryType, normal, unusable, PhysicalMemoryBlock, lookup_phys_block, page_size,
  word32, word64,
}
use inf3_os.Mm.Buddy.{deref}

pub data PageType : Type 0 where
  invalid : PageType
  reserved : PageType
  available : PageType
  allocated : PageType

abbrev pub Types : Type 0
Types = ℕ → PageType

-- The comparisons `type == AVAILABLE` and `type == ALLOCATED`.
abbrev pub is_available : PageType → Bool
is_available available = true
is_available _ = false

abbrev pub is_allocated : PageType → Bool
is_allocated allocated = true
is_allocated _ = false

-- What an algorithm provides. It keeps a state of its own, and may read the types of the pages.
pub record PageAllocatorAlgorithm {ℓ} (State : Type ℓ) : Type ℓ where
  pub init : State → Types → ℕ → Outcome (State × Bool)
  pub reserve_page : State → Types → ℕ → Outcome (State × Bool)
  pub alloc_pages : State → Types → ℕ → Outcome (State × Option ℕ)
  pub free_pages : State → Types → ℕ → ℕ → Outcome State

-- `_nr_pages`, `_page_descriptors` and the state of `*_allocator_algorithm`, `none` for NULL.
pub record PageAllocator {ℓ} (State : Type ℓ) : Type ℓ where
  pub nr_pages : ℕ
  pub page_descriptors : Types
  pub allocator_algorithm : Option State

abbrev pub put_type : Types → ℕ → PageType → Types
put_type types pgd type page = if page == pgd then type else types page

-- The loops of `alloc_pages` and `free_pages`: each page passes the test and gets a new type.
pub change_types : (PageType → Bool) → PageType → ℕ → Types → ℕ → Outcome Types
change_types test type zero types pgd = ok types
change_types test type (suc n) types pgd = do
  assert (test (types pgd))
  change_types test type n (put_type types pgd type) (pgd + 1)

-- The loop of `mark_page_range`, also that of `init` over the frames of a block.
pub set_types : PageType → ℕ → Types → ℕ → Types
set_types type zero types pfn = types
set_types type (suc n) types pfn = set_types type n (put_type types pfn type) (pfn + 1)

pub mark_page_range : Types → PageType → ℕ → ℕ → Types × ℕ
mark_page_range types type start nr_pages = (set_types type nr_pages types start, nr_pages)

-- The physical addresses of the symbols that the linker defines.
pub record Layout : Type 0 where
  pub image_start : ℕ
  pub image_end : ℕ
  pub stack_start : ℕ
  pub stack_end : ℕ
  pub heap_start : ℕ

-- `last_pfn - start_pfn + 1`, passed on as a 32-bit number.
abbrev pub range_size : ℕ → ℕ → ℕ
range_size start end = (end / page_size + word64 - start / page_size + 1) % word32

-- `sizeof(PageDescriptor)`.
abbrev pub descriptor_size : ℕ
descriptor_size = 16

abbrev pub heap_size : ℕ → ℕ
heap_size nr_pages = (nr_pages * descriptor_size / page_size + 1) % word32

abbrev pub mark_block : MemoryType → ℕ → Types → ℕ → Types
mark_block normal nr_pages types base_pfn = set_types available nr_pages types base_pfn
mark_block unusable nr_pages types base_pfn = types

-- The loop of `init` over the physical memory blocks.
pub mark_present : List PhysicalMemoryBlock → Types → Types
mark_present [] types = types
mark_present (block ∷ rest) types =
    mark_present rest (mark_block block.type block.nr_pages types block.base_pfn)

-- The calls of `mark_page_range` in `init`.
pub mark_used : Layout → ℕ → Types → Types
mark_used layout nr_pages types =
    let zero_page = (mark_page_range types reserved 0 1).0 in
    let tables = (mark_page_range zero_page allocated 1 6).0 in
    let image =
      (mark_page_range tables reserved (layout.image_start / page_size)
        (range_size layout.image_start layout.image_end)).0 in
    let stack =
      (mark_page_range image reserved (layout.stack_start / page_size)
        (range_size layout.stack_start layout.stack_end)).0 in
    (mark_page_range stack reserved (layout.heap_start / page_size) (heap_size nr_pages)).0

abbrev pub no_types : Types
no_types page = invalid

module _ {ℓ} {State : Type ℓ} (alg : PageAllocatorAlgorithm State) where
  pub alloc_pages : PageAllocator State → ℕ → Outcome (PageAllocator State × Option ℕ)
  alloc_pages pages order = elim pages.allocator_algorithm [
    | none ↦ ok (pages, none)
    | some state ↦ do
      (after, given) ← alg.alloc_pages state pages.page_descriptors order
      pgd ← deref given
      types ← change_types is_available allocated (2 ^ order) pages.page_descriptors pgd
      ok (
        (record {
          nr_pages = pages.nr_pages;
          page_descriptors = types;
          allocator_algorithm = some after;
        }),
        some pgd,
      )
  ]

  pub free_pages : PageAllocator State → ℕ → ℕ → Outcome (PageAllocator State)
  free_pages pages pgd order = elim pages.allocator_algorithm [
    | none ↦ ok pages
    | some state ↦ do
      after ← alg.free_pages state pages.page_descriptors pgd order
      types ← change_types is_allocated available (2 ^ order) pages.page_descriptors pgd
      ok (record {
        nr_pages = pages.nr_pages;
        page_descriptors = types;
        allocator_algorithm = some after;
      })
  ]

  -- The last loop of `init`: `n` pages from `pgd` on.
  pub reserve_pages : ℕ → State → Types → ℕ → Outcome (State × Bool)
  reserve_pages zero state types pgd = ok (state, true)
  reserve_pages (suc n) state types pgd =
      let next = reserve_pages n state types (pgd + 1) in
      let reserve : Outcome (State × Bool) = (do
        (after, done) ← alg.reserve_page state types pgd
        let rest = reserve_pages n after types (pgd + 1)
        if done then rest else ok (after, false)) in
      if is_available (types pgd) then next else reserve

  -- The end of `init`, from the initialisation of the algorithm on, without the self-test, which
  -- runs on request only.
  pub start_algorithm : State → ℕ → Types → Outcome (PageAllocator State × Bool)
  start_algorithm state nr_pages types = do
    (fresh, ready) ← alg.init state types nr_pages
    let rest = reserve_pages nr_pages fresh types 0
    (after, done) ← (if ready then rest else ok (fresh, false))
    ok (
      (record { nr_pages = nr_pages; page_descriptors = types; allocator_algorithm = some after }),
      done,
    )

  pub init : MemoryManager → Layout → PageAllocator State → Outcome (PageAllocator State × Bool)
  init owner layout pages = elim pages.allocator_algorithm [
    | none ↦ ok (pages, false)
    | some state ↦ elim (lookup_phys_block owner layout.heap_start) [
      | none ↦ ok (
        (record {
          nr_pages = owner.last_pfn + 1;
          page_descriptors = pages.page_descriptors;
          allocator_algorithm = some state;
        }),
        false,
      )
      | some block ↦
          start_algorithm state (owner.last_pfn + 1)
            (mark_used layout (owner.last_pfn + 1) (mark_present owner.phys_mem_blocks no_types))
    ]
  ]
