-- ===== src/Mm/Memory.antt =====
-- CourseWorks/infos/mm/mm.cpp and include/infos/mm/mm.h: the physical memory blocks. Addresses
-- and frame numbers have 64 bits, page counts 32, and `nr_pages * _page_size` is a product of two
-- 32-bit numbers. The logging is left out.
pub mod Bounds
mod Tests
use inf3_os.Base.{
  ℕ, ◌+◌, ◌-◌, ◌*◌, ◌/◌, ◌%◌, ◌^◌, Bool, ◌&&◌, Option, none, some, List, [], ◌∷◌, ◌++◌, ltb, leb,
  ◌==◌, if◌then◌else◌, length,
}

pub data MemoryType : Type 0 where
  normal : MemoryType
  unusable : MemoryType

pub record PhysicalMemoryBlock : Type 0 where
  pub base_address : ℕ
  pub base_pfn : ℕ
  pub nr_pages : ℕ
  pub type : MemoryType

-- `_last_pfn`, and the blocks of `_phys_mem_blocks` that are in use.
pub record MemoryManager : Type 0 where
  pub last_pfn : ℕ
  pub phys_mem_blocks : List PhysicalMemoryBlock

abbrev pub page_size : ℕ
page_size = 4096

abbrev pub word32 : ℕ
word32 = 2 ^ 32

abbrev pub word64 : ℕ
word64 = 2 ^ 64

-- `_phys_mem_blocks` has this many elements.
abbrev pub max_blocks : ℕ
max_blocks = 16

-- `addr + (nr_pages * _page_size)`.
abbrev pub block_end : ℕ → ℕ → ℕ
block_end addr nr_pages = (addr + nr_pages * page_size % word32) % word64

-- The update of `_last_pfn`.
abbrev pub raise_last : ℕ → ℕ → ℕ → MemoryType → ℕ
raise_last addr nr_pages last unusable = last
raise_last addr nr_pages last normal =
    let last_pfn = (block_end addr nr_pages / page_size + word64 - 1) % word64 in
    if ltb last last_pfn then last_pfn else last

pub add_physical_memory : MemoryManager → ℕ → ℕ → MemoryType → MemoryManager
add_physical_memory mm addr nr_pages type =
    if nr_pages == 0
    then mm
    else if leb max_blocks (length mm.phys_mem_blocks)
    then mm
    else record {
      last_pfn = raise_last addr nr_pages mm.last_pfn type;
      phys_mem_blocks =
          mm.phys_mem_blocks
          ++ record {
            base_address = addr;
            base_pfn = addr / page_size;
            nr_pages = nr_pages;
            type = type;
          }
            ∷ [];
    }

abbrev pub holds_address : PhysicalMemoryBlock → ℕ → Bool
holds_address block addr =
    leb block.base_address addr && ltb addr (block_end block.base_address block.nr_pages)

unfoldable pub find_block : List PhysicalMemoryBlock → ℕ → Option PhysicalMemoryBlock
find_block [] addr = none
find_block (block ∷ rest) addr =
    let next = find_block rest addr in if holds_address block addr then some block else next

unfoldable pub lookup_phys_block : MemoryManager → ℕ → Option PhysicalMemoryBlock
lookup_phys_block mm addr = find_block mm.phys_mem_blocks addr
