-- ===== src/Mm/Memory/Bounds.antt =====
-- CourseWorks/infos/mm/mm.cpp: what `add_physical_memory` keeps of the blocks.
use inf3_os.Base.{
  ◌||◌, ◌++◌, if◌then◌else◌, ℕ, ◌+◌, ◌*◌, ◌/◌, ◌≤◌, ◌<◌, ◌≡◌, List, [], ◌∷◌, All, All-append,
  length-append, Bool-cases, inl, inr, refl, ◌==◌, leb, length, arith,
}
use inf3_os.Mm.Memory.{
  raise_last, MemoryType, normal, unusable, PhysicalMemoryBlock, MemoryManager, page_size, word32,
  word64, max_blocks, add_physical_memory,
}

-- A block whose frames start at its address, and of which normal memory ends by `last`.
abbrev pub IsBelow : ℕ → PhysicalMemoryBlock → Type 0
IsBelow last block =
    (block.base_pfn ≡ block.base_address / page_size)
    × (block.type ≡ normal → block.base_pfn + block.nr_pages ≤ last + 1)

-- The blocks fit in the array, and all normal memory lies at or below the last frame.
pub record IsBounded (mm : MemoryManager) : Type 0 where
  pub fits : length mm.phys_mem_blocks ≤ 16
  pub below : All (IsBelow mm.last_pfn) mm.phys_mem_blocks

IsBelow-weaken :
    (last more : ℕ) (blocks : List PhysicalMemoryBlock)
    → last ≤ more
    → All (IsBelow last) blocks
    → All (IsBelow more) blocks
IsBelow-weaken last more [] le holds = tt
IsBelow-weaken last more (block ∷ rest) le ((at, low), others) =
    ((at, λ e. omega (arith, low e)), IsBelow-weaken last more rest le others)

raise_last-le :
    (addr nr_pages last : ℕ) (type : MemoryType) → last ≤ raise_last addr nr_pages last type
raise_last-le addr nr_pages last normal = ground arith
raise_last-le addr nr_pages last unusable = omega arith

raise_last-covers :
    (addr nr_pages last : ℕ)
    → 0 < nr_pages
    → nr_pages * page_size < word32
    → addr + nr_pages * page_size < word64
    → addr / page_size + nr_pages ≤ raise_last addr nr_pages last normal + 1
raise_last-covers addr nr_pages last pos small fits = ground arith

-- `add_physical_memory` adds the block behind the others, with its first frame, unless it has no
-- pages or the 16 blocks of the array are taken: then the blocks stay as they are. It keeps the
-- blocks bounded, when the size in bytes of the new one is below 2 ^ 32 and it ends below 2 ^ 64:
-- they fit in the array, and every frame of normal memory, those of the new block included where it
-- was added, lies at or below `_last_pfn`, which does not fall.
pub add_physical_memory-IsBounded :
    (mm : MemoryManager) (addr nr_pages : ℕ) (type : MemoryType)
    → nr_pages * page_size < word32
    → addr + nr_pages * page_size < word64
    → IsBounded mm
    → IsBounded (add_physical_memory mm addr nr_pages type)
      × ((add_physical_memory mm addr nr_pages type).phys_mem_blocks ≡ (
          if (nr_pages == 0) || leb 16 (length mm.phys_mem_blocks)
          then mm.phys_mem_blocks
          else mm.phys_mem_blocks
            ++ record {
              base_address = addr;
              base_pfn = addr / 4096;
              nr_pages = nr_pages;
              type = type;
            }
              ∷ []))
      × (mm.last_pfn ≤ (add_physical_memory mm addr nr_pages type).last_pfn)
unfolding add_physical_memory
add_physical_memory-IsBounded mm addr nr_pages type small fits bounded =
    elim (Bool-cases (nr_pages == 0)) [
      | inl e ↦ rw e (bounded, refl, omega arith)
      | inr some_pages ↦ elim (Bool-cases (leb max_blocks (length mm.phys_mem_blocks))) [
        | inl full ↦ rw (some_pages, full) (bounded, refl, omega arith)
        | inr room ↦
            rw (some_pages, room)
              (
                (record {
                  fits = ground (arith, length-append mm.phys_mem_blocks (fresh ∷ []));
                  below =
                      All-append (IsBelow last) mm.phys_mem_blocks (fresh ∷ [])
                        (IsBelow-weaken mm.last_pfn last mm.phys_mem_blocks
                          (raise_last-le addr nr_pages mm.last_pfn type) bounded.below)
                        ((refl, λ e. covered (ground arith) e), tt);
                }),
                refl,
                raise_last-le addr nr_pages mm.last_pfn type,
              )
      ]
    ]
  where
    fresh : PhysicalMemoryBlock
    fresh = record {
      base_address = addr;
      base_pfn = addr / page_size;
      nr_pages = nr_pages;
      type = type;
    }

    last : ℕ
    last = raise_last addr nr_pages mm.last_pfn type

    covered : 0 < nr_pages → type ≡ normal → addr / page_size + nr_pages ≤ last + 1
    covered pos e = rw e (raise_last-covers addr nr_pages mm.last_pfn pos small fits)
