-- ===== src/Mm/Memory/Tests.antt =====
-- An instance of the theorem on physical memory blocks.
use inf3_os.Base.{[], ◌∷◌, arith, refl, ◌≡◌, ◌≤◌}
use inf3_os.Mm.Memory.{normal, MemoryManager, add_physical_memory}
use inf3_os.Mm.Memory.Bounds.{IsBounded, add_physical_memory-IsBounded}

abbrev one_block : MemoryManager
one_block = record {
  last_pfn = 158;
  phys_mem_blocks = record { base_address = 0; base_pfn = 0; nr_pages = 159; type = normal } ∷ [];
}

one_block-IsBounded : IsBounded one_block
one_block-IsBounded = record { fits = omega arith; below = ((refl, λ e. omega arith), tt) }

add_physical_memory-IsBounded_example :
    IsBounded (add_physical_memory one_block 1048576 512 normal)
    × ((add_physical_memory one_block 1048576 512 normal).phys_mem_blocks
        ≡ record { base_address = 0; base_pfn = 0; nr_pages = 159; type = normal }
          ∷ record { base_address = 1048576; base_pfn = 256; nr_pages = 512; type = normal }
          ∷ [])
    × (158 ≤ (add_physical_memory one_block 1048576 512 normal).last_pfn)
add_physical_memory-IsBounded_example =
    add_physical_memory-IsBounded one_block 1048576 512 normal (omega arith) (omega arith)
      one_block-IsBounded
