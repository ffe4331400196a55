-- ===== src/Mm/Vma.antt =====
-- CourseWorks/infos/mm/vma.cpp and include/infos/mm/vma.h: the page tables of a virtual memory
-- area. A table is the physical page that it fills, and holds 64-bit entries by index. The
-- operators on bits are written as arithmetic. The page allocator is a parameter. An address that
-- `pa_to_vpa` does not accept is a panic.
pub mod Entries
pub mod Walking
pub mod Descending
pub mod Leaves
pub mod Source
pub mod Inserting
pub mod Mapping
pub mod Numbering
pub mod Ranges
pub mod Starting
pub mod Supply
mod Tests
use inf3_os.Base.{
  ℕ, zero, suc, ◌+◌, ◌-◌, ◌*◌, ◌/◌, ◌%◌, ◌^◌, Bool, true, false, ◌&&◌, Option, none, some, List, [],
  ◌∷◌, ◌++◌, ltb, leb, ◌==◌, if◌then◌else◌, Outcome, ok, assert, ◌>>=◌, ◌>>◌,
}
use inf3_os.Mm.Memory.{page_size}
use inf3_os.Mm.Buddy.{deref}

-- Entries, by the page of the table and the index.
abbrev pub Tables : Type 0
Tables = ℕ → ℕ → ℕ

-- A `PageAllocation`: the first page and the order.
abbrev pub PageAllocation : Type 0
PageAllocation = ℕ × ℕ

-- `_pgt_phys_base`, `_page_allocations`, and of the system the page allocator and the memory.
pub record Vma (State : Type 0) : Type 0 where
  pub pgt_phys_base : ℕ
  pub page_allocations : List PageAllocation
  pub pgalloc : State
  pub tables : Tables

-- `BITS`: `n` bits from `start` on.
abbrev pub bits : ℕ → ℕ → ℕ → ℕ
bits val start n = val / 2 ^ start % 2 ^ n

abbrev pub pml4_idx : ℕ → ℕ
pml4_idx va = bits va 39 9

abbrev pub pdp_idx : ℕ → ℕ
pdp_idx va = bits va 30 9

abbrev pub pd_idx : ℕ → ℕ
pd_idx va = bits va 21 9

abbrev pub pt_idx : ℕ → ℕ
pt_idx va = bits va 12 9

-- `MMUTableEntry`.
pub base_address : ℕ → ℕ
base_address entry = entry / page_size * page_size

pub set_base_address : ℕ → ℕ → ℕ
set_base_address entry addr = entry % page_size + addr / page_size * page_size

pub get_flag : ℕ → ℕ → Bool
get_flag entry idx = entry % page_size / 2 ^ idx % 2 == 1

-- The flag is below bit 12, so that the base address stays.
pub set_flag : ℕ → ℕ → Bool → ℕ
set_flag entry idx true = if get_flag entry idx then entry else entry + 2 ^ idx
set_flag entry idx false = if get_flag entry idx then entry - 2 ^ idx else entry

abbrev pub is_present : ℕ → Bool
is_present entry = get_flag entry 0

-- An entry for the table in `page`: `base_address`, `present`, `writable` and `user`.
pub table_entry : ℕ → ℕ → ℕ
table_entry entry page =
    set_flag (set_flag (set_flag (set_base_address entry (page * page_size)) 0 true) 1 true) 2 true

-- `flags & MappingFlags::…`.
abbrev pub has_flag : ℕ → ℕ → Bool
has_flag flags value = flags / value % 2 == 1

abbrev pub set_flag_if : Bool → ℕ → ℕ → ℕ
set_flag_if true entry idx = set_flag entry idx true
set_flag_if false entry idx = entry

-- The entry of `insert_mapping` for the page: `Present` is 1, `User` 2 and `Writable` 4.
pub page_entry : ℕ → ℕ → ℕ → ℕ
page_entry entry pa flags =
    set_flag_if (has_flag flags 2)
      (set_flag_if (has_flag flags 4) (set_flag_if (has_flag flags 1) (set_base_address entry pa) 0)
        1)
      2

abbrev pub put_entry : Tables → ℕ → ℕ → ℕ → Tables
put_entry tables page idx entry p i = if p == page && i == idx then entry else tables p i

-- `pnzero` on `n` pages.
abbrev pub zero_pages : Tables → ℕ → ℕ → Tables
zero_pages tables page n p i = if leb page p && ltb p (page + n) then 0 else tables p i

-- `63 - __builtin_clzll(x)`, the position of the highest bit.
pub high_bit : ℕ → ℕ → ℕ
high_bit zero x = 0
high_bit (suc fuel) x = let rest = high_bit fuel (x / 2) in if ltb x 2 then 0 else suc rest

-- `__log2ceil`. `x & (x - 1)` is 0 for the powers of two.
pub log2ceil : ℕ → ℕ
log2ceil x = if x == 0 then 0 else high_bit 64 x + (if 2 ^ high_bit 64 x == x then 0 else 1)

abbrev pub put_tables : {State : Type 0} → Vma State → Tables → Vma State
put_tables vma tables = record {
  pgt_phys_base = vma.pgt_phys_base;
  page_allocations = vma.page_allocations;
  pgalloc = vma.pgalloc;
  tables = tables;
}

-- `PMEM_VA_START` and `PMEM_VA_SIZE`.
abbrev pub pmem_va_start : ℕ
pmem_va_start = 2 ^ 64 - 2 ^ 47

abbrev pub pmem_va_size : ℕ
pmem_va_size = 2 ^ 32

-- The assertion of `pa_to_vpa`.
abbrev pub is_low : ℕ → Bool
is_low pa = ltb pa pmem_va_size

module _ {State : Type 0} (alloc_pages : State → ℕ → Outcome (State × Option ℕ)) where
  pub allocate_phys : Vma State → ℕ → Outcome (Vma State × Option ℕ)
  allocate_phys vma order = do
    (after, given) ← alloc_pages vma.pgalloc order
    elim given [
      | none ↦ ok (
        (record {
          pgt_phys_base = vma.pgt_phys_base;
          page_allocations = vma.page_allocations;
          pgalloc = after;
          tables = vma.tables;
        }),
        none,
      )
      | some pgd ↦
          assert (is_low (pgd * page_size))
          >> ok (
            (record {
              pgt_phys_base = vma.pgt_phys_base;
              page_allocations = vma.page_allocations ++ (pgd, order) ∷ [];
              pgalloc = after;
              tables = zero_pages vma.tables pgd (2 ^ order);
            }),
            some pgd,
          )
    ]

  -- The constructor, on the system's page allocator and memory.
  pub new : State → Tables → Outcome (Vma State)
  new pgalloc tables = do
    (vma, given) ←
        allocate_phys
          (record { pgt_phys_base = 0; page_allocations = []; pgalloc = pgalloc; tables = tables })
          0
    pgd ← deref given
    ok (record {
      pgt_phys_base = pgd * page_size;
      page_allocations = vma.page_allocations;
      pgalloc = vma.pgalloc;
      tables = vma.tables;
    })

  -- One level of `insert_mapping`: the table that the entry points to, allocated when there is none,
  -- and its address by `pa_to_vpa`.
  pub descend : Vma State → ℕ → ℕ → Outcome (Vma State × ℕ)
  descend vma table idx =
      let fresh : Outcome (Vma State × ℕ) = (do
        (after, given) ← allocate_phys vma 0
        pgd ← deref given
        assert (is_low (base_address (table_entry (after.tables table idx) pgd)))
            >> ok (
              put_tables after
                  (put_entry after.tables table idx (table_entry (after.tables table idx) pgd)),
              base_address (table_entry (after.tables table idx) pgd) / page_size,
            )) in
      if base_address (vma.tables table idx) == 0
      then fresh
      else assert (is_low (base_address (vma.tables table idx)))
        >> ok (vma, base_address (vma.tables table idx) / page_size)

  pub insert_mapping : Vma State → ℕ → ℕ → ℕ → Outcome (Vma State)
  insert_mapping vma va pa flags = do
    (vma4, pdp) ← descend vma (vma.pgt_phys_base / page_size) (pml4_idx va)
    (vma3, pd) ← descend vma4 pdp (pdp_idx va)
    (vma2, pt) ← descend vma3 pd (pd_idx va)
    ok (
        put_tables vma2
          (put_entry vma2.tables pt (pt_idx va) (page_entry (vma2.tables pt (pt_idx va)) pa flags)))

  -- The loop of `allocate_virt`, over `n` pages.
  pub map_pages : ℕ → Vma State → ℕ → ℕ → Outcome (Vma State)
  map_pages zero vma vbase pbase = ok vma
  map_pages (suc n) vma vbase pbase = do
    after ← insert_mapping vma vbase pbase 7
    map_pages n after (vbase + page_size) (pbase + page_size)

  pub allocate_virt : Vma State → ℕ → ℕ → Outcome (Vma State × Bool)
  allocate_virt vma va nr_pages =
      let allocate : Outcome (Vma State × Bool) = (do
        (after, given) ← allocate_phys vma (log2ceil nr_pages)
        elim given [
          | none ↦ ok (after, false)
          | some pgd ↦ do
            mapped ← map_pages (2 ^ log2ceil nr_pages) after va (pgd * page_size)
            ok (mapped, true)
        ]) in
      if nr_pages == 0 then ok (vma, false) else allocate

-- The entries for the kernel, copied from `__template_pml4`.
pub install_default_kernel_mapping : {State : Type 0} → (ℕ → ℕ) → Vma State → Vma State
install_default_kernel_mapping template vma = record {
  pgt_phys_base = vma.pgt_phys_base;
  page_allocations = vma.page_allocations;
  pgalloc = vma.pgalloc;
  tables =
      put_entry (put_entry vma.tables (vma.pgt_phys_base / page_size) 511 (template 511))
        (vma.pgt_phys_base / page_size) 256 (template 256);
}

-- `_pgt_virt_base`, which the constructor sets from the same page as `_pgt_phys_base`.
abbrev pub pgt_virt_base : {State : Type 0} → Vma State → ℕ
pgt_virt_base vma = pmem_va_start + vma.pgt_phys_base

-- The physical address, or `none` for false.
pub get_mapping : {State : Type 0} → Vma State → ℕ → Outcome (Option ℕ)
get_mapping vma va =
    let pml4 = vma.tables (vma.pgt_phys_base / page_size) (pml4_idx va) in
    let pdp = vma.tables (base_address pml4 / page_size) (pdp_idx va) in
    let pd = vma.tables (base_address pdp / page_size) (pd_idx va) in
    let pt = vma.tables (base_address pd / page_size) (pt_idx va) in
    let in_pt = if is_present pt then ok (some (base_address pt + va % page_size)) else ok none in
    let in_pd = if is_present pd then assert (is_low (base_address pd)) >> in_pt else ok none in
    let in_pdp = if is_present pdp then assert (is_low (base_address pdp)) >> in_pd else ok none in
    let in_pml4 =
      if is_present pml4 then assert (is_low (base_address pml4)) >> in_pdp else ok none in
    if pgt_virt_base vma == 0 then ok none else in_pml4

pub is_mapped : {State : Type 0} → Vma State → ℕ → Outcome Bool
is_mapped vma va = do found ← get_mapping vma va; elim found [ none ↦ ok false | some pa ↦ ok true ]
