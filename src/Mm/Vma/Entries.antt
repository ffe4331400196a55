-- ===== src/Mm/Vma/Entries.antt =====
-- CourseWorks/infos/mm/vma.cpp: the entries of the page tables.
use inf3_os.Base.{refl, ap, ◌∙◌}
use inf3_os.Base.{ap, ◌∙◌, ℕ, ◌*◌, ◌/◌, ◌≡◌, Bool, true, false, arith}
use inf3_os.Base.{==_refl, ◌≢◌, ◌⊎◌, inl, inr}
use inf3_os.Mm.Vma.{Tables, put_entry, zero_pages}
use inf3_os.Mm.Memory.{page_size}
use inf3_os.Mm.Vma.{
  base_address, set_base_address, get_flag, set_flag, is_present, table_entry, has_flag,
  set_flag_if, page_entry,
}

-- What `set_flag` and `set_base_address` do to the base address and the first flag.
set_flag_0 :
    (entry : ℕ)
    → (set_flag entry 0 true / page_size ≡ entry / page_size)
      × (is_present (set_flag entry 0 true) ≡ true)
unfolding set_flag get_flag
set_flag_0 entry = (ground arith, ground arith)

set_flag_1 :
    (entry : ℕ)
    → (set_flag entry 1 true / page_size ≡ entry / page_size)
      × (is_present (set_flag entry 1 true) ≡ is_present entry)
unfolding set_flag get_flag
set_flag_1 entry = (ground arith, ground arith)

set_flag_2 :
    (entry : ℕ)
    → (set_flag entry 2 true / page_size ≡ entry / page_size)
      × (is_present (set_flag entry 2 true) ≡ is_present entry)
unfolding set_flag get_flag
set_flag_2 entry = (ground arith, ground arith)

set_base_address-page :
    (entry addr : ℕ) → set_base_address entry addr / page_size ≡ addr / page_size
unfolding set_base_address
set_base_address-page entry addr = omega arith

pub table_entry-page :
    (entry page : ℕ)
    → (base_address (table_entry entry page) / page_size ≡ page)
      × (is_present (table_entry entry page) ≡ true)
unfolding table_entry base_address
table_entry-page entry page =
    let addr = set_base_address entry (page * page_size) in
    let (p0, f0) = set_flag_0 addr in
    let (p1, f1) = set_flag_1 (set_flag addr 0 true) in
    let (p2, f2) = set_flag_2 (set_flag (set_flag addr 0 true) 1 true) in
    (omega (arith, p0, p1, p2, set_base_address-page entry (page * page_size)), f2 ∙ f1 ∙ f0)

set_flag_if_1 :
    (b : Bool) (entry : ℕ)
    → (set_flag_if b entry 1 / page_size ≡ entry / page_size)
      × (is_present (set_flag_if b entry 1) ≡ is_present entry)
set_flag_if_1 true entry = set_flag_1 entry
set_flag_if_1 false entry = (refl, refl)

set_flag_if_2 :
    (b : Bool) (entry : ℕ)
    → (set_flag_if b entry 2 / page_size ≡ entry / page_size)
      × (is_present (set_flag_if b entry 2) ≡ is_present entry)
set_flag_if_2 true entry = set_flag_2 entry
set_flag_if_2 false entry = (refl, refl)

-- The entry that `insert_mapping` makes with `Present` points to the page, and is present.
pub page_entry-page :
    (entry pa flags : ℕ)
    → has_flag flags 1 ≡ true
    → (base_address (page_entry entry pa flags) ≡ pa / page_size * page_size)
      × (is_present (page_entry entry pa flags) ≡ true)
unfolding page_entry base_address
page_entry-page entry pa flags h =
    let addr = set_base_address entry pa in
    let (p0, f0) = set_flag_0 addr in
    let (p1, f1) = set_flag_if_1 (has_flag flags 4) (set_flag addr 0 true) in
    let (p2, f2) =
      set_flag_if_2 (has_flag flags 2) (set_flag_if (has_flag flags 4) (set_flag addr 0 true) 1) in
    rw h (ap (λ t. t * page_size) (p2 ∙ p1 ∙ p0 ∙ set_base_address-page entry pa), f2 ∙ f1 ∙ f0)

-- A zeroed entry is not present, and has no base address.
pub zero_entry : (is_present 0 ≡ false) × (base_address 0 ≡ 0)
unfolding get_flag base_address
zero_entry = (refl, refl)

pub put_entry_here :
    (tables : Tables) (page idx entry : ℕ) → put_entry tables page idx entry page idx ≡ entry
put_entry_here tables page idx entry = rw (==_refl page, ==_refl idx) refl

pub put_entry_other :
    (tables : Tables) (page idx entry p i : ℕ)
    → (p ≢ page) ⊎ (i ≢ idx)
    → put_entry tables page idx entry p i ≡ tables p i
put_entry_other tables page idx entry p i (inl ne) = ground arith
put_entry_other tables page idx entry p i (inr ne) = ground arith

pub zero_pages_here : (tables : Tables) (page i : ℕ) → zero_pages tables page 1 page i ≡ 0
zero_pages_here tables page i = ground arith

pub zero_pages_other :
    (tables : Tables) (page p i : ℕ) → p ≢ page → zero_pages tables page 1 p i ≡ tables p i
zero_pages_other tables page p i ne = ground arith
