-- ===== src/Mm/Vma/Walking.antt =====
-- CourseWorks/infos/mm/vma.cpp: the walk of `get_mapping` through the page tables, and the shape
-- of the tables that makes two walks end in different entries.
use inf3_os.Base.{
  ℕ, zero, suc, ◌+◌, ◌/◌, ◌%◌, ◌<◌, ◌≡◌, ◌≢◌, ◌⊎◌, inl, inr, Bool, true, false, ◌||◌, ◌==◌,
  if◌then◌else◌, Option, none, some, some_inj, List, [], ◌∷◌, length, Bool-cases, arith, refl, ap,
  sym, ◌∙◌, ◌^◌, ok,
}
use inf3_os.Mm.Memory.{page_size}
use inf3_os.Mm.Vma.{
  pmem_va_start, is_low, Tables, Vma, base_address, is_present, get_mapping, pml4_idx, pdp_idx,
  pd_idx, pt_idx,
}

abbrev pub page_of : ℕ → ℕ
page_of entry = base_address entry / page_size

-- From the entry `idx` of a table on, through an entry of each index of a list, to the entry
-- of the last: its table and index.
unfoldable pub walk : Tables → ℕ → ℕ → List ℕ → Option (ℕ × ℕ)
walk tables page idx [] = some (page, idx)
walk tables page idx (next ∷ rest) =
    if is_present (tables page idx) then walk tables (page_of (tables page idx)) next rest else none

-- The address that an entry gives, with the offset.
abbrev pub read_entry : ℕ → ℕ → Option ℕ
read_entry entry offset = if is_present entry then some (base_address entry + offset) else none

-- The address at the end of a walk.
unfoldable pub translate : Tables → ℕ → ℕ → ℕ → List ℕ → Option ℕ
translate tables offset page idx [] = read_entry (tables page idx) offset
translate tables offset page idx (next ∷ rest) =
    if is_present (tables page idx)
    then translate tables offset (page_of (tables page idx)) next rest
    else none

abbrev pub lower_indices : ℕ → List ℕ
lower_indices va = pdp_idx va ∷ pd_idx va ∷ pt_idx va ∷ []

-- The four indices of an address.
abbrev pub indices : ℕ → List ℕ
indices va = pml4_idx va ∷ lower_indices va

-- The tables that `pa_to_vpa` reaches lie on the pages below this one.
abbrev pub low_end : ℕ
low_end = 2 ^ 20

-- Reading at the end of the walk.
abbrev pub read_at : Tables → ℕ → Option (ℕ × ℕ) → Option ℕ
read_at tables offset none = none
read_at tables offset (some (page, idx)) = read_entry (tables page idx) offset

pub translate-walk :
    (tables : Tables) (offset page idx : ℕ) (rest : List ℕ)
    → translate tables offset page idx rest ≡ read_at tables offset (walk tables page idx rest)
unfolding translate walk
translate-walk tables offset page idx [] = refl
translate-walk tables offset page idx (next ∷ rest) =
    elim (Bool-cases (is_present (tables page idx))) [
      | inl e ↦ rw e (translate-walk tables offset (page_of (tables page idx)) next rest)
      | inr e ↦ rw e refl
    ]

-- Which pages are tables, at which level, from 0 for the root, and which entry points to each.
pub record Tree : Type 0 where
  pub is_table : ℕ → Bool
  pub level : ℕ → ℕ
  pub up : ℕ → ℕ
  pub slot : ℕ → ℕ

-- The entries of the root that `install_default_kernel_mapping` sets.
abbrev pub is_kernel_slot : ℕ → Bool
is_kernel_slot idx = idx == 256 || idx == 511

-- Not one of those.
abbrev pub IsUser : Tree → ℕ → ℕ → Type 0
IsUser tree page idx = tree.level page ≡ 0 → is_kernel_slot idx ≡ false

-- The entry of a table above the last level is empty, or points to a table of the next level
-- that no other entry points to.
abbrev pub IsEntry : Tree → ℕ → ℕ → ℕ → Type 0
IsEntry tree page idx entry =
    (is_present entry ≡ false) × (base_address entry ≡ 0)
    ⊎ (is_present entry ≡ true)
      × (base_address entry ≢ 0)
      × (tree.is_table (page_of entry) ≡ true)
      × (tree.level (page_of entry) ≡ suc (tree.level page))
      × (tree.up (page_of entry) ≡ page)
      × (tree.slot (page_of entry) ≡ idx)

-- The tables under a root, none of them on a page that is free, and all where `pa_to_vpa` reaches.
pub record IsTree (is_free : ℕ → Bool) (tables : Tables) (root : ℕ) (tree : Tree) : Type 0 where
  pub root_table : tree.is_table root ≡ true
  pub root_level : tree.level root ≡ 0
  pub taken : (page : ℕ) → tree.is_table page ≡ true → is_free page ≡ false
  pub below : (page : ℕ) → tree.is_table page ≡ true → page < low_end
  pub entries :
      (page idx : ℕ)
      → tree.is_table page ≡ true
      → tree.level page < 3
      → IsUser tree page idx
      → IsEntry tree page idx (tables page idx)

-- The table `n` levels up, and the indices of the entries from there down to an entry.
unfoldable pub rise : Tree → ℕ → ℕ → ℕ
rise tree zero page = page
rise tree (suc n) page = tree.up (rise tree n page)

unfoldable pub trail : Tree → ℕ → ℕ → ℕ → List ℕ
unfolding rise
trail tree zero page idx = idx ∷ []
trail tree (suc n) page idx = tree.slot (rise tree n page) ∷ trail tree n page idx

-- The end of a walk tells where it came from.
pub walk-trail :
    (is_free : ℕ → Bool) (tables : Tables) (root : ℕ) (tree : Tree) (page idx : ℕ) (rest : List ℕ)
    {last end : ℕ}
    → IsTree is_free tables root tree
    → tree.is_table page ≡ true
    → tree.level page + length rest ≡ 3
    → IsUser tree page idx
    → walk tables page idx rest ≡ some (last, end)
    → (rise tree (length rest) last ≡ page)
      × (idx ∷ rest ≡ trail tree (length rest) last end)
      × (tree.is_table last ≡ true)
      × (tree.level last ≡ 3)
unfolding walk rise trail
walk-trail is_free tables root tree page idx [] {last} {end} t table deep user h =
    let e : (page, idx) ≡ (last, end) = some_inj h in
    let here : page ≡ last = ap (λ z. z.0) e in
    let there : idx ≡ end = ap (λ z. z.1) e in
    (sym here, ap (λ z. z ∷ []) there, rw (← here) table, rw (← here) (omega arith))
walk-trail is_free tables root tree page idx (next ∷ rest) t table deep user h =
    elim (t.entries page idx table (omega arith) user) [
      | inl (e, b) ↦ let bad : none ≡ some _ = rw e at h in cc
      | inr (e, b, at, level, up, slot) ↦
          let (r, s, l, d) =
            walk-trail is_free tables root tree (page_of (tables page idx)) next rest t at
              (omega arith) (λ z. absurd (omega arith)) (rw e at h) in
          (ap tree.up r ∙ up, rw (r, slot) (ap (λ z. idx ∷ z) s), l, d)
    ]

-- Tables that agree on the user's entries translate alike.
pub translate-agree :
    (is_free : ℕ → Bool) (before after : Tables) (root : ℕ) (tree : Tree) (offset page idx : ℕ)
    (rest : List ℕ)
    → IsTree is_free before root tree
    → ((p i : ℕ) → tree.is_table p ≡ true → IsUser tree p i → after p i ≡ before p i)
    → tree.is_table page ≡ true
    → tree.level page + length rest ≡ 3
    → IsUser tree page idx
    → translate after offset page idx rest ≡ translate before offset page idx rest
unfolding translate
translate-agree is_free before after root tree offset page idx [] t agree is deep user =
    rw (agree page idx is user) refl
translate-agree is_free before after root tree offset page idx (next ∷ rest) t agree is deep user =
    elim (t.entries page idx is (omega arith) user) [
      | inl (gone, b) ↦ rw (agree page idx is user, gone) refl
      | inr (there, b, at, level, up, slot) ↦
          rw (agree page idx is user, there)
            (translate-agree is_free before after root tree offset (page_of (before page idx)) next
              rest t agree at (omega (arith, level)) (λ z. absurd (omega (arith, level))))
    ]

pub is_low-base : (entry : ℕ) → page_of entry < low_end → is_low (base_address entry) ≡ true
unfolding base_address
is_low-base entry h = ground (arith, h)

-- On a tree of tables `get_mapping` does not panic at an address of the user's part, and gives what
-- the walk gives.
pub get_mapping-translate :
    {State : Type 0} (is_free : ℕ → Bool) (vma : Vma State) (tree : Tree) (va : ℕ)
    → IsTree is_free vma.tables (vma.pgt_phys_base / page_size) tree
    → is_kernel_slot (pml4_idx va) ≡ false
    → get_mapping vma va
      ≡ ok (
          translate vma.tables
            (va % page_size)
            (vma.pgt_phys_base / page_size)
            (pml4_idx va)
            (lower_indices va))
unfolding get_mapping translate
get_mapping-translate is_free vma tree va t user =
    let root = vma.pgt_phys_base / page_size in
    let pml4 = vma.tables root (pml4_idx va) in
    let pdp = vma.tables (page_of pml4) (pdp_idx va) in
    let pd = vma.tables (page_of pdp) (pd_idx va) in
    let pt = vma.tables (page_of pd) (pt_idx va) in
    let based : (pmem_va_start + vma.pgt_phys_base == 0) ≡ false = ground arith in
    elim (t.entries root (pml4_idx va) t.root_table (omega (arith, t.root_level)) (λ z. user)) [
      | inl (gone, b) ↦ rw (based, gone) refl
      | inr (there, b, at, level, up, slot) ↦
          let low = is_low-base pml4 (t.below (page_of pml4) at) in
          elim (t.entries (page_of pml4) (pdp_idx va) at (omega (arith, level, t.root_level))
            (λ z. absurd (omega (arith, level)))) [
              | inl (gone, b) ↦ rw (based, there, low, gone) refl
              | inr (there', b', at', level', up', slot') ↦
                  let low' = is_low-base pdp (t.below (page_of pdp) at') in
                  elim (t.entries (page_of pdp) (pd_idx va) at'
                    (omega (arith, level', level, t.root_level))
                    (λ z. absurd (omega (arith, level')))) [
                      | inl (gone, b) ↦ rw (based, there, low, there', low', gone) refl
                      | inr (there'', b'', at'', level'', up'', slot'') ↦
                          let low'' = is_low-base pd (t.below (page_of pd) at'') in
                          elim (Bool-cases (is_present pt)) [
                            | inl last ↦
                                rw (based, there, low, there', low', there'', low'', last) refl
                            | inr gone ↦
                                rw (based, there, low, there', low', there'', low'', gone) refl
                          ]
                    ]
            ]
    ]
