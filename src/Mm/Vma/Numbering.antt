-- ===== src/Mm/Vma/Numbering.antt =====
-- CourseWorks/infos/mm/vma.cpp and include/infos/define.h: the indices of an address, and the order
-- of a number of pages.
use inf3_os.Base.{
  ℕ, zero, suc, ◌*◌, ◌/◌, ◌^◌, ◌≤◌, ◌<◌, ◌≡◌, ◌≢◌, inl, inr, false, some_inj, [], ◌∷◌, get_elem?,
  Bool-cases, ltb, ◌==◌, arith, ap, pow2-suc, ==_iff,
}
use inf3_os.Mm.Memory.{page_size}
use inf3_os.Mm.Vma.{high_bit, log2ceil, pml4_idx, pdp_idx, pd_idx, pt_idx}
use inf3_os.Mm.Vma.Walking.{indices, is_kernel_slot}

-- The end of the user's part of the address space.
abbrev pub user_end : ℕ
user_end = 2 ^ 47

pub user_slot : (va : ℕ) → va < user_end → is_kernel_slot (pml4_idx va) ≡ false
user_slot va low = ground arith

nth_index :
    (a b : ℕ) (n : ℕ) → indices a ≡ indices b → get_elem? (indices a) n ≡ get_elem? (indices b) n
nth_index a b n e = ap (λ l. get_elem? l n) e

-- Addresses with the same indices lie in the same page, and the other way round.
pub same_page :
    (a b : ℕ) → a < user_end → b < user_end → indices a ≡ indices b → a / page_size ≡ b / page_size
same_page a b low low' e =
    let e0 = some_inj (nth_index a b 0 e) in
    let e1 = some_inj (nth_index a b 1 e) in
    let e2 = some_inj (nth_index a b 2 e) in let e3 = some_inj (nth_index a b 3 e) in omega arith

pub same_indices : (a b : ℕ) → a / page_size ≡ b / page_size → indices a ≡ indices b
same_indices a b e =
    let e0 : pml4_idx a ≡ pml4_idx b = omega arith in
    let e1 : pdp_idx a ≡ pdp_idx b = omega arith in
    let e2 : pd_idx a ≡ pd_idx b = omega arith in
    let e3 : pt_idx a ≡ pt_idx b = omega arith in λ i. e0 i ∷ e1 i ∷ e2 i ∷ e3 i ∷ []

high_bit-bounds :
    (fuel x : ℕ) → 0 < x → x < 2 ^ fuel → (2 ^ high_bit fuel x ≤ x) × (x < 2 * 2 ^ high_bit fuel x)
unfolding high_bit
high_bit-bounds zero x pos small = (omega arith, omega arith)
high_bit-bounds (suc fuel) x pos small = elim (Bool-cases (ltb x 2)) [
  | inl one ↦ rw one (ground arith)
  | inr more ↦
      let (low, high) =
        high_bit-bounds fuel (x / 2) (ground arith) (omega (arith, pow2-suc fuel)) in
      rw more (
        omega (arith, low, pow2-suc (high_bit fuel (x / 2))),
        omega (arith, high, pow2-suc (high_bit fuel (x / 2))),
      )
]

-- The block that is allocated is large enough, and less than twice as large as was asked for.
pub log2ceil-covers :
    (nr_pages : ℕ)
    → 0 < nr_pages
    → nr_pages < 2 ^ 64
    → (nr_pages ≤ 2 ^ log2ceil nr_pages) × (2 ^ log2ceil nr_pages < 2 * nr_pages)
unfolding log2ceil
log2ceil-covers nr_pages pos small =
    let (low, high) = high_bit-bounds 64 nr_pages pos small in
    let proper : (nr_pages == 0) ≡ false = ground arith in
    elim (Bool-cases (2 ^ high_bit 64 nr_pages == nr_pages)) [
      | inl exact ↦
          let e = (==_iff (2 ^ high_bit 64 nr_pages) nr_pages).0 exact in
          let size : log2ceil nr_pages ≡ high_bit 64 nr_pages = rw (proper, exact) (omega arith) in
          rw (log2ceil, size) (omega (arith, e), omega (arith, e))
      | inr more ↦
          let up = pow2-suc (high_bit 64 nr_pages) in
          let ne : 2 ^ high_bit 64 nr_pages ≢ nr_pages = ground arith in
          let size : log2ceil nr_pages ≡ suc (high_bit 64 nr_pages) =
            rw (proper, more) (omega arith) in
          rw (log2ceil, size) (omega (arith, up, high), omega (arith, up, low, ne))
    ]
