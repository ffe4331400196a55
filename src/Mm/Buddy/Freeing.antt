-- ===== src/Mm/Buddy/Freeing.antt =====
-- CourseWorks/coursework/buddy.cpp: `free_pages` and its check for pages that are free already.
use native.Mathlib.Decide.{ℕ_discrete}
use inf3_os.Base.{
  ℕ, zero, suc, ◌+◌, ◌-◌, ◌≤◌, ◌<◌, ◌≡◌, some, List, [], ◌∷◌, get_elem?, ok, arith, refl, pow2-pos,
}
use inf3_os.Mm.Buddy.{
  max_order, Areas, pages_per_block, insert_block, overlaps, check_list, check_orders, free_pages,
  is_correct_alignment_for_order,
}
use inf3_os.Mm.Buddy.Measure.{covers, hits, free_below, free_count, IsAligned, AreAligned}
use inf3_os.Mm.Buddy.Blocks.{free_count-insert_block, insert_block-AreAligned}
use inf3_os.Mm.Buddy.Merging.{Holds, insert_block_slot}
use inf3_os.Mm.Buddy.Coalescing.{Coalesced, coalesce-Coalesced}

pub hits-le-free_below :
    (n order page : ℕ) (areas : Areas)
    → order < n
    → hits order (areas order) page ≤ free_below n areas page
unfolding free_below
hits-le-free_below zero order page areas h = elim h [ ]
hits-le-free_below (suc n) order page areas h = elim (ℕ_discrete order n) [
  | yes e ↦ rw e (omega arith)
  | no ne ↦ omega (arith, hits-le-free_below n order page areas (omega arith))
]

-- A list none of whose blocks holds the first or the last page passes.
check_list_clear :
    (pgd order ord : ℕ) (list : List ℕ)
    → hits ord list pgd ≡ 0
    → hits ord list (pgd + pages_per_block order - 1) ≡ 0
    → check_list pgd order ord list ≡ ok tt
unfolding check_list overlaps hits
check_list_clear pgd order ord [] h k = refl
check_list_clear pgd order ord (check ∷ rest) h k =
    ground (arith, check_list_clear pgd order ord rest)

check_orders_clear :
    (n : ℕ) (areas : Areas) (pgd order : ℕ)
    → free_below n areas pgd ≡ 0
    → free_below n areas (pgd + pages_per_block order - 1) ≡ 0
    → check_orders n areas pgd order ≡ ok tt
unfolding check_orders free_below
check_orders_clear zero areas pgd order h k = refl
check_orders_clear (suc n) areas pgd order h k =
    rw (check_list_clear pgd order n (areas n) (omega arith) (omega arith))
      (check_orders_clear n areas pgd order (omega arith) (omega arith))

-- The block lies outside the free blocks, at every page.
abbrev pub IsTaken : Areas → ℕ → ℕ → Type 0
IsTaken areas pgd order =
    (page : ℕ) → pgd ≤ page → page < pgd + pages_per_block order → free_count areas page ≡ 0

-- Freeing a block of which no page is free. The call does not panic, its pages become free, each
-- in one block more than before, every other page stays as it was, all free blocks stay aligned,
-- and the block is merged upwards until its buddy is not free or the order is the highest.
pub free_pages-Coalesced :
    (areas : Areas) (pgd order : ℕ)
    → order < max_order
    → AreAligned areas
    → IsAligned order pgd
    → IsTaken areas pgd order
    → (after : Areas) × (free_pages areas pgd order ≡ ok after)
      × Coalesced (insert_block areas pgd order).0 pgd order after
      × ((page : ℕ) → free_count after page ≡ covers order pgd page + free_count areas page)
unfolding free_pages is_correct_alignment_for_order free_count
free_pages-Coalesced areas pgd order valid a here taken =
    let passed =
      check_orders_clear max_order areas pgd order
        (taken pgd (omega arith) (omega (arith, pow2-pos order)))
        (taken _ (omega (arith, pow2-pos order)) (omega (arith, pow2-pos order))) in
    let (after, done, c) =
      coalesce-Coalesced max_order (insert_block areas pgd order).0 pgd order valid (omega arith)
        (insert_block-AreAligned areas pgd order a here)
        ((insert_block areas pgd order).1, insert_block_slot areas pgd order) in
    (
      after,
      rw (here, passed, done) refl,
      c,
      λ page. omega (arith, c.same.counts page, free_count-insert_block areas pgd order valid page),
    )

check_list_page : (pgd : ℕ) (list : List ℕ) → check_list pgd 0 0 list ≡ ok tt
unfolding check_list overlaps
check_list_page pgd [] = refl
check_list_page pgd (check ∷ rest) = ground (arith, check_list_page pgd rest)

check_orders_above :
    (n : ℕ) (areas : Areas) (pgd : ℕ)
    → free_below (suc n) areas pgd ≡ hits 0 (areas 0) pgd
    → check_orders (suc n) areas pgd 0 ≡ ok tt
unfolding check_orders free_below
check_orders_above zero areas pgd h = rw (check_list_page pgd (areas 0)) refl
check_orders_above (suc n) areas pgd h =
    let low = hits-le-free_below (suc n) 0 pgd areas (omega arith) in
    let single : pgd + pages_per_block 0 - 1 ≡ pgd = omega arith in
    rw (check_list_clear pgd 0 (suc n) (areas (suc n)) (omega arith) (rw single (omega arith)))
      (check_orders_above n areas pgd (omega arith))

hits_pos : (pgd slot : ℕ) (list : List ℕ) → get_elem? list slot ≡ some pgd → 0 < hits 0 list pgd
unfolding hits
hits_pos pgd slot [] h = cc
hits_pos pgd zero (x ∷ xs) h = ground arith
hits_pos pgd (suc slot) (x ∷ xs) h = omega (arith, hits_pos pgd slot xs h)

-- The check misses a double free of one page: where a page is a free block of order 0, and in no
-- other free block, the check that `free_pages` makes at order 0 passes.
pub check_orders_double_free :
    (areas : Areas) (pgd : ℕ)
    → Holds (areas 0) pgd
    → free_count areas pgd ≡ 1
    → check_orders max_order areas pgd 0 ≡ ok tt
unfolding free_count
check_orders_double_free areas pgd (slot, at) h = check_orders_above 16 areas pgd (
    omega (
      arith,
      hits_pos pgd slot (areas 0) at,
      hits-le-free_below max_order 0 pgd areas (omega arith),
    ))
