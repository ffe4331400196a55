-- ===== src/Mm/Buddy/Tests.antt =====
-- Runs of the buddy allocator on a memory of six pages, and instances of its theorems.
use inf3_os.Base.{
  ℕ, ◌+◌, ◌≡◌, refl, true, false, [], ◌∷◌, some, ok, Outcome, Option, Bool, panic, arith,
  if◌then◌else◌, ltb, ◌==◌, get_elem?,
}
use inf3_os.Mm.Buddy.{
  max_order, Areas, put, no_areas, buddy_of, insert_block, remove_block, split_block, merge_block,
  find_order, split_down, alloc_pages, overlaps, check_list, check_orders, coalesce, free_pages,
  find_containing, split_around, take_page, reserve_page, fill_order, fill_orders, init,
  is_correct_alignment_for_order,
}
use inf3_os.Mm.Buddy.Slots.{insert_link, remove_link, index_of}
use inf3_os.Mm.Buddy.Measure.{covers, hits, free_count, AreAligned, put-AreAligned}
use inf3_os.Mm.Buddy.Ascending.{AreAscending}
use inf3_os.Mm.Buddy.Allocating.{Allocates, alloc_pages-Allocates}
use inf3_os.Mm.Buddy.Coalescing.{Coalesced}
use inf3_os.Mm.Buddy.Freeing.{free_pages-Coalesced, check_orders_double_free}
use inf3_os.Mm.Buddy.Filling.{init_lem}
use inf3_os.Mm.Buddy.Reserving.{reserve_page_lem, reserve_page_taken}
use inf3_os.Mm.Buddy.RoundTrip.{IsSound, free_pages-alloc_pages}

program : Unit {0}
unfolding init fill_orders fill_order insert_block insert_link no_areas alloc_pages find_order
    split_down split_block remove_block remove_link free_pages check_orders check_list overlaps
    coalesce merge_block buddy_of index_of reserve_page split_around find_containing take_page
    is_correct_alignment_for_order
program = tt

-- Pages 0 to 3 are one block of order 2, pages 4 and 5 one of order 1.
abbrev six_pages : Areas
six_pages = put (put no_areas 2 (0 ∷ [])) 1 (4 ∷ [])

abbrev Shows : Outcome (Areas × Bool) → Type 0
Shows (ok (areas, done)) = (areas 2 ≡ 0 ∷ []) × (areas 1 ≡ 4 ∷ []) × (areas 0 ≡ []) × (done ≡ true)
Shows panic = ⊥

abbrev ShowsMerged : Outcome Areas → Type 0
ShowsMerged (ok areas) = (areas 3 ≡ 0 ∷ []) × (areas 2 ≡ []) × (areas 1 ≡ [])
ShowsMerged panic = ⊥

init_six : Shows (init no_areas 6)
unfolding program
init_six = (refl, refl, refl, refl)

after_alloc : Areas
unfolding no_areas
after_alloc = put (put (put (put six_pages 1 []) 0 (4 ∷ [])) 0 (4 ∷ 5 ∷ [])) 0 (5 ∷ [])

alloc_six : alloc_pages six_pages 0 ≡ ok (after_alloc, some 4)
unfolding program after_alloc
alloc_six = refl

six_pages_count : (page : ℕ) → free_count six_pages page ≡ covers 2 0 page + covers 1 4 page
unfolding free_count hits no_areas
six_pages_count page = omega arith

six_pages-IsSound : IsSound six_pages
unfolding no_areas
six_pages-IsSound = record {
  aligned =
      put-AreAligned _ 1 (4 ∷ []) (put-AreAligned _ 2 (0 ∷ []) (λ order. tt) (refl, tt)) (refl, tt);
  ascending = λ order. ground arith;
  single = λ page. ground (arith, six_pages_count page);
}

at_five : get_elem? (after_alloc 0) 0 ≡ some 5
unfolding after_alloc
at_five = refl

after_alloc_count : free_count after_alloc 5 ≡ 1
unfolding after_alloc free_count hits no_areas
after_alloc_count = refl

alloc_pages-Allocates_example :
    (after : Areas) × (result : Option ℕ) × (alloc_pages six_pages 0 ≡ ok (after, result))
    × Allocates six_pages 0 after result
alloc_pages-Allocates_example =
    alloc_pages-Allocates six_pages 0 (omega arith) six_pages-IsSound.aligned

free_pages-alloc_pages_example :
    (after : Areas) × (free_pages after_alloc 4 0 ≡ ok after)
    × IsSound after
    × ((page : ℕ) → free_count after page ≡ free_count six_pages page)
free_pages-alloc_pages_example =
    free_pages-alloc_pages six_pages after_alloc 0 4 (omega arith) six_pages-IsSound alloc_six

-- Pages 6 and 7 are in use.
free_pages-Coalesced_example :
    (after : Areas) × (free_pages six_pages 6 1 ≡ ok after)
    × Coalesced (insert_block six_pages 6 1).0 6 1 after
    × ((page : ℕ) → free_count after page ≡ covers 1 6 page + free_count six_pages page)
free_pages-Coalesced_example =
    free_pages-Coalesced six_pages 6 1 (omega arith) six_pages-IsSound.aligned refl
      (λ page low high. ground (arith, six_pages_count page))

-- They merge with pages 4 and 5, and then with pages 0 to 3.
free_six : ShowsMerged (free_pages six_pages 6 1)
unfolding program
free_six = (refl, refl, refl)

reserve_page_lem_example :
    (after : Areas) × (reserve_page six_pages 2 ≡ ok (after, true))
    × AreAligned after
    × AreAscending after
    × ((page : ℕ)
        → free_count six_pages page ≡ (if page == 2 then 1 else 0) + free_count after page)
reserve_page_lem_example =
    reserve_page_lem six_pages 2 six_pages-IsSound.aligned six_pages-IsSound.ascending
      (omega (arith, six_pages_count 2))

reserve_page_taken_example : reserve_page six_pages 6 ≡ ok (six_pages, false)
reserve_page_taken_example = reserve_page_taken six_pages 6 (omega (arith, six_pages_count 6))

init_lem_example :
    (after : Areas) × (init no_areas 6 ≡ ok (after, true))
    × AreAligned after
    × AreAscending after
    × ((page : ℕ) → free_count after page ≡ (if ltb page 6 then 1 else 0))
init_lem_example = init_lem 6 (omega arith)

check_orders_double_free_example : check_orders max_order after_alloc 5 0 ≡ ok tt
check_orders_double_free_example =
    check_orders_double_free after_alloc 5 (0, at_five) after_alloc_count
