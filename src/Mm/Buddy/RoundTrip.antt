-- ===== src/Mm/Buddy/RoundTrip.antt =====
-- CourseWorks/coursework/buddy.cpp: `free_pages` after `alloc_pages`.
use inf3_os.Base.{ℕ, ◌+◌, ◌≤◌, ◌<◌, ◌≡◌, some, ok, arith}
use inf3_os.Mm.Buddy.{max_order, Areas, alloc_pages, free_pages, pages_per_block}
use inf3_os.Mm.Buddy.Measure.{free_count, AreAligned}
use inf3_os.Mm.Buddy.Ascending.{insert_block-AreAscending, AreAscending}
use inf3_os.Mm.Buddy.Allocating.{alloc_pages-Granted}
use inf3_os.Mm.Buddy.Freeing.{free_pages-Coalesced}

-- The state of a sound allocator: aligned free blocks in ascending lists, and no page in two.
pub record IsSound (areas : Areas) : Type 0 where
  pub aligned : AreAligned areas
  pub ascending : AreAscending areas
  pub single : (page : ℕ) → free_count areas page ≤ 1

-- Allocation keeps a sound state sound.
pub alloc_pages-IsSound :
    (areas after : Areas) (order block : ℕ)
    → order < max_order
    → IsSound areas
    → alloc_pages areas order ≡ ok (after, some block)
    → IsSound after
alloc_pages-IsSound areas after order block valid sound given =
    let g = alloc_pages-Granted areas after order block valid sound.aligned given in
    record {
      aligned = g.aligned;
      ascending = g.ascending sound.ascending;
      single = λ page. omega (arith, g.counts page, sound.single page);
    }

-- In a sound state, a block that `alloc_pages` gave is taken back by `free_pages` without a panic.
-- The state is sound again, and the same pages are free as before the allocation.
pub free_pages-alloc_pages :
    (areas mid : Areas) (order block : ℕ)
    → order < max_order
    → IsSound areas
    → alloc_pages areas order ≡ ok (mid, some block)
    → (after : Areas) × (free_pages mid block order ≡ ok after)
      × IsSound after
      × ((page : ℕ) → free_count after page ≡ free_count areas page)
free_pages-alloc_pages areas mid order block valid sound given =
    let g = alloc_pages-Granted areas mid order block valid sound.aligned given in
    let taken : (page : ℕ)
        → block ≤ page
        → page < block + pages_per_block order
        → free_count mid page ≡ 0 =
      λ page low high. ground (arith, g.counts page, sound.single page) in
    let (after, done, c, counts) =
      free_pages-Coalesced mid block order valid g.aligned g.here taken in
    let same : (page : ℕ) → free_count after page ≡ free_count areas page =
      λ page. omega (arith, counts page, g.counts page) in
    (
      after,
      done,
      record {
        aligned = c.same.aligned;
        ascending =
            c.same.ascending
              (insert_block-AreAscending mid block order (g.ascending sound.ascending));
        single = λ page. omega (arith, same page, sound.single page);
      },
      same,
    )
