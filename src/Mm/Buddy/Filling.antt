-- ===== src/Mm/Buddy/Filling.antt =====
-- CourseWorks/coursework/buddy.cpp: `init`.
use inf3_os.Base.{
  ==_refl, ℕ, zero, suc, ◌+◌, ◌%◌, ◌^◌, ◌≤◌, ◌<◌, ◌≡◌, true, false, ◌&&◌, ltb, leb, ◌==◌,
  if◌then◌else◌, ok, arith, refl, ap, sym, ◌∙◌, ◌⊎◌, Bool-cases, inl, inr, pow2-suc, pow2-pos,
  aligned_right, aligned_half,
}
use inf3_os.Mm.Buddy.{
  int_end, max_order, Areas, pages_per_block, insert_block, fill_order, fill_orders, init, no_areas,
  is_correct_alignment_for_order,
}
use inf3_os.Mm.Buddy.Measure.{hits, free_count, IsAligned, AreAligned}
use inf3_os.Mm.Buddy.Ascending.{AreAscending, insert_block-AreAscending}
use inf3_os.Mm.Buddy.Blocks.{free_count-insert_block, insert_block-AreAligned}

-- 1 for the pages from `start` up to `end`, else 0.
abbrev pub between : ℕ → ℕ → ℕ → ℕ
between start end page = if leb start page && ltb page end then 1 else 0

-- What the loops have done when they stand at `end`.
record Filled (before after : Areas) (start end : ℕ) : Type 0 where
  counts : (page : ℕ) → free_count after page ≡ free_count before page + between start end page
  aligned : AreAligned after
  ascending : AreAscending before → AreAscending after
  forward : start ≤ end

Filled-next :
    (before mid after : Areas) (start middle end : ℕ)
    → Filled before mid start middle
    → Filled mid after middle end
    → Filled before after start end
Filled-next before mid after start middle end f g = record {
  counts = λ page. ground (arith, f.counts page, g.counts page, f.forward, g.forward);
  aligned = g.aligned;
  ascending = λ up. g.ascending (f.ascending up);
  forward = omega (arith, f.forward, g.forward);
}

Filled-here : (areas : Areas) (start : ℕ) → AreAligned areas → Filled areas areas start start
Filled-here areas start a = record {
  counts = λ page. ground arith;
  aligned = a;
  ascending = λ up. up;
  forward = omega arith;
}

Filled-block :
    (areas : Areas) (offset order : ℕ)
    → order < max_order
    → AreAligned areas
    → IsAligned order offset
    → Filled areas (insert_block areas offset order).0 offset (offset + pages_per_block order)
Filled-block areas offset order valid a here = record {
  counts = λ page. omega (arith, free_count-insert_block areas offset order valid page);
  aligned = insert_block-AreAligned areas offset order a here;
  ascending = insert_block-AreAscending areas offset order;
  forward = omega arith;
}

fill_order-Filled :
    (fuel : ℕ) (areas : Areas) (offset nr order : ℕ)
    → order < max_order
    → nr < int_end
    → nr < offset + fuel
    → offset ≤ nr
    → AreAligned areas
    → IsAligned order offset
    → (after : Areas) × (end : ℕ) × (fill_order fuel areas offset nr order ≡ ok (after, end))
      × Filled areas after offset end
      × (end ≤ nr)
      × (nr < end + pages_per_block order)
      × IsAligned order end
unfolding fill_order is_correct_alignment_for_order
fill_order-Filled zero areas offset nr order valid low enough fits a here = absurd (omega arith)
fill_order-Filled (suc fuel) areas offset nr order valid low enough fits a here =
    elim (Bool-cases (leb (offset + pages_per_block order) nr)) [
      | inr full ↦
          (areas, offset, rw full refl, Filled-here areas offset a, fits, ground arith, here)
      | inl room ↦
          let within : ltb (offset + pages_per_block order) int_end ≡ true = ground arith in
          let block = Filled-block areas offset order valid a here in
          let (after, end, rest, filled, fits', full, there) =
            fill_order-Filled fuel (insert_block areas offset order).0
              (offset + pages_per_block order) nr order valid low (omega (arith, pow2-pos order))
              (ground arith) block.aligned (aligned_right offset (2 ^ order) here) in
          (
            after,
            end,
            rw (room, here, within) rest,
            Filled-next areas _ after offset _ end block filled,
            fits',
            full,
            there,
          )
    ]

-- After order 0 nothing is left over.
more_orders :
    (curr end : ℕ) {nr : ℕ}
    → nr < end + pages_per_block curr
    → end ≤ nr
    → (end == nr) ≡ false
    → (0 < curr) ⊎ (end ≡ nr)
more_orders zero end full fits h = inr (omega arith)
more_orders (suc curr) end full fits h = inl (omega arith)

fill_orders-Filled :
    (n : ℕ) (areas : Areas) (offset nr : ℕ)
    → n ≤ max_order
    → nr < int_end
    → offset ≤ nr
    → AreAligned areas
    → IsAligned n offset
    → (0 < n) ⊎ (offset ≡ nr)
    → (after : Areas) × (fill_orders n areas offset nr ≡ ok (after, nr))
      × Filled areas after offset nr
unfolding fill_orders
fill_orders-Filled zero areas offset nr high low fits a here (inl pos) = absurd (omega arith)
fill_orders-Filled zero areas offset nr high low fits a here (inr e) =
    (areas, rw e refl, rw (← e) (Filled-here areas offset a))
fill_orders-Filled (suc curr) areas offset nr high low fits a here more =
    let half = aligned_half offset (2 ^ curr) (ap (λ t. offset % t) (sym (pow2-suc curr)) ∙ here) in
    let (mid, end, done, filled, fits', full, there) =
      fill_order-Filled (suc nr) areas offset nr curr (omega arith) low (omega arith) fits a half in
    elim (Bool-cases (end == nr)) [
      | inl all ↦
          let e : end ≡ nr = ground arith in
          (mid, rw (done, all) (ap (λ t. ok (mid, t)) e), rw e at filled)
      | inr some_left ↦
          let (after, rest, filled') =
            fill_orders-Filled curr mid end nr (omega arith) low fits' filled.aligned there
              (more_orders curr end full fits' some_left) in
          (
            after,
            rw (done, some_left) rest,
            Filled-next areas mid after offset end nr filled filled',
          )
    ]

no_areas_free : (page : ℕ) → free_count no_areas page ≡ 0
unfolding free_count no_areas hits
no_areas_free page = omega arith

no_areas-AreAligned : AreAligned no_areas
unfolding no_areas
no_areas-AreAligned order = tt

no_areas-AreAscending : AreAscending no_areas
unfolding no_areas
no_areas-AreAscending order = tt

-- `init` on the empty free lists of the constructor, for fewer than 2 ^ 31 pages. It succeeds, and exactly the pages below
-- `nr_page_descriptors` are free, each in one aligned block, in ascending lists.
pub init_lem :
    (nr : ℕ)
    → nr < int_end
    → (after : Areas) × (init no_areas nr ≡ ok (after, true))
      × AreAligned after
      × AreAscending after
      × ((page : ℕ) → free_count after page ≡ (if ltb page nr then 1 else 0))
unfolding init
init_lem nr low =
    let (after, done, filled) =
      fill_orders-Filled max_order no_areas 0 nr (omega arith) low (omega arith) no_areas-AreAligned
        refl (inl (omega arith)) in
    (
      after,
      rw (done, ==_refl nr) refl,
      filled.aligned,
      filled.ascending no_areas-AreAscending,
      λ page. ground (arith, filled.counts page, no_areas_free page),
    )
