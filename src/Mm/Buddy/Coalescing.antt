-- ===== src/Mm/Buddy/Coalescing.antt =====
-- CourseWorks/coursework/buddy.cpp: the merging loop of `free_pages`.
use native.Mathlib.Numerals.{add-one}
use inf3_os.Base.{
  ℕ, zero, suc, ◌+◌, ◌-◌, ◌≤◌, ◌<◌, ◌≡◌, none, ltb, ok, arith, refl, ap, sym, ◌∙◌, ◌⊎◌, Bool-cases,
  inl, inr, Option-cases,
}
use inf3_os.Mm.Buddy.{max_order, Areas, pages_per_block, coalesce, buddy_of}
use inf3_os.Mm.Buddy.Slots.{index_of}
use inf3_os.Mm.Buddy.Measure.{IsAligned, AreAligned, All_at}
use inf3_os.Mm.Buddy.Blocks.{Same}
use inf3_os.Mm.Buddy.Pairs.{buddy_of-buddy_of}
use inf3_os.Mm.Buddy.Merging.{Holds, index_of_at, merge_block_at}

-- How the loop ends: no page gained or lost, the block that was freed lies in a free block, and
-- that block has no free buddy unless its order is the highest.
pub record Coalesced (areas : Areas) (block order : ℕ) (after : Areas) : Type 0 where
  pub same : Same areas after
  pub last_order : ℕ
  pub last : ℕ
  pub in_range : last_order < max_order
  pub points : Holds (after last_order) last
  pub starts : last ≤ block
  pub ends : block + pages_per_block order ≤ last + pages_per_block last_order
  pub stuck :
      (last_order ≡ max_order - 1) ⊎ (index_of (buddy_of last last_order) (after last_order) ≡ none)

Coalesced-here :
    (areas : Areas) (block order : ℕ)
    → order < max_order
    → AreAligned areas
    → Holds (areas order) block
    → (order ≡ max_order - 1) ⊎ (index_of (buddy_of block order) (areas order) ≡ none)
    → Coalesced areas block order areas
Coalesced-here areas block order valid a holds stuck = record {
  same = record { counts = λ page. refl; aligned = a; ascending = λ up. up };
  last_order = order;
  last = block;
  in_range = valid;
  points = holds;
  starts = omega arith;
  ends = omega arith;
  stuck = stuck;
}

Coalesced-next :
    (areas mid after : Areas) (block order left : ℕ)
    → Same areas mid
    → left ≤ block
    → block + pages_per_block order ≤ left + pages_per_block (suc order)
    → Coalesced mid left (suc order) after
    → Coalesced areas block order after
Coalesced-next areas mid after block order left same starts ends c = record {
  same = record {
    counts = λ page. omega (arith, same.counts page, c.same.counts page);
    aligned = c.same.aligned;
    ascending = λ up. c.same.ascending (same.ascending up);
  };
  last_order = c.last_order;
  last = c.last;
  in_range = c.in_range;
  points = c.points;
  starts = omega (arith, c.starts);
  ends = omega (arith, c.ends);
  stuck = c.stuck;
}

pub coalesce-Coalesced :
    (fuel : ℕ) (areas : Areas) (block order : ℕ)
    → order < max_order
    → max_order ≤ fuel + order
    → AreAligned areas
    → Holds (areas order) block
    → (after : Areas) × (coalesce fuel areas order (buddy_of block order) ≡ ok after)
      × Coalesced areas block order after
unfolding coalesce
coalesce-Coalesced zero areas block order valid enough a holds = absurd (omega arith)
coalesce-Coalesced (suc fuel) areas block order valid enough a holds =
    let here : IsAligned order block = All_at _ (areas order) holds.0 holds.1 (a order) in
    let (bud, to_bud, back, ne) = buddy_of-buddy_of block order valid here in
    elim (Bool-cases (ltb order (max_order - 1))) [
      | inr top ↦
          (areas, rw top refl, Coalesced-here areas block order valid a holds (inl (ground arith)))
      | inl lower ↦ elim (Option-cases (index_of (buddy_of block order) (areas order))) [
        | inl absent ↦ (
          areas,
          rw (lower, absent) refl,
          Coalesced-here areas block order valid a holds (inr absent),
        )
        | inr (slot, found) ↦
            let at =
              index_of_at (areas order) bud
                (ap (λ o. index_of o (areas order)) (sym to_bud) ∙ found) in
            let m = merge_block_at areas slot order bud block (ground arith) a at holds back in
            let g = m.merges in
            let (after, rest, c) =
              coalesce-Coalesced fuel g.after m.left (suc order) (ground arith) (omega arith)
                g.same.aligned (g.at, g.points) in
            (
              after,
              rw (lower, found, g.returns, add-one, g.points, rest) refl,
              Coalesced-next areas g.after after block order m.left g.same m.starts.1 m.ends.1 c,
            )
      ]
    ]
