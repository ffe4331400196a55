-- ===== src/Mm/Buddy/Allocating.antt =====
-- CourseWorks/coursework/buddy.cpp: `alloc_pages`.
use native.Mathlib.Decide.{ℕ_discrete}
use inf3_os.Base.{
  ok_inj, ℕ, zero, suc, ◌+◌, ◌-◌, ◌≤◌, ◌<◌, ◌≡◌, false, Option, none, some, [], leb, get_elem?, ok,
  arith, refl, ap, sym, subst, ◌∙◌, Bool-cases, List-cases, inl, inr, Option-cases,
}
use inf3_os.Mm.Buddy.{max_order, Areas, find_order, split_down, alloc_pages}
use inf3_os.Mm.Buddy.Measure.{covers, free_count, IsAligned, AreAligned, All_at}
use inf3_os.Mm.Buddy.Ascending.{AreAscending}
use inf3_os.Mm.Buddy.Blocks.{split_block_at, Same, remove_block-Gone, remove_block_at}

-- What `find_order` answers: the first order from here up that has a free block.
abbrev Finds : Areas → ℕ → ℕ → Option ℕ → Type 0
Finds areas order difference none = (k : ℕ) → order + difference ≤ k → k < max_order → areas k ≡ []
Finds areas order difference (some found) =
    (order + found < max_order) × ((first : ℕ) × (get_elem? (areas (order + found)) 0 ≡ some first))

Finds-next :
    (areas : Areas) (order difference : ℕ) (answer : Option ℕ)
    → areas (order + difference) ≡ []
    → Finds areas order (difference + 1) answer
    → Finds areas order difference answer
Finds-next areas order difference none e h = λ k low high.
    elim (ℕ_discrete k (order + difference)) [
      | yes at ↦ ap areas at ∙ e
      | no above ↦ h k (omega arith) high
    ]
Finds-next areas order difference (some found) e h = h

find_order-Finds :
    (fuel : ℕ) (areas : Areas) (order difference : ℕ)
    → order + difference < max_order
    → max_order ≤ order + difference + fuel
    → Finds areas order difference (find_order fuel areas order difference)
unfolding find_order
find_order-Finds zero areas order difference valid enough = absurd (omega arith)
find_order-Finds (suc fuel) areas order difference valid enough =
    elim (List-cases (areas (order + difference))) [
      | inr (x, xs, e) ↦ rw (e, find_order) (valid, (x, rw e refl))
      | inl e ↦ elim (Bool-cases (leb max_order (order + (difference + 1)))) [
        | inl top ↦
            rw (e, find_order, top)
              (λ k low high. let at : k ≡ order + difference = ground arith in rw at e)
        | inr lower ↦
            rw (e, find_order, lower)
              (Finds-next areas order difference _ e
                (find_order-Finds fuel areas order (difference + 1) (ground arith) (omega arith)))
      ]
    ]

-- The splits on the way down leave a block of the order asked for at the head of its list.
split_down-Same :
    (difference : ℕ) (areas : Areas) (order first : ℕ)
    → order + difference < max_order
    → AreAligned areas
    → get_elem? (areas (order + difference)) 0 ≡ some first
    → (after : Areas) × (split_down difference areas order ≡ ok after)
      × Same areas after
      × ((head : ℕ) × (get_elem? (after order) 0 ≡ some head))
unfolding split_down
split_down-Same zero areas order first valid a at = (
  areas,
  refl,
  record { counts = λ page. refl; aligned = a; ascending = λ up. up },
  (first, let e : order ≡ order + 0 = omega arith in ap (λ k. get_elem? (areas k) 0) e ∙ at),
)
split_down-Same (suc difference) areas order first valid a at =
    let e : order + suc difference ≡ suc (order + difference) = omega arith in
    let s = split_block_at areas 0 (order + difference) first (omega arith) a (rw e at at) in
    let (after, rest, same, head) =
      split_down-Same difference s.after order s.first (omega arith) s.same.aligned s.first_at in
    (
      after,
      rw (e, s.returns, rest) refl,
      record {
        counts = λ page. omega (arith, s.same.counts page, same.counts page);
        aligned = same.aligned;
        ascending = λ up. same.ascending (s.same.ascending up);
      },
      head,
    )

-- An aligned block of pages that were free: each is in one free block less than before, and every
-- other page is as it was.
pub record Granted (areas : Areas) (order : ℕ) (after : Areas) (block : ℕ) : Type 0 where
  pub here : IsAligned order block
  pub counts : (page : ℕ) → free_count areas page ≡ covers order block page + free_count after page
  pub aligned : AreAligned after
  pub ascending : AreAscending areas → AreAscending after

-- What a call of `alloc_pages` may answer. With NULL the state is as it was, and no order from the
-- one asked for up has a free block.
abbrev pub Allocates : Areas → ℕ → Areas → Option ℕ → Type 0
Allocates areas order after none =
    (after ≡ areas) × ((k : ℕ) → order ≤ k → k < max_order → areas k ≡ [])
Allocates areas order after (some block) = Granted areas order after block

-- `alloc_pages` never panics. It answers NULL only when no free block is large enough, and
-- otherwise takes one aligned block of free pages and leaves all other pages as they were.
pub alloc_pages-Allocates :
    (areas : Areas) (order : ℕ)
    → order < max_order
    → AreAligned areas
    → (after : Areas) × (result : Option ℕ) × (alloc_pages areas order ≡ ok (after, result))
      × Allocates areas order after result
unfolding alloc_pages
alloc_pages-Allocates areas order valid a =
    elim (Option-cases (find_order (max_order - order) areas order 0)) [
      | inl empty ↦
          let f : Finds areas order 0 none = subst (Finds areas order 0) empty search_result in
          (areas, none, rw (proper, empty) refl, (refl, λ k low high. f k (omega arith) high))
      | inr (difference, found) ↦
          let (high, (first, at)) = subst (Finds areas order 0) found search_result in
          let (mid, split, same, (block, there)) =
            split_down-Same difference areas order first high a at in
          let (after, gone) = remove_block_at mid block order 0 there in
          let step = remove_block-Gone mid after block order valid gone in
          (
            after,
            some block,
            rw (proper, found, split, there, gone) refl,
            record {
              here = All_at _ (mid order) 0 there (same.aligned order);
              counts = λ page. omega (arith, same.counts page, step.counts page);
              aligned = step.aligned same.aligned;
              ascending = λ up. step.ascending (same.ascending up);
            },
          )
    ]
  where
    proper : leb max_order order ≡ false
    proper = ground arith

    search_result : Finds areas order 0 (find_order (max_order - order) areas order 0)
    search_result = find_order-Finds (max_order - order) areas order 0 (omega arith) (omega arith)

-- The same, read off a call that answered with a block.
pub alloc_pages-Granted :
    (areas after : Areas) (order block : ℕ)
    → order < max_order
    → AreAligned areas
    → alloc_pages areas order ≡ ok (after, some block)
    → Granted areas order after block
alloc_pages-Granted areas after order block valid a given =
    let (after', result, done, answer) = alloc_pages-Allocates areas order valid a in
    let e : (after', result) ≡ (after, some block) = ok_inj (sym done ∙ given) in
    subst (λ (t : Areas × Option ℕ). Allocates areas order t.0 t.1) e answer
