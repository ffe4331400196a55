-- ===== src/Mm/Buddy/Reserving.antt =====
-- CourseWorks/coursework/buddy.cpp: `reserve_page`.
use native.Mathlib.Decide.{ℕ_discrete}
use inf3_os.Base.{
  ℕ, zero, suc, ◌+◌, ◌≤◌, ◌<◌, ◌≡◌, true, false, ◌&&◌, List, [], ◌∷◌, ltb, leb, ◌==◌, if◌then◌else◌,
  All, ok, arith, refl, ap, ◌∙◌, Bool-cases, inl, inr, Option-cases, get_elem?, none, some,
}
use inf3_os.Mm.Buddy.{
  max_order, Areas, pages_per_block, find_containing, split_around, reserve_page, take_page,
}
use inf3_os.Mm.Buddy.Slots.{index_of}
use inf3_os.Mm.Buddy.Measure.{covers, hits, free_below, free_count, AreAligned}
use inf3_os.Mm.Buddy.Ascending.{IsAscending, AreAscending}
use inf3_os.Mm.Buddy.Blocks.{split_block_at, Splits, Same, remove_block_at, remove_block-Gone}
use inf3_os.Mm.Buddy.Merging.{index_of_at}
use inf3_os.Mm.Buddy.Freeing.{hits-le-free_below}

hits_above : (order pgd : ℕ) (list : List ℕ) → All (λ y. pgd < y) list → hits order list pgd ≡ 0
unfolding hits
hits_above order pgd [] h = refl
hits_above order pgd (x ∷ xs) h = ground (arith, hits_above order pgd xs h.1)

All-lt : (a b : ℕ) (xs : List ℕ) → a < b → All (λ y. b ≤ y) xs → All (λ y. a < y) xs
All-lt a b [] h all = tt
All-lt a b (x ∷ xs) h all = (omega arith, All-lt a b xs h all.1)

-- The walk stops early only where no later block of an ascending list can hold the page.
find_containing-none :
    (pgd order : ℕ) (list : List ℕ)
    → IsAscending list
    → find_containing pgd order list ≡ none
    → hits order list pgd ≡ 0
unfolding find_containing hits
find_containing-none pgd order [] up h = refl
find_containing-none pgd order (x ∷ xs) up h = elim (Bool-cases (leb x pgd)) [
  | inr past ↦ hits_above order pgd (x ∷ xs) (ground arith, All-lt pgd x xs (ground arith) up.0)
  | inl at ↦ elim (Option-cases (find_containing pgd order xs)) [
    | inl absent ↦ ground (arith, find_containing-none pgd order xs up.1 absent)
    | inr (i, found) ↦ ground arith
  ]
]

find_containing-some :
    (pgd order : ℕ) (list : List ℕ) {slot : ℕ}
    → find_containing pgd order list ≡ some slot
    → (block : ℕ) × (get_elem? list slot ≡ some block) × (covers order block pgd ≡ 1)
unfolding find_containing
find_containing-some pgd order [] h = cc
find_containing-some pgd order (x ∷ xs) {slot} h =
    elim (Bool-cases (leb x pgd && ltb pgd (x + pages_per_block order))) [
      | inl hit ↦ let e : 0 ≡ slot = ground arith in rw (← e) (x, refl, rw hit refl)
      | inr miss ↦ elim (Option-cases (find_containing pgd order xs)) [
        | inl absent ↦ ground arith
        | inr (i, found) ↦
            let e : suc i ≡ slot = ground arith in
            rw (← e) (find_containing-some pgd order xs found)
      ]
    ]

-- No block of an order above `n` holds the page.
abbrev ClearAbove : ℕ → Areas → ℕ → Type 0
ClearAbove n areas pgd = (k : ℕ) → n < k → k < max_order → hits k (areas k) pgd ≡ 0

ClearAbove-next :
    (n : ℕ) (areas : Areas) (pgd : ℕ)
    → ClearAbove (suc n) areas pgd
    → hits (suc n) (areas (suc n)) pgd ≡ 0
    → ClearAbove n areas pgd
ClearAbove-next n areas pgd above here k low high = elim (ℕ_discrete k (suc n)) [
  | yes e ↦ rw e here
  | no ne ↦ above k (omega arith) high
]

ClearAbove-split :
    (n slot block pgd : ℕ) (areas : Areas) (s : Splits areas slot n block)
    → suc n < max_order
    → free_count areas pgd ≤ 1
    → covers (suc n) block pgd ≡ 1
    → ClearAbove (suc n) areas pgd
    → ClearAbove n s.after pgd
unfolding free_count
ClearAbove-split n slot block pgd areas s valid single holds above =
    ClearAbove-next n s.after pgd
      (λ k low high.
        ap (λ l. hits k l pgd) (s.others k (λ e. omega (arith, e)) (λ e. omega (arith, e)))
        ∙ above k low high)
      (omega (arith, s.own pgd, hits-le-free_below max_order (suc n) pgd areas valid))

split_around-Same :
    (n : ℕ) (areas : Areas) (pgd : ℕ)
    → n < max_order
    → AreAligned areas
    → AreAscending areas
    → free_count areas pgd ≤ 1
    → ClearAbove n areas pgd
    → (after : Areas) × (split_around n areas pgd ≡ ok after)
      × Same areas after
      × ClearAbove 0 after pgd
unfolding split_around
split_around-Same zero areas pgd valid a up single above =
    (areas, refl, record { counts = λ page. refl; aligned = a; ascending = λ u. u }, above)
split_around-Same (suc n) areas pgd valid a up single above =
    elim (Option-cases (find_containing pgd (suc n) (areas (suc n)))) [
      | inl absent ↦
          let (after, done, same, clear) = split_around-Same n areas pgd (omega arith) a up single (
            ClearAbove-next n areas pgd above
              (find_containing-none pgd (suc n) (areas (suc n)) (up (suc n)) absent)) in
          (after, rw (absent, split_around) done, same, clear)
      | inr (slot, found) ↦
          let (block, at, holds) = find_containing-some pgd (suc n) (areas (suc n)) found in
          let s = split_block_at areas slot n block valid a at in
          let (after, done, same, clear) =
            split_around-Same n s.after pgd (omega arith) s.same.aligned (s.same.ascending up)
              (omega (arith, s.same.counts pgd))
              (ClearAbove-split n slot block pgd areas s valid single holds above) in
          (
            after,
            rw (found, split_around, s.returns) done,
            record {
              counts = λ page. omega (arith, s.same.counts page, same.counts page);
              aligned = same.aligned;
              ascending = λ u. same.ascending (s.same.ascending u);
            },
            clear,
          )
    ]

free_below-page :
    (n : ℕ) (areas : Areas) (pgd : ℕ)
    → n < max_order
    → ClearAbove 0 areas pgd
    → free_below (suc n) areas pgd ≡ hits 0 (areas 0) pgd
unfolding free_below
free_below-page zero areas pgd h clear = omega arith
free_below-page (suc n) areas pgd h clear =
    omega (arith, clear (suc n) (omega arith) h, free_below-page n areas pgd (omega arith) clear)

free_count-page :
    (areas : Areas) (pgd : ℕ) → ClearAbove 0 areas pgd → free_count areas pgd ≡ hits 0 (areas 0) pgd
unfolding free_count
free_count-page areas pgd clear = free_below-page 16 areas pgd (omega arith) clear

index_of-page : (pgd : ℕ) (list : List ℕ) → index_of (some pgd) list ≡ none → hits 0 list pgd ≡ 0
unfolding index_of hits
index_of-page pgd [] h = refl
index_of-page pgd (x ∷ xs) h = elim (Option-cases (index_of (some pgd) xs)) [
  | inl absent ↦ ground (arith, index_of-page pgd xs absent)
  | inr (i, found) ↦ ground arith
]

-- Reserving a page that lies in just one free block. The call splits its way down to the page,
-- takes it out and answers true; no other page changes, and the free blocks stay aligned and
-- their lists ascending.
pub reserve_page_lem :
    (areas : Areas) (pgd : ℕ)
    → AreAligned areas
    → AreAscending areas
    → free_count areas pgd ≡ 1
    → (after : Areas) × (reserve_page areas pgd ≡ ok (after, true))
      × AreAligned after
      × AreAscending after
      × ((page : ℕ)
          → free_count areas page ≡ (if page == pgd then 1 else 0) + free_count after page)
unfolding reserve_page take_page
reserve_page_lem areas pgd a up one =
    let (mid, split, same, clear) =
      split_around-Same 16 areas pgd (omega arith) a up (omega arith)
        (λ k low high. absurd (omega arith)) in
    let alone = free_count-page mid pgd clear in
    elim (Option-cases (index_of (some pgd) (mid 0))) [
      | inl absent ↦
          absurd (omega (arith, same.counts pgd, alone, index_of-page pgd (mid 0) absent))
      | inr (slot, found) ↦
          let (after, gone) = remove_block_at mid pgd 0 slot (index_of_at (mid 0) pgd found) in
          let step = remove_block-Gone mid after pgd 0 (omega arith) gone in
          (
            after,
            rw split (rw (found, take_page, gone) refl),
            step.aligned same.aligned,
            step.ascending (same.ascending up),
            λ page. ground (arith, same.counts page, step.counts page),
          )
    ]

find_containing_clear :
    (pgd order : ℕ) (list : List ℕ)
    → hits order list pgd ≡ 0
    → find_containing pgd order list ≡ none
unfolding find_containing hits
find_containing_clear pgd order [] h = refl
find_containing_clear pgd order (x ∷ xs) h =
    let rest = find_containing_clear pgd order xs (omega arith) in
    elim (Bool-cases (leb x pgd)) [
      | inr past ↦ rw past refl
      | inl at ↦ rw (at, rest) (ground arith)
    ]

split_around_clear :
    (n : ℕ) (areas : Areas) (pgd : ℕ)
    → n < max_order
    → free_count areas pgd ≡ 0
    → split_around n areas pgd ≡ ok areas
unfolding split_around free_count
split_around_clear zero areas pgd valid h = refl
split_around_clear (suc n) areas pgd valid h =
    let low = hits-le-free_below max_order (suc n) pgd areas valid in
    rw (find_containing_clear pgd (suc n) (areas (suc n)) (omega (arith, low)), split_around)
      (split_around_clear n areas pgd (omega arith) h)

index_of_clear : (pgd : ℕ) (list : List ℕ) → hits 0 list pgd ≡ 0 → index_of (some pgd) list ≡ none
unfolding index_of hits
index_of_clear pgd [] h = refl
index_of_clear pgd (x ∷ xs) h = rw (index_of_clear pgd xs (omega arith)) (ground arith)

-- A page that is in no free block cannot be reserved: the call answers false and changes nothing.
pub reserve_page_taken :
    (areas : Areas) (pgd : ℕ)
    → free_count areas pgd ≡ 0
    → reserve_page areas pgd ≡ ok (areas, false)
unfolding reserve_page take_page free_count
reserve_page_taken areas pgd none_free =
    let low = hits-le-free_below max_order 0 pgd areas (omega arith) in
    rw (split_around_clear 16 areas pgd (omega arith) none_free)
      (rw (index_of_clear pgd (areas 0) (empty_below low), take_page) refl)
  where
    empty_below : hits 0 (areas 0) pgd ≤ free_below max_order areas pgd → hits 0 (areas 0) pgd ≡ 0
    empty_below low = omega arith
