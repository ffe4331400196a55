-- ===== src/Mm/Pages/Buddies.antt =====
-- CourseWorks/coursework/buddy.cpp as the algorithm of infos/mm/page-allocator.cpp.
use native.Mathlib.Decide.{ℕ_discrete}
use inf3_os.Base.{
  Bool-cases, inl, inr, ℕ, ◌+◌, ◌^◌, ◌≤◌, ◌<◌, ◌≡◌, Bool, true, false, not, ◌&&◌, ltb, ◌==◌,
  if◌then◌else◌, Option, none, some, ok, arith, refl, sym, ◌∙◌, ap,
}
use inf3_os.Mm.Buddy.{
  int_end, max_order, Areas, no_areas, init, reserve_page, alloc_pages, free_pages,
}
use inf3_os.Mm.Buddy.Measure.{covers, free_count, IsAligned}
use inf3_os.Mm.Buddy.Filling.{init_lem}
use inf3_os.Mm.Buddy.Reserving.{reserve_page_lem}
use inf3_os.Mm.Buddy.Allocating.{Allocates, alloc_pages-Allocates}
use inf3_os.Mm.Buddy.RoundTrip.{IsSound}
use inf3_os.Mm.Buddy.Freeing.{free_pages-Coalesced}
use inf3_os.Mm.Buddy.Ascending.{insert_block-AreAscending}
use inf3_os.Mm.Pages.{
  PageType, invalid, reserved, available, allocated, Types, PageAllocatorAlgorithm, is_available,
  is_allocated, set_types,
}
use inf3_os.Mm.Pages.Marking.{within, set_types_at}
use inf3_os.Mm.Pages.Interface.{all_available, Each, Gives, IsLawful}

pub buddies : PageAllocatorAlgorithm Areas
buddies = record {
  init = λ areas types nr. init areas nr;
  reserve_page = λ areas types pgd. reserve_page areas pgd;
  alloc_pages = λ areas types order. alloc_pages areas order;
  free_pages = λ areas types pgd order. free_pages areas pgd order;
}

-- The free lists are sound, and a page is in a free block exactly when it may be given out.
abbrev pub Manages : Areas → Types → (ℕ → Bool) → Type 0
Manages areas types free =
    IsSound areas × ((page : ℕ) → free_count areas page ≡ (if free page then 1 else 0))

allocated_taken : (type : PageType) → is_allocated type ≡ true → is_available type ≡ false
allocated_taken allocated h = refl
allocated_taken invalid h = cc
allocated_taken reserved h = cc
allocated_taken available h = cc

abbrev bit : Bool → ℕ
bit b = if b then 1 else 0

reserved_count :
    (free : ℕ → Bool) (pgd page before after : ℕ)
    → before ≡ bit (free page)
    → before ≡ bit (page == pgd) + after
    → free pgd ≡ true
    → after ≡ bit (not (page == pgd) && free page)
reserved_count free pgd page before after count taken h = elim (ℕ_discrete page pgd) [
  | yes e ↦ let held : free page ≡ true = rw e h in ground arith
  | no ne ↦ ground arith
]

is_free :
    (types : Types) (page : ℕ) {count : ℕ}
    → count ≡ bit (is_available (types page))
    → 0 < count
    → is_available (types page) ≡ true
is_free types page e pos = ground arith

given_count :
    (types : Types) (page pgd n after : ℕ)
    → bit (within pgd n page) + after ≡ bit (is_available (types page))
    → after ≡ bit (is_available (set_types allocated n types pgd page))
given_count types page pgd n after e =
    rw (set_types_at allocated n types pgd page) (elim (Bool-cases (within pgd n page)) [
      | inl inside ↦ rw inside (ground (arith, rw inside at e))
      | inr outside ↦ rw outside (omega (arith, rw outside at e))
    ])

freed_count :
    (types : Types) (page pgd n after : ℕ)
    → (pgd ≤ page → page < pgd + n → is_allocated (types page) ≡ true)
    → after ≡ bit (within pgd n page) + bit (is_available (types page))
    → after ≡ bit (is_available (set_types available n types pgd page))
freed_count types page pgd n after held e =
    rw (set_types_at available n types pgd page) (elim (Bool-cases (within pgd n page)) [
      | inl inside ↦
          rw inside (
            e ∙ rw (inside, allocated_taken (types page) (held (ground arith) (ground arith))) refl)
      | inr outside ↦ rw outside (omega (arith, rw outside at e))
    ])

Manages-init :
    (types : Types) (nr : ℕ)
    → nr < int_end
    → (after : Areas) × (init no_areas nr ≡ ok (after, true))
      × Manages after types (λ page. ltb page nr)
Manages-init types nr low =
    let (after, done, aligned, ascending, counts) = init_lem nr low in
    (
      after,
      done,
      (
        (record {
          aligned = aligned;
          ascending = ascending;
          single = λ page. ground (arith, counts page);
        }),
        counts,
      ),
    )

Manages-reserve_page :
    (areas : Areas) (types : Types) (free : ℕ → Bool) (pgd : ℕ)
    → Manages areas types free
    → free pgd ≡ true
    → (after : Areas) × (reserve_page areas pgd ≡ ok (after, true))
      × Manages after types (λ page. not (page == pgd) && free page)
Manages-reserve_page areas types free pgd (sound, counts) h =
    let (after, done, aligned, ascending, taken) =
      reserve_page_lem areas pgd sound.aligned sound.ascending (counts pgd ∙ rw h refl) in
    (
      after,
      done,
      (
        (record {
          aligned = aligned;
          ascending = ascending;
          single = λ page. ground (arith, taken page, sound.single page);
        }),
        λ page. reserved_count free pgd page _ (free_count after page) (counts page) (taken page) h,
      ),
    )

Manages-alloc_pages :
    (areas : Areas) (types : Types) (order : ℕ)
    → order < max_order
    → Manages areas types (all_available types)
    → (after : Areas) × (given : Option ℕ) × (alloc_pages areas order ≡ ok (after, given))
      × Gives Manages (λ areas. IsAligned) after types order given
Manages-alloc_pages areas types order valid (sound, counts) =
    let (after, given, done, result) = alloc_pages-Allocates areas order valid sound.aligned in
    (after, given, done, gives after given result)
  where
    gives :
        (after : Areas) (given : Option ℕ)
        → Allocates areas order after given
        → Gives Manages (λ areas. IsAligned) after types order given
    gives after none (same, empty) = rw same (sound, counts)
    gives after (some pgd) g = (
      g.here,
      (λ page low high. is_free types page (counts page) (ground (arith, g.counts page))),
      (
        (record {
          aligned = g.aligned;
          ascending = g.ascending sound.ascending;
          single = λ page. omega (arith, g.counts page, sound.single page);
        }),
        λ page.
            given_count types page pgd (2 ^ order) (free_count after page)
              (sym (g.counts page) ∙ counts page),
      ),
    )

Manages-free_pages :
    (areas : Areas) (types : Types) (pgd order : ℕ)
    → order < max_order
    → IsAligned order pgd
    → Each (λ page. is_allocated (types page) ≡ true) pgd (2 ^ order)
    → Manages areas types (all_available types)
    → (after : Areas) × (free_pages areas pgd order ≡ ok after)
      × Manages after
          (set_types available (2 ^ order) types pgd)
          (all_available (set_types available (2 ^ order) types pgd))
Manages-free_pages areas types pgd order valid here held (sound, counts) =
    let (after, done, c, counted) =
      free_pages-Coalesced areas pgd order valid sound.aligned here (λ page low high.
        counts page ∙ rw (allocated_taken (types page) (held page low high)) refl) in
    let now : (page : ℕ)
        → free_count after page
          ≡ bit (is_available (set_types available (2 ^ order) types pgd page)) =
      λ page.
        freed_count types page pgd (2 ^ order) (free_count after page) (held page)
          (counted page ∙ ap (λ t. covers order pgd page + t) (counts page)) in
    (
      after,
      done,
      (
        (record {
          aligned = c.same.aligned;
          ascending = c.same.ascending (insert_block-AreAscending areas pgd order sound.ascending);
          single = λ page. ground (arith, now page);
        }),
        now,
      ),
    )

pub buddies-IsLawful : IsLawful buddies
unfolding buddies
buddies-IsLawful = record {
  start = no_areas;
  Manages = Manages;
  IsBlock = λ areas. IsAligned;
  init_law = λ types nr low below. Manages-init types nr low;
  reserve_law = λ areas types free pgd m h taken. Manages-reserve_page areas types free pgd m h;
  alloc_law = Manages-alloc_pages;
  free_law = Manages-free_pages;
}
