-- ===== src/Mm/Pages/Simple.antt =====
-- CourseWorks/infos/mm/simple-page-alloc.cpp: the simple page allocation algorithm, which looks
-- for available pages in the array of the page descriptors.
use inf3_os.Base.{
  ℕ, zero, suc, ◌+◌, ◌-◌, ◌^◌, Bool, true, false, not, Option, none, some, if◌then◌else◌, ltb,
  Outcome, ok, assert, ◌>>=◌, ◌>>◌,
}
pub mod Scanning
use native.Mathlib.Decide.{ℕ_discrete, dec_lt}
use inf3_os.Base.{◌≤◌, ◌<◌, ◌≡◌, ◌⊎◌, inl, inr, Bool-cases, Option-cases, some_inj, arith, refl}
use inf3_os.Mm.Pages.Interface.{Each}
use inf3_os.Mm.Pages.{Types, PageAllocatorAlgorithm, is_available, is_allocated}

-- The inner loop of `alloc_pages`, over `n` pages from `subidx` on: the first page that is not
-- available. Like the code, it reads past the last descriptor of the array.
unfoldable pub find_taken : ℕ → Types → ℕ → Option ℕ
find_taken zero types subidx = none
find_taken (suc n) types subidx =
    let rest = find_taken n types (subidx + 1) in
    if is_available (types subidx) then rest else some subidx

-- The outer loop, from `idx` on, which goes on after the page found.
unfoldable pub find_run : ℕ → ℕ → Types → ℕ → ℕ → Option ℕ
find_run zero nr_pgds types nr_pages idx = none
find_run (suc fuel) nr_pgds types nr_pages idx =
    let round : Option ℕ = elim (find_taken nr_pages types idx) [
      | none ↦ some idx
      | some taken ↦ find_run fuel nr_pgds types nr_pages (taken + 1)
    ] in
    if ltb idx nr_pgds then round else none

-- The loop of `free_pages`: `n` pages from `page` on are allocated.
pub check_allocated : ℕ → Types → ℕ → Outcome (Unit {0})
check_allocated zero types page = ok tt
check_allocated (suc n) types page = do
  assert (is_allocated (types page))
  check_allocated n types (page + 1)

-- The state is `_nr_pgds`.
unfoldable pub simple : PageAllocatorAlgorithm ℕ
simple = record {
  init = λ nr types nr_page_descriptors. ok (nr_page_descriptors, true);
  reserve_page = λ nr types pgd. assert (not (is_available (types pgd))) >> ok (nr, true);
  alloc_pages = λ nr types order. ok (nr, find_run nr nr types (2 ^ order) 0);
  free_pages = λ nr types pgd order. check_allocated (2 ^ order) types pgd >> ok nr;
}

find_taken-none :
    (n : ℕ) (types : Types) (subidx : ℕ)
    → find_taken n types subidx ≡ none
    → Each (λ page. is_available (types page) ≡ true) subidx n
unfolding find_taken
find_taken-none zero types subidx h page low high = absurd (omega arith)
find_taken-none (suc n) types subidx h page low high =
    elim (Bool-cases (is_available (types subidx))) [
      | inr taken ↦ let bad : some subidx ≡ none = rw taken at h in cc
      | inl free ↦ elim (ℕ_discrete page subidx) [
        | yes e ↦ rw e free
        | no ne ↦
            find_taken-none n types (subidx + 1) (rw free at h) page (omega arith) (omega arith)
      ]
    ]

find_taken-some :
    (n : ℕ) (types : Types) (subidx : ℕ) {taken : ℕ}
    → find_taken n types subidx ≡ some taken
    → (subidx ≤ taken) × (taken < subidx + n) × (is_available (types taken) ≡ false)
unfolding find_taken
find_taken-some zero types subidx h = cc
find_taken-some (suc n) types subidx {taken} h = elim (Bool-cases (is_available (types subidx))) [
  | inr e ↦
      let at : subidx ≡ taken = some_inj (rw e at h) in (omega arith, omega arith, rw (← at) e)
  | inl free ↦
      let (low, high, e) = find_taken-some n types (subidx + 1) (rw free at h) in
      (omega arith, omega arith, e)
]

-- A run of available pages begins here.
abbrev pub IsRun : Types → ℕ → ℕ → Type 0
IsRun types nr_pages idx = Each (λ page. is_available (types page) ≡ true) idx nr_pages

-- The answer of the search from `idx` on: the first page of the array at which a run begins.
abbrev pub IsFirstRun : ℕ → Types → ℕ → ℕ → Option ℕ → Type 0
IsFirstRun nr_pgds types nr_pages idx none =
    (page : ℕ) → idx ≤ page → page < nr_pgds → ¬ IsRun types nr_pages page
IsFirstRun nr_pgds types nr_pages idx (some pgd) =
    (idx ≤ pgd)
    × (pgd < nr_pgds)
    × IsRun types nr_pages pgd
    × ((page : ℕ) → idx ≤ page → page < pgd → ¬ IsRun types nr_pages page)

IsFirstRun-next :
    (nr_pgds : ℕ) (types : Types) (nr_pages idx taken : ℕ) (answer : Option ℕ)
    → idx ≤ taken
    → taken < idx + nr_pages
    → is_available (types taken) ≡ false
    → IsFirstRun nr_pgds types nr_pages (taken + 1) answer
    → IsFirstRun nr_pgds types nr_pages idx answer
IsFirstRun-next nr_pgds types nr_pages idx taken none low high e first = λ page from to run.
    elim (dec_lt taken page) [
      | yes behind ↦ first page (omega arith) to run
      | no before ↦ let bad = run taken (omega arith) (omega arith) in cc
    ]
IsFirstRun-next nr_pgds types nr_pages idx taken (some pgd) low high e (at, inside, run, first) = (
  omega arith,
  inside,
  run,
  λ page from to other. elim (dec_lt taken page) [
    | yes behind ↦ first page (omega arith) to other
    | no before ↦ let bad = other taken (omega arith) (omega arith) in cc
  ],
)

-- The search of `alloc_pages` from a page on, with as much fuel as there are pages left in the
-- array. It answers the first page of the array at which enough available pages follow one another,
-- and NULL only where there is none.
pub find_run-IsFirstRun :
    (fuel nr_pgds : ℕ) (types : Types) (nr_pages idx : ℕ)
    → nr_pgds ≤ idx + fuel
    → IsFirstRun nr_pgds types nr_pages idx (find_run fuel nr_pgds types nr_pages idx)
unfolding find_run
find_run-IsFirstRun zero nr_pgds types nr_pages idx enough =
    λ page from to run. absurd (omega arith)
find_run-IsFirstRun (suc fuel) nr_pgds types nr_pages idx enough =
    elim (Bool-cases (ltb idx nr_pgds)) [
      | inr past ↦ rw past (λ page from to run. absurd (ground arith))
      | inl inside ↦ elim (Option-cases (find_taken nr_pages types idx)) [
        | inl found ↦
            rw (inside, found)
              (
                omega arith,
                ground arith,
                find_taken-none nr_pages types idx found,
                λ page from to. absurd (omega arith),
              )
        | inr (taken, found) ↦
            let (low, high, e) = find_taken-some nr_pages types idx found in
            rw (inside, found)
              (IsFirstRun-next nr_pgds types nr_pages idx taken _ low high e
                (find_run-IsFirstRun fuel nr_pgds types nr_pages (taken + 1) (omega arith)))
      ]
    ]
