-- ===== src/Mm/Pages/Simple/Scanning.antt =====
-- CourseWorks/infos/mm/simple-page-alloc.cpp as a lawful algorithm: while no page behind the
-- array looks available, its blocks lie inside the array.
use native.Mathlib.Decide.{ℕ_discrete}
use inf3_os.Base.{
  ◌-◌, ℕ, zero, suc, ◌+◌, ◌^◌, ◌≤◌, ◌<◌, ◌≡◌, Bool, true, false, not, ◌&&◌, ◌==◌, Option, none,
  some, Bool-cases, inl, inr, ok, arith, refl, pow2-pos,
}
use inf3_os.Mm.Buddy.{max_order}
use inf3_os.Mm.Pages.{Types, available, allocated, is_available, is_allocated, set_types}
use inf3_os.Mm.Pages.Marking.{within, set_types_at}
use inf3_os.Mm.Pages.Interface.{all_available, Each, Gives, IsLawful}
use inf3_os.Mm.Pages.Simple.{simple, find_run, check_allocated, IsFirstRun, find_run-IsFirstRun}

check_allocated-passes :
    (n : ℕ) (types : Types) (page : ℕ)
    → Each (λ p. is_allocated (types p) ≡ true) page n
    → check_allocated n types page ≡ ok tt
unfolding check_allocated
check_allocated-passes zero types page held = refl
check_allocated-passes (suc n) types page held =
    rw (held page (omega arith) (omega arith))
      (check_allocated-passes n types (page + 1) (λ p low high. held p (omega arith) (omega arith)))

-- The available pages lie in the array, and are among those of `free`.
abbrev pub Manages : ℕ → Types → (ℕ → Bool) → Type 0
Manages nr types free =
    ((page : ℕ) → is_available (types page) ≡ true → page < nr)
    × ((page : ℕ) → is_available (types page) ≡ true → free page ≡ true)

-- The block lies in the array.
abbrev pub IsInside : ℕ → ℕ → ℕ → Type 0
IsInside nr order pgd = pgd + 2 ^ order ≤ nr

-- A block that is made allocated keeps the available pages in the array.
Manages-allocated :
    (nr n pgd : ℕ) (types : Types)
    → ((page : ℕ) → is_available (types page) ≡ true → page < nr)
    → Manages nr (set_types allocated n types pgd) (all_available (set_types allocated n types pgd))
Manages-allocated nr n pgd types low = (
  λ page h. elim (Bool-cases (within pgd n page)) [
    | inl inside ↦ let bad = rw (set_types_at allocated n types pgd page, inside) at h in cc
    | inr outside ↦ low page (rw (set_types_at allocated n types pgd page, outside) at h)
  ],
  λ page h. h,
)

Manages-available :
    (nr n pgd : ℕ) (types : Types)
    → pgd + n ≤ nr
    → ((page : ℕ) → is_available (types page) ≡ true → page < nr)
    → Manages nr (set_types available n types pgd) (all_available (set_types available n types pgd))
Manages-available nr n pgd types fits low = (
  λ page h. elim (Bool-cases (within pgd n page)) [
    | inl inside ↦ ground arith
    | inr outside ↦ low page (rw (set_types_at available n types pgd page, outside) at h)
  ],
  λ page h. h,
)

alloc_law :
    (nr : ℕ) (types : Types) (order : ℕ)
    → order < max_order
    → Manages nr types (all_available types)
    → (after : ℕ) × (given : Option ℕ) × (simple.alloc_pages nr types order ≡ ok (after, given))
      × Gives Manages IsInside after types order given
unfolding simple
alloc_law nr types order valid (low, free) = (
  nr,
  find_run nr nr types (2 ^ order) 0,
  refl,
  gives _ (find_run-IsFirstRun nr nr types (2 ^ order) 0 (omega arith)),
)
  where
    gives :
        (given : Option ℕ)
        → IsFirstRun nr types (2 ^ order) 0 given
        → Gives Manages IsInside nr types order given
    gives none first = (low, free)
    gives (some pgd) (at, inside, run, first) =
        let last = low (pgd + 2 ^ order - 1) (
          run (pgd + 2 ^ order - 1) (omega (arith, pow2-pos order))
            (omega (arith, pow2-pos order))) in
        (omega (arith, last), run, Manages-allocated nr (2 ^ order) pgd types low)

reserved_other :
    (nr : ℕ) (types : Types) (free : ℕ → Bool) (pgd page : ℕ)
    → is_available (types pgd) ≡ false
    → is_available (types page) ≡ true
    → free page ≡ true
    → (not (page == pgd) && free page) ≡ true
reserved_other nr types free pgd page taken e h = elim (ℕ_discrete page pgd) [
  | yes same ↦ let bad = rw same at e in cc
  | no ne ↦ ground arith
]

pub simple-IsLawful : IsLawful simple
unfolding simple
simple-IsLawful = record {
  start = 0;
  Manages = Manages;
  IsBlock = IsInside;
  init_law = λ types nr fits low. (nr, refl, (low, λ page h. ground (arith, low page h)));
  reserve_law = λ nr types free pgd m h taken. (
    nr,
    rw taken refl,
    (m.0, λ page e. reserved_other nr types free pgd page taken e (m.1 page e)),
  );
  alloc_law = alloc_law;
  free_law = λ nr types pgd order valid block held m. (
    nr,
    rw (check_allocated-passes (2 ^ order) types pgd held) refl,
    Manages-available nr (2 ^ order) pgd types block m.0,
  );
}

pub Manages-simple :
    (nr : ℕ) (types : Types) (free : ℕ → Bool)
    → Manages nr types free
    → simple-IsLawful.Manages nr types free
unfolding simple-IsLawful
Manages-simple nr types free m = m
