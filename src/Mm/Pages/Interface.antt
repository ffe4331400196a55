-- ===== src/Mm/Pages/Interface.antt =====
-- CourseWorks/infos/include/infos/mm/page-allocator.h: what `PageAllocator` relies on of a
-- `PageAllocatorAlgorithm`.
use inf3_os.Base.{
  ℕ, ◌+◌, ◌^◌, ◌≤◌, ◌<◌, ◌≡◌, Bool, true, false, ltb, ◌==◌, ◌&&◌, not, Option, none, some, ok,
}
use inf3_os.Mm.Buddy.{int_end, max_order}
use inf3_os.Mm.Pages.{
  Types, PageAllocatorAlgorithm, is_available, is_allocated, set_types, available, allocated,
}

abbrev pub all_available : Types → ℕ → Bool
all_available types page = is_available (types page)

-- The `n` pages from `start` on.
abbrev pub Each : (ℕ → Type 0) → ℕ → ℕ → Type 0
Each P start n = (page : ℕ) → start ≤ page → page < start + n → P page

-- The answer to a call of `alloc_pages`. NULL leaves the available pages to the algorithm; a block
-- is made of available pages, and all others are left to it.
abbrev pub Gives :
    {State : Type 0}
    → (State → Types → (ℕ → Bool) → Type 0)
    → (State → ℕ → ℕ → Type 0)
    → State
    → Types
    → ℕ
    → Option ℕ
    → Type 0
Gives Manages IsBlock after types order none = Manages after types (all_available types)
Gives Manages IsBlock after types order (some pgd) =
    IsBlock after order pgd
    × Each (λ page. is_available (types page) ≡ true) pgd (2 ^ order)
    × Manages after (set_types allocated (2 ^ order) types pgd)
        (all_available (set_types allocated (2 ^ order) types pgd))

-- What an algorithm keeps. `Manages state types free` says that `state` is in order, and that of
-- the pages it may give out none is outside `free`; `IsBlock state order pgd`, that a block of
-- this order may begin at `pgd`.
pub record IsLawful {State : Type 0} (alg : PageAllocatorAlgorithm State) : Type 1 where
  pub start : State
  pub Manages : State → Types → (ℕ → Bool) → Type 0
  pub IsBlock : State → ℕ → ℕ → Type 0
  pub init_law :
      (types : Types) (nr : ℕ)
      → nr < int_end
      → ((page : ℕ) → is_available (types page) ≡ true → page < nr)
      → (after : State) × (alg.init start types nr ≡ ok (after, true))
        × Manages after types (λ page. ltb page nr)
  pub reserve_law :
      (state : State) (types : Types) (free : ℕ → Bool) (pgd : ℕ)
      → Manages state types free
      → free pgd ≡ true
      → is_available (types pgd) ≡ false
      → (after : State) × (alg.reserve_page state types pgd ≡ ok (after, true))
        × Manages after types (λ page. not (page == pgd) && free page)
  pub alloc_law :
      (state : State) (types : Types) (order : ℕ)
      → order < max_order
      → Manages state types (all_available types)
      → (after : State) × (given : Option ℕ) × (alg.alloc_pages state types order
          ≡ ok (after, given))
        × Gives Manages IsBlock after types order given
  pub free_law :
      (state : State) (types : Types) (pgd order : ℕ)
      → order < max_order
      → IsBlock state order pgd
      → Each (λ page. is_allocated (types page) ≡ true) pgd (2 ^ order)
      → Manages state types (all_available types)
      → (after : State) × (alg.free_pages state types pgd order ≡ ok after)
        × Manages after
            (set_types available (2 ^ order) types pgd)
            (all_available (set_types available (2 ^ order) types pgd))
