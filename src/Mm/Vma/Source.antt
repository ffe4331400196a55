-- ===== src/Mm/Vma/Source.antt =====
-- CourseWorks/infos/mm/vma.cpp: what a virtual memory area relies on of the page allocator, and when
-- it is in order.
use inf3_os.Base.{
  ℕ, ◌/◌, ◌^◌, ◌+◌, ◌<◌, ◌≤◌, arith, ◌≡◌, ◌⊎◌, Bool, true, false, not, ◌&&◌, Option, none, some,
  Outcome, ok, panic, refl,
}
use inf3_os.Mm.Memory.{page_size}
use inf3_os.Mm.Buddy.{max_order}
use inf3_os.Mm.Pages.Marking.{within}
use inf3_os.Mm.Pages.Interface.{Each}
use inf3_os.Mm.Vma.{Vma}
use inf3_os.Mm.Vma.Walking.{Tree, IsTree, low_end}

-- The answer of the page allocator on a call. It may stop, or answer NULL, or give free pages
-- that are not free after the call; no other page becomes free.
abbrev pub Supplies :
    {State : Type 0}
    → (State → ℕ → Bool)
    → (State → Type 0)
    → State
    → ℕ
    → Outcome (State × Option ℕ)
    → Type 0
Supplies is_free IsValid state order panic = Unit
Supplies is_free IsValid state order (ok (after, none)) = Unit
Supplies is_free IsValid state order (ok (after, some pgd)) =
    IsValid after
    × Each (λ page. is_free state page ≡ true) pgd (2 ^ order)
    × ((page : ℕ) → is_free after page ≡ (not (within pgd (2 ^ order) page) && is_free state page))

-- A page allocator that a virtual memory area may use. It never gives out page 0, whose address
-- is that of an empty entry.
pub record PageSource {State : Type 0} (alloc_pages : State → ℕ → Outcome (State × Option ℕ))
    : Type 1 where
  pub is_free : State → ℕ → Bool
  pub IsValid : State → Type 0
  pub zero_taken : (state : State) → IsValid state → is_free state 0 ≡ false
  pub supplies :
      (state : State) (order : ℕ)
      → order < max_order
      → IsValid state
      → Supplies is_free IsValid state order (alloc_pages state order)

pub and_false : (b : Bool) → (b && false) ≡ false
and_false true = refl
and_false false = refl

module _ {State : Type 0} (alloc_pages : State → ℕ → Outcome (State × Option ℕ)) where
  -- At most `n` calls for one page, one after another, that each give one.
  pub data Runs : ℕ → State → State → Type 0 where
    no_calls : (n : ℕ) (state : State) → Runs n state state
    gives_page :
        (n k : ℕ) (start mid after : State) (page : ℕ)
        → alloc_pages start 0 ≡ ok (mid, some page)
        → k < n
        → Runs k mid after
        → Runs n start after

  Runs-more : (n m : ℕ) (start after : State) → n ≤ m → Runs n start after → Runs m start after
  Runs-more _ m _ _ le (no_calls n state) = no_calls m state
  Runs-more _ m _ _ le (gives_page n k start mid after page gives low rest) =
      gives_page m k start mid after page gives (omega arith) rest

  pub Runs-append :
      (n m all : ℕ) (start mid after : State)
      → n + m ≤ all
      → Runs n start mid
      → Runs m mid after
      → Runs all start after
  Runs-append _ m all _ _ after le (no_calls n state) more =
      Runs-more m all state after (omega arith) more
  Runs-append _ m all _ _ after le (gives_page n k start next mid page gives low rest) more =
      gives_page all (k + m) start next after page gives (omega arith)
        (Runs-append k m (k + m) next mid after (omega arith) rest more)

module _ {State : Type 0} {alloc_pages : State → ℕ → Outcome (State × Option ℕ)}
    (source : PageSource alloc_pages) where
  -- The area is in order: its tables are a tree on pages that are not free.
  abbrev pub IsOrdered : Vma State → Tree → Type 0
  IsOrdered vma tree =
      source.IsValid vma.pgalloc
      × IsTree (source.is_free vma.pgalloc) vma.tables (vma.pgt_phys_base / page_size) tree

  -- Of the first `calls` calls for a page from a state on, one stopped, or answered NULL, or gave a
  -- page that `pa_to_vpa` does not reach, after those before it each gave a page.
  abbrev pub Refuses : ℕ → State → Type 0
  Refuses calls start =
      (n : ℕ) × (state : State) × (n < calls)
      × Runs alloc_pages n start state
      × ((alloc_pages state 0 ≡ panic)
          ⊎ ((after : State) × (alloc_pages state 0 ≡ ok (after, none)))
          ⊎ ((after : State) × (page : ℕ) × (alloc_pages state 0 ≡ ok (after, some page))
              × (low_end ≤ page)))

  pub Refuses-later :
      (k calls all : ℕ) (start mid : State)
      → k + calls ≤ all
      → Runs alloc_pages k start mid
      → Refuses calls mid
      → Refuses all start
  Refuses-later k calls all start mid le runs (n, state, low, more, why) = (
    k + n,
    state,
    omega arith,
    Runs-append alloc_pages k n (k + n) start mid state (omega arith) runs more,
    why,
  )
