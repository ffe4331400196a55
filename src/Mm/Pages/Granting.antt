-- ===== src/Mm/Pages/Granting.antt =====
-- CourseWorks/infos/mm/page-allocator.cpp: `alloc_pages` and `free_pages` on a lawful algorithm.
use inf3_os.Base.{
  ℕ, ◌^◌, ◌<◌, ◌≡◌, ◌⊎◌, inl, inr, true, if◌then◌else◌, none, some, Option-cases, Bool-cases, ok,
  panic, ok_inj, panic-ne-ok, arith, refl, sym, ap, ◌∙◌, subst, some_inj,
}
use inf3_os.Mm.Buddy.{max_order}
use inf3_os.Mm.Pages.{
  PageType, invalid, reserved, available, allocated, Types, PageAllocatorAlgorithm, PageAllocator,
  is_available, is_allocated, set_types, alloc_pages, free_pages,
}
use inf3_os.Mm.Pages.Marking.{within, set_types_at, change_types-set_types}
use inf3_os.Mm.Pages.Interface.{all_available, Each, Gives, IsLawful}

available_type : (type : PageType) → is_available type ≡ true → type ≡ available
available_type available h = refl
available_type invalid h = cc
available_type reserved h = cc
available_type allocated h = cc

-- Pages that were available and go back.
back :
    (types : Types) (page pgd n : ℕ) (now : PageType)
    → now ≡ (if within pgd n page then allocated else types page)
    → Each (λ p. is_available (types p) ≡ true) pgd n
    → (if within pgd n page then available else now) ≡ types page
back types page pgd n now e were = elim (Bool-cases (within pgd n page)) [
  | inl inside ↦
      rw inside (sym (available_type (types page) (were page (ground arith) (ground arith))))
  | inr outside ↦ rw outside (e ∙ rw outside refl)
]

module _ {State : Type 0} {alg : PageAllocatorAlgorithm State} (law : IsLawful alg) where
  -- The algorithm is there, and is in order for the pages that are marked as available.
  abbrev pub IsReady : PageAllocator State → Type 0
  IsReady pages =
      (state : State) × (pages.allocator_algorithm ≡ some state)
      × law.Manages state pages.page_descriptors (all_available pages.page_descriptors)

  -- A block may begin here, for the algorithm's state.
  abbrev pub IsBlockOf : PageAllocator State → ℕ → ℕ → Type 0
  IsBlockOf pages order pgd =
      (state : State) → pages.allocator_algorithm ≡ some state → law.IsBlock state order pgd

  -- The block and the state that a call of `alloc_pages` gave.
  pub record Allots (pages : PageAllocator State) (order : ℕ) (after : PageAllocator State)
      (pgd : ℕ) : Type 0 where
    pub is_block : IsBlockOf after order pgd
    pub were_available :
        Each (λ page. is_available (pages.page_descriptors page) ≡ true) pgd (2 ^ order)
    pub marked :
        (page : ℕ)
        → after.page_descriptors page
          ≡ (if within pgd (2 ^ order) page then allocated else pages.page_descriptors page)
    pub same_size : after.nr_pages ≡ pages.nr_pages
    pub ready : IsReady after

  -- `alloc_pages` on a lawful algorithm gives a block of pages that were available and are now
  -- allocated, with no other page changed, and the algorithm is again in order for the available
  -- pages; or else the algorithm answered NULL, and the call panics.
  pub alloc_pages-Allots :
      (pages : PageAllocator State) (order : ℕ)
      → order < max_order
      → IsReady pages
      → ((after : PageAllocator State) × (pgd : ℕ) × (alloc_pages alg pages order
            ≡ ok (after, some pgd))
          × Allots pages order after pgd)
        ⊎ (alloc_pages alg pages order ≡ panic)
          × ((state after : State) × (pages.allocator_algorithm ≡ some state)
              × (alg.alloc_pages state pages.page_descriptors order ≡ ok (after, none)))
  unfolding alloc_pages
  alloc_pages-Allots pages order valid (state, there, manages) =
      let (after, given, done, gives) =
        law.alloc_law state pages.page_descriptors order valid manages in
      elim (Option-cases given) [
        | inl e ↦ inr (rw (there, done, e) refl, (state, after, there, rw e at done))
        | inr (pgd, e) ↦
            let (block, passes, managed) =
              subst (Gives law.Manages law.IsBlock after pages.page_descriptors order) e gives in
            let marked =
              change_types-set_types is_available allocated (2 ^ order) pages.page_descriptors pgd
                passes in
            inl (
              record {
                nr_pages = pages.nr_pages;
                page_descriptors = set_types allocated (2 ^ order) pages.page_descriptors pgd;
                allocator_algorithm = some after;
              },
              pgd,
              rw (there, done, e, marked) refl,
              record {
                is_block = λ state' e'. subst (λ s. law.IsBlock s order pgd) (some_inj e') block;
                were_available = passes;
                marked = set_types_at allocated (2 ^ order) pages.page_descriptors pgd;
                same_size = refl;
                ready = (after, refl, managed);
              },
            )
      ]

  -- What a call of `alloc_pages` that gave a block did.
  pub alloc_pages-given :
      (pages after : PageAllocator State) (order pgd : ℕ)
      → order < max_order
      → IsReady pages
      → alloc_pages alg pages order ≡ ok (after, some pgd)
      → Allots pages order after pgd
  alloc_pages-given pages after order pgd valid ready given =
      elim (alloc_pages-Allots pages order valid ready) [
        | inr (stopped, _) ↦ panic-ne-ok (sym stopped ∙ given)
        | inl (after', pgd', done, allots) ↦
            let e : (after', some pgd') ≡ (after, some pgd) = ok_inj (sym done ∙ given) in
            let e0 : after' ≡ after = ap (λ t. t.0) e in
            let e1 : pgd' ≡ pgd = some_inj (ap (λ t. t.1) e) in
            subst (λ a. Allots pages order a pgd) e0
              (subst (λ p. Allots pages order after' p) e1 allots)
      ]

  -- `free_pages` on a block of allocated pages does not panic. The pages of the block are now
  -- available, no other page changes, and the algorithm is again in order for the available ones.
  pub free_pages_lem :
      (pages : PageAllocator State) (pgd order : ℕ)
      → order < max_order
      → IsBlockOf pages order pgd
      → Each (λ page. is_allocated (pages.page_descriptors page) ≡ true) pgd (2 ^ order)
      → IsReady pages
      → (after : PageAllocator State) × (free_pages alg pages pgd order ≡ ok after)
        × IsReady after
        × ((page : ℕ)
            → after.page_descriptors page
              ≡ (if within pgd (2 ^ order) page then available else pages.page_descriptors page))
  unfolding free_pages
  free_pages_lem pages pgd order valid block held (state, there, manages) =
      let (after, done, managed) =
        law.free_law state pages.page_descriptors pgd order valid (block state there) held
          manages in
      let marked =
        change_types-set_types is_allocated available (2 ^ order) pages.page_descriptors pgd held in
      (
        record {
          nr_pages = pages.nr_pages;
          page_descriptors = set_types available (2 ^ order) pages.page_descriptors pgd;
          allocator_algorithm = some after;
        },
        rw (there, done, marked) refl,
        (after, refl, managed),
        set_types_at available (2 ^ order) pages.page_descriptors pgd,
      )

  -- On a lawful algorithm that is in order for the available pages, a block of an order below
  -- MAX_ORDER that `alloc_pages` gave is taken back by `free_pages` without a panic. Then the
  -- type of every page is what it was before the two calls, and the algorithm is in order for the
  -- available pages again.
  pub alloc_pages-free_pages :
      (pages mid : PageAllocator State) (order pgd : ℕ)
      → order < max_order
      → IsReady pages
      → alloc_pages alg pages order ≡ ok (mid, some pgd)
      → (after : PageAllocator State) × (free_pages alg mid pgd order ≡ ok after)
        × IsReady after
        × ((page : ℕ) → after.page_descriptors page ≡ pages.page_descriptors page)
  alloc_pages-free_pages pages mid order pgd valid ready given =
      let allots = alloc_pages-given pages mid order pgd valid ready given in
      let (after, done, again, marked) =
        free_pages_lem mid pgd order valid allots.is_block
          (λ page low high. rw (allots.marked page) (ground arith)) allots.ready in
      (
        after,
        done,
        again,
        λ page.
            marked page
            ∙ back pages.page_descriptors page pgd (2 ^ order) (mid.page_descriptors page)
                (allots.marked page) allots.were_available,
      )
