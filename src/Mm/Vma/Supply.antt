-- ===== src/Mm/Vma/Supply.antt =====
-- CourseWorks/infos/mm/page-allocator.cpp as the page allocator of the virtual memory areas.
use inf3_os.Base.{
  ap, ℕ, ◌^◌, ◌<◌, ◌≡◌, Bool, true, false, not, ◌&&◌, if◌then◌else◌, none, some, Outcome-cases, inl,
  inr, refl, ◌∙◌,
}
use inf3_os.Mm.Buddy.{max_order}
use inf3_os.Mm.Pages.{
  PageType, PageAllocator, PageAllocatorAlgorithm, is_available, allocated, alloc_pages,
}
use inf3_os.Mm.Pages.Marking.{within}
use inf3_os.Mm.Pages.Interface.{IsLawful}
use inf3_os.Mm.Pages.Granting.{IsReady, alloc_pages-given}
use inf3_os.Mm.Vma.Source.{Supplies, PageSource, and_false}

still_available :
    (inside : Bool) (type : PageType)
    → is_available (if inside then allocated else type) ≡ (not inside && is_available type)
still_available true type = refl
still_available false type = refl

module _ {State : Type 0} {alg : PageAllocatorAlgorithm State} (law : IsLawful alg) where
  -- A page is free while it is available. Page 0 is not, as `init` leaves it.
  abbrev pub is_free : PageAllocator State → ℕ → Bool
  is_free pages page = is_available (pages.page_descriptors page)

  abbrev pub IsValid : PageAllocator State → Type 0
  IsValid pages = IsReady law pages × (is_free pages 0 ≡ false)

  supplies :
      (pages : PageAllocator State) (order : ℕ)
      → order < max_order
      → IsValid pages
      → Supplies is_free IsValid pages order (alloc_pages alg pages order)
  supplies pages order low (ready, zero_used) = elim (Outcome-cases (alloc_pages alg pages order)) [
    | inl e ↦ rw e tt
    | inr ((after, none), e) ↦ rw e tt
    | inr ((after, some pgd), e) ↦
        let a = alloc_pages-given law pages after order pgd low ready e in
        let now : (page : ℕ)
            → is_free after page ≡ (not (within pgd (2 ^ order) page) && is_free pages page) =
          λ page.
            ap (λ t. is_available t) (a.marked page)
            ∙ still_available (within pgd (2 ^ order) page) (pages.page_descriptors page) in
        rw e ((a.ready, now 0 ∙ rw zero_used (and_false _)), a.were_available, now)
  ]

  pub PageSource-allocator : PageSource (alloc_pages alg)
  PageSource-allocator = record {
    is_free = is_free;
    IsValid = IsValid;
    zero_taken = λ pages valid. valid.1;
    supplies = supplies;
  }
