-- ===== src/Mm/Buddy/Blocks.antt =====
-- CourseWorks/coursework/buddy.cpp: what inserting, removing, splitting and merging blocks does to
-- the pages that are free.
use inf3_os.Base.{
  ℕ, suc, ◌+◌, ◌-◌, ◌%◌, ◌^◌, ◌<◌, ◌≡◌, Option, some, List, [], ◌∷◌, ltb, get_elem?, ok, arith,
  refl, ◌≢◌, ap, sym, ◌∙◌, Bool-cases, inl, inr, Option-cases, pow2-suc, aligned_half,
  aligned_right, ==_refl, lt→ltb, ok_inj, panic-ne-ok,
}
use inf3_os.Mm.Buddy.{
  max_order, Areas, put, pages_per_block, insert_block, remove_block, split_block,
  is_correct_alignment_for_order,
}
use inf3_os.Mm.Buddy.Ascending.{AreAscending, insert_block-AreAscending, remove_block-AreAscending}
use inf3_os.Mm.Buddy.Slots.{insert_link, remove_link}
use inf3_os.Mm.Buddy.Measure.{
  hits, covers, free_count, IsAligned, AreAligned, hits-insert_link, All-insert_link,
  remove_link-Removed, remove_link_at, All_at, free_count-put, put-AreAligned, covers_halves,
}

module _ (areas : Areas) (pgd order : ℕ) (valid : order < max_order) where
  pub free_count-insert_block :
      (page : ℕ)
      → free_count (insert_block areas pgd order).0 page
        ≡ covers order pgd page + free_count areas page
  unfolding insert_block
  free_count-insert_block page = omega (
    arith,
    free_count-put order page areas (insert_link pgd (areas order)).0 valid,
    hits-insert_link order pgd page (areas order),
  )

pub insert_block-AreAligned :
    (areas : Areas) (pgd order : ℕ)
    → AreAligned areas
    → IsAligned order pgd
    → AreAligned (insert_block areas pgd order).0
unfolding insert_block
insert_block-AreAligned areas pgd order a h =
    put-AreAligned areas order _ a (All-insert_link (IsAligned order) pgd (areas order) h (a order))

insert_link_head :
    (pgd : ℕ) (list : List ℕ) → (first : ℕ) × (get_elem? (insert_link pgd list).0 0 ≡ some first)
unfolding insert_link
insert_link_head pgd [] = (pgd, refl)
insert_link_head pgd (x ∷ xs) = elim (Bool-cases (ltb x pgd)) [
  | inl e ↦ (x, rw e)
  | inr e ↦ (pgd, rw e)
]

pub put_self : (areas : Areas) (k : ℕ) (list : List ℕ) → put areas k list k ≡ list
put_self areas k list = rw (==_refl k)

pub insert_block_head :
    (areas : Areas) (pgd order : ℕ)
    → (first : ℕ) × (get_elem? ((insert_block areas pgd order).0 order) 0 ≡ some first)
unfolding insert_block
insert_block_head areas pgd order =
    let (first, e) = insert_link_head pgd (areas order) in
    (first, rw (put_self areas order (insert_link pgd (areas order)).0) e)

-- The state after a block left the free list of its order.
pub record Gone (areas : Areas) (pgd order : ℕ) (left : Areas) : Type 0 where
  pub counts : (page : ℕ) → free_count areas page ≡ covers order pgd page + free_count left page
  pub aligned : AreAligned areas → AreAligned left
  pub ascending : AreAscending areas → AreAscending left
  pub own :
      (page : ℕ)
      → hits order (areas order) page ≡ covers order pgd page + hits order (left order) page
  pub others : (k : ℕ) → k ≢ order → left k ≡ areas k

pub remove_block-Gone :
    (areas left : Areas) (pgd order : ℕ)
    → order < max_order
    → remove_block areas pgd order ≡ ok left
    → Gone areas pgd order left
unfolding remove_block
remove_block-Gone areas left pgd order valid h =
    elim (Option-cases (remove_link pgd (areas order))) [
      | inl absent ↦ panic-ne-ok {a = left} (rw absent at h)
      | inr (rest, found) ↦
          let e : put areas order rest ≡ left = ok_inj (rw found at h) in
          let removed = remove_link-Removed order pgd (areas order) found in
          rw (← e) (record {
            counts = λ page.
                omega (arith, free_count-put order page areas rest valid, removed.hits_eq page);
            aligned = λ a. put-AreAligned areas order rest a (removed.keeps (a order));
            ascending = remove_block-AreAscending areas _ pgd order (h ∙ ap ok (sym e));
            own = λ page. rw (put_self areas order rest) (removed.hits_eq page);
            others = λ k ne. ground arith;
          })
    ]

-- A block that a slot of the list points to is removed without a panic.
pub remove_block_at :
    (areas : Areas) (pgd order slot : ℕ)
    → get_elem? (areas order) slot ≡ some pgd
    → (left : Areas) × (remove_block areas pgd order ≡ ok left)
unfolding remove_block
remove_block_at areas pgd order slot h =
    let (rest, found) = remove_link_at (areas order) slot h in (put areas order rest, rw found)

-- The state after the free blocks were rearranged, no page gained or lost.
pub record Same (before after : Areas) : Type 0 where
  pub counts : (page : ℕ) → free_count after page ≡ free_count before page
  pub aligned : AreAligned after
  pub ascending : AreAscending before → AreAscending after

-- `split_block` on a block of order `suc k`, at a slot of its list.
pub record Splits (areas : Areas) (slot k block : ℕ) : Type 0 where
  pub after : Areas
  pub returned : Option ℕ
  pub returns : split_block areas slot (suc k) ≡ ok (after, returned)
  pub same : Same areas after
  pub first : ℕ
  pub first_at : get_elem? (after k) 0 ≡ some first
  pub own :
      (page : ℕ)
      → hits (suc k) (areas (suc k)) page
        ≡ covers (suc k) block page + hits (suc k) (after (suc k)) page
  pub others : (j : ℕ) → j ≢ k → j ≢ suc k → after j ≡ areas j

pub insert_block_others :
    (areas : Areas) (pgd order k : ℕ) → k ≢ order → (insert_block areas pgd order).0 k ≡ areas k
unfolding insert_block
insert_block_others areas pgd order k ne = ground arith

-- A block that a slot points to splits, and the order below has a block after it.
pub split_block_at :
    (areas : Areas) (slot k block : ℕ)
    → suc k < max_order
    → AreAligned areas
    → get_elem? (areas (suc k)) slot ≡ some block
    → Splits areas slot k block
unfolding split_block is_correct_alignment_for_order
split_block_at areas slot k block valid a h = record {
  after = done;
  returned = get_elem? (done (suc k)) slot;
  returns = rw (h, here, lt→ltb 0 (suc k) (omega arith), gone.1, e) refl;
  same = record {
    counts = λ page. omega (
      arith,
      free_count-insert_block removed block k (omega arith) page,
      free_count-insert_block mid right k (omega arith) page,
      step.counts page,
      covers_halves k block page,
    );
    aligned =
        insert_block-AreAligned mid right k
          (insert_block-AreAligned removed block k (step.aligned a) half)
          (aligned_right block (2 ^ k) half);
    ascending = λ up.
        insert_block-AreAscending mid right k
          (insert_block-AreAscending removed block k (step.ascending up));
  };
  first = head.0;
  first_at = head.1;
  own = λ page. rw kept (step.own page);
  others = λ j ne ne'.
      insert_block_others mid right k j ne
      ∙ insert_block_others removed block k j ne
      ∙ step.others j ne';
}
  where
    here : IsAligned (suc k) block
    here = All_at _ (areas (suc k)) slot h (a (suc k))

    half : IsAligned k block
    half = aligned_half block (2 ^ k) (ap (λ t. block % t) (sym (pow2-suc k)) ∙ here)

    gone : (left : Areas) × (remove_block areas block (suc k) ≡ ok left)
    gone = remove_block_at areas block (suc k) slot h

    removed : Areas
    removed = gone.0

    step : Gone areas block (suc k) removed
    step = remove_block-Gone areas removed block (suc k) valid gone.1

    right : ℕ
    right = block + pages_per_block k

    mid : Areas
    mid = (insert_block removed block k).0

    done : Areas
    done = (insert_block mid right k).0

    head : (first : ℕ) × (get_elem? (done k) 0 ≡ some first)
    head = insert_block_head mid right k

    kept : done (suc k) ≡ removed (suc k)
    kept =
        insert_block_others mid right k (suc k) (λ same. omega arith)
        ∙ insert_block_others removed block k (suc k) (λ same. omega arith)

    e : suc k - 1 ≡ k
    e = omega arith
