-- ===== src/Mm/Buddy/Merging.antt =====
-- CourseWorks/coursework/buddy.cpp: `merge_block` and the merging loop of `free_pages`.
use native.Mathlib.Numerals.{add-one}
use inf3_os.Base.{
  ap, sym, ◌∙◌, inl, inr, pow2-suc, pow2-pos, ◌^◌, ◌≤◌, ℕ, zero, suc, ◌+◌, ◌<◌, ◌≡◌, none, some,
  List, [], ◌∷◌, ltb, ◌==◌, if◌then◌else◌, get_elem?, ok, arith, refl, ◌≢◌, sym, ◌∙◌, Bool-cases,
  inl, inr, Option-cases, some_inj, ok_inj, panic-ne-ok, ==_iff,
}
use inf3_os.Mm.Buddy.Pairs.{buddy_cases, buddy_of-left, buddy_of-right}
use inf3_os.Mm.Buddy.{
  max_order, Areas, put, pages_per_block, insert_block, remove_block, merge_block, buddy_of,
  is_correct_alignment_for_order,
}
use inf3_os.Mm.Buddy.Ascending.{insert_block-AreAscending}
use inf3_os.Mm.Buddy.Slots.{insert_link, remove_link, index_of}
use inf3_os.Mm.Buddy.Measure.{
  covers, All_at, IsAligned, AreAligned, remove_link-cons, covers_halves,
}
use inf3_os.Mm.Buddy.Blocks.{
  free_count-insert_block, insert_block-AreAligned, put_self, remove_block-Gone, remove_block_at,
  Same,
}

-- Some slot of the list points to the block.
abbrev pub Holds : List ℕ → ℕ → Type 0
Holds list pgd = (slot : ℕ) × (get_elem? list slot ≡ some pgd)

pub index_of_at :
    (list : List ℕ) (pgd : ℕ) {slot : ℕ}
    → index_of (some pgd) list ≡ some slot
    → get_elem? list slot ≡ some pgd
unfolding index_of
index_of_at [] pgd h = cc
index_of_at (x ∷ xs) pgd {slot} h = elim (Bool-cases (pgd == x)) [
  | inl hit ↦ let e : 0 ≡ slot = some_inj (rw hit at h) in rw (← e, (==_iff pgd x).0 hit) refl
  | inr miss ↦ elim (Option-cases (index_of (some pgd) xs)) [
    | inl absent ↦ let bad : none ≡ some slot = rw (miss, absent) at h in cc
    | inr (i, found) ↦
        let e : suc i ≡ slot = some_inj (rw (miss, found) at h) in
        rw (← e) (index_of_at xs pgd found)
  ]
]

pub remove_link-Holds :
    (list : List ℕ) (gone pgd : ℕ) {rest : List ℕ}
    → remove_link gone list ≡ some rest
    → pgd ≢ gone
    → Holds list pgd
    → Holds rest pgd
unfolding remove_link
remove_link-Holds [] gone pgd h ne (slot, at) = cc
remove_link-Holds (x ∷ xs) gone pgd h ne (zero, at) = elim (remove_link-cons gone x xs h) [
  | inl (same, _) ↦ absurd (ne (some_inj (sym at) ∙ sym same))
  | inr (ys, _, _, e) ↦ rw (← e) (0, at)
]
remove_link-Holds (x ∷ xs) gone pgd h ne (suc slot, at) = elim (remove_link-cons gone x xs h) [
  | inl (_, e) ↦ rw (← e) (slot, at)
  | inr (ys, _, found, e) ↦
      let (i, there) = remove_link-Holds xs gone pgd found ne (slot, at) in rw (← e) (suc i, there)
]

remove_block-Holds :
    (areas left : Areas) (gone pgd order : ℕ)
    → remove_block areas gone order ≡ ok left
    → pgd ≢ gone
    → Holds (areas order) pgd
    → Holds (left order) pgd
unfolding remove_block
remove_block-Holds areas left gone pgd order h ne holds =
    elim (Option-cases (remove_link gone (areas order))) [
      | inl absent ↦ panic-ne-ok {a = left} (rw absent at h)
      | inr (rest, found) ↦
          let e : put areas order rest ≡ left = ok_inj (rw found at h) in
          rw (← e, put_self areas order rest)
            (remove_link-Holds (areas order) gone pgd found ne holds)
    ]

pub insert_link_slot :
    (pgd : ℕ) (list : List ℕ)
    → get_elem? (insert_link pgd list).0 (insert_link pgd list).1 ≡ some pgd
unfolding insert_link
insert_link_slot pgd [] = refl
insert_link_slot pgd (x ∷ xs) = elim (Bool-cases (ltb x pgd)) [
  | inl e ↦ rw e (insert_link_slot pgd xs)
  | inr e ↦ rw e refl
]

pub insert_block_slot :
    (areas : Areas) (pgd order : ℕ)
    → get_elem? ((insert_block areas pgd order).0 order) (insert_block areas pgd order).1 ≡ some pgd
unfolding insert_block
insert_block_slot areas pgd order =
    rw (put_self areas order (insert_link pgd (areas order)).0) (insert_link_slot pgd (areas order))

-- `merge_block` on two buddies, the first at the slot: no panic, no page gained or lost, and the
-- slot it returns holds the left half.
pub record Merges (areas : Areas) (slot order left : ℕ) : Type 0 where
  pub after : Areas
  pub at : ℕ
  pub returns : merge_block areas slot order ≡ ok (after, at)
  pub same : Same areas after
  pub points : get_elem? (after (suc order)) at ≡ some left

-- The two removals and the insertion, whichever half comes first.
merge_halves :
    (areas : Areas) (slot order left first second : ℕ)
    → suc order < max_order
    → AreAligned areas
    → IsAligned order first
    → IsAligned (suc order) left
    → get_elem? (areas order) slot ≡ some first
    → Holds (areas order) second
    → buddy_of first order ≡ some second
    → second ≢ first
    → (if ltb first second then first else second) ≡ left
    → ((page : ℕ)
        → covers order first page + covers order second page
          ≡ covers order left page + covers order (left + pages_per_block order) page)
    → Merges areas slot order left
unfolding merge_block is_correct_alignment_for_order
merge_halves areas slot order left first second valid a here whole at holds bud ne low pages =
    let (one, gone) = remove_block_at areas first order slot at in
    let still = remove_block-Holds areas one first second order gone ne holds in
    let (both, gone') = remove_block_at one second order still.0 still.1 in
    let step = remove_block-Gone areas one first order (omega arith) gone in
    let step' = remove_block-Gone one both second order (omega arith) gone' in
    record {
      after = (insert_block both left (suc order)).0;
      at = (insert_block both left (suc order)).1;
      returns = rw (at, here, gone, bud, gone', low, add-one) refl;
      same = record {
        counts = λ page. omega (
          arith,
          free_count-insert_block both left (suc order) valid page,
          step.counts page,
          step'.counts page,
          covers_halves order left page,
          pages page,
        );
        ascending = λ up.
            insert_block-AreAscending both left (suc order) (step'.ascending (step.ascending up));
        aligned =
            insert_block-AreAligned both left (suc order) (step'.aligned (step.aligned a)) whole;
      };
      points = insert_block_slot both left (suc order);
    }

-- The merged block, which holds both halves.
pub record Merged (areas : Areas) (slot order block bud : ℕ) : Type 0 where
  pub left : ℕ
  pub whole : IsAligned (suc order) left
  pub starts : (left ≤ block) × (left ≤ bud)
  pub ends :
      (block + pages_per_block order ≤ left + pages_per_block (suc order))
      × (bud + pages_per_block order ≤ left + pages_per_block (suc order))
  pub merges : Merges areas slot order left

-- `merge_block` at a slot whose block has its buddy in the same free list.
pub merge_block_at :
    (areas : Areas) (slot order block bud : ℕ)
    → suc order < max_order
    → AreAligned areas
    → get_elem? (areas order) slot ≡ some block
    → Holds (areas order) bud
    → buddy_of block order ≡ some bud
    → Merged areas slot order block bud
merge_block_at areas slot order block bud valid a at holds pair =
    let here : IsAligned order block = All_at _ (areas order) slot at (a order) in
    let (left, whole, half) = buddy_cases block order here in
    let low : order < max_order = omega arith in
    let to_right = buddy_of-left left order low whole in
    let to_left = buddy_of-right left order low whole in
    elim half [
      | inl e ↦
          let e' : bud ≡ left + 2 ^ order =
            some_inj (sym pair ∙ ap (λ b. buddy_of b order) e ∙ to_right) in
          record {
            left = left;
            whole = whole;
            starts = omega arith;
            ends = omega (arith, pow2-suc order);
            merges =
                merge_halves areas slot order left block bud valid a here whole at holds pair
                  (λ same. omega (arith, pow2-pos order)) (ground (arith, pow2-pos order))
                  (λ page. rw (e, e') refl);
          }
      | inr e ↦
          let e' : bud ≡ left = some_inj (sym pair ∙ ap (λ b. buddy_of b order) e ∙ to_left) in
          record {
            left = left;
            whole = whole;
            starts = omega arith;
            ends = omega (arith, pow2-suc order);
            merges =
                merge_halves areas slot order left block bud valid a here whole at holds pair
                  (λ same. omega (arith, pow2-pos order)) (ground (arith, pow2-pos order))
                  (λ page. rw (e, e') (omega arith));
          }
    ]
