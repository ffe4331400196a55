-- ===== src/Mm/Buddy/Pairs.antt =====
-- CourseWorks/coursework/buddy.cpp: `buddy_of`. Two blocks of one order are buddies when they are
-- the halves of one block of the next order.
use native.Mathlib.Decide.{ℕ_discrete}
use native.Mathlib.Numerals.{add-one}
use inf3_os.Base.{
  ℕ, suc, ◌+◌, ◌-◌, ◌*◌, ◌%◌, ◌^◌, ◌<◌, ◌≡◌, some, arith, refl, ◌≢◌, ap, sym, ◌∙◌, ◌⊎◌, inl, inr,
  pow2-suc, pow2-pos, aligned_half, aligned_right, aligned_left, aligned_double_left,
}
use inf3_os.Mm.Buddy.{max_order, buddy_of, is_correct_alignment_for_order}
use inf3_os.Mm.Buddy.Measure.{IsAligned}

module _ (left order : ℕ) (valid : order < max_order) (aligned : IsAligned (suc order) left) where
  double : left % (2 * 2 ^ order) ≡ 0
  double = ap (λ t. left % t) (sym (pow2-suc order)) ∙ aligned

  pub left-IsAligned : IsAligned order left
  left-IsAligned = aligned_half left (2 ^ order) double

  pub right-IsAligned : IsAligned order (left + 2 ^ order)
  right-IsAligned = aligned_right left (2 ^ order) left-IsAligned

  right_odd : (left + 2 ^ order) % 2 ^ suc order ≡ 2 ^ order
  right_odd =
      ap (λ t. (left + 2 ^ order) % t) (pow2-suc order)
      ∙ aligned_double_left left (2 ^ order) (pow2-pos order) double

  pub buddy_of-left : buddy_of left order ≡ some (left + 2 ^ order)
  unfolding buddy_of is_correct_alignment_for_order
  buddy_of-left = rw (left-IsAligned, add-one, aligned) (ground arith)

  pub buddy_of-right : buddy_of (left + 2 ^ order) order ≡ some left
  unfolding buddy_of is_correct_alignment_for_order
  buddy_of-right = rw (right-IsAligned, add-one, right_odd) (ground (arith, pow2-pos order))

-- An aligned block is one half of a block of the next order.
pub buddy_cases :
    (block order : ℕ)
    → IsAligned order block
    → (left : ℕ) × IsAligned (suc order) left × ((block ≡ left) ⊎ (block ≡ left + 2 ^ order))
buddy_cases block order aligned = elim (ℕ_discrete (block % 2 ^ suc order) 0) [
  | yes whole ↦ (block, whole, inl refl)
  | no half ↦
      let double : block % (2 * 2 ^ order) ≢ 0 =
        λ e. half (ap (λ t. block % t) (pow2-suc order) ∙ e) in
      let (big, start) = aligned_left block (2 ^ order) (pow2-pos order) aligned double in
      (
        block - 2 ^ order,
        ap (λ t. (block - 2 ^ order) % t) (pow2-suc order) ∙ start,
        inr (omega arith),
      )
]

-- `buddy_of` pairs the blocks of each order off: it is its own inverse, and no block is its own
-- buddy.
pub buddy_of-buddy_of :
    (block order : ℕ)
    → order < max_order
    → IsAligned order block
    → (bud : ℕ) × (buddy_of block order ≡ some bud)
      × (buddy_of bud order ≡ some block)
      × (bud ≢ block)
buddy_of-buddy_of block order valid aligned =
    let (left, whole, half) = buddy_cases block order aligned in
    let to_right = buddy_of-left left order valid whole in
    let to_left = buddy_of-right left order valid whole in
    elim half [
      | inl e ↦ (
        left + 2 ^ order,
        rw e to_right,
        rw e to_left,
        λ same. omega (arith, same, pow2-pos order),
      )
      | inr e ↦ (left, rw e to_left, rw e to_right, λ same. omega (arith, same, pow2-pos order))
    ]
