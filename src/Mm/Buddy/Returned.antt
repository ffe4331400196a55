-- ===== src/Mm/Buddy/Returned.antt =====
-- CourseWorks/coursework/buddy.cpp: the pointer that `split_block` returns.
use inf3_os.Base.{
  ◌∙◌, ◌+◌, ==_refl, ℕ, suc, ◌-◌, ◌≡◌, refl, List, ◌∷◌, get_elem?, ok, arith, lt→ltb,
}
use inf3_os.Mm.Buddy.{
  pages_per_block, Areas, put, split_block, remove_block, insert_block,
  is_correct_alignment_for_order,
}
use inf3_os.Mm.Buddy.Slots.{remove_link}
use inf3_os.Mm.Buddy.Measure.{IsAligned}
use inf3_os.Mm.Buddy.Blocks.{put_self, insert_block_others}

remove_block_first :
    (areas : Areas) (order block : ℕ) (rest : List ℕ)
    → areas order ≡ block ∷ rest
    → remove_block areas block order ≡ ok (put areas order rest)
unfolding remove_block remove_link
remove_block_first areas order block rest h = rw (h, ==_refl block) refl

-- `split_block` on the first free block of its order, as `alloc_pages` calls it, returns the next
-- free block of that order, or NULL if there is none: never the left half of the block it split.
pub split_block_returns_next :
    (areas : Areas) (k block : ℕ) (rest : List ℕ)
    → IsAligned (suc k) block
    → areas (suc k) ≡ block ∷ rest
    → (after : Areas) × (split_block areas 0 (suc k) ≡ ok (after, get_elem? rest 0))
unfolding split_block is_correct_alignment_for_order
split_block_returns_next areas k block rest here h =
    let removed = put areas (suc k) rest in
    let mid = (insert_block removed block k).0 in
    let done = (insert_block mid (block + pages_per_block k) k).0 in
    let e : suc k - 1 ≡ k = omega arith in
    let kept : done (suc k) ≡ rest =
      insert_block_others mid _ k (suc k) (λ same. omega arith)
      ∙ insert_block_others removed block k (suc k) (λ same. omega arith)
      ∙ put_self areas (suc k) rest in
    (
      done,
      rw
          (
            h,
            here,
            lt→ltb 0 (suc k) (omega arith),
            remove_block_first areas (suc k) block rest h,
            e,
            kept,
          )
          refl,
    )
