-- ===== src/TarFs/Blocks.antt =====
-- CourseWorks/coursework/tarfs.cpp: the blocks that `pread` reads hold the bytes that it wants.
use native.Mathlib.Nat.{lt-mul-div-succ, div-add-mod, mul-add-div, mul-add-mod_self_left}
use inf3_os.Base.{
  ℕ, zero, suc, ◌+◌, ◌*◌, ◌/◌, ◌%◌, ◌<◌, ◌≤◌, ◌≡◌, refl, sym, ap, ◌∙◌, arith, ◌==◌, Bool-cases, inl,
  inr, List, [], ◌∷◌,
}
use inf3_os.TarFs.{BlockDevice, blocks_needed, buffer_bytes}

-- The blocks cover what is wanted.
pub blocks_needed-covers :
    (block_size wanted : ℕ) → 0 < block_size → wanted ≤ block_size * blocks_needed block_size wanted
unfolding blocks_needed
blocks_needed-covers block_size wanted pos = elim (Bool-cases (wanted % block_size == 0)) [
  | inl exact ↦ rw exact (ground (arith, div-add-mod wanted block_size))
  | inr more ↦ rw more (omega (arith, lt-mul-div-succ wanted pos))
]

-- They are fewer bytes than a block too many.
pub blocks_needed-tight :
    (block_size wanted : ℕ)
    → 0 < block_size
    → block_size * blocks_needed block_size wanted < wanted + block_size
unfolding blocks_needed
blocks_needed-tight block_size wanted pos = elim (Bool-cases (wanted % block_size == 0)) [
  | inl exact ↦ rw exact (ground (arith, div-add-mod wanted block_size))
  | inr more ↦ rw more (grind (arith, div-add-mod wanted block_size))
]

-- The bytes of a file whose first block is `start`.
abbrev pub file_byte : BlockDevice → ℕ → ℕ → ℕ
file_byte device start index =
    device.byte_at (start + index / device.block_size) (index % device.block_size)

-- A row of them.
unfoldable pub file_bytes : BlockDevice → ℕ → ℕ → ℕ → List ℕ
file_bytes device start off zero = []
file_bytes device start off (suc count) =
    file_byte device start off ∷ file_bytes device start (off + 1) count

-- An index counted from the first block, and from the block that holds the offset.
same_index :
    (off index block_size : ℕ)
    → off + index ≡ block_size * (off / block_size) + (off % block_size + index)
same_index off index block_size = omega (arith, div-add-mod off block_size)

same_block :
    (off index block_size : ℕ)
    → 0 < block_size
    → (off + index) / block_size ≡ off / block_size + (off % block_size + index) / block_size
same_block off index block_size pos =
    ap (λ n. n / block_size) (same_index off index block_size)
    ∙ mul-add-div pos (off / block_size) (off % block_size + index)

same_place :
    (off index block_size : ℕ)
    → (off + index) % block_size ≡ (off % block_size + index) % block_size
same_place off index block_size =
    ap (λ n. n % block_size) (same_index off index block_size)
    ∙ mul-add-mod_self_left block_size (off / block_size) (off % block_size + index)

-- The block buffer from the offset in the first block on is the file from the offset on.
pub buffer_bytes-file_bytes :
    (device : BlockDevice) (start off index count : ℕ)
    → 0 < device.block_size
    → buffer_bytes device (start + off / device.block_size) (off % device.block_size + index) count
      ≡ file_bytes device start (off + index) count
unfolding buffer_bytes file_bytes
buffer_bytes-file_bytes device start off index zero pos = refl
buffer_bytes-file_bytes device start off index (suc count) pos =
    let size = device.block_size in
    let block : start + (off + index) / size ≡ start + off / size + (off % size + index) / size =
      omega (arith, same_block off index size pos) in
    let left : off % size + index + 1 ≡ off % size + (index + 1) = omega arith in
    let right : off + (index + 1) ≡ off + index + 1 = omega arith in
    let rest =
      ap (λ n. buffer_bytes device (start + off / size) n count) left
      ∙ buffer_bytes-file_bytes device start off (index + 1) count pos
      ∙ ap (λ n. file_bytes device start n count) right in
    λ i. device.byte_at (sym block i) (sym (same_place off index size) i) ∷ rest i
