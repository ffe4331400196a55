-- ===== src/TarFs/Reading.antt =====
-- CourseWorks/coursework/tarfs.cpp: what `pread` and `read` give.
use native.Mathlib.Nat.{div-le_self, mod-lt}
use inf3_os.Base.{
  ℕ, zero, suc, ◌+◌, ◌-◌, ◌*◌, ◌/◌, ◌%◌, ◌<◌, ◌≤◌, ◌≡◌, refl, sym, ap, ◌∙◌, true, arith, ◌==◌,
  Bool-cases, inl, inr, List, [], ◌∷◌, ◌++◌, ok, Outcome, ◌>>=◌, leb, if◌then◌else◌, length,
}
use inf3_os.Util.LinkedList.{u32_mod}
use inf3_os.Util.Text.{size_mod}
use inf3_os.Base.{All, ◌⊎◌, ltb}
use inf3_os.TarFs.{
  int_end, BlockDevice, TarFile, size, pread, read, clip, copy_region, blocks_needed, buffer_bytes,
}
use inf3_os.TarFs.Blocks.{
  file_byte, file_bytes, buffer_bytes-file_bytes, blocks_needed-covers, blocks_needed-tight,
}

-- The number of bytes that are left to read.
abbrev pub available : ℕ → ℕ → ℕ → ℕ
available file_size count off = if leb (off + count) file_size then count else file_size - off

-- A file whose blocks have numbers of 32 bits, on a device with blocks.
pub record IsReadable (device : BlockDevice) (file : TarFile) (file_size : ℕ) : Type 0 where
  pub has_size : size file ≡ ok file_size
  pub has_blocks : 0 < device.block_size
  pub low_size : file_size < u32_mod
  pub low_blocks : file.file_start_block + file_size < u32_mod

-- A read for which the size of the block buffer fits an `int`.
abbrev pub Fits : BlockDevice → ℕ → ℕ → Type 0
Fits device file_size count =
    (count + 2 * device.block_size < int_end) ⊎ (file_size + 2 * device.block_size < int_end)

clip-available :
    (file_size count off : ℕ)
    → file_size < u32_mod
    → off + count < size_mod
    → off < file_size
    → clip file_size count off ≡ available file_size count off
unfolding clip
clip-available file_size count off small fits inside = ground arith

file_bytes-length :
    (device : BlockDevice) (start off count : ℕ)
    → length (file_bytes device start off count) ≡ count
unfolding file_bytes
file_bytes-length device start off zero = refl
file_bytes-length device start off (suc count) =
    ap suc (file_bytes-length device start (off + 1) count)

no_index : (n : ℕ) → n ≡ n + 0
no_index n = omega arith

copy_region_lem :
    (device : BlockDevice) (start off count : ℕ)
    → 0 < device.block_size
    → count + 2 * device.block_size < int_end
    → copy_region device
        (start + off / device.block_size)
        (blocks_needed device.block_size (count + 1 + off % device.block_size))
        (off % device.block_size)
        count
      ≡ ok (file_bytes device start off count)
unfolding copy_region
copy_region_lem device start off count pos small =
    let size = device.block_size in
    let first = off % size in
    let enough : leb (first + count) (size * blocks_needed size (count + 1 + first)) ≡ true =
      ground (arith, blocks_needed-covers size (count + 1 + first) pos) in
    let same : buffer_bytes device (start + off / size) first count
        ≡ file_bytes device start off count =
      ap (λ n. buffer_bytes device (start + off / size) n count) (no_index first)
      ∙ buffer_bytes-file_bytes device start off 0 count pos
      ∙ ap (λ n. file_bytes device start n count) (sym (no_index off)) in
    let fits : ltb (size * blocks_needed size (count + 1 + first)) int_end ≡ true =
      ground (arith, blocks_needed-tight size (count + 1 + first) pos, mod-lt off pos, small) in
    rw (enough, fits, same) refl

available_low :
    (device : BlockDevice) (file_size count off : ℕ)
    → Fits device file_size count
    → available file_size count off + 2 * device.block_size < int_end
available_low device file_size count off (inl h) = ground arith
available_low device file_size count off (inr h) = ground arith

-- `pread` gives the bytes of the file from the offset on, as many as were asked for or as there are
-- up to the end of the file: none where the offset is at the end or behind it. The size of the block
-- buffer fits an `int`.
pub pread_lem :
    (device : BlockDevice) (file : TarFile) (file_size count off : ℕ)
    → IsReadable device file file_size
    → off + count < size_mod
    → Fits device file_size count
    → pread device file count off
      ≡ ok (file_bytes device file.file_start_block off (available file_size count off))
unfolding pread file_bytes
pread_lem device file file_size count off r fits small = elim (Bool-cases (leb file_size off)) [
  | inl behind ↦
      let none_left : available file_size count off ≡ 0 = ground arith in
      rw (r.has_size, behind, none_left) refl
  | inr inside ↦
      let clipped = clip-available file_size count off r.low_size fits (ground arith) in
      let low : (file.file_start_block + off / device.block_size) % u32_mod
          ≡ file.file_start_block + off / device.block_size =
        ground (arith, div-le_self off device.block_size, r.low_blocks) in
      elim (Bool-cases (available file_size count off == 0)) [
        | inl nothing ↦
            let none_left : 0 ≡ available file_size count off = ground arith in
            rw (r.has_size, inside, clipped, nothing)
              (ap (λ n. ok (file_bytes device file.file_start_block off n)) none_left)
        | inr some_bytes ↦
            rw (r.has_size, inside, clipped, some_bytes, low)
              (copy_region_lem device file.file_start_block off (available file_size count off)
                r.has_blocks (available_low device file_size count off small))
      ]
]

file_bytes-append :
    (device : BlockDevice) (start off next a b n : ℕ)
    → off + a ≡ next
    → a + b ≡ n
    → file_bytes device start off a ++ file_bytes device start next b
      ≡ file_bytes device start off n
unfolding file_bytes
file_bytes-append device start off next zero b n e h =
    let at : next ≡ off = omega arith in
    let all : b ≡ n = omega arith in λ i. file_bytes device start (at i) (all i)
file_bytes-append device start off next (suc a) b zero e h = ground arith
file_bytes-append device start off next (suc a) b (suc n) e h =
    ap (◌∷◌ (file_byte device start off))
      (file_bytes-append device start (off + 1) next a b n (omega arith) (omega arith))

-- Reads one after another: the bytes in a row, and the file afterwards.
pub reads : BlockDevice → TarFile → List ℕ → Outcome (List ℕ × TarFile)
reads device file [] = ok ([], file)
reads device file (count ∷ counts) = do
  (bytes, after) ← read device file count
  (more, last) ← reads device after counts
  ok (bytes ++ more, last)

abbrev pub sum : List ℕ → ℕ
sum [] = 0
sum (count ∷ counts) = count + sum counts

-- The file with its position moved on.
abbrev pub moved : TarFile → ℕ → TarFile
moved file n = record file { cur_pos = file.cur_pos + n }

read_lem :
    (device : BlockDevice) (file : TarFile) (file_size count : ℕ)
    → IsReadable device file file_size
    → file.cur_pos ≤ file_size
    → file.cur_pos + count < size_mod
    → Fits device file_size count
    → read device file count
      ≡ ok (
        file_bytes device file.file_start_block file.cur_pos
            (available file_size count file.cur_pos),
        moved file (available file_size count file.cur_pos),
      )
unfolding read
read_lem device file file_size count r inside fits small =
    let n = available file_size count file.cur_pos in
    let position : (file.cur_pos + length (file_bytes device file.file_start_block file.cur_pos n))
          % u32_mod
        ≡ file.cur_pos + n =
      ground (arith, file_bytes-length device file.file_start_block file.cur_pos n, r.low_size) in
    rw (pread_lem device file file_size count file.cur_pos r fits small, position) refl

moved-IsReadable :
    (device : BlockDevice) (file : TarFile) (file_size n : ℕ)
    → IsReadable device file file_size
    → IsReadable device (moved file n) file_size
unfolding size
moved-IsReadable device file file_size n r = record {
  has_size = r.has_size;
  has_blocks = r.has_blocks;
  low_size = r.low_size;
  low_blocks = r.low_blocks;
}

pub reads_lem :
    (device : BlockDevice) (file : TarFile) (file_size : ℕ) (counts : List ℕ)
    → IsReadable device file file_size
    → file.cur_pos ≤ file_size
    → file.cur_pos + sum counts < size_mod
    → All (Fits device file_size) counts
    → reads device file counts
      ≡ ok (
        file_bytes device file.file_start_block file.cur_pos
            (available file_size (sum counts) file.cur_pos),
        moved file (available file_size (sum counts) file.cur_pos),
      )
unfolding reads file_bytes
reads_lem device file file_size [] r inside fits small =
    let none_left : 0 ≡ available file_size 0 file.cur_pos = ground arith in
    let stays : file.cur_pos ≡ file.cur_pos + available file_size 0 file.cur_pos = ground arith in
    λ i. ok (
      file_bytes device file.file_start_block file.cur_pos (none_left i),
      record file { cur_pos = stays i },
    )
reads_lem device file file_size (count ∷ counts) r inside fits (small, later) =
    let n = available file_size count file.cur_pos in
    let rest =
      reads_lem device (moved file n) file_size counts (moved-IsReadable device file file_size n r)
        (ground arith) (ground arith) later in
    let m = available file_size (sum counts) (file.cur_pos + n) in
    let total = available file_size (count + sum counts) file.cur_pos in
    let all : n + m ≡ total = ground arith in
    let start = file.file_start_block in
    let pos : file.cur_pos + n + m ≡ file.cur_pos + total = omega (arith, all) in
    let bytes = file_bytes-append device start file.cur_pos (file.cur_pos + n) n m total refl all in
    rw (read_lem device file file_size count r inside (omega arith) small, rest)
      (λ i. ok (bytes i, record file { cur_pos = pos i }))
