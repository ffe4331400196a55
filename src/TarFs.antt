-- ===== src/TarFs.antt =====
-- CourseWorks/coursework/tarfs.cpp: files of the tar filesystem. The block device is a parameter: the
-- size of its blocks, their number, and the byte at each index of each block. A block number is an
-- `unsigned int`, as is the position; sizes and offsets are on 64 bits.
pub mod Octal
pub mod Blocks
pub mod Reading
pub mod Seeking
pub mod Tree
pub mod Directory
pub mod Mounted
mod Tests
use inf3_os.Base.{
  ℕ, zero, suc, ◌+◌, ◌-◌, ◌*◌, ◌/◌, ◌%◌, ◌^◌, Bool, true, false, ◌||◌, ◌&&◌, List, [], ◌∷◌, Option,
  none, some, Outcome, ok, panic, ◌>>=◌, ◌==◌, leb, ltb, if◌then◌else◌, length, get_elem?,
}
use inf3_os.Util.LinkedList.{u32_mod}
use inf3_os.Util.Text.{strlen, size_mod}

pub record BlockDevice : Type 0 where
  pub block_size : ℕ
  pub block_count : ℕ
  pub byte_at : ℕ → ℕ → ℕ

-- `size_field` is `_hdr->size`, to the end of the header.
pub record TarFile : Type 0 where
  pub size_field : List ℕ
  pub file_start_block : ℕ
  pub cur_pos : ℕ

-- `data[index]`.
unfoldable pub char_at : List ℕ → ℕ → Outcome ℕ
char_at data_chars index = elim (get_elem? data_chars index) [ none ↦ panic | some c ↦ ok c ]

-- The loop of `octal2ui`, where the index `len - i` is `left`. `ch - '0'` is added modulo 2 ^ 32.
unfoldable pub octal_loop : ℕ → List ℕ → ℕ → ℕ → Outcome ℕ
octal_loop zero data_chars value factor = ok value
octal_loop (suc left) data_chars value factor = do
  ch ← char_at data_chars (suc left)
  octal_loop left data_chars ((value + factor * (ch + u32_mod - 48)) % u32_mod) (factor * 8)

-- `octal2ui`: the loop begins at i = 1, with the last character, and ends before i = len.
unfoldable pub octal2ui : List ℕ → Outcome ℕ
octal2ui data_chars = do len ← strlen (some data_chars); octal_loop (len - 1) data_chars 0 1

-- `TarFSFile::size`.
unfoldable pub size : TarFile → Outcome ℕ
size file = octal2ui file.size_field

-- `memcpy` of `count` bytes of the block buffer, from `index` on. The buffer holds
-- `blocks_to_read` blocks, which were read from block `start` on.
unfoldable pub buffer_bytes : BlockDevice → ℕ → ℕ → ℕ → List ℕ
buffer_bytes device start index zero = []
buffer_bytes device start index (suc count) =
    device.byte_at (start + index / device.block_size) (index % device.block_size)
    ∷ buffer_bytes device start (index + 1) count

-- The end of the `int`s. `blocks_to_read` and the size of the buffer are of that type: greater ones
-- are a panic.
abbrev pub int_end : ℕ
int_end = 2 ^ 31

unfoldable pub copy_region : BlockDevice → ℕ → ℕ → ℕ → ℕ → Outcome (List ℕ)
copy_region device start blocks_to_read index count =
    if leb (index + count) (device.block_size * blocks_to_read)
      && ltb (device.block_size * blocks_to_read) int_end
    then ok (buffer_bytes device start index count)
    else panic

-- `blocks_to_read`.
unfoldable pub blocks_needed : ℕ → ℕ → ℕ
blocks_needed block_size wanted =
    if wanted % block_size == 0 then wanted / block_size else wanted / block_size + 1

-- The number of bytes left of `count` where they would go over the end.
unfoldable pub clip : ℕ → ℕ → ℕ → ℕ
clip file_size count off =
    let end = (off + count) % size_mod in
    if ltb file_size end
    then (count + size_mod - (end + size_mod - file_size) % size_mod) % size_mod
    else count

-- `TarFSFile::pread`: the bytes that it puts into the buffer; it returns their number.
unfoldable pub pread : BlockDevice → TarFile → ℕ → ℕ → Outcome (List ℕ)
pread device file count off = do
  file_size ← size file
  (let clipped = clip file_size count off in
      let first = off % device.block_size in
      let blocks_to_read = blocks_needed device.block_size (clipped + 1 + first) in
      let start = (file.file_start_block + off / device.block_size) % u32_mod in
      if leb file_size off || clipped == 0
      then ok []
      else copy_region device start blocks_to_read first clipped)

-- `TarFSFile::read`.
unfoldable pub read : BlockDevice → TarFile → ℕ → Outcome (List ℕ × TarFile)
read device file count = do
  bytes ← pread device file count file.cur_pos
  ok (bytes, record file { cur_pos = (file.cur_pos + length bytes) % u32_mod })

-- `TarFSFile::seek`; the offset is added modulo 2 ^ 64, and the position is its low half.
pub data SeekType : Type 0 where
  seek_absolute seek_relative : SeekType

abbrev pub sought : SeekType → ℕ → ℕ → ℕ
sought seek_absolute cur_pos offset = offset % u32_mod
sought seek_relative cur_pos offset = (cur_pos + offset) % u32_mod

unfoldable pub seek : TarFile → ℕ → SeekType → Outcome TarFile
seek file offset type = do
  let moved = sought type file.cur_pos offset
  file_size ← size file
  ok (record file {
    cur_pos = if leb file_size moved then (file_size + u32_mod - 1) % u32_mod else moved;
  })
