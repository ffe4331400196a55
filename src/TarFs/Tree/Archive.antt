-- ===== src/TarFs/Tree/Archive.antt =====
-- CourseWorks/coursework/tarfs.cpp: the archives that `build_tree` reads, described on their own.
use inf3_os.Base.{zero}
use inf3_os.Base.{
  ◌-◌, ℕ, suc, ◌+◌, ◌<◌, ◌≤◌, ◌≡◌, refl, ap, ◌∙◌, Bool, true, false, not, List, [], ◌∷◌, ◌++◌, some,
  ok, ◌==◌, length, get_elem?, arith, ◌≢◌,
}
use inf3_os.Fs.Paths.{Spells-length, Spells, ended, slashed, last, IsName}
use inf3_os.Fs.Listing.{Entry}
use inf3_os.TarFs.{BlockDevice, octal2ui, blocks_needed, buffer_bytes}
use inf3_os.TarFs.Tree.{block_from, is_zero, is_zero_block, int_max}

-- The header of an entry in its block: its name, its size in octal, and its type.
pub record IsHeader (device : BlockDevice) (entry : Entry) : Type 0 where
  pub spelled : Spells entry.names (block_from device entry.block 0)
  pub named : 0 < length entry.names
  pub has_size : octal2ui (block_from device entry.block 124) ≡ ok entry.size
  pub typeflag : ℕ
  pub has_typeflag : get_elem? (block_from device entry.block 0) 156 ≡ some typeflag
  pub typed : entry.is_file ≡ not (typeflag == 53)

-- The archive from a block on, where a zero block may have been just before: headers, each with the
-- blocks of its contents behind it, and single zero blocks, up to two zero blocks in a row or to the
-- end of the device. The block numbers fit an `int`.
pub data Archive (device : BlockDevice) : ℕ → Bool → List Entry → Type 0 where
  device_end :
      (offset : ℕ) (seen : Bool) → device.block_count ≤ offset → Archive device offset seen []
  second_zero :
      (offset : ℕ)
      → offset < device.block_count
      → is_zero_block device offset ≡ ok true
      → Archive device offset true []
  first_zero :
      (offset : ℕ) (entries : List Entry)
      → offset < device.block_count
      → offset + 1 < int_max
      → is_zero_block device offset ≡ ok true
      → Archive device (offset + 1) true entries
      → Archive device offset false entries
  header :
      (offset next : ℕ) (seen : Bool) (entry : Entry) (entries : List Entry)
      → offset < device.block_count
      → next < int_max
      → IsHeader device entry
      → entry.block ≡ offset
      → next ≡ offset + (1 + blocks_needed device.block_size entry.size)
      → Archive device next false entries
      → Archive device offset seen (entry ∷ entries)

length-buffer_bytes :
    (device : BlockDevice) (start index count : ℕ)
    → length (buffer_bytes device start index count) ≡ count
unfolding buffer_bytes
length-buffer_bytes device start index zero = refl
length-buffer_bytes device start index (suc count) =
    ap suc (length-buffer_bytes device start (index + 1) count)

-- The block of a header has room for its names.
pub names_fit :
    (device : BlockDevice) (entry : Entry)
    → IsHeader device entry
    → length entry.names < device.block_size
unfolding block_from
names_fit device entry h = omega (
  arith,
  Spells-length entry.names (block_from device entry.block 0) h.spelled,
  length-buffer_bytes device entry.block 0 (device.block_size - 0),
)

not_zero : (size c : ℕ) (buffer : List ℕ) → c ≢ 0 → is_zero (suc size) (c ∷ buffer) ≡ ok false
unfolding is_zero
not_zero size c buffer some_char =
    let differs : (c == 0) ≡ false = ground (arith, some_char) in rw differs refl

name_is_not_zero :
    (name behind : List ℕ) (size : ℕ) → IsName name → is_zero (suc size) (name ++ behind) ≡ ok false
name_is_not_zero [] behind size valid = absurd (omega (arith, valid.named))
name_is_not_zero (c ∷ name) behind size valid = not_zero size c (name ++ behind) (valid.chars.0.0)

Spells-is_zero :
    (names : List (List ℕ)) (path : List ℕ) (size : ℕ)
    → Spells names path
    → 0 < length names
    → is_zero (suc size) path ≡ ok false
Spells-is_zero _ _ size (ended junk) named = absurd (omega arith)
Spells-is_zero _ path size (slashed name names behind _ valid spelled e) named =
    ap (is_zero (suc size)) e ∙ name_is_not_zero name (47 ∷ behind) size valid
Spells-is_zero _ path size (last name junk _ valid e) named =
    ap (is_zero (suc size)) e ∙ name_is_not_zero name (0 ∷ junk) size valid

-- A header is no zero block: its name is not empty.
pub header_is_not_zero :
    (device : BlockDevice) (entry : Entry)
    → IsHeader device entry
    → is_zero_block device entry.block ≡ ok false
unfolding is_zero_block
header_is_not_zero device entry h =
    Spells-is_zero entry.names (block_from device entry.block 0) 511 h.spelled h.named
