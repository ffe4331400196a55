-- ===== src/TarFs/Tree/Tests.antt =====
-- Instances of the theorems on the trees of archives.
use inf3_os.Base.{
  ℕ, ◌+◌, ◌≡◌, ◌≢◌, refl, true, false, ◌&&◌, List, [], ◌∷◌, some, ok, arith, if◌then◌else◌, ◌==◌,
  leb, ltb,
}
use inf3_os.Fs.Paths.{Spells, slashed, last, IsName}
use inf3_os.Fs.Listing.{Entry, listed, root_only}
use inf3_os.Util.Text.{strlen, count_chars}
use inf3_os.TarFs.{BlockDevice, char_at, octal_loop, octal2ui, blocks_needed, buffer_bytes}
use inf3_os.TarFs.Tree.{Heap, build_tree, block_from, is_zero, is_zero_block}
use inf3_os.TarFs.Tree.Nodes.{IsTree, view}
use inf3_os.TarFs.Tree.Archive.{IsHeader, Archive, second_zero, first_zero, header}
use inf3_os.TarFs.Tree.Building.{build_tree_lem}
use inf3_os.Fs.Vfs.{Nodes}

program : Unit {0}
unfolding octal2ui octal_loop strlen count_chars char_at block_from buffer_bytes is_zero
    is_zero_block blocks_needed
program = tt

-- The header of the file a/b with three bytes.
abbrev header_byte : ℕ → ℕ
header_byte i =
    if i == 0
    then 97
    else if i == 1
    then 47
    else if i == 2
    then 98
    else if leb 124 i && ltb i 134
    then 48
    else if i == 134
    then 51
    else if i == 156
    then 48
    else 0

-- The file, and two zero blocks.
abbrev small_archive : BlockDevice
small_archive = record {
  block_size = 512;
  block_count = 4;
  byte_at = λ block i. if block == 0 then header_byte i else if block == 1 then i + 7 else 0;
}

abbrev small_file : Entry
small_file = record { names = (97 ∷ []) ∷ (98 ∷ []) ∷ []; size = 3; is_file = true; block = 0 }

one_letter : (c : ℕ) → c ≢ 0 → c ≢ 47 → IsName (c ∷ [])
one_letter c a b = record { chars = ((a, b), tt); named = omega arith; fits = omega arith }

small_file-spelled : Spells small_file.names (block_from small_archive 0 0)
unfolding program
small_file-spelled =
    slashed (97 ∷ []) ((98 ∷ []) ∷ []) (buffer_bytes small_archive 0 2 510)
      (block_from small_archive 0 0) (one_letter 97 (omega arith) (omega arith))
      (last (98 ∷ []) (buffer_bytes small_archive 0 4 508) (buffer_bytes small_archive 0 2 510)
        (one_letter 98 (omega arith) (omega arith)) refl)
      refl

small_file-IsHeader : IsHeader small_archive small_file
unfolding program
small_file-IsHeader = record {
  spelled = small_file-spelled;
  named = omega arith;
  has_size = refl;
  typeflag = 48;
  has_typeflag = refl;
  typed = refl;
}

small_archive-Archive : Archive small_archive 0 false (small_file ∷ [])
unfolding program
small_archive-Archive =
    header 0 2 false small_file [] (omega arith) (omega arith) small_file-IsHeader refl refl
      (first_zero 2 [] (omega arith) (omega arith) refl (second_zero 3 (omega arith) refl))

build_tree_lem_example :
    (heap : Heap) × (build_tree small_archive ≡ ok (some heap))
    × IsTree heap
    × ((q : List ℕ) → view heap q ≡ listed (small_file ∷ []) root_only q)
build_tree_lem_example = build_tree_lem small_archive (small_file ∷ []) small_archive-Archive

-- The archive at the root, with nothing looked up yet.
abbrev small_heap : Heap
small_heap = (build_tree_lem small_archive (small_file ∷ []) small_archive-Archive).0
