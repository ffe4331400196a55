-- ===== src/TarFs/Tests.antt =====
-- Instances of the theorems on files of the tar filesystem.
use inf3_os.Base.{◌%◌, ◌*◌, ◌+◌, ◌≡◌, refl, [], ◌∷◌, ok, arith}
use inf3_os.Util.Text.{count_chars, strlen}
use inf3_os.TarFs.{
  char_at, octal_loop, u32_mod, octal2ui, BlockDevice, TarFile, size, seek, seek_absolute,
}
use inf3_os.TarFs.Octal.{octal, octal2ui_lem}
use inf3_os.TarFs.Reading.{IsReadable}
use inf3_os.TarFs.Seeking.{landing, seek_lem}

program : Unit {0}
unfolding size octal2ui octal_loop strlen count_chars char_at
program = tt

-- Blocks of four bytes; each byte tells where it is.
abbrev small_blocks : BlockDevice
small_blocks = record {
  block_size = 4;
  block_count = 8;
  byte_at = λ block index. block * 10 + index;
}

-- The size is 00000000011 in octal digits, which is 9; the data begins at block 2.
abbrev nine_bytes : TarFile
nine_bytes = record {
  size_field = 48 ∷ 48 ∷ 48 ∷ 48 ∷ 48 ∷ 48 ∷ 48 ∷ 48 ∷ 48 ∷ 49 ∷ 49 ∷ 0 ∷ [];
  file_start_block = 2;
  cur_pos = 3;
}

nine_bytes-IsReadable : IsReadable small_blocks nine_bytes 9
unfolding program
nine_bytes-IsReadable = record {
  has_size = refl;
  has_blocks = omega arith;
  low_size = omega arith;
  low_blocks = omega arith;
}

seek_lem_example :
    seek nine_bytes 20 seek_absolute ≡ ok (record nine_bytes { cur_pos = landing 9 20 })
seek_lem_example =
    seek_lem nine_bytes 9 20 seek_absolute nine_bytes-IsReadable.has_size (omega arith)

-- "725": the value of 25 in octal digits.
octal2ui_lem_example : octal2ui (55 ∷ 50 ∷ 53 ∷ 0 ∷ []) ≡ ok (octal (53 ∷ 50 ∷ []) % u32_mod)
octal2ui_lem_example =
    octal2ui_lem (53 ∷ 50 ∷ []) [] 55
      (((omega arith), (omega arith)), (((omega arith), (omega arith)), tt))
      ((omega arith), (omega arith))
