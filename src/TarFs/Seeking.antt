-- ===== src/TarFs/Seeking.antt =====
-- CourseWorks/coursework/tarfs.cpp: `seek`, and a read behind it.
use inf3_os.Base.{◌==◌, ℕ, ◌+◌, ◌-◌, ◌%◌, ◌<◌, ◌≡◌, refl, arith, ok, ltb, leb, if◌then◌else◌}
use inf3_os.Util.LinkedList.{u32_mod}
use inf3_os.TarFs.{TarFile, size, seek, SeekType, sought}

-- The position asked for, or the last byte where that is not in the file; in an empty file, the
-- greatest number of 32 bits.
abbrev pub landing : ℕ → ℕ → ℕ
landing file_size target =
    if file_size == 0 then u32_mod - 1 else if ltb target file_size then target else file_size - 1

-- `seek` goes to the target modulo 2 ^ 32, where an absolute target is the offset, and a relative one
-- the offset from the position. It leaves the position inside a file that is not empty: at that
-- number, or at the last byte where that is behind it. In an empty file it leaves the greatest
-- number of 32 bits.
pub seek_lem :
    (file : TarFile) (file_size offset : ℕ) (type : SeekType)
    → size file ≡ ok file_size
    → file_size < u32_mod
    → seek file offset type
      ≡ ok (record file { cur_pos = landing file_size (sought type file.cur_pos offset) })
unfolding seek
seek_lem file file_size offset type h low =
    let target = sought type file.cur_pos offset in
    let pos : (if leb file_size target then (file_size + u32_mod - 1) % u32_mod else target)
        ≡ landing file_size target =
      ground arith in
    rw (h, pos) refl
