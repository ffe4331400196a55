-- ===== src/Util/Text/Hash.antt =====
-- CourseWorks/infos/include/infos/util/string.h: the hash of a `String`.
use Prim.Native.Nat.{bit_xor}
use inf3_os.Base.{ℕ, ◌+◌, ◌-◌, ◌*◌, ◌%◌, List, [], ◌∷◌, ltb, if◌then◌else◌}
use inf3_os.Util.Text.{size_mod}

-- A `char` is signed: as an operand it is extended to 64 bits.
unfoldable pub sign_extended : ℕ → ℕ
sign_extended c = if ltb c 128 then c else c + size_mod - 256

-- The loop of `compute_hash`.
unfoldable pub hash_chars : ℕ → List ℕ → ℕ
hash_chars hash [] = hash
hash_chars hash (c ∷ cs) =
    hash_chars ((bit_xor hash (sign_extended c) * 1099511628211) % size_mod) cs

abbrev pub offset_basis : ℕ
offset_basis = 14695981039346656037

unfoldable pub compute_hash : List ℕ → ℕ
compute_hash data_chars = hash_chars offset_basis data_chars
