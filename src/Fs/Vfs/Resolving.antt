-- ===== src/Fs/Vfs/Resolving.antt =====
-- CourseWorks/infos/fs/vfs.cpp and vfs-node.cpp: the lookup of a path without nodes that remember,
-- from a table of what is mounted where.
use inf3_os.Util.Equality.{same_list, same_list_refl}
use inf3_os.Base.{
  ℕ, ◌≡◌, refl, false, List, [], ◌∷◌, Option, none, some, if◌then◌else◌, Bool-cases, inl, inr,
}
use inf3_os.Fs.Cutting.{is_under}

-- The node of a file system that is mounted at a path of keys, the deepest first.
abbrev pub Mounts : Type 0
Mounts = List ℕ → Option ℕ

abbrev pub or_else : Option ℕ → Option ℕ → Option ℕ
or_else none other = other
or_else (some pn) other = some pn

abbrev pub child_in : (ℕ → ℕ → Option ℕ) → Option ℕ → ℕ → Option ℕ
child_in pfs none key = none
child_in pfs (some pn) key = pfs pn key

-- The node of a file system at a path: what is mounted there, or the child in the node above.
unfoldable pub resolve : (ℕ → ℕ → Option ℕ) → Mounts → List ℕ → Option ℕ
resolve pfs mounts [] = mounts []
resolve pfs mounts (key ∷ path) =
    or_else (mounts (key ∷ path)) (child_in pfs (resolve pfs mounts path) key)

-- The table after a mount: what was mounted further down is forgotten.
abbrev pub mounted_at : Mounts → List ℕ → ℕ → Mounts
mounted_at mounts top pn q =
    if same_list q top then some pn else if is_under top q then none else mounts q

pub resolve_top :
    (pfs : ℕ → ℕ → Option ℕ) (mounts : Mounts) (top : List ℕ) (pn : ℕ)
    → resolve pfs (mounted_at mounts top pn) top ≡ some pn
unfolding resolve
resolve_top pfs mounts [] pn = refl
resolve_top pfs mounts (key ∷ top) pn = rw (same_list_refl (key ∷ top)) refl

-- A mount changes nothing but at its path and further down.
pub resolve_elsewhere :
    (pfs : ℕ → ℕ → Option ℕ) (mounts : Mounts) (top : List ℕ) (pn : ℕ) (q : List ℕ)
    → same_list q top ≡ false
    → is_under top q ≡ false
    → resolve pfs (mounted_at mounts top pn) q ≡ resolve pfs mounts q
unfolding resolve
resolve_elsewhere pfs mounts top pn [] other apart = rw other refl
resolve_elsewhere pfs mounts top pn (key ∷ q) other apart = elim (Bool-cases (same_list q top)) [
  | inl here ↦ let bad = rw here at apart in cc
  | inr above ↦ elim (Bool-cases (is_under top q)) [
    | inl under ↦ let bad = rw (above, under) at apart in cc
    | inr beside ↦
        rw (other, above, beside, resolve_elsewhere pfs mounts top pn q above beside) refl
  ]
]
