-- ===== src/Fs/Vfs/Starting.antt =====
-- CourseWorks/infos/fs/vfs.cpp: the virtual file system at its start.
use inf3_os.Base.{ℕ, ◌≡◌, refl, sym, ◌∙◌, List, [], ◌∷◌, Option, none, some, ok, arith}
use inf3_os.Util.Map
use inf3_os.Fs.Forest.{reach, reach_last}
use inf3_os.Fs.Growing.{links, new-IsMap}
use inf3_os.Fs.Vfs.{Nodes, root_node, FilesystemRegistration, init, instantiate_fs, rootfs_name}
use inf3_os.Fs.Vfs.Resolving.{Mounts, resolve}
use inf3_os.Fs.Vfs.Caching.{IsCache, maps_of, node_at}

-- The root file system at the root, and nothing else.
abbrev pub only_root : ℕ → Mounts
only_root pn [] = some pn
only_root pn (key ∷ path) = none

nothing_there : (pn n key : ℕ) → links (maps_of (root_node pn)) n key ≡ none
unfolding Map.try_get_value Map.find
nothing_there pn n key = refl

nowhere : (pn key n : ℕ) (path : List ℕ) → node_at (root_node pn) (key ∷ path) ≡ some n → ⊥
nowhere pn key n path h =
    let (m, found, taken) = reach_last (links (maps_of (root_node pn))) 0 key n path h in
    let bad = sym (nothing_there pn m key) ∙ taken in cc

root_resolved :
    (pfs : ℕ → ℕ → Option ℕ) (pn : ℕ) (path : List ℕ) (n : ℕ)
    → node_at (root_node pn) path ≡ some n
    → (node : ℕ) × (((root_node pn).at n).pn ≡ some node)
      × (resolve pfs (only_root pn) path ≡ some node)
unfolding resolve
root_resolved pfs pn [] n h = (pn, refl, refl)
root_resolved pfs pn (key ∷ path) n h = absurd (nowhere pn key n path h)

root_kept : (pn : ℕ) (path : List ℕ) → node_at (root_node pn) path ≡ none → only_root pn path ≡ none
unfolding reach
root_kept pn [] h = cc
root_kept pn (key ∷ path) h = refl

pub root_node-IsCache :
    (pfs : ℕ → ℕ → Option ℕ) (pn : ℕ) → IsCache pfs (only_root pn) (root_node pn)
root_node-IsCache pfs pn = record {
  maps = λ n. new-IsMap;
  forest = record {
    root_low = omega arith;
    low = λ n key c h. let bad = sym (nothing_there pn n key) ∙ h in cc;
    unique = λ n m key other c h g. let bad = sym (nothing_there pn n key) ∙ h in cc;
  };
  resolved = root_resolved pfs pn;
  kept = root_kept pn;
}

-- Where the root file system is registered and mounts, `init` succeeds, and the table has it at the
-- root.
pub init-mounts_root :
    (pfs : ℕ → ℕ → Option ℕ) (filesystems : List FilesystemRegistration) (fs_mount : ℕ → Option ℕ)
    (fs pn : ℕ)
    → instantiate_fs filesystems rootfs_name none ≡ ok (some fs)
    → fs_mount fs ≡ some pn
    → (nodes : Nodes) × (init filesystems fs_mount ≡ ok (some nodes))
      × IsCache pfs (only_root pn) nodes
unfolding init
init-mounts_root pfs filesystems fs_mount fs pn made mounted =
    (root_node pn, rw (init, made, mounted) refl, root_node-IsCache pfs pn)
