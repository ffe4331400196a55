-- ===== src/Fs/Vfs/Tests.antt =====
-- An instance of the theorem on opens and mounts.
use inf3_os.Base.{
  ◌+◌, ℕ, ◌≡◌, refl, List, [], ◌∷◌, Option, none, some, ok, arith, if◌then◌else◌, ◌==◌,
}
use inf3_os.Util.Text.{strncmp, strlen, count_chars, compare_chars}
use inf3_os.Util.Text.Hash.{compute_hash, hash_chars, sign_extended}
use inf3_os.Fs.Paths.{IsName, Spells, slashed, last, keys, keys_below}
use inf3_os.Fs.Vfs.{Nodes, root_node, FilesystemRegistration, lookup_fs, instantiate_fs}
use inf3_os.Fs.Vfs.Resolving.{Mounts, resolve, mounted_at}
use inf3_os.Fs.Vfs.Caching.{IsCache}
use inf3_os.Fs.Vfs.Starting.{only_root, root_node-IsCache}
use inf3_os.Fs.Vfs.History.{
  Operation, open_at, mount_at, operate_all, DoesAll, done, then_does, opens, mounts_fs,
  operate_all_lem,
}

program : Unit {0}
unfolding instantiate_fs lookup_fs strncmp strlen count_chars compare_chars resolve keys_below
    compute_hash hash_chars sign_extended
program = tt

-- Every node has one child in a file system, the next node, under the hash of "a".
abbrev next_nodes : ℕ → ℕ → Option ℕ
next_nodes pn key = if key == compute_hash (97 ∷ []) then some (pn + 1) else none

abbrev children_by_name : ℕ → List ℕ → Option ℕ
children_by_name pn name = next_nodes pn (compute_hash name)

-- The file system "t", whose root is the node 40.
abbrev one_kind : List FilesystemRegistration
one_kind = record { name = 116 ∷ 0 ∷ []; creation_fn = λ dev. some 3 } ∷ []

abbrev roots : ℕ → Option ℕ
roots fs = some 40

a-IsName : IsName (97 ∷ [])
a-IsName = record {
  chars = ((omega arith, omega arith), tt);
  named = omega arith;
  fits = omega arith;
}

a-Spells : Spells ((97 ∷ []) ∷ []) (97 ∷ 0 ∷ [])
a-Spells = last (97 ∷ []) [] (97 ∷ 0 ∷ []) a-IsName refl

a_a-Spells : Spells ((97 ∷ []) ∷ (97 ∷ []) ∷ []) (97 ∷ 47 ∷ 97 ∷ 0 ∷ [])
a_a-Spells =
    slashed (97 ∷ []) ((97 ∷ []) ∷ []) (97 ∷ 0 ∷ []) (97 ∷ 47 ∷ 97 ∷ 0 ∷ []) a-IsName a-Spells refl

-- Open /a/a, mount t at /a, and open /a/a again.
abbrev operations : List Operation
operations =
    open_at (47 ∷ 97 ∷ 47 ∷ 97 ∷ 0 ∷ [])
    ∷ mount_at (47 ∷ 97 ∷ 0 ∷ []) (116 ∷ 0 ∷ []) none
    ∷ open_at (47 ∷ 97 ∷ 47 ∷ 97 ∷ 0 ∷ [])
    ∷ []

abbrev with_mount : Mounts
with_mount = mounted_at (only_root 7) (keys ((97 ∷ []) ∷ [])) 40

operations-DoesAll :
    DoesAll children_by_name one_kind roots next_nodes operations
      (only_root 7)
      (some 9 ∷ some 3 ∷ some 41 ∷ [])
      with_mount
unfolding program
operations-DoesAll = then_does _ _ _ _ _ _ _ (opens _ _ _ _ a_a-Spells refl) (
    then_does _ _ _ _ _ _ _ (mounts_fs _ _ _ _ _ _ 3 8 40 a-Spells refl refl refl refl)
      (then_does _ _ _ _ _ _ _ (opens _ _ _ _ a_a-Spells refl) (done _)))

operate_all_lem_example :
    (nodes : Nodes) × (operate_all children_by_name one_kind roots operations (root_node 7)
      ≡ ok (some 9 ∷ some 3 ∷ some 41 ∷ [], nodes))
    × IsCache next_nodes with_mount nodes
operate_all_lem_example =
    operate_all_lem children_by_name one_kind roots next_nodes (λ pn name. refl) operations
      (only_root 7) with_mount (some 9 ∷ some 3 ∷ some 41 ∷ []) (root_node 7) operations-DoesAll
      (root_node-IsCache next_nodes 7)
