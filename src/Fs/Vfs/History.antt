-- ===== src/Fs/Vfs/History.antt =====
-- CourseWorks/infos/fs/vfs.cpp and vfs-node.cpp, and the mounts of CourseWorks/infos/kernel/kernel.cpp:
-- opens and mounts one after another.
use inf3_os.Base.{
  subst, ℕ, ◌≡◌, refl, sym, ap, ◌∙◌, List, [], ◌∷◌, Option, none, some, Outcome, ok, panic, ◌>>=◌,
  Option-cases, inl, inr,
}
use inf3_os.Util.Text.Hash.{compute_hash}
use inf3_os.Fs.Paths.{Spells, keys, slash}
use inf3_os.Fs.Vfs.{
  Nodes, FilesystemRegistration, lookup_node, node_to_open, instantiate_fs, mount, mount_fs,
  remount,
}
use inf3_os.Fs.Vfs.Resolving.{Mounts, resolve, mounted_at}
use inf3_os.Fs.Vfs.Caching.{IsCache, node_at, pn_of}
use inf3_os.Fs.Vfs.Walking.{lookup_node_lem, node_to_open_lem}
use inf3_os.Fs.Vfs.Mounting.{remount-IsCache}

-- A path in its buffer; for a mount also the kind of file system, and the device.
pub data Operation : Type 0 where
  open_at : List ℕ → Operation
  mount_at : List ℕ → List ℕ → Option ℕ → Operation

module _ (pfs_child : ℕ → List ℕ → Option ℕ) (filesystems : List FilesystemRegistration)
    (fs_mount : ℕ → Option ℕ) where
  -- `lookup_node`, and `mount` on the node that it finds; there is none at NULL.
  unfoldable pub mount_path : List ℕ → List ℕ → Option ℕ → Nodes → Outcome (Option ℕ × Nodes)
  mount_path path fstype dev nodes = do
    (found, after) ← lookup_node pfs_child path nodes
    (let mounted : Outcome (Option ℕ × Nodes) = elim found [
      | none ↦ panic
      | some n ↦ mount filesystems fs_mount after n fstype dev
    ] in
        mounted)

  -- The result of an operation: what is opened, or the file system that is mounted.
  abbrev pub operate : Operation → Nodes → Outcome (Option ℕ × Nodes)
  operate (open_at path) nodes = node_to_open pfs_child path nodes
  operate (mount_at path fstype dev) nodes = mount_path path fstype dev nodes

  abbrev pub operate_all : List Operation → Nodes → Outcome (List (Option ℕ) × Nodes)
  operate_all [] nodes = ok ([], nodes)
  operate_all (op ∷ ops) nodes = do
    (result, mid) ← operate op nodes
    (results, after) ← operate_all ops mid
    ok (result ∷ results, after)

  -- What an operation does to the table of mounts, where no node is remembered.
  pub data Does (pfs : ℕ → ℕ → Option ℕ) : Operation → Mounts → Option ℕ → Mounts → Type 0 where
    opens :
        (names : List (List ℕ)) (path : List ℕ) (mounts : Mounts) (result : Option ℕ)
        → Spells names path
        → result ≡ resolve pfs mounts (keys names)
        → Does pfs (open_at (slash ∷ path)) mounts result mounts
    mounts_fs :
        (names : List (List ℕ)) (path fstype : List ℕ) (dev : Option ℕ) (mounts after : Mounts)
        (fs old pn : ℕ)
        → Spells names path
        → resolve pfs mounts (keys names) ≡ some old
        → instantiate_fs filesystems fstype dev ≡ ok (some fs)
        → fs_mount fs ≡ some pn
        → after ≡ mounted_at mounts (keys names) pn
        → Does pfs (mount_at (slash ∷ path) fstype dev) mounts (some fs) after
    mounts_nothing :
        (names : List (List ℕ)) (path fstype : List ℕ) (dev : Option ℕ) (mounts : Mounts) (old : ℕ)
        → Spells names path
        → resolve pfs mounts (keys names) ≡ some old
        → instantiate_fs filesystems fstype dev ≡ ok none
        → Does pfs (mount_at (slash ∷ path) fstype dev) mounts none mounts
    mount_fails :
        (names : List (List ℕ)) (path fstype : List ℕ) (dev : Option ℕ) (mounts : Mounts)
        (fs old : ℕ)
        → Spells names path
        → resolve pfs mounts (keys names) ≡ some old
        → instantiate_fs filesystems fstype dev ≡ ok (some fs)
        → fs_mount fs ≡ none
        → Does pfs (mount_at (slash ∷ path) fstype dev) mounts none mounts

  pub data DoesAll (pfs : ℕ → ℕ → Option ℕ)
      : List Operation → Mounts → List (Option ℕ) → Mounts → Type 0 where
    done : (mounts : Mounts) → DoesAll pfs [] mounts [] mounts
    then_does :
        (op : Operation) (ops : List Operation) (before between after : Mounts) (result : Option ℕ)
        (results : List (Option ℕ))
        → Does pfs op before result between
        → DoesAll pfs ops between results after
        → DoesAll pfs (op ∷ ops) before (result ∷ results) after

  module _ (pfs : ℕ → ℕ → Option ℕ)
      (by_hash : (pn : ℕ) (name : List ℕ) → pfs_child pn name ≡ pfs pn (compute_hash name)) where
    -- A path that resolves to something is looked up to a node.
    mount_point :
        (names : List (List ℕ)) (path : List ℕ) (mounts : Mounts) (old : ℕ) (nodes : Nodes)
        → Spells names path
        → resolve pfs mounts (keys names) ≡ some old
        → IsCache pfs mounts nodes
        → (n : ℕ) × (after : Nodes) × (lookup_node pfs_child (slash ∷ path) nodes
            ≡ ok (some n, after))
          × IsCache pfs mounts after
          × (node_at after (keys names) ≡ some n)
    mount_point names path mounts old nodes spelled resolved cache =
        let (found, after, looked_up, at_end) =
          lookup_node_lem pfs_child pfs by_hash mounts names path nodes spelled cache in
        elim (Option-cases found) [
          | inl h ↦ let bad = sym (ap (pn_of after) h) ∙ at_end.pn ∙ resolved in cc
          | inr (n, h) ↦
              (n, after, looked_up ∙ ap (λ o. ok (o, after)) h, at_end.valid, at_end.at ∙ h)
        ]

    operate_lem :
        (op : Operation) (before after : Mounts) (result : Option ℕ) (nodes : Nodes)
        → Does pfs op before result after
        → IsCache pfs before nodes
        → (last : Nodes) × (operate op nodes ≡ ok (result, last)) × IsCache pfs after last
    unfolding mount_path mount mount_fs
    operate_lem _ mounts _ _ nodes (opens names path _ result spelled e) cache =
        let (last, opened, valid) =
          node_to_open_lem pfs_child pfs by_hash mounts names path nodes spelled cache in
        (last, opened ∙ ap (λ r. ok (r, last)) (sym e), valid)
    operate_lem _ mounts _ _ nodes
          (mounts_fs names path fstype dev _ after fs old pn spelled resolved made mounted e)
          cache =
        let (n, mid, looked_up, valid, at_top) =
          mount_point names path mounts old nodes spelled resolved cache in
        (
          remount mid n pn,
          rw (looked_up, made, mount_fs, mounted) refl,
          subst (λ t. IsCache pfs t (remount mid n pn)) (sym e)
              (remount-IsCache pfs mounts mid (keys names) n pn valid at_top),
        )
    operate_lem _ mounts _ _ nodes
          (mounts_nothing names path fstype dev _ old spelled resolved made) cache =
        let (n, mid, looked_up, valid, at_top) =
          mount_point names path mounts old nodes spelled resolved cache in
        (mid, rw (looked_up, made) refl, valid)
    operate_lem _ mounts _ _ nodes
          (mount_fails names path fstype dev _ fs old spelled resolved made failed) cache =
        let (n, mid, looked_up, valid, at_top) =
          mount_point names path mounts old nodes spelled resolved cache in
        (mid, rw (looked_up, made, mount_fs, failed) refl, valid)

    -- Opens and mounts one after another give what they give on the table of mounts alone, where
    -- every open resolves its path anew: the nodes that lookups leave behind change no result. The
    -- file systems look children up by the hashes of their names, the paths are absolute, of components
    -- that are non-empty and have at most 255 characters, and a mount is at a path that resolves to
    -- something.
    pub operate_all_lem :
        (ops : List Operation) (before after : Mounts) (results : List (Option ℕ)) (nodes : Nodes)
        → DoesAll pfs ops before results after
        → IsCache pfs before nodes
        → (last : Nodes) × (operate_all ops nodes ≡ ok (results, last)) × IsCache pfs after last
    operate_all_lem _ before _ _ nodes (done _) cache = (nodes, refl, cache)
    operate_all_lem _ before after _ nodes (then_does op ops _ between _ result results first rest)
          cache =
        let (mid, now, valid) = operate_lem op before between result nodes first cache in
        let (last, later, valid') = operate_all_lem ops between after results mid rest valid in
        (last, rw (now, later) refl, valid')
