-- ===== src/Fs/Vfs.antt =====
-- CourseWorks/infos/fs/vfs.cpp and vfs-node.cpp: the virtual file system, whose nodes remember the
-- nodes of the file systems that they have been looked up in. The file systems are parameters: the
-- children of their nodes, their creation functions and their `mount`. A node stands at a number in
-- a heap, and so does a `PFSNode` in its file system.
pub mod Resolving
pub mod Caching
pub mod Walking
pub mod Mounting
pub mod Starting
pub mod History
mod Tests
use mathlib.Core.Option
use inf3_os.Base.{
  ℕ, zero, suc, Bool, true, false, not, ◌||◌, List, [], ◌∷◌, Option, none, some, Outcome, ok, panic,
  ◌>>=◌, ◌==◌, if◌then◌else◌, get_elem?, length,
}
use inf3_os.Util.Map
use inf3_os.Util.Map.{Map, try_get_value}
use inf3_os.Util.Text.{strncmp}
use inf3_os.Util.Text.Hash.{compute_hash}
use inf3_os.Fs.Paths.{next_component, slash}

pub record VfsNode : Type 0 where
  pub parent : Option ℕ
  pub pn : Option ℕ
  pub children : Map ℕ

pub record Nodes : Type 0 where
  pub counter : ℕ
  pub at : ℕ → VfsNode

abbrev pub put : Nodes → ℕ → VfsNode → Nodes
put nodes n node = record nodes { at = λ m. if m == n then node else nodes.at m }

-- `new VFSNode` at the first free place.
abbrev pub fresh_node : ℕ → ℕ → VfsNode
fresh_node parent pn = record { parent = some parent; pn = some pn; children = Map.new }

unfoldable pub new_node : Nodes → ℕ → ℕ → Nodes
new_node nodes parent pn = record (put nodes nodes.counter (fresh_node parent pn)) {
  counter = suc nodes.counter;
}

-- `VFSNode::VFSNode` and `_children.add` in `VFSNode::get_child`.
unfoldable pub add_child : Nodes → ℕ → List ℕ → ℕ → Outcome Nodes
add_child nodes n name assoc = do
  let made = new_node nodes n assoc
  children ← Map.add (made.at n).children (compute_hash name) nodes.counter
  ok (put made n (record (made.at n) { children = children }))

-- `PFSNode::get_child` of the file systems.
module _ (pfs_child : ℕ → List ℕ → Option ℕ) where
  -- The part of `VFSNode::get_child` for a name that is not remembered.
  unfoldable pub new_child : Nodes → ℕ → ℕ → List ℕ → Outcome (Option ℕ × Nodes)
  new_child nodes n pn name = elim (pfs_child pn name) [
    | none ↦ ok (none, nodes)
    | some assoc ↦ do grown ← add_child nodes n name assoc; ok (some nodes.counter, grown)
  ]

  -- `VFSNode::get_child`.
  unfoldable pub get_child : Nodes → ℕ → List ℕ → Outcome (Option ℕ × Nodes)
  get_child nodes n name = elim (nodes.at n).pn [
    | none ↦ ok (none, nodes)
    | some pn ↦ elim (try_get_value (nodes.at n).children (compute_hash name)) [
      | some child ↦ ok (some child, nodes)
      | none ↦ new_child nodes n pn name
    ]
  ]

  -- The loop of `lookup_node`: each round takes a byte of the path at least.
  unfoldable pub lookup_loop : ℕ → List ℕ → Nodes → ℕ → Outcome (Option ℕ × Nodes)
  lookup_loop zero path nodes current = panic
  lookup_loop (suc fuel) path nodes current = do
    (component, rest) ← next_component path
    (let more : Outcome (Option ℕ × Nodes) = (do
      (child, after) ← get_child nodes current component
      (let deeper : Outcome (Option ℕ × Nodes) = elim child [
        | none ↦ ok (none, after)
        | some n ↦ lookup_loop fuel rest after n
      ] in
          deeper)) in
        if length component == 0 then ok (some current, nodes) else more)

  -- `lookup_node`; the root is the node 0, and `none` is NULL.
  unfoldable pub lookup_node : List ℕ → Nodes → Outcome (Option ℕ × Nodes)
  lookup_node [] nodes = panic
  lookup_node (first ∷ path) nodes =
      let walked = lookup_loop (length path) path nodes 0 in
      let absolute : Outcome (Option ℕ × Nodes) = elim path [
        | [] ↦ panic
        | second ∷ _ ↦ if second == 0 then ok (some 0, nodes) else walked
      ] in
      if first == 0 || not (first == slash) then ok (none, nodes) else absolute

  -- `VirtualFilesystem::open` up to the call of `PFSNode::open`: the node that is opened.
  unfoldable pub node_to_open : List ℕ → Nodes → Outcome (Option ℕ × Nodes)
  node_to_open path nodes = do
    (found, after) ← lookup_node path nodes
    (let pn : Option ℕ = elim found [ none ↦ none | some n ↦ (after.at n).pn ] in ok (pn, after))

-- A file system that can be created: its name in a buffer, and its creation function from a device,
-- where a file system is a number.
pub record FilesystemRegistration : Type 0 where
  pub name : List ℕ
  pub creation_fn : Option ℕ → Option ℕ

-- `lookup_fs`.
unfoldable pub lookup_fs :
    List FilesystemRegistration → List ℕ → Outcome (Option FilesystemRegistration)
lookup_fs [] fstype = ok none
lookup_fs (reg ∷ filesystems) fstype =
    let rest = lookup_fs filesystems fstype in
    do same ← strncmp reg.name fstype 16; if same then ok (some reg) else rest

-- `instantiate_fs`, with which `VFSNode::mount` begins.
unfoldable pub instantiate_fs : List FilesystemRegistration → List ℕ → Option ℕ → Outcome (Option ℕ)
instantiate_fs filesystems fstype dev = do
  found ← lookup_fs filesystems fstype
  (let made : Option ℕ = elim found [ none ↦ none | some reg ↦ reg.creation_fn dev ] in ok made)

-- `_pn = pn` and `_children.clear()`.
unfoldable pub remount : Nodes → ℕ → ℕ → Nodes
remount nodes n pn =
    put nodes n (record (nodes.at n) { pn = some pn; children = Map.clear (nodes.at n).children })

-- The end of `VFSNode::mount`: the file system, or NULL where its `mount` gives no node.
unfoldable pub mount_fs : (ℕ → Option ℕ) → Nodes → ℕ → ℕ → Option ℕ × Nodes
mount_fs fs_mount nodes n fs = elim (fs_mount fs) [
  | none ↦ (none, nodes)
  | some pn ↦ (some fs, remount nodes n pn)
]

-- `VFSNode::mount`.
unfoldable pub mount :
    List FilesystemRegistration
    → (ℕ → Option ℕ)
    → Nodes
    → ℕ
    → List ℕ
    → Option ℕ
    → Outcome (Option ℕ × Nodes)
mount filesystems fs_mount nodes n fstype dev = do
  made ← instantiate_fs filesystems fstype dev
  (let done : Option ℕ × Nodes = elim made [
    | none ↦ (none, nodes)
    | some fs ↦ mount_fs fs_mount nodes n fs
  ] in
      ok done)

-- The nodes with a root only, `new VFSNode(NULL, rootfs_pn)`.
abbrev pub root_node : ℕ → Nodes
root_node pn = record {
  counter = 1;
  at = λ n. record { parent = none; pn = some pn; children = Map.new };
}

abbrev pub rootfs_name : List ℕ
rootfs_name = 114 ∷ 111 ∷ 111 ∷ 116 ∷ 102 ∷ 115 ∷ 0 ∷ []

-- `VirtualFilesystem::init` on the file systems that are registered; `none` is false. It follows
-- the pointer to the root file system without a test for NULL.
unfoldable pub init : List FilesystemRegistration → (ℕ → Option ℕ) → Outcome (Option Nodes)
init filesystems fs_mount = do
  rootfs ← instantiate_fs filesystems rootfs_name none
  (let made : Outcome (Option Nodes) = elim rootfs [
    | none ↦ panic
    | some fs ↦ ok (Option.map root_node (fs_mount fs))
  ] in
      made)
