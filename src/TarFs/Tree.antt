-- ===== src/TarFs/Tree.antt =====
-- CourseWorks/coursework/tarfs.cpp and tarfs.h: the tree of nodes that `build_tree` makes from the
-- headers of an archive. A node stands at a number in a heap, where the pointers to it point. The
-- header is read as the whole block: `head` is shorter, and the block goes on behind it.
pub mod Nodes
pub mod Growing
pub mod Locating
pub mod Placing
pub mod Archive
pub mod Building
pub mod Opening
mod Tests
use inf3_os.Base.{
  ℕ, zero, suc, ◌+◌, ◌-◌, ◌/◌, ◌%◌, ◌^◌, Bool, true, false, not, List, [], ◌∷◌, Option, none, some,
  Outcome, ok, panic, ◌>>=◌, ltb, ◌==◌, if◌then◌else◌, get_elem?, length,
}
use inf3_os.Util.LinkedList.{u32_mod}
use inf3_os.Util.Map
use inf3_os.Util.Map.{Map, try_get_value}
use inf3_os.Util.Text.Hash.{compute_hash}
use inf3_os.Fs.Paths.{next_component}
use inf3_os.TarFs.{BlockDevice, TarFile, octal2ui, blocks_needed, buffer_bytes}

-- A child is the number of its node; `none` is NULL.
pub record TarFsNode : Type 0 where
  pub parent : Option ℕ
  pub name : List ℕ
  pub children : Map ℕ
  pub size : ℕ
  pub has_block_offset : Bool
  pub block_offset : ℕ

pub record Heap : Type 0 where
  pub counter : ℕ
  pub at : ℕ → TarFsNode

abbrev pub fresh_node : Option ℕ → List ℕ → TarFsNode
fresh_node parent name = record {
  parent = parent;
  name = name;
  children = Map.new;
  size = 0;
  has_block_offset = false;
  block_offset = 0;
}

-- The heap with another node at a place.
abbrev pub put : Heap → ℕ → TarFsNode → Heap
put heap n node = record heap { at = λ m. if m == n then node else heap.at m }

-- `new TarFSNode`: the node stands at the first free place.
unfoldable pub new_node : Heap → Option ℕ → List ℕ → Heap
new_node heap parent name = record (put heap heap.counter (fresh_node parent name)) {
  counter = suc heap.counter;
}

-- `TarFSNode::get_child`.
unfoldable pub get_child : Heap → ℕ → List ℕ → Option ℕ
get_child heap n name = try_get_value (heap.at n).children (compute_hash name)

-- `TarFSNode::add_child`.
unfoldable pub add_child : Heap → ℕ → List ℕ → ℕ → Outcome Heap
add_child heap n name child = do
  children ← Map.add (heap.at n).children (compute_hash name) child
  ok (put heap n (record (heap.at n) { children = children }))

-- `TarFSNode::size` and `TarFSNode::set_block_offset`.
unfoldable pub set_size : Heap → ℕ → ℕ → Heap
set_size heap n size = put heap n (record (heap.at n) { size = size })

unfoldable pub set_block_offset : Heap → ℕ → ℕ → Heap
set_block_offset heap n offset =
    put heap n (record (heap.at n) { has_block_offset = true; block_offset = offset })

-- The node that a component leads to from the current one, made where it is not there.
unfoldable pub child_or_new : Heap → ℕ → List ℕ → Outcome (ℕ × Heap)
child_or_new heap current component = elim (get_child heap current component) [
  | some next ↦ ok (next, heap)
  | none ↦ do
    grown ← add_child (new_node heap (some current) component) current component heap.counter
    ok (heap.counter, grown)
]

-- The `do` loop over the components of the name: the heap, and `last_node` if it has been set. Each
-- round takes a byte of the path at least, so that it ends within as many rounds as there are bytes.
unfoldable pub locate : ℕ → List ℕ → Heap → ℕ → Option ℕ → Outcome (Heap × Option ℕ)
locate zero path heap current last_node = panic
locate (suc fuel) path heap current last_node = do
  (component, rest) ← next_component path
  (let more = do
    (next, grown) ← child_or_new heap current component
    locate fuel rest grown next (some next)
    in if length component == 0 then ok (heap, last_node) else more)

-- The block at `block` from `index` on.
unfoldable pub block_from : BlockDevice → ℕ → ℕ → List ℕ
block_from device block index = buffer_bytes device block index (device.block_size - index)

-- The loop of `is_zero_block`, on the bytes of a buffer.
unfoldable pub is_zero : ℕ → List ℕ → Outcome Bool
is_zero zero buffer = ok true
is_zero (suc size) [] = panic
is_zero (suc size) (c ∷ buffer) =
    let rest = is_zero size buffer in if c == 0 then rest else ok false

unfoldable pub is_zero_block : BlockDevice → ℕ → Outcome Bool
is_zero_block device offset = is_zero 512 (block_from device offset 0)

-- `head.typeflag != '5'`.
unfoldable pub has_contents : BlockDevice → ℕ → Outcome Bool
has_contents device offset = elim (get_elem? (block_from device offset 0) 156) [
  | none ↦ panic
  | some typeflag ↦ ok (not (typeflag == 53))
]

-- What is left of the round with the header at `offset`: the tree with the node that it describes.
unfoldable pub place_entry : BlockDevice → ℕ → ℕ → Heap → Outcome Heap
place_entry device offset size heap = do
  (grown, last_node) ← locate device.block_size (block_from device offset 0) heap 0 none
  contents ← has_contents device offset
  elim last_node [
    | none ↦ panic
    | some n ↦
        let sized = set_size grown n size in
        ok (if contents then set_block_offset sized n offset else sized)
  ]

pub record BuildState : Type 0 where
  pub offset : ℕ
  pub zero_seen : Bool
  pub heap : Heap

-- `offset += …` on an `int`.
abbrev pub int_max : ℕ
int_max = 2 ^ 31

abbrev pub advanced : ℕ → ℕ → Outcome ℕ
advanced offset count = if ltb (offset + count) int_max then ok (offset + count) else panic

-- A header that is not zero.
unfoldable pub add_entry : BlockDevice → BuildState → Outcome BuildState
add_entry device s = do
  size ← octal2ui (block_from device s.offset 124)
  heap ← place_entry device s.offset size s.heap
  offset ← advanced s.offset (1 + blocks_needed device.block_size size)
  ok (record { offset = offset; zero_seen = false; heap = heap })

-- A header that is zero: `none` leaves the loop.
unfoldable pub skip_zero : BuildState → Outcome (Option BuildState)
skip_zero s =
    let moved = do
      offset ← advanced s.offset 1
      ok (some (record s { offset = offset; zero_seen = true }))
    in if s.zero_seen then ok none else moved

-- A round of the loop, its test included.
unfoldable pub build_round : BlockDevice → BuildState → Outcome (Option BuildState)
build_round device s =
    let body = do
      zero_block ← is_zero_block device s.offset
      (let added = add_entry device s >>= (λ after. ok (some after)) in
          if zero_block then skip_zero s else added)
    in if ltb s.offset device.block_count then body else ok none

-- The loop; `none` where the fuel is used up.
unfoldable pub build_loop : ℕ → BlockDevice → BuildState → Outcome (Option Heap)
build_loop zero device s = ok none
build_loop (suc fuel) device s = do
  next ← build_round device s
  elim next [ none ↦ ok (some s.heap) | some after ↦ build_loop fuel device after ]

abbrev pub only_root : Heap
only_root = record { counter = 1; at = λ n. fresh_node none [] }

-- `TarFS::build_tree`: the heap with the tree, whose root is the node 0. The offset goes up by one at
-- least in each round.
unfoldable pub build_tree : BlockDevice → Outcome (Option Heap)
build_tree device =
    build_loop (suc device.block_count) device
      (record { offset = 0; zero_seen = false; heap = only_root })

-- `TarFSFile::TarFSFile`.
unfoldable pub new_file : BlockDevice → ℕ → TarFile
new_file device file_header_block = record {
  size_field = block_from device file_header_block 124;
  file_start_block = (file_header_block + 1) % u32_mod;
  cur_pos = 0;
}

-- `TarFSNode::open`.
unfoldable pub open_node : BlockDevice → Heap → ℕ → Option TarFile
open_node device heap n =
    if (heap.at n).has_block_offset then some (new_file device (heap.at n).block_offset) else none

-- From a node by `get_child` along names, and `open` there.
abbrev pub child_of : Heap → Option ℕ → List ℕ → Option ℕ
child_of heap none name = none
child_of heap (some n) name = get_child heap n name

unfoldable pub follow : Heap → Option ℕ → List (List ℕ) → Option ℕ
follow heap from [] = from
follow heap from (name ∷ names) = follow heap (child_of heap from name) names

unfoldable pub open_path : BlockDevice → Heap → List (List ℕ) → Option TarFile
open_path device heap names = elim (follow heap (some 0) names) [
  | none ↦ none
  | some n ↦ open_node device heap n
]

-- `TarFS::mount`: the tree is built at the first call; `none` stands for the NULL before.
unfoldable pub mount : BlockDevice → Option Heap → Outcome (Option Heap)
mount device none = build_tree device
mount device (some heap) = ok (some heap)
