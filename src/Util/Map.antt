-- ===== src/Util/Map.antt =====
-- CourseWorks/infos/include/infos/util/map.h: `Map`, a red-black tree, with numbers for keys. The
-- nodes are a tree; the parent pointers from a node up to the root are the frames of a path, the
-- nearest first. `_count` is an `unsigned int`, which wraps.
pub mod Entries
pub mod Sorted
pub mod Colours
pub mod Balancing
pub mod Adding
pub mod Effect
pub mod Iteration
mod Tests
use mathlib.Core.Option.{is_set}
use inf3_os.Base.{
  ℕ, zero, suc, ◌+◌, ◌%◌, Bool, true, false, List, [], ◌∷◌, Option, none, some, Outcome, ok, panic,
  ◌>>=◌, ltb, ◌==◌, if◌then◌else◌,
}
use mathlib.Core.Option
use inf3_os.Util.LinkedList
use inf3_os.Util.LinkedList.{LinkedList, incremented}

pub data Colour : Type 0 where
  red black : Colour

-- `MapNode`: its colour, its left child, key and value, and its right child; `leaf` is NULL.
pub data Tree (V : Type 0) : Type 0 where
  leaf : Tree V
  node : Colour → Tree V → ℕ → V → Tree V → Tree V

-- A parent without the child that the path comes from: its left one, or its right one.
pub data Frame (V : Type 0) : Type 0 where
  left_of : Colour → ℕ → V → Tree V → Frame V
  right_of : Colour → Tree V → ℕ → V → Frame V

pub record Map (V : Type 0) : Type 0 where
  pub root : Tree V
  pub counter : ℕ

module _ {V : Type 0} where
  abbrev pub is_red : Tree V → Bool
  is_red leaf = false
  is_red (node red l k v r) = true
  is_red (node black l k v r) = false

  abbrev pub is_red_frame : Frame V → Bool
  is_red_frame (left_of red k v r) = true
  is_red_frame (left_of black k v r) = false
  is_red_frame (right_of red l k v) = true
  is_red_frame (right_of black l k v) = false

  -- The other child of a parent.
  abbrev pub sibling : Frame V → Tree V
  sibling (left_of c k v r) = r
  sibling (right_of c l k v) = l

  -- A parent with the child that the path comes from.
  abbrev pub attach : Frame V → Tree V → Tree V
  attach (left_of c k v r) t = node c t k v r
  attach (right_of c l k v) t = node c l k v t

  -- The whole tree, from a node and its parents.
  unfoldable pub up_to_root : List (Frame V) → Tree V → Tree V
  up_to_root [] t = t
  up_to_root (f ∷ fs) t = up_to_root fs (attach f t)

  -- `Colour = …`, where the node is not NULL.
  abbrev pub paint : Colour → Tree V → Tree V
  paint colour leaf = leaf
  paint colour (node c l k v r) = node colour l k v r

  -- The rotations; `pivot` may not be NULL.
  unfoldable pub rotate_right : Tree V → Outcome (Tree V)
  rotate_right (node c (node c2 l k2 v2 m) k v r) = ok (node c2 l k2 v2 (node c m k v r))
  rotate_right (node c leaf k v r) = panic
  rotate_right leaf = panic

  unfoldable pub rotate_left : Tree V → Outcome (Tree V)
  rotate_left (node c l k v (node c2 m k2 v2 r)) = ok (node c2 (node c l k v m) k2 v2 r)
  rotate_left (node c l k v leaf) = panic
  rotate_left leaf = panic

  -- The inner `if` of the cases without a red uncle, from the parent `p` of `x` down.
  unfoldable pub lean_left : Frame V → Tree V → Outcome (Tree V)
  lean_left (right_of c l k v) x = rotate_left (node c l k v x)
  lean_left (left_of c k v r) x = ok (node c x k v r)

  unfoldable pub lean_right : Frame V → Tree V → Outcome (Tree V)
  lean_right (left_of c k v r) x = rotate_right (node c x k v r)
  lean_right (right_of c l k v) x = ok (node c l k v x)

  -- Those cases whole, for the grandparent `g`: the tree in its place.
  unfoldable pub turn : Frame V → Frame V → Tree V → Outcome (Tree V)
  turn p (left_of gc gk gv y) x = do
    child ← lean_left p x
    rotate_right (node red (paint black child) gk gv y)
  turn p (right_of gc y gk gv) x = do
    child ← lean_right p x
    rotate_left (node red y gk gv (paint black child))

  -- The grandparent after the case with a red uncle.
  unfoldable pub recolour : Frame V → Frame V → Tree V → Tree V
  recolour p (left_of gc gk gv y) x = node red (paint black (attach p x)) gk gv (paint black y)
  recolour p (right_of gc y gk gv) x = node red (paint black y) gk gv (paint black (attach p x))

  -- The loop of `rebalance_insert` from the node `x` on: the whole tree after it. After a rotation
  -- the parent of the new `x` is black, so the loop ends there. A red root has no grandparent.
  unfoldable pub rebalance_loop : List (Frame V) → Tree V → Outcome (Tree V)
  rebalance_loop [] x = ok x
  rebalance_loop (p ∷ []) x = if is_red_frame p then panic else ok (attach p x)
  rebalance_loop (p ∷ g ∷ rest) x =
      let higher = rebalance_loop rest (recolour p g x) in
      let turned = turn p g x >>= (λ t. ok (up_to_root rest t)) in
      if is_red_frame p
      then if is_red (sibling g) then higher else turned
      else ok (up_to_root (p ∷ g ∷ rest) x)

  -- `rebalance_insert` of a new red node without children.
  unfoldable pub rebalance_insert : List (Frame V) → Tree V → Outcome (Tree V)
  rebalance_insert path x = do balanced ← rebalance_loop path x; ok (paint black balanced)

  -- The walk of `add` from a node with its parents: to the node that has the key, or on to the empty
  -- place where the new node goes.
  unfoldable pub descend : ℕ → Tree V → List (Frame V) → Tree V × List (Frame V)
  descend key leaf path = (leaf, path)
  descend key (node c l k v r) path =
      let to_left = descend key l (left_of c k v r ∷ path) in
      let to_right = descend key r (right_of c l k v ∷ path) in
      if ltb key k then to_left else if ltb k key then to_right else (node c l k v r, path)

  -- The end of `add`, at the place that the walk found.
  unfoldable pub add_at : Map V → ℕ → V → Tree V → List (Frame V) → Outcome (Map V)
  add_at m key value (node c l k v r) path =
      ok (record m { root = up_to_root path (node c l k value r) })
  add_at m key value leaf [] =
      ok (record { root = node black leaf key value leaf; counter = incremented m.counter })
  add_at m key value leaf (p ∷ path) = do
    root ← rebalance_insert (p ∷ path) (node red leaf key value leaf)
    ok (record { root = root; counter = incremented m.counter })

  unfoldable pub add : Map V → ℕ → V → Outcome (Map V)
  add m key value = let (place, path) = descend key m.root [] in add_at m key value place path

  -- The loop of `try_get_value`; that of `contains_key` is the same without the value.
  unfoldable pub find : ℕ → Tree V → Option V
  find key leaf = none
  find key (node c l k v r) =
      let to_left = find key l in
      let to_right = find key r in
      if ltb key k then to_left else if ltb k key then to_right else some v

  unfoldable pub try_get_value : Map V → ℕ → Option V
  try_get_value m key = find key m.root

  unfoldable pub contains_key : Map V → ℕ → Bool
  contains_key m key = elim (find key m.root) [ none ↦ false | some _ ↦ true ]

  abbrev pub new : Map V
  new = record { root = leaf; counter = 0 }

  unfoldable pub clear : Map V → Map V
  clear m = new

  unfoldable pub count : Map V → ℕ
  count m = m.counter

  -- A child that is not NULL goes into the iterator's queue.
  abbrev pub enqueue_child : LinkedList (Tree V) → Tree V → LinkedList (Tree V)
  enqueue_child queue leaf = queue
  enqueue_child queue (node c l k v r) = LinkedList.enqueue queue (node c l k v r)

  abbrev pub enqueue_children : LinkedList (Tree V) → Tree V → LinkedList (Tree V)
  enqueue_children queue leaf = queue
  enqueue_children queue (node c l k v r) = enqueue_child (enqueue_child queue l) r

  -- `MapIterator::advance`: the current node, NULL at the end, and the queue.
  unfoldable pub advance : LinkedList (Tree V) → Outcome (Tree V × LinkedList (Tree V))
  advance queue =
      let next = do
        (current, rest) ← LinkedList.dequeue queue
        ok (current, enqueue_children rest current)
      in if LinkedList.empty queue then ok (leaf, queue) else next

  -- One round of a loop from `begin` to `end`, before the rest of it.
  unfoldable pub seen_before :
      Tree V → Outcome (Option (List (ℕ × V))) → Outcome (Option (List (ℕ × V)))
  seen_before leaf more = ok (some [])
  seen_before (node c l k v r) more = more >>= (λ out. ok (Option.map (◌∷◌ (k, v)) out))

  -- The entries that the loop sees. `none` where the fuel is used up.
  unfoldable pub walk : ℕ → LinkedList (Tree V) → Outcome (Option (List (ℕ × V)))
  walk zero queue = ok none
  walk (suc fuel) queue = do (current, rest) ← advance queue; seen_before current (walk fuel rest)

  unfoldable pub iterate : ℕ → Map V → Outcome (Option (List (ℕ × V)))
  iterate fuel m = walk fuel (enqueue_child LinkedList.new m.root)
