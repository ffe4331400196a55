-- ===== src/TarFs/Tree/Nodes.antt =====
-- CourseWorks/coursework/tarfs.cpp: the heap of a tree stays a forest of valid maps.
use inf3_os.Util.Equality.{same_list, same_list-eq, same_list-ne}
use inf3_os.Base.{
  ℕ, ◌≡◌, ◌≢◌, refl, sym, ap, ◌∙◌, List, ◌∷◌, Option, none, some, if◌then◌else◌, Bool-cases, inl,
  inr,
}
use mathlib.Core.Option
use inf3_os.Util.Map.{Map}
use inf3_os.Util.Map.Adding.{IsMap}
use inf3_os.Fs.Growing.{links}
use inf3_os.Fs.Forest.{Children, reach, IsForest}
use inf3_os.Fs.Listing.{Info, Listing, or_blank}
use inf3_os.TarFs.Tree.{TarFsNode, Heap}

abbrev pub maps_of : Heap → ℕ → Map ℕ
maps_of heap n = (heap.at n).children

abbrev pub children_of : Heap → Children
children_of heap = links (maps_of heap)

pub record IsTree (heap : Heap) : Type 0 where
  pub maps : (n : ℕ) → IsMap (maps_of heap n)
  pub forest : IsForest (children_of heap) 0 heap.counter

-- What a node shows.
abbrev pub shown : TarFsNode → Info
shown node = record {
  size = node.size;
  block = if node.has_block_offset then some node.block_offset else none;
}

-- The listing of a heap.
abbrev pub node_at : Heap → List ℕ → Option ℕ
node_at heap path = reach (children_of heap) 0 path

abbrev pub show : Heap → Option ℕ → Option Info
show heap found = Option.map (λ n. shown (heap.at n)) found

abbrev pub view : Heap → Listing
view heap path = show heap (node_at heap path)

-- A listing in which a path leads somewhere.
abbrev pub visited : List ℕ → Listing → Listing
visited path listing q = if same_list q path then some (or_blank (listing q)) else listing q

-- What one round of the loop over the components leaves.
pub record IsVisited (heap grown : Heap) (path : List ℕ) (next : ℕ) : Type 0 where
  pub valid : IsTree grown
  pub at_next : node_at grown path ≡ some next
  pub views : (q : List ℕ) → view grown q ≡ visited path (view heap) q

-- The listing at two paths that a test tells apart.
pub visited_cases :
    (heap grown : Heap) (path : List ℕ)
    → ((q : List ℕ) → q ≡ path → view grown q ≡ some (or_blank (view heap q)))
    → ((q : List ℕ) → q ≢ path → view grown q ≡ view heap q)
    → (q : List ℕ) → view grown q ≡ visited path (view heap) q
visited_cases heap grown path here there q = elim (Bool-cases (same_list q path)) [
  | inl same ↦ rw same (here q (same_list-eq q path same))
  | inr other ↦ rw other (there q (same_list-ne q path other))
]

pub viewed_node :
    (heap : Heap) (path : List ℕ) (n : ℕ)
    → node_at heap path ≡ some n
    → view heap path ≡ some (shown (heap.at n))
viewed_node heap path n h = ap (show heap) h

-- The child is there.
pub child_there :
    (heap : Heap) (path : List ℕ) (key next : ℕ)
    → IsTree heap
    → node_at heap (key ∷ path) ≡ some next
    → IsVisited heap heap (key ∷ path) next
child_there heap path key next tree there = record {
  valid = tree;
  at_next = there;
  views =
      visited_cases heap heap (key ∷ path)
        (λ q e.
          let found : view heap q ≡ some (shown (heap.at next)) =
            viewed_node heap q next (ap (node_at heap) e ∙ there) in
          found ∙ ap (λ o. some (or_blank o)) (sym found))
        (λ q e. refl);
}
