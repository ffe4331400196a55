-- ===== src/TarFs/Tree/Growing.antt =====
-- CourseWorks/coursework/tarfs.cpp: the node of a component, which is made where it is missing.
use inf3_os.Base.{
  subst, ℕ, ◌<◌, ◌≡◌, ◌≢◌, refl, sym, ap, ◌∙◌, false, List, ◌∷◌, none, some, ok, arith, ◌==◌,
  ==_refl, Option-cases, inl, inr,
}
use native.Mathlib.Decide.{ℕ_discrete}
use inf3_os.Util.Map.{Map}
use inf3_os.Util.Map.Adding.{IsAdded}
use inf3_os.Util.Map.Effect.{add-IsAdded}
use inf3_os.Util.Text.Hash.{compute_hash}
use inf3_os.Fs.Growing.{IsExtended, extended-IsMap, extended-IsGrown}
use inf3_os.Fs.Forest.{reach_next, reach_low, IsGrown, grown-IsForest, reach_new, reach_others}
use inf3_os.Fs.Listing.{or_blank}
use inf3_os.TarFs.Tree.{
  TarFsNode, Heap, put, fresh_node, new_node, get_child, add_child, child_or_new,
}
use inf3_os.TarFs.Tree.Nodes.{
  maps_of, children_of, IsTree, shown, node_at, show, view, viewed_node, visited_cases, IsVisited,
  child_there,
}

module _ (heap : Heap) (path : List ℕ) (current : ℕ) (component : List ℕ) (tree : IsTree heap)
    (at_current : node_at heap path ≡ some current)
    (absent : get_child heap current component ≡ none) (children : Map ℕ)
    (added : IsAdded
      (heap.at current).children
      children
      (compute_hash component)
      heap.counter) where
  abbrev with_child : Heap
  with_child =
      let made = new_node heap (some current) component in
      put made current (record (made.at current) { children = children })

  current_low : current < heap.counter
  current_low = reach_low (children_of heap) 0 heap.counter tree.forest path current at_current

  at_parent : with_child.at current ≡ record (heap.at current) { children = children }
  unfolding new_node
  at_parent =
      let old : (current == heap.counter) ≡ false = ground (arith, current_low) in
      rw (==_refl current, old) refl

  at_new : with_child.at heap.counter ≡ fresh_node (some current) component
  unfolding new_node
  at_new =
      let new : (heap.counter == current) ≡ false = ground (arith, current_low) in
      rw (new, ==_refl heap.counter) refl

  at_other : (n : ℕ) → n ≢ current → n ≢ heap.counter → with_child.at n ≡ heap.at n
  unfolding new_node
  at_other n a b =
      let old : (n == current) ≡ false = ground (arith, a) in
      let old' : (n == heap.counter) ≡ false = ground (arith, b) in rw (old, old') refl

  with_child-IsExtended :
      IsExtended (maps_of heap) (maps_of with_child) current (compute_hash component) heap.counter
  with_child-IsExtended = record {
    added =
        subst
          (λ (m : Map ℕ).
            IsAdded (heap.at current).children m (compute_hash component) heap.counter)
          (sym (ap TarFsNode.children at_parent)) added;
    fresh = ap TarFsNode.children at_new;
    others = λ n a b. ap TarFsNode.children (at_other n a b);
  }

  with_child-IsGrown :
      IsGrown
        (children_of heap)
        (children_of with_child)
        current
        (compute_hash component)
        heap.counter
  with_child-IsGrown =
      extended-IsGrown (maps_of heap) (maps_of with_child) current (compute_hash component)
        heap.counter with_child-IsExtended tree.forest

  with_child-IsTree : IsTree with_child
  unfolding new_node
  with_child-IsTree = record {
    maps =
        extended-IsMap (maps_of heap) (maps_of with_child) current (compute_hash component)
          heap.counter with_child-IsExtended tree.maps;
    forest =
        grown-IsForest (children_of heap) (children_of with_child) 0 heap.counter current
          (compute_hash component) tree.forest with_child-IsGrown current_low;
  }

  shown_before : (n : ℕ) → n < heap.counter → shown (with_child.at n) ≡ shown (heap.at n)
  shown_before n low = elim (ℕ_discrete n current) [
    | yes e ↦
        ap (λ m. shown (with_child.at m)) e
        ∙ ap shown at_parent
        ∙ ap (λ m. shown (heap.at m)) (sym e)
    | no a ↦ ap shown (at_other n a (λ e. omega arith))
  ]

  abbrev longer : List ℕ
  longer = compute_hash component ∷ path

  with_child-IsVisited : IsVisited heap with_child longer heap.counter
  unfolding get_child
  with_child-IsVisited = record {
    valid = with_child-IsTree;
    at_next = there;
    views =
        visited_cases heap with_child longer
          (λ q e.
            ap (view with_child) e
            ∙ viewed_node with_child longer heap.counter there
            ∙ ap (λ node. some (shown node)) at_new
            ∙ ap (λ o. some (or_blank (show heap o))) (sym nowhere)
            ∙ ap (λ p. some (or_blank (view heap p))) (sym e))
          (λ q other. elim (Option-cases (node_at heap q)) [
            | inl h ↦ ap (show with_child) (elsewhere q other ∙ h) ∙ ap (show heap) (sym h)
            | inr (n, h) ↦
                ap (show with_child) (elsewhere q other ∙ h)
                ∙ ap some
                    (shown_before n (reach_low (children_of heap) 0 heap.counter tree.forest q n h))
                ∙ ap (show heap) (sym h)
          ]);
  }
    where
      there : node_at with_child longer ≡ some heap.counter
      there =
          reach_new (children_of heap) (children_of with_child) 0 heap.counter current
            (compute_hash component) tree.forest with_child-IsGrown current_low path at_current
            absent

      nowhere : node_at heap longer ≡ none
      nowhere =
          reach_next (children_of heap) 0 (compute_hash component) current path at_current ∙ absent

      elsewhere : (q : List ℕ) → q ≢ longer → node_at with_child q ≡ node_at heap q
      elsewhere =
          reach_others (children_of heap) (children_of with_child) 0 heap.counter current
            (compute_hash component) tree.forest with_child-IsGrown current_low path at_current
            absent

old_node :
    (heap : Heap) (path : List ℕ) (current : ℕ) (component : List ℕ)
    → IsTree heap
    → node_at heap path ≡ some current
    → (new_node heap (some current) component).at current ≡ heap.at current
unfolding new_node
old_node heap path current component tree at_current =
    let low = reach_low (children_of heap) 0 heap.counter tree.forest path current at_current in
    let old : (current == heap.counter) ≡ false = ground (arith, low) in rw old refl

-- The component is followed, and its node made where it is missing.
pub child_or_new-IsVisited :
    (heap : Heap) (path : List ℕ) (current : ℕ) (component : List ℕ)
    → IsTree heap
    → node_at heap path ≡ some current
    → (next : ℕ) × (grown : Heap) × (child_or_new heap current component ≡ ok (next, grown))
      × IsVisited heap grown (compute_hash component ∷ path) next
unfolding child_or_new add_child
child_or_new-IsVisited heap path current component tree at_current =
    elim (Option-cases (get_child heap current component)) [
      | inr (next, found) ↦ (
        next,
        heap,
        rw (child_or_new, found) refl,
        child_there heap path (compute_hash component) next tree (
            reach_next (children_of heap) 0 (compute_hash component) current path at_current
            ∙ unfold get_child in found),
      )
      | inl absent ↦
          let (children, done, added) =
            add-IsAdded (heap.at current).children (compute_hash component) heap.counter
              (tree.maps current) in
          let same : (new_node heap (some current) component).at current ≡ heap.at current =
            old_node heap path current component tree at_current in
          let made : add_child (new_node heap (some current) component) current component
                heap.counter
              ≡ ok (with_child heap path current component tree at_current absent children added) =
            rw (ap TarFsNode.children same ∙ refl, done) refl in
          (
            heap.counter,
            with_child heap path current component tree at_current absent children added,
            rw (child_or_new, absent, made) refl,
            with_child-IsVisited heap path current component tree at_current absent children added,
          )
    ]
