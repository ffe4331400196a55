-- ===== src/TarFs/Tree/Locating.antt =====
-- CourseWorks/coursework/tarfs.cpp: the loop over the components of an entry's name.
use inf3_os.Util.Equality.{same_list}
use inf3_os.Base.{
  ℕ, zero, suc, ◌<◌, ◌≡◌, refl, ap, ◌∙◌, Bool, true, false, ◌||◌, List, [], ◌∷◌, Option, none, some,
  ok, arith, if◌then◌else◌, ◌==◌, length,
}
use inf3_os.Util.Text.Hash.{compute_hash}
use inf3_os.Fs.Paths.{Spells, keys_below, next_component-Spells, next_component-ended}
use inf3_os.Fs.Forest.{reach}
use inf3_os.Fs.Listing.{Info, or_blank, passes}
use inf3_os.TarFs.Tree.{Heap, locate}
use inf3_os.TarFs.Tree.Nodes.{IsTree, node_at, view, IsVisited}
use inf3_os.TarFs.Tree.Growing.{child_or_new-IsVisited}

-- The way from a node along the names to another.
pub record IsLocated (heap grown : Heap) (above : List ℕ) (names : List (List ℕ)) (n : ℕ)
    : Type 0 where
  pub valid : IsTree grown
  pub at_end : node_at grown (keys_below above names) ≡ some n
  pub views :
      (q : List ℕ)
      → view grown q ≡ (if passes above names q then some (or_blank (view heap q)) else view heap q)

twice :
    (here below : Bool) (before between after : Option Info)
    → between ≡ (if here then some (or_blank before) else before)
    → after ≡ (if below then some (or_blank between) else between)
    → after ≡ (if here || below then some (or_blank before) else before)
twice true true before between after e h = h ∙ ap (λ o. some (or_blank o)) e
twice true false before between after e h = h ∙ e
twice false true before between after e h = h ∙ ap (λ o. some (or_blank o)) e
twice false false before between after e h = h ∙ e

-- A round with a name.
locate_round :
    (fuel : ℕ) (path above : List ℕ) (heap : Heap) (current : ℕ) (last_node : Option ℕ)
    (name : List ℕ) (names : List (List ℕ))
    → Spells (name ∷ names) path
    → IsTree heap
    → node_at heap above ≡ some current
    → (rest : List ℕ) × (grown : Heap) × (next : ℕ) × (locate (suc fuel) path heap current last_node
        ≡ locate fuel rest grown next (some next))
      × Spells names rest
      × IsVisited heap grown (compute_hash name ∷ above) next
unfolding locate
locate_round fuel path above heap current last_node name names spelled tree at_current =
    let (rest, read, spelled', valid) = next_component-Spells name names path spelled in
    let (next, grown, stepped, visited) =
      child_or_new-IsVisited heap above current name tree at_current in
    let not_empty : (length name == 0) ≡ false = ground (arith, valid.named) in
    (rest, grown, next, rw (read, not_empty, stepped) refl, spelled', visited)

pub locate-IsLocated :
    (names : List (List ℕ)) (fuel : ℕ) (path above : List ℕ) (heap : Heap) (current : ℕ)
    → Spells names path
    → length names < fuel
    → IsTree heap
    → node_at heap above ≡ some current
    → (grown : Heap) × (n : ℕ) × (locate fuel path heap current (some current) ≡ ok (grown, some n))
      × IsLocated heap grown above names n
unfolding keys_below locate
locate-IsLocated names zero path above heap current spelled enough tree at_current =
    absurd (omega arith)
locate-IsLocated [] (suc fuel) path above heap current spelled enough tree at_current =
    let (rest, read) = next_component-ended path spelled in
    (heap, current, rw read refl, record { valid = tree; at_end = at_current; views = λ q. refl })
locate-IsLocated (name ∷ names) (suc fuel) path above heap current spelled enough tree at_current =
    let (rest, mid, next, stepped, spelled', visited) =
      locate_round fuel path above heap current (some current) name names spelled tree at_current in
    let (grown, n, done, located) =
      locate-IsLocated names fuel rest (compute_hash name ∷ above) mid next spelled' (omega arith)
        visited.valid visited.at_next in
    (
      grown,
      n,
      stepped ∙ done,
      record {
        valid = located.valid;
        at_end = located.at_end;
        views = λ q.
            twice (same_list q (compute_hash name ∷ above))
              (passes (compute_hash name ∷ above) names q) (view heap q) (view mid q) (view grown q)
              (visited.views q) (located.views q);
      },
    )

-- From the root, with no node seen yet: a name that is not empty leads to a node.
pub locate_start :
    (name : List ℕ) (names : List (List ℕ)) (fuel : ℕ) (path : List ℕ) (heap : Heap)
    → Spells (name ∷ names) path
    → suc (length names) < fuel
    → IsTree heap
    → (grown : Heap) × (n : ℕ) × (locate fuel path heap 0 none ≡ ok (grown, some n))
      × IsLocated heap grown [] (name ∷ names) n
unfolding keys_below reach
locate_start name names zero path heap spelled enough tree = absurd (omega arith)
locate_start name names (suc fuel) path heap spelled enough tree =
    let (rest, mid, next, stepped, spelled', visited) =
      locate_round fuel path [] heap 0 none name names spelled tree refl in
    let (grown, n, done, located) =
      locate-IsLocated names fuel rest (compute_hash name ∷ []) mid next spelled' (omega arith)
        visited.valid visited.at_next in
    (
      grown,
      n,
      stepped ∙ done,
      record {
        valid = located.valid;
        at_end = located.at_end;
        views = λ q.
            twice (same_list q (compute_hash name ∷ [])) (passes (compute_hash name ∷ []) names q)
              (view heap q) (view mid q) (view grown q) (visited.views q) (located.views q);
      },
    )
