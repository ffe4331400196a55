-- ===== src/Fs/Vfs/Caching.antt =====
-- CourseWorks/infos/fs/vfs-node.cpp: `get_child`, which makes the nodes that it has not seen.
use inf3_os.Base.{
  ℕ, ◌<◌, ◌≡◌, ◌≢◌, refl, sym, ap, ◌∙◌, subst, false, List, ◌∷◌, Option, none, some, ◌==◌, ==_refl,
  arith, some_inj,
}
use native.Mathlib.Decide.{ℕ_discrete}
use mathlib.Core.List.{List-discrete}
use inf3_os.Util.Map.{Map, try_get_value}
use inf3_os.Util.Map.Adding.{IsMap, IsAdded}
use inf3_os.Util.Text.Hash.{compute_hash}
use inf3_os.Fs.Forest.{reach, reach_low, reach_new, reach_others, IsForest, IsGrown, grown-IsForest}
use inf3_os.Fs.Growing.{links, IsExtended, extended-IsMap, extended-IsGrown}
use inf3_os.Fs.Vfs.{VfsNode, Nodes, put, fresh_node, new_node}
use inf3_os.Fs.Vfs.Resolving.{Mounts, resolve}

abbrev pub maps_of : Nodes → ℕ → Map ℕ
maps_of nodes n = (nodes.at n).children

abbrev pub node_at : Nodes → List ℕ → Option ℕ
node_at nodes path = reach (links (maps_of nodes)) 0 path

-- The nodes remember what the table of mounts says: a node stands for what its path resolves to,
-- and where there is no node yet nothing is mounted.
pub record IsCache (pfs : ℕ → ℕ → Option ℕ) (mounts : Mounts) (nodes : Nodes) : Type 0 where
  pub maps : (n : ℕ) → IsMap (maps_of nodes n)
  pub forest : IsForest (links (maps_of nodes)) 0 nodes.counter
  pub resolved :
      (path : List ℕ) (n : ℕ)
      → node_at nodes path ≡ some n
      → (pn : ℕ) × ((nodes.at n).pn ≡ some pn) × (resolve pfs mounts path ≡ some pn)
  pub kept : (path : List ℕ) → node_at nodes path ≡ none → mounts path ≡ none

-- What a lookup finds, NULL or a node.
abbrev pub pn_of : Nodes → Option ℕ → Option ℕ
pn_of nodes none = none
pn_of nodes (some n) = (nodes.at n).pn

module _ (pfs : ℕ → ℕ → Option ℕ) (mounts : Mounts) (nodes : Nodes) (path : List ℕ) (n assoc : ℕ)
    (name : List ℕ) (cache : IsCache pfs mounts nodes) (at_n : node_at nodes path ≡ some n)
    (absent : try_get_value (nodes.at n).children (compute_hash name) ≡ none)
    (resolves : resolve pfs mounts (compute_hash name ∷ path) ≡ some assoc) (children : Map ℕ)
    (added : IsAdded (nodes.at n).children children (compute_hash name) nodes.counter) where
  abbrev pub grown : Nodes
  grown =
      let made = new_node nodes n assoc in put made n (record (made.at n) { children = children })

  n_low : n < nodes.counter
  n_low = reach_low (links (maps_of nodes)) 0 nodes.counter cache.forest path n at_n

  at_parent : grown.at n ≡ record (nodes.at n) { children = children }
  unfolding new_node
  at_parent =
      let old : (n == nodes.counter) ≡ false = ground (arith, n_low) in rw (==_refl n, old) refl

  at_new : grown.at nodes.counter ≡ fresh_node n assoc
  unfolding new_node
  at_new =
      let new : (nodes.counter == n) ≡ false = ground (arith, n_low) in
      rw (new, ==_refl nodes.counter) refl

  at_other : (m : ℕ) → m ≢ n → m ≢ nodes.counter → grown.at m ≡ nodes.at m
  unfolding new_node
  at_other m a b =
      let old : (m == n) ≡ false = ground (arith, a) in
      let old' : (m == nodes.counter) ≡ false = ground (arith, b) in rw (old, old') refl

  pn_kept : (m : ℕ) → m < nodes.counter → (grown.at m).pn ≡ (nodes.at m).pn
  pn_kept m low = elim (ℕ_discrete m n) [
    | yes e ↦
        ap (λ k. VfsNode.pn (grown.at k)) e
        ∙ ap VfsNode.pn at_parent
        ∙ ap (λ k. VfsNode.pn (nodes.at k)) (sym e)
    | no a ↦ ap VfsNode.pn (at_other m a (λ e. omega arith))
  ]

  grown-IsExtended : IsExtended (maps_of nodes) (maps_of grown) n (compute_hash name) nodes.counter
  grown-IsExtended = record {
    added =
        subst (λ (m : Map ℕ). IsAdded (nodes.at n).children m (compute_hash name) nodes.counter)
          (sym (ap VfsNode.children at_parent)) added;
    fresh = ap VfsNode.children at_new;
    others = λ m a b. ap VfsNode.children (at_other m a b);
  }

  links_after :
      IsGrown (links (maps_of nodes)) (links (maps_of grown)) n (compute_hash name) nodes.counter
  links_after =
      extended-IsGrown (maps_of nodes) (maps_of grown) n (compute_hash name) nodes.counter
        grown-IsExtended cache.forest

  pub there : node_at grown (compute_hash name ∷ path) ≡ some nodes.counter
  there =
      reach_new (links (maps_of nodes)) (links (maps_of grown)) 0 nodes.counter n
        (compute_hash name) cache.forest links_after n_low path at_n absent

  elsewhere : (q : List ℕ) → q ≢ (compute_hash name ∷ path) → node_at grown q ≡ node_at nodes q
  elsewhere =
      reach_others (links (maps_of nodes)) (links (maps_of grown)) 0 nodes.counter n
        (compute_hash name) cache.forest links_after n_low path at_n absent

  pub grown-IsCache : IsCache pfs mounts grown
  unfolding new_node
  grown-IsCache = record {
    maps =
        extended-IsMap (maps_of nodes) (maps_of grown) n (compute_hash name) nodes.counter
          grown-IsExtended cache.maps;
    forest =
        grown-IsForest (links (maps_of nodes)) (links (maps_of grown)) 0 nodes.counter n
          (compute_hash name) cache.forest links_after n_low;
    resolved = λ q m h. elim (List-discrete ℕ_discrete q (compute_hash name ∷ path)) [
      | yes e ↦
          let same : m ≡ nodes.counter = some_inj (sym h ∙ ap (node_at grown) e ∙ there) in
          (
            assoc,
            ap (λ k. VfsNode.pn (grown.at k)) same ∙ ap VfsNode.pn at_new,
            ap (resolve pfs mounts) e ∙ resolves,
          )
      | no other ↦
          let before : node_at nodes q ≡ some m = sym (elsewhere q other) ∙ h in
          let (pn, shown, resolved) = cache.resolved q m before in
          (
            pn,
            pn_kept m (reach_low (links (maps_of nodes)) 0 nodes.counter cache.forest q m before)
                ∙ shown,
            resolved,
          )
    ];
    kept = λ q h. elim (List-discrete ℕ_discrete q (compute_hash name ∷ path)) [
      | yes e ↦ let bad = sym h ∙ ap (node_at grown) e ∙ there in cc
      | no other ↦ cache.kept q (sym (elsewhere q other) ∙ h)
    ];
  }
