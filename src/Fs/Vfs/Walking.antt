-- ===== src/Fs/Vfs/Walking.antt =====
-- CourseWorks/infos/fs/vfs.cpp and vfs-node.cpp: looking paths up.
use inf3_os.Base.{
  ℕ, zero, suc, ◌<◌, ◌≡◌, ◌≢◌, refl, sym, ap, ◌∙◌, false, List, [], ◌∷◌, ◌++◌, Option, none, some,
  ok, ◌==◌, Option-cases, inl, inr, arith, length,
}
use inf3_os.Util.Map.{try_get_value}
use inf3_os.Util.Map.Effect.{add-IsAdded}
use inf3_os.Util.Text.Hash.{compute_hash}
use inf3_os.Fs.Paths.{
  Spells, ended, slashed, last, keys, keys_below, next_component-Spells, next_component-ended,
  Spells-length, slash,
}
use inf3_os.Fs.Forest.{reach, reach_low, reach_next, step_to}
use inf3_os.Fs.Growing.{links}
use inf3_os.Fs.Vfs.{
  VfsNode, Nodes, new_node, add_child, new_child, get_child, lookup_loop, lookup_node, node_to_open,
}
use inf3_os.Fs.Vfs.Resolving.{Mounts, resolve, child_in}
use inf3_os.Fs.Vfs.Caching.{IsCache, maps_of, node_at, pn_of, grown, grown-IsCache, there}

-- What a lookup of a path leaves: the cache still says the same, and the node that was found stands
-- for what the path resolves to.
pub record IsFound (pfs : ℕ → ℕ → Option ℕ) (mounts : Mounts) (after : Nodes) (found : Option ℕ)
    (path : List ℕ) : Type 0 where
  pub valid : IsCache pfs mounts after
  pub at : node_at after path ≡ found
  pub pn : pn_of after found ≡ resolve pfs mounts path

old_node :
    (pfs : ℕ → ℕ → Option ℕ) (mounts : Mounts) (nodes : Nodes) (path : List ℕ) (n assoc : ℕ)
    → IsCache pfs mounts nodes
    → node_at nodes path ≡ some n
    → (new_node nodes n assoc).at n ≡ nodes.at n
unfolding new_node
old_node pfs mounts nodes path n assoc cache at_n =
    let low = reach_low (links (maps_of nodes)) 0 nodes.counter cache.forest path n at_n in
    let old : (n == nodes.counter) ≡ false = ground (arith, low) in rw old refl

stands_there :
    (pfs : ℕ → ℕ → Option ℕ) (mounts : Mounts) (nodes : Nodes) (path : List ℕ) (n : ℕ)
    → IsCache pfs mounts nodes
    → node_at nodes path ≡ some n
    → IsFound pfs mounts nodes (some n) path
stands_there pfs mounts nodes path n cache h =
    let (pn, shown, resolved) = cache.resolved path n h in
    record { valid = cache; at = h; pn = shown ∙ sym resolved }

-- Where there is no node, the path resolves to the child in the node above.
no_mount :
    (pfs : ℕ → ℕ → Option ℕ) (mounts : Mounts) (nodes : Nodes) (path : List ℕ) (key : ℕ)
    → IsCache pfs mounts nodes
    → node_at nodes (key ∷ path) ≡ none
    → resolve pfs mounts (key ∷ path) ≡ child_in pfs (resolve pfs mounts path) key
unfolding resolve
no_mount pfs mounts nodes path key cache h = rw (cache.kept (key ∷ path) h) refl

-- Nothing is further down from where nothing is.
nothing_below :
    (pfs : ℕ → ℕ → Option ℕ) (mounts : Mounts) (nodes : Nodes) (names : List (List ℕ))
    (path : List ℕ)
    → IsCache pfs mounts nodes
    → node_at nodes path ≡ none
    → resolve pfs mounts path ≡ none
    → (node_at nodes (keys_below path names) ≡ none)
      × (resolve pfs mounts (keys_below path names) ≡ none)
unfolding keys_below reach
nothing_below pfs mounts nodes [] path cache h g = (h, g)
nothing_below pfs mounts nodes (name ∷ names) path cache h g =
    let below : node_at nodes (compute_hash name ∷ path) ≡ none =
      ap (λ o. step_to (links (maps_of nodes)) o (compute_hash name)) h in
    nothing_below pfs mounts nodes names (compute_hash name ∷ path) cache below (
      no_mount pfs mounts nodes path (compute_hash name) cache below
      ∙ ap (λ o. child_in pfs o (compute_hash name)) g)

-- File systems that look the children of their nodes up by the hash of the name.
module _ (pfs_child : ℕ → List ℕ → Option ℕ) (pfs : ℕ → ℕ → Option ℕ)
    (by_hash : (pn : ℕ) (name : List ℕ) → pfs_child pn name ≡ pfs pn (compute_hash name))
    (mounts : Mounts) where
  new_child_lem :
      (nodes : Nodes) (path : List ℕ) (n pn : ℕ) (name : List ℕ)
      → IsCache pfs mounts nodes
      → node_at nodes path ≡ some n
      → resolve pfs mounts path ≡ some pn
      → try_get_value (nodes.at n).children (compute_hash name) ≡ none
      → (found : Option ℕ) × (after : Nodes) × (new_child pfs_child nodes n pn name
          ≡ ok (found, after))
        × IsFound pfs mounts after found (compute_hash name ∷ path)
  unfolding new_child add_child
  new_child_lem nodes path n pn name cache at_n resolved absent =
      let key = compute_hash name in
      let nowhere : node_at nodes (key ∷ path) ≡ none =
        reach_next (links (maps_of nodes)) 0 key n path at_n ∙ absent in
      let below : resolve pfs mounts (key ∷ path) ≡ pfs_child pn name =
        no_mount pfs mounts nodes path key cache nowhere
        ∙ ap (λ o. child_in pfs o key) resolved
        ∙ sym (by_hash pn name) in
      elim (Option-cases (pfs_child pn name)) [
        | inl h ↦ (
          none,
          nodes,
          rw (new_child, h) refl,
          record { valid = cache; at = nowhere; pn = sym (below ∙ h) },
        )
        | inr (assoc, h) ↦
            let (children, done, added) =
              add-IsAdded (nodes.at n).children key nodes.counter (cache.maps n) in
            let same : (new_node nodes n assoc).at n ≡ nodes.at n =
              old_node pfs mounts nodes path n assoc cache at_n in
            let after : Nodes =
              grown pfs mounts nodes path n assoc name cache at_n absent (below ∙ h) children
                added in
            let made : add_child nodes n name assoc ≡ ok after =
              rw (ap VfsNode.children same, done) refl in
            (
              some nodes.counter,
              after,
              rw (new_child, h, made) refl,
              stands_there pfs mounts after (key ∷ path) nodes.counter
                  (grown-IsCache pfs mounts nodes path n assoc name cache at_n absent (below ∙ h)
                    children added)
                  (there pfs mounts nodes path n assoc name cache at_n absent (below ∙ h) children
                    added),
            )
      ]

  pub get_child_lem :
      (nodes : Nodes) (path : List ℕ) (n : ℕ) (name : List ℕ)
      → IsCache pfs mounts nodes
      → node_at nodes path ≡ some n
      → (found : Option ℕ) × (after : Nodes) × (get_child pfs_child nodes n name
          ≡ ok (found, after))
        × IsFound pfs mounts after found (compute_hash name ∷ path)
  unfolding get_child
  get_child_lem nodes path n name cache at_n =
      let (pn, shown, resolved) = cache.resolved path n at_n in
      elim (Option-cases (try_get_value (nodes.at n).children (compute_hash name))) [
        | inr (child, h) ↦ (
          some child,
          nodes,
          rw (get_child, shown, h) refl,
          stands_there pfs mounts nodes (compute_hash name ∷ path) child cache
              (reach_next (links (maps_of nodes)) 0 (compute_hash name) n path at_n ∙ h),
        )
        | inl absent ↦
            let (found, after, made, is_found) =
              new_child_lem nodes path n pn name cache at_n resolved absent in
            (found, after, rw (get_child, shown, absent, made) refl, is_found)
      ]

  pub lookup_loop_lem :
      (names : List (List ℕ)) (fuel : ℕ) (path above : List ℕ) (nodes : Nodes) (n : ℕ)
      → Spells names path
      → length names < fuel
      → IsCache pfs mounts nodes
      → node_at nodes above ≡ some n
      → (found : Option ℕ) × (after : Nodes) × (lookup_loop pfs_child fuel path nodes n
          ≡ ok (found, after))
        × IsFound pfs mounts after found (keys_below above names)
  unfolding lookup_loop keys_below
  lookup_loop_lem names zero path above nodes n spelled enough cache at_n = absurd (omega arith)
  lookup_loop_lem [] (suc fuel) path above nodes n spelled enough cache at_n =
      let (rest, read) = next_component-ended path spelled in
      (some n, nodes, rw read refl, stands_there pfs mounts nodes above n cache at_n)
  lookup_loop_lem (name ∷ names) (suc fuel) path above nodes n spelled enough cache at_n =
      let (rest, read, spelled', valid) = next_component-Spells name names path spelled in
      let (found, mid, taken, is_found) = get_child_lem nodes above n name cache at_n in
      let not_empty : (length name == 0) ≡ false = ground (arith, valid.named) in
      elim (Option-cases found) [
        | inl nowhere ↦
            let (no_node, unresolved) =
              nothing_below pfs mounts mid names (compute_hash name ∷ above) is_found.valid
                (is_found.at ∙ nowhere) (sym is_found.pn ∙ ap (pn_of mid) nowhere) in
            (
              none,
              mid,
              rw (read, not_empty, taken, nowhere) refl,
              record { valid = is_found.valid; at = no_node; pn = sym unresolved },
            )
        | inr (m, h) ↦
            let (end, after, done, at_end) =
              lookup_loop_lem names fuel rest (compute_hash name ∷ above) mid m spelled'
                (omega arith) is_found.valid (is_found.at ∙ h) in
            (end, after, rw (read, not_empty, taken, h) done, at_end)
      ]

first_char :
    (name : List ℕ) (names : List (List ℕ)) (path : List ℕ)
    → Spells (name ∷ names) path
    → (c : ℕ) × (rest : List ℕ) × (path ≡ c ∷ rest) × (c ≢ 0)
first_char [] names path spelled =
    let (rest, read, spelled', valid) = next_component-Spells [] names path spelled in
    absurd (omega (arith, valid.named))
first_char (c ∷ name) names path (slashed _ _ behind _ valid spelled e) =
    (c, name ++ slash ∷ behind, e, valid.chars.0.0)
first_char (c ∷ name) _ path (last _ junk _ valid e) = (c, name ++ 0 ∷ junk, e, valid.chars.0.0)

module _ (pfs_child : ℕ → List ℕ → Option ℕ) (pfs : ℕ → ℕ → Option ℕ)
    (by_hash : (pn : ℕ) (name : List ℕ) → pfs_child pn name ≡ pfs pn (compute_hash name))
    (mounts : Mounts) where
  pub lookup_node_lem :
      (names : List (List ℕ)) (path : List ℕ) (nodes : Nodes)
      → Spells names path
      → IsCache pfs mounts nodes
      → (found : Option ℕ) × (after : Nodes) × (lookup_node pfs_child (slash ∷ path) nodes
          ≡ ok (found, after))
        × IsFound pfs mounts after found (keys names)
  unfolding lookup_node keys_below reach
  lookup_node_lem [] _ nodes (ended junk) cache =
      (some 0, nodes, refl, stands_there pfs mounts nodes [] 0 cache refl)
  lookup_node_lem (name ∷ names) path nodes spelled cache =
      let (c, rest, e, some_char) = first_char name names path spelled in
      let (found, after, done, at_end) =
        lookup_loop_lem pfs_child pfs by_hash mounts (name ∷ names) (length path) path [] nodes 0
          spelled (Spells-length (name ∷ names) path spelled) cache refl in
      let walked : lookup_loop pfs_child (length (c ∷ rest)) (c ∷ rest) nodes 0
          ≡ ok (found, after) =
        ap (λ p. lookup_loop pfs_child (length p) p nodes 0) (sym e) ∙ done in
      let not_root : (c == 0) ≡ false = ground (arith, some_char) in
      (
        found,
        after,
        ap (λ p. lookup_node pfs_child (slash ∷ p) nodes) e ∙ rw (not_root, walked) refl,
        at_end,
      )

  -- `open` goes to the node that the path resolves to, as if no lookup had gone before, and NULL
  -- where it resolves to nothing; what the nodes remember stays right.
  pub node_to_open_lem :
      (names : List (List ℕ)) (path : List ℕ) (nodes : Nodes)
      → Spells names path
      → IsCache pfs mounts nodes
      → (after : Nodes) × (node_to_open pfs_child (slash ∷ path) nodes
          ≡ ok (resolve pfs mounts (keys names), after))
        × IsCache pfs mounts after
  unfolding node_to_open
  node_to_open_lem names path nodes spelled cache =
      let (found, after, done, at_end) = lookup_node_lem names path nodes spelled cache in
      (
        after,
        elim (Option-cases found) [
          | inl h ↦
              rw (node_to_open, done, h)
                (ap (λ pn. ok (pn, after)) (sym (ap (pn_of after) h) ∙ at_end.pn))
          | inr (n, h) ↦
              rw (node_to_open, done, h)
                (ap (λ pn. ok (pn, after)) (sym (ap (pn_of after) h) ∙ at_end.pn))
        ],
        at_end.valid,
      )
