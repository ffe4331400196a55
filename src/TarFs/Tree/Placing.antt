-- ===== src/TarFs/Tree/Placing.antt =====
-- CourseWorks/coursework/tarfs.cpp: the size and the block of an entry at its node.
use inf3_os.Util.Equality.{same_list, same_list_refl, same_list-eq, same_list-ne}
use native.Mathlib.Decide.{ℕ_discrete}
use mathlib.Core.Path.{fun_ext}
use inf3_os.Base.{
  ℕ, ◌<◌, ◌≡◌, ◌≢◌, refl, sym, ap, ◌∙◌, subst, true, false, List, [], ◌∷◌, some, arith,
  if◌then◌else◌, ◌==◌, ==_refl, Bool-cases, Option-cases, inl, inr, length, some_inj,
}
use inf3_os.Util.Text.Hash.{compute_hash}
use inf3_os.Util.Map.{Map}
use inf3_os.Util.Map.Adding.{IsMap}
use inf3_os.Fs.Paths.{keys_below, keys}
use inf3_os.Fs.Forest.{Children, IsForest, reach, reach_unique}
use inf3_os.Fs.Listing.{Info, Entry, or_blank, passes, updated, with_entry}
use inf3_os.TarFs.Tree.{try_get_value, TarFsNode, Heap, put, set_size, set_block_offset}
use inf3_os.TarFs.Tree.Nodes.{children_of, IsTree, shown, node_at, show, view, viewed_node}
use inf3_os.TarFs.Tree.Locating.{IsLocated}

module _ (heap : Heap) (n : ℕ) (node : TarFsNode)
    (same_children : node.children ≡ (heap.at n).children) where
  at_put : (put heap n node).at n ≡ node
  at_put = rw (==_refl n) refl

  at_others : (m : ℕ) → m ≢ n → (put heap n node).at m ≡ heap.at m
  at_others m other = let differs : (m == n) ≡ false = ground (arith, other) in rw differs refl

  children_kept : (m : ℕ) → ((put heap n node).at m).children ≡ (heap.at m).children
  children_kept m = elim (ℕ_discrete m n) [
    | yes e ↦
        ap (λ k. TarFsNode.children ((put heap n node).at k)) e
        ∙ ap TarFsNode.children at_put
        ∙ same_children
        ∙ ap (λ k. TarFsNode.children (heap.at k)) (sym e)
    | no other ↦ ap TarFsNode.children (at_others m other)
  ]

  links_kept : children_of (put heap n node) ≡ children_of heap
  links_kept =
      fun_ext (λ m. fun_ext (λ key. ap (λ (c : Map ℕ). try_get_value c key) (children_kept m)))

  node_at_kept : (q : List ℕ) → node_at (put heap n node) q ≡ node_at heap q
  node_at_kept q = ap (λ (c : Children). reach c 0 q) links_kept

  pub put-IsTree : IsTree heap → IsTree (put heap n node)
  put-IsTree tree = record {
    maps = λ m. subst (λ (c : Map ℕ). IsMap c) (sym (children_kept m)) (tree.maps m);
    forest = subst (λ c. IsForest c 0 heap.counter) (sym links_kept) tree.forest;
  }

  -- Only the path to the node shows another thing.
  pub put-view :
      (path : List ℕ)
      → IsTree heap
      → node_at heap path ≡ some n
      → (q : List ℕ)
      → view (put heap n node) q ≡ (if same_list q path then some (shown node) else view heap q)
  put-view path tree there q = elim (Bool-cases (same_list q path)) [
    | inl same ↦
        let e = same_list-eq q path same in
        rw same (
          viewed_node (put heap n node) q n (node_at_kept q ∙ ap (node_at heap) e ∙ there)
          ∙ ap (λ m. some (shown m)) at_put)
    | inr differs ↦ rw differs (elim (Option-cases (node_at heap q)) [
      | inl h ↦ ap (show (put heap n node)) (node_at_kept q ∙ h) ∙ ap (show heap) (sym h)
      | inr (m, h) ↦
          ap (show (put heap n node)) (node_at_kept q ∙ h)
          ∙ ap (λ x. some (shown x))
              (at_others m (λ e. same_list-ne q path differs (
                reach_unique (children_of heap) 0 heap.counter tree.forest q path n (h ∙ ap some e)
                  there)))
          ∙ ap (show heap) (sym h)
    ])
  ]

  pub put_there :
      (path : List ℕ) → node_at heap path ≡ some n → node_at (put heap n node) path ≡ some n
  put_there path there = node_at_kept path ∙ there

-- A path passes its own end.
passes_end :
    (above : List ℕ) (names : List (List ℕ))
    → 0 < length names
    → passes above names (keys_below above names) ≡ true
unfolding keys_below
passes_end above [] named = absurd (omega arith)
passes_end above (name ∷ []) named = rw (same_list_refl (compute_hash name ∷ above)) refl
passes_end above (name ∷ other ∷ names) named =
    let later = passes_end (compute_hash name ∷ above) (other ∷ names) (omega arith) in
    elim (Bool-cases
      (same_list (keys_below above (name ∷ other ∷ names)) (compute_hash name ∷ above))) [
        | inl here ↦ rw here refl
        | inr elsewhere ↦ rw (elsewhere, later) refl
      ]

module _ (heap grown : Heap) (entry : Entry) (n : ℕ) (named : 0 < length entry.names)
    (located : IsLocated heap grown [] entry.names n) where
  was_shown : shown (grown.at n) ≡ or_blank (view heap (keys entry.names))
  was_shown =
      let seen = viewed_node grown (keys entry.names) n located.at_end in
      let passed = passes_end [] entry.names named in
      some_inj (sym seen ∙ located.views (keys entry.names) ∙ rw passed refl)

  -- A heap that shows the entry at its path, and else what there was.
  entry_view :
      (after : Heap) (info : Info)
      → ((q : List ℕ)
          → view after q ≡ (if same_list q (keys entry.names) then some info else view grown q))
      → info ≡ updated entry (shown (grown.at n))
      → (q : List ℕ) → view after q ≡ with_entry entry (view heap) q
  entry_view after info views new q = elim (Bool-cases (same_list q (keys entry.names))) [
    | inl same ↦
        let e = same_list-eq q (keys entry.names) same in
        views q
        ∙ rw same (
            ap some new
            ∙ ap (λ i. some (updated entry i)) was_shown
            ∙ ap (λ p. some (updated entry (or_blank (view heap p)))) (sym e))
    | inr differs ↦ views q ∙ rw differs (located.views q)
  ]

  abbrev sized_node : TarFsNode
  sized_node = record (grown.at n) { size = entry.size }

  abbrev filed_node : TarFsNode
  filed_node = record sized_node { has_block_offset = true; block_offset = entry.block }

  -- `size`, for a directory.
  pub sized_view :
      entry.is_file ≡ false
      → IsTree (set_size grown n entry.size)
        × ((q : List ℕ) → view (set_size grown n entry.size) q ≡ with_entry entry (view heap) q)
  unfolding set_size
  sized_view directory = (
    put-IsTree grown n sized_node refl located.valid,
    entry_view (put grown n sized_node) (shown sized_node)
        (put-view grown n sized_node refl (keys entry.names) located.valid located.at_end)
        (rw directory refl),
  )

  -- `size` and `set_block_offset`, for a file.
  pub filed_view :
      entry.is_file ≡ true
      → IsTree (set_block_offset (set_size grown n entry.size) n entry.block)
        × ((q : List ℕ)
            → view (set_block_offset (set_size grown n entry.size) n entry.block) q
              ≡ with_entry entry (view heap) q)
  unfolding set_size set_block_offset
  filed_view file =
      let sized = put grown n sized_node in
      let node : TarFsNode = record (sized.at n) {
        has_block_offset = true;
        block_offset = entry.block;
      } in
      let with_block : TarFsNode → TarFsNode =
        λ m. record m { has_block_offset = true; block_offset = entry.block } in
      let is_filed : node ≡ filed_node = ap with_block (at_put grown n sized_node refl) in
      let valid = put-IsTree grown n sized_node refl located.valid in
      let there = put_there grown n sized_node refl (keys entry.names) located.at_end in
      let before =
        put-view grown n sized_node refl (keys entry.names) located.valid located.at_end in
      let after = put-view sized n node refl (keys entry.names) valid there in
      (
        put-IsTree sized n node refl valid,
        entry_view (put sized n node) (shown node)
            (λ q. elim (Bool-cases (same_list q (keys entry.names))) [
              | inl same ↦ after q ∙ rw same refl
              | inr differs ↦ after q ∙ rw differs (before q ∙ rw differs refl)
            ])
            (ap shown is_filed ∙ rw file refl),
      )
