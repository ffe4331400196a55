-- ===== src/TarFs/Tree/Building.antt =====
-- CourseWorks/coursework/tarfs.cpp: `build_tree` makes the tree of the archive.
use mathlib.Core.Path.{fun_ext}
use inf3_os.Base.{
  ℕ, zero, suc, ◌+◌, ◌<◌, ◌≡◌, refl, sym, ap, ◌∙◌, Bool, true, false, List, [], ◌∷◌, none, some, ok,
  arith, ltb, Bool-cases, Option-cases, inl, inr, length,
}
use inf3_os.Fs.Paths.{Spells}
use inf3_os.Util.Map
use inf3_os.Fs.Growing.{new-IsMap}
use inf3_os.Fs.Forest.{reach, reach_last}
use inf3_os.Fs.Listing.{Entry, Listing, with_entry, listed, root_only}
use inf3_os.TarFs.{octal2ui, BlockDevice, blocks_needed}
use inf3_os.TarFs.Tree.{
  is_zero_block, try_get_value, int_max, Heap, BuildState, place_entry, has_contents, add_entry,
  skip_zero, build_round, build_loop, build_tree, only_root, block_from, locate, set_size,
  set_block_offset,
}
use inf3_os.TarFs.Tree.Nodes.{show, IsTree, children_of, node_at, view}
use inf3_os.TarFs.Tree.Locating.{IsLocated, locate_start}
use inf3_os.TarFs.Tree.Placing.{sized_view, filed_view}
use inf3_os.TarFs.Tree.Archive.{
  IsHeader, Archive, device_end, second_zero, first_zero, header, names_fit, header_is_not_zero,
}

has_contents_lem :
    (device : BlockDevice) (entry : Entry)
    → IsHeader device entry
    → has_contents device entry.block ≡ ok entry.is_file
unfolding has_contents
has_contents_lem device entry h = rw (has_contents, h.has_typeflag) (ap ok (sym h.typed))

locate_entry :
    (names : List (List ℕ)) (fuel : ℕ) (path : List ℕ) (heap : Heap)
    → Spells names path
    → 0 < length names
    → length names < fuel
    → IsTree heap
    → (grown : Heap) × (n : ℕ) × (locate fuel path heap 0 none ≡ ok (grown, some n))
      × IsLocated heap grown [] names n
locate_entry [] fuel path heap spelled named enough tree = absurd (omega arith)
locate_entry (name ∷ names) fuel path heap spelled named enough tree =
    locate_start name names fuel path heap spelled enough tree

place_entry_lem :
    (device : BlockDevice) (entry : Entry) (heap : Heap)
    → IsHeader device entry
    → IsTree heap
    → (after : Heap) × (place_entry device entry.block entry.size heap ≡ ok after)
      × IsTree after
      × ((q : List ℕ) → view after q ≡ with_entry entry (view heap) q)
unfolding place_entry
place_entry_lem device entry heap h tree =
    let (grown, n, found, located) =
      locate_entry entry.names device.block_size (block_from device entry.block 0) heap h.spelled
        h.named (names_fit device entry h) tree in
    let contents = has_contents_lem device entry h in
    elim (Bool-cases entry.is_file) [
      | inl file ↦
          let (valid, views) = filed_view heap grown entry n h.named located file in
          (
            set_block_offset (set_size grown n entry.size) n entry.block,
            rw (found, contents, file) refl,
            valid,
            views,
          )
      | inr directory ↦
          let (valid, views) = sized_view heap grown entry n h.named located directory in
          (set_size grown n entry.size, rw (found, contents, directory) refl, valid, views)
    ]

-- The round of a header.
header_round :
    (device : BlockDevice) (entry : Entry) (s : BuildState) (next : ℕ)
    → IsHeader device entry
    → entry.block ≡ s.offset
    → s.offset < device.block_count
    → next ≡ s.offset + (1 + blocks_needed device.block_size entry.size)
    → next < int_max
    → IsTree s.heap
    → (after : Heap) × (build_round device s
        ≡ ok (some (record { offset = next; zero_seen = false; heap = after })))
      × IsTree after
      × ((q : List ℕ) → view after q ≡ with_entry entry (view s.heap) q)
unfolding build_round add_entry
header_round device entry s next h here inside next_is fits tree =
    let (after, placed, valid, views) = place_entry_lem device entry s.heap h tree in
    let more : ltb s.offset device.block_count ≡ true = ground (arith, inside) in
    let at_header : is_zero_block device s.offset ≡ ok false =
      ap (is_zero_block device) (sym here) ∙ header_is_not_zero device entry h in
    let sized : octal2ui (block_from device s.offset 124) ≡ ok entry.size =
      ap (λ b. octal2ui (block_from device b 124)) (sym here) ∙ h.has_size in
    let placed' : place_entry device s.offset entry.size s.heap ≡ ok after =
      ap (λ b. place_entry device b entry.size s.heap) (sym here) ∙ placed in
    let low : ltb next int_max ≡ true = ground (arith, fits) in
    (after, rw (more, at_header, sized, placed', sym next_is, low) refl, valid, views)

-- The tree of a list of entries.
pub record IsBuilt (before after : Heap) (entries : List Entry) : Type 0 where
  pub valid : IsTree after
  pub views : (q : List ℕ) → view after q ≡ listed entries (view before) q

build_loop_lem :
    (fuel : ℕ) (device : BlockDevice) (offset : ℕ) (seen : Bool) (entries : List Entry)
    (heap : Heap)
    → Archive device offset seen entries
    → 0 < fuel
    → device.block_count < fuel + offset
    → IsTree heap
    → (after : Heap) × (build_loop fuel device
          (record { offset = offset; zero_seen = seen; heap = heap })
        ≡ ok (some after))
      × IsBuilt heap after entries
unfolding build_loop build_round skip_zero
build_loop_lem zero device offset seen entries heap archive some_fuel enough tree =
    absurd (omega arith)
build_loop_lem (suc fuel) device _ _ _ heap (device_end offset seen behind) some_fuel enough tree =
    let over : ltb offset device.block_count ≡ false = ground (arith, behind) in
    (heap, rw over refl, record { valid = tree; views = λ q. refl })
build_loop_lem (suc fuel) device _ _ _ heap (second_zero offset inside empty) some_fuel enough
      tree =
    let more : ltb offset device.block_count ≡ true = ground (arith, inside) in
    (heap, rw (more, empty) refl, record { valid = tree; views = λ q. refl })
build_loop_lem (suc fuel) device _ _ _ heap (first_zero offset entries inside fits empty archive)
      some_fuel enough tree =
    let more : ltb offset device.block_count ≡ true = ground (arith, inside) in
    let low : ltb (offset + 1) int_max ≡ true = ground (arith, fits) in
    let (after, done, built) =
      build_loop_lem fuel device (offset + 1) true entries heap archive (omega arith) (omega arith)
        tree in
    (after, rw (more, empty, low) done, built)
build_loop_lem (suc fuel) device _ _ _ heap
      (header offset next seen entry entries inside fits h here next_is archive) some_fuel enough
      tree =
    let (mid, stepped, valid, views) =
      header_round device entry (record { offset = offset; zero_seen = seen; heap = heap }) next h
        here inside next_is fits tree in
    let (after, done, built) =
      build_loop_lem fuel device next false entries mid archive (omega arith) (omega arith) valid in
    (
      after,
      rw stepped done,
      record {
        valid = built.valid;
        views = λ q. built.views q ∙ ap (λ (l : Listing). listed entries l q) (fun_ext views);
      },
    )

-- The tree at the start.
nothing_there : (n key : ℕ) → children_of only_root n key ≡ none
unfolding Map.try_get_value Map.find
nothing_there n key = refl

only_root-IsTree : IsTree only_root
only_root-IsTree = record {
  maps = λ n. new-IsMap;
  forest = record {
    root_low = omega arith;
    low = λ n key c h. let bad = sym (nothing_there n key) ∙ h in cc;
    unique = λ n m key other c h g. let bad = sym (nothing_there n key) ∙ h in cc;
  };
}

view-root_only : (q : List ℕ) → view only_root q ≡ root_only q
unfolding reach
view-root_only [] = refl
view-root_only (key ∷ q) = elim (Option-cases (node_at only_root (key ∷ q))) [
  | inl h ↦ ap (show only_root) h
  | inr (n, h) ↦
      let (m, found, taken) = reach_last (children_of only_root) 0 key n q h in
      let bad = sym (nothing_there m key) ∙ taken in cc
]

-- Where the device holds an archive, `build_tree` finishes with fuel for one round more than there
-- are blocks, and never panics. Its tree is valid, and shows for each path what the entries say: the
-- directories on the way to an entry are there, an entry has its size, a file has the block of its
-- header, and where a path comes twice the later entry counts.
pub build_tree_lem :
    (device : BlockDevice) (entries : List Entry)
    → Archive device 0 false entries
    → (heap : Heap) × (build_tree device ≡ ok (some heap))
      × IsTree heap
      × ((q : List ℕ) → view heap q ≡ listed entries root_only q)
unfolding build_tree
build_tree_lem device entries archive =
    let (heap, done, built) =
      build_loop_lem (suc device.block_count) device 0 false entries only_root archive (omega arith)
        (omega arith) only_root-IsTree in
    (
      heap,
      done,
      built.valid,
      λ q. built.views q ∙ ap (λ (l : Listing). listed entries l q) (fun_ext view-root_only),
    )
