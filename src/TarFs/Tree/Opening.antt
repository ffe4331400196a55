-- ===== src/TarFs/Tree/Opening.antt =====
-- CourseWorks/coursework/tarfs.cpp: the files of an archive, from the headers to the bytes.
use inf3_os.Util.Equality.{same_list, same_list_refl, same_list-eq}
use mathlib.Core.Option
use inf3_os.Base.{
  ℕ, ◌+◌, ◌%◌, ◌<◌, ◌≡◌, ◌≢◌, refl, sym, ap, ◌∙◌, Bool, true, false, List, [], ◌∷◌, ◌++◌, Option,
  none, some, ok, arith, Bool-cases, Option-cases, inl, inr, All,
}
use inf3_os.Util.Text.Hash.{compute_hash}
use inf3_os.Fs.Paths.{keys, keys_below}
use inf3_os.Fs.Forest.{step_to, reach}
use inf3_os.Fs.Listing.{
  Info, Entry, Listing, with_entry, listed, root_only, updated, or_blank, passes,
}
use inf3_os.Util.LinkedList.{u32_mod}
use inf3_os.Util.Text.{size_mod}
use inf3_os.TarFs.{size, BlockDevice, TarFile}
use inf3_os.TarFs.Blocks.{file_bytes}
use inf3_os.TarFs.Reading.{IsReadable, Fits, available, reads, reads_lem, sum, moved}
use inf3_os.TarFs.Tree.{
  Heap, build_tree, new_file, open_node, follow, child_of, open_path, get_child,
}
use inf3_os.TarFs.Tree.Nodes.{node_at, children_of, shown, view}
use inf3_os.TarFs.Tree.Archive.{
  IsHeader, Archive, device_end, second_zero, first_zero, header, names_fit,
}
use inf3_os.TarFs.Tree.Building.{build_tree_lem}

child_of-step_to :
    (heap : Heap) (from : Option ℕ) (name : List ℕ)
    → child_of heap from name ≡ step_to (children_of heap) from (compute_hash name)
unfolding get_child
child_of-step_to heap none name = refl
child_of-step_to heap (some n) name = refl

pub follow-node_at :
    (heap : Heap) (above : List ℕ) (names : List (List ℕ))
    → follow heap (node_at heap above) names ≡ node_at heap (keys_below above names)
unfolding follow keys_below reach
follow-node_at heap above [] = refl
follow-node_at heap above (name ∷ names) =
    ap (λ o. follow heap o names) (child_of-step_to heap (node_at heap above) name)
    ∙ follow-node_at heap (compute_hash name ∷ above) names

-- What `open` gives for what is shown.
abbrev pub opened : BlockDevice → Option Info → Option TarFile
opened device none = none
opened device (some info) = Option.map (new_file device) info.block

open_node-opened :
    (device : BlockDevice) (heap : Heap) (n : ℕ)
    → open_node device heap n ≡ opened device (some (shown (heap.at n)))
unfolding open_node
open_node-opened device heap n = elim (Bool-cases (heap.at n).has_block_offset) [
  | inl h ↦ rw h refl
  | inr h ↦ rw h refl
]

open_path-opened :
    (device : BlockDevice) (heap : Heap) (names : List (List ℕ))
    → open_path device heap names ≡ opened device (view heap (keys names))
unfolding open_path reach
open_path-opened device heap names =
    let led : follow heap (some 0) names ≡ node_at heap (keys names) =
      follow-node_at heap [] names in
    elim (Option-cases (node_at heap (keys names))) [
      | inl h ↦ rw (open_path, led, h) refl
      | inr (n, h) ↦ rw (open_path, led, h) (open_node-opened device heap n)
    ]

-- In the tree of an archive every path opens as its listing says: a path that leads to a file opens
-- as the file whose header is in the listed block, and no other path opens.
pub open_path_lem :
    (device : BlockDevice) (entries : List Entry)
    → Archive device 0 false entries
    → (heap : Heap) × (build_tree device ≡ ok (some heap))
      × ((names : List (List ℕ))
          → open_path device heap names ≡ opened device (listed entries root_only (keys names)))
open_path_lem device entries archive =
    let (heap, built, valid, views) = build_tree_lem device entries archive in
    (
      heap,
      built,
      λ names. open_path-opened device heap names ∙ ap (opened device) (views (keys names)),
    )

-- Entries at other paths leave what is shown of a path.
listed_others :
    (newer : List Entry) (listing : Listing) (path : List ℕ) (info : Info)
    → All (λ other. keys other.names ≢ path) newer
    → listing path ≡ some info
    → listed newer listing path ≡ some info
listed_others [] listing path info h there = there
listed_others (other ∷ newer) listing path info (differs, h) there =
    listed_others newer (with_entry other listing) path info h
      (elim (Bool-cases (same_list path (keys other.names))) [
        | inl same ↦ absurd (differs (sym (same_list-eq path (keys other.names) same)))
        | inr elsewhere ↦ rw elsewhere (elim (Bool-cases (passes [] other.names path)) [
          | inl passed ↦ rw (passed, there) refl
          | inr apart ↦ rw apart there
        ])
      ])

listed_last :
    (older newer : List Entry) (entry : Entry) (listing : Listing)
    → All (λ other. keys other.names ≢ keys entry.names) newer
    → (info : Info) × (listed (older ++ entry ∷ newer) listing (keys entry.names)
        ≡ some (updated entry info))
listed_last [] newer entry listing h =
    let info = or_blank (listing (keys entry.names)) in
    (
      info,
      listed_others newer (with_entry entry listing) (keys entry.names) (updated entry info) h
          (rw (same_list_refl (keys entry.names)) refl),
    )
listed_last (first ∷ older) newer entry listing h =
    listed_last older newer entry (with_entry first listing) h

headers :
    (device : BlockDevice) (offset : ℕ) (seen : Bool) (entries : List Entry)
    → Archive device offset seen entries
    → All (IsHeader device) entries
headers device _ _ _ (device_end offset seen behind) = tt
headers device _ _ _ (second_zero offset inside empty) = tt
headers device _ _ _ (first_zero offset entries inside fits empty archive) =
    headers device (offset + 1) true entries archive
headers device _ _ _ (header offset next seen entry entries inside fits h here next_is archive) =
    (h, headers device next false entries archive)

All-between :
    (P : Entry → Type 0) (older newer : List Entry) (entry : Entry)
    → All P (older ++ entry ∷ newer)
    → P entry
All-between P [] newer entry (h, later) = h
All-between P (first ∷ older) newer entry (h, later) = All-between P older newer entry later

-- The file of a header can be read.
new_file-IsReadable :
    (device : BlockDevice) (entry : Entry)
    → IsHeader device entry
    → entry.block + 1 + entry.size < u32_mod
    → IsReadable device (new_file device entry.block) entry.size
unfolding new_file size
new_file-IsReadable device entry h low = record {
  has_size = h.has_size;
  has_blocks = omega (arith, names_fit device entry h);
  low_size = omega arith;
  low_blocks = omega arith;
}

-- A file of an archive, found by its name and read from the start: reads of any sizes one after
-- another give its bytes in a row, which are those of the blocks behind its header, up to the end of
-- the file. The file is the last entry of the archive at its path, and its blocks have numbers of 32
-- bits; for each read the size of the block buffer fits an `int`.
pub bytes_of_entry :
    (device : BlockDevice) (older newer : List Entry) (entry : Entry) (counts : List ℕ)
    → Archive device 0 false (older ++ entry ∷ newer)
    → All (λ other. keys other.names ≢ keys entry.names) newer
    → entry.is_file ≡ true
    → entry.block + 1 + entry.size < u32_mod
    → sum counts < size_mod
    → All (Fits device entry.size) counts
    → (heap : Heap) × (file : TarFile) × (build_tree device ≡ ok (some heap))
      × (open_path device heap entry.names ≡ some file)
      × (reads device file counts
          ≡ ok (
            file_bytes device (entry.block + 1) 0 (available entry.size (sum counts) 0),
            moved file (available entry.size (sum counts) 0),
          ))
unfolding new_file
bytes_of_entry device older newer entry counts archive last_one file low fits small =
    let (heap, built, opens) = open_path_lem device (older ++ entry ∷ newer) archive in
    let (info, shows) = listed_last older newer entry root_only last_one in
    let found : open_path device heap entry.names ≡ some (new_file device entry.block) =
      opens entry.names ∙ ap (opened device) shows ∙ rw file refl in
    let start : (entry.block + 1) % u32_mod ≡ entry.block + 1 = omega arith in
    let readable =
      new_file-IsReadable device entry
        (All-between (IsHeader device) older newer entry
          (headers device 0 false (older ++ entry ∷ newer) archive))
        low in
    (
      heap,
      new_file device entry.block,
      built,
      found,
      reads_lem device (new_file device entry.block) entry.size counts readable (omega arith)
            (omega arith) small
          ∙ ap
              (λ b. ok (
                file_bytes device b 0 (available entry.size (sum counts) 0),
                moved (new_file device entry.block) (available entry.size (sum counts) 0),
              ))
              start,
    )
