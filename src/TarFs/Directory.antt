-- ===== src/TarFs/Directory.antt =====
-- CourseWorks/coursework/tarfs.cpp: the directories of the tar filesystem. An entry of the new array
-- that nothing is written to has an empty name and here the size 0.
pub mod Entries
mod Tests
use mathlib.Core.Option
use inf3_os.Base.{
  ℕ, zero, suc, ◌+◌, ◌%◌, Bool, true, false, List, [], ◌∷◌, Option, none, some, Outcome, ok, panic,
  ◌>>=◌, ltb, if◌then◌else◌, get_elem?,
}
use inf3_os.Util.LinkedList.{u32_mod}
use inf3_os.Util.Map
use inf3_os.TarFs.Tree.{Heap, TarFsNode}

pub record DirectoryEntry : Type 0 where
  pub name : List ℕ
  pub size : ℕ

pub record TarFsDirectory : Type 0 where
  pub entries : List DirectoryEntry
  pub nr_entries : ℕ
  pub cur_entry : ℕ

abbrev pub entry_of : TarFsNode → DirectoryEntry
entry_of node = record { name = node.name; size = node.size }

-- The array of `left` entries, with those of the children at its start. A child too many is written
-- behind the array.
unfoldable pub fill_entries : Heap → ℕ → List (ℕ × ℕ) → Outcome (List DirectoryEntry)
fill_entries heap zero [] = ok []
fill_entries heap zero (child ∷ children) = panic
fill_entries heap (suc left) [] = do
  rest ← fill_entries heap left []
  ok (record { name = []; size = 0 } ∷ rest)
fill_entries heap (suc left) (child ∷ children) = do
  rest ← fill_entries heap left children
  ok (entry_of (heap.at child.1) ∷ rest)

-- `TarFSDirectory::TarFSDirectory`; `none` where the fuel of the loop over the children is used up.
unfoldable pub new_directory : ℕ → Heap → ℕ → Outcome (Option TarFsDirectory)
new_directory fuel heap n = do
  let nr_entries = Map.count (heap.at n).children
  seen ← Map.iterate fuel (heap.at n).children
  elim seen [
    | none ↦ ok none
    | some children ↦ do
      entries ← fill_entries heap nr_entries children
      ok (some (record { entries = entries; nr_entries = nr_entries; cur_entry = 0 }))
  ]

-- `TarFSNode::opendir`: NULL on a file.
unfoldable pub opendir : ℕ → Heap → ℕ → Outcome (Option (Option TarFsDirectory))
opendir fuel heap n =
    let opened = new_directory fuel heap n >>= (λ made. ok (some made)) in
    if (heap.at n).has_block_offset then ok none else opened

-- `TarFSDirectory::read_entry`: the entry where it returns true, and the directory afterwards.
unfoldable pub read_entry : TarFsDirectory → Outcome (Option DirectoryEntry × TarFsDirectory)
read_entry directory =
    let next : Outcome (Option DirectoryEntry × TarFsDirectory) =
      elim (get_elem? directory.entries directory.cur_entry) [
        | none ↦ panic
        | some entry ↦ ok (some entry, record directory { cur_entry = suc directory.cur_entry })
      ] in
    if ltb directory.cur_entry directory.nr_entries then next else ok (none, directory)

-- A loop of `read_entry` calls, up to the first that returns false; `none` where the fuel is used up.
abbrev pub and_more :
    Option DirectoryEntry
    → Outcome (Option (List DirectoryEntry))
    → Outcome (Option (List DirectoryEntry))
and_more none more = ok (some [])
and_more (some entry) more = more >>= (λ out. ok (Option.map (◌∷◌ entry) out))

unfoldable pub read_entries : ℕ → TarFsDirectory → Outcome (Option (List DirectoryEntry))
read_entries zero directory = ok none
read_entries (suc fuel) directory = do
  (read, after) ← read_entry directory
  and_more read (read_entries fuel after)
