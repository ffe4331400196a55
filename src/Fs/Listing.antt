-- ===== src/Fs/Listing.antt =====
-- CourseWorks/coursework/tarfs.cpp: what a tree of nodes shows, without the nodes: for each path
-- whether it leads somewhere, and the size and the block of what is there.
use inf3_os.Util.Equality.{same_list}
use inf3_os.Base.{ℕ, Bool, false, ◌||◌, List, [], ◌∷◌, Option, none, some, if◌then◌else◌}
use inf3_os.Util.Text.Hash.{compute_hash}
use inf3_os.Fs.Paths.{keys}

-- `block` is where the header of a file is, `none` for a directory.
pub record Info : Type 0 where
  pub size : ℕ
  pub block : Option ℕ

abbrev pub Listing : Type 0
Listing = List ℕ → Option Info

-- What is shown of a directory that has only been passed.
abbrev pub or_blank : Option Info → Info
or_blank none = record { size = 0; block = none }
or_blank (some info) = info

-- A path leads through another, or to it; `above` are the keys so far.
abbrev pub passes : List ℕ → List (List ℕ) → List ℕ → Bool
passes above [] q = false
passes above (name ∷ names) q =
    same_list q (compute_hash name ∷ above) || passes (compute_hash name ∷ above) names q

-- A file or a directory of an archive: the names on its path, and where its header is.
pub record Entry : Type 0 where
  pub names : List (List ℕ)
  pub size : ℕ
  pub is_file : Bool
  pub block : ℕ

-- An entry has its own size; a file has its own block, and a directory what was there before.
abbrev pub updated : Entry → Info → Info
updated entry info = record {
  size = entry.size;
  block = if entry.is_file then some entry.block else info.block;
}

-- A listing with another entry: the directories on its path are there too.
abbrev pub with_entry : Entry → Listing → Listing
with_entry entry listing q =
    if same_list q (keys entry.names)
    then some (updated entry (or_blank (listing q)))
    else if passes [] entry.names q
    then some (or_blank (listing q))
    else listing q

-- The listing of the entries of an archive, the first one first.
abbrev pub listed : List Entry → Listing → Listing
listed [] listing = listing
listed (entry ∷ entries) listing = listed entries (with_entry entry listing)

-- Only the root.
abbrev pub root_only : Listing
root_only [] = some (or_blank none)
root_only (key ∷ path) = none
