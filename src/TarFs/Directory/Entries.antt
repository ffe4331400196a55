-- ===== src/TarFs/Directory/Entries.antt =====
-- CourseWorks/coursework/tarfs.cpp: what a directory lists.
use inf3_os.Base.{ℕ, List, map}
use inf3_os.Util.Map
use inf3_os.TarFs.Tree.{Heap}
use inf3_os.TarFs.Directory.{DirectoryEntry, entry_of}

-- The entry of a child that the loop sees.
abbrev pub listed_as : Heap → ℕ × ℕ → DirectoryEntry
listed_as heap child = entry_of (heap.at child.1)

abbrev pub listing : Heap → List (ℕ × ℕ) → List DirectoryEntry
listing heap children = map (listed_as heap) children
