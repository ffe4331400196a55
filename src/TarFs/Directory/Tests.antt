-- ===== src/TarFs/Directory/Tests.antt =====
-- An instance of the theorem on directories.
use inf3_os.Base.{◌+◌, ℕ, true, [], ◌∷◌, none, some, if◌then◌else◌, ◌==◌}
use inf3_os.Util.Map.{Map, red, black, leaf, node}
use inf3_os.TarFs.Tree.{Heap, fresh_node}

-- A directory with the children 1 and 2.
abbrev two_children : Map ℕ
two_children = record { root = node black (node red leaf 3 1 leaf) 5 2 leaf; counter = 2 }

abbrev small_heap : Heap
small_heap = record {
  counter = 3;
  at = λ n.
      if n == 0
      then record (fresh_node none []) { children = two_children }
      else record (fresh_node (some 0) ((96 + n) ∷ [])) { size = n; has_block_offset = true };
}
