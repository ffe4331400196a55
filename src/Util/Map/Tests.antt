-- ===== src/Util/Map/Tests.antt =====
-- Instances of the theorems on maps, at a map of two entries.
use inf3_os.Base.{ℕ, ◌≡◌, refl, Bool, List, some, ok, arith}
use inf3_os.Util.Map.{red, black, leaf, node, Map, add, iterate}
use inf3_os.Util.Map.Entries.{entries}
use inf3_os.Util.Map.Adding.{IsMap, IsAdded}
use inf3_os.Util.Map.Effect.{add-IsAdded}
use inf3_os.Util.Map.Iteration.{tally, iterate-tally}

-- Adding the key 1 rotates this tree.
abbrev two_entries : Map ℕ
two_entries = record { root = node black (node red leaf 3 30 leaf) 5 50 leaf; counter = 2 }

two_entries-IsMap : IsMap two_entries
unfolding entries
two_entries-IsMap = record {
  height = 1;
  shaped = ((refl, refl, tt, tt), tt);
  black_root = refl;
  sorted = ((omega arith, tt), (tt, tt));
  counted = refl;
}

add-IsAdded_example :
    (after : Map ℕ) × (add two_entries 1 10 ≡ ok after) × IsAdded two_entries after 1 10
add-IsAdded_example = add-IsAdded two_entries 1 10 two_entries-IsMap

iterate-tally_example :
    (out : List (ℕ × ℕ)) × (iterate 3 two_entries ≡ ok (some out))
    × ((test : ℕ → ℕ → Bool) → tally test out ≡ tally test (entries two_entries.root))
unfolding entries
iterate-tally_example = iterate-tally 3 two_entries (omega arith) (omega arith)
