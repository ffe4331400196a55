-- ===== src/Mm/Buddy/Slots.antt =====
-- CourseWorks/coursework/buddy.cpp: the walks along one free list that `insert_block`,
-- `remove_block` and `free_pages` make.
use mathlib.Core.Option
use inf3_os.Base.{ℕ, suc, List, [], ◌∷◌, Option, none, some, ltb, ◌==◌, if◌then◌else◌}

-- `insert_block`: past every smaller block. Gives the new list and the slot of the block.
unfoldable pub insert_link : ℕ → List ℕ → List ℕ × ℕ
insert_link pgd [] = (pgd ∷ [], 0)
insert_link pgd (x ∷ xs) =
    let (list, slot) = insert_link pgd xs in
    if ltb x pgd then (x ∷ list, suc slot) else (pgd ∷ x ∷ xs, 0)

-- `remove_block`: unlink the first link to the block; `none` if there is none.
unfoldable pub remove_link : ℕ → List ℕ → Option (List ℕ)
remove_link pgd [] = none
remove_link pgd (x ∷ xs) = if pgd == x then some xs else Option.map (◌∷◌ x) (remove_link pgd xs)

-- `while (*slot && bud != *slot) slot = &(*slot)->next_free;`: the slot where it stops, and
-- `none` at the end of the list.
unfoldable pub index_of : Option ℕ → List ℕ → Option ℕ
index_of none xs = none
index_of (some pgd) [] = none
index_of (some pgd) (x ∷ xs) = if pgd == x then some 0 else Option.map suc (index_of (some pgd) xs)
