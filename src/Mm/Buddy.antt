-- ===== src/Mm/Buddy.antt =====
-- CourseWorks/coursework/buddy.cpp: the buddy page allocation algorithm. A `PageDescriptor *` is
-- its page-frame number, and NULL is `none`. A free list is the list of the blocks that its
-- `next_free` links reach, and a slot (`PageDescriptor **`) is a position in such a list.
-- Orders are not negative. A failed `assert` and a use of NULL end in `panic`.
pub mod Slots
pub mod Measure
pub mod Ascending
pub mod Blocks
pub mod Pairs
pub mod Merging
pub mod Coalescing
pub mod Freeing
pub mod Allocating
pub mod Filling
pub mod Reserving
pub mod RoundTrip
pub mod Returned
mod Tests
use mathlib.Core.Option
use inf3_os.Base.{
  ℕ, zero, suc, ◌+◌, ◌-◌, ◌*◌, ◌%◌, ◌^◌, ◌≤◌, ◌<◌, ◌≡◌, Bool, true, false, not, ◌&&◌, ◌||◌, Option,
  none, some, List, [], ◌∷◌, ltb, leb, ◌==◌, if◌then◌else◌, get_elem?, Outcome, ok, panic, assert,
  ◌>>=◌, ◌>>◌,
}
use Slots.{insert_link, remove_link, index_of}

abbrev pub max_order : ℕ
max_order = 17

-- `_free_areas`, by order.
abbrev pub Areas : Type 0
Areas = ℕ → List ℕ

-- `_free_areas[order]` made to hold another list.
abbrev pub put : Areas → ℕ → List ℕ → Areas
put areas order list k = if k == order then list else areas k

abbrev pub pages_per_block : ℕ → ℕ
pages_per_block order = 2 ^ order

pub is_correct_alignment_for_order : ℕ → ℕ → Bool
is_correct_alignment_for_order pgd order = pgd % pages_per_block order == 0

pub buddy_of : ℕ → ℕ → Option ℕ
buddy_of pgd order =
    if leb max_order order
    then none
    else if not (is_correct_alignment_for_order pgd order)
    then none
    else some (
        if is_correct_alignment_for_order pgd (order + 1)
        then pgd + pages_per_block order
        else pgd - pages_per_block order)

-- The new state, and the slot that the block was inserted into.
pub insert_block : Areas → ℕ → ℕ → Areas × ℕ
insert_block areas pgd order =
    let (list, slot) = insert_link pgd (areas order) in (put areas order list, slot)

-- What `*slot` gives to code that goes on to use the pointer.
abbrev pub deref {ℓ} : {A : Type ℓ} → Option A → Outcome A
deref none = panic
deref (some a) = ok a

pub remove_block : Areas → ℕ → ℕ → Outcome Areas
remove_block areas pgd order = do
  list ← deref (remove_link pgd (areas order))
  ok (put areas order list)

-- `block_pointer` is a slot of the list of `source_order`. The second result is the pointer that
-- the function returns, `*block_pointer` read at the end.
pub split_block : Areas → ℕ → ℕ → Outcome (Areas × Option ℕ)
split_block areas block_pointer source_order = do
  page_to_split ← deref (get_elem? (areas source_order) block_pointer)
  assert (is_correct_alignment_for_order page_to_split source_order)
  assert (ltb 0 source_order)
  removed ← remove_block areas page_to_split source_order
  let left = (insert_block removed page_to_split (source_order - 1)).0
  let right =
      (insert_block left (page_to_split + pages_per_block (source_order - 1)) (source_order - 1)).0
  ok (right, get_elem? (right source_order) block_pointer)

-- The second result is the slot of the merged block, in the list of the next order.
pub merge_block : Areas → ℕ → ℕ → Outcome (Areas × ℕ)
merge_block areas block_pointer source_order = do
  merging_block ← deref (get_elem? (areas source_order) block_pointer)
  assert (is_correct_alignment_for_order merging_block source_order)
  first_removed ← remove_block areas merging_block source_order
  bud ← deref (buddy_of merging_block source_order)
  both_removed ← remove_block first_removed bud source_order
  ok (
      insert_block both_removed (if ltb merging_block bud then merging_block else bud)
        (source_order + 1))

-- The constructor.
pub no_areas : Areas
no_areas order = []

-- The first loop of `alloc_pages`: the order difference of the first free block that could fit.
pub find_order : ℕ → Areas → ℕ → ℕ → Option ℕ
find_order zero areas order difference = none
find_order (suc fuel) areas order difference = elim (areas (order + difference)) [
  | [] ↦
      let rest = find_order fuel areas order (difference + 1) in
      if leb max_order (order + (difference + 1)) then none else rest
  | _ ∷ _ ↦ some difference
]

-- The second loop of `alloc_pages`: split the first block of each order on the way down.
pub split_down : ℕ → Areas → ℕ → Outcome Areas
split_down zero areas order = ok areas
split_down (suc difference) areas order = do
  (split, _) ← split_block areas 0 (order + suc difference)
  split_down difference split order

pub alloc_pages : Areas → ℕ → Outcome (Areas × Option ℕ)
alloc_pages areas order =
    if leb max_order order
    then ok (areas, none)
    else elim (find_order (max_order - order) areas order 0) [
      | none ↦ ok (areas, none)
      | some difference ↦ do
        split ← split_down difference areas order
        allocated_page ← deref (get_elem? (split order) 0)
        removed ← remove_block split allocated_page order
        ok (removed, some allocated_page)
    ]

-- The test of `free_pages` on one free block: does it hold the first or the last page freed?
pub overlaps : ℕ → ℕ → ℕ → ℕ → Bool
overlaps pgd order check ord =
    leb check pgd && ltb pgd (check + pages_per_block ord)
    || leb check last && ltb last (check + pages_per_block ord)
  where
    last : ℕ
    last = pgd + pages_per_block order - 1

-- The inner loop of that check, along one free list.
pub check_list : ℕ → ℕ → ℕ → List ℕ → Outcome (Unit {0})
check_list pgd order ord [] = ok tt
check_list pgd order ord (check ∷ rest) =
    let go_on = check_list pgd order ord rest in
    if ltb check (pgd + pages_per_block order - 1)
    then if overlaps pgd order check ord then panic else go_on
    else ok tt

-- Its outer loop, from `ord` = n - 1 down to 0.
pub check_orders : ℕ → Areas → ℕ → ℕ → Outcome (Unit {0})
check_orders zero areas pgd order = ok tt
check_orders (suc ord) areas pgd order = do
  check_list pgd order ord (areas ord)
  check_orders ord areas pgd order

-- The merging loop of `free_pages`; a NULL buddy is found in no list.
pub coalesce : ℕ → Areas → ℕ → Option ℕ → Outcome Areas
coalesce zero areas order bud = ok areas
coalesce (suc fuel) areas order bud =
    let round : Outcome Areas = elim (index_of bud (areas order)) [
      | none ↦ ok areas
      | some slot ↦ do
        (merged, at) ← merge_block areas slot order
        block ← deref (get_elem? (merged (order + 1)) at)
        coalesce fuel merged (order + 1) (buddy_of block (order + 1))
    ] in
    if ltb order (max_order - 1) then round else ok areas

pub free_pages : Areas → ℕ → ℕ → Outcome Areas
free_pages areas pgd order = do
  assert (is_correct_alignment_for_order pgd order)
  check_orders max_order areas pgd order
  coalesce max_order (insert_block areas pgd order).0 order (buddy_of pgd order)

-- The inner loop of `reserve_page`: the slot of the free block that holds the page.
pub find_containing : ℕ → ℕ → List ℕ → Option ℕ
find_containing pgd order [] = none
find_containing pgd order (block ∷ rest) =
    if leb block pgd
    then if leb block pgd && ltb pgd (block + pages_per_block order)
      then some 0
      else Option.map suc (find_containing pgd order rest)
    else none

-- Its outer loop, from `order` = n down to 1.
pub split_around : ℕ → Areas → ℕ → Outcome Areas
split_around zero areas pgd = ok areas
split_around (suc n) areas pgd = elim (find_containing pgd (suc n) (areas (suc n))) [
  | none ↦ split_around n areas pgd
  | some slot ↦ do (split, _) ← split_block areas slot (suc n); split_around n split pgd
]

-- Its end: the search of the order-0 list, and the removal.
pub take_page : Areas → ℕ → Outcome (Areas × Bool)
take_page areas pgd = elim (index_of (some pgd) (areas 0)) [
  | none ↦ ok (areas, false)
  | some slot ↦ do removed ← remove_block areas pgd 0; ok (removed, true)
]

pub reserve_page : Areas → ℕ → Outcome (Areas × Bool)
reserve_page areas pgd = do split ← split_around (max_order - 1) areas pgd; take_page split pgd

-- `offset` of `init` is an `int`.
abbrev pub int_end : ℕ
int_end = 2 ^ 31

-- The inner loop of `init`: blocks of one order, while they fit. Gives the new `offset` too; an
-- `offset` that an `int` does not hold is a panic.
pub fill_order : ℕ → Areas → ℕ → ℕ → ℕ → Outcome (Areas × ℕ)
fill_order zero areas offset nr order = ok (areas, offset)
fill_order (suc fuel) areas offset nr order =
    let rest =
      fill_order fuel (insert_block areas offset order).0 (offset + pages_per_block order) nr
        order in
    if leb (offset + pages_per_block order) nr
    then assert (is_correct_alignment_for_order offset order)
      >> (assert (ltb (offset + pages_per_block order) int_end) >> rest)
    else ok (areas, offset)

-- Its outer loop, from `curr_order` = n - 1 down to 0.
pub fill_orders : ℕ → Areas → ℕ → ℕ → Outcome (Areas × ℕ)
fill_orders zero areas offset nr = ok (areas, offset)
fill_orders (suc curr_order) areas offset nr = do
  (filled, end) ← fill_order (suc nr) areas offset nr curr_order
  let rest = fill_orders curr_order filled end nr
  if end == nr then ok (filled, end) else rest

pub init : Areas → ℕ → Outcome (Areas × Bool)
init areas nr_page_descriptors = do
  (filled, offset) ← fill_orders max_order areas 0 nr_page_descriptors
  ok (filled, offset == nr_page_descriptors)
