-- ===== src/Mm/Buddy/Measure.antt =====
-- CourseWorks/coursework/buddy.cpp, seen from a page: in how many free blocks it lies. The state
-- is sound when every free block is aligned to its order.
use inf3_os.Base.{
  ℕ, zero, suc, ◌+◌, ◌%◌, ◌^◌, ◌≤◌, ◌<◌, ◌≡◌, ◌&&◌, some, List, [], ◌∷◌, ltb, leb, ◌==◌,
  if◌then◌else◌, get_elem?, All, arith, refl, Bool-cases, inl, inr, ◌⊎◌, ◌≢◌, none, Option-cases,
  pow2-suc, ==_iff, some_inj,
}
use inf3_os.Mm.Buddy.{max_order, Areas, put, pages_per_block}
use inf3_os.Mm.Buddy.Slots.{insert_link, remove_link}

-- 1 if the block of this order at `block` holds the page, else 0.
abbrev pub covers : ℕ → ℕ → ℕ → ℕ
covers order block page =
    if leb block page && ltb page (block + pages_per_block order) then 1 else 0

-- The number of the blocks of a free list that hold the page.
unfoldable pub hits : ℕ → List ℕ → ℕ → ℕ
hits order [] page = 0
hits order (block ∷ rest) page = covers order block page + hits order rest page

-- The same, over the orders below `n`.
unfoldable pub free_below : ℕ → Areas → ℕ → ℕ
unfolding hits
free_below zero areas page = 0
free_below (suc k) areas page = hits k (areas k) page + free_below k areas page

-- Over all the orders.
unfoldable pub free_count : Areas → ℕ → ℕ
unfolding free_below
free_count areas page = free_below max_order areas page

abbrev pub IsAligned : ℕ → ℕ → Type 0
IsAligned order block = block % 2 ^ order ≡ 0

-- Every free block is aligned to its order.
abbrev pub AreAligned : Areas → Type 0
AreAligned areas = (order : ℕ) → All (IsAligned order) (areas order)

pub hits-insert_link :
    (order pgd page : ℕ) (list : List ℕ)
    → hits order (insert_link pgd list).0 page ≡ covers order pgd page + hits order list page
unfolding hits insert_link
hits-insert_link order pgd page [] = refl
hits-insert_link order pgd page (x ∷ xs) = elim (Bool-cases (ltb x pgd)) [
  | inl e ↦ rw e (omega (arith, hits-insert_link order pgd page xs))
  | inr e ↦ rw e refl
]

pub All-insert_link {ℓ} :
    (P : ℕ → Type ℓ) (pgd : ℕ) (list : List ℕ) → P pgd → All P list → All P (insert_link pgd list).0
unfolding insert_link
All-insert_link P pgd [] h a = (h, tt)
All-insert_link P pgd (x ∷ xs) h a = elim (Bool-cases (ltb x pgd)) [
  | inl e ↦ rw e (a.0, All-insert_link P pgd xs h a.1)
  | inr e ↦ rw e (h, a)
]

-- How a removal goes past the first link.
pub remove_link-cons :
    (pgd x : ℕ) (xs : List ℕ) {rest : List ℕ}
    → remove_link pgd (x ∷ xs) ≡ some rest
    → (pgd ≡ x) × (xs ≡ rest)
      ⊎ ((ys : List ℕ) × (pgd ≢ x) × (remove_link pgd xs ≡ some ys) × (x ∷ ys ≡ rest))
unfolding remove_link
remove_link-cons pgd x xs {rest} h = elim (Bool-cases (pgd == x)) [
  | inl hit ↦ inl ((==_iff pgd x).0 hit, some_inj (rw hit at h))
  | inr miss ↦ elim (Option-cases (remove_link pgd xs)) [
    | inl absent ↦ let bad : none ≡ some rest = rw (miss, absent) at h in cc
    | inr (ys, found) ↦ inr (ys, ground arith, found, some_inj (rw (miss, found) at h))
  ]
]

-- What removal does to a list that holds the block.
pub record Removed (order pgd : ℕ) (list rest : List ℕ) : Type 0 where
  pub hits_eq : (page : ℕ) → hits order list page ≡ covers order pgd page + hits order rest page
  pub keeps : All (IsAligned order) list → All (IsAligned order) rest

pub remove_link-Removed :
    (order pgd : ℕ) (list : List ℕ) {rest : List ℕ}
    → remove_link pgd list ≡ some rest
    → Removed order pgd list rest
unfolding remove_link hits
remove_link-Removed order pgd [] h = cc
remove_link-Removed order pgd (x ∷ xs) h = elim (remove_link-cons pgd x xs h) [
  | inl (same, e) ↦ rw (← e, same) (record { hits_eq = λ page. refl; keeps = λ a. a.1 })
  | inr (ys, ne, found, e) ↦
      let inner = remove_link-Removed order pgd xs found in
      rw (← e) (record {
        hits_eq = λ page. omega (arith, inner.hits_eq page);
        keeps = λ a. (a.0, inner.keeps a.1);
      })
]

-- A block that a slot points to can be removed.
pub remove_link_at :
    (list : List ℕ) (slot : ℕ) {pgd : ℕ}
    → get_elem? list slot ≡ some pgd
    → (rest : List ℕ) × (remove_link pgd list ≡ some rest)
unfolding remove_link
remove_link_at [] slot h = cc
remove_link_at (x ∷ xs) zero h = (xs, ground arith)
remove_link_at (x ∷ xs) (suc slot) {pgd} h =
    let (rest, found) = remove_link_at xs slot h in
    elim (Bool-cases (pgd == x)) [
      | inl hit ↦ (xs, rw hit)
      | inr miss ↦ (x ∷ rest, rw (miss, found))
    ]

pub All_at {ℓ} :
    (P : ℕ → Type ℓ) (list : List ℕ) (slot : ℕ) {pgd : ℕ}
    → get_elem? list slot ≡ some pgd
    → All P list
    → P pgd
All_at P [] slot h a = cc
All_at P (x ∷ xs) zero {pgd} h a = let e : x ≡ pgd = some_inj h in rw e at a.0
All_at P (x ∷ xs) (suc slot) h a = All_at P xs slot h a.1

free_below-put_ge :
    (n k page : ℕ) (areas : Areas) (list : List ℕ)
    → n ≤ k
    → free_below n (put areas k list) page ≡ free_below n areas page
unfolding free_below
free_below-put_ge zero k page areas list h = refl
free_below-put_ge (suc n) k page areas list h =
    ground (arith, free_below-put_ge n k page areas list)

free_below-put :
    (n k page : ℕ) (areas : Areas) (list : List ℕ)
    → k < n
    → free_below n (put areas k list) page + hits k (areas k) page
      ≡ free_below n areas page + hits k list page
unfolding free_below
free_below-put zero k page areas list h = elim h [ ]
free_below-put (suc n) k page areas list h =
    ground (arith, free_below-put n k page areas list, free_below-put_ge n k page areas list)

pub free_count-put :
    (k page : ℕ) (areas : Areas) (list : List ℕ)
    → k < max_order
    → free_count (put areas k list) page + hits k (areas k) page
      ≡ free_count areas page + hits k list page
unfolding free_count
free_count-put k page areas list h = free_below-put max_order k page areas list h

pub put-AreAligned :
    (areas : Areas) (k : ℕ) (list : List ℕ)
    → AreAligned areas
    → All (IsAligned k) list
    → AreAligned (put areas k list)
put-AreAligned areas k list a h order = elim (Bool-cases (order == k)) [
  | inl e ↦ rw (e, (==_iff order k).0 e) h
  | inr e ↦ rw e (a order)
]

-- A block is its two halves.
pub covers_halves :
    (k block page : ℕ)
    → covers (suc k) block page ≡ covers k block page + covers k (block + pages_per_block k) page
covers_halves k block page = ground (arith, pow2-suc k)
