-- ===== src/Mm/Buddy/Ascending.antt =====
-- CourseWorks/coursework/buddy.cpp: the free lists are in ascending order.
use inf3_os.Base.{
  ℕ, ◌≤◌, ◌≡◌, some, List, [], ◌∷◌, ltb, ◌==◌, All, arith, ok, Bool-cases, Option-cases, inl, inr,
  ok_inj, panic-ne-ok,
}
use inf3_os.Mm.Buddy.{Areas, put, insert_block, remove_block}
use inf3_os.Mm.Buddy.Slots.{insert_link, remove_link}
use inf3_os.Mm.Buddy.Measure.{remove_link-cons, All-insert_link}

abbrev pub IsAscending : List ℕ → Type 0
IsAscending [] = Unit {0}
IsAscending (x ∷ xs) = All (λ y. x ≤ y) xs × IsAscending xs

-- Every free list is in ascending order.
abbrev pub AreAscending : Areas → Type 0
AreAscending areas = (order : ℕ) → IsAscending (areas order)

All-remove_link {ℓ} :
    (P : ℕ → Type ℓ) (pgd : ℕ) (list : List ℕ) {rest : List ℕ}
    → remove_link pgd list ≡ some rest
    → All P list
    → All P rest
unfolding remove_link
All-remove_link P pgd [] h a = cc
All-remove_link P pgd (x ∷ xs) h a = elim (remove_link-cons pgd x xs h) [
  | inl (_, e) ↦ rw (← e) a.1
  | inr (ys, _, found, e) ↦ rw (← e) (a.0, All-remove_link P pgd xs found a.1)
]

All-trans : (a b : ℕ) (xs : List ℕ) → a ≤ b → All (λ y. b ≤ y) xs → All (λ y. a ≤ y) xs
All-trans a b [] h all = tt
All-trans a b (x ∷ xs) h all = (omega arith, All-trans a b xs h all.1)

insert_link-IsAscending :
    (pgd : ℕ) (list : List ℕ) → IsAscending list → IsAscending (insert_link pgd list).0
unfolding insert_link
insert_link-IsAscending pgd [] h = (tt, tt)
insert_link-IsAscending pgd (x ∷ xs) h = elim (Bool-cases (ltb x pgd)) [
  | inl e ↦
      rw e
        (All-insert_link (λ y. x ≤ y) pgd xs (ground arith) h.0, insert_link-IsAscending pgd xs h.1)
  | inr e ↦ rw e ((ground arith, All-trans pgd x xs (ground arith) h.0), h)
]

remove_link-IsAscending :
    (pgd : ℕ) (list : List ℕ) {rest : List ℕ}
    → remove_link pgd list ≡ some rest
    → IsAscending list
    → IsAscending rest
unfolding remove_link
remove_link-IsAscending pgd [] h s = cc
remove_link-IsAscending pgd (x ∷ xs) h s = elim (remove_link-cons pgd x xs h) [
  | inl (_, e) ↦ rw (← e) s.1
  | inr (ys, _, found, e) ↦
      rw (← e)
        (All-remove_link (λ y. x ≤ y) pgd xs found s.0, remove_link-IsAscending pgd xs found s.1)
]

put-AreAscending :
    (areas : Areas) (k : ℕ) (list : List ℕ)
    → AreAscending areas
    → IsAscending list
    → AreAscending (put areas k list)
put-AreAscending areas k list a h order = elim (Bool-cases (order == k)) [
  | inl e ↦ rw e h
  | inr e ↦ rw e (a order)
]

-- `insert_block` and `remove_block` keep every free list in ascending order.
pub insert_block-AreAscending :
    (areas : Areas) (pgd order : ℕ)
    → AreAscending areas
    → AreAscending (insert_block areas pgd order).0
unfolding insert_block
insert_block-AreAscending areas pgd order a =
    put-AreAscending areas order _ a (insert_link-IsAscending pgd (areas order) (a order))

pub remove_block-AreAscending :
    (areas left : Areas) (pgd order : ℕ)
    → remove_block areas pgd order ≡ ok left
    → AreAscending areas
    → AreAscending left
unfolding remove_block
remove_block-AreAscending areas left pgd order h a =
    elim (Option-cases (remove_link pgd (areas order))) [
      | inl absent ↦ panic-ne-ok {a = left} (rw absent at h)
      | inr (rest, found) ↦
          let e : put areas order rest ≡ left = ok_inj (rw found at h) in
          rw (← e) (
            put-AreAscending areas order rest a
              (remove_link-IsAscending pgd (areas order) found (a order)))
    ]
