-- ===== src/Sched/Occurs.antt =====
-- How often an entity stands in a runqueue.
use inf3_os.Base.{
  inr, inl, Option-cases, none, some, ℕ, ◌+◌, ◌<◌, ◌≡◌, refl, List, [], ◌∷◌, ◌++◌, arith,
  if◌then◌else◌, ◌==◌, length,
}
use inf3_os.Util.Equality.{ℕ_eq}
use inf3_os.Util.LinkedList.{remove_link, LinkedList, u32_mod}
use inf3_os.Util.LinkedList.Counting.{IsCounted}

abbrev pub is_one : ℕ → ℕ → ℕ
is_one x y = if x == y then 1 else 0

unfoldable pub occurs : ℕ → List ℕ → ℕ
occurs e [] = 0
occurs e (x ∷ xs) = is_one x e + occurs e xs

pub occurs-append : (e : ℕ) (xs ys : List ℕ) → occurs e (xs ++ ys) ≡ occurs e xs + occurs e ys
unfolding occurs
occurs-append e [] ys = omega arith
occurs-append e (x ∷ xs) ys = omega (arith, occurs-append e xs ys)

-- The counter of the list is its length.
pub record IsFit (l : LinkedList ℕ) : Type 0 where
  pub counted : IsCounted l
  pub short : length l.elems < u32_mod

pub IsFit-counter : (l : LinkedList ℕ) → IsFit l → l.counter ≡ length l.elems
IsFit-counter l f = omega (arith, f.counted, f.short)

-- Removal by `List::remove`.
pub occurs-remove_link :
    (e x : ℕ) (xs : List ℕ) {rest : List ℕ}
    → remove_link x xs ≡ some rest
    → occurs e xs ≡ is_one x e + occurs e rest
unfolding remove_link occurs
occurs-remove_link e x [] h = cc
occurs-remove_link e x (y ∷ xs) h = elim (Option-cases (remove_link x xs)) [
  | inl absent ↦ ground arith
  | inr (ys, found) ↦ ground (arith, occurs-remove_link e x xs found)
]

pub occurs_absent : (x : ℕ) (xs : List ℕ) → remove_link x xs ≡ none → occurs x xs ≡ 0
unfolding remove_link occurs
occurs_absent x [] h = refl
occurs_absent x (y ∷ xs) h = elim (Option-cases (remove_link x xs)) [
  | inl absent ↦ ground (arith, occurs_absent x xs absent)
  | inr (ys, found) ↦ ground arith
]
