-- ===== src/Util/LinkedList.antt =====
-- CourseWorks/infos/include/infos/util/list.h: the singly linked `List`. The nodes that `_elems`
-- leads to are a list of their data; `_count` is an `unsigned int`, which wraps.
pub mod Counting
pub mod History
use inf3_os.Base.{
  ℕ, zero, suc, ◌+◌, ◌-◌, ◌%◌, ◌^◌, Bool, List, [], ◌∷◌, Option, none, some, if◌then◌else◌, ◌==◌,
  Outcome, ok, panic, ◌>>=◌,
}
use mathlib.Core.Option
use inf3_os.Util.Equality.{Eq}

pub record LinkedList {ℓ} (A : Type ℓ) : Type ℓ where
  pub elems : List A
  pub counter : ℕ

abbrev pub u32_mod : ℕ
u32_mod = 2 ^ 32

abbrev pub incremented : ℕ → ℕ
incremented n = (n + 1) % u32_mod

abbrev pub decremented : ℕ → ℕ
decremented n = (n + u32_mod - 1) % u32_mod

module _ {ℓ} {A : Type ℓ} where
  abbrev pub new : LinkedList A
  new = record { elems = []; counter = 0 }

  -- The walk of `append` to the last slot.
  unfoldable pub append_link : A → List A → List A
  append_link elem [] = elem ∷ []
  append_link elem (x ∷ xs) = x ∷ append_link elem xs

  unfoldable pub append : LinkedList A → A → LinkedList A
  unfolding append_link
  append l elem = record { elems = append_link elem l.elems; counter = incremented l.counter }

  -- The walk of `remove`; `none` where the end is reached.
  unfoldable pub remove_link : ⦃e : Eq A⦄ → A → List A → Option (List A)
  remove_link elem [] = none
  remove_link ⦃e⦄ elem (x ∷ xs) =
      if e.same x elem then some xs else Option.map (◌∷◌ x) (remove_link elem xs)

  unfoldable pub remove : ⦃e : Eq A⦄ → LinkedList A → A → LinkedList A
  unfolding remove_link
  remove l elem = elim (remove_link elem l.elems) [
    | none ↦ l
    | some rest ↦ record { elems = rest; counter = decremented l.counter }
  ]

  -- By the first node.
  take_first : ℕ → List A → Outcome (A × LinkedList A)
  take_first n [] = panic
  take_first n (x ∷ xs) = ok (x, record { elems = xs; counter = decremented n })

  unfoldable pub dequeue : LinkedList A → Outcome (A × LinkedList A)
  unfolding take_first
  dequeue l = take_first l.counter l.elems

  unfoldable pub enqueue : LinkedList A → A → LinkedList A
  unfolding append
  enqueue l elem = append l elem

  unfoldable pub push : LinkedList A → A → LinkedList A
  push l elem = record { elems = elem ∷ l.elems; counter = incremented l.counter }

  unfoldable pub pop : LinkedList A → Outcome (A × LinkedList A)
  unfolding dequeue
  pop l = dequeue l

  first_link : List A → Outcome A
  first_link [] = panic
  first_link (x ∷ xs) = ok x

  unfoldable pub first : LinkedList A → Outcome A
  unfolding first_link
  first l = first_link l.elems

  -- The walk of `last` from the node that holds `elem`.
  last_link : A → List A → A
  last_link elem [] = elem
  last_link elem (x ∷ xs) = last_link x xs

  last_from : List A → Outcome A
  last_from [] = panic
  last_from (x ∷ xs) = ok (last_link x xs)

  unfoldable pub last : LinkedList A → Outcome A
  unfolding last_link last_from
  last l = last_from l.elems

  -- `while (ctr != index && n)`, then `assert(n)`.
  at_link : ℕ → ℕ → List A → Outcome A
  at_link ctr index [] = panic
  at_link ctr index (x ∷ xs) = if ctr == index then ok x else at_link (ctr + 1) index xs

  unfoldable pub at : LinkedList A → ℕ → Outcome A
  unfolding at_link
  at l index = at_link 0 index l.elems

  abbrev pub count : LinkedList A → ℕ
  count l = l.counter

  abbrev pub empty : LinkedList A → Bool
  empty l = l.counter == 0

  abbrev pub clear : LinkedList A → LinkedList A
  clear l = record { elems = []; counter = 0 }
