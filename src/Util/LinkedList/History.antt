-- ===== src/Util/LinkedList/History.antt =====
-- CourseWorks/infos/include/infos/util/list.h: the linked list against plain sequences.
use inf3_os.Base.{
  ap, sym, ℕ, zero, suc, ◌+◌, ◌≡◌, refl, List, [], ◌∷◌, ◌++◌, Option, none, some, Outcome, ok,
  panic, arith, length, get_elem?, if◌then◌else◌, Option-cases, inl, inr, ◌>>=◌,
}
use inf3_os.Util.Equality.{Eq}
use inf3_os.Util.LinkedList.{
  LinkedList, append, remove, remove_link, dequeue, take_first, push, clear, last, last_link,
  last_from, at, at_link, append_link,
}
use inf3_os.Util.LinkedList.Counting.{
  push-IsCounted, IsCounted, elems-append, append-IsCounted, remove-IsCounted,
}

-- The calls that change a list.
pub data Call (A : Type 0) : Type 0 where
  appends removes pushes : A → Call A
  dequeues clears : Call A

module _ {A : Type 0} ⦃e : Eq A⦄ where
  pub call : LinkedList A → Call A → Outcome (LinkedList A)
  call l (appends x) = ok (append l x)
  call l (removes x) = ok (remove l x)
  call l (pushes x) = ok (push l x)
  call l dequeues = dequeue l >>= λ r. ok (r.1)
  call l clears = ok (clear l)

  -- The same on a sequence: the first equal element is erased, and the first element is taken.
  pub erase : A → List A → List A
  erase x [] = []
  erase x (y ∷ ys) = if e.same y x then ys else y ∷ erase x ys

  pub tail_of : List A → Outcome (List A)
  tail_of [] = panic
  tail_of (x ∷ xs) = ok xs

  pub spec : List A → Call A → Outcome (List A)
  spec xs (appends x) = ok (xs ++ x ∷ [])
  spec xs (removes x) = ok (erase x xs)
  spec xs (pushes x) = ok (x ∷ xs)
  spec xs dequeues = tail_of xs
  spec xs clears = ok []

  pub calls : LinkedList A → List (Call A) → Outcome (LinkedList A)
  unfolding call
  calls l [] = ok l
  calls l (c ∷ cs) = call l c >>= λ l'. calls l' cs

  pub specs : List A → List (Call A) → Outcome (List A)
  unfolding spec
  specs xs [] = ok xs
  specs xs (c ∷ cs) = spec xs c >>= λ xs'. specs xs' cs

  -- A list that holds these elements and counts them.
  abbrev pub Shows : Outcome (List A) → Outcome (LinkedList A) → Type 0
  Shows (ok xs) (ok l) = (l.elems ≡ xs) × IsCounted l
  Shows panic panic = Unit
  Shows (ok xs) panic = ⊥
  Shows panic (ok l) = ⊥

  remove_link-none : (x : A) (xs : List A) → remove_link x xs ≡ none → erase x xs ≡ xs
  unfolding remove_link erase
  remove_link-none x [] h = refl
  remove_link-none x (y ∷ ys) h = elim (Option-cases (remove_link x ys)) [
    | inl absent ↦ ground (arith, remove_link-none x ys absent)
    | inr (rest, found) ↦ ground arith
  ]

  remove_link-some :
      (x : A) (xs : List A) {rest : List A} → remove_link x xs ≡ some rest → rest ≡ erase x xs
  unfolding remove_link erase
  remove_link-some x [] h = cc
  remove_link-some x (y ∷ ys) h = elim (Option-cases (remove_link x ys)) [
    | inl absent ↦ ground arith
    | inr (rest, found) ↦ ground (arith, remove_link-some x ys found)
  ]

  elems-remove : (l : LinkedList A) (x : A) → (remove l x).elems ≡ erase x l.elems
  unfolding remove
  elems-remove l x = elim (Option-cases (remove_link x l.elems)) [
    | inl absent ↦ rw (absent, remove) (sym (remove_link-none x l.elems absent))
    | inr (rest, found) ↦ rw (found, remove) (remove_link-some x l.elems found)
  ]

  dequeue-Shows :
      (l : LinkedList A) (xs : List A)
      → l.elems ≡ xs
      → IsCounted l
      → Shows (tail_of xs) (dequeue l >>= λ r. ok (r.1))
  unfolding tail_of dequeue
  dequeue-Shows l [] e h = rw (e, take_first) tt
  dequeue-Shows l (x ∷ xs) e h = rw (e, take_first) (refl, omega (arith, ap length e))

  call-Shows : (l : LinkedList A) (c : Call A) → IsCounted l → Shows (spec l.elems c) (call l c)
  unfolding call spec push
  call-Shows l (appends x) h = (elems-append l x, append-IsCounted l x h)
  call-Shows l (removes x) h = (elems-remove l x, remove-IsCounted l x h)
  call-Shows l (pushes x) h = (refl, push-IsCounted l x h)
  call-Shows l dequeues h = dequeue-Shows l l.elems refl h
  call-Shows l clears h = (refl, refl)

  calls-next :
      (cs : List (Call A)) (s : Outcome (List A)) (m : Outcome (LinkedList A))
      → Shows s m
      → ((l : LinkedList A) → IsCounted l → Shows (specs l.elems cs) (calls l cs))
      → Shows (s >>= λ xs. specs xs cs) (m >>= λ l. calls l cs)
  calls-next cs (ok xs) (ok l) (e, h) k = rw (← e) (k l h)
  calls-next cs (ok xs) panic no_way k = absurd no_way
  calls-next cs panic (ok l) no_way k = absurd no_way
  calls-next cs panic panic h k = tt

  -- Any history of calls does to the linked list what it does to a plain sequence: it panics
  -- exactly when the sequence is empty at a `dequeue`, and otherwise the elements are the same and
  -- `_count` is their number modulo 2 ^ 32.
  pub calls-Shows :
      (l : LinkedList A) (cs : List (Call A)) → IsCounted l → Shows (specs l.elems cs) (calls l cs)
  unfolding calls specs
  calls-Shows l [] h = (refl, h)
  calls-Shows l (c ∷ cs) h =
      calls-next cs (spec l.elems c) (call l c) (call-Shows l c h) (λ l' h'. calls-Shows l' cs h')

  abbrev pub or_panic : Option A → Outcome A
  or_panic none = panic
  or_panic (some x) = ok x

  at_link_lem :
      (ctr left index : ℕ) (xs : List A)
      → ctr + left ≡ index
      → at_link ctr index xs ≡ or_panic (get_elem? xs left)
  unfolding at_link
  at_link_lem ctr left index [] h = refl
  at_link_lem ctr zero index (x ∷ xs) h = ground arith
  at_link_lem ctr (suc left) index (x ∷ xs) h = ground (arith, at_link_lem (ctr + 1) left index xs)

  last_link-append : (x y : A) (xs : List A) → last_link y (append_link x xs) ≡ x
  unfolding last_link append_link
  last_link-append x y [] = refl
  last_link-append x y (z ∷ zs) = last_link-append x z zs

  last_from-append : (x : A) (xs : List A) → last_from (append_link x xs) ≡ ok x
  unfolding last_from append_link last_link
  last_from-append x [] = refl
  last_from-append x (y ∷ ys) = ap ok (last_link-append x y ys)

  -- Reading: `at` panics exactly outside the list.
  pub at_lem : (l : LinkedList A) (index : ℕ) → at l index ≡ or_panic (get_elem? l.elems index)
  unfolding at
  at_lem l index = at_link_lem 0 index index l.elems (omega arith)

  -- What was appended stands last, and is what was appended.
  pub last-append : (l : LinkedList A) (x : A) → last (append l x) ≡ ok x
  unfolding last append
  last-append l x = last_from-append x l.elems
