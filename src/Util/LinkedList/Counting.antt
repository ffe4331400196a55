-- ===== src/Util/LinkedList/Counting.antt =====
-- CourseWorks/infos/include/infos/util/list.h: what the operations do to the elements and to
-- `_count`.
use inf3_os.Base.{
  ℕ, suc, ◌%◌, ◌<◌, ◌≡◌, refl, List, [], ◌∷◌, ◌++◌, some, ok, arith, length, length-append,
  Option-cases, inl, inr,
}
use inf3_os.Util.Equality.{Eq}
use inf3_os.Util.LinkedList.{
  first_link, LinkedList, u32_mod, append_link, append, remove_link, remove, take_first, dequeue,
  push, first, decremented,
}

-- `_count` is the number of nodes, up to the wrap-around of an `unsigned int`.
abbrev pub IsCounted {ℓ} : {A : Type ℓ} → LinkedList A → Type 0
IsCounted l = l.counter ≡ length l.elems % u32_mod

module _ {ℓ} {A : Type ℓ} where
  pub append_link-append : (elem : A) (xs : List A) → append_link elem xs ≡ xs ++ elem ∷ []
  unfolding append_link
  append_link-append elem [] = refl
  append_link-append elem (x ∷ xs) = rw (append_link-append elem xs)

  pub elems-append : (l : LinkedList A) (elem : A) → (append l elem).elems ≡ l.elems ++ elem ∷ []
  unfolding append
  elems-append l elem = append_link-append elem l.elems

  pub append-IsCounted : (l : LinkedList A) (elem : A) → IsCounted l → IsCounted (append l elem)
  unfolding append
  append-IsCounted l elem h =
      rw (append_link-append elem l.elems, length-append l.elems (elem ∷ [])) (omega arith)

  remove_link-length :
      ⦃e : Eq A⦄
      → (elem : A) (xs : List A) {rest : List A} → remove_link elem xs ≡ some rest
      → length xs ≡ suc (length rest)
  unfolding remove_link
  remove_link-length elem [] h = cc
  remove_link-length ⦃e⦄ elem (x ∷ xs) {rest} h = elim (Option-cases (remove_link elem xs)) [
    | inl absent ↦ ground arith
    | inr (ys, found) ↦ ground (arith, remove_link-length elem xs found)
  ]

  pub remove-IsCounted :
      ⦃e : Eq A⦄ → (l : LinkedList A) (elem : A) → IsCounted l → IsCounted (remove l elem)
  unfolding remove
  remove-IsCounted l elem h = elim (Option-cases (remove_link elem l.elems)) [
    | inl absent ↦ rw (absent, remove) h
    | inr (ys, found) ↦ rw (found, remove) (omega (arith, remove_link-length elem l.elems found))
  ]

  -- `dequeue` panics on the empty list only.
  pub dequeue-cons :
      (l : LinkedList A) (x : A) (xs : List A)
      → l.elems ≡ x ∷ xs
      → dequeue l ≡ ok (x, record { elems = xs; counter = decremented l.counter })
  unfolding dequeue
  dequeue-cons l x xs h = rw (h, take_first)

  pub push-IsCounted : (l : LinkedList A) (elem : A) → IsCounted l → IsCounted (push l elem)
  unfolding push
  push-IsCounted l elem h = omega arith

  pub first-cons : (l : LinkedList A) (x : A) (xs : List A) → l.elems ≡ x ∷ xs → first l ≡ ok x
  unfolding first
  first-cons l x xs h = rw (h, first_link)

  pub remove-short :
      ⦃e : Eq A⦄
      → (l : LinkedList A) (elem : A) {n : ℕ} → length l.elems < n
      → length (remove l elem).elems < n
  unfolding remove
  remove-short l elem h = elim (Option-cases (remove_link elem l.elems)) [
    | inl absent ↦ rw (absent, remove) h
    | inr (ys, found) ↦ rw (found, remove) (omega (arith, remove_link-length elem l.elems found))
  ]
