-- ===== src/Util/Map/Sorted.antt =====
-- CourseWorks/infos/include/infos/util/map.h: rows of entries with ascending keys, and the search in
-- them.
use inf3_os.Base.{
  ℕ, ◌<◌, ◌≤◌, ◌≡◌, refl, sym, ◌∙◌, true, false, List, [], ◌∷◌, ◌++◌, none, some, arith, All-append,
  ltb, ◌==◌, if◌then◌else◌, Bool-cases, inl, inr,
}
use inf3_os.Util.Map.{Tree, leaf, node, find}
use inf3_os.Util.Map.Entries.{entries, AllBelow, AllAbove, IsSorted, lookup}

module _ {V : Type 0} where
  pub AllAbove-le : (a b : ℕ) (es : List (ℕ × V)) → a ≤ b → AllAbove b es → AllAbove a es
  AllAbove-le a b [] h above = tt
  AllAbove-le a b (e ∷ es) h (low, above) = (omega (arith, low, h), AllAbove-le a b es h above)

  pub AllBelow-le : (a b : ℕ) (es : List (ℕ × V)) → a ≤ b → AllBelow a es → AllBelow b es
  AllBelow-le a b [] h below = tt
  AllBelow-le a b (e ∷ es) h (low, below) = (omega (arith, low, h), AllBelow-le a b es h below)

  AllAbove-append :
      (a : ℕ) (xs ys : List (ℕ × V)) → AllAbove a (xs ++ ys) → AllAbove a xs × AllAbove a ys
  AllAbove-append a [] ys h = (tt, h)
  AllAbove-append a (x ∷ xs) ys (low, h) =
      let (left, right) = AllAbove-append a xs ys h in ((low, left), right)

  -- What the keys around an entry are.
  pub record IsSplitAt (front : List (ℕ × V)) (key : ℕ) (back : List (ℕ × V)) : Type 0 where
    pub low : AllBelow key front
    pub high : AllAbove key back
    pub front_sorted : IsSorted front
    pub back_sorted : IsSorted back

  pub IsSorted-IsSplitAt :
      (front : List (ℕ × V)) (key : ℕ) (value : V) (back : List (ℕ × V))
      → IsSorted (front ++ (key, value) ∷ back)
      → IsSplitAt front key back
  IsSorted-IsSplitAt [] key value back (above, sorted) = record {
    low = tt;
    high = above;
    front_sorted = tt;
    back_sorted = sorted;
  }
  IsSorted-IsSplitAt (x ∷ front) key value back (above, sorted) =
      let rest = IsSorted-IsSplitAt front key value back sorted in
      let (left, right) = AllAbove-append x.0 front ((key, value) ∷ back) above in
      record {
        low = (right.0, rest.low);
        high = rest.high;
        front_sorted = (left, rest.front_sorted);
        back_sorted = rest.back_sorted;
      }

  -- A row with one more entry between.
  pub IsSorted-insert :
      (front : List (ℕ × V)) (key : ℕ) (value : V) (back : List (ℕ × V))
      → IsSorted (front ++ back)
      → AllBelow key front
      → AllAbove key back
      → IsSorted (front ++ (key, value) ∷ back)
  IsSorted-insert [] key value back sorted low high = (high, sorted)
  IsSorted-insert (x ∷ front) key value back (above, sorted) (under, low) high =
      let (left, right) = AllAbove-append x.0 front back above in
      (
        All-append (λ (e : ℕ × V). x.0 < e.0) front ((key, value) ∷ back) left (under, right),
        IsSorted-insert front key value back sorted low high,
      )

  pub IsSorted-remove :
      (front : List (ℕ × V)) (key : ℕ) (value : V) (back : List (ℕ × V))
      → IsSorted (front ++ (key, value) ∷ back)
      → IsSorted (front ++ back)
  IsSorted-remove [] key value back (above, sorted) = sorted
  IsSorted-remove (x ∷ front) key value back (above, sorted) =
      let (left, right) = AllAbove-append x.0 front ((key, value) ∷ back) above in
      (
        All-append (λ (e : ℕ × V). x.0 < e.0) front back left right.1,
        IsSorted-remove front key value back sorted,
      )

  lookup_below :
      (key bound : ℕ) (es : List (ℕ × V)) → AllBelow bound es → bound ≤ key → lookup key es ≡ none
  unfolding lookup
  lookup_below key bound [] low h = refl
  lookup_below key bound (e ∷ es) (under, low) h =
      ground (arith, lookup_below key bound es low h, under, h)

  lookup_above :
      (key bound : ℕ) (es : List (ℕ × V)) → AllAbove bound es → key ≤ bound → lookup key es ≡ none
  unfolding lookup
  lookup_above key bound [] high h = refl
  lookup_above key bound (e ∷ es) (over, high) h =
      ground (arith, lookup_above key bound es high h, over, h)

  lookup-append_left :
      (key : ℕ) (xs ys : List (ℕ × V))
      → lookup key xs ≡ none
      → lookup key (xs ++ ys) ≡ lookup key ys
  unfolding lookup
  lookup-append_left key [] ys h = refl
  lookup-append_left key (x ∷ xs) ys h = ground (arith, lookup-append_left key xs ys)

  lookup-append_right :
      (key : ℕ) (xs ys : List (ℕ × V))
      → lookup key ys ≡ none
      → lookup key (xs ++ ys) ≡ lookup key xs
  unfolding lookup
  lookup-append_right key [] ys h = h
  lookup-append_right key (x ∷ xs) ys h = ground (arith, lookup-append_right key xs ys h)

  pub lookup_absent :
      (key : ℕ) (front back : List (ℕ × V))
      → AllBelow key front
      → AllAbove key back
      → lookup key (front ++ back) ≡ none
  lookup_absent key front back low high =
      lookup-append_left key front back (lookup_below key key front low (omega arith))
      ∙ lookup_above key key back high (omega arith)

  -- The search with one more entry between.
  pub lookup-insert :
      (front : List (ℕ × V)) (key : ℕ) (value : V) (back : List (ℕ × V)) (j : ℕ)
      → AllBelow key front
      → lookup j (front ++ (key, value) ∷ back)
        ≡ (if j == key then some value else lookup j (front ++ back))
  unfolding lookup
  lookup-insert [] key value back j low = refl
  lookup-insert (x ∷ front) key value back j (under, low) =
      ground (arith, lookup-insert front key value back j low, under)

  lookup_left :
      (key k : ℕ) (v : V) (xs ys : List (ℕ × V))
      → key < k
      → AllAbove k ys
      → lookup key (xs ++ (k, v) ∷ ys) ≡ lookup key xs
  lookup_left key k v xs ys less high = lookup-append_right key xs ((k, v) ∷ ys) (
      lookup_above key key ((k, v) ∷ ys) (less, AllAbove-le key k ys (omega (arith, less)) high)
        (omega arith))

  lookup_right :
      (key k : ℕ) (v : V) (xs ys : List (ℕ × V))
      → k < key
      → AllBelow k xs
      → lookup key (xs ++ (k, v) ∷ ys) ≡ lookup key ys
  unfolding lookup
  lookup_right key k v xs ys greater low =
      let other : (key == k) ≡ false = ground (arith, greater) in
      lookup-append_left key xs ((k, v) ∷ ys) (lookup_below key k xs low (omega (arith, greater)))
      ∙ rw other refl

  lookup_here :
      (key k : ℕ) (v : V) (xs ys : List (ℕ × V))
      → (key == k) ≡ true
      → AllBelow k xs
      → lookup key (xs ++ (k, v) ∷ ys) ≡ some v
  unfolding lookup
  lookup_here key k v xs ys same low =
      lookup-append_left key xs ((k, v) ∷ ys) (lookup_below key k xs low (ground (arith, same)))
      ∙ rw same refl

  -- The search in the tree is the search in its entries.
  pub find-lookup :
      (key : ℕ) (t : Tree V) → IsSorted (entries t) → find key t ≡ lookup key (entries t)
  unfolding find lookup entries
  find-lookup key leaf sorted = refl
  find-lookup key (node c l k v r) sorted =
      let s = IsSorted-IsSplitAt (entries l) k v (entries r) sorted in
      let in_left = find-lookup key l s.front_sorted in
      let in_right = find-lookup key r s.back_sorted in
      elim (Bool-cases (ltb key k)) [
        | inl less ↦
            rw (less, in_left)
              (sym (lookup_left key k v (entries l) (entries r) (ground arith) s.high))
        | inr more ↦ elim (Bool-cases (ltb k key)) [
          | inl greater ↦
              rw (more, greater, in_right)
                (sym (lookup_right key k v (entries l) (entries r) (ground arith) s.low))
          | inr equal ↦
              rw (more, equal)
                (sym (lookup_here key k v (entries l) (entries r) (ground arith) s.low))
        ]
      ]
