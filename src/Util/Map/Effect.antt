-- ===== src/Util/Map/Effect.antt =====
-- CourseWorks/infos/include/infos/util/map.h: what `add` does to the map, on both branches.
use mathlib.Core.List.{append_assoc}
use inf3_os.Base.{
  zero, suc, suc, ◌⊎◌, ℕ, ◌≡◌, refl, sym, ap, ◌∙◌, subst, true, false, List, [], ◌∷◌, ◌++◌, Option,
  none, some, ok, arith, ◌==◌, ==_refl, if◌then◌else◌, inl, inr, length, length-append,
}
use inf3_os.Util.LinkedList.{incremented}
use inf3_os.Util.Map.{
  ℕ, List, Colour, red, black, Tree, leaf, node, Frame, left_of, right_of, up_to_root, is_red, add,
  add_at, Map, try_get_value, contains_key, find,
}
use inf3_os.Util.Map.Entries.{
  entries, before, behind, entries-up_to_root, AllBelow, AllAbove, IsSorted, lookup,
}
use inf3_os.Util.Map.Sorted.{
  IsSorted-IsSplitAt, IsSorted-insert, IsSorted-remove, lookup-insert, find-lookup, lookup_absent,
}
use inf3_os.Util.Map.Colours.{
  IsShaped, has_black_parent, has_red_parent, black_parent, up_to_root-IsShaped,
}
use inf3_os.Util.Map.Balancing.{rebalance_insert-IsShaped}
use inf3_os.Util.Map.Adding.{IsPlace, descend-IsPlace, IsMap, IsAdded}

module _ {V : Type 0} where
  find_entries :
      (t : Tree V) (front back : List (ℕ × V)) (key : ℕ) (value : V)
      → entries t ≡ front ++ (key, value) ∷ back
      → IsSorted (entries t)
      → (j : ℕ) → find j t ≡ (if j == key then some value else lookup j (front ++ back))
  find_entries t front back key value e sorted j =
      let place = IsSorted-IsSplitAt front key value back (subst IsSorted e sorted) in
      find-lookup j t sorted ∙ ap (lookup j) e ∙ lookup-insert front key value back j place.low

  -- A new key.
  inserted :
      (m : Map V) (t : Tree V) (front back : List (ℕ × V)) (key n : ℕ) (value : V)
      → IsMap m
      → IsShaped n t
      → is_red t ≡ false
      → entries m.root ≡ front ++ back
      → entries t ≡ front ++ (key, value) ∷ back
      → AllBelow key front
      → AllAbove key back
      → IsAdded m (record { root = t; counter = incremented m.counter }) key value
  unfolding try_get_value contains_key
  inserted m t front back key n value v shaped black_root old new low high =
      let sorted : IsSorted (entries t) =
        subst IsSorted (sym new)
          (IsSorted-insert front key value back (subst IsSorted old v.sorted) low high) in
      let absent : find key m.root ≡ none =
        find-lookup key m.root v.sorted
        ∙ ap (lookup key) old
        ∙ lookup_absent key front back low high in
      record {
        valid = record {
          height = n;
          shaped = shaped;
          black_root = black_root;
          sorted = sorted;
          counted = omega (
            arith,
            v.counted,
            ap length old,
            ap length new,
            length-append front back,
            length-append front ((key, value) ∷ back),
          );
        };
        reads = λ j.
            find_entries t front back key value new sorted j
            ∙ ap (λ (o : Option V). if j == key then some value else o)
                (sym (find-lookup j m.root v.sorted ∙ ap (lookup j) old));
        counts = rw (absent, contains_key) refl;
      }

  -- A key that is there.
  replaced :
      (m : Map V) (t : Tree V) (front back : List (ℕ × V)) (key n : ℕ) (old_value value : V)
      → IsMap m
      → IsShaped n t
      → is_red t ≡ false
      → entries m.root ≡ front ++ (key, old_value) ∷ back
      → entries t ≡ front ++ (key, value) ∷ back
      → IsAdded m (record m { root = t }) key value
  unfolding try_get_value contains_key
  replaced m t front back key n old_value value v shaped black_root old new =
      let was_sorted = subst IsSorted old v.sorted in
      let place = IsSorted-IsSplitAt front key old_value back was_sorted in
      let sorted : IsSorted (entries t) = subst IsSorted (sym new) (
        IsSorted-insert front key value back (IsSorted-remove front key old_value back was_sorted)
          place.low place.high) in
      let present : find key m.root ≡ some old_value =
        find_entries m.root front back key old_value old v.sorted key ∙ rw (==_refl key) refl in
      record {
        valid = record {
          height = n;
          shaped = shaped;
          black_root = black_root;
          sorted = sorted;
          counted = omega (
            arith,
            v.counted,
            ap length old,
            ap length new,
            length-append front ((key, old_value) ∷ back),
            length-append front ((key, value) ∷ back),
          );
        };
        reads = λ j.
            rw
              (
                find_entries t front back key value new sorted j,
                find_entries m.root front back key old_value old v.sorted j,
              )
              (ground arith);
        counts = rw (present, contains_key) refl;
      }

  entries_of_place :
      (m : Map V) (key : ℕ) (place : Tree V) (path : List (Frame V))
      → IsPlace key m.root place path
      → entries m.root ≡ before path ++ (entries place ++ behind path)
  entries_of_place m key place path p = ap entries (sym p.whole_is) ∙ entries-up_to_root path place

  up_to_root-is_red :
      (path : List (Frame V)) (s t : Tree V)
      → is_red s ≡ is_red t
      → is_red (up_to_root path s) ≡ is_red (up_to_root path t)
  unfolding up_to_root
  up_to_root-is_red [] s t h = h
  up_to_root-is_red (left_of red k v r ∷ fs) s t h =
      up_to_root-is_red fs (node red s k v r) (node red t k v r) refl
  up_to_root-is_red (left_of black k v r ∷ fs) s t h =
      up_to_root-is_red fs (node black s k v r) (node black t k v r) refl
  up_to_root-is_red (right_of red l k v ∷ fs) s t h =
      up_to_root-is_red fs (node red l k v s) (node red l k v t) refl
  up_to_root-is_red (right_of black l k v ∷ fs) s t h =
      up_to_root-is_red fs (node black l k v s) (node black l k v t) refl

  revalue_shape :
      (n : ℕ) (c : Colour) (l : Tree V) (k key : ℕ) (v value : V) (r : Tree V)
      → IsShaped n (node c l k v r)
      → IsShaped n (node c l key value r)
        × (is_red (node c l key value r) ≡ is_red (node c l k v r))
  revalue_shape n red l k key v value r s = (s, refl)
  revalue_shape (suc n) black l k key v value r s = (s, refl)
  revalue_shape zero black l k key v value r s = elim s [ ]

  no_red_parent :
      (t : Tree V) (path : List (Frame V))
      → (is_red t ≡ false) ⊎ (has_black_parent path ≡ true)
      → (is_red t ≡ false) ⊎ (has_red_parent path ≡ false)
  no_red_parent t path (inl h) = inl h
  no_red_parent t path (inr h) = inr (black_parent path h)

  around :
      (a b c d : List (ℕ × V)) (k key : ℕ) (v : V)
      → k ≡ key
      → a ++ ((b ++ (k, v) ∷ c) ++ d) ≡ (a ++ b) ++ (key, v) ∷ (c ++ d)
  around a b c d k key v h = rw h (simp append_assoc)

  add_at-IsAdded :
      (m : Map V) (key : ℕ) (value : V) (place : Tree V) (path : List (Frame V))
      → IsMap m
      → IsPlace key m.root place path
      → (m' : Map V) × (add_at m key value place path ≡ ok m') × IsAdded m m' key value
  unfolding add_at entries up_to_root
  add_at-IsAdded m key value leaf [] v p =
      let t : Tree V = node black leaf key value leaf in
      (
        record { root = t; counter = incremented m.counter },
        refl,
        inserted m t [] [] key 1 value v (tt, tt) refl (ap entries (sym p.whole_is)) refl tt tt,
      )
  add_at-IsAdded m key value leaf (f ∷ path) v p =
      let x : Tree V = node red leaf key value leaf in
      let (t, n, done, shaped, black_root, same) =
        rebalance_insert-IsShaped p.height (f ∷ path) x p.path_shaped
          (refl, refl, p.shaped, p.shaped) refl in
      (
        record { root = t; counter = incremented m.counter },
        rw done refl,
        inserted m t (before (f ∷ path)) (behind (f ∷ path)) key n value v shaped black_root
            (entries_of_place m key leaf (f ∷ path) p) (same ∙ entries-up_to_root (f ∷ path) x)
            p.low p.high,
      )
  add_at-IsAdded m key value (node c l k old r) path v p =
      let t : Tree V = up_to_root path (node c l k value r) in
      let (shaped, same_colour) = revalue_shape p.height c l k k old value r p.shaped in
      let colours : (is_red (node c l k value r) ≡ false) ⊎ (has_black_parent path ≡ true) =
        elim p.colours [ inl h ↦ inl (same_colour ∙ h) | inr h ↦ inr h ] in
      let (n, root_shaped) =
        up_to_root-IsShaped p.height path (node c l k value r) p.path_shaped shaped
          (no_red_parent (node c l k value r) path colours) in
      let key_is : k ≡ key = ground (arith, p.hits) in
      let front = before path ++ entries l in
      let back = entries r ++ behind path in
      (
        record m { root = t },
        refl,
        replaced m t front back key n old value v root_shaped
            (up_to_root-is_red path (node c l k value r) (node c l k old r) same_colour
              ∙ ap is_red p.whole_is
              ∙ v.black_root)
            (entries_of_place m key (node c l k old r) path p
              ∙ around (before path) (entries l) (entries r) (behind path) k key old key_is)
            (entries-up_to_root path (node c l k value r)
              ∙ around (before path) (entries l) (entries r) (behind path) k key value key_is),
      )

  -- `add` of any key to a valid map finishes: no assertion fails and no NULL is followed. The map is
  -- valid again: a red-black tree with a black root and ascending keys, whose entries `_count`
  -- counts modulo 2 ^ 32. The key reads as the value, every other key as before, and the count goes
  -- up by one exactly where the key is new.
  pub add-IsAdded :
      (m : Map V) (key : ℕ) (value : V)
      → IsMap m
      → (m' : Map V) × (add m key value ≡ ok m') × IsAdded m m' key value
  unfolding add up_to_root before behind
  add-IsAdded m key value v =
      let (place, path, done, p) =
        descend-IsPlace key v.height m.root [] tt v.shaped (inl v.black_root) tt tt v.sorted in
      let (m', added, effect) = add_at-IsAdded m key value place path v p in
      (m', rw done added, effect)
