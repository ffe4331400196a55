-- ===== src/Util/Map/Adding.antt =====
-- CourseWorks/infos/include/infos/util/map.h: `add` and `try_get_value`.
use inf3_os.Base.{
  ◌⊎◌, ℕ, zero, suc, ◌%◌, ◌<◌, ◌≡◌, refl, true, false, List, [], ◌∷◌, ◌++◌, some, arith, All-append,
  ltb, ◌==◌, if◌then◌else◌, Bool-cases, inl, inr, length,
}
use inf3_os.Util.LinkedList.{incremented, u32_mod}
use inf3_os.Util.Map.{
  contains_key, Colour, red, black, Tree, leaf, node, Frame, left_of, right_of, up_to_root, is_red,
  descend, Map, try_get_value,
}
use inf3_os.Util.Map.Entries.{entries, before, behind, AllBelow, AllAbove, IsSorted}
use inf3_os.Util.Map.Sorted.{IsSorted-IsSplitAt, AllAbove-le, AllBelow-le}
use inf3_os.Util.Map.Colours.{IsShaped, IsPath, has_black_parent}

module _ {V : Type 0} where
  abbrev pub Hits : ℕ → Tree V → Type 0
  Hits key leaf = Unit
  Hits key (node c l k v r) = (key == k) ≡ true

  -- What the walk of `add` finds in a tree.
  pub record IsPlace (key : ℕ) (whole place : Tree V) (path : List (Frame V)) : Type 0 where
    pub height : ℕ
    pub path_shaped : IsPath height path
    pub shaped : IsShaped height place
    pub colours : (is_red place ≡ false) ⊎ (has_black_parent path ≡ true)
    pub whole_is : up_to_root path place ≡ whole
    pub low : AllBelow key (before path)
    pub high : AllAbove key (behind path)
    pub sorted : IsSorted (entries place)
    pub hits : Hits key place

  frame_black :
      (l : Tree V) (k : ℕ) (v : V) (r : Tree V) (path : List (Frame V))
      → (is_red (node red l k v r) ≡ false) ⊎ (has_black_parent path ≡ true)
      → has_black_parent path ≡ true
  frame_black l k v r path (inl h) = cc
  frame_black l k v r path (inr h) = h

  -- One step of the walk.
  step_left :
      (n : ℕ) (c : Colour) (l : Tree V) (k : ℕ) (v : V) (r : Tree V) (path : List (Frame V))
      → IsPath n path
      → IsShaped n (node c l k v r)
      → (is_red (node c l k v r) ≡ false) ⊎ (has_black_parent path ≡ true)
      → (m : ℕ) × IsPath m (left_of c k v r ∷ path)
        × IsShaped m l
        × ((is_red l ≡ false) ⊎ (has_black_parent (left_of c k v r ∷ path) ≡ true))
  step_left n red l k v r path p (bl, br, sl, sr) b =
      (n, (frame_black l k v r path b, br, sr, p), sl, inl bl)
  step_left (suc n) black l k v r path p (sl, sr) b = (n, (sr, p), sl, inr refl)
  step_left zero black l k v r path p s b = elim s [ ]

  step_right :
      (n : ℕ) (c : Colour) (l : Tree V) (k : ℕ) (v : V) (r : Tree V) (path : List (Frame V))
      → IsPath n path
      → IsShaped n (node c l k v r)
      → (is_red (node c l k v r) ≡ false) ⊎ (has_black_parent path ≡ true)
      → (m : ℕ) × IsPath m (right_of c l k v ∷ path)
        × IsShaped m r
        × ((is_red r ≡ false) ⊎ (has_black_parent (right_of c l k v ∷ path) ≡ true))
  step_right n red l k v r path p (bl, br, sl, sr) b =
      (n, (frame_black l k v r path b, bl, sl, p), sr, inl br)
  step_right (suc n) black l k v r path p (sl, sr) b = (n, (sl, p), sr, inr refl)
  step_right zero black l k v r path p s b = elim s [ ]

  pub descend-IsPlace :
      (key n : ℕ) (t : Tree V) (path : List (Frame V))
      → IsPath n path
      → IsShaped n t
      → (is_red t ≡ false) ⊎ (has_black_parent path ≡ true)
      → AllBelow key (before path)
      → AllAbove key (behind path)
      → IsSorted (entries t)
      → (place : Tree V) × (path' : List (Frame V)) × (descend key t path ≡ (place, path'))
        × IsPlace key (up_to_root path t) place path'
  unfolding descend entries before behind up_to_root
  descend-IsPlace key n leaf path p s b low high sorted = (
    leaf,
    path,
    refl,
    record {
      height = n;
      path_shaped = p;
      shaped = s;
      colours = b;
      whole_is = refl;
      low = low;
      high = high;
      sorted = tt;
      hits = tt;
    },
  )
  descend-IsPlace key n (node c l k v r) path p s b low high sorted =
      let parts = IsSorted-IsSplitAt (entries l) k v (entries r) sorted in
      elim (Bool-cases (ltb key k)) [
        | inl less ↦
            let (m, p', s', b') = step_left n c l k v r path p s b in
            let above : AllAbove key (behind (left_of c k v r ∷ path)) = (
              ground arith,
              All-append (λ (e : ℕ × V). key < e.0) (entries r) (behind path)
                  (AllAbove-le key k (entries r) (ground arith) parts.high) high,
            ) in
            let (place, path', done, found) =
              descend-IsPlace key m l (left_of c k v r ∷ path) p' s' b' low above
                parts.front_sorted in
            (place, path', rw less done, found)
        | inr more ↦ elim (Bool-cases (ltb k key)) [
          | inl greater ↦
              let (m, p', s', b') = step_right n c l k v r path p s b in
              let below : AllBelow key (before (right_of c l k v ∷ path)) =
                All-append (λ (e : ℕ × V). e.0 < key) (before path) (entries l ++ (k, v) ∷ []) low
                  (All-append (λ (e : ℕ × V). e.0 < key) (entries l) ((k, v) ∷ [])
                    (AllBelow-le k key (entries l) (ground arith) parts.low) (ground arith, tt)) in
              let (place, path', done, found) =
                descend-IsPlace key m r (right_of c l k v ∷ path) p' s' b' below high
                  parts.back_sorted in
              (place, path', rw (more, greater) done, found)
          | inr equal ↦ (
            node c l k v r,
            path,
            rw (more, equal) refl,
            record {
              height = n;
              path_shaped = p;
              shaped = s;
              colours = b;
              whole_is = refl;
              low = low;
              high = high;
              sorted = sorted;
              hits = ground arith;
            },
          )
        ]
      ]

  -- A map: a red-black tree with ascending keys and a black root, and its number of entries.
  pub record IsMap (m : Map V) : Type 0 where
    pub height : ℕ
    pub shaped : IsShaped height m.root
    pub black_root : is_red m.root ≡ false
    pub sorted : IsSorted (entries m.root)
    pub counted : m.counter ≡ length (entries m.root) % u32_mod

  -- What `add` leaves.
  pub record IsAdded (m m' : Map V) (key : ℕ) (value : V) : Type 0 where
    pub valid : IsMap m'
    pub reads : (j : ℕ) → try_get_value m' j ≡ (if j == key then some value else try_get_value m j)
    pub counts : m'.counter ≡ (if contains_key m key then m.counter else incremented m.counter)
