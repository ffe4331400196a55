-- ===== src/Util/Map/Balancing.antt =====
-- CourseWorks/infos/include/infos/util/map.h: the loop of `rebalance_insert`.
use inf3_os.Base.{
  ℕ, suc, ◌≡◌, refl, sym, ap, ◌∙◌, true, false, List, [], ◌∷◌, ◌++◌, ok, Bool-cases, inl, inr,
}
use inf3_os.Util.Map.{
  red, black, Tree, leaf, node, Frame, left_of, right_of, attach, up_to_root, is_red, is_red_frame,
  sibling, paint, recolour, rebalance_loop, rebalance_insert,
}
use inf3_os.Util.Map.Entries.{entries, before, behind, entries-up_to_root}
use inf3_os.Util.Map.Colours.{
  IsShaped, IsPath, has_red_parent, up_to_root-IsShaped, turn-IsTurned, recolour_shape,
  absurd_black,
}

module _ {V : Type 0} where
  -- What `rebalance_loop` gives for a red node under its parents.
  pub record IsBalanced (path : List (Frame V)) (x result : Tree V) : Type 0 where
    pub height : ℕ
    pub shaped : IsShaped height result
    pub same : entries result ≡ entries (up_to_root path x)

  same_under :
      (path : List (Frame V)) (a b : Tree V)
      → entries a ≡ entries b
      → entries (up_to_root path a) ≡ entries (up_to_root path b)
  same_under path a b h =
      entries-up_to_root path a
      ∙ ap (λ es. before path ++ (es ++ behind path)) h
      ∙ sym (entries-up_to_root path b)

  root_frame : (n : ℕ) (p : Frame V) → IsPath n (p ∷ []) → is_red_frame p ≡ false
  root_frame n (left_of red k v r) h = absurd_black h.0
  root_frame n (right_of red l k v) h = absurd_black h.0
  root_frame n (left_of black k v r) h = refl
  root_frame n (right_of black l k v) h = refl

  put_back :
      (n : ℕ) (path : List (Frame V)) (x : Tree V)
      → IsPath n path
      → IsShaped n x
      → has_red_parent path ≡ false
      → IsBalanced path x (up_to_root path x)
  put_back n path x k s h =
      let (m, shaped) = up_to_root-IsShaped n path x k s (inr h) in
      record { height = m; shaped = shaped; same = refl }

  pub rebalance_loop-IsBalanced :
      (n : ℕ) (path : List (Frame V)) (x : Tree V)
      → IsPath n path
      → IsShaped n x
      → is_red x ≡ true
      → (t : Tree V) × (rebalance_loop path x ≡ ok t) × IsBalanced path x t
  unfolding rebalance_loop up_to_root
  rebalance_loop-IsBalanced n [] x k s b = (x, refl, record { height = n; shaped = s; same = refl })
  rebalance_loop-IsBalanced n (p ∷ []) x k s b =
      let black_root = root_frame n p k in
      (attach p x, rw black_root refl, put_back n (p ∷ []) x k s black_root)
  rebalance_loop-IsBalanced n (p ∷ g ∷ rest) x k s b = elim (Bool-cases (is_red_frame p)) [
    | inl red_parent ↦ elim (Bool-cases (is_red (sibling g))) [
      | inl red_uncle ↦
          let (k', s', b', same) = recolour_shape n p g rest x red_parent k s b red_uncle in
          let (t, done, r) = rebalance_loop-IsBalanced (suc n) rest (recolour p g x) k' s' b' in
          (
            t,
            rw (red_parent, red_uncle) done,
            record {
              height = r.height;
              shaped = r.shaped;
              same = r.same ∙ same_under rest (recolour p g x) (attach g (attach p x)) same;
            },
          )
      | inr black_uncle ↦
          let (t, done, r) = turn-IsTurned n p g rest x red_parent k s b black_uncle in
          let (m, shaped) = up_to_root-IsShaped (suc n) rest t r.above r.shaped (inl r.is_black) in
          (
            up_to_root rest t,
            rw (red_parent, black_uncle, done) refl,
            record {
              height = m;
              shaped = shaped;
              same = same_under rest t (attach g (attach p x)) r.same;
            },
          )
    ]
    | inr not_red ↦
        (up_to_root (p ∷ g ∷ rest) x, rw not_red refl, put_back n (p ∷ g ∷ rest) x k s not_red)
  ]

  paint_black :
      (n : ℕ) (t : Tree V)
      → IsShaped n t
      → (m : ℕ) × IsShaped m (paint black t)
        × (is_red (paint black t) ≡ false)
        × (entries (paint black t) ≡ entries t)
  unfolding entries
  paint_black n leaf s = (n, s, refl, refl)
  paint_black n (node black l k v r) s = (n, s, refl, refl)
  paint_black n (node red l k v r) (bl, br, sl, sr) = (suc n, (sl, sr), refl, refl)

  -- `rebalance_insert` of a red node finishes; the tree is a red-black tree with a black root, and
  -- has the entries that it had.
  pub rebalance_insert-IsShaped :
      (n : ℕ) (path : List (Frame V)) (x : Tree V)
      → IsPath n path
      → IsShaped n x
      → is_red x ≡ true
      → (t : Tree V) × (m : ℕ) × (rebalance_insert path x ≡ ok t)
        × IsShaped m t
        × (is_red t ≡ false)
        × (entries t ≡ entries (up_to_root path x))
  unfolding rebalance_insert
  rebalance_insert-IsShaped n path x k s b =
      let (t, done, r) = rebalance_loop-IsBalanced n path x k s b in
      let (m, shaped, black_root, same) = paint_black r.height t r.shaped in
      (paint black t, m, rw done refl, shaped, black_root, same ∙ r.same)
