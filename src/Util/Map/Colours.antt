-- ===== src/Util/Map/Colours.antt =====
-- CourseWorks/infos/include/infos/util/map.h: the colours of a red-black tree, through
-- the two cases of the loop of `rebalance_insert`.
use mathlib.Core.List.{append_assoc}
use inf3_os.Base.{◌⊎◌, not, ℕ, zero, suc, ◌≡◌, refl, Bool, true, false, List, [], ◌∷◌, ok, inl, inr}
use inf3_os.Util.Map.{
  red, black, Tree, leaf, node, Frame, left_of, right_of, attach, up_to_root, is_red, is_red_frame,
  sibling, rotate_left, rotate_right, lean_left, lean_right, turn, recolour,
}
use inf3_os.Util.Map.Entries.{entries}

pub absurd_black : {P : Type 0} → false ≡ true → P
absurd_black h = cc

module _ {V : Type 0} where
  -- No red node has a red child, and n black nodes stand on every way down.
  abbrev pub IsShaped : ℕ → Tree V → Type 0
  IsShaped zero leaf = Unit
  IsShaped (suc n) leaf = ⊥
  IsShaped n (node red l k v r) =
      (is_red l ≡ false) × (is_red r ≡ false) × IsShaped n l × IsShaped n r
  IsShaped zero (node black l k v r) = ⊥
  IsShaped (suc n) (node black l k v r) = IsShaped n l × IsShaped n r

  abbrev pub has_black_parent : List (Frame V) → Bool
  has_black_parent [] = false
  has_black_parent (f ∷ fs) = not (is_red_frame f)

  -- A path to a place for a tree with n black nodes on every way down.
  abbrev pub IsPath : ℕ → List (Frame V) → Type 0
  IsPath n [] = Unit
  IsPath n (left_of red k v r ∷ fs) =
      (has_black_parent fs ≡ true) × (is_red r ≡ false) × IsShaped n r × IsPath n fs
  IsPath n (right_of red l k v ∷ fs) =
      (has_black_parent fs ≡ true) × (is_red l ≡ false) × IsShaped n l × IsPath n fs
  IsPath n (left_of black k v r ∷ fs) = IsShaped n r × IsPath (suc n) fs
  IsPath n (right_of black l k v ∷ fs) = IsShaped n l × IsPath (suc n) fs

  abbrev pub has_red_parent : List (Frame V) → Bool
  has_red_parent [] = false
  has_red_parent (f ∷ fs) = is_red_frame f

  pub black_parent :
      (path : List (Frame V)) → has_black_parent path ≡ true → has_red_parent path ≡ false
  black_parent [] h = cc
  black_parent (left_of red k v r ∷ fs) h = cc
  black_parent (left_of black k v r ∷ fs) h = refl
  black_parent (right_of red l k v ∷ fs) h = cc
  black_parent (right_of black l k v ∷ fs) h = refl

  -- A tree put back under its parents, where it is black, or its parent is not red.
  pub up_to_root-IsShaped :
      (n : ℕ) (path : List (Frame V)) (t : Tree V)
      → IsPath n path
      → IsShaped n t
      → (is_red t ≡ false) ⊎ (has_red_parent path ≡ false)
      → (m : ℕ) × IsShaped m (up_to_root path t)
  unfolding up_to_root
  up_to_root-IsShaped n [] t p s b = (n, s)
  up_to_root-IsShaped n (left_of red k v r ∷ fs) t p s (inr h) = cc
  up_to_root-IsShaped n (right_of red l k v ∷ fs) t p s (inr h) = cc
  up_to_root-IsShaped n (left_of red k v r ∷ fs) t (h, br, sr, p) s (inl b) =
      up_to_root-IsShaped n fs (node red t k v r) p (b, br, s, sr) (inr (black_parent fs h))
  up_to_root-IsShaped n (right_of red l k v ∷ fs) t (h, bl, sl, p) s (inl b) =
      up_to_root-IsShaped n fs (node red l k v t) p (bl, b, sl, s) (inr (black_parent fs h))
  up_to_root-IsShaped n (left_of black k v r ∷ fs) t (sr, p) s b =
      up_to_root-IsShaped (suc n) fs (node black t k v r) p (s, sr) (inl refl)
  up_to_root-IsShaped n (right_of black l k v ∷ fs) t (sl, p) s b =
      up_to_root-IsShaped (suc n) fs (node black l k v t) p (sl, s) (inl refl)

  -- A black tree, in the place of another one with the same entries.
  pub record IsTurned (n : ℕ) (fs : List (Frame V)) (old new : Tree V) : Type 0 where
    pub shaped : IsShaped n new
    pub is_black : is_red new ≡ false
    pub above : IsPath n fs
    pub same : entries new ≡ entries old

  abbrev pub Turns : ℕ → Frame V → Frame V → List (Frame V) → Tree V → Type 0
  Turns n p g fs x =
      (t : Tree V) × (turn p g x ≡ ok t) × IsTurned (suc n) fs (attach g (attach p x)) t

  pub turn-IsTurned :
      (n : ℕ) (p g : Frame V) (fs : List (Frame V)) (x : Tree V)
      → is_red_frame p ≡ true
      → IsPath n (p ∷ g ∷ fs)
      → IsShaped n x
      → is_red x ≡ true
      → is_red (sibling g) ≡ false
      → Turns n p g fs x
  unfolding turn lean_left lean_right rotate_left rotate_right entries
  turn-IsTurned n p g fs leaf h k s b u = cc
  turn-IsTurned n p g fs (node black xl xk xv xr) h k s b u = cc
  turn-IsTurned n (left_of black pk pv po) g fs (node red xl xk xv xr) h k s b u = cc
  turn-IsTurned n (right_of black po pk pv) g fs (node red xl xk xv xr) h k s b u = cc
  turn-IsTurned n (left_of red pk pv po) (left_of red gk gv y) fs (node red xl xk xv xr) h k s b u =
      absurd_black k.0
  turn-IsTurned n (left_of red pk pv po) (right_of red y gk gv) fs (node red xl xk xv xr) h k s b
        u =
      absurd_black k.0
  turn-IsTurned n (right_of red po pk pv) (left_of red gk gv y) fs (node red xl xk xv xr) h k s b
        u =
      absurd_black k.0
  turn-IsTurned n (right_of red po pk pv) (right_of red y gk gv) fs (node red xl xk xv xr) h k s b
        u =
      absurd_black k.0
  turn-IsTurned n (left_of red pk pv po) (left_of black gk gv y) fs (node red xl xk xv xr) h
        (hb, bo, so, (sy, k)) (bl, br, sl, sr) b u =
      (
        node black (node red xl xk xv xr) pk pv (node red po gk gv y),
        refl,
        record {
          shaped = ((bl, br, sl, sr), (bo, u, so, sy));
          is_black = refl;
          above = k;
          same = simp append_assoc;
        },
      )
  turn-IsTurned n (right_of red po pk pv) (left_of black gk gv y) fs (node red xl xk xv xr) h
        (hb, bo, so, (sy, k)) (bl, br, sl, sr) b u =
      (
        node black (node red po pk pv xl) xk xv (node red xr gk gv y),
        refl,
        record {
          shaped = ((bo, bl, so, sl), (br, u, sr, sy));
          is_black = refl;
          above = k;
          same = simp append_assoc;
        },
      )
  turn-IsTurned n (right_of red po pk pv) (right_of black y gk gv) fs (node red xl xk xv xr) h
        (hb, bo, so, (sy, k)) (bl, br, sl, sr) b u =
      (
        node black (node red y gk gv po) pk pv (node red xl xk xv xr),
        refl,
        record {
          shaped = ((u, bo, sy, so), (bl, br, sl, sr));
          is_black = refl;
          above = k;
          same = simp append_assoc;
        },
      )
  turn-IsTurned n (left_of red pk pv po) (right_of black y gk gv) fs (node red xl xk xv xr) h
        (hb, bo, so, (sy, k)) (bl, br, sl, sr) b u =
      (
        node black (node red y gk gv xl) xk xv (node red xr pk pv po),
        refl,
        record {
          shaped = ((u, bl, sy, sl), (br, bo, sr, so));
          is_black = refl;
          above = k;
          same = simp append_assoc;
        },
      )

  -- A red uncle: everything moves two nodes up, where the grandparent is red now.
  pub recolour_shape :
      (n : ℕ) (p g : Frame V) (fs : List (Frame V)) (x : Tree V)
      → is_red_frame p ≡ true
      → IsPath n (p ∷ g ∷ fs)
      → IsShaped n x
      → is_red x ≡ true
      → is_red (sibling g) ≡ true
      → IsPath (suc n) fs
        × IsShaped (suc n) (recolour p g x)
        × (is_red (recolour p g x) ≡ true)
        × (entries (recolour p g x) ≡ entries (attach g (attach p x)))
  unfolding recolour entries
  recolour_shape n (left_of black pk pv po) g fs x h k s b u = cc
  recolour_shape n (right_of black po pk pv) g fs x h k s b u = cc
  recolour_shape n (left_of red pk pv po) (left_of red gk gv y) fs x h k s b u = absurd_black k.0
  recolour_shape n (left_of red pk pv po) (right_of red y gk gv) fs x h k s b u = absurd_black k.0
  recolour_shape n (right_of red po pk pv) (left_of red gk gv y) fs x h k s b u = absurd_black k.0
  recolour_shape n (right_of red po pk pv) (right_of red y gk gv) fs x h k s b u = absurd_black k.0
  recolour_shape n (left_of red pk pv po) (left_of black gk gv leaf) fs x h k s b u = cc
  recolour_shape n (left_of red pk pv po) (right_of black leaf gk gv) fs x h k s b u = cc
  recolour_shape n (right_of red po pk pv) (left_of black gk gv leaf) fs x h k s b u = cc
  recolour_shape n (right_of red po pk pv) (right_of black leaf gk gv) fs x h k s b u = cc
  recolour_shape n (left_of red pk pv po) (left_of black gk gv (node black yl yk yv yr)) fs x h k s
        b u =
      cc
  recolour_shape n (left_of red pk pv po) (right_of black (node black yl yk yv yr) gk gv) fs x h k s
        b u =
      cc
  recolour_shape n (right_of red po pk pv) (left_of black gk gv (node black yl yk yv yr)) fs x h k s
        b u =
      cc
  recolour_shape n (right_of red po pk pv) (right_of black (node black yl yk yv yr) gk gv) fs x h k
        s b u =
      cc
  recolour_shape n (left_of red pk pv po) (left_of black gk gv (node red yl yk yv yr)) fs x h
        (hb, bo, so, ((yb, yc, ys, yt), k)) s b u =
      (k, (refl, refl, (s, so), (ys, yt)), refl, refl)
  recolour_shape n (left_of red pk pv po) (right_of black (node red yl yk yv yr) gk gv) fs x h
        (hb, bo, so, ((yb, yc, ys, yt), k)) s b u =
      (k, (refl, refl, (ys, yt), (s, so)), refl, refl)
  recolour_shape n (right_of red po pk pv) (left_of black gk gv (node red yl yk yv yr)) fs x h
        (hb, bo, so, ((yb, yc, ys, yt), k)) s b u =
      (k, (refl, refl, (so, s), (ys, yt)), refl, refl)
  recolour_shape n (right_of red po pk pv) (right_of black (node red yl yk yv yr) gk gv) fs x h
        (hb, bo, so, ((yb, yc, ys, yt), k)) s b u =
      (k, (refl, refl, (ys, yt), (so, s)), refl, refl)
