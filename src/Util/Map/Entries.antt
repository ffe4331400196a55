-- ===== src/Util/Map/Entries.antt =====
-- CourseWorks/infos/include/infos/util/map.h: the entries of a tree from left to right, and the search
-- for a key among them.
use mathlib.Core.List.{append-nil, append_assoc}
use inf3_os.Base.{
  ℕ, ◌<◌, ◌≡◌, sym, ap, ◌∙◌, List, [], ◌∷◌, ◌++◌, Option, none, some, All, ◌==◌, if◌then◌else◌,
}
use inf3_os.Util.Map.{Tree, leaf, node, Frame, left_of, right_of, up_to_root}

module _ {V : Type 0} where
  unfoldable pub entries : Tree V → List (ℕ × V)
  entries leaf = []
  entries (node c l k v r) = entries l ++ (k, v) ∷ entries r

  -- What stands left and right of the place that a path leads to.
  unfoldable pub before : List (Frame V) → List (ℕ × V)
  unfolding entries
  before [] = []
  before (left_of c k v r ∷ fs) = before fs
  before (right_of c l k v ∷ fs) = before fs ++ (entries l ++ (k, v) ∷ [])

  unfoldable pub behind : List (Frame V) → List (ℕ × V)
  unfolding entries
  behind [] = []
  behind (left_of c k v r ∷ fs) = (k, v) ∷ (entries r ++ behind fs)
  behind (right_of c l k v ∷ fs) = behind fs

  pub entries-up_to_root :
      (path : List (Frame V)) (t : Tree V)
      → entries (up_to_root path t) ≡ before path ++ (entries t ++ behind path)
  unfolding up_to_root before behind entries
  entries-up_to_root [] t = sym (append-nil (entries t))
  entries-up_to_root (left_of c k v r ∷ fs) t =
      entries-up_to_root fs (node c t k v r)
      ∙ ap (◌++◌ (before fs)) (append_assoc (entries t) ((k, v) ∷ entries r) (behind fs))
  entries-up_to_root (right_of c l k v ∷ fs) t =
      entries-up_to_root fs (node c l k v t)
      ∙ ap (◌++◌ (before fs)) (append_assoc (entries l) ((k, v) ∷ entries t) (behind fs))
      ∙ sym
          (ap (◌++◌ (before fs)) (append_assoc (entries l) ((k, v) ∷ []) (entries t ++ behind fs)))
      ∙ sym (append_assoc (before fs) (entries l ++ (k, v) ∷ []) (entries t ++ behind fs))

  abbrev pub AllBelow : ℕ → List (ℕ × V) → Type 0
  AllBelow key es = All (λ (e : ℕ × V). e.0 < key) es

  abbrev pub AllAbove : ℕ → List (ℕ × V) → Type 0
  AllAbove key es = All (λ (e : ℕ × V). key < e.0) es

  -- Strictly ascending keys.
  abbrev pub IsSorted : List (ℕ × V) → Type 0
  IsSorted [] = Unit
  IsSorted (e ∷ es) = AllAbove e.0 es × IsSorted es

  -- The first entry of a key.
  unfoldable pub lookup : ℕ → List (ℕ × V) → Option V
  lookup key [] = none
  lookup key (e ∷ es) = if key == e.0 then some e.1 else lookup key es
