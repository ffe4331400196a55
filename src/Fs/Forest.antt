-- ===== src/Fs/Forest.antt =====
-- CourseWorks/infos/fs/vfs-node.cpp and CourseWorks/coursework/tarfs.cpp: nodes with children by
-- key, in numbered places. A path is the list of its keys, the deepest first.
use native.Mathlib.Decide.{ℕ_discrete}
use mathlib.Core.List.{List-discrete}
use inf3_os.Base.{
  ◌⊎◌, ℕ, suc, ◌<◌, ◌≡◌, ◌≢◌, refl, sym, ap, ◌∙◌, List, [], ◌∷◌, Option, none, some, arith,
  Option-cases, inl, inr, some_inj,
}

-- `child n key` is the child of node `n`.
abbrev pub Children : Type 0
Children = ℕ → ℕ → Option ℕ

abbrev pub step_to : Children → Option ℕ → ℕ → Option ℕ
step_to child none key = none
step_to child (some n) key = child n key

-- The node at a path from the root.
unfoldable pub reach : Children → ℕ → List ℕ → Option ℕ
reach child root [] = some root
reach child root (key ∷ path) = step_to child (reach child root path) key

-- Every node but the root is the child of at most one node, under one key; the places from
-- `counter` on are free.
pub record IsForest (child : Children) (root counter : ℕ) : Type 0 where
  pub root_low : root < counter
  pub low : (n key c : ℕ) → child n key ≡ some c → (n < counter) × (c < counter) × (c ≢ root)
  pub unique :
      (n m key other c : ℕ)
      → child n key ≡ some c
      → child m other ≡ some c
      → (n ≡ m) × (key ≡ other)

pub some-ne-none : {A : Type 0} {a : A} → some a ≢ none
some-ne-none h = cc

-- The last step of a path.
pub reach_last :
    (child : Children) (root key n : ℕ) (path : List ℕ)
    → reach child root (key ∷ path) ≡ some n
    → (m : ℕ) × (reach child root path ≡ some m) × (child m key ≡ some n)
unfolding reach
reach_last child root key n path h = elim (Option-cases (reach child root path)) [
  | inl nowhere ↦ let bad = rw nowhere at h in cc
  | inr (m, found) ↦ (m, found, ap (λ o. step_to child o key) (sym found) ∙ h)
]

pub reach_next :
    (child : Children) (root key m : ℕ) (path : List ℕ)
    → reach child root path ≡ some m
    → reach child root (key ∷ path) ≡ child m key
unfolding reach
reach_next child root key m path h = rw h refl

module _ (child : Children) (root counter : ℕ) (f : IsForest child root counter) where
  pub reach_low : (path : List ℕ) (n : ℕ) → reach child root path ≡ some n → n < counter
  unfolding reach
  reach_low [] n h = omega (arith, f.root_low, some_inj h)
  reach_low (key ∷ path) n h =
      let (m, found, taken) = reach_last child root key n path h in (f.low m key n taken).1

  -- A node is at one path only.
  pub reach_unique :
      (path other : List ℕ) (n : ℕ)
      → reach child root path ≡ some n
      → reach child root other ≡ some n
      → path ≡ other
  unfolding reach
  reach_unique [] [] n h g = refl
  reach_unique [] (key ∷ other) n h g =
      let (m, found, taken) = reach_last child root key n other g in
      absurd ((f.low m key n taken).2 (sym (some_inj h)))
  reach_unique (key ∷ path) [] n h g =
      let (m, found, taken) = reach_last child root key n path h in
      absurd ((f.low m key n taken).2 (sym (some_inj g)))
  reach_unique (key ∷ path) (key' ∷ other) n h g =
      let (m, found, taken) = reach_last child root key n path h in
      let (m', found', taken') = reach_last child root key' n other g in
      let (same, same_key) = f.unique m m' key key' n taken taken' in
      let rest = reach_unique path other m found (found' ∙ ap some (sym same)) in
      λ i. same_key i ∷ rest i

-- `after` is `before` with the new child `fresh` of `parent` under `added`.
pub record IsGrown (before after : Children) (parent added fresh : ℕ) : Type 0 where
  pub there : after parent added ≡ some fresh
  pub others : (n key : ℕ) → ¬ ((n ≡ parent) × (key ≡ added)) → after n key ≡ before n key

module _ (before after : Children) (root counter parent added : ℕ)
    (f : IsForest before root counter) (grown : IsGrown before after parent added counter)
    (parent_low : parent < counter) where
  -- A child afterwards is the new one or an old one.
  grown_child :
      (n key c : ℕ)
      → after n key ≡ some c
      → ((n ≡ parent) × (key ≡ added) × (c ≡ counter)) ⊎ (before n key ≡ some c)
  grown_child n key c h = elim (ℕ_discrete n parent) [
    | yes same ↦ elim (ℕ_discrete key added) [
      | yes same_key ↦
          inl (same, same_key, some_inj (sym h ∙ (λ i. after (same i) (same_key i)) ∙ grown.there))
      | no other ↦ inr (sym (grown.others n key (λ e. other e.1)) ∙ h)
    ]
    | no other ↦ inr (sym (grown.others n key (λ e. other e.0)) ∙ h)
  ]

  pub grown-IsForest : IsForest after root (suc counter)
  grown-IsForest = record {
    root_low = omega (arith, f.root_low);
    low = λ n key c h. elim (grown_child n key c h) [
      | inl (same, same_key, new) ↦ (omega arith, omega arith, λ e. omega (arith, f.root_low))
      | inr old ↦
          let (n_low, c_low, c_root) = f.low n key c old in (omega arith, omega arith, c_root)
    ];
    unique = λ n m key other c h g. elim (grown_child n key c h) [
      | inl (n_same, key_same, c_new) ↦ elim (grown_child m other c g) [
        | inl (m_same, other_same, _) ↦ (n_same ∙ sym m_same, key_same ∙ sym other_same)
        | inr old ↦ let (m_low, c_low, c_root) = f.low m other c old in omega arith
      ]
      | inr old ↦ elim (grown_child m other c g) [
        | inl (m_same, other_same, c_new) ↦
            let (n_low, c_low, c_root) = f.low n key c old in omega arith
        | inr old' ↦ f.unique n m key other c old old'
      ]
    ];
  }

  module _ (path : List ℕ) (at_parent : reach before root path ≡ some parent)
      (absent : before parent added ≡ none) where
    nothing_there : reach before root (added ∷ path) ≡ none
    nothing_there = reach_next before root added parent path at_parent ∙ absent

    -- The new node has no children.
    nothing_below : (key : ℕ) → after counter key ≡ none
    nothing_below key = elim (Option-cases (after counter key)) [
      | inl h ↦ h
      | inr (c, h) ↦ elim (grown_child counter key c h) [
        | inl (same, _, _) ↦ absurd (omega arith)
        | inr old ↦ let (n_low, c_low, c_root) = f.low counter key c old in absurd (omega arith)
      ]
    ]

    pub reach_kept :
        (q : List ℕ) (n : ℕ) → reach before root q ≡ some n → reach after root q ≡ some n
    unfolding reach
    reach_kept [] n h = h
    reach_kept (key ∷ q) n h =
        let (m, found, taken) = reach_last before root key n q h in
        let kept : after m key ≡ before m key =
          grown.others m key
            (λ e. some-ne-none (sym taken ∙ (λ i. before (e.0 i) (e.1 i)) ∙ absent)) in
        rw (reach_kept q m found) (kept ∙ taken)

    -- The path to the new node.
    pub reach_new : reach after root (added ∷ path) ≡ some counter
    reach_new =
        reach_next after root added parent path (reach_kept path parent at_parent) ∙ grown.there

    -- Every other path leads where it did.
    pub reach_others : (q : List ℕ) → q ≢ (added ∷ path) → reach after root q ≡ reach before root q
    unfolding reach
    reach_others [] other = refl
    reach_others (key ∷ q) other = elim (List-discrete ℕ_discrete q (added ∷ path)) [
      | yes same ↦
          let nowhere : reach after root (key ∷ q) ≡ none =
            reach_next after root key counter q (ap (reach after root) same ∙ reach_new)
            ∙ nothing_below key in
          let before_nowhere : reach before root q ≡ none =
            ap (reach before root) same ∙ nothing_there in
          nowhere ∙ sym (ap (λ o. step_to before o key) before_nowhere)
      | no differs ↦
          let rest = reach_others q differs in
          elim (Option-cases (reach before root q)) [
            | inl nowhere ↦ rw (rest, nowhere) refl
            | inr (m, found) ↦
                rw (rest, found)
                  (grown.others m key (λ e. other (λ i.
                    e.1 i
                    ∷ reach_unique before root counter f q path m found
                        (at_parent ∙ ap some (sym (e.0))) i)))
          ]
    ]
