-- ===== src/Fs/Paths.antt =====
-- CourseWorks/infos/fs/vfs.cpp and CourseWorks/coursework/tarfs.cpp: the next component of a path,
-- which `VirtualFilesystem::lookup_node` and `TarFS::build_tree` read with the same code. A path is
-- the list of the bytes from a pointer to the end of its buffer.
use inf3_os.Base.{length-append}
use inf3_os.Base.{
  ℕ, ◌<◌, ◌≡◌, ◌≢◌, ◌⊎◌, refl, ap, true, false, ◌||◌, List, [], ◌∷◌, ◌++◌, Outcome, ok, panic,
  ◌>>=◌, ltb, ◌==◌, if◌then◌else◌, length, arith, All, inl, inr,
}
use inf3_os.Util.Text.Hash.{compute_hash}

abbrev pub slash : ℕ
slash = 47

-- The inner loop: the component, and the path behind it.
unfoldable pub read_component : List ℕ → Outcome (List ℕ × List ℕ)
read_component [] = panic
read_component (c ∷ path) =
    let more = read_component path >>= (λ (found : List ℕ × List ℕ). ok (c ∷ found.0, found.1)) in
    if c == 0 || c == slash then ok ([], c ∷ path) else more

-- `if (*path == '/') path++`.
unfoldable pub skip_slash : List ℕ → List ℕ
skip_slash [] = []
skip_slash (c ∷ path) = if c == slash then path else c ∷ path

-- `component` is an array of 256 characters, with the null behind the component.
unfoldable pub next_component : List ℕ → Outcome (List ℕ × List ℕ)
next_component path = do
  (component, rest) ← read_component path
  (if ltb (length component) 256 then ok (component, skip_slash rest) else panic)

-- A name that a component can hold.
pub record IsName (name : List ℕ) : Type 0 where
  pub chars : All (λ c. (c ≢ 0) × (c ≢ slash)) name
  pub named : 0 < length name
  pub fits : length name < 256

-- A path spells the names from here on: with a slash between two, and maybe behind the last.
pub data Spells : List (List ℕ) → List ℕ → Type 0 where
  ended : (junk : List ℕ) → Spells [] (0 ∷ junk)
  slashed :
      (name : List ℕ) (names : List (List ℕ)) (behind path : List ℕ)
      → IsName name
      → Spells names behind
      → path ≡ name ++ slash ∷ behind
      → Spells (name ∷ names) path
  last : (name junk path : List ℕ) → IsName name → path ≡ name ++ 0 ∷ junk → Spells (name ∷ []) path

read_component_lem :
    (name behind : List ℕ) (c : ℕ)
    → All (λ d. (d ≢ 0) × (d ≢ slash)) name
    → (c ≡ 0) ⊎ (c ≡ slash)
    → read_component (name ++ c ∷ behind) ≡ ok (name, c ∷ behind)
unfolding read_component
read_component_lem [] behind c h (inl e) = rw e refl
read_component_lem [] behind c h (inr e) = rw e refl
read_component_lem (d ∷ name) behind c ((some_char, no_slash), h) e =
    let goes_on : (d == 0 || d == slash) ≡ false = ground (arith, some_char, no_slash) in
    rw (goes_on, read_component_lem name behind c h e) refl

next_component_lem :
    (name behind : List ℕ) (c : ℕ)
    → IsName name
    → (c ≡ 0) ⊎ (c ≡ slash)
    → next_component (name ++ c ∷ behind) ≡ ok (name, skip_slash (c ∷ behind))
unfolding next_component
next_component_lem name behind c valid e =
    let fits : ltb (length name) 256 ≡ true = ground (arith, valid.fits) in
    rw (read_component_lem name behind c valid.chars e, fits) refl

-- The next name of a path, and the path behind it.
pub next_component-Spells :
    (name : List ℕ) (names : List (List ℕ)) (path : List ℕ)
    → Spells (name ∷ names) path
    → (rest : List ℕ) × (next_component path ≡ ok (name, rest)) × Spells names rest × IsName name
unfolding skip_slash
next_component-Spells name names path (slashed _ _ behind _ valid spelled e) =
    (behind, rw e (next_component_lem name behind slash valid (inr refl)), spelled, valid)
next_component-Spells name _ path (last _ junk _ valid e) =
    (0 ∷ junk, rw e (next_component_lem name junk 0 valid (inl refl)), ended junk, valid)

-- The empty component at the end of a path.
pub next_component-ended :
    (path : List ℕ) → Spells [] path → (rest : List ℕ) × (next_component path ≡ ok ([], rest))
unfolding next_component read_component skip_slash
next_component-ended _ (ended junk) = (0 ∷ junk, refl)

-- A path is longer than its number of names.
pub Spells-length :
    (names : List (List ℕ)) (path : List ℕ) → Spells names path → length names < length path
Spells-length _ _ (ended junk) = omega arith
Spells-length _ path (slashed name names behind _ valid spelled e) =
    omega (arith, Spells-length names behind spelled, ap length e, length-append name (47 ∷ behind))
Spells-length _ path (last name junk _ valid e) =
    omega (arith, ap length e, length-append name (0 ∷ junk), valid.named)

-- The keys of the nodes on a path, the deepest first, below those that are given.
unfoldable pub keys_below : List ℕ → List (List ℕ) → List ℕ
keys_below above [] = above
keys_below above (name ∷ names) = keys_below (compute_hash name ∷ above) names

abbrev pub keys : List (List ℕ) → List ℕ
keys names = keys_below [] names
