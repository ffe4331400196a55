-- ===== src/Util/Text/Splitting.antt =====
-- CourseWorks/infos/util/string.cpp: `String::split`.
use mathlib.Core.List.{append-nil, append_assoc}
use inf3_os.Base.{
  ==_refl, All-append, ℕ, zero, suc, ◌<◌, ◌≡◌, refl, sym, ap, ◌∙◌, Bool, true, false, List, [], ◌∷◌,
  ◌++◌, none, some, arith, length, ◌==◌, Bool-cases, inl, inr, All,
}
use inf3_os.Util.Text.{split, split_loop, split_char, split_end}

-- The parts with a delimiter between each two.
unfoldable pub join : ℕ → List (List ℕ) → List ℕ
join delim [] = []
join delim (part ∷ []) = part
join delim (part ∷ next ∷ parts) = part ++ delim ∷ join delim (next ∷ parts)

-- The same, with a delimiter behind each part.
abbrev pub closed : ℕ → List (List ℕ) → List ℕ
closed delim [] = []
closed delim (part ∷ parts) = part ++ delim ∷ closed delim parts

join-last :
    (delim : ℕ) (parts : List (List ℕ)) (part : List ℕ)
    → join delim (parts ++ part ∷ []) ≡ closed delim parts ++ part
unfolding join
join-last delim [] part = refl
join-last delim (p ∷ []) part = sym (append_assoc p (delim ∷ []) part)
join-last delim (p ∷ q ∷ parts) part =
    ap (λ text. p ++ delim ∷ text) (join-last delim (q ∷ parts) part)
    ∙ sym (append_assoc p (delim ∷ closed delim (q ∷ parts)) part)

closed-append :
    (delim : ℕ) (parts : List (List ℕ)) (part : List ℕ)
    → closed delim (parts ++ part ∷ []) ≡ closed delim parts ++ (part ++ delim ∷ [])
closed-append delim [] part = refl
closed-append delim (p ∷ parts) part =
    ap (λ text. p ++ delim ∷ text) (closed-append delim parts part)
    ∙ sym (append_assoc p (delim ∷ closed delim parts) (part ++ delim ∷ []))

abbrev pub HasNo : ℕ → List ℕ → Type 0
HasNo delim part = All (λ c. (c == delim) ≡ false) part

-- The parts of a text: with the delimiters they make it up again, and they have none inside.
pub record IsSplit (delim : ℕ) (text : List ℕ) (parts : List (List ℕ)) : Type 0 where
  pub joined : join delim parts ≡ text
  pub plain : All (HasNo delim) parts

split_end_keeps :
    (parts : List (List ℕ)) (current : List ℕ)
    → split_end false parts current ≡ parts ++ current ∷ []
unfolding split_end
split_end_keeps parts [] = refl
split_end_keeps parts (c ∷ cs) = refl

split_char_delim :
    (delim : ℕ) (parts : List (List ℕ)) (current : List ℕ) (c : ℕ) (cs : List ℕ)
    → (c == delim) ≡ true
    → split_char delim false parts current c cs
      ≡ record { parts = parts ++ current ∷ []; current_part = []; rest = cs }
unfolding split_char
split_char_delim delim parts [] c cs h = rw h refl
split_char_delim delim parts (x ∷ xs) c cs h = rw h refl

split_char_other :
    (delim : ℕ) (remove_empty : Bool) (parts : List (List ℕ)) (current : List ℕ) (c : ℕ)
    (cs : List ℕ)
    → (c == delim) ≡ false
    → split_char delim remove_empty parts current c cs
      ≡ record { parts = parts; current_part = current ++ c ∷ []; rest = cs }
unfolding split_char
split_char_other delim remove_empty parts current c cs h = rw h refl

joined_at_end :
    (delim : ℕ) (parts : List (List ℕ)) (current : List ℕ)
    → join delim (parts ++ current ∷ []) ≡ closed delim parts ++ (current ++ [])
joined_at_end delim parts current =
    join-last delim parts current ∙ ap (◌++◌ (closed delim parts)) (sym (append-nil current))

joined_at_delim :
    (delim : ℕ) (parts : List (List ℕ)) (current cs : List ℕ)
    → closed delim (parts ++ current ∷ []) ++ cs ≡ closed delim parts ++ (current ++ delim ∷ cs)
joined_at_delim delim parts current cs =
    ap (λ text. text ++ cs) (closed-append delim parts current)
    ∙ append_assoc (closed delim parts) (current ++ delim ∷ []) cs
    ∙ ap (◌++◌ (closed delim parts)) (append_assoc current (delim ∷ []) cs)

joined_at_other :
    (before current cs : List ℕ) (c : ℕ)
    → before ++ ((current ++ c ∷ []) ++ cs) ≡ before ++ (current ++ c ∷ cs)
joined_at_other before current cs c = ap (◌++◌ before) (append_assoc current (c ∷ []) cs)

split_loop-IsSplit :
    (fuel delim : ℕ) (parts : List (List ℕ)) (current rest : List ℕ)
    → length rest < fuel
    → All (HasNo delim) parts
    → HasNo delim current
    → (out : List (List ℕ)) × (split_loop fuel delim false parts current rest ≡ some out)
      × IsSplit delim (closed delim parts ++ (current ++ rest)) out
unfolding split_loop
split_loop-IsSplit zero delim parts current rest h a b = ground arith
split_loop-IsSplit (suc fuel) delim parts current [] h a b = (
  parts ++ current ∷ [],
  ap some (split_end_keeps parts current),
  record {
    joined = joined_at_end delim parts current;
    plain = All-append (HasNo delim) parts (current ∷ []) a (b, tt);
  },
)
split_loop-IsSplit (suc fuel) delim parts current (c ∷ cs) h a b = elim (Bool-cases (c == delim)) [
  | inl found ↦
      let (out, done, k) =
        split_loop-IsSplit fuel delim (parts ++ current ∷ []) [] cs (omega arith)
          (All-append (HasNo delim) parts (current ∷ []) a (b, tt)) tt in
      let c_is : delim ≡ c = ground arith in
      (
        out,
        rw (split_char_delim delim parts current c cs found) done,
        record {
          joined =
              k.joined
              ∙ joined_at_delim delim parts current cs
              ∙ ap (λ x. closed delim parts ++ (current ++ x ∷ cs)) c_is;
          plain = k.plain;
        },
      )
  | inr other ↦
      let (out, done, k) =
        split_loop-IsSplit fuel delim parts (current ++ c ∷ []) cs (omega arith) a
          (All-append (λ x. (x == delim) ≡ false) current (c ∷ []) b (other, tt)) in
      (
        out,
        rw (split_char_other delim false parts current c cs other) done,
        record {
          joined = k.joined ∙ joined_at_other (closed delim parts) current cs c;
          plain = k.plain;
        },
      )
]

-- `split` that keeps empty parts ends on every text, after one round for each character, and gives
-- the parts: none has the delimiter inside, and joined by it they are the text again.
pub split-IsSplit :
    (fuel : ℕ) (text : List ℕ) (delim : ℕ)
    → length text < fuel
    → (parts : List (List ℕ)) × (split fuel text delim false ≡ some parts)
      × IsSplit delim text parts
unfolding split
split-IsSplit fuel text delim h = split_loop-IsSplit fuel delim [] [] text h tt tt

split_loop_stuck :
    (fuel delim : ℕ) (parts : List (List ℕ)) (cs : List ℕ)
    → split_loop fuel delim true parts [] (delim ∷ cs) ≡ none
unfolding split_loop split_char
split_loop_stuck zero delim parts cs = refl
split_loop_stuck (suc fuel) delim parts cs =
    rw (==_refl delim) (split_loop_stuck fuel delim parts cs)

split_loop_reaches :
    (fuel delim : ℕ) (parts : List (List ℕ)) (current part cs : List ℕ)
    → HasNo delim part
    → split_loop fuel delim true parts current (part ++ delim ∷ delim ∷ cs) ≡ none
unfolding split_loop split_char
split_loop_reaches zero delim parts current part cs h = refl
split_loop_reaches (suc fuel) delim parts [] [] cs h =
    split_loop_stuck (suc fuel) delim parts (delim ∷ cs)
split_loop_reaches (suc fuel) delim parts (x ∷ xs) [] cs h =
    rw (==_refl delim) (split_loop_stuck fuel delim (parts ++ (x ∷ xs) ∷ []) cs)
split_loop_reaches (suc fuel) delim parts current (c ∷ part) cs (other, h) =
    rw other (split_loop_reaches fuel delim parts (current ++ c ∷ []) part cs h)

-- `split` that removes empty parts does not end on a text that begins with the delimiter, nor on one
-- that has it twice in a row behind other characters: no number of rounds is enough.
pub split_never_ends :
    (fuel : ℕ) (part cs : List ℕ) (delim : ℕ)
    → HasNo delim part
    → (split fuel (delim ∷ cs) delim true ≡ none)
      × (split fuel (part ++ delim ∷ delim ∷ cs) delim true ≡ none)
unfolding split
split_never_ends fuel part cs delim h =
    (split_loop_stuck fuel delim [] cs, split_loop_reaches fuel delim [] [] part cs h)
