-- ===== src/Util/CommandLine/Settings.antt =====
-- CourseWorks/infos/util/cmdline.cpp: the settings of a command line.
use mathlib.Core.List.{append_assoc}
use inf3_os.Base.{
  Bool-cases, ℕ, zero, suc, ◌-◌, ◌<◌, ◌≡◌, ◌≢◌, ◌⊎◌, refl, sym, ap, ◌∙◌, true, false, ◌||◌, List,
  [], ◌∷◌, ◌++◌, ok, ltb, ◌==◌, length, length-append, All, All-append, arith, inl, inr,
}
use inf3_os.Util.CommandLine.{
  Registration, skip_spaces, read_setting, read_key, read_value, call_for, process, take_setting,
}

-- The characters of keys and values.
abbrev pub IsPlain : ℕ → Type 0
IsPlain c = (c ≢ 0) × (c ≢ 32) × (c ≢ 61)

-- A key that is not empty, and a value, which fit their arrays.
pub record IsSetting (key value : List ℕ) : Type 0 where
  pub key_plain : All IsPlain key
  pub value_plain : All IsPlain value
  pub named : 0 < length key
  pub key_fits : length key < 64
  pub value_fits : length value < 64

-- A command line with the settings `key=value`, and spaces between them and at both ends.
pub data Line : List (List ℕ × List ℕ) → List ℕ → Type 0 where
  ended : (junk : List ℕ) → Line [] (0 ∷ junk)
  spaced :
      (settings : List (List ℕ × List ℕ)) (cmdline : List ℕ)
      → Line settings cmdline
      → Line settings (32 ∷ cmdline)
  setting :
      (key value cmdline rest : List ℕ) (c : ℕ) (settings : List (List ℕ × List ℕ))
      → IsSetting key value
      → (c ≡ 0) ⊎ (c ≡ 32)
      → cmdline ≡ (key ++ 61 ∷ value) ++ c ∷ rest
      → Line settings (c ∷ rest)
      → Line ((key, value) ∷ settings) cmdline

abbrev IsGraphic : ℕ → Type 0
IsGraphic c = (c ≢ 0) × (c ≢ 32)

read_setting_lem :
    (text rest : List ℕ) (c : ℕ)
    → All IsGraphic text
    → (c ≡ 0) ⊎ (c ≡ 32)
    → read_setting (text ++ c ∷ rest) ≡ ok (text, c ∷ rest)
unfolding read_setting
read_setting_lem [] rest c h (inl e) = rw e refl
read_setting_lem [] rest c h (inr e) = rw e refl
read_setting_lem (d ∷ text) rest c ((some_char, no_space), h) e =
    let goes_on : (d == 0 || d == 32) ≡ false = ground (arith, some_char, no_space) in
    rw (goes_on, read_setting_lem text rest c h e) refl

read_key_lem :
    (key rest : List ℕ) (left : ℕ)
    → All IsPlain key
    → length key < suc left
    → read_key left (key ++ 61 ∷ rest) ≡ ok (key, 61 ∷ rest)
unfolding read_key
read_key_lem [] rest zero h fits = refl
read_key_lem [] rest (suc left) h fits = refl
read_key_lem (c ∷ key) rest zero h fits = absurd (omega arith)
read_key_lem (c ∷ key) rest (suc left) ((some_char, no_space, no_sign), h) fits =
    let goes_on : (c == 0 || c == 61) ≡ false = ground (arith, some_char, no_sign) in
    rw (goes_on, read_key_lem key rest left h (omega arith)) refl

read_value_lem :
    (value : List ℕ) (left : ℕ)
    → All IsPlain value
    → length value < suc left
    → read_value (value ++ 0 ∷ []) left ≡ ok value
unfolding read_value
read_value_lem [] left h fits = elim (Bool-cases (left == 0)) [
  | inl e ↦ rw e refl
  | inr e ↦ rw e refl
]
read_value_lem (c ∷ value) left ((some_char, no_space, no_sign), h) fits =
    let no_equals : (c == 61) ≡ false = ground (arith, no_sign) in
    let goes_on : (left == 0 || c == 0) ≡ false = ground (arith, some_char) in
    rw (goes_on, no_equals, read_value_lem value (left - 1) h (omega arith)) refl

pub process_lem :
    (rgns : List Registration) (key value : List ℕ)
    → IsSetting key value
    → process rgns ((key ++ 61 ∷ value) ++ 0 ∷ []) ≡ call_for rgns key value
unfolding process read_value
process_lem rgns key value valid =
    let fits : length value < suc 63 = omega (arith, valid.value_fits) in
    ap (process rgns) (append_assoc key (61 ∷ value) (0 ∷ []))
    ∙ rw
        (
          process,
          read_key_lem key (value ++ 0 ∷ []) 63 valid.key_plain (omega (arith, valid.key_fits)),
          read_value_lem value 63 valid.value_plain fits,
        )
        refl

graphic : (text : List ℕ) → All IsPlain text → All IsGraphic text
graphic [] h = tt
graphic (c ∷ text) ((some_char, no_space, no_sign), h) = ((some_char, no_space), graphic text h)

setting-IsGraphic : (key value : List ℕ) → IsSetting key value → All IsGraphic (key ++ 61 ∷ value)
setting-IsGraphic key value valid =
    All-append IsGraphic key (61 ∷ value) (graphic key valid.key_plain)
      ((omega arith, omega arith), graphic value valid.value_plain)

-- A setting does not begin with a space or a null.
pub first_char :
    (key : List ℕ)
    → All IsPlain key
    → 0 < length key
    → (d : ℕ) × (others : List ℕ) × (key ≡ d ∷ others) × (d ≢ 0) × (d ≢ 32)
first_char [] h named = absurd (omega arith)
first_char (d ∷ key) ((some_char, no_space, no_sign), h) named = (d, key, refl, some_char, no_space)

at_setting : (d : ℕ) (cmdline : List ℕ) → d ≢ 32 → skip_spaces (d ∷ cmdline) ≡ ok (d ∷ cmdline)
unfolding skip_spaces
at_setting d cmdline h = let stays : (d == 32) ≡ false = ground (arith, h) in rw stays refl

-- What a round takes from the command line.
abbrev pub Takes : List (List ℕ × List ℕ) → List ℕ → Type 0
Takes [] cmdline = (rest : List ℕ) × (take_setting cmdline ≡ ok ([], rest))
Takes ((key, value) ∷ settings) cmdline =
    (rest : List ℕ) × (take_setting cmdline ≡ ok (key ++ 61 ∷ value, rest))
    × Line settings rest
    × IsSetting key value

Takes-space :
    (settings : List (List ℕ × List ℕ)) (cmdline : List ℕ)
    → Takes settings cmdline
    → Takes settings (32 ∷ cmdline)
unfolding take_setting skip_spaces
Takes-space [] cmdline h = h
Takes-space (s ∷ settings) cmdline h = h

pub Line-Takes :
    (settings : List (List ℕ × List ℕ)) (cmdline : List ℕ)
    → Line settings cmdline
    → Takes settings cmdline
unfolding take_setting skip_spaces read_setting
Line-Takes _ _ (ended junk) = (0 ∷ junk, refl)
Line-Takes settings _ (spaced _ cmdline line) =
    Takes-space settings cmdline (Line-Takes settings cmdline line)
Line-Takes _ cmdline (setting key value _ rest c settings valid at_end e line) =
    let (d, others, key_is, some_char, no_space) = first_char key valid.key_plain valid.named in
    let text : List ℕ = key ++ 61 ∷ value in
    let whole : text ++ c ∷ rest ≡ d ∷ ((others ++ 61 ∷ value) ++ c ∷ rest) =
      ap (λ k. (k ++ 61 ∷ value) ++ c ∷ rest) key_is in
    let skipped : skip_spaces cmdline ≡ ok (text ++ c ∷ rest) =
      ap skip_spaces (e ∙ whole)
      ∙ at_setting d ((others ++ 61 ∷ value) ++ c ∷ rest) no_space
      ∙ ap ok (sym whole) in
    let read = read_setting_lem text rest c (setting-IsGraphic key value valid) at_end in
    let low : ltb (length text) 128 ≡ true =
      ground (arith, length-append key (61 ∷ value), valid.key_fits, valid.value_fits) in
    (c ∷ rest, rw (take_setting, skipped, read, low) refl, line, valid)
