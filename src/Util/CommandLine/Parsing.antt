-- ===== src/Util/CommandLine/Parsing.antt =====
-- CourseWorks/infos/util/cmdline.cpp: `parse` of a whole command line.
use inf3_os.Base.{
  subst, ℕ, zero, suc, ◌<◌, ◌≡◌, ◌≢◌, refl, ap, ◌∙◌, false, List, [], ◌∷◌, ◌++◌, ok, ◌==◌, ◌&&◌,
  Option, none, some, map, All, Bool, Bool-cases, inl, inr, true, if◌then◌else◌, length,
  length-append, arith,
}
use inf3_os.Util.CommandLine.{Registration, call_for, find_registration, parse_loop, parse}
use inf3_os.Util.Equality.{same_list}
use inf3_os.Util.Text.{strncmp}
use inf3_os.Util.Text.Copying.{IsText}
use inf3_os.Util.Text.Comparing.{agree, strncmp_lem}
use inf3_os.Util.CommandLine.Settings.{
  IsPlain, Line, ended, spaced, setting, IsSetting, Takes, Line-Takes, process_lem, first_char,
}

-- What is registered: a function for a text, or for NULL.
abbrev pub Registered : Type 0
Registered = Option (List ℕ) × ℕ

abbrev pub registration : Registered → Registration
registration (none, fn) = record { match_text = none; fn = fn }
registration (some text, fn) = record { match_text = some (text ++ 0 ∷ []); fn = fn }

abbrev pub HasText : Registered → Type 0
HasText (none, fn) = Unit
HasText (some text, fn) = IsText text

-- The call for a setting: of the first function whose text is the key, if there is one.
abbrev pub call_of : List Registered → List ℕ → List ℕ → List (ℕ × List ℕ)
call_of [] key value = []
call_of ((none, fn) ∷ rgns) key value = call_of rgns key value
call_of ((some text, fn) ∷ rgns) key value =
    if same_list text key then (fn, value) ∷ [] else call_of rgns key value

-- The calls for settings, in their order.
abbrev pub calls_for : List Registered → List (List ℕ × List ℕ) → List (ℕ × List ℕ)
calls_for rgns [] = []
calls_for rgns ((key, value) ∷ settings) = call_of rgns key value ++ calls_for rgns settings

and_false : (b : Bool) → (b && false) ≡ false
and_false true = refl
and_false false = refl

agree-same_list :
    (n : ℕ) (text key : List ℕ)
    → length key < suc n
    → (length text == length key && agree n text key) ≡ same_list text key
agree-same_list zero [] [] low = refl
agree-same_list (suc n) [] [] low = refl
agree-same_list zero [] (b ∷ key) low = absurd (omega arith)
agree-same_list (suc n) [] (b ∷ key) low = and_false (0 == suc (length key))
agree-same_list zero (a ∷ text) [] low = ground arith
agree-same_list (suc n) (a ∷ text) [] low = and_false (suc (length text) == 0)
agree-same_list zero (a ∷ text) (b ∷ key) low = absurd (omega arith)
agree-same_list (suc n) (a ∷ text) (b ∷ key) low =
    let later = agree-same_list n text key (omega arith) in
    let sizes : (suc (length text) == suc (length key)) ≡ (length text == length key) =
      ground arith in
    elim (Bool-cases (a == b)) [
      | inl same ↦ rw (sizes, same) later
      | inr differs ↦ rw (sizes, differs) (and_false (length text == length key))
    ]

plain-IsText : (key : List ℕ) → All IsPlain key → IsText key
plain-IsText [] h = tt
plain-IsText (c ∷ key) ((some_char, _, _), h) = (ground (arith, some_char), plain-IsText key h)

-- The search of the registrations for a key, and the call.
call_for_lem :
    (rgns : List Registered) (key value : List ℕ)
    → All HasText rgns
    → All IsPlain key
    → length key < 64
    → call_for (map registration rgns) key value ≡ ok (call_of rgns key value)
unfolding call_for find_registration
call_for_lem [] key value texts plain low = refl
call_for_lem ((none, fn) ∷ rgns) key value (_, texts) plain low =
    call_for_lem rgns key value texts plain low
call_for_lem ((some text, fn) ∷ rgns) key value (text_text, texts) plain low =
    let compared : strncmp (text ++ 0 ∷ []) (key ++ 0 ∷ []) 256 ≡ ok (same_list text key) =
      strncmp_lem text key [] [] 256 text_text (plain-IsText key plain)
      ∙ ap ok (agree-same_list 256 text key (omega arith)) in
    elim (Bool-cases (same_list text key)) [
      | inl same ↦ rw (call_for, compared, same) refl
      | inr differs ↦ rw (call_for, compared, differs) (call_for_lem rgns key value texts plain low)
    ]

Line-length :
    (settings : List (List ℕ × List ℕ)) (cmdline : List ℕ)
    → Line settings cmdline
    → length settings < length cmdline
Line-length _ _ (ended junk) = omega arith
Line-length settings _ (spaced _ cmdline line) = omega (arith, Line-length settings cmdline line)
Line-length _ cmdline (setting key value _ rest c settings valid at_end e line) = omega (
  arith,
  Line-length settings (c ∷ rest) line,
  ap length e,
  length-append (key ++ 61 ∷ value) (c ∷ rest),
  length-append key (61 ∷ value),
)

setting_named :
    (key value : List ℕ) → IsSetting key value → (length (key ++ 61 ∷ value) == 0) ≡ false
setting_named key value valid = ground (arith, length-append key (61 ∷ value))

-- A round on a command line that does not begin with the null.
parse_round :
    (rgns : List Registered) (settings : List (List ℕ × List ℕ)) (fuel d : ℕ) (cmdline : List ℕ)
    → d ≢ 0
    → All HasText rgns
    → Takes settings (d ∷ cmdline)
    → ((others : List (List ℕ × List ℕ)) (rest : List ℕ)
        → Line others rest
        → suc (length others) < suc (suc fuel)
        → suc (length others) ≡ length settings
        → parse_loop fuel (map registration rgns) rest ≡ ok (calls_for rgns others))
    → length settings < suc fuel
    → parse_loop (suc fuel) (map registration rgns) (d ∷ cmdline) ≡ ok (calls_for rgns settings)
unfolding parse_loop
parse_round rgns [] fuel d cmdline some_char texts (rest, taken) later enough =
    let goes_on : (d == 0) ≡ false = ground (arith, some_char) in rw (goes_on, taken) refl
parse_round rgns ((key, value) ∷ settings) fuel d cmdline some_char texts (rest, taken, line, valid)
      later enough =
    let goes_on : (d == 0) ≡ false = ground (arith, some_char) in
    rw
      (
        goes_on,
        taken,
        setting_named key value valid,
        process_lem (map registration rgns) key value valid,
        call_for_lem rgns key value texts valid.key_plain valid.key_fits,
        later settings rest line (omega arith) refl,
      )
      refl

parse_loop_lem :
    (rgns : List Registered) (fuel : ℕ) (settings : List (List ℕ × List ℕ)) (cmdline : List ℕ)
    → All HasText rgns
    → Line settings cmdline
    → length settings < fuel
    → parse_loop fuel (map registration rgns) cmdline ≡ ok (calls_for rgns settings)
unfolding parse_loop
parse_loop_lem rgns zero settings cmdline texts line enough = absurd (omega arith)
parse_loop_lem rgns (suc fuel) _ _ texts (ended junk) enough = refl
parse_loop_lem rgns (suc fuel) settings _ texts (spaced _ cmdline line) enough =
    parse_round rgns settings fuel 32 cmdline (omega arith) texts
      (Line-Takes settings (32 ∷ cmdline) (spaced settings cmdline line))
      (λ others rest more low shorter.
        parse_loop_lem rgns fuel others rest texts more (omega arith))
      enough
parse_loop_lem rgns (suc fuel) _ cmdline texts
      (setting key value _ rest c settings valid at_end e line) enough =
    let (d, tail, key_is, some_char, no_space) = first_char key valid.key_plain valid.named in
    let whole : cmdline ≡ d ∷ ((tail ++ 61 ∷ value) ++ c ∷ rest) =
      e ∙ ap (λ k. (k ++ 61 ∷ value) ++ c ∷ rest) key_is in
    let taken =
      Line-Takes ((key, value) ∷ settings) cmdline
        (setting key value cmdline rest c settings valid at_end e line) in
    ap (parse_loop (suc fuel) (map registration rgns)) whole
    ∙ parse_round rgns ((key, value) ∷ settings) fuel d ((tail ++ 61 ∷ value) ++ c ∷ rest) some_char
        texts (subst (Takes ((key, value) ∷ settings)) whole taken)
        (λ others rest more low shorter.
          parse_loop_lem rgns fuel others rest texts more (omega arith))
        enough

-- `parse` of a command line of settings `key=value`, with any spaces around them, calls for each
-- setting in its order the first function that is registered for a text equal to its key, with its
-- value, and none where there is none, and it ends. The registered texts have no null inside. Keys and values have at most 63 characters and no null, space or `=`
-- in them, and a key is not empty.
pub parse_lem :
    (rgns : List Registered) (settings : List (List ℕ × List ℕ)) (cmdline : List ℕ)
    → All HasText rgns
    → Line settings cmdline
    → parse (map registration rgns) cmdline ≡ ok (calls_for rgns settings)
unfolding parse
parse_lem rgns settings cmdline texts line =
    parse_loop_lem rgns (length cmdline) settings cmdline texts line
      (Line-length settings cmdline line)
