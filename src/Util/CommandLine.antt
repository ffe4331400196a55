-- ===== src/Util/CommandLine.antt =====
-- CourseWorks/infos/util/cmdline.cpp: the parser of the kernel's command line. A pointer is the rest
-- of its buffer; a write behind an array of characters is a panic. The functions that settings are
-- registered for are numbers, and their calls a list.
pub mod Settings
pub mod Parsing
mod Tests
use inf3_os.Base.{
  ℕ, zero, suc, ◌+◌, ◌-◌, Bool, true, false, ◌||◌, List, [], ◌∷◌, ◌++◌, Option, none, some, Outcome,
  ok, panic, ◌>>=◌, ltb, ◌==◌, if◌then◌else◌, length,
}
use inf3_os.Util.Text.{strncmp}

-- `CommandLineArgumentRegistration`; a `match` of `none` is NULL.
pub record Registration : Type 0 where
  pub match_text : Option (List ℕ)
  pub fn : ℕ

-- The first inner loop of `parse`.
unfoldable pub skip_spaces : List ℕ → Outcome (List ℕ)
skip_spaces [] = panic
skip_spaces (c ∷ cmdline) =
    let rest = skip_spaces cmdline in if c == 32 then rest else ok (c ∷ cmdline)

-- The second one: the setting, and what is left.
unfoldable pub read_setting : List ℕ → Outcome (List ℕ × List ℕ)
read_setting [] = panic
read_setting (c ∷ cmdline) =
    let more = read_setting cmdline >>= (λ (r : List ℕ × List ℕ). ok (c ∷ r.0, r.1)) in
    if c == 0 || c == 32 then ok ([], c ∷ cmdline) else more

-- The key of a setting, of as many characters as are left, and what is behind it.
unfoldable pub read_key : ℕ → List ℕ → Outcome (List ℕ × List ℕ)
read_key zero setting = ok ([], setting)
read_key (suc left) [] = panic
read_key (suc left) (c ∷ setting) =
    let more = read_key left setting >>= (λ (r : List ℕ × List ℕ). ok (c ∷ r.0, r.1)) in
    if c == 0 || c == 61 then ok ([], c ∷ setting) else more

-- The value: the characters but `=`.
unfoldable pub read_value : List ℕ → ℕ → Outcome (List ℕ)
read_value [] left = if left == 0 then ok [] else panic
read_value (c ∷ setting) left =
    let rest = read_value setting (if c == 61 then left else left - 1) in
    let more = rest >>= (λ value. ok (if c == 61 then value else c ∷ value)) in
    if left == 0 || c == 0 then ok [] else more

unfoldable pub find_registration : List Registration → List ℕ → Outcome (Option Registration)
find_registration [] key = ok none
find_registration (rgn ∷ rgns) key =
    let rest = find_registration rgns key in
    elim rgn.match_text [
      | none ↦ rest
      | some text ↦ do same ← strncmp text key 256; if same then ok (some rgn) else rest
    ]

-- The call for a key and a value.
unfoldable pub call_for : List Registration → List ℕ → List ℕ → Outcome (List (ℕ × List ℕ))
call_for rgns key value = do
  reg ← find_registration rgns (key ++ 0 ∷ [])
  (let calls : List (ℕ × List ℕ) = elim reg [ none ↦ [] | some r ↦ (r.fn, value) ∷ [] ] in ok calls)

-- `CommandLine::process`.
unfoldable pub process : List Registration → List ℕ → Outcome (List (ℕ × List ℕ))
process rgns setting = do
  (key, rest) ← read_key 63 setting
  value ← read_value rest 63
  call_for rgns key value

-- A setting in its array of 128 characters, with the null behind it.
unfoldable pub take_setting : List ℕ → Outcome (List ℕ × List ℕ)
take_setting cmdline = do
  at_setting ← skip_spaces cmdline
  (setting, rest) ← read_setting at_setting
  (if ltb (length setting) 128 then ok (setting, rest) else panic)

-- The loop of `parse`; each round takes a character at least.
unfoldable pub parse_loop : ℕ → List Registration → List ℕ → Outcome (List (ℕ × List ℕ))
parse_loop zero rgns cmdline = panic
parse_loop (suc fuel) rgns [] = panic
parse_loop (suc fuel) rgns (c ∷ cmdline) =
    let round = do
      (setting, rest) ← take_setting (c ∷ cmdline)
      (let more = do
        calls ← process rgns (setting ++ 0 ∷ [])
        others ← parse_loop fuel rgns rest
        ok (calls ++ others)
        in if length setting == 0 then ok [] else more)
    in if c == 0 then ok [] else round

unfoldable pub parse : List Registration → List ℕ → Outcome (List (ℕ × List ℕ))
parse rgns cmdline = parse_loop (length cmdline) rgns cmdline
