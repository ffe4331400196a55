-- ===== src/Util/CommandLine/Tests.antt =====
-- An instance of the theorem on command lines.
use inf3_os.Base.{ℕ, ◌≡◌, refl, List, [], ◌∷◌, none, ok, map, some, inr, arith}
use inf3_os.Util.CommandLine.{parse}
use inf3_os.Util.CommandLine.Settings.{Line, ended, spaced, setting, IsSetting}
use inf3_os.Util.CommandLine.Parsing.{Registered, registration, parse_lem}

-- The keys "ab" and "a" are registered.
abbrev two_keys : List Registered
two_keys = (none, 3) ∷ (some (97 ∷ 98 ∷ []), 4) ∷ (some (97 ∷ []), 5) ∷ []

letters-IsSetting : IsSetting (97 ∷ []) (98 ∷ [])
letters-IsSetting = record {
  key_plain = ((omega arith, omega arith, omega arith), tt);
  value_plain = ((omega arith, omega arith, omega arith), tt);
  named = omega arith;
  key_fits = omega arith;
  value_fits = omega arith;
}

-- " a=b " and its end.
abbrev spaced_line : List ℕ
spaced_line = 32 ∷ 97 ∷ 61 ∷ 98 ∷ 32 ∷ 0 ∷ []

spaced_line-Line : Line ((97 ∷ [], 98 ∷ []) ∷ []) spaced_line
spaced_line-Line = spaced _ (97 ∷ 61 ∷ 98 ∷ 32 ∷ 0 ∷ []) (
    setting (97 ∷ []) (98 ∷ []) (97 ∷ 61 ∷ 98 ∷ 32 ∷ 0 ∷ []) (0 ∷ []) 32 [] letters-IsSetting
      (inr refl) refl (spaced [] (0 ∷ []) (ended [])))

parse_lem_example : parse (map registration two_keys) spaced_line ≡ ok ((5, 98 ∷ []) ∷ [])
parse_lem_example =
    parse_lem two_keys ((97 ∷ [], 98 ∷ []) ∷ []) spaced_line
      (tt, ((refl, (refl, tt)), ((refl, tt), tt))) spaced_line-Line
