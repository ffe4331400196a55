-- ===== src/Util/Tests.antt =====
-- Instances of the theorems on lists and on time.
use inf3_os.Base.{
  ◌⊎◌, ◌≤◌, ◌<◌, All, length, ok, none, true, some, false, ◌^◌, ◌≢◌, ℕ, ◌≡◌, refl, List, [], ◌∷◌,
  arith,
}
use inf3_os.Util.LinkedList.{LinkedList}
use inf3_os.Util.Equality.{ℕ_eq}
use inf3_os.Util.LinkedList.History.{Call, Shows, calls, specs, calls-Shows}
use inf3_os.Util.Text.{split, to_string}
use inf3_os.Util.Text.Splitting.{IsSplit, split-IsSplit, split_never_ends}
use inf3_os.Util.Text.Copying.{leading, read_decimal, to_string-read_decimal}
use inf3_os.Util.Time.{Duration, Timepoint, sub_assign}

abbrev three_items : LinkedList ℕ
three_items = record { elems = 5 ∷ 7 ∷ 5 ∷ []; counter = 3 }

abbrev some_calls : List (Call ℕ)
some_calls = Call.removes 5 ∷ Call.pushes 9 ∷ Call.dequeues ∷ Call.appends 4 ∷ []

calls-Shows_example : Shows (specs (5 ∷ 7 ∷ 5 ∷ []) some_calls) (calls three_items some_calls)
calls-Shows_example = calls-Shows three_items some_calls refl

abbrev seconds : ℕ → Duration
seconds n = record { val = n }

abbrev at_second : ℕ → Timepoint
at_second n = record { since_epoch = seconds n }

seven_not_half : (sub_assign (seconds 10) (seconds 3)).val ≢ 2 ^ 63
unfolding sub_assign
seven_not_half = ground arith

-- "a,,b" with commas.
abbrev two_commas : List ℕ
two_commas = 97 ∷ 44 ∷ 44 ∷ 98 ∷ []

split-IsSplit_example :
    (parts : List (List ℕ)) × (split 5 two_commas 44 false ≡ some parts)
    × IsSplit 44 two_commas parts
split-IsSplit_example = split-IsSplit 5 two_commas 44 (omega arith)

split_never_ends_example :
    (split 9 (44 ∷ 98 ∷ []) 44 true ≡ none) × (split 9 two_commas 44 true ≡ none)
split_never_ends_example = split_never_ends 9 (97 ∷ []) (98 ∷ []) 44 (refl, tt)

to_string-read_decimal_example :
    (digits : List ℕ) × (to_string 4096 ≡ ok digits)
    × All (λ d. (48 ≤ d) × (d < 58)) digits
    × (read_decimal 0 digits ≡ 4096)
    × (length digits ≤ 10)
    × (((◌≡◌ {A = ℕ} 4096 0) × (digits ≡ 48 ∷ [])) ⊎ (leading digits ≢ 48))
to_string-read_decimal_example = to_string-read_decimal 4096 (omega arith)
