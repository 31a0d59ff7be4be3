-- ===== src/Controller/Spec.antt =====
-- internal/controller/trafficpolicy_controller.go: `validateSpec`.
pub mod Valid
use Prim.Native.String.{◌++◌ as append}
use text.Mathlib.Text.{◌==◌}
use traficctl.Prelude.{ℕ, List, [], ◌∷◌, Option, none, some, Bool, true, false, String}
use traficctl.Prelude.Tests.{if◌then◌else◌, ltb}
use traficctl.Prelude.Int.{ℤ, pos, add32, lt_int}
use traficctl.Prelude.Lists.{length}
use traficctl.Prelude.Format.{decimal}
use traficctl.Prelude.Quote.{quote}
use traficctl.Api.Types.{Backend, TrafficPolicySpec}

pub data SpecError : Type 0 where
  too_few_backends : ℕ → SpecError
  empty_name : SpecError
  duplicate_name : String → SpecError
  min_exceeds_max : Backend → SpecError
  min_sum_exceeds : ℤ → SpecError
  max_sum_is_less : ℤ → SpecError

unfoldable pub spec_error_text : SpecError → String
spec_error_text (too_few_backends n) =
    append "at least two backends are required, got " (decimal (pos n))
spec_error_text empty_name = "backend name must not be empty"
spec_error_text (duplicate_name s) = append "duplicate backend name " (quote s)
spec_error_text (min_exceeds_max b) = append "backend " (
    append (quote b.name) (
      append ": minWeight "
        (append (decimal b.min_weight) (append " exceeds maxWeight " (decimal b.max_weight)))))
spec_error_text (min_sum_exceeds n) =
    append "sum of minWeights (" (append (decimal n) ") exceeds 100")
spec_error_text (max_sum_is_less n) =
    append "sum of maxWeights (" (append (decimal n) ") is less than 100")

abbrev pub seen_before : String → List String → Bool
seen_before s [] = false
seen_before s (t ∷ ts) = if t == s then true else seen_before s ts

-- The loop ends with an error or with the two sums.
pub data Scan : Type 0 where
  bad : SpecError → Scan
  sums : ℤ → ℤ → Scan

unfoldable pub scan : List String → ℤ → ℤ → List Backend → Scan
scan seen min_sum max_sum [] = sums min_sum max_sum
scan seen min_sum max_sum (b ∷ bs) =
    let rest = scan (b.name ∷ seen) (add32 min_sum b.min_weight) (add32 max_sum b.max_weight) bs in
    if b.name == ""
    then bad empty_name
    else (if seen_before b.name seen
        then bad (duplicate_name b.name)
        else (if lt_int b.max_weight b.min_weight then bad (min_exceeds_max b) else rest))

abbrev pub check_sums : Scan → Option SpecError
check_sums (bad e) = some e
check_sums (sums min_sum max_sum) =
    if lt_int (pos 100) min_sum
    then some (min_sum_exceeds min_sum)
    else (if lt_int max_sum (pos 100) then some (max_sum_is_less max_sum) else none)

-- `none` is the nil error.
unfoldable pub validate_spec : TrafficPolicySpec → Option SpecError
unfolding scan
validate_spec spec =
    if ltb (length spec.backends) 2
    then some (too_few_backends (length spec.backends))
    else check_sums (scan [] (pos 0) (pos 0) spec.backends)
