-- ===== src/Cli/Tables.antt =====
-- internal/cli/cli.go: the tables and lines that `runList` and `runStatus` print.
use text.Mathlib.Text.{◌==◌}
use Prim.Native.String.{◌++◌ as append}
use traficctl.Prelude.{ℕ, List, [], ◌∷◌, map, Option, none, some, Bool, true, false, not, String}
use traficctl.Prelude.Tests.{if◌then◌else◌, text_lt}
use traficctl.Prelude.Int.{ℤ}
use traficctl.Prelude.Dict.{Dict, lookup}
use traficctl.Prelude.Format.{join, decimal}
use traficctl.Api.Types.{
  Backend, BackendWeight, Condition, ConditionStatus, true_status, false_status, unknown_status,
  TrafficPolicy, phase_text,
}
use traficctl.Api.WeightMap.{weight_map}
use traficctl.Cli.Writes.{Output, Write, done, ◌>>◌, each, line, cells, flush_table, new_table}

-- What the tool uses of other packages: `sort.Slice`, `meta.FindStatusCondition` and `Time.Format`.
pub record Toolbox : Type 0 where
  pub sort_slice : (TrafficPolicy → TrafficPolicy → Bool) → List TrafficPolicy → List TrafficPolicy
  pub find_condition : List Condition → String → Option Condition
  pub format_time : ℕ → String

abbrev pub words : List String → String
words [] = ""
words (s ∷ ss) = append s (words ss)

-- `%t`
abbrev pub bool_text : Bool → String
bool_text true = "true"
bool_text false = "false"

abbrev pub status_text : ConditionStatus → String
status_text true_status = "True"
status_text false_status = "False"
status_text unknown_status = "Unknown"

unfoldable pub default_string : String → String → String
default_string s fallback = if s == "" then fallback else s

abbrev pub weight_part : BackendWeight → String
weight_part w = words (w.name ∷ "=" ∷ decimal w.weight ∷ [])

unfoldable pub format_weights : List BackendWeight → String
format_weights [] = "-"
format_weights (w ∷ ws) = join "," (map weight_part (w ∷ ws))

-- The order of the table of `list`.
unfoldable pub listed_before : TrafficPolicy → TrafficPolicy → Bool
listed_before a b =
    if not (a.namespace == b.namespace)
    then text_lt a.namespace b.namespace
    else text_lt a.name b.name

abbrev pub list_header : Bool → String
list_header true = "NAMESPACE\tNAME\tROUTE\tPHASE\tPAUSED\tWEIGHTS\n"
list_header false = "NAME\tROUTE\tPHASE\tPAUSED\tWEIGHTS\n"

unfoldable pub list_row : Bool → TrafficPolicy → String
unfolding default_string format_weights
list_row all_ns p =
    let rest = words (
      p.name
      ∷ "\t"
      ∷ p.spec.route_name
      ∷ "\t"
      ∷ default_string (phase_text p.status.phase) "-"
      ∷ "\t"
      ∷ bool_text p.spec.paused
      ∷ "\t"
      ∷ format_weights p.status.weights
      ∷ "\n"
      ∷ []) in
    if all_ns then words (p.namespace ∷ "\t" ∷ rest ∷ []) else rest

-- The weight of a backend in the table of `status`.
unfoldable pub current_text : Dict ℤ → String → String
current_text currents name = elim (lookup name currents) [ none ↦ "-" | some w ↦ decimal w ]

unfoldable pub backend_row : Dict ℤ → Backend → String
unfolding current_text
backend_row currents b = words (
    "  "
    ∷ b.name
    ∷ "\t"
    ∷ decimal b.min_weight
    ∷ "\t"
    ∷ decimal b.max_weight
    ∷ "\t"
    ∷ current_text currents b.name
    ∷ "\n"
    ∷ [])

abbrev pub condition_row : Condition → String
condition_row c =
    words
      ("  " ∷ c.kind ∷ "\t" ∷ status_text c.status ∷ "\t" ∷ c.reason ∷ "\t" ∷ c.message ∷ "\n" ∷ [])

module _ {O : Type 0} (tools : Toolbox) (out : Output O) where
  -- What follows a successful `List`.
  unfoldable pub print_list : Bool → List TrafficPolicy → Write O
  unfolding listed_before list_row
  print_list all_ns items = do
    new_table out
    cells out (list_header all_ns)
    each (λ p. cells out (list_row all_ns p)) (tools.sort_slice listed_before items)
    flush_table out

  unfoldable pub print_time : String → Option ℕ → Write O
  print_time label none = done
  print_time label (some t) = line out (words (label ∷ tools.format_time t ∷ "\n" ∷ []))

  -- `if ready != nil && ready.Status != "True"`
  unfoldable pub print_not_ready : Option Condition → Write O
  print_not_ready none = done
  print_not_ready (some c) = elim c.status [
    | true_status ↦ done
    | false_status ↦ line out (words ("\nNot ready: " ∷ c.reason ∷ " - " ∷ c.message ∷ "\n" ∷ []))
    | unknown_status ↦ line out (words ("\nNot ready: " ∷ c.reason ∷ " - " ∷ c.message ∷ "\n" ∷ []))
  ]

  unfoldable pub print_conditions : List Condition → Write O
  unfolding print_not_ready
  print_conditions [] = done
  print_conditions (c ∷ cs) = do
    line out "\nConditions:\n"
    new_table out
    cells out "  TYPE\tSTATUS\tREASON\tMESSAGE\n"
    each (λ cond. cells out (condition_row cond)) (c ∷ cs)
    flush_table out
    print_not_ready (tools.find_condition (c ∷ cs) "Ready")

  -- What follows a successful `Get`.
  unfoldable pub print_status : TrafficPolicy → Write O
  unfolding default_string print_time backend_row print_conditions weight_map
  print_status p = do
    line out (words ("Name:         " ∷ p.name ∷ "\n" ∷ []))
    line out (words ("Namespace:    " ∷ p.namespace ∷ "\n" ∷ []))
    line out (words ("Route:        " ∷ p.spec.route_name ∷ "\n" ∷ []))
    line out (words ("Paused:       " ∷ bool_text p.spec.paused ∷ "\n" ∷ []))
    line out (words ("Phase:        " ∷ default_string (phase_text p.status.phase) "-" ∷ "\n" ∷ []))
    line out
        (words ("LastReason:   " ∷ default_string p.status.last_transition_reason "-" ∷ "\n" ∷ []))
    print_time "LastEval:     " p.status.last_evaluation_time
    print_time "LastShift:    " p.status.last_weight_change_time
    line out "\nBackends:\n"
    new_table out
    cells out "  NAME\tMIN\tMAX\tCURRENT\n"
    each (λ b. cells out (backend_row (weight_map [] p.status.weights) b)) p.spec.backends
    flush_table out
    print_conditions p.status.conditions
