-- ===== src/Cli.antt =====
-- internal/cli/cli.go: the commands of the `trafficctl` tool. The cluster client is a parameter over a
-- type `W` of worlds; the parsing of the command line is cobra's.
pub mod Writes
pub mod Tables
pub mod Commands
pub mod Laws
pub mod Listing
pub mod TestData
pub mod Examples
use text.Mathlib.Text.{◌==◌}
use Prim.Native.String.{◌++◌ as append}
use traficctl.Prelude.{ℕ, List, [], ◌∷◌, map, Option, none, some, Bool, true, false, not, String}
use traficctl.Prelude.Tests.{if◌then◌else◌, text_lt}
use traficctl.Prelude.Int.{ℤ}
use traficctl.Prelude.Dict.{Dict, lookup}
use traficctl.Prelude.Format.{join, decimal}
use traficctl.Prelude.Results.{Result, ok, fails}
use traficctl.Api.Types.{
  Backend, BackendWeight, Phase, unset, pending, stable, progressing, frozen, degraded, Condition,
  ConditionStatus, true_status, false_status, unknown_status, TrafficPolicy,
}
use traficctl.Api.WeightMap.{weight_map}
use Tables.{
  Toolbox, backend_row, bool_text, condition_row, current_text, default_string, format_weights,
  list_header, list_row, listed_before, print_conditions, print_list, print_not_ready, print_status,
  print_time, status_text, weight_part, words,
}
use Writes.{Output, Write, done, stop, ◌>>◌, each, line, cells, flush_table, new_table}

-- The client's calls; the namespace of `list` is `none` across all namespaces.
pub record PolicyClient (W : Type 0) : Type 0 where
  pub list : W → Option String → Result (List TrafficPolicy)
  pub get : W → String → String → Result TrafficPolicy
  pub patch : W → (changed original : TrafficPolicy) → W × Option String

module _ {W O : Type 0} (client : PolicyClient W) (tools : Toolbox) (out : Output O) where
  unfoldable pub run_list : W → String → Bool → Write O
  unfolding print_list
  run_list w namespace all_ns = elim (client.list w (if all_ns then none else some namespace)) [
    | fails e ↦ stop (append "list policies: " e)
    | ok items ↦ print_list tools out all_ns items
  ]

  unfoldable pub run_status : W → String → String → Write O
  unfolding print_status
  run_status w namespace name = elim (client.get w namespace name) [
    | fails e ↦ stop (append "get policy: " e)
    | ok p ↦ print_status tools out p
  ]

abbrev pub with_paused : Bool → TrafficPolicy → TrafficPolicy
with_paused paused p = record p { spec = record (p.spec) { paused = paused } }

abbrev pub same_bool : Bool → Bool → Bool
same_bool true b = b
same_bool false b = not b

module _ {W O : Type 0} (client : PolicyClient W) (out : Output O) where
  -- What follows `Patch`.
  unfoldable pub say_toggled :
      String → String → Bool → W × Option String → O → W × (O × Option String)
  say_toggled namespace name paused (w, some e) o = (w, (o, some (append "patch policy: " e)))
  say_toggled namespace name paused (w, none) o =
      let verb = if paused then "frozen" else "resumed" in
      (w, line out (words (namespace ∷ "/" ∷ name ∷ " " ∷ verb ∷ "\n" ∷ [])) o)

  -- What follows `Get`.
  unfoldable pub toggle_read :
      W → String → String → Bool → O → Result TrafficPolicy → W × (O × Option String)
  unfolding say_toggled
  toggle_read w namespace name paused o (fails e) = (w, (o, some (append "get policy: " e)))
  toggle_read w namespace name paused o (ok p) =
      if same_bool p.spec.paused paused
      then (
        w,
        line out
            (words (
              namespace
              ∷ "/"
              ∷ name
              ∷ " already paused="
              ∷ bool_text paused
              ∷ "; nothing to do\n"
              ∷ []))
            o,
      )
      else say_toggled namespace name paused (client.patch w (with_paused paused p) p) o

  unfoldable pub toggle_paused : W → String → String → Bool → O → W × (O × Option String)
  unfolding toggle_read
  toggle_paused w namespace name paused o =
      toggle_read w namespace name paused o (client.get w namespace name)
