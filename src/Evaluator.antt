-- ===== src/Evaluator.antt =====
-- internal/evaluator/evaluator.go: `ThresholdEvaluator.Evaluate`, which moves weight away from the
-- backends that breach a threshold. `*backendState` pointers are places in the list `states`, so
-- that a write through `unhealthy` or `healthy` shows in `states`, as it does in the source.
pub mod State
pub mod Role
pub mod Classify
pub mod Numbers
pub mod Branches
pub mod Outcome
pub mod Allocation
pub mod Laws
pub mod Contained
pub mod Account
pub mod Holds
pub mod Points
pub mod Settling
pub mod Worse
pub mod Priority
pub mod Progress
pub mod Readings
pub mod Health
pub mod Examples
pub mod Shift
use Prim.Native.String.{◌++◌ as append}
use text.Mathlib.Text.{◌==◌}
use traficctl.Prelude.{
  ℕ, zero, suc, ◌+◌, List, [], ◌∷◌, ◌++◌, map, Option, none, some, Bool, true, false, not, String,
}
use traficctl.Prelude.Tests.{if◌then◌else◌, eqb, text_lt}
use traficctl.Prelude.Int.{ℤ, pos, eq_int, le_int}
use traficctl.Prelude.Lists.{length, get_elem?}
use traficctl.Prelude.Float.{Float}
use traficctl.Prelude.Format.{join, decimal}
use traficctl.Prelude.Sort.{stable_sort}
use traficctl.Api.Types.{BackendWeight}
use State.{BackendState, Input, build_states}
use Shift.{shift_loop, budget}

pub record Decision : Type 0 where
  pub weights : List BackendWeight
  pub reason : String
  pub changed : Bool

unfoldable pub hold_decision : List BackendWeight → String → Decision
hold_decision current reason = record { weights = current; reason = reason; changed = false }

abbrev pub contains : String → List String → Bool
contains s [] = false
contains s (t ∷ ts) = if t == s then true else contains s ts

-- `seen` holds what is in `out`.
unfoldable pub dedupe_from : List String → List String → List String
dedupe_from seen [] = []
dedupe_from seen (s ∷ ss) = elim (contains s seen) [
  | true ↦ dedupe_from seen ss
  | false ↦ s ∷ dedupe_from (s ∷ seen) ss
]

unfoldable pub dedupe : List String → List String
unfolding dedupe_from
dedupe = dedupe_from []

-- What the three classes of the first loop hold: a count, and pointers into `states`.
pub record Classes : Type 0 where
  pub missing : ℕ
  pub unhealthy : List ℕ
  pub healthy : List ℕ

module _ {F : Type 0} where
  unfoldable pub place : ℕ → BackendState F → Classes → Classes
  place i s c =
      if not s.have_sample then record c { missing = c.missing + 1 } else elim s.breaches [
        | [] ↦ record c { healthy = c.healthy ++ (i ∷ []) }
        | _ ∷ _ ↦ record c { unhealthy = c.unhealthy ++ (i ∷ []) }
      ]

  unfoldable pub classify_from : ℕ → List (BackendState F) → Classes → Classes
  unfolding place
  classify_from i [] c = c
  classify_from i (s ∷ ss) c = classify_from (suc i) ss (place i s c)

  unfoldable pub classify : List (BackendState F) → Classes
  unfolding classify_from
  classify ss = classify_from 0 ss (record { missing = 0; unhealthy = []; healthy = [] })

  -- A comparison of what two pointers point to.
  unfoldable pub through :
      (BackendState F → BackendState F → Bool) → List (BackendState F) → ℕ → ℕ → Bool
  through less states i j = elim (get_elem? states i) [
    | none ↦ false
    | some a ↦ elim (get_elem? states j) [ none ↦ false | some b ↦ less a b ]
  ]

  unfoldable pub names_of : List (BackendState F) → List ℕ → List String
  names_of states [] = []
  names_of states (i ∷ is) = elim (get_elem? states i) [
    | none ↦ names_of states is
    | some s ↦ s.name ∷ names_of states is
  ]

  -- "name(signal+signal)"
  unfoldable pub donor_text : BackendState F → String
  unfolding dedupe
  donor_text s = append s.name (append "(" (append (join "+" (dedupe s.breaches)) ")"))

  unfoldable pub donor_texts : List (BackendState F) → List ℕ → List String
  unfolding donor_text
  donor_texts states [] = []
  donor_texts states (i ∷ is) = elim (get_elem? states i) [
    | none ↦ donor_texts states is
    | some s ↦ donor_text s ∷ donor_texts states is
  ]

  unfoldable pub build_reason : ℤ → List (BackendState F) → List ℕ → List ℕ → String
  unfolding donor_texts names_of
  build_reason shifted states unhealthy healthy = append "Shifted " (
      append (decimal shifted) (
        append " pp: " (
          append (join "," (donor_texts states unhealthy))
            (append " -> " (join "," (names_of states healthy))))))

  unfoldable pub weights_of : List (BackendState F) → List BackendWeight
  weights_of = map λ s. record { name = s.name; weight = s.current }

module _ {F : Type 0} ⦃fl : Float F⦄ where
  -- Worst first: the donor with the highest score.
  unfoldable pub worse : BackendState F → BackendState F → Bool
  worse a b = if not (fl.eq a.score b.score) then fl.lt b.score a.score else text_lt a.name b.name

  unfoldable pub better : BackendState F → BackendState F → Bool
  better a b = if not (fl.eq a.score b.score) then fl.lt a.score b.score else text_lt a.name b.name

  -- What follows the loop, with the sorted pointers and what the loop left.
  unfoldable pub finish : Input F → List ℕ → List ℕ → List (BackendState F) × ℤ → Decision
  unfolding weights_of build_reason hold_decision
  finish inp unhealthy healthy (states, shifted) =
      if eq_int shifted (pos 0)
      then hold_decision inp.current "no headroom to shift within declared bounds"
      else record {
        weights = weights_of states;
        reason = build_reason shifted states unhealthy healthy;
        changed = true;
      }

  -- The loop, with enough fuel: each round uses up budget.
  unfoldable pub move : Input F → List (BackendState F) → List ℕ → List ℕ → Decision
  unfolding finish
  move inp states unhealthy healthy =
      finish inp unhealthy healthy
        (shift_loop unhealthy healthy (suc (budget states)) states (pos 0))

  unfoldable pub decide : Input F → List (BackendState F) → Classes → Decision
  unfolding move worse better through hold_decision
  decide inp states c =
      if eqb c.missing (length states)
      then hold_decision inp.current "no samples received; holding"
      else elim c.unhealthy [
        | [] ↦ hold_decision inp.current "all backends within thresholds"
        | _ ∷ _ ↦ elim c.healthy [
          | [] ↦ hold_decision inp.current "all backends breach thresholds; nowhere safe to shift"
          | _ ∷ _ ↦
              move inp states (stable_sort (through worse states) c.unhealthy)
                (stable_sort (through better states) c.healthy)
        ]
      ]

  unfoldable pub evaluate : Input F → Decision
  unfolding decide classify
  evaluate inp =
      if le_int inp.max_step_percent (pos 0)
      then hold_decision inp.current "maxStepPercent is zero; holding"
      else elim inp.signals [
        | [] ↦ hold_decision inp.current "no signals configured; holding"
        | _ ∷ _ ↦ decide inp (build_states inp) (classify (build_states inp))
      ]
