-- ===== src/Controller/Reconcile.antt =====
-- internal/controller/trafficpolicy_controller.go: `Reconcile`.
pub mod Branches
pub mod Applied
pub mod Safety
pub mod Start
pub mod Deleted
use Prim.Native.String.{◌++◌ as append}
use traficctl.Prelude.{ℕ, List, [], ◌∷◌, map, Option, none, some, Bool, true, false, not, String}
use traficctl.Prelude.Tests.{if◌then◌else◌}
use traficctl.Prelude.Float.{Float}
use traficctl.Prelude.Format.{join, decimal}
use traficctl.Api.Types.{
  TrafficPolicy, TrafficPolicyStatus, BackendWeight, Backend, Phase, stable, progressing, frozen,
  degraded, true_status, false_status,
}
use traficctl.Router.{
  Fetched, found, absent, failed, ApplyError, not_found, client_error, error_text,
}
use traficctl.Smoother.{Smoother, forget}
use traficctl.Controller.Env.{
  Env, World, Readings, Outcome, emit, put_condition, set_ready, patch_status_if_changed,
}
use traficctl.Controller.Journal.{
  Journal, EventType, normal, warning, paused_cause, route_cause, invalid_cause, same_phase,
  record_freeze, record_phase, record_backend_weights, record_weight_shift, forget_policy_metrics,
}
use traficctl.Controller.Spec.{SpecError, spec_error_text, validate_spec}
use traficctl.Controller.Initial.{initial_weights}
use traficctl.Controller.Strategy.{strategy_cooldown}
use traficctl.Controller.Sampling.{Evaluated, evaluate_metrics}
use traficctl.Controller.Endings.{
  format_weights, hold_paused, in_cluster, patch_and_return, reject_spec, report, route_missing,
  route_write_failed, succeed, wait_cooldown, weight_text, with_evaluation_time, with_generation,
  with_initial_weights, with_phase,
}

module _ {W F : Type 0} ⦃fl : Float F⦄ (env : Env W F) where
  -- `r.Weighter.Apply`
  abbrev pub apply_evaluated : Evaluated env → W × Option ApplyError
  apply_evaluated e =
      let p = e.policy in
      env.apply_weights e.world.cluster p.namespace p.spec.route_name p.status.weights

  unfoldable pub apply_and_report : Readings → TrafficPolicy → Evaluated env → World W F × Outcome
  unfolding report
  apply_and_report t original e = report env t original e (apply_evaluated e)

  -- `if len(policy.Status.Weights) == 0`
  unfoldable pub start_with : List BackendWeight → TrafficPolicy → TrafficPolicy
  unfolding initial_weights
  start_with [] p = with_initial_weights (initial_weights F p.spec.backends) p
  start_with (_ ∷ _) p = p

  abbrev pub start_policy : TrafficPolicy → TrafficPolicy
  start_policy p = start_with p.status.weights p

  -- A valid policy that is not paused.
  unfoldable pub advance : Readings → TrafficPolicy → World W F → World W F × Outcome
  unfolding apply_and_report evaluate_metrics start_with
  advance t original w =
      apply_and_report t original (evaluate_metrics env t (start_policy original) w)

  unfoldable pub reconcile_policy : Readings → TrafficPolicy → World W F → World W F × Outcome
  unfolding reject_spec hold_paused advance validate_spec emit
  reconcile_policy t p w =
      let was_paused = p.spec.paused in
      elim (validate_spec p.spec) [
        | some e ↦ reject_spec env e p w
        | none ↦
            if p.spec.paused
            then hold_paused env was_paused p w
            else let resumed =
                if was_paused
                then emit env normal "Resumed" "Controller resumed; weights may move again"
                    w.journal
                else w.journal in
              advance t p (record w { journal = resumed })
      ]

  -- `if r.Smoother != nil { r.Smoother.Forget(key) }`
  abbrev pub forget_if : Option (Smoother F) → String → Option (Smoother F)
  forget_if none key = none
  forget_if (some s) key = some (forget s key)

  -- A request names a policy; `key` is its `String()`.
  unfoldable pub reconcile : Readings → String → String → String → World W F → World W F × Outcome
  unfolding reconcile_policy forget_policy_metrics forget
  reconcile t ns name key w = elim (env.get_policy w.cluster ns name) [
    | absent ↦ (
      record w {
        smoother = forget_if w.smoother key;
        journal = forget_policy_metrics ns name w.journal;
      },
      record { requeue_after = none; error = none },
    )
    | failed e ↦ (w, record { requeue_after = none; error = some e })
    | found p ↦ reconcile_policy t p w
  ]
