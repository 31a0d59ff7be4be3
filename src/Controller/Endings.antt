-- ===== src/Controller/Endings.antt =====
-- internal/controller/trafficpolicy_controller.go: the ways in which a call of `Reconcile` ends, from the
-- status that it patches to what it answers.
use Prim.Native.String.{◌++◌ as append}
use traficctl.Prelude.{ℕ, List, map, Option, none, some, Bool, not, String}
use traficctl.Prelude.Tests.{if◌then◌else◌}
use traficctl.Prelude.Float.{Float}
use traficctl.Prelude.Format.{join, decimal}
use traficctl.Api.Types.{
  TrafficPolicy, BackendWeight, Phase, progressing, frozen, degraded, true_status, false_status,
}
use traficctl.Router.{ApplyError, not_found, client_error, error_text}
use traficctl.Controller.Env.{
  Env, World, Readings, Outcome, emit, put_condition, set_ready, patch_status_if_changed,
}
use traficctl.Controller.Journal.{
  normal, warning, paused_cause, route_cause, invalid_cause, same_phase, record_freeze,
  record_phase, record_backend_weights, record_weight_shift,
}
use traficctl.Controller.Spec.{SpecError, spec_error_text}
use traficctl.Controller.Strategy.{strategy_cooldown}
use traficctl.Controller.Sampling.{Evaluated}

abbrev pub weight_text : BackendWeight → String
weight_text w = append w.name (append "=" (decimal w.weight))

unfoldable pub format_weights : List BackendWeight → String
format_weights ws = join "," (map weight_text ws)

-- `policy.Status.Phase` and `policy.Status.ObservedGeneration`, which every branch sets.
abbrev pub with_phase : Phase → TrafficPolicy → TrafficPolicy
with_phase phase p = record p { status = record (p.status) { phase = phase } }

abbrev pub with_generation : TrafficPolicy → TrafficPolicy
with_generation p = record p { status = record (p.status) { observed_generation = p.generation } }

abbrev pub with_initial_weights : List BackendWeight → TrafficPolicy → TrafficPolicy
with_initial_weights ws p = record p {
  status = record (p.status) {
    weights = ws;
    last_transition_reason = "Initialized weights within declared bounds";
  };
}

abbrev pub with_evaluation_time : ℕ → TrafficPolicy → TrafficPolicy
with_evaluation_time now p = record p {
  status = record (p.status) { last_evaluation_time = some now };
}

abbrev pub wait_cooldown : TrafficPolicy → Option ℕ
wait_cooldown p = some (strategy_cooldown p.spec.strategy)

module _ {W F : Type 0} ⦃fl : Float F⦄ (env : Env W F) where
  -- `return ctrl.Result{RequeueAfter: wait}, r.patchStatusIfChanged(ctx, &policy, original)`
  unfoldable pub patch_and_return :
      Option ℕ → (desired original : TrafficPolicy) → World W F → World W F × Outcome
  unfolding patch_status_if_changed
  patch_and_return wait desired original w =
      let (cluster, err) = patch_status_if_changed env w.cluster desired original in
      (record w { cluster = cluster }, record { requeue_after = wait; error = err })

  -- The branch of an invalid spec.
  unfoldable pub reject_spec : SpecError → TrafficPolicy → World W F → World W F × Outcome
  unfolding emit set_ready record_freeze record_phase patch_and_return
  reject_spec e original w =
      let message = spec_error_text e in
      let told =
        if not (same_phase original.status.phase degraded)
        then emit env warning "InvalidSpec" message w.journal
        else w.journal in
      let desired =
        with_generation
          (with_phase degraded (set_ready env false_status "InvalidSpec" message original)) in
      let j =
        record_phase desired.namespace desired.name degraded
          (record_freeze original.namespace original.name invalid_cause told) in
      patch_and_return none desired original (record w { journal = j })

  -- The branch `if policy.Spec.Paused`. `was_paused` was read from a copy of the same object.
  unfoldable pub hold_paused : Bool → TrafficPolicy → World W F → World W F × Outcome
  unfolding emit set_ready record_freeze record_phase patch_and_return
  hold_paused was_paused original w =
      let told =
        if not was_paused
        then emit env normal "Paused" "Controller paused; weights frozen" w.journal
        else w.journal in
      let desired = with_generation (
        with_phase frozen (
          set_ready env true_status "Paused" "Controller is paused; weights are frozen"
            original)) in
      let j =
        record_phase desired.namespace desired.name frozen
          (record_freeze original.namespace original.name paused_cause told) in
      patch_and_return none desired original (record w { journal = j })

  -- The branch of a missing route.
  unfoldable pub route_missing :
      String → TrafficPolicy → TrafficPolicy → World W F → World W F × Outcome
  unfolding emit put_condition set_ready record_freeze record_phase patch_and_return
  route_missing message p original w =
      let told =
        if not (same_phase original.status.phase degraded)
        then emit env warning "RouteMissing" message w.journal
        else w.journal in
      let resolved = put_condition env "RouteResolved" false_status "RouteMissing" message p in
      let desired =
        with_generation
          (with_phase degraded (set_ready env false_status "RouteMissing" message resolved)) in
      let j =
        record_phase desired.namespace desired.name degraded
          (record_freeze p.namespace p.name route_cause told) in
      patch_and_return (wait_cooldown p) desired original (record w { journal = j })

  -- Any other error of `Apply`: the patch's own error is dropped.
  unfoldable pub route_write_failed :
      String → TrafficPolicy → TrafficPolicy → World W F → World W F × Outcome
  unfolding emit set_ready patch_status_if_changed
  route_write_failed message p original w =
      let told = emit env warning "RouteUpdateFailed" message w.journal in
      let desired = with_generation (set_ready env false_status "RouteUpdateFailed" message p) in
      let (cluster, _) = patch_status_if_changed env w.cluster desired original in
      (
        record w { cluster = cluster; journal = told },
        record { requeue_after = none; error = some message },
      )

  -- The end of a call whose weights were applied.
  unfoldable pub succeed :
      Readings → Phase → TrafficPolicy → TrafficPolicy → World W F → World W F × Outcome
  unfolding emit put_condition set_ready record_phase record_backend_weights record_weight_shift
      format_weights patch_status_if_changed
  succeed t phase p original w =
      let ns = p.namespace in
      let gauges = record_backend_weights ns p.name p.status.weights w.journal in
      let resolved =
        put_condition env "RouteResolved" true_status "WeightsApplied"
          "Weights applied to HTTPRoute" p in
      let ready =
        set_ready env true_status "Reconciled" "Weights are within declared bounds" resolved in
      let message =
        append ready.status.last_transition_reason
          (append " (new weights: " (append (format_weights ready.status.weights) ")")) in
      let shifted =
        if same_phase phase progressing
        then record_weight_shift ns p.name ready.status.weights
            (emit env normal "WeightsShifted" message gauges)
        else gauges in
      let j = record_phase ns p.name phase shifted in
      let desired = with_phase phase (with_generation (with_evaluation_time t.at_end ready)) in
      let (cluster, err) = patch_status_if_changed env w.cluster desired original in
      (
        record w { cluster = cluster; journal = j },
        elim err [
          | some e ↦ record { requeue_after = none; error = some e }
          | none ↦ record { requeue_after = wait_cooldown p; error = none }
        ],
      )

  abbrev pub in_cluster : W → World W F → World W F
  in_cluster cluster w = record w { cluster = cluster }

  -- What follows `r.Weighter.Apply`, given its result.
  unfoldable pub report :
      Readings → TrafficPolicy → Evaluated env → W × Option ApplyError → World W F × Outcome
  unfolding route_missing route_write_failed succeed
  report t original e (cluster, none) =
      succeed t e.phase e.policy original (in_cluster cluster e.world)
  report t original e (cluster, some (not_found ns name)) =
      route_missing (error_text (not_found ns name)) e.policy original (in_cluster cluster e.world)
  report t original e (cluster, some (client_error message)) =
      route_write_failed message e.policy original (in_cluster cluster e.world)
