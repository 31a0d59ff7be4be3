-- ===== src/Controller/Sampling.antt =====
-- internal/controller/trafficpolicy_controller.go: `evaluateMetrics` and `smooth`.
pub mod Laws
pub mod Governed
use Prim.Native.String.{◌++◌ as append}
use traficctl.Prelude.{ℕ, List, [], ◌∷◌, ◌++◌, Option, none, some, Bool, true, false, String}
use traficctl.Prelude.Tests.{if◌then◌else◌}
use traficctl.Prelude.Int.{ℤ}
use traficctl.Prelude.Dict.{Dict, insert}
use traficctl.Prelude.Results.{Result, ok, fails, Result-cases}
use traficctl.Prelude.Float.{Float}
use traficctl.Prelude.Quote.{quote}
use traficctl.Api.Types.{
  TrafficPolicy, TrafficPolicyStatus, Phase, stable, progressing, frozen, Condition,
  ConditionStatus, true_status, false_status, unknown_status,
}
use traficctl.Evaluator.{Decision}
use traficctl.Evaluator.State.{Input, Signal}
use traficctl.Smoother.{Smoother, observe}
use traficctl.Controller.Env.{Env, World, Readings, SampleCall, emit, put_condition}
use traficctl.Controller.Journal.{
  Journal, warning, metrics_cause, record_freeze, record_metric_source_error,
}
use traficctl.Controller.Strategy.{
  SignalSpec, signal_specs, backend_names, cooldown_elapsed, step_percent, smoothing_window,
}

-- "namespace/name#signal"
unfoldable pub smoothing_key : String → String → String → String
smoothing_key ns name signal = append ns (append "/" (append name (append "#" signal)))

-- `prev == nil || prev.Status != metav1.ConditionFalse`
abbrev pub not_false_yet : Option Condition → Bool
not_false_yet none = true
not_false_yet (some c) = elim c.status [
  | true_status ↦ true
  | false_status ↦ false
  | unknown_status ↦ true
]

abbrev pub with_reason : String → TrafficPolicy → TrafficPolicy
with_reason reason p = record p { status = record (p.status) { last_transition_reason = reason } }

module _ {F : Type 0} ⦃fl : Float F⦄ where
  -- The samples of one signal, each replaced by its moving average; Go's order of a map's keys is
  -- the order of the list.
  unfoldable pub smooth_samples : Smoother F → String → ℤ → Dict F → Dict F → Smoother F × Dict F
  smooth_samples s key window [] out = (s, out)
  smooth_samples s key window ((name, v) ∷ vs) out =
      let (s', mean) = observe s key name v window in
      smooth_samples s' key window vs (insert name mean out)

  unfoldable pub smooth : Smoother F → TrafficPolicy → String → Dict F → Smoother F × Dict F
  unfolding smooth_samples
  smooth s p signal vs =
      smooth_samples s (smoothing_key p.namespace p.name signal) (smoothing_window p.spec.strategy)
        vs []

  -- `if r.Smoother != nil`
  abbrev pub smooth_if :
      Option (Smoother F) → TrafficPolicy → String → Dict F → Option (Smoother F) × Dict F
  smooth_if none p signal vs = (none, vs)
  smooth_if (some s) p signal vs = let (s', out) = smooth s p signal vs in (some s', out)

module _ {W F : Type 0} ⦃fl : Float F⦄ (env : Env W F) where
  -- How the loop over the signals ends: early with an error, or with all signals.
  pub data Gathered : Type 0 where
    stopped : World W F → TrafficPolicy → Gathered
    gathered : World W F → List (Signal F) → Gathered

  -- The error path of one signal.
  unfoldable pub freeze_on_error : TrafficPolicy → String → String → World W F → Gathered
  unfolding emit put_condition record_freeze record_metric_source_error
  freeze_on_error p signal err w =
      let counted =
        record_freeze p.namespace p.name metrics_cause
          (record_metric_source_error p.namespace p.name signal w.journal) in
      let told =
        if not_false_yet (env.find_condition p.status.conditions "MetricsAvailable")
        then emit env warning "MetricsUnavailable"
            (append "signal " (append (quote signal) (append ": " err))) counted
        else counted in
      stopped (record w { journal = told })
        (put_condition env "MetricsAvailable" false_status "MetricsUnavailable"
          (append signal (append ": " err)) p)

  unfoldable pub gather :
      SampleCall W F → TrafficPolicy → List (SignalSpec F) → List (Signal F) → World W F → Gathered
  unfolding freeze_on_error
  gather sample p [] signals w = gathered w signals
  gather sample p (spec ∷ specs) signals w =
      elim (sample w.cluster spec.query (backend_names p.spec.backends)) [
        | fails err ↦ freeze_on_error p spec.name err w
        | ok vs ↦
            let (s, out) = smooth_if w.smoother p spec.name vs in
            let sig : Signal F = record {
              name = spec.name;
              samples = out;
              threshold = spec.threshold;
            } in
            gather sample p specs (signals ++ (sig ∷ [])) (record w { smoother = s })
      ]

  -- The policy and the phase after `evaluateMetrics`, which writes through two pointers.
  pub record Evaluated : Type 0 where
    pub world : World W F
    pub policy : TrafficPolicy
    pub phase : Phase

  abbrev pub settled : World W F → TrafficPolicy → Phase → Evaluated
  settled w p phase = record { world = w; policy = p; phase = phase }

  abbrev pub input_of : TrafficPolicy → List (Signal F) → Input F
  input_of p signals = record {
    backends = p.spec.backends;
    current = p.status.weights;
    signals = signals;
    max_step_percent = step_percent p.spec.strategy;
  }

  unfoldable pub take_decision : Readings → World W F → TrafficPolicy → Decision → Evaluated
  take_decision t w p d =
      if d.changed
      then settled w
          (record p {
            status = record (p.status) {
              last_transition_reason = d.reason;
              weights = d.weights;
              last_weight_change_time = some t.at_shift;
            };
          })
          progressing
      else settled w (with_reason d.reason p) stable

  -- What follows the loop over the signals.
  unfoldable pub decide_weights :
      (Input F → Decision) → Readings → TrafficPolicy → Gathered → Evaluated
  unfolding take_decision put_condition cooldown_elapsed
  decide_weights evaluate t p (stopped w p') = settled w p' frozen
  decide_weights evaluate t p (gathered w signals) =
      let available =
        put_condition env "MetricsAvailable" true_status "MetricsAvailable"
          "Metrics source returned samples" p in
      if cooldown_elapsed t.at_check p.status.last_weight_change_time p.spec.strategy
      then take_decision t w available (evaluate (input_of available signals))
      else settled w (with_reason "Within cooldown; holding weights" available) stable

  unfoldable pub evaluate_metrics : Readings → TrafficPolicy → World W F → Evaluated
  unfolding gather decide_weights signal_specs
  evaluate_metrics t p w = elim (signal_specs p.spec) [
    | [] ↦ settled w p stable
    | spec ∷ specs ↦ elim env.metric_source [
      | none ↦ settled w p stable
      | some sample ↦ elim env.evaluator [
        | none ↦ settled w p stable
        | some evaluate ↦ decide_weights evaluate t p (gather sample p (spec ∷ specs) [] w)
      ]
    ]
  ]
