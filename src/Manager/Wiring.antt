-- ===== src/Manager/Wiring.antt =====
-- cmd/main.go: the reconciler that `main` makes, over what the manager and its client give it.
use traficctl.Prelude.{Option, none, some, List, String, Bool}
use traficctl.Prelude.Int.{ℤ, pos}
use traficctl.Prelude.Float.{Float}
use traficctl.Api.Types.{TrafficPolicy, TrafficPolicyStatus, Condition}
use traficctl.Evaluator.{evaluate}
use traficctl.Smoother.{Smoother, new_smoother, default_max_window}
use traficctl.Router.{Fetched, RouteClient, apply}
use traficctl.Metrics.Prometheus.{PromSource, Net, sample_prom}
use traficctl.Controller.Env.{Env, SampleCall}
use traficctl.Controller.Recorder.{RuntimeRecorder, is_set, new_runtime_event_recorder}
use traficctl.Manager.{Flags, metric_source}

-- `mgr.GetClient()`, `mgr.GetEventRecorder`, the API machinery and the network.
pub record Kit (W F X H B : Type 0) : Type 0 where
  pub get_policy : W → String → String → Fetched TrafficPolicy
  pub patch_status : W → (desired original : TrafficPolicy) → W × Option String
  pub routes : RouteClient W X
  pub net : Net W F H B
  pub http_client : ℤ → H
  pub event_recorder : Option (RuntimeRecorder W)
  pub set_condition : List Condition → Condition → List Condition
  pub find_condition : List Condition → String → Option Condition
  pub same_status : TrafficPolicyStatus → TrafficPolicyStatus → Bool

module _ {W F X H B : Type 0} ⦃fl : Float F⦄ (kit : Kit W F X H B) where
  abbrev pub sample_of : Option (PromSource H) → Option (SampleCall W F)
  sample_of none = none
  sample_of (some source) = some (sample_prom kit.net source)

  abbrev pub reconciler : Flags → Env W F
  reconciler f = record {
    get_policy = kit.get_policy;
    patch_status = kit.patch_status;
    apply_weights = apply kit.routes;
    metric_source = sample_of (metric_source kit.http_client f);
    evaluator = some evaluate;
    has_recorder = is_set (new_runtime_event_recorder kit.event_recorder);
    set_condition = kit.set_condition;
    find_condition = kit.find_condition;
    same_status = kit.same_status;
  }

  -- `evaluator.NewSmoother(evaluator.DefaultMaxWindow)`
  abbrev pub first_smoother : Option (Smoother F)
  first_smoother = some (new_smoother (pos default_max_window))
