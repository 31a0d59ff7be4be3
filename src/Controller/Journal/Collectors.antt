-- ===== src/Controller/Journal/Collectors.antt =====
-- internal/controller/observability.go: the collectors, and which of them an entry of the journal calls, with
-- which labels. The client library panics where the number of label values is not that of the labels, and
-- where two collectors of one name are registered.
use traficctl.Prelude.{List, [], ◌∷◌, Option, none, some, String}
use traficctl.Api.Types.{phase_text}
use traficctl.Controller.Journal.{
  Effect, FreezeCause, paused_cause, metrics_cause, route_cause, invalid_cause, event,
  inc_weight_shifts, inc_freezes, inc_metric_source_errors, set_backend_weight, set_policy_phase,
  delete_backend_weights, delete_policy_phases,
}

pub data CollectorKind : Type 0 where
  counter gauge : CollectorKind

pub record Collector : Type 0 where
  pub kind : CollectorKind
  pub name : String
  pub help : String
  pub labels : List String

abbrev pub weight_shifts_total : Collector
weight_shifts_total = record {
  kind = counter;
  name = "trafficctl_weight_shifts_total";
  help = "Total number of weight changes applied per TrafficPolicy.";
  labels = "namespace" ∷ "name" ∷ [];
}

abbrev pub freezes_total : Collector
freezes_total = record {
  kind = counter;
  name = "trafficctl_freezes_total";
  help = "Total number of reconciles that held weights, by cause.";
  labels = "namespace" ∷ "name" ∷ "cause" ∷ [];
}

abbrev pub metric_source_errors_total : Collector
metric_source_errors_total = record {
  kind = counter;
  name = "trafficctl_metric_source_errors_total";
  help = "Total per-signal failures from the configured metrics source.";
  labels = "namespace" ∷ "name" ∷ "signal" ∷ [];
}

abbrev pub backend_weight : Collector
backend_weight = record {
  kind = gauge;
  name = "trafficctl_backend_weight";
  help = "Current applied weight (0-100) per backend.";
  labels = "namespace" ∷ "name" ∷ "backend" ∷ [];
}

abbrev pub policy_phase : Collector
policy_phase = record {
  kind = gauge;
  name = "trafficctl_policy_phase";
  help = "Policy phase as a one-hot gauge: 1 for the current phase, 0 otherwise.";
  labels = "namespace" ∷ "name" ∷ "phase" ∷ [];
}

-- `init`
unfoldable pub registered : List Collector
registered =
    weight_shifts_total ∷ freezes_total ∷ metric_source_errors_total ∷ backend_weight ∷ policy_phase
    ∷ []

abbrev cause_text : FreezeCause → String
cause_text paused_cause = "paused"
cause_text metrics_cause = "metrics_unavailable"
cause_text route_cause = "route_missing"
cause_text invalid_cause = "invalid_spec"

-- A call on a collector: `Inc` and `Set` go through `WithLabelValues`, with a value for each label, and
-- `DeletePartialMatch` has pairs of a label and a value.
pub data Call : Type 0 where
  inc : Collector → List String → Call
  set : Collector → List String → Call
  delete_partial_match : Collector → List (String × String) → Call

abbrev of_policy : String → String → List (String × String)
of_policy ns name = ("namespace", ns) ∷ ("name", name) ∷ []

module _ {F : Type 0} where
  unfoldable pub call_of : Effect F → Option Call
  call_of (event kind reason message) = none
  call_of (inc_weight_shifts ns name) = some (inc weight_shifts_total (ns ∷ name ∷ []))
  call_of (inc_freezes ns name cause) = some (inc freezes_total (ns ∷ name ∷ cause_text cause ∷ []))
  call_of (inc_metric_source_errors ns name signal) =
      some (inc metric_source_errors_total (ns ∷ name ∷ signal ∷ []))
  call_of (set_backend_weight ns name backend v) =
      some (set backend_weight (ns ∷ name ∷ backend ∷ []))
  call_of (set_policy_phase ns name phase v) =
      some (set policy_phase (ns ∷ name ∷ phase_text phase ∷ []))
  call_of (delete_backend_weights ns name) =
      some (delete_partial_match backend_weight (of_policy ns name))
  call_of (delete_policy_phases ns name) =
      some (delete_partial_match policy_phase (of_policy ns name))
