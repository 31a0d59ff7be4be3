-- ===== src/Api/Types.antt =====
-- api/v1alpha1/trafficpolicy_types.go: the Go types. An `int32` is an integer in the signed 32-bit
-- range, a pointer is an `Option`, a time is a count of nanoseconds.
use traficctl.Prelude.{ℕ, Option, List, String, Bool}
use traficctl.Prelude.Int.{ℤ}

pub record Backend : Type 0 where
  pub name : String
  pub min_weight : ℤ
  pub max_weight : ℤ

pub record LatencyMetric : Type 0 where
  pub query : String
  pub threshold_ms : ℤ

pub record ErrorRateMetric : Type 0 where
  pub query : String
  pub threshold_percent : ℤ

pub record MetricSpec : Type 0 where
  pub latency : Option LatencyMetric
  pub error_rate : Option ErrorRateMetric

pub record Strategy : Type 0 where
  pub cooldown_seconds : ℤ
  pub max_step_percent : ℤ
  pub moving_average_window : ℤ

pub record TrafficPolicySpec : Type 0 where
  pub route_name : String
  pub backends : List Backend
  pub metrics : Option MetricSpec
  pub strategy : Strategy
  pub paused : Bool

-- `unset` is the empty string of a resource that no controller has seen.
pub data Phase : Type 0 where
  unset pending stable progressing frozen degraded : Phase

pub Phase-discrete : Discrete Phase
Phase-discrete = hlevel

-- The text of a phase.
abbrev pub phase_text : Phase → String
phase_text unset = ""
phase_text pending = "Pending"
phase_text stable = "Stable"
phase_text progressing = "Progressing"
phase_text frozen = "Frozen"
phase_text degraded = "Degraded"

pub record BackendWeight : Type 0 where
  pub name : String
  pub weight : ℤ

-- A `metav1.Condition`; the transition time is the API machinery's.
pub data ConditionStatus : Type 0 where
  true_status false_status unknown_status : ConditionStatus

pub record Condition : Type 0 where
  pub kind : String
  pub status : ConditionStatus
  pub reason : String
  pub message : String
  pub observed_generation : ℤ

pub record TrafficPolicyStatus : Type 0 where
  pub phase : Phase
  pub weights : List BackendWeight
  pub last_evaluation_time : Option ℕ
  pub last_weight_change_time : Option ℕ
  pub last_transition_reason : String
  pub observed_generation : ℤ
  pub conditions : List Condition

pub record TrafficPolicy : Type 0 where
  pub namespace : String
  pub name : String
  pub generation : ℤ
  pub spec : TrafficPolicySpec
  pub status : TrafficPolicyStatus
