-- ===== src/Api/DeepCopy/Cells.antt =====
-- api/v1alpha1/trafficpolicy_types.go: the Go types as they lie in memory. A pointer or a slice is the place
-- of a cell, and `none` if it is nil; a struct that holds pointers is a record with `Ref` in its name. A
-- cell of another type than the pointer's, which Go's types rule out, reads as a zero value.
use traficctl.Prelude.{ℕ, List, [], Option, none, some, Bool, false, String}
use traficctl.Prelude.Int.{ℤ, pos}
use traficctl.Api.Types.{
  Backend, BackendWeight, LatencyMetric, ErrorRateMetric, Strategy, Phase, unset, Condition,
}

pub record MetricSpecRef : Type 0 where
  pub latency : Option ℕ
  pub error_rate : Option ℕ

pub record SpecRef : Type 0 where
  pub route_name : String
  pub backends : Option ℕ
  pub metrics : Option ℕ
  pub strategy : Strategy
  pub paused : Bool

pub record StatusRef : Type 0 where
  pub phase : Phase
  pub weights : Option ℕ
  pub last_evaluation_time : Option ℕ
  pub last_weight_change_time : Option ℕ
  pub last_transition_reason : String
  pub observed_generation : ℤ
  pub conditions : Option ℕ

-- `K`, `M` and `L` are `metav1.TypeMeta`, `ObjectMeta` and `ListMeta`.
pub record PolicyRef (K M : Type 0) : Type 0 where
  pub type_meta : K
  pub meta : M
  pub spec : SpecRef
  pub status : StatusRef

pub record ListRef (K L : Type 0) : Type 0 where
  pub type_meta : K
  pub meta : L
  pub items : Option ℕ

pub data Cell (K M L : Type 0) : Type 0 where
  backend_cell : Backend → Cell K M L
  weight_cell : BackendWeight → Cell K M L
  latency_cell : LatencyMetric → Cell K M L
  error_rate_cell : ErrorRateMetric → Cell K M L
  metrics_cell : MetricSpecRef → Cell K M L
  strategy_cell : Strategy → Cell K M L
  spec_cell : SpecRef → Cell K M L
  status_cell : StatusRef → Cell K M L
  policy_cell : PolicyRef K M → Cell K M L
  list_cell : ListRef K L → Cell K M L
  time_cell : ℕ → Cell K M L
  -- The arrays that slices lead to.
  backends_cell : List Backend → Cell K M L
  weights_cell : List BackendWeight → Cell K M L
  conditions_cell : List Condition → Cell K M L
  items_cell : List (PolicyRef K M) → Cell K M L

abbrev pub Heap : Type 0 → Type 0 → Type 0 → Type 0
Heap K M L = List (Cell K M L)

-- Zero values.
abbrev pub no_strategy : Strategy
no_strategy = record {
  cooldown_seconds = pos 0;
  max_step_percent = pos 0;
  moving_average_window = pos 0;
}

abbrev pub no_spec : SpecRef
no_spec = record {
  route_name = "";
  backends = none;
  metrics = none;
  strategy = no_strategy;
  paused = false;
}

abbrev pub no_status : StatusRef
no_status = record {
  phase = unset;
  weights = none;
  last_evaluation_time = none;
  last_weight_change_time = none;
  last_transition_reason = "";
  observed_generation = pos 0;
  conditions = none;
}

module _ {K M L : Type 0} where
  abbrev pub backend_at : Option (Cell K M L) → Backend
  backend_at (some (backend_cell x)) = x
  backend_at _ = record { name = ""; min_weight = pos 0; max_weight = pos 0 }

  abbrev pub weight_at : Option (Cell K M L) → BackendWeight
  weight_at (some (weight_cell x)) = x
  weight_at _ = record { name = ""; weight = pos 0 }

  abbrev pub latency_at : Option (Cell K M L) → LatencyMetric
  latency_at (some (latency_cell x)) = x
  latency_at _ = record { query = ""; threshold_ms = pos 0 }

  abbrev pub error_rate_at : Option (Cell K M L) → ErrorRateMetric
  error_rate_at (some (error_rate_cell x)) = x
  error_rate_at _ = record { query = ""; threshold_percent = pos 0 }

  abbrev pub metrics_at : Option (Cell K M L) → MetricSpecRef
  metrics_at (some (metrics_cell x)) = x
  metrics_at _ = record { latency = none; error_rate = none }

  abbrev pub strategy_at : Option (Cell K M L) → Strategy
  strategy_at (some (strategy_cell x)) = x
  strategy_at _ = no_strategy

  abbrev pub spec_at : Option (Cell K M L) → SpecRef
  spec_at (some (spec_cell x)) = x
  spec_at _ = no_spec

  abbrev pub status_at : Option (Cell K M L) → StatusRef
  status_at (some (status_cell x)) = x
  status_at _ = no_status

  abbrev pub time_at : Option (Cell K M L) → ℕ
  time_at (some (time_cell x)) = x
  time_at _ = 0

  abbrev pub backends_at : Option (Cell K M L) → List Backend
  backends_at (some (backends_cell x)) = x
  backends_at _ = []

  abbrev pub weights_at : Option (Cell K M L) → List BackendWeight
  weights_at (some (weights_cell x)) = x
  weights_at _ = []

  abbrev pub conditions_at : Option (Cell K M L) → List Condition
  conditions_at (some (conditions_cell x)) = x
  conditions_at _ = []

  abbrev pub items_at : Option (Cell K M L) → List (PolicyRef K M)
  items_at (some (items_cell x)) = x
  items_at _ = []
