-- ===== src/Api/DeepCopy/Views.antt =====
-- What the structs of the API read as, through their pointers, and the cells that they reach.
use traficctl.Prelude.{ℕ, List, Option, Bool, String}
use traficctl.Prelude.Int.{ℤ}
use traficctl.Api.Types.{
  Backend, BackendWeight, LatencyMetric, ErrorRateMetric, MetricSpec, Strategy, Phase, Condition,
}
use traficctl.Api.DeepCopy.Cells.{
  MetricSpecRef, SpecRef, StatusRef, PolicyRef, ListRef, Cell, latency_at, error_rate_at,
  metrics_at, time_at, backends_at, weights_at, conditions_at, items_at,
}
use traficctl.Api.DeepCopy.Pairs.{Two}
use traficctl.Api.DeepCopy.Kinds.{Kind, plain_kind, pointer, both, struct, each}

-- A slice is `none` if it is nil.
pub record SpecValue : Type 0 where
  pub route_name : String
  pub backends : Option (List Backend)
  pub metrics : Option MetricSpec
  pub strategy : Strategy
  pub paused : Bool

pub record StatusValue : Type 0 where
  pub phase : Phase
  pub weights : Option (List BackendWeight)
  pub last_evaluation_time : Option ℕ
  pub last_weight_change_time : Option ℕ
  pub last_transition_reason : String
  pub observed_generation : ℤ
  pub conditions : Option (List Condition)

pub record PolicyValue (K M : Type 0) : Type 0 where
  pub type_meta : K
  pub meta : M
  pub spec : SpecValue
  pub status : StatusValue

pub record ListValue (K M L : Type 0) : Type 0 where
  pub type_meta : K
  pub meta : L
  pub items : Option (List (PolicyValue K M))

abbrev pub metrics_parts : MetricSpecRef → Two (Option ℕ) (Option ℕ)
metrics_parts m = record { first = m.latency; second = m.error_rate }

abbrev pub metrics_value :
    MetricSpecRef → Two (Option LatencyMetric) (Option ErrorRateMetric) → MetricSpec
metrics_value m v = record { latency = v.first; error_rate = v.second }

abbrev pub spec_parts : SpecRef → Two (Option ℕ) (Option ℕ)
spec_parts s = record { first = s.backends; second = s.metrics }

abbrev pub spec_value : SpecRef → Two (Option (List Backend)) (Option MetricSpec) → SpecValue
spec_value s v = record {
  route_name = s.route_name;
  backends = v.first;
  metrics = v.second;
  strategy = s.strategy;
  paused = s.paused;
}

abbrev pub status_parts : StatusRef → Two (Option ℕ) (Two (Option ℕ) (Two (Option ℕ) (Option ℕ)))
status_parts s = record {
  first = s.weights;
  second = record {
    first = s.last_evaluation_time;
    second = record { first = s.last_weight_change_time; second = s.conditions };
  };
}

abbrev pub status_value :
    StatusRef
    → Two (Option (List BackendWeight)) (Two (Option ℕ) (Two (Option ℕ) (Option (List Condition))))
    → StatusValue
status_value s v = record {
  phase = s.phase;
  weights = v.first;
  last_evaluation_time = v.second.first;
  last_weight_change_time = v.second.second.first;
  last_transition_reason = s.last_transition_reason;
  observed_generation = s.observed_generation;
  conditions = v.second.second.second;
}

abbrev pub policy_parts : {K M : Type 0} → PolicyRef K M → Two SpecRef StatusRef
policy_parts p = record { first = p.spec; second = p.status }

abbrev pub policy_value :
    {K M : Type 0} → PolicyRef K M → Two SpecValue StatusValue → PolicyValue K M
policy_value p v = record {
  type_meta = p.type_meta;
  meta = p.meta;
  spec = v.first;
  status = v.second;
}

abbrev pub list_value :
    {K M L : Type 0} → ListRef K L → Option (List (PolicyValue K M)) → ListValue K M L
list_value l v = record { type_meta = l.type_meta; meta = l.meta; items = v }

module _ {K M L : Type 0} where
  -- A pointer or a slice that leads to what holds no pointers.
  abbrev pub leaf : {A : Type 0} → (Option (Cell K M L) → A) → Kind K M L (Option ℕ) (Option A)
  leaf contents = pointer contents plain_kind

  abbrev pub metrics_pointers :
      Kind K M L (Two (Option ℕ) (Option ℕ)) (Two (Option LatencyMetric) (Option ErrorRateMetric))
  metrics_pointers = both (leaf latency_at) (leaf error_rate_at)

  abbrev pub metrics_kind : Kind K M L MetricSpecRef MetricSpec
  metrics_kind = struct metrics_parts metrics_value metrics_pointers

  abbrev pub spec_pointers :
      Kind K M L (Two (Option ℕ) (Option ℕ)) (Two (Option (List Backend)) (Option MetricSpec))
  spec_pointers = both (leaf backends_at) (pointer metrics_at metrics_kind)

  abbrev pub spec_kind : Kind K M L SpecRef SpecValue
  spec_kind = struct spec_parts spec_value spec_pointers

  abbrev pub last_pointers :
      Kind K M L (Two (Option ℕ) (Option ℕ)) (Two (Option ℕ) (Option (List Condition)))
  last_pointers = both (leaf time_at) (leaf conditions_at)

  abbrev pub later_pointers :
      Kind K M L
        (Two (Option ℕ) (Two (Option ℕ) (Option ℕ)))
        (Two (Option ℕ) (Two (Option ℕ) (Option (List Condition))))
  later_pointers = both (leaf time_at) last_pointers

  abbrev pub status_kind : Kind K M L StatusRef StatusValue
  status_kind = struct status_parts status_value (both (leaf weights_at) later_pointers)

  abbrev pub policy_kind : Kind K M L (PolicyRef K M) (PolicyValue K M)
  policy_kind = struct policy_parts policy_value (both spec_kind status_kind)

  abbrev pub list_kind : Kind K M L (ListRef K L) (ListValue K M L)
  list_kind = struct (λ l. l.items) list_value (pointer items_at (each policy_kind))
