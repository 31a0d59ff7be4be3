-- ===== src/Api/DeepCopy/Examples.antt =====
-- Copies of a policy with metrics, weights and no conditions, and of a list that holds it.
use traficctl.Prelude.{◌≡◌, refl, [], ◌∷◌, none, some, false, arith, String}
use traficctl.Prelude.Int.{pos}
use traficctl.Api.Types.{stable}
use traficctl.Api.DeepCopy.{Machinery, Copies, copy_policy, copy_policy_object}
use traficctl.Api.DeepCopy.Cells.{
  Heap, PolicyRef, latency_cell, metrics_cell, backends_cell, weights_cell, time_cell, policy_cell,
  items_cell, list_cell,
}
use traficctl.Api.DeepCopy.Apart.{Apart, policy_pointer, copy_policy-Apart}

abbrev lib : Machinery String String String
lib = record {
  copy_meta = λ x. x;
  copy_list_meta = λ x. x;
  copy_time = λ x. x;
  copy_condition = λ x. x;
  no_type_meta = "";
  no_meta = "";
  no_list_meta = "";
}

lib-Copies : Copies lib
lib-Copies = record {
  meta = λ x. refl;
  list_meta = λ x. refl;
  time = λ x. refl;
  condition = λ x. refl;
}

abbrev web : PolicyRef String String
web = record {
  type_meta = "TrafficPolicy";
  meta = "shop/web";
  spec = record {
    route_name = "web";
    backends = some 0;
    metrics = some 2;
    strategy = record {
      cooldown_seconds = pos 30;
      max_step_percent = pos 20;
      moving_average_window = pos 3;
    };
    paused = false;
  };
  status = record {
    phase = stable;
    weights = some 3;
    last_evaluation_time = some 4;
    last_weight_change_time = none;
    last_transition_reason = "";
    observed_generation = pos 1;
    conditions = none;
  };
}

abbrev heap : Heap String String String
heap =
    backends_cell (
      record { name = "a"; min_weight = pos 0; max_weight = pos 100 }
      ∷ record { name = "b"; min_weight = pos 0; max_weight = pos 100 }
      ∷ [])
    ∷ latency_cell (record { query = "latency"; threshold_ms = pos 100 })
    ∷ metrics_cell (record { latency = some 1; error_rate = none })
    ∷ weights_cell
        (record { name = "a"; weight = pos 60 } ∷ record { name = "b"; weight = pos 40 } ∷ [])
    ∷ time_cell 100
    ∷ policy_cell web
    ∷ items_cell (web ∷ [])
    ∷ list_cell (record { type_meta = "TrafficPolicyList"; meta = ""; items = some 6 })
    ∷ []

copy_policy-Apart_example :
    Apart (policy_pointer lib) heap (some 5) (copy_policy lib (some 5) heap)
    × (copy_policy_object lib (some 5) heap ≡ copy_policy lib (some 5) heap)
copy_policy-Apart_example = copy_policy-Apart lib lib-Copies heap (some 5) (omega arith)
