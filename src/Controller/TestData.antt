-- ===== src/Controller/TestData.antt =====
-- A policy of two backends, for the tests.
use traficctl.Prelude.{ℕ, ◌≡◌, refl, List, [], ◌∷◌, none, some, Bool, true, arith, String}
use traficctl.Prelude.Int.{pos, ◌+ℤ◌, wrap32}
use traficctl.Prelude.Tests.{ne_of_test}
use traficctl.Api.Types.{Backend, BackendWeight, TrafficPolicy, stable}
use traficctl.Controller.Spec.{validate_spec, scan}
use traficctl.Controller.Sampling.Governed.{Governed}

abbrev pub backend : String → ℕ → ℕ → Backend
backend name min max = record { name = name; min_weight = pos min; max_weight = pos max }

abbrev pub weight : String → ℕ → BackendWeight
weight name w = record { name = name; weight = pos w }

abbrev pub policy : List Backend → Bool → TrafficPolicy
policy backends paused = record {
  namespace = "shop";
  name = "web";
  generation = pos 2;
  spec = record {
    route_name = "web";
    backends = backends;
    metrics = some (record {
      latency = some (record { query = "p99"; threshold_ms = pos 100 });
      error_rate = none;
    });
    strategy = record {
      cooldown_seconds = pos 30;
      max_step_percent = pos 10;
      moving_average_window = pos 1;
    };
    paused = paused;
  };
  status = record {
    phase = stable;
    weights = weight "a" 50 ∷ weight "b" 50 ∷ [];
    last_evaluation_time = none;
    last_weight_change_time = none;
    last_transition_reason = "";
    observed_generation = pos 1;
    conditions = [];
  };
}

abbrev pub two_backends : List Backend
two_backends = backend "a" 10 90 ∷ backend "b" 10 90 ∷ []

pub two-Governed : (paused : Bool) → Governed (policy two_backends paused)
two-Governed paused = record {
  schema = omega arith;
  distinct = ((ne_of_test "b" "a" refl, tt), (tt, tt));
  weights = (
    record { name = refl; above_min = omega arith; below_max = omega arith },
    (record { name = refl; above_min = omega arith; below_max = omega arith }, tt),
  );
  step = omega arith;
}

pub two_valid : validate_spec (policy two_backends true).spec ≡ none
unfolding validate_spec scan ◌+ℤ◌ wrap32
two_valid = refl
