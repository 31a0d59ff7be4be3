-- ===== src/Controller/Examples.antt =====
-- Runs of the reconciler on a policy of two backends. The world is what the route was last asked for.
use traficctl.Prelude.{ℕ, ◌≡◌, ◌≢◌, ◌≤◌, refl, List, [], ◌∷◌, none, some, true, false, arith, ◌↔◌}
use traficctl.Prelude.Int.{ℤ, pos, ◌+ℤ◌, ◌-ℤ◌, wrap32}
use traficctl.Prelude.Lists.{All₂}
use traficctl.Prelude.Sort.{stable_sort, sort_from, sink}
use traficctl.Prelude.Results.{ok}
use traficctl.Prelude.Whole.{whole, whole-TruncatesShares}
use traficctl.Api.Schema.{total_weight, Bounded}
use traficctl.Api.Types.{Backend, BackendWeight, TrafficPolicy, stable, frozen}
use traficctl.Controller.Env.{Env, World, Readings}
use traficctl.Controller.Initial.{
  initial_weights, used_from, total_head_from, distribute, whole_weight, whole_share, exact_share,
  assigned_from, shares_from, Share, hand_out,
}
use traficctl.Controller.Initial.Laws.{Fillable, initial_weights_lem}
use traficctl.Controller.Initial.Points.{occurs}
use traficctl.Controller.Journal.OneHot.{gauge, gauge-record_phase}
use traficctl.Controller.Journal.{record_phase}
use traficctl.Controller.Reconcile.{reconcile, start_policy, reconcile_policy}
use traficctl.Controller.Reconcile.Deleted.{reconcile-buffer}
use traficctl.Controller.Reconcile.Safety.{Safe, reconcile_policy-Safe}
use traficctl.Controller.Reconcile.Start.{start_policy-Governed}
use traficctl.Controller.Sampling.{smoothing_key, evaluate_metrics}
use traficctl.Controller.Sampling.Governed.{Governed}
use traficctl.Controller.Sampling.Laws.{Fate, evaluate_metrics-Fate}
use traficctl.Controller.Spec.{validate_spec, scan, empty_name}
use traficctl.Controller.Spec.Valid.{WellFormed, validate_spec_iff}
use traficctl.Controller.TestData.{backend, weight, policy, two_backends, two-Governed, two_valid}
use traficctl.Evaluator.{evaluate}
use traficctl.Router.{absent}
use traficctl.Smoother.{Smoother, buffer, new_smoother}

abbrev two_env : Env (List BackendWeight) ℤ
two_env = record {
  get_policy = λ w ns name. absent;
  patch_status = λ w desired original. (w, none);
  apply_weights = λ w ns route ws. (ws, none);
  metric_source = some λ w query names. ok (("a", pos 300) ∷ ("b", pos 50) ∷ []);
  evaluator = some evaluate;
  has_recorder = true;
  set_condition = λ cs c. c ∷ cs;
  find_condition = λ cs kind. none;
  same_status = λ a b. false;
}

abbrev clock : Readings
clock = record { at_check = 100; at_shift = 101; at_end = 102 }

abbrev world : World (List BackendWeight) ℤ
world = record { cluster = []; smoother = some (new_smoother (pos 0)); journal = [] }

nameless_invalid :
    validate_spec (policy (backend "" 0 9 ∷ backend "b" 0 9 ∷ []) false).spec ≡ some empty_name
unfolding validate_spec scan
nameless_invalid = refl

reconcile_policy-Safe_example :
    Safe two_env clock
      (policy two_backends false)
      (policy two_backends false)
      []
      (reconcile_policy two_env clock (policy two_backends false) world).0.cluster
reconcile_policy-Safe_example =
    reconcile_policy-Safe two_env clock (policy two_backends false) world refl (two-Governed false)

evaluate_metrics-Fate_example :
    Fate two_env clock
      (policy two_backends false)
      (evaluate_metrics two_env clock (policy two_backends false) world)
evaluate_metrics-Fate_example =
    evaluate_metrics-Fate two_env clock (policy two_backends false) world

abbrev nameless : TrafficPolicy
nameless = policy (backend "" 0 9 ∷ backend "b" 0 9 ∷ []) false

-- Two points are left for two backends.
abbrev shares : List (Share ℤ)
shares = record { idx = 0; frac = pos 0 } ∷ record { idx = 1; frac = pos 0 } ∷ []

shares-once : (i : ℕ) → occurs i shares ≤ 1
shares-once i = ground arith

abbrev given : List BackendWeight
given = hand_out shares two_backends (weight "a" 49 ∷ weight "b" 49 ∷ []) (pos 2)

abbrev four_backends : List Backend
four_backends = backend "a" 10 40 ∷ backend "b" 5 30 ∷ backend "c" 0 50 ∷ backend "d" 5 10 ∷ []

-- Whole numbers have no fractions, so the two points left over go to the first two backends.
initial_weights-four :
    initial_weights ℤ four_backends
    ≡ weight "a" 32 ∷ weight "b" 24 ∷ weight "c" 36 ∷ weight "d" 8 ∷ []
unfolding initial_weights used_from total_head_from distribute whole_weight whole_share exact_share
    assigned_from shares_from hand_out stable_sort sort_from sink wrap32 ◌+ℤ◌ ◌-ℤ◌
initial_weights-four = refl

four-Fillable : Fillable four_backends
four-Fillable = record {
  sane = (
    record { schema = omega arith; ordered = omega arith },
    (
      record { schema = omega arith; ordered = omega arith },
      (
        record { schema = omega arith; ordered = omega arith },
        (record { schema = omega arith; ordered = omega arith }, tt),
      ),
    ),
  );
  low_sum = omega arith;
  high_sum = omega arith;
  size = omega arith;
}

initial_weights_example :
    All₂ Bounded four_backends (initial_weights ℤ four_backends)
    × (total_weight (initial_weights ℤ four_backends) ≡ pos 100)
initial_weights_example = initial_weights_lem whole-TruncatesShares four_backends four-Fillable

validate_spec_iff_example :
    (validate_spec (policy two_backends true).spec ≡ none)
    ↔ WellFormed (policy two_backends true).spec
validate_spec_iff_example =
    validate_spec_iff (policy two_backends true).spec (omega arith) (omega arith) (omega arith)

abbrev fresh_policy : TrafficPolicy
fresh_policy =
    let p = policy two_backends true in record p { status = record (p.status) { weights = [] } }

start_policy-Governed_example :
    Governed (start_policy two_env fresh_policy)
    × (total_weight (start_policy two_env fresh_policy).status.weights ≡ pos 100)
start_policy-Governed_example =
    start_policy-Governed two_env whole-TruncatesShares fresh_policy
      (record {
        schema = omega arith;
        low_size = omega arith;
        high_size = omega arith;
        step = omega arith;
      })
      two_valid refl

reconcile-buffer_example :
    (s' : Smoother ℤ) × ((reconcile two_env clock "shop" "web" "shop/web" world).0.smoother
      ≡ some s')
    × (buffer s' (smoothing_key "shop" "web" "latency") "a"
        ≡ buffer (new_smoother (pos 0)) (smoothing_key "shop" "web" "latency") "a")
reconcile-buffer_example =
    reconcile-buffer two_env clock "shop" "web" "shop/web" world (new_smoother (pos 0)) "latency"
      "a" refl refl refl

gauge-record_phase_example :
    (stable ≡ frozen
      → gauge "shop" "web" stable
          (record_phase "shop" "web" frozen (record_phase "shop" "web" stable []))
        ≡ some (pos 1))
    × (stable ≢ frozen
        → gauge "shop" "web" stable
            (record_phase "shop" "web" frozen (record_phase "shop" "web" stable []))
          ≡ some (pos 0))
gauge-record_phase_example =
    gauge-record_phase "shop" "web" frozen stable (record_phase "shop" "web" stable []) λ e. cc
