-- ===== src/Evaluator/Examples.antt =====
-- Runs of `Evaluate` on a policy of three backends.
use traficctl.Prelude.{
  ℕ, ◌≡◌, refl, ◌⊎◌, inl, inr, List, [], ◌∷◌, none, true, false, arith, String, ◌↔◌, ap, ◌<◌, ◌≤◌,
}
use traficctl.Prelude.Tests.{ne_of_test}
use traficctl.Prelude.Int.{ℤ, pos, wrap32, ◌+ℤ◌, ◌-ℤ◌}
use traficctl.Prelude.Lists.{All₂}
use traficctl.Prelude.Dict.{lookup, insert}
use traficctl.Prelude.Sort.{stable_sort, sort_from, sink}
use traficctl.Prelude.Format.{join, decimal, digits}
use traficctl.Prelude.Whole.{whole}
use traficctl.Api.Types.{Backend, BackendWeight}
use traficctl.Api.Schema.{Bounded, total_weight}
use traficctl.Api.WeightMap.{weight_map}
use traficctl.Evaluator.{
  Decision, evaluate, decide, classify, classify_from, place, move, finish, build_reason,
  donor_texts, donor_text, names_of, weights_of, dedupe, dedupe_from, worse, better, through,
  hold_decision,
}
use traficctl.Evaluator.State.{
  Signal, Input, build_state, build_states, apply_signals, apply_signal, observe, initial_state,
}
use traficctl.Evaluator.Role.{role, unhealthy, healthy, missing}
use traficctl.Evaluator.Shift.{
  shift_loop, pick_donor, pick_recipient, pick, transfer, give, take, budget,
}
use traficctl.Evaluator.Shift.Rounds.{shift_loop_exits}
use traficctl.Evaluator.Numbers.{InputFits}
use traficctl.Evaluator.Allocation.{Steps}
use traficctl.Evaluator.Laws.{IsReady, evaluate-Steps, evaluate-Bounded, evaluate_total}
use traficctl.Evaluator.Contained.{Contained}
use traficctl.Evaluator.Account.{IsSmall}
use traficctl.Evaluator.Holds.{Settled, evaluate_holds_iff}
use traficctl.Evaluator.Points.{Report, evaluate-Report}
use traficctl.Evaluator.Settling.{at_risk, decisions, evaluate_settles}
use traficctl.Evaluator.Progress.{Done, Spent, Filled, evaluate_exhausts}
use traficctl.Evaluator.Readings.{Reports, Breached, Any}
use traficctl.Evaluator.Health.{build_state-role}

abbrev pub backend : String → ℕ → ℕ → Backend
backend name min max = record { name = name; min_weight = pos min; max_weight = pos max }

abbrev pub weight : String → ℕ → BackendWeight
weight name w = record { name = name; weight = pos w }

abbrev three_backends : List Backend
three_backends = backend "a" 10 80 ∷ backend "b" 10 60 ∷ backend "c" 10 60 ∷ []

abbrev three_weights : List BackendWeight
three_weights = weight "a" 60 ∷ weight "b" 20 ∷ weight "c" 20 ∷ []

-- "a" answers in three times the threshold.
abbrev latency : Signal ℤ
latency = record {
  name = "latency";
  samples = ("a", pos 300) ∷ ("b", pos 50) ∷ ("c", pos 60) ∷ [];
  threshold = pos 100;
}

abbrev three : Input ℤ
three = record {
  backends = three_backends;
  current = three_weights;
  signals = latency ∷ [];
  max_step_percent = pos 4;
}

-- Four points move, all of them to "b", the first recipient by name with room.
evaluate-three : evaluate three ≡ record {
  weights = weight "a" 56 ∷ weight "b" 24 ∷ weight "c" 20 ∷ [];
  reason = "Shifted 4 pp: a(latency) -> b,c";
  changed = true;
}
unfolding evaluate decide classify classify_from place move finish build_reason donor_texts
    donor_text names_of weights_of dedupe dedupe_from worse better through hold_decision
    build_states build_state apply_signals apply_signal observe initial_state weight_map shift_loop
    pick_donor pick_recipient pick transfer give take wrap32 ◌+ℤ◌ ◌-ℤ◌ lookup insert stable_sort
    sort_from sink join decimal digits
evaluate-three = refl

three-InputFits : InputFits three
three-InputFits = record { backends = omega arith; current = omega arith; step = omega arith }

three-IsReady : IsReady three
three-IsReady = record {
  fits = three-InputFits;
  aligned = record {
    names = (refl, (refl, (refl, tt)));
    distinct = (
      (ne_of_test "b" "a" refl, (ne_of_test "c" "a" refl, tt)),
      ((ne_of_test "c" "b" refl, tt), (tt, tt)),
    );
  };
  step = omega arith;
}

three-Bounded : All₂ Bounded three_backends three_weights
three-Bounded = (
  record { name = refl; above_min = omega arith; below_max = omega arith },
  (
    record { name = refl; above_min = omega arith; below_max = omega arith },
    (record { name = refl; above_min = omega arith; below_max = omega arith }, tt),
  ),
)

evaluate-Steps_example : Steps three three_backends three_weights (evaluate three).weights
evaluate-Steps_example = evaluate-Steps three three-IsReady

evaluate-Bounded_example : All₂ Bounded three_backends (evaluate three).weights
evaluate-Bounded_example = evaluate-Bounded three three-IsReady three-Bounded

evaluate_total_example : total_weight (evaluate three).weights ≡ total_weight three_weights
evaluate_total_example = evaluate_total three three-IsReady

evaluate_exhausts_example :
    Done Spent three (evaluate three).weights ⊎ Done Filled three (evaluate three).weights
evaluate_exhausts_example =
    evaluate_exhausts three three-IsReady (ap (λ (d : Decision). d.changed) evaluate-three)

build_state-role_example :
    ((role (build_state three (backend "a" 10 80)) ≡ unhealthy) ↔ Any (Breached "a") three.signals)
    × ((role (build_state three (backend "a" 10 80)) ≡ missing)
        ↔ (¬ Any (Reports "a") three.signals))
build_state-role_example = build_state-role three (backend "a" 10 80)

build_state-role_healthy :
    (b : Backend)
    → b ≡ backend "b" 10 60 ⊎ b ≡ backend "c" 10 60
    → role (build_state three b) ≡ healthy
unfolding build_state apply_signals apply_signal observe initial_state lookup ◌-ℤ◌
build_state-role_healthy b (inl e) = rw e refl
build_state-role_healthy b (inr e) = rw e refl

budget_three : budget (build_states three) < 13
unfolding build_states build_state apply_signals apply_signal observe initial_state lookup ◌-ℤ◌
budget_three = omega arith

shift_loop_exits_example :
    let out = (shift_loop (0 ∷ []) (1 ∷ 2 ∷ []) 13 (build_states three) (pos 0)).0 in
    (pick_donor out (0 ∷ []) ≡ none) ⊎ (pick_recipient out (1 ∷ 2 ∷ []) ≡ none)
shift_loop_exits_example =
    shift_loop_exits (0 ∷ []) (1 ∷ 2 ∷ []) 13 (build_states three) (pos 0) budget_three

three-Contained : Contained three
three-Contained = record {
  schema = (
    (omega arith, omega arith, omega arith, omega arith),
    (
      (omega arith, omega arith, omega arith, omega arith),
      ((omega arith, omega arith, omega arith, omega arith), tt),
    ),
  );
  distinct = (
    (ne_of_test "b" "a" refl, (ne_of_test "c" "a" refl, tt)),
    ((ne_of_test "c" "b" refl, tt), (tt, tt)),
  );
  weights = three-Bounded;
  step = omega arith;
  step_nonneg = omega arith;
}

three-IsSmall : IsSmall three
three-IsSmall = omega arith

at_risk-three : at_risk three ≤ 60
unfolding build_state apply_signals apply_signal observe initial_state lookup ◌-ℤ◌ ◌+ℤ◌
at_risk-three = omega arith

evaluate_holds_iff_example : ((evaluate three).changed ≡ false) ↔ Settled three
evaluate_holds_iff_example = evaluate_holds_iff three three-IsReady (omega arith) three-IsSmall

evaluate-Report_example : Report three
evaluate-Report_example =
    evaluate-Report three three-IsReady three-IsSmall
      (ap (λ (d : Decision). d.changed) evaluate-three)

evaluate_settles_example :
    ((evaluate (decisions 60 three)).changed ≡ false) × Settled (decisions 60 three)
evaluate_settles_example =
    evaluate_settles 60 three three-Contained (omega arith) three-IsSmall at_risk-three
