-- ===== src/Evaluator/Priority/Examples.antt =====
-- A run of `Evaluate` on two unhealthy backends and one that can take four points.
use traficctl.Prelude.{◌≡◌, refl, [], ◌∷◌, true, arith}
use traficctl.Prelude.Tests.{ne_of_test}
use traficctl.Prelude.Int.{ℤ, pos, ◌-ℤ◌, ◌+ℤ◌}
use traficctl.Prelude.Dict.{lookup}
use traficctl.Prelude.Whole.{whole}
use traficctl.Evaluator.{evaluate, worse}
use traficctl.Evaluator.State.{
  Signal, Input, build_state, apply_signals, apply_signal, observe, initial_state,
}
use traficctl.Evaluator.Examples.{backend, weight}
use traficctl.Evaluator.Role.{role, unhealthy}
use traficctl.Evaluator.Laws.{IsReady}
use traficctl.Evaluator.Priority.{Donor, WorstFirst, evaluate-WorstFirst}
use traficctl.Evaluator.Worse.{OrdersNumbers}

abbrev slow : Signal ℤ
slow = record {
  name = "latency";
  samples = ("a", pos 200) ∷ ("b", pos 300) ∷ ("c", pos 50) ∷ [];
  threshold = pos 100;
}

abbrev two_slow : Input ℤ
two_slow = record {
  backends = backend "a" 10 80 ∷ backend "b" 10 60 ∷ backend "c" 10 60 ∷ [];
  current = weight "a" 60 ∷ weight "b" 20 ∷ weight "c" 20 ∷ [];
  signals = slow ∷ [];
  max_step_percent = pos 4;
}

two_slow-IsReady : IsReady two_slow
two_slow-IsReady = record {
  fits = record { backends = omega arith; current = omega arith; step = omega arith };
  aligned = record {
    names = (refl, (refl, (refl, tt)));
    distinct = (
      (ne_of_test "b" "a" refl, (ne_of_test "c" "a" refl, tt)),
      ((ne_of_test "c" "b" refl, tt), (tt, tt)),
    );
  };
  step = omega arith;
}

abbrev AnyScore : ℤ → Type 0
AnyScore n = Unit

whole-OrdersNumbers : OrdersNumbers AnyScore
whole-OrdersNumbers = record {
  lt_asymmetric = λ x y _ _ h. ground (arith, h);
  lt_chain = λ x y z _ _ _ h k. ground (arith, h, k);
  eq_iff = λ x y _ _. (λ h. (ground (arith, h), ground (arith, h)), λ (h, k). ground (arith, h, k));
}

b_unhealthy : role (build_state two_slow (backend "b" 10 60)) ≡ unhealthy
unfolding build_state apply_signals apply_signal observe initial_state lookup ◌-ℤ◌
b_unhealthy = refl

a_unhealthy : role (build_state two_slow (backend "a" 10 80)) ≡ unhealthy
unfolding build_state apply_signals apply_signal observe initial_state lookup ◌-ℤ◌
a_unhealthy = refl

abbrev worst : Donor two_slow 1
worst = record {
  backend = backend "b" 10 60;
  weight = weight "b" 20;
  declared = refl;
  held = refl;
  unhealthy_now = b_unhealthy;
}

abbrev other : Donor two_slow 0
other = record {
  backend = backend "a" 10 80;
  weight = weight "a" 60;
  declared = refl;
  held = refl;
  unhealthy_now = a_unhealthy;
}

worst_before :
    worse (build_state two_slow (backend "b" 10 60)) (build_state two_slow (backend "a" 10 80))
    ≡ true
unfolding worse build_state apply_signals apply_signal observe initial_state lookup ◌-ℤ◌ ◌+ℤ◌
worst_before = refl

evaluate-WorstFirst_example : WorstFirst two_slow worst other (evaluate two_slow)
evaluate-WorstFirst_example =
    evaluate-WorstFirst two_slow two_slow-IsReady AnyScore whole-OrdersNumbers (λ k s there. tt) 1 0
      worst other worst_before
