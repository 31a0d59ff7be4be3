-- ===== src/Evaluator/Outcome.antt =====
-- The two ways in which `Evaluate` ends: it holds the weights, or the loop has moved some.
use traficctl.Prelude.{ℕ, suc, ◌≡◌, ◌≢◌, refl, ◌⊎◌, inl, inr, List, some, true, false, arith, Bool}
use traficctl.Prelude.Tests.{Bool-cases}
use traficctl.Prelude.Int.{pos, eq_int}
use traficctl.Prelude.Lists.{get_elem?, All, All₂, All₂-diag}
use traficctl.Prelude.Float.{Float}
use traficctl.Prelude.Sort.{stable_sort, All-stable_sort}
use traficctl.Evaluator.{
  Decision, classify, worse, better, through, finish, evaluate, weights_of, hold_decision,
}
use traficctl.Evaluator.Branches.{donors, recipients, run, evaluate_cases}
use traficctl.Evaluator.Classify.{members, classify-All}
use traficctl.Evaluator.State.{BackendState, Input, build_states}
use traficctl.Evaluator.Role.{Role, role, missing, unhealthy, healthy}
use traficctl.Evaluator.Shift.{can_give, can_take, pick_donor, pick_recipient, budget}
use traficctl.Evaluator.Shift.Rounds.{shift_loop_exits, pick-none}
use traficctl.Evaluator.Shift.Relation.{IsWide, Shifted, Shifted-refl}
use traficctl.Evaluator.Shift.Total.{PointsTo, total_current, shift_loop-Shifted}
use traficctl.Evaluator.Numbers.{InputFits, build_states-IsWide}

module _ {F : Type 0} ⦃fl : Float F⦄ where
  -- No state of `role₀` passes `test` any more.
  abbrev pub Exhausted :
      Role → (BackendState F → Bool) → (states out : List (BackendState F)) → Type 0
  Exhausted role₀ test states out =
      (k : ℕ) (s s' : BackendState F)
      → get_elem? states k ≡ some s
      → role s ≡ role₀
      → get_elem? out k ≡ some s'
      → test s' ≡ false

  -- The loop ran, on the states that `buildStates` made, until one side had nothing left.
  pub record Moved (inp : Input F) (d : Decision) : Type 0 where
    pub out : List (BackendState F)
    pub weights : d.weights ≡ weights_of out
    pub changed : d.changed ≡ true
    pub shifted : All₂ Shifted (build_states inp) out
    pub total : total_current out ≡ total_current (build_states inp)
    pub exhausted :
        Exhausted unhealthy can_give (build_states inp) out
        ⊎ Exhausted healthy can_take (build_states inp) out

  pub record Held (inp : Input F) (d : Decision) : Type 0 where
    pub weights : d.weights ≡ inp.current
    pub unchanged : d.changed ≡ false

  abbrev pub Outcome : Input F → Decision → Type 0
  Outcome inp d = Held inp d ⊎ Moved inp d

  pub classify-PointsTo :
      (r : Role) (less : ℕ → ℕ → Bool) (states : List (BackendState F))
      → r ≢ missing
      → PointsTo r states (stable_sort less (members r (classify states)))
  classify-PointsTo r less states solid =
      (All-stable_sort less _ _).1 ((classify-All _ r solid states).1 λ k s there e. (s, there, e))

  -- A pick that fails over the sorted slice leaves no state of the role that passes.
  picked_none :
      (r : Role) (less : ℕ → ℕ → Bool) (test : BackendState F → Bool)
      (states out : List (BackendState F))
      → r ≢ missing
      → All
          (λ p. (s : BackendState F) → get_elem? out p ≡ some s → test s ≡ false)
          (stable_sort less (members r (classify states)))
      → Exhausted r test states out
  picked_none r less test states out solid all k s s' there e there' =
      (classify-All _ r solid states).0 ((All-stable_sort less _ _).0 all) k s there e s' there'

  pub run-Exhausted :
      (inp : Input F)
      → Exhausted unhealthy can_give (build_states inp) (run inp).0
        ⊎ Exhausted healthy can_take (build_states inp) (run inp).0
  unfolding pick_donor pick_recipient
  run-Exhausted inp =
      let states = build_states inp in
      let end =
        shift_loop_exits (donors inp) (recipients inp) (suc (budget states)) states (pos 0)
          (omega arith) in
      elim end [
        | inl e ↦ inl (
            picked_none unhealthy (through worse states) can_give states (run inp).0 (λ h. cc)
              (pick-none can_give (run inp).0 (donors inp) e))
        | inr e ↦ inr (
            picked_none healthy (through better states) can_take states (run inp).0 (λ h. cc)
              (pick-none can_take (run inp).0 (recipients inp) e))
      ]

  run-Outcome :
      (inp : Input F)
      → All IsWide (build_states inp)
      → Outcome inp (finish inp (donors inp) (recipients inp) (run inp))
  unfolding finish
  run-Outcome inp wide =
      let states = build_states inp in
      let loop =
        shift_loop-Shifted states (donors inp) (recipients inp)
          (classify-PointsTo unhealthy (through worse states) states λ h. cc)
          (classify-PointsTo healthy (through better states) states λ h. cc) (suc (budget states))
          (pos 0) (All₂-diag IsWide Shifted Shifted-refl states wide) in
      elim (Bool-cases (eq_int (run inp).1 (pos 0))) [
        | inl e ↦ rw e (inl (record { weights = refl; unchanged = refl }))
        | inr e ↦ rw e (
            inr (record {
              out = (run inp).0;
              weights = refl;
              changed = refl;
              shifted = loop.0;
              total = loop.1;
              exhausted = run-Exhausted inp;
            }))
      ]

  -- Every call of `Evaluate` ends in one of the two ways.
  pub evaluate-Outcome : (inp : Input F) → InputFits inp → Outcome inp (evaluate inp)
  unfolding hold_decision
  evaluate-Outcome inp fits =
      evaluate_cases inp (Outcome inp)
        (λ _ reason. inl (record { weights = refl; unchanged = refl }))
        (λ step. run-Outcome inp (build_states-IsWide inp fits (omega (arith, step))))
