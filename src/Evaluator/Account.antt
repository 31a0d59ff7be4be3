-- ===== src/Evaluator/Account.antt =====
-- What a decision of `Evaluate` moves: how many points leave the unhealthy backends and reach the
-- healthy ones, and what its reason says of it.
use mathlib.Core.Path.{subst}
use traficctl.Prelude.{
  ℕ, suc, ◌*◌, ◌^◌, ◌<◌, ◌≡◌, refl, ◌⊎◌, inl, inr, List, [], ◌∷◌, map, true, false, arith, ap, ap₂,
}
use traficctl.Prelude.Tests.{Bool-cases}
use traficctl.Prelude.Int.{pos, pos_part, eq_int, ◌≤ℤ◌}
use traficctl.Prelude.Lists.{length, get_elem?-All₂, All₂, All₂-diag}
use traficctl.Prelude.Float.{Float}
use traficctl.Api.Types.{Backend}
use traficctl.Evaluator.{
  Decision, worse, better, through, finish, evaluate, weights_of, hold_decision, build_reason,
  names_of, donor_texts, donor_text,
}
use traficctl.Evaluator.State.{BackendState, Input, build_state, build_states}
use traficctl.Evaluator.Role.{unhealthy, healthy}
use traficctl.Evaluator.Shift.{can_give, can_take, budget}
use traficctl.Evaluator.Shift.Relation.{IsWide, Shifted, Shifted-refl}
use traficctl.Evaluator.Shift.Shares.{Moves, shift_loop-Moves}
use traficctl.Evaluator.Numbers.{build_state-Numbers, build_states-IsWide}
use traficctl.Evaluator.Branches.{donors, recipients, run, Idle, evaluate_cases}
use traficctl.Evaluator.Outcome.{Exhausted, classify-PointsTo, run-Exhausted}
use traficctl.Evaluator.Laws.{IsReady}

module _ {F : Type 0} where
  same_donor : (s t : BackendState F) → Shifted s t → donor_text t ≡ donor_text s
  unfolding donor_text
  same_donor s t sh = rw (sh.fixed.name, sh.fixed.breaches) refl

  -- The loop leaves alone what the reason names.
  same_names :
      (ss ts : List (BackendState F)) (is : List ℕ)
      → All₂ Shifted ss ts
      → (names_of ts is ≡ names_of ss is) × (donor_texts ts is ≡ donor_texts ss is)
  unfolding names_of donor_texts
  same_names ss ts [] all = (refl, refl)
  same_names ss ts (i ∷ is) all =
      let (names, texts) = same_names ss ts is all in
      elim (get_elem?-All₂ Shifted ss ts i all) [
        | inl (e, e') ↦ rw (e, e', names_of, donor_texts) (names, texts)
        | inr (s, t, e, e', sh) ↦
            rw (e, e', names_of, donor_texts)
              (ap₂ ◌∷◌ sh.fixed.name names, ap₂ ◌∷◌ (same_donor s t sh) texts)
      ]

-- The rounds' budgets fit into the counter, an `int32`.
abbrev pub IsSmall : {F : Type 0} → Input F → Type 0
IsSmall inp = length inp.backends * pos_part inp.max_step_percent < 2 ^ 31

module _ {F : Type 0} ⦃fl : Float F⦄ where
  map-budget :
      (inp : Input F) (bs : List Backend)
      → budget (map (build_state inp) bs) ≡ length bs * pos_part inp.max_step_percent
  map-budget inp [] = omega arith
  map-budget inp (b ∷ bs) =
      let n = build_state-Numbers inp b in
      omega (arith, map-budget inp bs, ap pos_part n.step_budget)

  -- The decision moves points: at least one, and as many as its reason says.
  pub record Went (inp : Input F) (d : Decision) : Type 0 where
    pub out : List (BackendState F)
    pub points : ℕ
    pub positive : 0 < points
    pub weights : d.weights ≡ weights_of out
    pub changed : d.changed ≡ true
    pub reason :
        d.reason ≡ build_reason (pos points) (build_states inp) (donors inp) (recipients inp)
    pub moves : Moves (build_states inp) points out

  -- It holds: it lacks a step, or no donor can give, or no recipient can take.
  pub record Still (inp : Input F) (d : Decision) : Type 0 where
    pub weights : d.weights ≡ inp.current
    pub changed : d.changed ≡ false
    pub why :
        (inp.max_step_percent ≤ℤ pos 0)
        ⊎ Exhausted unhealthy can_give (build_states inp) (build_states inp)
        ⊎ Exhausted healthy can_take (build_states inp) (build_states inp)

  run-Verdict :
      (inp : Input F)
      → IsReady inp
      → IsSmall inp
      → let d = finish inp (donors inp) (recipients inp) (run inp) in Still inp d ⊎ Went inp d
  unfolding finish build_states
  run-Verdict inp r small =
      let states = build_states inp in
      let loop =
        shift_loop-Moves states (donors inp) (recipients inp)
          (classify-PointsTo unhealthy (through worse states) states λ h. cc)
          (classify-PointsTo healthy (through better states) states λ h. cc) (suc (budget states))
          (omega (arith, small, map-budget inp inp.backends))
          (All₂-diag IsWide Shifted Shifted-refl states (build_states-IsWide inp r.fits r.step)) in
      elim (Bool-cases (eq_int (run inp).1 (pos 0))) [
        | inl e ↦
            let zero_rounds : loop.rounds ≡ 0 = ground (arith, rw loop.counter at e) in
            let same = loop.kept.none_yet zero_rounds in
            let why : Exhausted unhealthy can_give states states
                ⊎ Exhausted healthy can_take states states =
              subst
                (λ out.
                  Exhausted unhealthy can_give states out ⊎ Exhausted healthy can_take states out)
                same (run-Exhausted inp) in
            rw e (inl (record { weights = refl; changed = refl; why = inr why }))
        | inr e ↦
            let some_rounds : 0 < loop.rounds = ground (arith, rw loop.counter at e) in
            rw e (
              inr (record {
                out = (run inp).0;
                points = loop.rounds;
                positive = some_rounds;
                weights = refl;
                changed = refl;
                reason =
                    let n = same_names states (run inp).0 (donors inp) loop.kept.shifted in
                    let n' = same_names states (run inp).0 (recipients inp) loop.kept.shifted in
                    rw (loop.counter, build_reason, n.1, n'.0) refl;
                moves = loop.kept;
              }))
      ]

  -- Every decision holds for one of these reasons, or moves points.
  pub evaluate-Verdict :
      (inp : Input F)
      → IsReady inp
      → IsSmall inp
      → Still inp (evaluate inp) ⊎ Went inp (evaluate inp)
  unfolding hold_decision
  evaluate-Verdict inp r small =
      evaluate_cases inp (λ d. Still inp d ⊎ Went inp d)
        (λ idle reason. inl (record { weights = refl; changed = refl; why = lacking inp idle }))
        (λ _. run-Verdict inp r small)
    where
      lacking :
          (inp : Input F)
          → Idle inp
          → (inp.max_step_percent ≤ℤ pos 0)
            ⊎ Exhausted unhealthy can_give (build_states inp) (build_states inp)
            ⊎ Exhausted healthy can_take (build_states inp) (build_states inp)
      lacking inp (inl no_step) = inl no_step
      lacking inp (inr (inl no_donor)) =
          inr (inl λ k s s' there e there'. absurd (no_donor k s there e))
      lacking inp (inr (inr no_recipient)) =
          inr (inr λ k s s' there e there'. absurd (no_recipient k s there e))
