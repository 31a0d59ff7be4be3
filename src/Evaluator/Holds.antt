-- ===== src/Evaluator/Holds.antt =====
-- When `Evaluate` holds the weights: exactly where no unhealthy backend can give a point, or no healthy
-- one can take it.
use mathlib.Core.Option.{some-injective}
use traficctl.Prelude.{
  ℕ, zero, suc, ◌≡◌, ◌≢◌, ◌↔◌, refl, ◌⊎◌, inl, inr, List, [], ◌∷◌, map, some, Bool, true, false,
  arith, sym, ◌∙◌, ap,
}
use traficctl.Prelude.Int.{pos, ◌≤ℤ◌, ◌<ℤ◌}
use traficctl.Prelude.Lists.{get_elem?, All, All₂}
use traficctl.Prelude.Float.{Float}
use traficctl.Prelude.Sort.{stable_sort, All-stable_sort}
use traficctl.Api.Types.{Backend, BackendWeight}
use traficctl.Evaluator.{evaluate, finish, hold_decision, classify, worse, better, through}
use traficctl.Evaluator.State.{BackendState, Input, build_state, build_states}
use traficctl.Evaluator.Role.{Role, role, missing, unhealthy, healthy}
use traficctl.Evaluator.Classify.{members, classify-All}
use traficctl.Evaluator.Shift.{can_give, can_take, pick_donor, pick_recipient, budget}
use traficctl.Evaluator.Shift.Rounds.{pick-blocked, shift_loop-stopped}
use traficctl.Evaluator.Numbers.{build_state-Numbers, current_of}
use traficctl.Evaluator.Allocation.{current_of-Aligned}
use traficctl.Evaluator.Branches.{donors, recipients, run, evaluate_cases}
use traficctl.Evaluator.Outcome.{Exhausted}
use traficctl.Evaluator.Laws.{IsReady}
use traficctl.Evaluator.Account.{IsSmall, evaluate-Verdict}

-- A backend that can give nothing, and one that can take nothing.
abbrev pub AtMin : Backend → BackendWeight → Type 0
AtMin b w = w.weight ≤ℤ b.min_weight

abbrev pub AtMax : Backend → BackendWeight → Type 0
AtMax b w = b.max_weight ≤ℤ w.weight

module _ {F : Type 0} ⦃fl : Float F⦄ where
  -- Every backend of the role is in the relation with its weight.
  abbrev pub Blocked : Role → (Backend → BackendWeight → Type 0) → Input F → Type 0
  Blocked r P inp = All₂ (λ b w. role (build_state inp b) ≡ r → P b w) inp.backends inp.current

  -- Every unhealthy backend is at its minimum or below, or every healthy one at its maximum or above.
  abbrev pub Settled : Input F → Type 0
  Settled inp = Blocked unhealthy AtMin inp ⊎ Blocked healthy AtMax inp

  Exhausted-cons :
      (r : Role) (test : BackendState F → Bool) (s : BackendState F) (ss : List (BackendState F))
      → (role s ≡ r → test s ≡ false)
      → Exhausted r test ss ss
      → Exhausted r test (s ∷ ss) (s ∷ ss)
  Exhausted-cons r test s ss here rest zero t t' there e there' =
      rw (← some-injective s t' there') (here (ap role (some-injective s t there) ∙ e))
  Exhausted-cons r test s ss here rest (suc k) t t' there e there' = rest k t t' there e there'

  Exhausted-Blocked :
      (inp : Input F) (r : Role) (test : BackendState F → Bool)
      (P : Backend → BackendWeight → Type 0)
      → ((b : Backend) (w : BackendWeight)
          → (build_state inp b).current ≡ w.weight
          → (test (build_state inp b) ≡ false) ↔ P b w)
      → (bs : List Backend) (ws : List BackendWeight)
      → All₂ (λ (b : Backend) (w : BackendWeight). w.name ≡ b.name) bs ws
      → All (λ w. current_of inp w.name ≡ w.weight) ws
      → Exhausted r test (map (build_state inp) bs) (map (build_state inp) bs)
        ↔ All₂ (λ b w. role (build_state inp b) ≡ r → P b w) bs ws
  Exhausted-Blocked inp r test P one [] [] names cur = (λ _. tt, λ _ k s s' there e there'. cc)
  Exhausted-Blocked inp r test P one (b ∷ bs) (w ∷ ws) (e, names) (c, cur) =
      let s = build_state inp b in
      let start = (build_state-Numbers inp b).current ∙ (ap (current_of inp) (sym e) ∙ c) in
      let here = one b w start in
      let ih = Exhausted-Blocked inp r test P one bs ws names cur in
      (
        λ ex. (λ role_s. here.0 (ex 0 s s refl role_s refl), ih.0 λ k. ex (suc k)),
        λ (h, hs).
            Exhausted-cons r test s (map (build_state inp) bs) (λ role_s. here.1 (h role_s))
              (ih.1 hs),
      )
  Exhausted-Blocked inp r test P one [] (w ∷ ws) names cur = elim names [ ]
  Exhausted-Blocked inp r test P one (b ∷ bs) [] names cur = elim names [ ]

  module _ (inp : Input F) (ready : IsReady inp) (step : pos 0 <ℤ inp.max_step_percent) where
    donors_iff :
        Exhausted unhealthy can_give (build_states inp) (build_states inp)
        ↔ Blocked unhealthy AtMin inp
    unfolding build_states
    donors_iff =
        Exhausted-Blocked inp unhealthy can_give AtMin
          (λ b w start.
            let n = build_state-Numbers inp b in
            rw (n.min, n.step_budget, start)
              (λ h. ground (arith, step, h), λ h. ground (arith, step, h)))
          inp.backends inp.current ready.aligned.names (current_of-Aligned inp ready.aligned)

    recipients_iff :
        Exhausted healthy can_take (build_states inp) (build_states inp) ↔ Blocked healthy AtMax inp
    unfolding build_states
    recipients_iff =
        Exhausted-Blocked inp healthy can_take AtMax
          (λ b w start.
            let n = build_state-Numbers inp b in
            rw (n.max, n.step_budget, start)
              (λ h. ground (arith, step, h), λ h. ground (arith, step, h)))
          inp.backends inp.current ready.aligned.names (current_of-Aligned inp ready.aligned)

  still_blocked :
      (r : Role) (less : ℕ → ℕ → Bool) (test : BackendState F → Bool)
      (states : List (BackendState F))
      → r ≢ missing
      → Exhausted r test states states
      → All
          (λ p. (s : BackendState F) → get_elem? states p ≡ some s → test s ≡ false)
          (stable_sort less (members r (classify states)))
  still_blocked r less test states solid ex =
      (All-stable_sort less _ _).1
        ((classify-All _ r solid states).1 λ k s there e s' there'. ex k s s' there e there')

  -- Where the states can move nothing, the loop ends in its first round.
  run_stops :
      (inp : Input F)
      → Exhausted unhealthy can_give (build_states inp) (build_states inp)
        ⊎ Exhausted healthy can_take (build_states inp) (build_states inp)
      → run inp ≡ (build_states inp, pos 0)
  unfolding pick_donor pick_recipient
  run_stops inp can_not =
      let states = build_states inp in
      shift_loop-stopped (donors inp) (recipients inp) (suc (budget states)) states (pos 0)
        (elim can_not [
          | inl ex ↦ inl (
              pick-blocked can_give states (donors inp)
                (still_blocked unhealthy (through worse states) can_give states (λ h. cc) ex))
          | inr ex ↦ inr (
              pick-blocked can_take states (recipients inp)
                (still_blocked healthy (through better states) can_take states (λ h. cc) ex))
        ])

  -- For an aligned input whose numbers fit, with a positive step and fewer than 2^31 points to move: the
  -- decision leaves the weights as they are exactly if every unhealthy backend is at its minimum or below,
  -- or every healthy backend is at its maximum or above.
  pub evaluate_holds_iff :
      (inp : Input F)
      → IsReady inp
      → pos 0 <ℤ inp.max_step_percent
      → IsSmall inp
      → ((evaluate inp).changed ≡ false) ↔ Settled inp
  unfolding finish hold_decision
  evaluate_holds_iff inp ready step small = (
    λ held. elim (evaluate-Verdict inp ready small) [
      | inr went ↦ let clash : true ≡ false = sym went.changed ∙ held in cc
      | inl still ↦ elim still.why [
        | inl no_step ↦ absurd (omega arith)
        | inr (inl ex) ↦ inl ((donors_iff inp ready step).0 ex)
        | inr (inr ex) ↦ inr ((recipients_iff inp ready step).0 ex)
      ]
    ],
    λ settled.
        evaluate_cases inp (λ d. d.changed ≡ false) (λ _ reason. refl)
          (λ _.
            rw
              (run_stops inp (elim settled [
                | inl b ↦ inl ((donors_iff inp ready step).1 b)
                | inr b ↦ inr ((recipients_iff inp ready step).1 b)
              ]))
              refl),
  )
