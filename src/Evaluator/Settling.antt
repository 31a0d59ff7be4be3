-- ===== src/Evaluator/Settling.antt =====
-- Decisions of `Evaluate` one after another, on samples that stay what they are.
use traficctl.Prelude.{
  ℕ, zero, suc, ◌≡◌, ◌↔◌, ◌≤◌, refl, ◌⊎◌, inl, inr, List, [], ◌∷◌, false, arith, sym, ◌∙◌, ap, ap₂,
}
use traficctl.Prelude.Int.{ℤ, pos, negsuc, pos_part, neg_part, ◌+ℤ◌, +ℤ_parts, ◌≤ℤ◌, ◌<ℤ◌}
use traficctl.Prelude.Lists.{All, All₂}
use traficctl.Prelude.Float.{Float}
use traficctl.Api.Types.{Backend, BackendWeight}
use traficctl.Api.Schema.{InSchema, Bounded}
use traficctl.Evaluator.{evaluate}
use traficctl.Evaluator.State.{Input, build_state}
use traficctl.Evaluator.Role.{Role, role, missing, unhealthy, healthy}
use traficctl.Evaluator.Health.{build_state-role}
use traficctl.Evaluator.Shift.Shares.{share_by}
use traficctl.Evaluator.Contained.{Contained, Contained-IsReady, next, next-Contained}
use traficctl.Evaluator.Account.{IsSmall, evaluate-Verdict}
use traficctl.Evaluator.Holds.{Settled, evaluate_holds_iff}
use traficctl.Evaluator.Points.{held_by, Report, Went-Report}

Role-ext :
    (a b : Role) → ((a ≡ unhealthy) ↔ (b ≡ unhealthy)) → ((a ≡ missing) ↔ (b ≡ missing)) → a ≡ b
Role-ext missing b u m = sym (m.0 refl)
Role-ext unhealthy b u m = sym (u.0 refl)
Role-ext healthy missing u m = m.1 refl
Role-ext healthy unhealthy u m = u.1 refl
Role-ext healthy healthy u m = refl

share-nonneg : (r r' : Role) (c : ℤ) → pos 0 ≤ℤ c → pos 0 ≤ℤ share_by r r' c
share-nonneg r r' c h = ground arith

no_neg_part : (z : ℤ) → pos 0 ≤ℤ z → neg_part z ≡ 0
no_neg_part (pos n) h = refl
no_neg_part (negsuc n) h = absurd (omega arith)

module _ {F : Type 0} ⦃fl : Float F⦄ where
  -- The role does not depend on the weights.
  role-next :
      (inp : Input F) (b : Backend) → role (build_state (next inp) b) ≡ role (build_state inp b)
  role-next inp b =
      let now = build_state-role inp b in
      let then_ = build_state-role (next inp) b in
      Role-ext _ _ (λ e. (now.0).1 ((then_.0).0 e), λ e. (then_.0).1 ((now.0).0 e))
        (λ e. (now.1).1 ((then_.1).0 e), λ e. (then_.1).1 ((now.1).0 e))

  held_by-next :
      (inp : Input F) (r : Role) (bs : List Backend) (ws : List BackendWeight)
      → held_by (next inp) r bs ws ≡ held_by inp r bs ws
  held_by-next inp r (b ∷ bs) (w ∷ ws) =
      ap₂ ◌+ℤ◌ (ap (λ r'. share_by r r' w.weight) (role-next inp b)) (held_by-next inp r bs ws)
  held_by-next inp r [] ws = refl
  held_by-next inp r (b ∷ bs) [] = refl

  held_by-nonneg :
      (inp : Input F) (r : Role) (bs : List Backend) (ws : List BackendWeight)
      → All InSchema bs
      → All₂ Bounded bs ws
      → pos 0 ≤ℤ held_by inp r bs ws
  held_by-nonneg inp r [] [] s h = omega arith
  held_by-nonneg inp r (b ∷ bs) (w ∷ ws) (s, ss) (h, hs) =
      let above = h.above_min in
      let here = share-nonneg r (role (build_state inp b)) w.weight (omega (arith, s.0)) in
      omega (arith, +ℤ_parts, here, held_by-nonneg inp r bs ws ss hs)
  held_by-nonneg inp r [] (w ∷ ws) s h = elim h [ ]
  held_by-nonneg inp r (b ∷ bs) [] s h = elim h [ ]

  -- The weight of the unhealthy backends.
  abbrev pub at_risk : Input F → ℕ
  at_risk inp = pos_part (held_by inp unhealthy inp.backends inp.current)

  -- The input after a number of decisions, each of which the next one starts from.
  abbrev pub decisions : ℕ → Input F → Input F
  decisions zero inp = inp
  decisions (suc n) inp = decisions n (next inp)

  at_risk-next :
      (inp : Input F) → Contained inp → Report inp → suc (at_risk (next inp)) ≤ at_risk inp
  at_risk-next inp c report =
      let same = held_by-next inp unhealthy inp.backends (evaluate inp).weights in
      let after =
        held_by-nonneg (next inp) unhealthy inp.backends (evaluate inp).weights c.schema
          (next-Contained inp c).weights in
      omega (
        arith,
        +ℤ_parts,
        ap pos_part same,
        ap neg_part same,
        ap pos_part report.left,
        ap neg_part report.left,
        report.positive,
        no_neg_part _ after,
      )

  decisions_still :
      (n : ℕ) (inp : Input F) → (evaluate inp).weights ≡ inp.current → decisions n inp ≡ inp
  decisions_still zero inp e = refl
  decisions_still (suc n) inp e =
      let same : next inp ≡ inp = ap (λ ws. record inp { current = ws }) e in
      ap (decisions n) same ∙ decisions_still n inp e

  -- The weights have settled, or the unhealthy backends lose weight in the next one.
  settle_step :
      (inp : Input F)
      → Contained inp
      → pos 0 <ℤ inp.max_step_percent
      → IsSmall inp
      → ((n : ℕ) → ((evaluate (decisions n inp)).changed ≡ false) × Settled (decisions n inp))
        ⊎ (suc (at_risk (next inp)) ≤ at_risk inp)
  settle_step inp c step small =
      let ready = Contained-IsReady inp c in
      elim (evaluate-Verdict inp ready small) [
        | inl still ↦ inl λ n.
            rw (decisions_still n inp still.weights)
              (still.changed, (evaluate_holds_iff inp ready step small).0 still.changed)
        | inr went ↦ inr (at_risk-next inp c (Went-Report inp ready went))
      ]

  -- For backends in the schema with names of their own, an allocation within their bounds, a positive step
  -- and fewer than 2^31 points to move: while the samples stay what they are, after as many decisions as
  -- the unhealthy backends hold points, or more, the decision leaves the weights as they are, and every
  -- unhealthy backend is at its minimum or every healthy one at its maximum.
  pub evaluate_settles :
      (n : ℕ) (inp : Input F)
      → Contained inp
      → pos 0 <ℤ inp.max_step_percent
      → IsSmall inp
      → at_risk inp ≤ n
      → ((evaluate (decisions n inp)).changed ≡ false) × Settled (decisions n inp)
  evaluate_settles zero inp c step small enough = elim (settle_step inp c step small) [
    | inl done ↦ done 0
    | inr falls ↦ absurd (omega arith)
  ]
  evaluate_settles (suc n) inp c step small enough = elim (settle_step inp c step small) [
    | inl done ↦ done (suc n)
    | inr falls ↦ evaluate_settles n (next inp) (next-Contained inp c) step small (omega arith)
  ]
