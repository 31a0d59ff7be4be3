-- ===== src/Evaluator/Shift/Shares.antt =====
-- What a round of the loop of `Evaluate` does to the weight that the states of one role hold.
use mathlib.Core.Option.{some-injective}
use traficctl.Prelude.{
  ℕ, zero, suc, ◌^◌, ◌<◌, ◌≡◌, refl, List, [], ◌∷◌, some, Bool, true, false, arith, ◌∙◌, ap,
}
use traficctl.Prelude.Tests.{if◌then◌else◌}
use traficctl.Prelude.Int.{ℤ, pos, pos_part, neg_part, ◌+ℤ◌, +ℤ_parts, eq_of_parts}
use traficctl.Prelude.Lists.{get_elem?, modify, All₂, get_elem?-modify_ne}
use traficctl.Evaluator.State.{BackendState}
use traficctl.Evaluator.Role.{Role, role, missing, unhealthy, healthy}
use traficctl.Evaluator.Shift.{give, take, transfer, shift_loop, budget}
use traficctl.Evaluator.Shift.Counted.{Counted, shift_loop-Counted}
use traficctl.Evaluator.Shift.Relation.{Shifted}
use traficctl.Evaluator.Shift.Moves.{GiveFacts, TakeFacts, give_facts, take_facts}
use traficctl.Evaluator.Shift.Total.{
  PointsTo, sum_states, sum_states-modify, IsWide-at, Round, Round-facts, transfer-Shifted,
}

abbrev pub same_role : Role → Role → Bool
same_role missing missing = true
same_role unhealthy unhealthy = true
same_role healthy healthy = true
same_role _ _ = false

-- A weight, if it is one of the role `r`.
abbrev pub share_by : Role → Role → ℤ → ℤ
share_by r r' c = if same_role r' r then c else pos 0

parts : {a b : ℤ} → a ≡ b → (pos_part a ≡ pos_part b) × (neg_part a ≡ neg_part b)
parts e = (ap pos_part e, ap neg_part e)

-- Sums of which two summands change: the first takes a point away, the second gives one back.
falls_by_one :
    (s s₁ s₂ g g' t t' : ℤ)
    → s₁ +ℤ g ≡ s +ℤ g'
    → s₂ +ℤ t ≡ s₁ +ℤ t'
    → g' +ℤ pos 1 ≡ g
    → t' ≡ t
    → s₂ +ℤ pos 1 ≡ s
falls_by_one s s₁ s₂ g g' t t' h₁ h₂ e₁ e₂ =
    eq_of_parts _ _ (omega (arith, +ℤ_parts, parts h₁, parts h₂, parts e₁, parts e₂))

rises_by_one :
    (s s₁ s₂ g g' t t' : ℤ)
    → s₁ +ℤ g ≡ s +ℤ g'
    → s₂ +ℤ t ≡ s₁ +ℤ t'
    → g' ≡ g
    → t' ≡ t +ℤ pos 1
    → s₂ ≡ s +ℤ pos 1
rises_by_one s s₁ s₂ g g' t t' h₁ h₂ e₁ e₂ =
    eq_of_parts _ _ (omega (arith, +ℤ_parts, parts h₁, parts h₂, parts e₁, parts e₂))

module _ {F : Type 0} where
  abbrev pub share : Role → BackendState F → ℤ
  share r s = share_by r (role s) s.current

  -- The weight that the states of a role hold.
  abbrev pub role_sum : Role → List (BackendState F) → ℤ
  role_sum r = sum_states (share r)

  give-share :
      (s : BackendState F)
      → role s ≡ unhealthy
      → GiveFacts s
      → (share unhealthy (give s) +ℤ pos 1 ≡ share unhealthy s)
        × (share healthy (give s) ≡ share healthy s)
  unfolding give
  give-share s r f = rw r (eq_of_parts _ _ (omega (arith, +ℤ_parts, f.weight.1)), refl)

  take-share :
      (s : BackendState F)
      → role s ≡ healthy
      → TakeFacts s
      → (share unhealthy (take s) ≡ share unhealthy s)
        × (share healthy (take s) ≡ share healthy s +ℤ pos 1)
  unfolding take
  take-share s r f = rw r (refl, eq_of_parts _ _ (omega (arith, +ℤ_parts, f.weight.1)))

  -- A state after some rounds has the role that it had before them.
  role_now :
      (r : Role) (ss ts : List (BackendState F)) (i : ℕ) (t : BackendState F)
      → All₂ Shifted ss ts
      → get_elem? ts i ≡ some t
      → ((s : BackendState F) → get_elem? ss i ≡ some s → role s ≡ r)
      → role t ≡ r
  role_now r [] [] i t all h was = cc
  role_now r (s ∷ ss) (t' ∷ ts) zero t all h was =
      let same = some-injective t' t h in
      rw (← same, all.0.fixed.have_sample, all.0.fixed.breaches) (was s refl)
  role_now r (s ∷ ss) (t' ∷ ts) (suc i) t all h was = role_now r ss ts i t all.1 h was
  role_now r [] (t' ∷ ts) i t all h was = elim all [ ]
  role_now r (s ∷ ss) [] i t all h was = elim all [ ]

  -- What the rounds so far did to the two shares.
  pub record Moves (states₀ : List (BackendState F)) (k : ℕ) (out : List (BackendState F))
      : Type 0 where
    pub shifted : All₂ Shifted states₀ out
    pub from : role_sum unhealthy out +ℤ pos k ≡ role_sum unhealthy states₀
    pub to : role_sum healthy out ≡ role_sum healthy states₀ +ℤ pos k
    pub none_yet : k ≡ 0 → out ≡ states₀

  module _ (states₀ : List (BackendState F)) (us hs : List ℕ)
      (to_unhealthy : PointsTo unhealthy states₀ us)
      (to_healthy : PointsTo healthy states₀ hs) where
    transfer_shares :
        (states : List (BackendState F)) (d r : ℕ)
        → Round states₀ us hs to_unhealthy to_healthy states d r
        → All₂ Shifted states₀ states
        → (role_sum unhealthy (transfer d r states) +ℤ pos 1 ≡ role_sum unhealthy states)
          × (role_sum healthy (transfer d r states) ≡ role_sum healthy states +ℤ pos 1)
    unfolding transfer
    transfer_shares states d r f all =
        let sd = f.donor.found in
        let sr = f.recipient.found in
        let there = get_elem?-modify_ne d r give states f.apart ∙ f.recipient.points in
        let g =
          give-share sd (role_now unhealthy states₀ states d sd all f.donor.points f.donor_role)
            (give_facts sd (IsWide-at states₀ states d sd all f.donor.points) f.donor.passes) in
        let t =
          take-share sr
            (role_now healthy states₀ states r sr all f.recipient.points f.recipient_role)
            (take_facts sr (IsWide-at states₀ states r sr all f.recipient.points)
              f.recipient.passes) in
        let out = modify d give states in
        let u₁ = sum_states-modify (share unhealthy) d give states sd f.donor.points in
        let u₂ = sum_states-modify (share unhealthy) r take out sr there in
        let h₁ = sum_states-modify (share healthy) d give states sd f.donor.points in
        let h₂ = sum_states-modify (share healthy) r take out sr there in
        (falls_by_one _ _ _ _ _ _ _ u₁ u₂ g.0 t.0, rises_by_one _ _ _ _ _ _ _ h₁ h₂ g.1 t.1)

    -- While the counter does not wrap, it is the number of points that the loop moves.
    pub shift_loop-Moves :
        (fuel : ℕ)
        → budget states₀ < 2 ^ 31
        → All₂ Shifted states₀ states₀
        → Counted us hs (Moves states₀) 0 (shift_loop us hs fuel states₀ (pos 0))
    shift_loop-Moves fuel small start =
        shift_loop-Counted us hs (Moves states₀)
          (λ k states d r ed er m.
            let f = Round-facts states₀ us hs to_unhealthy to_healthy states d r ed er in
            let (u, h) = transfer_shares states d r f m.shifted in
            record {
              shifted =
                  transfer-Shifted states₀ us hs to_unhealthy to_healthy states d r f m.shifted;
              from = eq_of_parts _ _ (omega (arith, +ℤ_parts, parts u, parts m.from));
              to = eq_of_parts _ _ (omega (arith, +ℤ_parts, parts h, parts m.to));
              none_yet = λ e. absurd (omega arith);
            })
          fuel 0 states₀ (omega arith)
          (record {
            shifted = start;
            from = eq_of_parts _ _ (omega (arith, +ℤ_parts));
            to = eq_of_parts _ _ (omega (arith, +ℤ_parts));
            none_yet = λ _. refl;
          })
