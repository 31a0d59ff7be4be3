-- ===== src/Evaluator/Shift/Total.antt =====
-- The whole loop of `Evaluate`: every state relates to what it was, and the total stays.
use mathlib.Core.Option.{some-injective}
use traficctl.Prelude.{ℕ, zero, suc, ◌≡◌, ◌≢◌, refl, List, [], ◌∷◌, some, arith, sym, ◌∙◌, ap}
use traficctl.Prelude.Int.{ℤ, pos, pos_part, neg_part, ◌+ℤ◌, +ℤ_parts, eq_of_parts}
use traficctl.Prelude.Lists.{get_elem?, modify, All, All₂, All₂-modify, get_elem?-modify_ne}
use traficctl.Evaluator.State.{BackendState}
use traficctl.Evaluator.Role.{Role, role, unhealthy, healthy}
use traficctl.Evaluator.Shift.{
  can_give, can_take, pick_donor, pick_recipient, give, take, transfer, shift_loop,
}
use traficctl.Evaluator.Shift.Rounds.{Picked, pick-Picked, pick-All, shift_loop_inv}
use traficctl.Evaluator.Shift.Relation.{Shifted, IsWide}
use traficctl.Evaluator.Shift.Moves.{give_facts, take_facts, give-Shifted, take-Shifted}

module _ {F : Type 0} where
  -- Every pointer leads to a state of one role.
  abbrev pub PointsTo : Role → List (BackendState F) → List ℕ → Type 0
  PointsTo r states = All λ p. (s : BackendState F) × (get_elem? states p ≡ some s) × (role s ≡ r)

  -- A sum over the states, of integers that do not wrap.
  abbrev pub sum_states : (BackendState F → ℤ) → List (BackendState F) → ℤ
  sum_states g [] = pos 0
  sum_states g (s ∷ ss) = g s +ℤ sum_states g ss

  abbrev pub total_current : List (BackendState F) → ℤ
  total_current = sum_states λ s. s.current

  pub sum_states-modify :
      (g : BackendState F → ℤ) (i : ℕ) (f : BackendState F → BackendState F)
      (states : List (BackendState F)) (s : BackendState F)
      → get_elem? states i ≡ some s
      → sum_states g (modify i f states) +ℤ g s ≡ sum_states g states +ℤ g (f s)
  sum_states-modify g i f [] s h = cc
  sum_states-modify g zero f (x ∷ xs) s h =
      rw (some-injective _ _ h) (eq_of_parts _ _ (omega (arith, +ℤ_parts)))
  sum_states-modify g (suc i) f (x ∷ xs) s h =
      let ih = sum_states-modify g i f xs s h in
      eq_of_parts _ _ (omega (arith, +ℤ_parts, ap pos_part ih, ap neg_part ih))

  pub IsWide-at :
      (ss ts : List (BackendState F)) (i : ℕ) (t : BackendState F)
      → All₂ Shifted ss ts
      → get_elem? ts i ≡ some t
      → IsWide t
  IsWide-at [] [] i t all h = cc
  IsWide-at (s ∷ ss) (t' ∷ ts) zero t all h = rw (← some-injective t' t h) all.0.wide
  IsWide-at (s ∷ ss) (t' ∷ ts) (suc i) t all h = IsWide-at ss ts i t all.1 h
  IsWide-at [] (t' ∷ ts) i t all h = elim all [ ]
  IsWide-at (s ∷ ss) [] i t all h = elim all [ ]

  module _ (states₀ : List (BackendState F)) (us hs : List ℕ)
      (to_unhealthy : PointsTo unhealthy states₀ us)
      (to_healthy : PointsTo healthy states₀ hs) where
    -- What a round knows of its two states, now and before the loop.
    pub record Round (states : List (BackendState F)) (d r : ℕ) : Type 0 where
      pub donor : Picked can_give states d
      pub recipient : Picked can_take states r
      pub donor_role : (s : BackendState F) → get_elem? states₀ d ≡ some s → role s ≡ unhealthy
      pub recipient_role : (s : BackendState F) → get_elem? states₀ r ≡ some s → role s ≡ healthy
      pub apart : d ≢ r

    pub Round-facts :
        (states : List (BackendState F)) (d r : ℕ)
        → pick_donor states us ≡ some d
        → pick_recipient states hs ≡ some r
        → Round states d r
    unfolding pick_donor pick_recipient
    Round-facts states d r ed er =
        let (s, at_d, role_d) = pick-All _ can_give states us d to_unhealthy ed in
        let (t, at_r, role_r) = pick-All _ can_take states hs r to_healthy er in
        record {
          donor = pick-Picked can_give states us d ed;
          recipient = pick-Picked can_take states hs r er;
          donor_role = λ s' h. rw (some-injective s' s (sym h ∙ at_d)) role_d;
          recipient_role = λ t' h. rw (some-injective t' t (sym h ∙ at_r)) role_r;
          apart = λ e.
              let same : s ≡ t = some-injective s t (sym at_d ∙ rw (← e) at at_r) in
              let clash : unhealthy ≡ healthy = sym role_d ∙ (ap role same ∙ role_r) in cc;
        }

    after_give :
        (states : List (BackendState F)) (d r : ℕ)
        → Round states d r
        → All₂ Shifted states₀ states
        → All₂ Shifted states₀ (modify d give states)
    after_give states d r f = All₂-modify Shifted d give states₀ states λ s s' h h' e.
        let same = some-injective s' f.donor.found (sym h' ∙ f.donor.points) in
        give-Shifted s s' (f.donor_role s h) (rw same f.donor.passes) e

    pub transfer-Shifted :
        (states : List (BackendState F)) (d r : ℕ)
        → Round states d r
        → All₂ Shifted states₀ states
        → All₂ Shifted states₀ (transfer d r states)
    unfolding transfer
    transfer-Shifted states d r f all =
        All₂-modify Shifted r take states₀ (modify d give states)
          (λ s s' h h' e.
            let there = sym h' ∙ get_elem?-modify_ne d r give states f.apart in
            let same = some-injective s' f.recipient.found (there ∙ f.recipient.points) in
            take-Shifted s s' (f.recipient_role s h) (rw same f.recipient.passes) e)
          (after_give states d r f all)

    transfer_total :
        (states : List (BackendState F)) (d r : ℕ)
        → Round states d r
        → All₂ Shifted states₀ states
        → total_current (transfer d r states) ≡ total_current states
    unfolding transfer
    transfer_total states d r f all =
        let sd = f.donor.found in
        let sr = f.recipient.found in
        let there = get_elem?-modify_ne d r give states f.apart ∙ f.recipient.points in
        let given = sum_states-modify (λ s. s.current) d give states sd f.donor.points in
        let taken = sum_states-modify (λ s. s.current) r take (modify d give states) sr there in
        let g = give_facts sd (IsWide-at states₀ states d sd all f.donor.points) f.donor.passes in
        let t =
          take_facts sr (IsWide-at states₀ states r sr all f.recipient.points) f.recipient.passes in
        eq_of_parts _ _ (
          omega (
            arith,
            +ℤ_parts,
            ap pos_part given,
            ap neg_part given,
            ap pos_part taken,
            ap neg_part taken,
            g.weight.1,
            t.weight.1,
          ))

    -- The states after the loop relate to those before it, and the total is the same.
    pub shift_loop-Shifted :
        (fuel : ℕ) (n : ℤ)
        → All₂ Shifted states₀ states₀
        → let out = (shift_loop us hs fuel states₀ n).0 in
          All₂ Shifted states₀ out × (total_current out ≡ total_current states₀)
    shift_loop-Shifted fuel n start =
        shift_loop_inv us hs
          (λ states. All₂ Shifted states₀ states × (total_current states ≡ total_current states₀))
          (λ states d r ed er p.
            let f = Round-facts states d r ed er in
            (transfer-Shifted states d r f p.0, transfer_total states d r f p.0 ∙ p.1))
          fuel states₀ n (start, refl)
