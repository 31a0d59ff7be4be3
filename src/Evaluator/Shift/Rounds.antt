-- ===== src/Evaluator/Shift/Rounds.antt =====
-- The rounds of the loop of `Evaluate`: what a pick finds, the invariant rule, and termination.
use traficctl.Prelude.{
  ℕ, zero, suc, ◌+◌, ◌<◌, ◌≡◌, refl, ◌⊎◌, inl, inr, List, [], ◌∷◌, none, some, Bool, true, false,
  arith, sym, ◌∙◌,
}
use mathlib.Core.Option.{some-injective}
use native.Mathlib.Decide.{ℕ_discrete}
use traficctl.Prelude.Tests.{Option-cases, Bool-cases}
use traficctl.Prelude.Int.{ℤ, pos, negsuc, pos_part, sub32, add32, wrap32, ◌-ℤ◌, ◌<ℤ◌}
use traficctl.Prelude.Lists.{get_elem?, modify, All, get_elem?-modify_self, get_elem?-modify_ne}
use traficctl.Evaluator.State.{BackendState}
use traficctl.Evaluator.Shift.{
  can_give, can_take, pick, pick_donor, pick_recipient, give, take, transfer, shift_loop, budget,
}

pos_part-step_down : (b : ℤ) → pos 0 <ℤ b → pos_part (sub32 b (pos 1)) < pos_part b
unfolding wrap32 ◌-ℤ◌
pos_part-step_down (pos n) h = ground arith
pos_part-step_down (negsuc n) h = ground arith

pos_part-step_twice : (b : ℤ) → pos 0 <ℤ b → pos_part (sub32 (sub32 b (pos 1)) (pos 1)) < pos_part b
unfolding wrap32 ◌-ℤ◌
pos_part-step_twice (pos n) h = ground arith
pos_part-step_twice (negsuc n) h = ground arith

module _ {F : Type 0} where
  -- A pick returns a pointer of the list, to a state that passes the test.
  pub record Picked (test : BackendState F → Bool) (states : List (BackendState F)) (p : ℕ)
      : Type 0 where
    pub found : BackendState F
    pub points : get_elem? states p ≡ some found
    pub passes : test found ≡ true

  pub pick-Picked :
      (test : BackendState F → Bool) (states : List (BackendState F)) (ps : List ℕ) (p : ℕ)
      → pick test states ps ≡ some p
      → Picked test states p
  unfolding pick
  pick-Picked test states [] p e = cc
  pick-Picked test states (q ∷ ps) p e = elim (Option-cases (get_elem? states q)) [
    | inl missing ↦ pick-Picked test states ps p (rw (missing, pick) at e)
    | inr (s, there) ↦ elim (Bool-cases (test s)) [
      | inl ok ↦
          let same : q ≡ p = some-injective _ _ (rw (there, ok, pick) at e) in
          record { found = s; points = rw (← same) there; passes = ok }
      | inr bad ↦ pick-Picked test states ps p (rw (there, bad, pick) at e)
    ]
  ]

  pub pick-All {κ} :
      (Q : ℕ → Type κ) (test : BackendState F → Bool) (states : List (BackendState F)) (ps : List ℕ)
      (p : ℕ)
      → All Q ps
      → pick test states ps ≡ some p
      → Q p
  unfolding pick
  pick-All Q test states [] p all e = cc
  pick-All Q test states (q ∷ ps) p (here, all) e = elim (Option-cases (get_elem? states q)) [
    | inl missing ↦ pick-All Q test states ps p all (rw (missing, pick) at e)
    | inr (s, there) ↦ elim (Bool-cases (test s)) [
      | inl ok ↦ rw (← some-injective q p (rw (there, ok, pick) at e)) here
      | inr bad ↦ pick-All Q test states ps p all (rw (there, bad, pick) at e)
    ]
  ]

  -- Where nothing is picked, no state that the list points to passes the test.
  pub pick-none :
      (test : BackendState F → Bool) (states : List (BackendState F)) (ps : List ℕ)
      → pick test states ps ≡ none
      → All (λ p. (s : BackendState F) → get_elem? states p ≡ some s → test s ≡ false) ps
  unfolding pick
  pick-none test states [] e = tt
  pick-none test states (q ∷ ps) e = elim (Option-cases (get_elem? states q)) [
    | inl missing ↦ (λ s there. cc, pick-none test states ps (rw (missing, pick) at e))
    | inr (s, there) ↦ elim (Bool-cases (test s)) [
      | inl ok ↦ let clash : some q ≡ none = rw (there, ok, pick) at e in cc
      | inr bad ↦ (
        λ t there'. rw (← some-injective s t (sym there ∙ there')) bad,
        pick-none test states ps (rw (there, bad, pick) at e),
      )
    ]
  ]

  -- Where none of them passes, nothing is picked.
  pub pick-blocked :
      (test : BackendState F → Bool) (states : List (BackendState F)) (ps : List ℕ)
      → All (λ p. (s : BackendState F) → get_elem? states p ≡ some s → test s ≡ false) ps
      → pick test states ps ≡ none
  unfolding pick
  pick-blocked test states [] all = refl
  pick-blocked test states (p ∷ ps) (here, all) = elim (Option-cases (get_elem? states p)) [
    | inl gone ↦ rw (gone, pick) (pick-blocked test states ps all)
    | inr (s, there) ↦ rw (there, here s there, pick) (pick-blocked test states ps all)
  ]

  budget-modify :
      (i : ℕ) (f : BackendState F → BackendState F) (states : List (BackendState F))
      (s : BackendState F)
      → get_elem? states i ≡ some s
      → budget (modify i f states) + pos_part s.step_budget
        ≡ budget states + pos_part (f s).step_budget
  budget-modify i f [] s h = cc
  budget-modify zero f (x ∷ xs) s h = ground arith
  budget-modify (suc i) f (x ∷ xs) s h = omega (arith, budget-modify i f xs s h)

  give_spends :
      (s : BackendState F)
      → can_give s ≡ true
      → pos_part (give s).step_budget < pos_part s.step_budget
  unfolding give
  give_spends s h = ground (arith, pos_part-step_down s.step_budget)

  take_spends :
      (s : BackendState F)
      → can_take s ≡ true
      → pos_part (take s).step_budget < pos_part s.step_budget
  unfolding take
  take_spends s h = ground (arith, pos_part-step_down s.step_budget)

  give-take_spends :
      (s : BackendState F)
      → can_give s ≡ true
      → pos_part (take (give s)).step_budget < pos_part s.step_budget
  unfolding give take
  give-take_spends s h = ground (arith, pos_part-step_twice s.step_budget)

  -- Each round uses up budget.
  budget-transfer-of :
      (states : List (BackendState F)) (d r : ℕ)
      → Picked can_give states d
      → Picked can_take states r
      → budget (transfer d r states) < budget states
  unfolding transfer
  budget-transfer-of states d r donor recipient = elim (ℕ_discrete d r) [
    | yes same ↦
        let sd = donor.found in
        let first = budget-modify d give states sd donor.points in
        let there = get_elem?-modify_self d give states sd donor.points in
        rw (← same) (
          omega (
            arith,
            first,
            budget-modify d take (modify d give states) (give sd) there,
            give-take_spends sd donor.passes,
          ))
    | no other ↦
        let sd = donor.found in
        let sr = recipient.found in
        let there = get_elem?-modify_ne d r give states other ∙ recipient.points in
        omega (
          arith,
          budget-modify d give states sd donor.points,
          give_spends sd donor.passes,
          budget-modify r take (modify d give states) sr there,
          take_spends sr recipient.passes,
        )
  ]

  pub budget-transfer :
      (states : List (BackendState F)) (unhealthy healthy : List ℕ) (d r : ℕ)
      → pick_donor states unhealthy ≡ some d
      → pick_recipient states healthy ≡ some r
      → budget (transfer d r states) < budget states
  unfolding pick_donor pick_recipient
  budget-transfer states unhealthy healthy d r ed er =
      budget-transfer-of states d r (pick-Picked can_give states unhealthy d ed)
        (pick-Picked can_take states healthy r er)

  module _ (unhealthy healthy : List ℕ) where
    -- What every round keeps holds when the loop ends.
    pub shift_loop_inv {κ} :
        (P : List (BackendState F) → Type κ)
        → ((states : List (BackendState F)) (d r : ℕ)
            → pick_donor states unhealthy ≡ some d
            → pick_recipient states healthy ≡ some r
            → P states
            → P (transfer d r states))
        → (fuel : ℕ) (states : List (BackendState F)) (n : ℤ) → P states
        → P (shift_loop unhealthy healthy fuel states n).0
    unfolding shift_loop
    shift_loop_inv P keep zero states n p = p
    shift_loop_inv P keep (suc fuel) states n p =
        elim (Option-cases (pick_donor states unhealthy)) [
          | inl e ↦ rw (e, shift_loop) p
          | inr (d, e) ↦ elim (Option-cases (pick_recipient states healthy)) [
            | inl e' ↦ rw (e, e', shift_loop) p
            | inr (r, e') ↦
                rw (e, e', shift_loop)
                  (shift_loop_inv P keep fuel (transfer d r states) (add32 n (pos 1))
                    (keep states d r e e' p))
          ]
        ]

    -- With more fuel than the states have budget, the loop ends where no donor or no recipient is left.
    pub shift_loop_exits :
        (fuel : ℕ) (states : List (BackendState F)) (n : ℤ)
        → budget states < fuel
        → let out = (shift_loop unhealthy healthy fuel states n).0 in
          (pick_donor out unhealthy ≡ none) ⊎ (pick_recipient out healthy ≡ none)
    unfolding shift_loop
    shift_loop_exits zero states n h = absurd (omega arith)
    shift_loop_exits (suc fuel) states n h = elim (Option-cases (pick_donor states unhealthy)) [
      | inl e ↦ rw (e, shift_loop) (inl e)
      | inr (d, e) ↦ elim (Option-cases (pick_recipient states healthy)) [
        | inl e' ↦ rw (e, e', shift_loop) (inr e')
        | inr (r, e') ↦
            rw (e, e', shift_loop)
              (shift_loop_exits fuel (transfer d r states) (add32 n (pos 1))
                (omega (arith, budget-transfer states unhealthy healthy d r e e')))
      ]
    ]

    -- Where one of them is missing to begin with, the loop does nothing.
    pub shift_loop-stopped :
        (fuel : ℕ) (states : List (BackendState F)) (n : ℤ)
        → (pick_donor states unhealthy ≡ none) ⊎ (pick_recipient states healthy ≡ none)
        → shift_loop unhealthy healthy fuel states n ≡ (states, n)
    unfolding shift_loop
    shift_loop-stopped zero states n stop = refl
    shift_loop-stopped (suc fuel) states n (inl e) = rw (e, shift_loop) refl
    shift_loop-stopped (suc fuel) states n (inr e) =
        elim (Option-cases (pick_donor states unhealthy)) [
          | inl e' ↦ rw (e', shift_loop) refl
          | inr (d, e') ↦ rw (e', e, shift_loop) refl
        ]
