-- ===== src/Evaluator/Shift/Counted.antt =====
-- The counter of the loop of `Evaluate`: it counts the rounds, each of which takes one point from the
-- unhealthy backends and gives it to the healthy ones.
use traficctl.Prelude.{ℕ, zero, suc, ◌+◌, ◌^◌, ◌≤◌, ◌<◌, ◌≡◌, refl, List, some, arith, inl, inr}
use traficctl.Prelude.Tests.{Option-cases}
use traficctl.Prelude.Int.{ℤ, pos, ◌+ℤ◌, add32, wrap32}
use traficctl.Evaluator.State.{BackendState}
use traficctl.Evaluator.Shift.{pick_donor, pick_recipient, transfer, shift_loop, budget}
use traficctl.Evaluator.Shift.Rounds.{budget-transfer}

counts : (k : ℕ) → suc k < 2 ^ 31 → add32 (pos k) (pos 1) ≡ pos (suc k)
unfolding wrap32 ◌+ℤ◌
counts k h = ground arith

module _ {F : Type 0} where
  module _ (us hs : List ℕ) where
    -- While the counter does not wrap, it is the number of rounds; what every round keeps, of the
    -- number of rounds before it and the states, holds at the end.
    pub record Counted {κ} (P : ℕ → List (BackendState F) → Type κ) (k : ℕ)
        (out : List (BackendState F) × ℤ) : Type κ where
      pub rounds : ℕ
      pub at_least : k ≤ rounds
      pub counter : out.1 ≡ pos rounds
      pub kept : P rounds out.0

    stop {κ} :
        (P : ℕ → List (BackendState F) → Type κ) (k : ℕ) (states : List (BackendState F))
        → P k states
        → Counted P k (states, pos k)
    stop P k states p = record { rounds = k; at_least = omega arith; counter = refl; kept = p }

    pub shift_loop-Counted {κ} :
        (P : ℕ → List (BackendState F) → Type κ)
        → ((k : ℕ) (states : List (BackendState F)) (d r : ℕ)
            → pick_donor states us ≡ some d
            → pick_recipient states hs ≡ some r
            → P k states
            → P (suc k) (transfer d r states))
        → (fuel k : ℕ) (states : List (BackendState F)) → k + budget states < 2 ^ 31
        → P k states
        → Counted P k (shift_loop us hs fuel states (pos k))
    unfolding shift_loop
    shift_loop-Counted P keep zero k states small p = stop P k states p
    shift_loop-Counted P keep (suc fuel) k states small p =
        elim (Option-cases (pick_donor states us)) [
          | inl e ↦ rw (e, shift_loop) (stop P k states p)
          | inr (d, e) ↦ elim (Option-cases (pick_recipient states hs)) [
            | inl e' ↦ rw (e, e', shift_loop) (stop P k states p)
            | inr (r, e') ↦
                let spent = budget-transfer states us hs d r e e' in
                let rest =
                  shift_loop-Counted P keep fuel (suc k) (transfer d r states) (omega arith)
                    (keep k states d r e e' p) in
                rw (e, e', shift_loop, counts k (omega arith))
                  (record {
                    rounds = rest.rounds;
                    at_least = omega (arith, rest.at_least);
                    counter = rest.counter;
                    kept = rest.kept;
                  })
          ]
        ]
