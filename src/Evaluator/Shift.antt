-- ===== src/Evaluator/Shift.antt =====
-- internal/evaluator/evaluator.go: the loop of `Evaluate` that moves one point at a time, with
-- `pickDonor` and `pickRecipient`.
pub mod Rounds
pub mod Relation
pub mod Moves
pub mod Total
pub mod Counted
pub mod Shares
pub mod Priority
use traficctl.Prelude.{ℕ, zero, suc, ◌+◌, List, [], ◌∷◌, Option, none, some, Bool, true, false}
use traficctl.Prelude.Tests.{if◌then◌else◌}
use traficctl.Prelude.Int.{ℤ, pos, add32, sub32, lt_int, pos_part}
use traficctl.Prelude.Lists.{get_elem?, modify}
use traficctl.Evaluator.State.{BackendState}

module _ {F : Type 0} where
  abbrev pub can_give : BackendState F → Bool
  can_give s = if lt_int (pos 0) s.step_budget then lt_int s.min s.current else false

  abbrev pub can_take : BackendState F → Bool
  can_take s = if lt_int (pos 0) s.step_budget then lt_int s.current s.max else false

  -- The first pointer whose state passes the test.
  unfoldable pub pick : (BackendState F → Bool) → List (BackendState F) → List ℕ → Option ℕ
  pick test states [] = none
  pick test states (p ∷ ps) = elim (get_elem? states p) [
    | none ↦ pick test states ps
    | some s ↦ if test s then some p else pick test states ps
  ]

  unfoldable pub pick_donor : List (BackendState F) → List ℕ → Option ℕ
  unfolding pick
  pick_donor = pick can_give

  unfoldable pub pick_recipient : List (BackendState F) → List ℕ → Option ℕ
  unfolding pick
  pick_recipient = pick can_take

  unfoldable pub give : BackendState F → BackendState F
  give s = record s { current = sub32 s.current (pos 1); step_budget = sub32 s.step_budget (pos 1) }

  unfoldable pub take : BackendState F → BackendState F
  take s = record s { current = add32 s.current (pos 1); step_budget = sub32 s.step_budget (pos 1) }

  -- One round: the donor's writes, then the recipient's.
  unfoldable pub transfer : ℕ → ℕ → List (BackendState F) → List (BackendState F)
  unfolding give take
  transfer donor recipient states = modify recipient take (modify donor give states)

  -- `for { … }`: it ends where a donor or a recipient is missing.
  unfoldable pub shift_loop :
      List ℕ → List ℕ → ℕ → List (BackendState F) → ℤ → List (BackendState F) × ℤ
  unfolding pick_donor pick_recipient transfer
  shift_loop unhealthy healthy zero states shifted = (states, shifted)
  shift_loop unhealthy healthy (suc fuel) states shifted = elim (pick_donor states unhealthy) [
    | none ↦ (states, shifted)
    | some d ↦ elim (pick_recipient states healthy) [
      | none ↦ (states, shifted)
      | some r ↦ shift_loop unhealthy healthy fuel (transfer d r states) (add32 shifted (pos 1))
    ]
  ]

  -- What the states may still move, in points: the fuel of the loop.
  abbrev pub budget : List (BackendState F) → ℕ
  budget [] = 0
  budget (s ∷ ss) = pos_part s.step_budget + budget ss
