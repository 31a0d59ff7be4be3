-- ===== src/Evaluator/Shift/Relation.antt =====
-- How a state after some rounds of the loop relates to the state before them.
use traficctl.Prelude.{◌≡◌, arith}
use traficctl.Prelude.Int.{pos, ◌+ℤ◌, ◌≤ℤ◌, IsInt32}
use traficctl.Evaluator.State.{BackendState}
use traficctl.Evaluator.Role.{role, missing, unhealthy, healthy}

module _ {F : Type 0} where
  -- All numbers of a state are in the range of their type, and its budget is not negative.
  pub record IsWide (s : BackendState F) : Type 0 where
    pub current : IsInt32 s.current
    pub min : IsInt32 s.min
    pub max : IsInt32 s.max
    pub budget : IsInt32 s.step_budget
    pub budget_nonneg : pos 0 ≤ℤ s.step_budget

  -- What the loop never writes.
  pub record SameFixed (s s' : BackendState F) : Type 0 where
    pub name : s'.name ≡ s.name
    pub min : s'.min ≡ s.min
    pub max : s'.max ≡ s.max
    pub score : s'.score ≡ s.score
    pub have_sample : s'.have_sample ≡ s.have_sample
    pub breaches : s'.breaches ≡ s.breaches

  -- A bound that held still holds, and the weight changed by no more than the budget used.
  pub record Within (s s' : BackendState F) : Type 0 where
    pub above_min : s.min ≤ℤ s.current → s.min ≤ℤ s'.current
    pub below_max : s.current ≤ℤ s.max → s'.current ≤ℤ s.max
    pub falls : s.current +ℤ s'.step_budget ≤ℤ s'.current +ℤ s.step_budget
    pub rises : s'.current +ℤ s'.step_budget ≤ℤ s.current +ℤ s.step_budget

  -- An unhealthy backend only loses weight, a healthy one only gains, each point for a point of
  -- budget; one without samples keeps its weight.
  pub record Directed (s s' : BackendState F) : Type 0 where
    pub donor :
        role s ≡ unhealthy
        → (s'.current ≤ℤ s.current) × (s.current +ℤ s'.step_budget ≡ s'.current +ℤ s.step_budget)
    pub recipient :
        role s ≡ healthy
        → (s.current ≤ℤ s'.current) × (s'.current +ℤ s'.step_budget ≡ s.current +ℤ s.step_budget)
    pub untouched : role s ≡ missing → s'.current ≡ s.current

  pub record Shifted (s s' : BackendState F) : Type 0 where
    pub wide : IsWide s'
    pub fixed : SameFixed s s'
    pub within : Within s s'
    pub directed : Directed s s'

  pub Shifted-refl : (s : BackendState F) → IsWide s → Shifted s s
  Shifted-refl s w = record {
    wide = w;
    fixed = ground arith;
    within = ground arith;
    directed = ground arith;
  }
