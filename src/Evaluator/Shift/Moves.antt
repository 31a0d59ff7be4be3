-- ===== src/Evaluator/Shift/Moves.antt =====
-- What one round of the loop does to the donor and to the recipient.
use traficctl.Prelude.{◌+◌, ◌≡◌, true, arith, sym, ◌∙◌, ap}
use traficctl.Prelude.Int.{
  pos, pos_part, ◌<ℤ◌, IsInt32, neg_part, sub32-one, add32-one, +ℤ_parts, eq_of_parts,
}
use traficctl.Evaluator.State.{BackendState}
use traficctl.Evaluator.Role.{role, missing, unhealthy, healthy}
use traficctl.Evaluator.Shift.{can_give, can_take, give, take}
use traficctl.Evaluator.Shift.Relation.{IsWide, SameFixed, Within, Directed, Shifted}

module _ {F : Type 0} where
  -- What a donor's test gives: its numbers are wide, so neither decrement wraps.
  pub record GiveFacts (s : BackendState F) : Type 0 where
    pub above : s.min <ℤ s.current
    pub some_budget : pos 0 <ℤ s.step_budget
    pub weight :
        IsInt32 (give s).current
        × (pos_part (give s).current + neg_part s.current + 1
            ≡ neg_part (give s).current + pos_part s.current)
    pub left :
        IsInt32 (give s).step_budget
        × (pos_part (give s).step_budget + neg_part s.step_budget + 1
            ≡ neg_part (give s).step_budget + pos_part s.step_budget)

  pub record TakeFacts (s : BackendState F) : Type 0 where
    pub below : s.current <ℤ s.max
    pub some_budget : pos 0 <ℤ s.step_budget
    pub weight :
        IsInt32 (take s).current
        × (pos_part (take s).current + neg_part s.current
            ≡ neg_part (take s).current + pos_part s.current + 1)
    pub left :
        IsInt32 (take s).step_budget
        × (pos_part (take s).step_budget + neg_part s.step_budget + 1
            ≡ neg_part (take s).step_budget + pos_part s.step_budget)

  can_give_iff :
      (s : BackendState F) → can_give s ≡ true → (s.min <ℤ s.current) × (pos 0 <ℤ s.step_budget)
  can_give_iff s h = ground arith

  can_take_iff :
      (s : BackendState F) → can_take s ≡ true → (s.current <ℤ s.max) × (pos 0 <ℤ s.step_budget)
  can_take_iff s h = ground arith

  pub give_facts : (s : BackendState F) → IsWide s → can_give s ≡ true → GiveFacts s
  unfolding give
  give_facts s w h =
      let (above, some_budget) = can_give_iff s h in
      record {
        above = above;
        some_budget = some_budget;
        weight = sub32-one s.current s.min w.current w.min above;
        left = sub32-one s.step_budget (pos 0) w.budget (omega arith) some_budget;
      }

  pub take_facts : (s : BackendState F) → IsWide s → can_take s ≡ true → TakeFacts s
  unfolding take
  take_facts s w h =
      let (below, some_budget) = can_take_iff s h in
      record {
        below = below;
        some_budget = some_budget;
        weight = add32-one s.current s.max w.current w.max below;
        left = sub32-one s.step_budget (pos 0) w.budget (omega arith) some_budget;
      }

  give-IsWide : (s : BackendState F) → IsWide s → GiveFacts s → IsWide (give s)
  unfolding give
  give-IsWide s w f = record {
    current = f.weight.0;
    min = w.min;
    max = w.max;
    budget = f.left.0;
    budget_nonneg = omega (arith, f.left, f.some_budget);
  }

  take-IsWide : (s : BackendState F) → IsWide s → TakeFacts s → IsWide (take s)
  unfolding take
  take-IsWide s w f = record {
    current = f.weight.0;
    min = w.min;
    max = w.max;
    budget = f.left.0;
    budget_nonneg = omega (arith, f.left, f.some_budget);
  }

  module _ (s s' : BackendState F) (w : Within s s') (x : SameFixed s s') where
    give-Within : GiveFacts s' → Within s (give s')
    unfolding give
    give-Within f = record {
      above_min = λ h. omega (arith, f.weight.1, f.above, ap pos_part x.min, ap neg_part x.min);
      below_max = λ h. omega (arith, f.weight.1, w.below_max h);
      falls = omega (arith, +ℤ_parts, f.weight.1, f.left.1, w.falls);
      rises = omega (arith, +ℤ_parts, f.weight.1, f.left.1, w.rises);
    }

    take-Within : TakeFacts s' → Within s (take s')
    unfolding take
    take-Within f = record {
      above_min = λ h. omega (arith, f.weight.1, w.above_min h);
      below_max = λ h. omega (arith, f.weight.1, f.below, ap pos_part x.max, ap neg_part x.max);
      falls = omega (arith, +ℤ_parts, f.weight.1, f.left.1, w.falls);
      rises = omega (arith, +ℤ_parts, f.weight.1, f.left.1, w.rises);
    }

  give-SameFixed : (s s' : BackendState F) → SameFixed s s' → SameFixed s (give s')
  unfolding give
  give-SameFixed s s' x = record {
    name = x.name;
    min = x.min;
    max = x.max;
    score = x.score;
    have_sample = x.have_sample;
    breaches = x.breaches;
  }

  take-SameFixed : (s s' : BackendState F) → SameFixed s s' → SameFixed s (take s')
  unfolding take
  take-SameFixed s s' x = record {
    name = x.name;
    min = x.min;
    max = x.max;
    score = x.score;
    have_sample = x.have_sample;
    breaches = x.breaches;
  }

  give-Directed :
      (s s' : BackendState F)
      → role s ≡ unhealthy
      → Directed s s'
      → GiveFacts s'
      → Directed s (give s')
  give-Directed s s' r d f = record {
    donor = λ _.
        let (le, spent) = d.donor r in
        (
          omega (arith, f.weight.1, le),
          eq_of_parts _ _
              (omega (arith, +ℤ_parts, f.weight.1, f.left.1, ap pos_part spent, ap neg_part spent)),
        );
    recipient = λ h. let clash : unhealthy ≡ healthy = sym r ∙ h in cc;
    untouched = λ h. let clash : unhealthy ≡ missing = sym r ∙ h in cc;
  }

  take-Directed :
      (s s' : BackendState F)
      → role s ≡ healthy
      → Directed s s'
      → TakeFacts s'
      → Directed s (take s')
  take-Directed s s' r d f = record {
    donor = λ h. let clash : healthy ≡ unhealthy = sym r ∙ h in cc;
    recipient = λ _.
        let (le, spent) = d.recipient r in
        (
          omega (arith, f.weight.1, le),
          eq_of_parts _ _
              (omega (arith, +ℤ_parts, f.weight.1, f.left.1, ap pos_part spent, ap neg_part spent)),
        );
    untouched = λ h. let clash : healthy ≡ missing = sym r ∙ h in cc;
  }

  -- A round keeps the relation at the donor and at the recipient.
  pub give-Shifted :
      (s s' : BackendState F)
      → role s ≡ unhealthy
      → can_give s' ≡ true
      → Shifted s s'
      → Shifted s (give s')
  give-Shifted s s' r h e =
      let f = give_facts s' e.wide h in
      record {
        wide = give-IsWide s' e.wide f;
        fixed = give-SameFixed s s' e.fixed;
        within = give-Within s s' e.within e.fixed f;
        directed = give-Directed s s' r e.directed f;
      }

  pub take-Shifted :
      (s s' : BackendState F)
      → role s ≡ healthy
      → can_take s' ≡ true
      → Shifted s s'
      → Shifted s (take s')
  take-Shifted s s' r h e =
      let f = take_facts s' e.wide h in
      record {
        wide = take-IsWide s' e.wide f;
        fixed = take-SameFixed s s' e.fixed;
        within = take-Within s s' e.within e.fixed f;
        directed = take-Directed s s' r e.directed f;
      }
