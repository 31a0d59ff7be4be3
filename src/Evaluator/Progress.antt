-- ===== src/Evaluator/Progress.antt =====
-- How far the loop of `Evaluate` goes: until every donor or every recipient has done its part.
use traficctl.Prelude.{
  suc, ◌≡◌, refl, ◌⊎◌, inl, inr, List, [], ◌∷◌, map, true, false, arith, sym, ◌∙◌, ap, Bool,
}
use traficctl.Prelude.Int.{ℤ, pos, lt_int, ◌≤ℤ◌, ◌+ℤ◌, +ℤ_parts, pos_part, neg_part, eq_of_parts}
use traficctl.Prelude.Tests.{Bool-cases, if◌then◌else◌}
use traficctl.Prelude.Lists.{All, All₂, All₃}
use traficctl.Prelude.Float.{Float}
use traficctl.Api.Types.{Backend, BackendWeight}
use traficctl.Evaluator.{evaluate, weights_of}
use traficctl.Evaluator.State.{BackendState, Input, build_state, build_states}
use traficctl.Evaluator.Role.{Role, role, unhealthy, healthy}
use traficctl.Evaluator.Shift.{can_give, can_take}
use traficctl.Evaluator.Shift.Relation.{Shifted}
use traficctl.Evaluator.Numbers.{Numbers, build_state-Numbers, current_of}
use traficctl.Evaluator.Outcome.{Exhausted, evaluate-Outcome}
use traficctl.Evaluator.Allocation.{current_of-Aligned, weight_of}
use traficctl.Evaluator.Laws.{IsReady}

-- An unhealthy backend is at its minimum or has given the whole step.
abbrev pub Spent : ℤ → Role → Backend → BackendWeight → BackendWeight → Type 0
Spent step r b w w' = r ≡ unhealthy → (w'.weight ≤ℤ b.min_weight) ⊎ (w.weight ≡ w'.weight +ℤ step)

-- A healthy backend is at its maximum or has taken the whole step.
abbrev pub Filled : ℤ → Role → Backend → BackendWeight → BackendWeight → Type 0
Filled step r b w w' = r ≡ healthy → (b.max_weight ≤ℤ w'.weight) ⊎ (w'.weight ≡ w.weight +ℤ step)

spent_cases :
    (cur cur' min left step : ℤ)
    → cur +ℤ left ≡ cur' +ℤ step
    → pos 0 ≤ℤ left
    → (if lt_int (pos 0) left then lt_int min cur' else false) ≡ false
    → (cur' ≤ℤ min) ⊎ (cur ≡ cur' +ℤ step)
spent_cases cur cur' min left step e h t = elim (Bool-cases (lt_int (pos 0) left)) [
  | inl more ↦ inl (ground (arith, rw more at t))
  | inr nothing ↦
      let zero_left : left ≤ℤ pos 0 = ground arith in
      inr (eq_of_parts _ _ (omega (arith, +ℤ_parts, ap pos_part e, ap neg_part e)))
]

filled_cases :
    (cur cur' max left step : ℤ)
    → cur' +ℤ left ≡ cur +ℤ step
    → pos 0 ≤ℤ left
    → (if lt_int (pos 0) left then lt_int cur' max else false) ≡ false
    → (max ≤ℤ cur') ⊎ (cur' ≡ cur +ℤ step)
filled_cases cur cur' max left step e h t = elim (Bool-cases (lt_int (pos 0) left)) [
  | inl more ↦ inl (ground (arith, rw more at t))
  | inr nothing ↦
      let zero_left : left ≤ℤ pos 0 = ground arith in
      inr (eq_of_parts _ _ (omega (arith, +ℤ_parts, ap pos_part e, ap neg_part e)))
]

module _ {F : Type 0} ⦃fl : Float F⦄ where
  -- Unhealthy backends that can give nothing more, or healthy ones that can take nothing more.
  abbrev pub Done :
      (ℤ → Role → Backend → BackendWeight → BackendWeight → Type 0)
      → Input F
      → List BackendWeight
      → Type 0
  Done P inp =
      All₃ (λ b. P inp.max_step_percent (role (build_state inp b)) b) inp.backends inp.current

  module _ (inp : Input F) (b : Backend) (w : BackendWeight) (s₀ s : BackendState F)
      (n : Numbers inp b s₀) (start : s₀.current ≡ w.weight) (sh : Shifted s₀ s) where
    pub Spent-of :
        (role s₀ ≡ unhealthy → can_give s ≡ false)
        → Spent inp.max_step_percent (role s₀) b w (weight_of s)
    Spent-of h r =
        spent_cases w.weight s.current b.min_weight s.step_budget inp.max_step_percent
          (rw (start, n.step_budget) at (sh.directed.donor r).1) sh.wide.budget_nonneg
          (rw (← n.min, ← sh.fixed.min) (h r))

    Filled-of :
        (role s₀ ≡ healthy → can_take s ≡ false)
        → Filled inp.max_step_percent (role s₀) b w (weight_of s)
    Filled-of h r =
        filled_cases w.weight s.current b.max_weight s.step_budget inp.max_step_percent
          (rw (start, n.step_budget) at (sh.directed.recipient r).1) sh.wide.budget_nonneg
          (rw (← n.max, ← sh.fixed.max) (h r))

  module _ (inp : Input F) where
    -- The relation that the loop leaves, read off place by place.
    Done-from :
        (P : ℤ → Role → Backend → BackendWeight → BackendWeight → Type 0) (r₀ : Role)
        (test : BackendState F → Bool)
        → ((b : Backend) (w : BackendWeight) (s₀ s : BackendState F)
            → Numbers inp b s₀
            → s₀.current ≡ w.weight
            → Shifted s₀ s
            → (role s₀ ≡ r₀ → test s ≡ false)
            → P inp.max_step_percent (role s₀) b w (weight_of s))
        → (bs : List Backend) (ws : List BackendWeight) (out : List (BackendState F))
        → All₂ (λ (b : Backend) (w : BackendWeight). w.name ≡ b.name) bs ws
        → All (λ w. current_of inp w.name ≡ w.weight) ws
        → All₂ Shifted (map (build_state inp) bs) out
        → Exhausted r₀ test (map (build_state inp) bs) out
        → All₃ (λ b. P inp.max_step_percent (role (build_state inp b)) b) bs ws (weights_of out)
    unfolding weights_of
    Done-from P r₀ test one [] [] [] names cur sh ex = tt
    Done-from P r₀ test one (b ∷ bs) (w ∷ ws) (s ∷ out) (e, names) (c, cur) (h, sh) ex =
        let n = build_state-Numbers inp b in
        let start = n.current ∙ (ap (current_of inp) (sym e) ∙ c) in
        (
          one b w (build_state inp b) s n start h (λ r. ex 0 (build_state inp b) s refl r refl),
          Done-from P r₀ test one bs ws out names cur sh (λ k. ex (suc k)),
        )
    Done-from P r₀ test one [] [] (s ∷ out) names cur sh ex = elim sh [ ]
    Done-from P r₀ test one (b ∷ bs) (w ∷ ws) [] names cur sh ex = elim sh [ ]
    Done-from P r₀ test one [] (w ∷ ws) out names cur sh ex = elim names [ ]
    Done-from P r₀ test one (b ∷ bs) [] out names cur sh ex = elim names [ ]

  -- For an aligned input whose numbers fit, with a step size that is not negative: a decision that
  -- changes the weights goes as far as it can. Every unhealthy backend is at its
  -- minimum or has given the whole step, or every healthy backend is at its maximum or has taken
  -- the whole step.
  pub evaluate_exhausts :
      (inp : Input F)
      → IsReady inp
      → (evaluate inp).changed ≡ true
      → Done Spent inp (evaluate inp).weights ⊎ Done Filled inp (evaluate inp).weights
  unfolding build_states
  evaluate_exhausts inp r ch = elim (evaluate-Outcome inp r.fits) [
    | inl held ↦ let clash : true ≡ false = sym ch ∙ held.unchanged in cc
    | inr moved ↦
        let cur = current_of-Aligned inp r.aligned in
        rw moved.weights (elim moved.exhausted [
          | inl ex ↦ inl (
              Done-from inp Spent unhealthy can_give (Spent-of inp) inp.backends inp.current
                moved.out r.aligned.names cur moved.shifted ex)
          | inr ex ↦ inr (
              Done-from inp Filled healthy can_take (Filled-of inp) inp.backends inp.current
                moved.out r.aligned.names cur moved.shifted ex)
        ])
  ]
