-- ===== src/Evaluator/Laws.antt =====
-- The contract of `Evaluate`: weight is only moved, within bounds and step size, from unhealthy to
-- healthy backends, as far as it goes.
use traficctl.Prelude.{◌≡◌, refl, inl, inr, List, [], ◌∷◌, map, sym, ◌∙◌, ap, ap₂}
use traficctl.Prelude.Int.{pos, ◌≤ℤ◌, ◌+ℤ◌}
use traficctl.Prelude.Lists.{All, All₂}
use traficctl.Prelude.Float.{Float}
use traficctl.Api.Types.{Backend, BackendWeight}
use traficctl.Api.Schema.{total_weight, Bounded}
use traficctl.Evaluator.{evaluate, weights_of}
use traficctl.Evaluator.State.{BackendState, Input, build_state, build_states}
use traficctl.Evaluator.Shift.Total.{total_current}
use traficctl.Evaluator.Numbers.{InputFits, build_state-Numbers, current_of}
use traficctl.Evaluator.Outcome.{evaluate-Outcome}
use traficctl.Evaluator.Allocation.{Aligned, Steps, Steps-held, Steps-moved, current_of-Aligned}

module _ {F : Type 0} ⦃fl : Float F⦄ where
  -- An aligned input whose numbers fit, with a step size that is not negative.
  pub record IsReady (inp : Input F) : Type 0 where
    pub fits : InputFits inp
    pub aligned : Aligned inp
    pub step : pos 0 ≤ℤ inp.max_step_percent

  -- For an aligned input whose numbers fit, with a step size that is not negative: on every branch,
  -- each backend keeps a bound that held, changes by at most the step size, falls only if it is
  -- unhealthy, rises only if it is healthy, and stays if it has no sample.
  pub evaluate-Steps :
      (inp : Input F) → IsReady inp → Steps inp inp.backends inp.current (evaluate inp).weights
  unfolding build_states
  evaluate-Steps inp r = elim (evaluate-Outcome inp r.fits) [
    | inl held ↦ rw held.weights (Steps-held inp inp.backends inp.current r.step r.aligned.names)
    | inr moved ↦ rw moved.weights (
        Steps-moved inp inp.backends inp.current moved.out r.aligned.names
          (current_of-Aligned inp r.aligned) moved.shifted)
  ]

  Bounded-Steps :
      (inp : Input F) (bs : List Backend) (ws vs : List BackendWeight)
      → Steps inp bs ws vs
      → All₂ Bounded bs ws
      → All₂ Bounded bs vs
  Bounded-Steps inp [] [] [] s h = tt
  Bounded-Steps inp (b ∷ bs) (w ∷ ws) (v ∷ vs) (s, ss) (h, hs) = (
    record {
      name = s.name;
      above_min = s.above_min h.above_min;
      below_max = s.below_max h.below_max;
    },
    Bounded-Steps inp bs ws vs ss hs,
  )
  Bounded-Steps inp [] [] (v ∷ vs) s h = elim s [ ]
  Bounded-Steps inp [] (w ∷ ws) vs s h = elim h [ ]
  Bounded-Steps inp (b ∷ bs) [] vs s h = elim h [ ]
  Bounded-Steps inp (b ∷ bs) (w ∷ ws) [] s h = elim s [ ]

  -- For an aligned input whose numbers fit, with a step size that is not negative: if every current
  -- weight lies within its backend's bounds, so does every decided weight, in the order of the
  -- declared backends.
  pub evaluate-Bounded :
      (inp : Input F)
      → IsReady inp
      → All₂ Bounded inp.backends inp.current
      → All₂ Bounded inp.backends (evaluate inp).weights
  evaluate-Bounded inp r h =
      Bounded-Steps inp inp.backends inp.current (evaluate inp).weights (evaluate-Steps inp r) h

  total-weights_of : (ss : List (BackendState F)) → total_weight (weights_of ss) ≡ total_current ss
  unfolding weights_of
  total-weights_of [] = refl
  total-weights_of (s ∷ ss) = ap (◌+ℤ◌ s.current) (total-weights_of ss)

  total-build :
      (inp : Input F) (bs : List Backend) (ws : List BackendWeight)
      → All₂ (λ (b : Backend) (w : BackendWeight). w.name ≡ b.name) bs ws
      → All (λ w. current_of inp w.name ≡ w.weight) ws
      → total_current (map (build_state inp) bs) ≡ total_weight ws
  total-build inp [] [] names cur = refl
  total-build inp (b ∷ bs) (w ∷ ws) (e, names) (c, cur) =
      let n = build_state-Numbers inp b in
      ap₂ ◌+ℤ◌ (n.current ∙ (ap (current_of inp) (sym e) ∙ c)) (total-build inp bs ws names cur)
  total-build inp [] (w ∷ ws) names cur = elim names [ ]
  total-build inp (b ∷ bs) [] names cur = elim names [ ]

  -- For an aligned input whose numbers fit, with a step size that is not negative: a decision keeps
  -- the total of the weights, on every branch.
  pub evaluate_total :
      (inp : Input F) → IsReady inp → total_weight (evaluate inp).weights ≡ total_weight inp.current
  unfolding build_states
  evaluate_total inp r = elim (evaluate-Outcome inp r.fits) [
    | inl held ↦ ap total_weight held.weights
    | inr moved ↦
        ap total_weight moved.weights
        ∙ (total-weights_of moved.out
            ∙ (moved.total
                ∙ total-build inp inp.backends inp.current r.aligned.names
                    (current_of-Aligned inp r.aligned)))
  ]
