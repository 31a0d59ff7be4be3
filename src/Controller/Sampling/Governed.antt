-- ===== src/Controller/Sampling/Governed.antt =====
-- `evaluateMetrics` with `ThresholdEvaluator`: an allocation within bounds stays within bounds.
use mathlib.Core.Option.{some-injective}
use traficctl.Prelude.{◌≡◌, sym, ◌∙◌, ap, inl, inr, some, arith}
use traficctl.Prelude.Int.{pos, IsInt32, ◌≤ℤ◌}
use traficctl.Prelude.Lists.{All, All₂, Distinct}
use traficctl.Prelude.Float.{Float}
use traficctl.Api.Types.{TrafficPolicy, Strategy}
use traficctl.Api.Schema.{InSchema, Bounded, total_weight}
use traficctl.Evaluator.{Decision, evaluate}
use traficctl.Evaluator.State.{Input}
use traficctl.Evaluator.Contained.{Contained, Contained-IsReady}
use traficctl.Evaluator.Laws.{evaluate-Bounded, evaluate_total}
use traficctl.Controller.Env.{Env, World, Readings}
use traficctl.Controller.Strategy.{step_percent}
use traficctl.Controller.Sampling.{evaluate_metrics}
use traficctl.Controller.Sampling.Laws.{SameObject, evaluate_metrics-Fate}

-- A policy whose backends are in the schema, with names of their own, and whose weights are those of
-- its backends, each within its bounds.
pub record Governed (p : TrafficPolicy) : Type 0 where
  pub schema : All InSchema p.spec.backends
  pub distinct : Distinct (λ b. b.name) p.spec.backends
  pub weights : All₂ Bounded p.spec.backends p.status.weights
  pub step : IsInt32 p.spec.strategy.max_step_percent

step_fits :
    (s : Strategy)
    → IsInt32 s.max_step_percent
    → IsInt32 (step_percent s) × (pos 0 ≤ℤ step_percent s)
unfolding step_percent
step_fits s h = ground arith

module _ {W F : Type 0} ⦃fl : Float F⦄ (env : Env W F) where
  contained :
      (p : TrafficPolicy) (inp : Input F)
      → Governed p
      → inp.backends ≡ p.spec.backends
      → inp.current ≡ p.status.weights
      → inp.max_step_percent ≡ step_percent p.spec.strategy
      → Contained inp
  contained p inp g eb ec es =
      let step = step_fits p.spec.strategy g.step in
      record {
        schema = rw eb g.schema;
        distinct = rw eb g.distinct;
        weights = rw (eb, ec) g.weights;
        step = rw es step.0;
        step_nonneg = rw es step.1;
      }

  -- Weights within bounds, on an object with the same spec.
  pub governed :
      (p p' : TrafficPolicy)
      → Governed p
      → SameObject env p p'
      → All₂ Bounded p.spec.backends p'.status.weights
      → Governed p'
  governed p p' g o h = record {
    schema = rw o.spec g.schema;
    distinct = rw o.spec g.distinct;
    weights = rw o.spec h;
    step = rw o.spec g.step;
  }

  -- With the threshold evaluator, an evaluation of a governed policy leaves it governed, with the
  -- same total of the weights, whatever the metric source answers and the smoother holds.
  pub evaluate_metrics-Governed :
      (t : Readings) (p : TrafficPolicy) (w : World W F)
      → env.evaluator ≡ some evaluate
      → Governed p
      → let p' = (evaluate_metrics env t p w).policy in
        Governed p' × (total_weight p'.status.weights ≡ total_weight p.status.weights)
  evaluate_metrics-Governed t p w h g = elim (evaluate_metrics-Fate env t p w) [
    | inl k ↦ (
      governed p (evaluate_metrics env t p w).policy g k.object (rw k.weights g.weights),
      ap total_weight k.weights,
    )
    | inr c ↦
        let r = Contained-IsReady c.inp (contained p c.inp g c.backends c.current c.step) in
        let same : c.evaluator ≡ evaluate = some-injective _ _ (sym c.configured ∙ h) in
        let ws = c.weights ∙ ap (λ (f : Input F → Decision). (f c.inp).weights) same in
        (
          governed p (evaluate_metrics env t p w).policy g c.object (
              rw (ws, ← c.backends)
                (evaluate-Bounded c.inp r (rw (c.backends, c.current) g.weights))),
          ap total_weight ws ∙ (evaluate_total c.inp r ∙ ap total_weight c.current),
        )
  ]
