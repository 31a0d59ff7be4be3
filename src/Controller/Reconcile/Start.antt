-- ===== src/Controller/Reconcile/Start.antt =====
-- The first weights of a policy.
use traficctl.Prelude.{◌^◌, ◌<◌, ◌≡◌, List, [], none, ap}
use traficctl.Prelude.Int.{pos, IsInt32}
use traficctl.Prelude.Float.{Float, TruncatesShares}
use traficctl.Prelude.Lists.{All}
use traficctl.Prelude.Sort.{sum_by}
use traficctl.Api.Types.{TrafficPolicy, BackendWeight}
use traficctl.Api.Schema.{InSchema, total_weight}
use traficctl.Controller.Env.{Env}
use traficctl.Controller.Initial.Shares.{low}
use traficctl.Controller.Initial.Laws.{high, Fillable, initial_weights_lem}
use traficctl.Controller.Spec.{validate_spec}
use traficctl.Controller.Spec.Valid.{validate_spec_iff, Clean-Distinct, Clean-Sane}
use traficctl.Controller.Sampling.Governed.{Governed}
use traficctl.Controller.Reconcile.{start_with, start_policy}

-- What the API server admits: numbers of the schema, with a sum that does not wrap.
pub record Admitted (p : TrafficPolicy) : Type 0 where
  pub schema : All InSchema p.spec.backends
  pub low_size : sum_by low p.spec.backends < 2 ^ 31
  pub high_size : sum_by high p.spec.backends < 2 ^ 31
  pub step : IsInt32 p.spec.strategy.max_step_percent

module _ {W F : Type 0} ⦃fl : Float F⦄ (env : Env W F) where
  -- Given that the float64 arithmetic truncates shares as IEEE 754 says: an admitted policy with a
  -- valid spec and no weights starts governed, with a total of 100.
  pub start_policy-Governed :
      TruncatesShares F
      → (p : TrafficPolicy) → Admitted p
      → validate_spec p.spec ≡ none
      → p.status.weights ≡ []
      → Governed (start_policy env p) × (total_weight (start_policy env p).status.weights ≡ pos 100)
  unfolding start_with
  start_policy-Governed law p a valid new =
      let bs = p.spec.backends in
      let f = (validate_spec_iff p.spec a.schema a.low_size a.high_size).0 valid in
      let fill : Fillable bs = record {
        sane = Clean-Sane [] bs a.schema f.clean;
        low_sum = f.low_sum;
        high_sum = f.high_sum;
        size = a.high_size;
      } in
      let (bounded, total) = initial_weights_lem law bs fill in
      rw (ap (λ (ws : List BackendWeight). start_with env ws p) new) (
        record {
          schema = a.schema;
          distinct = Clean-Distinct [] bs f.clean;
          weights = bounded;
          step = a.step;
        },
        total,
      )
