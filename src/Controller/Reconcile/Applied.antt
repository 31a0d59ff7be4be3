-- ===== src/Controller/Reconcile/Applied.antt =====
-- A valid policy that is not paused: what is applied to the route, patched and answered.
use traficctl.Prelude.{ℕ, ◌≡◌, refl, Option, none, some, String}
use traficctl.Prelude.Float.{Float}
use traficctl.Api.Types.{TrafficPolicy, Phase, degraded}
use traficctl.Router.{ApplyError, not_found, client_error}
use traficctl.Controller.Env.{
  Env, World, Readings, Outcome, put_condition, set_ready, patch_status_if_changed,
}
use traficctl.Controller.Strategy.{strategy_cooldown}
use traficctl.Controller.Sampling.{Evaluated}
use traficctl.Controller.Sampling.Laws.{SameObject}
use traficctl.Controller.Endings.{
  patch_and_return, route_missing, route_write_failed, succeed, report,
}
use traficctl.Controller.Reconcile.{apply_evaluated, apply_and_report}

-- The phase that the status gets, by the result of `Apply`.
abbrev pub phase_after : Option ApplyError → (evaluated stored : Phase) → Phase
phase_after none evaluated stored = evaluated
phase_after (some (not_found ns name)) evaluated stored = degraded
phase_after (some (client_error e)) evaluated stored = stored

-- What the call answers, by the result of `Apply` and that of the patch.
abbrev pub answer : Option ApplyError → Option String → ℕ → Outcome
answer none none cooldown = record { requeue_after = some cooldown; error = none }
answer none (some e) cooldown = record { requeue_after = none; error = some e }
answer (some (not_found ns name)) patched cooldown = record {
  requeue_after = some cooldown;
  error = patched;
}
answer (some (client_error e)) patched cooldown = record { requeue_after = none; error = some e }

module _ {W F : Type 0} ⦃fl : Float F⦄ (env : Env W F) where
  -- The route is asked for the weights of `e`, with the result `r`; then the status `d` is patched.
  pub record Reported (original : TrafficPolicy) (e : Evaluated env) (r : W × Option ApplyError)
      (d : TrafficPolicy) (out : World W F × Outcome) : Type 0 where
    pub object : SameObject env e.policy d
    pub weights : d.status.weights ≡ e.policy.status.weights
    pub changed_at : d.status.last_weight_change_time ≡ e.policy.status.last_weight_change_time
    pub phase : d.status.phase ≡ phase_after r.1 e.phase e.policy.status.phase
    pub generation : d.status.observed_generation ≡ d.generation
    pub cluster : out.0.cluster ≡ (patch_status_if_changed env r.0 d original).0
    pub outcome :
        out.1
        ≡ answer r.1
            (patch_status_if_changed env r.0 d original).1
            (strategy_cooldown e.policy.spec.strategy)

  succeed_answer :
      (err : Option String) (cooldown : ℕ)
      → elim err as (λ _. Outcome) [
        | some e ↦ record { requeue_after = none; error = some e }
        | none ↦ record { requeue_after = some cooldown; error = none }
      ]
        ≡ answer none err cooldown
  succeed_answer none cooldown = refl
  succeed_answer (some e) cooldown = refl

  report-Reported :
      (t : Readings) (original : TrafficPolicy) (e : Evaluated env) (r : W × Option ApplyError)
      → (d : TrafficPolicy) × Reported original e r d (report env t original e r)
  unfolding report succeed route_missing route_write_failed set_ready put_condition patch_and_return
  report-Reported t original e (cluster, none) = (
    _,
    record {
      object = record { namespace = refl; name = refl; generation = refl; spec = refl };
      weights = refl;
      changed_at = refl;
      phase = refl;
      generation = refl;
      cluster = refl;
      outcome = succeed_answer _ _;
    },
  )
  report-Reported t original e (cluster, some (not_found ns name)) = (
    _,
    record {
      object = record { namespace = refl; name = refl; generation = refl; spec = refl };
      weights = refl;
      changed_at = refl;
      phase = refl;
      generation = refl;
      cluster = refl;
      outcome = refl;
    },
  )
  report-Reported t original e (cluster, some (client_error message)) = (
    _,
    record {
      object = record { namespace = refl; name = refl; generation = refl; spec = refl };
      weights = refl;
      changed_at = refl;
      phase = refl;
      generation = refl;
      cluster = refl;
      outcome = refl;
    },
  )

  -- On every result of `Apply`: the status that is patched holds the evaluated weights; a missing
  -- route makes it Degraded, any other error leaves the stored phase, success gives the evaluated one.
  -- Success and a missing route ask for a call after the cooldown and return the error of the patch;
  -- any other error is returned itself.
  pub apply_and_report_lem :
      (t : Readings) (original : TrafficPolicy) (e : Evaluated env)
      → (d : TrafficPolicy) × Reported original e
          (apply_evaluated env e)
          d
          (apply_and_report env t original e)
  unfolding apply_and_report
  apply_and_report_lem t original e = report-Reported t original e (apply_evaluated env e)
