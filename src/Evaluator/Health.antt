-- ===== src/Evaluator/Health.antt =====
-- Which backends `buildStates` finds unhealthy, healthy or without samples, and their scores.
use traficctl.Prelude.{◌≡◌, ◌≢◌, ◌↔◌, refl, inl, inr, List, [], ◌∷◌, true, false, Bool, String}
use traficctl.Prelude.Tests.{text_lt}
use traficctl.Prelude.Float.{Float}
use traficctl.Api.Types.{Backend}
use traficctl.Api.WeightMap.{weight_map}
use traficctl.Evaluator.{better}
use traficctl.Evaluator.State.{BackendState, Signal, Input, initial_state, build_state}
use traficctl.Evaluator.Numbers.{build_state-Numbers}
use traficctl.Evaluator.Role.{role, role_by, missing, unhealthy, healthy}
use traficctl.Evaluator.Readings.{
  NonEmpty, healthy_empty, Reports, Breached, Any, all_samples, all_breaches, fold_score,
}

module _ {F : Type 0} ⦃fl : Float F⦄ where
  role_cases :
      (s : BackendState F)
      → ((role s ≡ unhealthy) ↔ ((s.have_sample ≡ true) × NonEmpty s.breaches))
        × ((role s ≡ missing) ↔ (s.have_sample ≢ true))
  role_cases s = cases s.have_sample s.breaches
    where
      cases :
          (h : Bool) (bs : List String)
          → ((role_by h bs ≡ unhealthy) ↔ ((h ≡ true) × NonEmpty bs))
            × ((role_by h bs ≡ missing) ↔ (h ≢ true))
      cases true [] = ((λ e. cc, λ (_, n). absurd n), (λ e. cc, λ n. absurd (n refl)))
      cases true (b ∷ bs) = ((λ e. (refl, tt), λ _. refl), (λ e. cc, λ n. absurd (n refl)))
      cases false [] = ((λ e. cc, λ (e, _). cc), (λ e. λ h. cc, λ _. refl))
      cases false (b ∷ bs) = ((λ e. cc, λ (e, _). cc), (λ e. λ h. cc, λ _. refl))

  Breached-Reports :
      (k : String) (sigs : List (Signal F)) → Any (Breached k) sigs → Any (Reports k) sigs
  Breached-Reports k (sig ∷ sigs) (inl b) = inl b.reports
  Breached-Reports k (sig ∷ sigs) (inr a) = inr (Breached-Reports k sigs a)
  Breached-Reports k [] a = absurd a

  -- A backend is unhealthy exactly when some signal with a positive threshold has a sample for it
  -- whose ratio to the threshold is above 1, and is without samples exactly when no signal with a
  -- positive threshold has a sample for it.
  pub build_state-role :
      (inp : Input F) (b : Backend)
      → ((role (build_state inp b) ≡ unhealthy) ↔ Any (Breached b.name) inp.signals)
        × ((role (build_state inp b) ≡ missing) ↔ (¬ Any (Reports b.name) inp.signals))
  unfolding build_state initial_state
  build_state-role inp b =
      let start = initial_state inp.max_step_percent (weight_map [] inp.current) b in
      let cases = role_cases (build_state inp b) in
      let samples = all_samples b.name start inp.signals refl in
      let breaches = all_breaches b.name start inp.signals refl in
      (
        (
          λ e. elim (breaches.0 ((cases.0).0 e).1) [ inl n ↦ absurd n | inr a ↦ a ],
          λ a.
              (cases.0).1
                (samples.1 (inr (Breached-Reports b.name inp.signals a)), breaches.1 (inr a)),
        ),
        (
          λ e a. (cases.1).0 e (samples.1 (inr a)),
          λ none_reports.
              (cases.1).1 λ h. elim (samples.0 h) [ inl e ↦ cc | inr a ↦ absurd (none_reports a) ],
        ),
      )

  -- Every healthy backend has score 0, whatever its samples.
  healthy_score :
      (inp : Input F) (b : Backend)
      → role (build_state inp b) ≡ healthy
      → (build_state inp b).score ≡ fl.nought
  unfolding build_state initial_state
  healthy_score inp b e =
      let start = initial_state inp.max_step_percent (weight_map [] inp.current) b in
      (fold_score start inp.signals (healthy_empty _ _ e)).1

  -- If 0 equals itself as a `float64`: of two healthy backends, whatever their samples, the one with
  -- the lesser name comes first among the recipients.
  pub better_by_name :
      (inp : Input F) (a b : Backend)
      → fl.eq fl.nought fl.nought ≡ true
      → role (build_state inp a) ≡ healthy
      → role (build_state inp b) ≡ healthy
      → better (build_state inp a) (build_state inp b) ≡ text_lt a.name b.name
  unfolding better
  better_by_name inp a b law ha hb = rw (
    healthy_score inp a ha,
    healthy_score inp b hb,
    law,
    (build_state-Numbers inp a).name,
    (build_state-Numbers inp b).name,
  )
