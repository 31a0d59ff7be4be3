-- ===== src/Controller/Reconcile/Branches.antt =====
-- What each branch of `Reconcile` leaves in the status, answers and counts.
use mathlib.Core.List.{append_assoc}
use traficctl.Prelude.{
  ◌⊎◌, inl, inr, ◌≡◌, refl, ◌∙◌, ap, [], ◌∷◌, ◌++◌, none, some, Bool, true, false, not,
}
use traficctl.Prelude.Tests.{if◌then◌else◌, Option-cases, Bool-cases}
use traficctl.Prelude.Float.{Float}
use traficctl.Api.Types.{TrafficPolicy, Phase, frozen, degraded, true_status, false_status}
use traficctl.Controller.Env.{
  Env, World, Readings, Outcome, emit, put_condition, set_ready, patch_status_if_changed,
}
use traficctl.Controller.Journal.{
  Journal, FreezeCause, warning, inc_freezes, invalid_cause, paused_cause, all_phases, same_phase,
  set_phases, record_freeze, record_phase,
}
use traficctl.Controller.Spec.{SpecError, spec_error_text, validate_spec}
use traficctl.Controller.Sampling.Laws.{SameObject}
use traficctl.Controller.Endings.{
  patch_and_return, reject_spec, hold_paused, with_generation, with_phase,
}
use traficctl.Controller.Reconcile.{reconcile_policy}

if_not : {A : Type 0} (b : Bool) (x y : A) → (if not b then x else y) ≡ (if b then y else x)
if_not true x y = refl
if_not false x y = refl

-- A policy that is not evaluated, and one that is.
abbrev pub Halted : TrafficPolicy → Type 0
Halted p =
    ((e : SpecError) × (validate_spec p.spec ≡ some e))
    ⊎ ((validate_spec p.spec ≡ none) × (p.spec.paused ≡ true))

abbrev pub Active : TrafficPolicy → Type 0
Active p = (validate_spec p.spec ≡ none) × (p.spec.paused ≡ false)

pub branch_of : (p : TrafficPolicy) → Halted p ⊎ Active p
branch_of p = elim (Option-cases (validate_spec p.spec)) [
  | inr invalid ↦ inl (inl invalid)
  | inl valid ↦ elim (Bool-cases p.spec.paused) [
    | inl paused ↦ inl (inr (valid, paused))
    | inr active ↦ inr (valid, active)
  ]
]

module _ {W F : Type 0} ⦃fl : Float F⦄ (env : Env W F) where
  -- A status for the same object with the same weights, for the generation that was read.
  pub record Holds (p d : TrafficPolicy) (goal : Phase) : Type 0 where
    pub object : SameObject env p d
    pub weights : d.status.weights ≡ p.status.weights
    pub changed_at : d.status.last_weight_change_time ≡ p.status.last_weight_change_time
    pub phase : d.status.phase ≡ goal
    pub generation : d.status.observed_generation ≡ p.generation

  -- A call that patches the status `d` and nothing else, counts one freeze and sets the phase
  -- gauges, after the entries `j` of the journal.
  abbrev pub frozen_call :
      TrafficPolicy
      → TrafficPolicy
      → Phase
      → FreezeCause
      → Journal F
      → World W F
      → World W F × Outcome
  frozen_call p d phase cause j w =
      let patched = patch_status_if_changed env w.cluster d p in
      (
        record w {
          cluster = patched.0;
          journal =
              j
              ++ (inc_freezes p.namespace p.name cause
                  ∷ set_phases p.namespace p.name phase all_phases);
        },
        record { requeue_after = none; error = patched.1 },
      )

  freeze_path :
      (p d : TrafficPolicy) (phase : Phase) (cause : FreezeCause) (told j : Journal F)
      → told ≡ j
      → (w : World W F)
      → patch_and_return env none d p (record w {
        journal =
            record_phase p.namespace p.name phase (record_freeze p.namespace p.name cause told);
      })
        ≡ frozen_call p d phase cause j w
  unfolding patch_and_return record_phase record_freeze
  freeze_path p d phase cause told j e w =
      let patched = patch_status_if_changed env w.cluster d p in
      let gauges = set_phases p.namespace p.name phase all_phases in
      let count = inc_freezes p.namespace p.name cause in
      ap
        (λ (j : Journal F). (
          record w { cluster = patched.0; journal = j },
          record { requeue_after = none; error = patched.1 },
        ))
        (append_assoc told (count ∷ []) gauges ∙ ap (λ (j : Journal F). j ++ (count ∷ gauges)) e)

  to_hold :
      (t : Readings) (p : TrafficPolicy) (w : World W F)
      → validate_spec p.spec ≡ none
      → p.spec.paused ≡ true
      → reconcile_policy env t p w ≡ hold_paused env true p w
  unfolding reconcile_policy
  to_hold t p w valid paused = simp (valid, paused, reconcile_policy) refl

  -- A paused policy with a valid spec keeps its weights: the call patches the status, with the phase Frozen, counts a
  -- freeze and sets the phase gauges. It does not touch the route, and it records no event.
  pub reconcile_policy-paused :
      (t : Readings) (p : TrafficPolicy) (w : World W F)
      → validate_spec p.spec ≡ none
      → p.spec.paused ≡ true
      → (d : TrafficPolicy) × Holds p d frozen
        × (reconcile_policy env t p w ≡ frozen_call p d frozen paused_cause w.journal w)
  unfolding reconcile_policy hold_paused emit set_ready put_condition record_freeze record_phase
      patch_and_return
  reconcile_policy-paused t p w valid paused =
      let d = with_generation (
        with_phase frozen
          (set_ready env true_status "Paused" "Controller is paused; weights are frozen" p)) in
      (
        d,
        record {
          object = record { namespace = refl; name = refl; generation = refl; spec = refl };
          weights = refl;
          changed_at = refl;
          phase = refl;
          generation = refl;
        },
        to_hold t p w valid paused
            ∙ (freeze_path p d frozen paused_cause w.journal w.journal refl w),
      )

  -- A policy whose spec is invalid keeps its weights: the call patches the status, with the phase
  -- Degraded, counts a freeze and sets the phase gauges. It does not touch the route, and it records
  -- one event, unless the phase was Degraded already.
  pub reconcile_policy-invalid :
      (t : Readings) (p : TrafficPolicy) (w : World W F) (e : SpecError)
      → validate_spec p.spec ≡ some e
      → (d : TrafficPolicy) × Holds p d degraded
        × (reconcile_policy env t p w
            ≡ frozen_call p d degraded invalid_cause
                (if same_phase p.status.phase degraded
                  then w.journal
                  else emit env warning "InvalidSpec" (spec_error_text e) w.journal)
                w)
  unfolding reconcile_policy reject_spec set_ready put_condition record_freeze record_phase
      patch_and_return
  reconcile_policy-invalid t p w e h =
      let d =
        with_generation
          (with_phase degraded (set_ready env false_status "InvalidSpec" (spec_error_text e) p)) in
      let alert = emit env warning "InvalidSpec" (spec_error_text e) w.journal in
      (
        d,
        record {
          object = record { namespace = refl; name = refl; generation = refl; spec = refl };
          weights = refl;
          changed_at = refl;
          phase = refl;
          generation = refl;
        },
        rw (h, reconcile_policy)
            (freeze_path p d degraded invalid_cause _ _
              (if_not (same_phase p.status.phase degraded) alert w.journal) w),
      )

  -- What both branches that do not evaluate have in common.
  pub record HaltedCall (p : TrafficPolicy) (c c' : W) : Type 0 where
    pub d : TrafficPolicy
    pub goal : Phase
    pub holds : Holds p d goal
    pub cluster : c' ≡ (patch_status_if_changed env c d p).0

  pub halted_call :
      (t : Readings) (p : TrafficPolicy) (w : World W F)
      → Halted p
      → HaltedCall p w.cluster (reconcile_policy env t p w).0.cluster
  halted_call t p w (inl (e, invalid)) =
      let (d, holds, out) = reconcile_policy-invalid t p w e invalid in
      record {
        d = d;
        goal = degraded;
        holds = holds;
        cluster = ap (λ (o : World W F × Outcome). o.0.cluster) out;
      }
  halted_call t p w (inr (valid, paused)) =
      let (d, holds, out) = reconcile_policy-paused t p w valid paused in
      record {
        d = d;
        goal = frozen;
        holds = holds;
        cluster = ap (λ (o : World W F × Outcome). o.0.cluster) out;
      }
