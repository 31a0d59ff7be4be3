-- ===== src/System/Silent.antt =====
-- The events of the reconciler of cmd/main.go for a policy whose spec stays invalid.
pub mod Examples
use traficctl.Prelude.{◌≡◌, refl, ◌∙◌, ap, inl, inr, List, [], ◌∷◌, ◌++◌, some, String}
use traficctl.Prelude.Float.{Float}
use traficctl.Api.Types.{TrafficPolicy, TrafficPolicySpec, TrafficPolicyStatus, Phase, degraded}
use traficctl.Router.{found}
use traficctl.Controller.Env.{World, Readings, patch_status_if_changed}
use traficctl.Controller.Journal.{
  Effect, Journal, event, inc_freezes, invalid_cause, set_phases, all_phases, same_phase,
}
use traficctl.Controller.Reconcile.{reconcile, reconcile_policy}
use traficctl.Controller.Reconcile.Branches.{Holds, reconcile_policy-invalid}
use traficctl.Controller.Spec.{SpecError, validate_spec}
use traficctl.Manager.{Flags}
use traficctl.Manager.Wiring.{Kit, reconciler}
use traficctl.System.Frozen.{calls}
use traficctl.System.Server.{Replaced, with_status}
use traficctl.System.Spacing.{CaughtUp}

module _ {F : Type 0} where
  abbrev keep : Effect F → Journal F → Journal F
  keep (event kind reason message) es = event kind reason message ∷ es
  keep _ es = es

  -- The events of a journal, without the metrics.
  abbrev pub events : Journal F → Journal F
  events [] = []
  events (e ∷ es) = keep e (events es)

  events-append : (j k : Journal F) → events k ≡ [] → events (j ++ k) ≡ events j
  events-append [] k h = h
  events-append (e ∷ j) k h = ap (keep e) (events-append j k h)

module _ {F : Type 0} ⦃fl : Float F⦄ where
  no_events :
      (ns name : String) (phase : Phase) (ps : List Phase)
      → events {F = F} (set_phases ns name phase ps) ≡ []
  unfolding set_phases
  no_events ns name phase [] = refl
  no_events ns name phase (p ∷ ps) = no_events ns name phase ps

module _ {W F X H B : Type 0} ⦃fl : Float F⦄ (kit : Kit W F X H B) (f : Flags) where
  -- An invalid policy that is Degraded already: the call records no event, and its status stays
  -- Degraded.
  record Muted (t : Readings) (p : TrafficPolicy) (w : World W F) : Type 0 where
    d : TrafficPolicy
    holds : Holds (reconciler kit f) p d degraded
    cluster :
        (reconcile_policy (reconciler kit f) t p w).0.cluster
        ≡ (patch_status_if_changed (reconciler kit f) w.cluster d p).0
    told : events (reconcile_policy (reconciler kit f) t p w).0.journal ≡ events w.journal

  muted :
      (t : Readings) (p : TrafficPolicy) (w : World W F) (e : SpecError)
      → validate_spec p.spec ≡ some e
      → p.status.phase ≡ degraded
      → Muted t p w
  muted t p w e invalid known =
      let (d, holds, out) = reconcile_policy-invalid (reconciler kit f) t p w e invalid in
      record {
        d = d;
        holds = holds;
        cluster = ap (λ o. o.0.cluster) out;
        told =
            ap (λ o. events o.0.journal) out
            ∙ rw known
                (events-append w.journal _ (no_events p.namespace p.name degraded all_phases));
      }

  -- While the spec of a policy is invalid and the policy is read as Degraded, any number of calls of
  -- the reconciler for it, each of which ends with the cache of its client up to date, record no
  -- event: the one of the transition into Degraded is not repeated.
  pub invalid-silent :
      (ts : List Readings) (ns name key : String) (w : World W F) (p : TrafficPolicy)
      (e : SpecError)
      → CaughtUp kit f ns name key ts w
      → kit.get_policy w.cluster ns name ≡ found p
      → validate_spec p.spec ≡ some e
      → p.status.phase ≡ degraded
      → events (calls kit f ns name key ts w).journal ≡ events w.journal
  unfolding reconcile
  invalid-silent [] ns name key w p e caught stored invalid known = refl
  invalid-silent (t ∷ ts) ns name key w p e (shown, caught) stored invalid known =
      let env = reconciler kit f in
      let m = muted t p w e invalid known in
      let w' = (reconcile env t ns name key w).0 in
      let call : reconcile env t ns name key w ≡ reconcile_policy env t p w =
        rw (stored, reconcile) refl in
      let same : events w'.journal ≡ events w.journal = rw call m.told in
      elim (shown p m.d stored (inl (rw call m.cluster))) [
        | inl still ↦
            invalid-silent ts ns name key w' p e caught (still ∙ stored) invalid known ∙ same
        | inr (_, now) ↦
            invalid-silent ts ns name key w' (with_status m.d.status p) e caught now invalid
              m.holds.phase
            ∙ same
      ]
