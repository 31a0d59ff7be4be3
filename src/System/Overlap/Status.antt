-- ===== src/System/Overlap/Status.antt =====
-- What `Reconcile` leaves when it writes by a policy that it has read before.
use traficctl.Prelude.{◌≡◌, refl, sym, ◌∙◌, ap, ◌⊎◌, inl, inr, some, String}
use traficctl.Prelude.Float.{Float, TruncatesShares}
use traficctl.Prelude.Tests.{Bool-cases}
use traficctl.Api.Types.{TrafficPolicy, TrafficPolicyStatus}
use traficctl.Api.Schema.{total_weight}
use traficctl.Router.{Fetched, found, apply}
use traficctl.Cli.{PolicyClient}
use traficctl.Cli.Writes.{Output}
use traficctl.Controller.Env.{World, Readings, patch_status_if_changed}
use traficctl.Controller.Reconcile.{reconcile_policy}
use traficctl.Manager.{Flags}
use traficctl.Manager.Wiring.{Kit, reconciler}
use traficctl.System.Server.{Server, with_status, apply-policies}
use traficctl.System.Sound.{Sound, Desired, reconcile_policy-Desired}
use traficctl.System.Invariant.{AllSound}
use traficctl.System.Interleaved.{Merges, SameWeights}
use traficctl.System.Overlap.{Current, found-injective}

module _ {W F X H B O : Type 0} ⦃fl : Float F⦄ (kit : Kit W F X H B) (cli : PolicyClient W)
    (out : Output O) (f : Flags) where
  module _ (server : Server kit cli) (merges : Merges kit cli) where
    -- A status that the reconciler patches suits the policy that is stored by then.
    merged-Sound :
        (t : Readings) (p q : TrafficPolicy) (c c' : W) (s : TrafficPolicyStatus)
        → (r : Desired (reconciler kit f) t p c c') → Sound q
        → SameWeights p q
        → (q.status.weights ≡ p.status.weights → s.weights ≡ r.d.status.weights)
        → Sound (with_status s q)
    merged-Sound t p q c c' s r sound (backends, weights) merge =
        let ws = merge weights in
        let bs = backends ∙ ap (λ (x : _). x.backends) (sym r.object.spec) in
        record {
          admitted = record {
            schema = sound.admitted.schema;
            low_size = sound.admitted.low_size;
            high_size = sound.admitted.high_size;
            step = sound.admitted.step;
          };
          allocated = elim r.allocated [
            | inl new ↦ inl (ws ∙ new)
            | inr (g, total) ↦ inr (
              record {
                schema = sound.admitted.schema;
                distinct = rw bs g.distinct;
                weights = rw (bs, ws) g.weights;
                step = sound.admitted.step;
              },
              ap total_weight ws ∙ total,
            )
          ];
        }

    -- What `patch_status_if_changed` leaves under a key: the same, or the stored policy with another status.
    abbrev Merged : (d p : TrafficPolicy) (before own after : Fetched TrafficPolicy) → Type 0
    Merged d p before own after =
        (after ≡ before)
        ⊎ ((q : TrafficPolicy) × (s : TrafficPolicyStatus) × (before ≡ found q)
            × (own ≡ found q)
            × (after ≡ found (with_status s q))
            × (q.status.weights ≡ p.status.weights → s.weights ≡ d.status.weights))

    patch-Merged :
        (c : W) (d p : TrafficPolicy) (ns name : String)
        → Merged d p
            (kit.get_policy c ns name)
            (kit.get_policy c p.namespace p.name)
            (kit.get_policy (patch_status_if_changed (reconciler kit f) c d p).0 ns name)
    unfolding patch_status_if_changed
    patch-Merged c d p ns name = elim (Bool-cases (kit.same_status p.status d.status)) [
      | inl e ↦ rw e (inl refl)
      | inr e ↦ rw e (merges.status_merged c d p ns name)
    ]

    pub acted-AllSound :
        TruncatesShares F
        → (w : World W F) (t : Readings) (p : TrafficPolicy) → AllSound kit w.cluster
        → Current kit w.cluster (some p)
        → AllSound kit (reconcile_policy (reconciler kit f) t p w).0.cluster
    acted-AllSound law w t p sound cur ns name x e =
        let (sound_p, kept) = cur p refl in
        let r = reconcile_policy-Desired (reconciler kit f) law t p w refl sound_p in
        let applied =
          (apply kit.routes w.cluster p.namespace p.spec.route_name r.d.status.weights).0 in
        let left =
          apply-policies kit cli server w.cluster p.namespace p.spec.route_name
            r.d.status.weights in
        elim r.written [
          | inl at ↦
              settle w.cluster r (λ a b. refl) (patch-Merged w.cluster r.d p ns name) (rw at at e)
          | inr at ↦ settle applied r left (patch-Merged applied r.d p ns name) (rw at at e)
        ]
      where
        settle :
            (c : W)
            → (r : Desired
                (reconciler kit f)
                t
                p
                w.cluster
                (reconcile_policy (reconciler kit f) t p w).0.cluster)
            → ((a b : String) → kit.get_policy c a b ≡ kit.get_policy w.cluster a b)
            → Merged r.d p
                (kit.get_policy c ns name)
                (kit.get_policy c p.namespace p.name)
                (kit.get_policy (patch_status_if_changed (reconciler kit f) c r.d p).0 ns name)
            → kit.get_policy (patch_status_if_changed (reconciler kit f) c r.d p).0 ns name
              ≡ found x
            → Sound x
        settle c r left (inl same) e = sound ns name x (sym (same ∙ left ns name) ∙ e)
        settle c r left (inr (q, s, before, own, after, merge)) e =
            let stored = sym (left ns name) ∙ before in
            let fits = (cur p refl).1 q (sym (left p.namespace p.name) ∙ own) in
            let fresh = merged-Sound t p q w.cluster _ s r (sound ns name q stored) fits merge in
            rw⁻¹ (found-injective (sym after ∙ e)) fresh
