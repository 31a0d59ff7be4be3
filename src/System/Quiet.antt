-- ===== src/System/Quiet.antt =====
-- Calls of the reconciler of cmd/main.go that move nothing: without an address of Prometheus, and for a
-- policy that the tool of internal/cli has frozen.
use traficctl.Prelude.{◌≡◌, refl, sym, ◌∙◌, ap, inl, inr, List, [], ◌∷◌, none, false, String}
use traficctl.Prelude.Tests.{List-cases}
use traficctl.Prelude.Float.{Float}
use traficctl.Api.Types.{TrafficPolicy, BackendWeight, stable}
use traficctl.Router.{Fetched, found}
use traficctl.Cli.{PolicyClient}
use traficctl.Controller.Env.{Env, World, Readings, patch_status_if_changed}
use traficctl.Controller.Spec.{validate_spec}
use traficctl.Controller.Strategy.{signal_specs}
use traficctl.Controller.Sampling.{Evaluated, evaluate_metrics}
use traficctl.Controller.Sampling.Governed.{Governed}
use traficctl.Controller.Reconcile.{reconcile, reconcile_policy}
use traficctl.Controller.Reconcile.Branches.{branch_of, halted_call}
use traficctl.Controller.Reconcile.Applied.{apply_and_report_lem}
use traficctl.Controller.Reconcile.Safety.{Written, started, to_advance}
use traficctl.Manager.{Flags, metric_source}
use traficctl.Manager.Wiring.{Kit, reconciler, sample_of}
use traficctl.System.Server.{Server, own_key, Replaced, with_status}
use traficctl.System.Stored.{Written-Replaced}
use traficctl.System.Spacing.{same_weights_refl, shift_count, weight_shifts}

-- A policy with the weights of `p` is stored.
pub record Still (p : TrafficPolicy) (after : Fetched TrafficPolicy) : Type 0 where
  pub q : TrafficPolicy
  pub stored : after ≡ found q
  pub spec : q.spec ≡ p.spec
  pub weights : q.status.weights ≡ p.status.weights

pub Replaced-Still :
    (p d : TrafficPolicy) (before after : Fetched TrafficPolicy)
    → before ≡ found p
    → d.status.weights ≡ p.status.weights
    → Replaced p (with_status d.status p) before after
    → Still p after
Replaced-Still p d before after stored same (inl e) = record {
  q = p;
  stored = e ∙ stored;
  spec = refl;
  weights = refl;
}
Replaced-Still p d before after stored same (inr (_, e)) = record {
  q = with_status d.status p;
  stored = e;
  spec = refl;
  weights = same;
}

Still-Governed :
    (p q : TrafficPolicy)
    → Governed p
    → q.spec ≡ p.spec
    → q.status.weights ≡ p.status.weights
    → Governed q
Still-Governed p q g es ew = record {
  schema = rw es g.schema;
  distinct = rw es g.distinct;
  weights = rw (es, ew) g.weights;
  step = rw es g.step;
}

module _ {W F : Type 0} ⦃fl : Float F⦄ (env : Env W F) where
  unsampled :
      (t : Readings) (p : TrafficPolicy) (w : World W F)
      → env.metric_source ≡ none
      → evaluate_metrics env t p w ≡ record { world = w; policy = p; phase = stable }
  unfolding evaluate_metrics
  unsampled t p w h = elim (List-cases (signal_specs ⦃fl = fl⦄ p.spec)) [
    | inl e ↦ rw (e, evaluate_metrics) refl
    | inr (spec, specs, e) ↦ rw (e, h, evaluate_metrics) refl
  ]

  -- A status with the same weights is patched.
  record Untouched (p : TrafficPolicy) (c c' : W) : Type 0 where
    d : TrafficPolicy
    weights : d.status.weights ≡ p.status.weights
    written : Written env p d c c'

  unsampled_call :
      (t : Readings) (p : TrafficPolicy) (w : World W F)
      → env.metric_source ≡ none
      → Governed p
      → validate_spec p.spec ≡ none
      → p.spec.paused ≡ false
      → Untouched p w.cluster (reconcile_policy env t p w).0.cluster
  unsampled_call t p w h g valid active =
      let e : Evaluated env = record { world = w; policy = p; phase = stable } in
      let (d, rep) = apply_and_report_lem env t p e in
      rw (to_advance env t p w valid active, started env p valid g, unsampled t p w h)
        (record {
          d = d;
          weights = rep.weights;
          written = inr (
              rep.cluster
              ∙ ap
                  (λ (ws : List BackendWeight).
                    (patch_status_if_changed env
                      (env.apply_weights w.cluster p.namespace p.spec.route_name ws).0 d p).0)
                  (sym rep.weights));
        })

  reconcile_policy-Untouched :
      (t : Readings) (p : TrafficPolicy) (w : World W F)
      → env.metric_source ≡ none
      → Governed p
      → Untouched p w.cluster (reconcile_policy env t p w).0.cluster
  reconcile_policy-Untouched t p w h g = elim (branch_of p) [
    | inl halted ↦
        let k = halted_call env t p w halted in
        record { d = k.d; weights = k.holds.weights; written = inl k.cluster }
    | inr (valid, active) ↦ unsampled_call t p w h g valid active
  ]

module _ {W F X H B : Type 0} ⦃fl : Float F⦄ (kit : Kit W F X H B) (cli : PolicyClient W)
    (f : Flags) (server : Server kit cli) (ns name key : String) where
  no_source : f.prometheus_address ≡ "" → sample_of kit (metric_source kit.http_client f) ≡ none
  unfolding metric_source
  no_source h = rw h refl

  reconcile-Still :
      (t : Readings) (w : World W F) (p : TrafficPolicy)
      → f.prometheus_address ≡ ""
      → kit.get_policy w.cluster ns name ≡ found p
      → Governed p
      → Still p (kit.get_policy (reconcile (reconciler kit f) t ns name key w).0.cluster ns name)
  unfolding reconcile
  reconcile-Still t w p h stored g =
      let u = reconcile_policy-Untouched (reconciler kit f) t p w (no_source h) g in
      rw (stored, reconcile)
        (Replaced-Still p u.d _ _ stored u.weights (
          Written-Replaced kit cli f server w.cluster _ u.d p ns name
            (own_key kit cli server w.cluster ns name p stored) u.written))

  -- Given an API server that keeps the promises of `Server`: without an address of Prometheus, no
  -- sequence of calls of the reconciler for a stored governed policy ever changes the stored
  -- weights.
  pub weight_shifts_unmetered :
      (ts : List Readings) (w : World W F) (p : TrafficPolicy)
      → f.prometheus_address ≡ ""
      → kit.get_policy w.cluster ns name ≡ found p
      → Governed p
      → weight_shifts kit f ns name key ts w ≡ 0
  weight_shifts_unmetered [] w p h stored g = refl
  weight_shifts_unmetered (t ∷ ts) w p h stored g =
      let w' = (reconcile (reconciler kit f) t ns name key w).0 in
      let s = reconcile-Still t w p h stored g in
      let rest =
        weight_shifts_unmetered ts w' s.q h s.stored (Still-Governed p s.q g s.spec s.weights) in
      let none_counted : shift_count (kit.get_policy w.cluster ns name)
            (kit.get_policy w'.cluster ns name)
          ≡ 0 =
        rw (stored, s.stored, s.weights, same_weights_refl p.status.weights) refl in
      rw (none_counted, rest) refl
