-- ===== src/Controller/Reconcile/Safety.antt =====
-- A governed policy stays governed by `Reconcile`.
use traficctl.Prelude.{◌≡◌, refl, sym, ◌∙◌, ap, inl, inr, List, none, some, true, false, ◌⊎◌}
use traficctl.Prelude.Tests.{List-cases}
use traficctl.Prelude.Float.{Float}
use traficctl.Api.Types.{TrafficPolicy, BackendWeight, Phase}
use traficctl.Api.Schema.{total_weight}
use traficctl.Evaluator.{evaluate}
use traficctl.Controller.Env.{Env, World, Readings, patch_status_if_changed}
use traficctl.Controller.Strategy.{cooldown_elapsed}
use traficctl.Controller.Spec.{validate_spec}
use traficctl.Controller.Sampling.{Evaluated, evaluate_metrics}
use traficctl.Controller.Sampling.Laws.{
  SameObject, Fate, evaluate_metrics-Fate, evaluate_metrics-cluster,
}
use traficctl.Controller.Sampling.Governed.{Governed, governed, evaluate_metrics-Governed}
use traficctl.Controller.Reconcile.{
  start_with, start_policy, advance, apply_and_report, reconcile_policy,
}
use traficctl.Controller.Reconcile.Branches.{Holds, branch_of, halted_call}
use traficctl.Controller.Reconcile.Applied.{apply_and_report_lem}

module _ {W F : Type 0} ⦃fl : Float F⦄ (env : Env W F) where
  -- What becomes of the cluster: the status `d` is patched, and before that the route may have been
  -- asked for the weights of `d`.
  abbrev pub Written : TrafficPolicy → TrafficPolicy → W → W → Type 0
  Written p d w w' =
      (w' ≡ (patch_status_if_changed env w d p).0)
      ⊎ (w'
          ≡ (patch_status_if_changed env
              (env.apply_weights w p.namespace p.spec.route_name d.status.weights).0 d p).0)

  -- The weights and the time of their last change stay together, or the cooldown has elapsed.
  abbrev pub Paced : Readings → (q d : TrafficPolicy) → Type 0
  Paced t q d =
      ((d.status.weights ≡ q.status.weights)
        × (d.status.last_weight_change_time ≡ q.status.last_weight_change_time))
      ⊎ ((d.status.last_weight_change_time ≡ some t.at_shift)
          × (cooldown_elapsed t.at_check q.status.last_weight_change_time q.spec.strategy ≡ true))

  -- What a call for `p` leaves, where `q` is the policy with the weights that it starts from: `d` is the
  -- status that is patched.
  pub record Safe (t : Readings) (p q : TrafficPolicy) (w w' : W) : Type 0 where
    pub d : TrafficPolicy
    pub object : SameObject env q d
    pub governed : Governed d
    pub total : total_weight d.status.weights ≡ total_weight q.status.weights
    pub paced : Paced t q d
    pub written : Written p d w w'

  held :
      (t : Readings) (p d : TrafficPolicy) (phase : Phase) (w w' : W)
      → Governed p
      → Holds env p d phase
      → w' ≡ (patch_status_if_changed env w d p).0
      → Safe t p p w w'
  held t p d phase w w' g h e = record {
    d = d;
    object = h.object;
    governed = governed env p d g h.object (rw h.weights g.weights);
    total = ap total_weight h.weights;
    paced = inl (h.weights, h.changed_at);
    written = inl e;
  }

  -- A valid policy has backends, hence weights, and starts with those.
  pub started :
      (p : TrafficPolicy) → validate_spec p.spec ≡ none → Governed p → start_policy env p ≡ p
  unfolding start_with validate_spec
  started p valid g = elim (List-cases p.status.weights) [
    | inr (x, xs, e) ↦ ap (λ (ws : List BackendWeight). start_with env ws p) e
    | inl e ↦ elim (List-cases p.spec.backends) [
      | inr (b, bs, e') ↦ absurd (simp (e, e') at g.weights)
      | inl e' ↦ let clash = simp e' at valid in cc
    ]
  ]

  same_call :
      (c c' : W) (p p' : TrafficPolicy) (ws ws' : List BackendWeight)
      → c' ≡ c
      → SameObject env p p'
      → ws' ≡ ws
      → (env.apply_weights c' p'.namespace p'.spec.route_name ws').0
        ≡ (env.apply_weights c p.namespace p.spec.route_name ws).0
  same_call c c' p p' ws ws' e o f = rw (e, o.namespace, o.spec, f) refl

  pub Fate-object :
      (t : Readings) (p : TrafficPolicy) (e : Evaluated env)
      → Fate env t p e
      → SameObject env p e.policy
  Fate-object t p e (inl k) = k.object
  Fate-object t p e (inr c) = c.object

  pub SameObject-trans :
      (p q d : TrafficPolicy) → SameObject env p q → SameObject env q d → SameObject env p d
  SameObject-trans p q d a b = record {
    namespace = b.namespace ∙ a.namespace;
    name = b.name ∙ a.name;
    generation = b.generation ∙ a.generation;
    spec = b.spec ∙ a.spec;
  }

  Fate-Paced :
      (t : Readings) (q d : TrafficPolicy) (e : Evaluated env)
      → Fate env t q e
      → d.status.weights ≡ e.policy.status.weights
      → d.status.last_weight_change_time ≡ e.policy.status.last_weight_change_time
      → Paced t q d
  Fate-Paced t q d e (inl k) hw hc = inl (hw ∙ k.weights, hc ∙ k.changed_at)
  Fate-Paced t q d e (inr c) hw hc = inr (hc ∙ c.changed_at, c.elapsed)

  -- A call that evaluates, from the policy `q`.
  pub moved :
      (t : Readings) (p q : TrafficPolicy) (w : World W F)
      → env.evaluator ≡ some evaluate
      → SameObject env p q
      → Governed q
      → Safe t p q w.cluster (apply_and_report env t p (evaluate_metrics env t q w)).0.cluster
  moved t p q w h same g =
      let e = evaluate_metrics env t q w in
      let (g', total) = evaluate_metrics-Governed env t q w h g in
      let fate = evaluate_metrics-Fate env t q w in
      let o = Fate-object t q e fate in
      let (d, rep) = apply_and_report_lem env t p e in
      record {
        d = d;
        object = SameObject-trans q e.policy d o rep.object;
        governed = governed env e.policy d g' rep.object (rw rep.weights g'.weights);
        total = ap total_weight rep.weights ∙ total;
        paced = Fate-Paced t q d e fate rep.weights rep.changed_at;
        written = inr (
            rep.cluster
            ∙ ap (λ (c : W). (patch_status_if_changed env c d p).0)
                (same_call w.cluster e.world.cluster p e.policy d.status.weights
                  e.policy.status.weights (evaluate_metrics-cluster env t q w)
                  (SameObject-trans p q e.policy same o) (sym rep.weights)));
      }

  pub same : (p : TrafficPolicy) → SameObject env p p
  same p = record { namespace = refl; name = refl; generation = refl; spec = refl }

  pub to_advance :
      (t : Readings) (p : TrafficPolicy) (w : World W F)
      → validate_spec p.spec ≡ none
      → p.spec.paused ≡ false
      → reconcile_policy env t p w
        ≡ apply_and_report env t p (evaluate_metrics env t (start_policy env p) w)
  unfolding reconcile_policy advance
  to_advance t p w valid active = simp (valid, active, reconcile_policy) refl

  -- Whatever branch it takes, a call for a governed policy, with the threshold evaluator, leaves a
  -- governed status with the same total of the weights to be patched, with weights that differ only if
  -- the cooldown has elapsed, and asks the route for no other weights than that status has.
  pub reconcile_policy-Safe :
      (t : Readings) (p : TrafficPolicy) (w : World W F)
      → env.evaluator ≡ some evaluate
      → Governed p
      → Safe t p p w.cluster (reconcile_policy env t p w).0.cluster
  reconcile_policy-Safe t p w h g = elim (branch_of p) [
    | inl halted ↦
        let k = halted_call env t p w halted in held t p k.d k.goal w.cluster _ g k.holds k.cluster
    | inr (valid, active) ↦
        rw (to_advance t p w valid active, started p valid g) (moved t p p w h (same p) g)
  ]
