-- ===== src/Controller/Sampling/Laws.antt =====
-- What `evaluateMetrics` may do to a policy.
use traficctl.Prelude.{
  ◌≡◌, ◌≢◌, refl, ◌∙◌, ap, ◌⊎◌, inl, inr, List, [], ◌∷◌, some, true, arith, String,
}
use traficctl.Prelude.Tests.{Bool-cases, Option-cases, List-cases}
use traficctl.Prelude.Results.{Result-cases}
use traficctl.Prelude.Float.{Float}
use traficctl.Api.Types.{TrafficPolicy, stable, progressing, frozen}
use traficctl.Evaluator.{Decision}
use traficctl.Evaluator.State.{Input, Signal}
use traficctl.Controller.Env.{Env, World, Readings, SampleCall, put_condition}
use traficctl.Controller.Strategy.{SignalSpec, backend_names, cooldown_elapsed, signal_specs}
use traficctl.Controller.Sampling.{
  Gathered, stopped, gathered, freeze_on_error, gather, Evaluated, input_of, take_decision,
  decide_weights, evaluate_metrics,
}

module _ {W F : Type 0} ⦃fl : Float F⦄ (env : Env W F) where
  -- The same object: only its status may differ.
  pub record SameObject (p p' : TrafficPolicy) : Type 0 where
    pub namespace : p'.namespace ≡ p.namespace
    pub name : p'.name ≡ p.name
    pub generation : p'.generation ≡ p.generation
    pub spec : p'.spec ≡ p.spec

  -- The weights and the time of their last change are as they were.
  pub record Kept (p : TrafficPolicy) (e : Evaluated env) : Type 0 where
    pub object : SameObject p e.policy
    pub weights : e.policy.status.weights ≡ p.status.weights
    pub changed_at : e.policy.status.last_weight_change_time ≡ p.status.last_weight_change_time
    pub phase : e.phase ≢ progressing

  -- The evaluator changed the weights, after the cooldown.
  pub record Changed (t : Readings) (p : TrafficPolicy) (e : Evaluated env) : Type 0 where
    pub object : SameObject p e.policy
    pub evaluator : Input F → Decision
    pub configured : env.evaluator ≡ some evaluator
    pub inp : Input F
    pub backends : inp.backends ≡ p.spec.backends
    pub current : inp.current ≡ p.status.weights
    pub step : inp.max_step_percent ≡ (input_of env p []).max_step_percent
    pub decided : (evaluator inp).changed ≡ true
    pub weights : e.policy.status.weights ≡ (evaluator inp).weights
    pub changed_at : e.policy.status.last_weight_change_time ≡ some t.at_shift
    pub elapsed :
        cooldown_elapsed t.at_check p.status.last_weight_change_time p.spec.strategy ≡ true
    pub phase : e.phase ≡ progressing

  same : (p : TrafficPolicy) → SameObject p p
  same p = record { namespace = refl; name = refl; generation = refl; spec = refl }

  -- What an error of the source leaves of the policy.
  abbrev Stops : TrafficPolicy → Gathered env → Type 0
  Stops p (stopped w p') = Kept p (record { world = w; policy = p'; phase = frozen })
  Stops p (gathered w signals) = Unit

  freeze-Stops :
      (p : TrafficPolicy) (signal err : String) (w : World W F)
      → Stops p (freeze_on_error env p signal err w)
  unfolding freeze_on_error put_condition
  freeze-Stops p signal err w = record {
    object = record { namespace = refl; name = refl; generation = refl; spec = refl };
    weights = refl;
    changed_at = refl;
    phase = λ e. cc;
  }

  gather-Stops :
      (sample : SampleCall W F) (p : TrafficPolicy) (specs : List (SignalSpec F))
      (signals : List (Signal F)) (w : World W F)
      → Stops p (gather env sample p specs signals w)
  unfolding gather
  gather-Stops sample p [] signals w = tt
  gather-Stops sample p (spec ∷ specs) signals w =
      elim (Result-cases (sample w.cluster spec.query (backend_names p.spec.backends))) [
        | inr (e, h) ↦ rw (h, gather) (freeze-Stops p spec.name e w)
        | inl (vs, h) ↦ rw (h, gather) (gather-Stops sample p specs _ _)
      ]

  abbrev pub Fate : Readings → TrafficPolicy → Evaluated env → Type 0
  Fate t p e = Kept p e ⊎ Changed t p e

  kept :
      (t : Readings) (p : TrafficPolicy) (w : World W F)
      → Fate t p (record { world = w; policy = p; phase = stable })
  kept t p w = inl (record { object = same p; weights = refl; changed_at = refl; phase = λ e. cc })

  decide_weights-Fate :
      (evaluator : Input F → Decision) (t : Readings) (p : TrafficPolicy) (g : Gathered env)
      → env.evaluator ≡ some evaluator
      → Stops p g
      → Fate t p (decide_weights env evaluator t p g)
  unfolding decide_weights take_decision put_condition
  decide_weights-Fate evaluator t p (stopped w p') h s = inl s
  decide_weights-Fate evaluator t p (gathered w signals) h s =
      elim (Bool-cases
        (cooldown_elapsed t.at_check p.status.last_weight_change_time p.spec.strategy)) [
          | inl e ↦ elim (Bool-cases (evaluator (input_of env p signals)).changed) [
            | inl c ↦
                rw (e, c, decide_weights, take_decision)
                  (inr (record {
                    object = record {
                      namespace = refl;
                      name = refl;
                      generation = refl;
                      spec = refl;
                    };
                    evaluator = evaluator;
                    configured = h;
                    inp = input_of env p signals;
                    backends = refl;
                    current = refl;
                    step = refl;
                    decided = c;
                    weights = refl;
                    changed_at = refl;
                    elapsed = e;
                    phase = refl;
                  }))
            | inr c ↦
                rw (e, c, decide_weights, take_decision)
                  (inl (record {
                    object = record {
                      namespace = refl;
                      name = refl;
                      generation = refl;
                      spec = refl;
                    };
                    weights = refl;
                    changed_at = refl;
                    phase = λ e. cc;
                  }))
          ]
          | inr e ↦
              rw (e, decide_weights)
                (inl (record {
                  object = record { namespace = refl; name = refl; generation = refl; spec = refl };
                  weights = refl;
                  changed_at = refl;
                  phase = λ e. cc;
                }))
        ]

  -- Every evaluation either keeps the weights and the time of their last change, and then the phase
  -- is not Progressing; or the cooldown has elapsed, the evaluator has changed the weights of this
  -- policy, and the phase is Progressing. Neither touches anything but the status.
  pub evaluate_metrics-Fate :
      (t : Readings) (p : TrafficPolicy) (w : World W F) → Fate t p (evaluate_metrics env t p w)
  unfolding evaluate_metrics
  evaluate_metrics-Fate t p w = elim (List-cases (signal_specs ⦃fl = fl⦄ p.spec)) [
    | inl e ↦ rw (e, evaluate_metrics) (kept t p w)
    | inr (spec, specs, e) ↦ elim (Option-cases env.metric_source) [
      | inl n ↦ rw (e, n, evaluate_metrics) (kept t p w)
      | inr (sample, n) ↦ elim (Option-cases env.evaluator) [
        | inl m ↦ rw (e, n, m, evaluate_metrics) (kept t p w)
        | inr (evaluator, m) ↦
            rw (e, n, m, evaluate_metrics)
              (decide_weights-Fate evaluator t p _ m (gather-Stops sample p (spec ∷ specs) [] w))
      ]
    ]
  ]

  abbrev world_of : Gathered env → World W F
  world_of (stopped w p) = w
  world_of (gathered w signals) = w

  gather-cluster :
      (sample : SampleCall W F) (p : TrafficPolicy) (specs : List (SignalSpec F))
      (signals : List (Signal F)) (w : World W F)
      → (world_of (gather env sample p specs signals w)).cluster ≡ w.cluster
  unfolding gather freeze_on_error
  gather-cluster sample p [] signals w = refl
  gather-cluster sample p (spec ∷ specs) signals w =
      elim (Result-cases (sample w.cluster spec.query (backend_names p.spec.backends))) [
        | inr (e, h) ↦ rw (h, gather) refl
        | inl (vs, h) ↦ rw (h, gather) (gather-cluster sample p specs _ _)
      ]

  decide_weights-world :
      (evaluator : Input F → Decision) (t : Readings) (p : TrafficPolicy) (g : Gathered env)
      → (decide_weights env evaluator t p g).world ≡ world_of g
  unfolding decide_weights take_decision
  decide_weights-world evaluator t p (stopped w p') = refl
  decide_weights-world evaluator t p (gathered w signals) = ground arith

  -- An evaluation reads the cluster and changes nothing in it.
  pub evaluate_metrics-cluster :
      (t : Readings) (p : TrafficPolicy) (w : World W F)
      → (evaluate_metrics env t p w).world.cluster ≡ w.cluster
  unfolding evaluate_metrics
  evaluate_metrics-cluster t p w = elim (List-cases (signal_specs ⦃fl = fl⦄ p.spec)) [
    | inl e ↦ rw (e, evaluate_metrics) refl
    | inr (spec, specs, e) ↦ elim (Option-cases env.metric_source) [
      | inl n ↦ rw (e, n, evaluate_metrics) refl
      | inr (sample, n) ↦ elim (Option-cases env.evaluator) [
        | inl m ↦ rw (e, n, m, evaluate_metrics) refl
        | inr (evaluator, m) ↦
            rw (e, n, m, evaluate_metrics)
              (ap (λ (v : World W F). v.cluster)
                  (decide_weights-world evaluator t p (gather env sample p (spec ∷ specs) [] w))
                ∙ gather-cluster sample p (spec ∷ specs) [] w)
      ]
    ]
  ]
