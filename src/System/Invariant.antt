-- ===== src/System/Invariant.antt =====
-- Every policy that is stored has sound weights, after any run of the system.
use traficctl.Prelude.{◌≡◌, refl, sym, ◌∙◌, ap, inl, inr, Option, Bool, String}
use traficctl.Prelude.Int.{ℤ, IsInt32}
use traficctl.Prelude.Float.{Float, TruncatesShares}
use traficctl.Prelude.Results.{Result, ok, fails}
use traficctl.Api.Types.{TrafficPolicy}
use traficctl.Router.{Fetched, found, absent, failed}
use traficctl.Cli.{PolicyClient, with_paused}
use traficctl.Cli.Laws.{regenerated, Toggled, toggle_paused_lem}
use traficctl.Cli.Writes.{Output}
use traficctl.Controller.Env.{World, Readings}
use traficctl.Controller.Reconcile.{reconcile}
use traficctl.Controller.Sampling.Laws.{SameObject}
use traficctl.Controller.Sampling.Governed.{governed}
use traficctl.Api.Schema.{total_weight}
use traficctl.Manager.{Flags}
use traficctl.Manager.Wiring.{Kit, reconciler}
use traficctl.System.Server.{Server, own_key, Replaced, with_status}
use traficctl.System.Sound.{Sound, Desired, reconcile_policy-Desired}
use traficctl.System.Steps.{
  Tolerated, Step, reconciled, toggled, restarted, others, Reach, here, next,
}
use traficctl.System.Stored.{Written-Replaced}

module _ {W F X H B : Type 0} (kit : Kit W F X H B) where
  abbrev pub AllSound : W → Type 0
  AllSound c = (ns name : String) (p : TrafficPolicy) → kit.get_policy c ns name ≡ found p → Sound p

module _ {W F X H B O : Type 0} ⦃fl : Float F⦄ (kit : Kit W F X H B) (cli : PolicyClient W)
    (out : Output O) (f : Flags) where
  Replaced-Sound :
      (p q : TrafficPolicy) (a b : Fetched TrafficPolicy)
      → Replaced p q a b
      → (Sound p → Sound q)
      → ((r : TrafficPolicy) → a ≡ found r → Sound r)
      → (r : TrafficPolicy) → b ≡ found r
      → Sound r
  Replaced-Sound p q a b (inl e) h s r e' = s r (sym e ∙ e')
  Replaced-Sound p q a b (inr (e, e')) h s r e'' =
      let same : q ≡ r = found-injective (sym e' ∙ e'') in rw⁻¹ same (h (s p e))
    where
      found-injective : {x y : TrafficPolicy} → found x ≡ found y → x ≡ y
      found-injective h = cc

  module _ (server : Server kit cli) where
    Desired-Sound :
        (t : Readings) (p : TrafficPolicy) (c c' : W)
        → Sound p
        → (r : Desired (reconciler kit f) t p c c') → Sound (with_status r.d.status p)
    Desired-Sound t p c c' s r = record {
      admitted = record {
        schema = s.admitted.schema;
        low_size = s.admitted.low_size;
        high_size = s.admitted.high_size;
        step = s.admitted.step;
      };
      allocated = elim r.allocated [
        | inl new ↦ inl new
        | inr (g, total) ↦
            inr (governed (reconciler kit f) r.d (with_status r.d.status p) g back g.weights, total)
      ];
    }
      where
        back : SameObject (reconciler kit f) r.d (with_status r.d.status p)
        back = record {
          namespace = sym r.object.namespace;
          name = sym r.object.name;
          generation = sym r.object.generation;
          spec = sym r.object.spec;
        }

    pub toggled-Sound :
        (g : ℤ) (paused : Bool) (p : TrafficPolicy)
        → Sound p
        → Sound (regenerated g (with_paused paused p))
    toggled-Sound g paused p s = record {
      admitted = record {
        schema = s.admitted.schema;
        low_size = s.admitted.low_size;
        high_size = s.admitted.high_size;
        step = s.admitted.step;
      };
      allocated = elim s.allocated [
        | inl new ↦ inl new
        | inr (h, total) ↦ inr (
          record { schema = h.schema; distinct = h.distinct; weights = h.weights; step = h.step },
          total,
        )
      ];
    }

    edited-Sound :
        (p q : TrafficPolicy)
        → Sound p
        → q.spec.backends ≡ p.spec.backends
        → q.status.weights ≡ p.status.weights
        → IsInt32 q.spec.strategy.max_step_percent
        → Sound q
    edited-Sound p q s eb ew fits = record {
      admitted = record {
        schema = rw eb s.admitted.schema;
        low_size = rw eb s.admitted.low_size;
        high_size = rw eb s.admitted.high_size;
        step = fits;
      };
      allocated = elim s.allocated [
        | inl new ↦ inl (ew ∙ new)
        | inr (h, total) ↦ inr (
          record {
            schema = rw eb h.schema;
            distinct = rw eb h.distinct;
            weights = rw (eb, ew) h.weights;
            step = fits;
          },
          ap total_weight ew ∙ total,
        )
      ];
    }

    reconcile-AllSound :
        TruncatesShares F
        → (w : World W F) (t : Readings) (ns name key : String) → AllSound kit w.cluster
        → AllSound kit (reconcile (reconciler kit f) t ns name key w).0.cluster
    unfolding reconcile
    reconcile-AllSound law w t ns name key s = read (kit.get_policy w.cluster ns name) refl
      where
        read :
            (r : Fetched TrafficPolicy)
            → kit.get_policy w.cluster ns name ≡ r
            → AllSound kit (reconcile (reconciler kit f) t ns name key w).0.cluster
        read absent h = rw (h, reconcile) s
        read (failed e) h = rw (h, reconcile) s
        read (found p) h =
            let sound = s ns name p h in
            let r = reconcile_policy-Desired (reconciler kit f) law t p w refl sound in
            rw (h, reconcile)
              (λ a b.
                Replaced-Sound p (with_status r.d.status p) _ _
                  (Written-Replaced kit cli f server w.cluster _ r.d p a b
                    (own_key kit cli server w.cluster ns name p h) r.written)
                  (λ x. Desired-Sound t p w.cluster _ x r) (s a b))

    toggle-AllSound :
        (c c' : W) (ns name : String) (paused : Bool) (r : Result TrafficPolicy)
        (err : Option String)
        → cli.get c ns name ≡ r
        → Toggled cli out ns name paused c r c' err
        → AllSound kit c
        → AllSound kit c'
    toggle-AllSound c c' ns name paused (fails e) err read (same, told) s = rw same s
    toggle-AllSound c c' ns name paused (ok p) err read (inl (already, same)) s = rw same s
    toggle-AllSound c c' ns name paused (ok p) err read (inr (other, sent, told)) s = rw sent λ a b.
        let (g, replaced) =
          server.spec_patched c paused p a b
            (own_key kit cli server c ns name p (server.read_by_both c ns name p read)) in
        Replaced-Sound p (regenerated g (with_paused paused p)) _ _ replaced
          (toggled-Sound g paused p) (s a b)

    pub others-AllSound :
        (c c' : W) → Tolerated kit cli out f c c' → AllSound kit c → AllSound kit c'
    others-AllSound c c' h s ns name q e = elim (h ns name q e) [
      | inl (a, new) ↦ record { admitted = a; allocated = inl new }
      | inr (p, stored, eb, ew, fits) ↦ edited-Sound p q (s ns name p stored) eb ew fits
    ]

    Step-AllSound :
        TruncatesShares F
        → {w v : World W F} → Step kit cli out f w v
        → AllSound kit w.cluster
        → AllSound kit v.cluster
    Step-AllSound law (reconciled w t ns name key) s = reconcile-AllSound law w t ns name key s
    Step-AllSound law (toggled w ns name paused o) s =
        toggle-AllSound w.cluster _ ns name paused (cli.get w.cluster ns name) _ refl
          (toggle_paused_lem cli out w.cluster ns name paused o) s
    Step-AllSound law (restarted w) s = s
    Step-AllSound law (others w c h) s = others-AllSound w.cluster c h s

    -- Given an API server that keeps the promises of `Server`, and float64 arithmetic that
    -- truncates shares as IEEE 754 says: from a cluster whose policies are all sound (what the API
    -- server admits, with no weights, or with one weight for each backend, within its bounds, and a
    -- total of 100), whatever calls of the reconciler and of the tool, restarts, deletions,
    -- creations of admitted policies without weights and edits that keep the backends and the
    -- weights and leave the step in the range of its type happen, in any order and whatever the API
    -- server and the metric source answer, every stored policy is sound.
    pub Reach-AllSound :
        TruncatesShares F
        → {w v : World W F} → Reach kit cli out f w v
        → AllSound kit w.cluster
        → AllSound kit v.cluster
    Reach-AllSound law here s = s
    Reach-AllSound law (next r st) s = Step-AllSound law st (Reach-AllSound law r s)
