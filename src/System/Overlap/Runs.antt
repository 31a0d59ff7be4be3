-- ===== src/System/Overlap/Runs.antt =====
-- Sound weights after any run in which calls overlap.
use traficctl.Prelude.{◌≡◌, refl, sym, ◌∙◌, String}
use mathlib.Core.Option.{some-injective}
use traficctl.Prelude.Float.{Float, TruncatesShares}
use traficctl.Api.Types.{TrafficPolicy}
use traficctl.Router.{Fetched, found, absent, failed}
use traficctl.Cli.{PolicyClient}
use traficctl.Cli.Writes.{Output}
use traficctl.Controller.Env.{World, Readings}
use traficctl.Controller.Reconcile.{reconcile}
use traficctl.Manager.{Flags}
use traficctl.Manager.Wiring.{Kit, reconciler}
use traficctl.System.Server.{Server, apply-policies, own_key}
use traficctl.System.Invariant.{AllSound, others-AllSound}
use traficctl.System.Interleaved.{
  Merges, Sys, resting, Move, read, acted, missed, toggled, restarted, cut, others, Run, here, next,
}
use traficctl.System.Overlap.{Coherent, found-injective, idle}
use traficctl.System.Overlap.Status.{acted-AllSound}
use traficctl.System.Overlap.Flag.{toggle-Paused, toggled-Coherent, others-Current}

module _ {W F X H B O : Type 0} ⦃fl : Float F⦄ (kit : Kit W F X H B) (cli : PolicyClient W)
    (out : Output O) (f : Flags) where
  module _ (server : Server kit cli) (merges : Merges kit cli) where
    missed-world :
        (w : World W F) (t : Readings) (ns name key : String)
        → ((p : TrafficPolicy) → ¬ (kit.get_policy w.cluster ns name ≡ found p))
        → (reconcile (reconciler kit f) t ns name key w).0.cluster ≡ w.cluster
    unfolding reconcile
    missed-world w t ns name key gone = answer (kit.get_policy w.cluster ns name) refl
      where
        answer :
            (r : Fetched TrafficPolicy)
            → kit.get_policy w.cluster ns name ≡ r
            → (reconcile (reconciler kit f) t ns name key w).0.cluster ≡ w.cluster
        answer absent h = rw (h, reconcile) refl
        answer (failed e) h = rw (h, reconcile) refl
        answer (found p) h = absurd (gone p h)

    Move-Coherent :
        TruncatesShares F
        → {s s' : Sys W F} → Move kit cli out f s s'
        → Coherent kit s
        → Coherent kit s'
    Move-Coherent law (read w ns name p h) c = record {
      sound = c.sound;
      current = λ q e.
          let same = some-injective p q e in
          rw⁻¹ same (
            c.sound ns name p h,
            λ x e'.
                let own = own_key kit cli server w.cluster ns name p h in
                rw⁻¹ (found-injective (sym own ∙ e')) (refl, refl),
          );
    }
    Move-Coherent law (acted w t p) c = record {
      sound = acted-AllSound kit cli out f server merges law w t p c.sound c.current;
      current = idle kit _;
    }
    Move-Coherent law (missed w t ns name key gone) c = record {
      sound = rw (missed-world w t ns name key gone) c.sound;
      current = idle kit _;
    }
    Move-Coherent law (toggled s ns name paused p o) c =
        let (sound, current) =
          toggled-Coherent kit cli out f server merges s.world.cluster _ s.in_flight
            (toggle-Paused kit cli out f server merges s.world.cluster ns name paused p o) c.sound
            c.current in
        record { sound = sound; current = current }
    Move-Coherent law (restarted s) c = record { sound = c.sound; current = idle kit _ }
    Move-Coherent law (cut w p ws) c = record {
      sound = λ ns name x e. c.sound ns name x (
          sym (apply-policies kit cli server w.cluster p.namespace p.spec.route_name ws ns name)
          ∙ e);
      current = idle kit _;
    }
    Move-Coherent law (others s c' h) c = record {
      sound = others-AllSound kit cli out f server s.world.cluster c' h.0 c.sound;
      current =
          others-Current kit cli out f server merges s.world.cluster c' s.in_flight h c.current;
    }

    Run-Coherent :
        TruncatesShares F
        → {s s' : Sys W F} → Run kit cli out f s s'
        → Coherent kit s
        → Coherent kit s'
    Run-Coherent law here c = c
    Run-Coherent law (next r m) c = Move-Coherent law m (Run-Coherent law r c)

    -- Given an API server that keeps the promises of `Server` and of `Merges`, and float64 arithmetic that
    -- truncates shares as IEEE 754 says: from a cluster whose policies are all sound and with no call in
    -- flight, after any sequence of reads of the reconciler, of its later writes, which go by what was
    -- read, of writes of the tool, which go by what it read at any time before, of restarts, a call cut
    -- short after its writes to the route among them, and of what others do, every stored policy is
    -- sound. What others do keeps the backends and the weights and leaves the step in the range of its
    -- type, or deletes a policy, or creates an admitted one without weights, though not under the key of
    -- the policy in flight.
    pub Run-AllSound :
        TruncatesShares F
        → {w : World W F} {s : Sys W F} → Run kit cli out f (resting w) s
        → AllSound kit w.cluster
        → AllSound kit s.world.cluster
    Run-AllSound law run sound =
        (Run-Coherent law run (record { sound = sound; current = idle kit _ })).sound
