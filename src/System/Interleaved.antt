-- ===== src/System/Interleaved.antt =====
-- The steps of the system with each call of `Reconcile` and of the tool in two: what it reads, and, later,
-- what it writes. Between the two, the others take steps.
use traficctl.Prelude.{◌≡◌, ◌⊎◌, [], Option, none, some, Bool, String, List}
use traficctl.Prelude.Float.{Float}
use traficctl.Prelude.Results.{ok}
use traficctl.Api.Types.{TrafficPolicy, TrafficPolicyStatus, BackendWeight}
use traficctl.Router.{found, apply}
use traficctl.Cli.{PolicyClient, toggle_read, with_paused}
use traficctl.Cli.Laws.{regenerated}
use traficctl.Cli.Writes.{Output}
use traficctl.Controller.Env.{World, Readings}
use traficctl.Controller.Reconcile.{reconcile, reconcile_policy}
use traficctl.Manager.{Flags}
use traficctl.Manager.Wiring.{Kit, reconciler, first_smoother}
use traficctl.System.Server.{with_status}
use traficctl.System.Steps.{Tolerated, in_cluster}

-- One object, with the same backends and weights.
abbrev pub SameWeights : TrafficPolicy → TrafficPolicy → Type 0
SameWeights p q = (q.spec.backends ≡ p.spec.backends) × (q.status.weights ≡ p.status.weights)

module _ {W F X H B : Type 0} (kit : Kit W F X H B) (cli : PolicyClient W) where
  -- What the API server makes of a merge patch that was computed against a policy that may have changed
  -- since: it changes the stored one, and of that only the fields that the patch names.
  pub record Merges : Type 0 where
    -- A patch of the status: it sets the weights where `d` and `p` differ in them, so the stored weights
    -- become those of `d` if they were those of `p`.
    pub status_merged :
        (w : W) (d p : TrafficPolicy) (ns name : String)
        → (kit.get_policy (kit.patch_status w d p).0 ns name ≡ kit.get_policy w ns name)
          ⊎ ((q : TrafficPolicy) × (s : TrafficPolicyStatus) × (kit.get_policy w ns name ≡ found q)
              × (kit.get_policy w p.namespace p.name ≡ found q)
              × (kit.get_policy (kit.patch_status w d p).0 ns name ≡ found (with_status s q))
              × (q.status.weights ≡ p.status.weights → s.weights ≡ d.status.weights))
    -- A patch of the pause flag.
    pub spec_merged :
        (w : W) (paused : Bool) (p : TrafficPolicy) (ns name : String)
        → (kit.get_policy (cli.patch w (with_paused paused p) p).0 ns name
            ≡ kit.get_policy w ns name)
          ⊎ ((q : TrafficPolicy) × (kit.get_policy w ns name ≡ found q)
              × (g : _) × (kit.get_policy (cli.patch w (with_paused paused p) p).0 ns name
                  ≡ found (regenerated g (with_paused paused q))))

-- The policy that the call in flight has read: the manager makes one call at a time.
pub record Sys (W F : Type 0) : Type 0 where
  pub world : World W F
  pub in_flight : Option TrafficPolicy

-- No call in flight.
abbrev pub resting : {W F : Type 0} → World W F → Sys W F
resting w = record { world = w; in_flight = none }

module _ {W F X H B O : Type 0} ⦃fl : Float F⦄ (kit : Kit W F X H B) (cli : PolicyClient W)
    (out : Output O) (f : Flags) where
  -- What others may do meanwhile: of the policy in flight they keep the backends and the weights, or they
  -- delete it, and they do not create it anew before the call ends.
  abbrev pub Undisturbed : Option TrafficPolicy → W → W → Type 0
  Undisturbed pending c c' =
      Tolerated kit cli out f c c'
      × ((p q : TrafficPolicy)
          → pending ≡ some p
          → kit.get_policy c' p.namespace p.name ≡ found q
          → (q' : TrafficPolicy) × (kit.get_policy c p.namespace p.name ≡ found q')
            × SameWeights q' q)

  pub data Move : Sys W F → Sys W F → Type 0 where
    -- `Reconcile` reads the policy, and goes on later with what it has read.
    read :
        (w : World W F) (ns name : String) (p : TrafficPolicy)
        → kit.get_policy w.cluster ns name ≡ found p
        → Move (record { world = w; in_flight = none }) (record { world = w; in_flight = some p })
    acted :
        (w : World W F) (t : Readings) (p : TrafficPolicy)
        → Move
            (record { world = w; in_flight = some p })
            (record { world = (reconcile_policy (reconciler kit f) t p w).0; in_flight = none })
    -- It finds none.
    missed :
        (w : World W F) (t : Readings) (ns name key : String)
        → ((p : TrafficPolicy) → ¬ (kit.get_policy w.cluster ns name ≡ found p))
        → Move
            (record { world = w; in_flight = none })
            (record { world = (reconcile (reconciler kit f) t ns name key w).0; in_flight = none })
    -- `freeze` or `resume` goes on with what it read at any time before.
    toggled :
        (s : Sys W F) (ns name : String) (paused : Bool) (p : TrafficPolicy) (o : O)
        → Move s (record s {
          world =
              in_cluster (toggle_read cli out s.world.cluster ns name paused o (ok p)).0 s.world;
        })
    -- The manager ends, before the writes of a call, or after those to the route, and starts again.
    restarted :
        (s : Sys W F)
        → Move s (record {
          world = record (s.world) { smoother = first_smoother kit; journal = [] };
          in_flight = none;
        })
    cut :
        (w : World W F) (p : TrafficPolicy) (ws : List BackendWeight)
        → Move
            (record { world = w; in_flight = some p })
            (record {
              world = record {
                cluster = (apply kit.routes w.cluster p.namespace p.spec.route_name ws).0;
                smoother = first_smoother kit;
                journal = [];
              };
              in_flight = none;
            })
    others :
        (s : Sys W F) (c : W)
        → Undisturbed s.in_flight s.world.cluster c
        → Move s (record s { world = in_cluster c s.world })

  pub data Run (s : Sys W F) : Sys W F → Type 0 where
    here : Run s s
    next : {u v : Sys W F} → Run s u → Move u v → Run s v
