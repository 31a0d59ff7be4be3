-- ===== src/System/Steps.antt =====
-- The steps of the whole system: calls of `Reconcile`, of `freeze` and `resume`, restarts of the manager,
-- and what others do to the policies; in any order.
use traficctl.Prelude.{◌≡◌, ◌⊎◌, [], Bool, String}
use traficctl.Prelude.Int.{IsInt32}
use traficctl.Prelude.Float.{Float}
use traficctl.Api.Types.{TrafficPolicy}
use traficctl.Router.{found}
use traficctl.Cli.{PolicyClient, toggle_paused}
use traficctl.Cli.Writes.{Output}
use traficctl.Controller.Env.{World, Readings}
use traficctl.Controller.Reconcile.{reconcile}
use traficctl.Controller.Reconcile.Start.{Admitted}
use traficctl.Manager.{Flags}
use traficctl.Manager.Wiring.{Kit, reconciler, first_smoother}

abbrev pub in_cluster : {W F : Type 0} → W → World W F → World W F
in_cluster c w = record w { cluster = c }

module _ {W F X H B O : Type 0} ⦃fl : Float F⦄ (kit : Kit W F X H B) (cli : PolicyClient W)
    (out : Output O) (f : Flags) where
  -- What others may do to a policy: delete it, create it without a status, or edit anything of it
  -- but its backends, with a step in the range of its type.
  abbrev pub Tolerated : W → W → Type 0
  Tolerated c c' =
      (ns name : String) (q : TrafficPolicy)
      → kit.get_policy c' ns name ≡ found q
      → (Admitted q × (q.status.weights ≡ []))
        ⊎ ((p : TrafficPolicy) × (kit.get_policy c ns name ≡ found p)
            × (q.spec.backends ≡ p.spec.backends)
            × (q.status.weights ≡ p.status.weights)
            × IsInt32 q.spec.strategy.max_step_percent)

  pub data Step : World W F → World W F → Type 0 where
    reconciled :
        (w : World W F) (t : Readings) (ns name key : String)
        → Step w (reconcile (reconciler kit f) t ns name key w).0
    toggled :
        (w : World W F) (ns name : String) (paused : Bool) (o : O)
        → Step w (in_cluster (toggle_paused cli out w.cluster ns name paused o).0 w)
    restarted : (w : World W F) → Step w (record w { smoother = first_smoother kit; journal = [] })
    others : (w : World W F) (c : W) → Tolerated w.cluster c → Step w (in_cluster c w)

  pub data Reach (w : World W F) : World W F → Type 0 where
    here : Reach w w
    next : {u v : World W F} → Reach w u → Step u v → Reach w v
