-- ===== src/System/Examples.antt =====
-- Runs of the system on a cluster of one policy and its route.
use traficctl.Prelude.{◌+◌, ◌*◌, ◌≤◌, ◌≡◌, refl, inr, [], ◌∷◌, List, none, some, true, false, arith}
use traficctl.Prelude.Int.{ℤ, pos, ◌+ℤ◌}
use traficctl.Prelude.Results.{ok}
use traficctl.Prelude.Whole.{whole, whole-TruncatesShares}
use traficctl.Api.Types.{TrafficPolicy}
use traficctl.Cli.{with_paused, toggle_paused, toggle_read, say_toggled}
use traficctl.Cli.Laws.{regenerated, toggle_paused_idem, freeze-resume}
use traficctl.Controller.Env.{World, Readings}
use traficctl.Cli.TestData.{printer}
use traficctl.Cli.Writes.{line}
use traficctl.Controller.TestData.{policy, two_backends, two-Governed}
use traficctl.Controller.Reconcile.{reconcile}
use traficctl.Controller.Sampling.Governed.{Governed}
use traficctl.Controller.Strategy.{second, strategy_cooldown}
use traficctl.Manager.{Flags, default_flags}
use traficctl.Manager.Wiring.{Kit, reconciler}
use traficctl.Metrics.Prometheus.{QueryResponse}
use traficctl.Metrics.TestData.{two_net}
use traficctl.System.Frozen.{Parked, calls, freeze-Parked}
use traficctl.System.Invariant.{AllSound, Reach-AllSound}
use traficctl.System.Quiet.{weight_shifts_unmetered}
use traficctl.System.Small.{
  Store, small_kit, small_cli, small_Server, small_Keeps, tool_reads, read_policy-found,
}
use traficctl.System.Sound.{Sound}
use traficctl.System.Spacing.{CaughtUp, Server-CaughtUp, weight_shifts, weight_shifts_bounded}
use traficctl.System.Steps.{Reach, here, next, reconciled, toggled, in_cluster}
use traficctl.Router.{HttpRoute}

abbrev pub two_refs : HttpRoute Unit
two_refs = record {
  rules =
      record {
        backend_refs =
            record { name = "a"; weight = none; others = tt }
            ∷ record { name = "b"; weight = some (pos 50); others = tt }
            ∷ [];
        others = tt;
      }
      ∷ [];
  others = tt;
}

abbrev pub active : TrafficPolicy
active =
    let p = policy two_backends false in
    record p { status = record (p.status) { last_weight_change_time = some 1_000_000_000 } }

abbrev pub store : Store
store = record { policy = active; route = two_refs }

abbrev pub kit : Kit Store ℤ Unit Unit QueryResponse
kit = small_kit (two_net Store)

abbrev pub world : World Store ℤ
world = record { cluster = store; smoother = none; journal = [] }

abbrev pub prometheus_flags : Flags
prometheus_flags = record default_flags { prometheus_address = "http://prometheus:9090" }

abbrev pub clock : Readings
clock = record { at_check = 40_000_000_000; at_shift = 40_000_000_001; at_end = 40_000_000_002 }

active-Governed : Governed active
active-Governed =
    let g = two-Governed false in
    record { schema = g.schema; distinct = g.distinct; weights = g.weights; step = g.step }

frozen_quietly : (toggle_paused small_cli printer store "shop" "web" true []).1.1 ≡ none
unfolding toggle_paused toggle_read say_toggled
frozen_quietly = refl

toggle_paused_idem_example :
    let w' = (toggle_paused small_cli printer store "shop" "web" true []).0 in
    toggle_paused small_cli printer w' "shop" "web" true []
    ≡ (w', line printer "shop/web already paused=true; nothing to do\n" [])
toggle_paused_idem_example =
    toggle_paused_idem small_cli printer (small_Keeps (two_net Store) printer) store "shop" "web"
      true [] [] active refl frozen_quietly

resumed_quietly :
    (toggle_paused small_cli printer
      (toggle_paused small_cli printer store "shop" "web" true []).0
      "shop"
      "web"
      false
      []).1.1
    ≡ none
unfolding toggle_paused toggle_read say_toggled ◌+ℤ◌
resumed_quietly = refl

freeze-resume_example :
    (g : ℤ) × (small_cli.get
        (toggle_paused small_cli printer
          (toggle_paused small_cli printer store "shop" "web" true []).0
          "shop"
          "web"
          false
          []).0
        "shop"
        "web"
      ≡ ok (regenerated g active))
freeze-resume_example =
    freeze-resume small_cli printer (small_Keeps (two_net Store) printer) store "shop" "web" [] []
      active refl refl frozen_quietly resumed_quietly

pub active-Sound : Sound active
unfolding ◌+ℤ◌
active-Sound = record {
  admitted = record {
    schema = omega arith;
    low_size = omega arith;
    high_size = omega arith;
    step = omega arith;
  };
  allocated = inr (active-Governed, refl);
}

store-AllSound : AllSound kit store
store-AllSound ns name p h =
    let (_, same) = read_policy-found store ns name p h in rw⁻¹ same active-Sound

abbrev pub after_freeze : World Store ℤ
after_freeze = in_cluster (toggle_paused small_cli printer store "shop" "web" true []).0 world

-- The policy is frozen, and the reconciler is called.
pub freeze_then_reconcile :
    Reach kit small_cli printer prometheus_flags world
      (reconcile (reconciler kit prometheus_flags) clock "shop" "web" "shop/web" after_freeze).0
freeze_then_reconcile =
    next (next here (toggled world "shop" "web" true []))
      (reconciled after_freeze clock "shop" "web" "shop/web")

Reach-AllSound_example :
    AllSound kit
      (reconcile
        (reconciler kit prometheus_flags)
        clock
        "shop"
        "web"
        "shop/web"
        after_freeze).0.cluster
Reach-AllSound_example =
    Reach-AllSound kit small_cli printer prometheus_flags (small_Server (two_net Store))
      whole-TruncatesShares freeze_then_reconcile store-AllSound

caught_up :
    (ts : List Readings) (w : World Store ℤ)
    → CaughtUp kit prometheus_flags "shop" "web" "shop/web" ts w
caught_up =
    Server-CaughtUp kit prometheus_flags "shop" "web" "shop/web" small_cli
      (small_Server (two_net Store))

weight_shifts_bounded_example :
    1 * second
      + weight_shifts kit prometheus_flags "shop" "web" "shop/web" (clock ∷ clock ∷ []) world
        * strategy_cooldown active.spec.strategy
    ≤ 40_000_000_001
weight_shifts_bounded_example =
    weight_shifts_bounded kit prometheus_flags "shop" "web" "shop/web" (clock ∷ clock ∷ []) world
      active 1 40_000_000_001 (caught_up (clock ∷ clock ∷ []) world) refl active-Governed refl
      (omega arith) (omega arith)

weight_shifts_unmetered_example :
    weight_shifts kit default_flags "shop" "web" "shop/web" (clock ∷ clock ∷ []) world ≡ 0
unfolding default_flags
weight_shifts_unmetered_example =
    weight_shifts_unmetered kit small_cli default_flags (small_Server (two_net Store)) "shop" "web"
      "shop/web" (clock ∷ clock ∷ []) world active refl refl active-Governed

freeze-Parked_example :
    let c = (toggle_paused small_cli printer store "shop" "web" true []).0 in
    Parked kit "shop" "web"
      (with_paused true active)
      c
      (calls kit prometheus_flags "shop" "web" "shop/web"
        (clock ∷ clock ∷ [])
        (in_cluster c world)).cluster
freeze-Parked_example =
    freeze-Parked kit prometheus_flags small_cli printer (small_Keeps (two_net Store) printer)
      (clock ∷ clock ∷ []) "shop" "web" "shop/web" [] world active refl frozen_quietly
      (tool_reads (two_net Store) after_freeze.cluster "shop" "web")
      (caught_up (clock ∷ clock ∷ []) after_freeze)
