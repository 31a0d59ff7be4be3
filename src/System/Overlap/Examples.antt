-- ===== src/System/Overlap/Examples.antt =====
-- A run in which a policy is frozen between what a call of the reconciler reads and what it writes.
use traficctl.Prelude.{refl, [], some, true}
use traficctl.Prelude.Int.{ℤ}
use traficctl.Prelude.Whole.{whole, whole-TruncatesShares}
use traficctl.Cli.{toggle_read}
use traficctl.Cli.TestData.{printer}
use traficctl.Prelude.Results.{ok}
use traficctl.Controller.Env.{World}
use traficctl.Controller.Reconcile.{reconcile_policy}
use traficctl.Manager.Wiring.{Kit, reconciler}
use traficctl.Metrics.Prometheus.{QueryResponse}
use traficctl.Metrics.TestData.{two_net}
use traficctl.System.Examples.{store, world, clock, prometheus_flags, active, active-Sound}
use traficctl.System.Interleaved.{resting, Run, read, acted, toggled, here, next}
use traficctl.System.Invariant.{AllSound}
use traficctl.System.Overlap.Runs.{Run-AllSound}
use traficctl.System.Small.{Store, read_policy-found}
use traficctl.System.Small.Merging.{merging_kit, merging_cli, merging_Server, merging_Merges}
use traficctl.System.Steps.{in_cluster}

abbrev merging : Kit Store ℤ Unit Unit QueryResponse
merging = merging_kit (two_net Store)

store-AllSound : AllSound merging store
store-AllSound ns name p h =
    let (_, same) = read_policy-found store ns name p h in rw⁻¹ same active-Sound

abbrev frozen : World Store ℤ
frozen = in_cluster (toggle_read merging_cli printer store "shop" "web" true [] (ok active)).0 world

abbrev ended : World Store ℤ
ended = (reconcile_policy (reconciler merging prometheus_flags) clock active frozen).0

frozen_meanwhile : Run merging merging_cli printer prometheus_flags (resting world) (resting ended)
frozen_meanwhile =
    next
      (next (next here (read world "shop" "web" active refl))
        (toggled (record { world = world; in_flight = some active }) "shop" "web" true active []))
      (acted frozen clock active)

Run-AllSound_example : AllSound merging ended.cluster
Run-AllSound_example =
    Run-AllSound merging merging_cli printer prometheus_flags (merging_Server (two_net Store))
      (merging_Merges (two_net Store)) whole-TruncatesShares frozen_meanwhile store-AllSound
