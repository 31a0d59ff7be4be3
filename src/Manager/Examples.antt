-- ===== src/Manager/Examples.antt =====
-- A host whose steps all succeed, and which counts them.
use traficctl.Prelude.{ℕ, suc, ◌≡◌, ◌↔◌, [], ◌∷◌, none}
use traficctl.Prelude.Results.{ok}
use traficctl.Manager.{default_flags, TlsConfig, manager_options}
use traficctl.Prelude.Int.{ℤ}
use traficctl.Prelude.Whole.{whole}
use traficctl.Metrics.Prometheus.{QueryResponse}
use traficctl.Metrics.TestData.{two_net}
use traficctl.System.Small.{Store, small_kit}
use traficctl.Manager.Process.{Host, main}
use traficctl.Manager.Laws.{configure, guard, manager_options_lem, Ran, main_exit}

abbrev willing : Host ℕ Unit Store ℤ Unit Unit QueryResponse
willing = record {
  new_manager = λ s o. (suc s, ok tt);
  kit = λ m. small_kit (two_net Store);
  set_up = λ s m r smoother. (suc s, none);
  add_healthz = λ s m. (suc s, none);
  add_readyz = λ s m. (suc s, none);
  start = λ s m. (suc s, none);
}

abbrev config : TlsConfig
config = record { next_protos = "h2" ∷ "http/1.1" ∷ [] }

manager_options_example :
    let o = manager_options default_flags in
    ((configure o.webhook.tls_opts config).next_protos ≡ "http/1.1" ∷ [])
    × ((configure o.metrics.tls_opts config).next_protos ≡ "http/1.1" ∷ [])
    × (o.metrics.filter_provider ≡ guard o.metrics.secure_serving)
unfolding default_flags
manager_options_example = manager_options_lem default_flags config

main_exit_example : ((main willing default_flags 0).1 ≡ 0) ↔ Ran willing default_flags 0
main_exit_example = main_exit willing default_flags 0
