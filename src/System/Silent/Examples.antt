-- ===== src/System/Silent/Examples.antt =====
-- Calls for a Degraded policy with an invalid spec, with an event recorder.
use traficctl.Prelude.{◌≡◌, refl, [], ◌∷◌, some, none, false}
use traficctl.Prelude.Int.{ℤ}
use traficctl.Prelude.Whole.{whole}
use traficctl.Api.Types.{TrafficPolicy, degraded}
use traficctl.Controller.Env.{World}
use traficctl.Controller.Journal.{event, warning}
use traficctl.Controller.Spec.{validate_spec, scan, empty_name}
use traficctl.Controller.TestData.{backend, policy}
use traficctl.Manager.Wiring.{Kit}
use traficctl.Metrics.Prometheus.{QueryResponse}
use traficctl.Metrics.TestData.{two_net}
use traficctl.System.Examples.{clock, prometheus_flags, two_refs}
use traficctl.System.Frozen.{calls}
use traficctl.System.Server.{Server}
use traficctl.System.Silent.{events, invalid-silent}
use traficctl.System.Small.{Store, small_kit, small_cli, small_Server}
use traficctl.System.Spacing.{Server-CaughtUp}

abbrev announcing : Kit Store ℤ Unit Unit QueryResponse
announcing = record (small_kit (two_net Store)) {
  event_recorder = some (record { eventf = λ w regarding related kind reason action note. w });
}

announcing-Server : Server announcing small_cli
announcing-Server =
    let s = small_Server (two_net Store) in
    record {
      keyed = s.keyed;
      status_patched = s.status_patched;
      status_accepted = s.status_accepted;
      routes_apart = s.routes_apart;
      policies_apart = s.policies_apart;
      read_by_both = s.read_by_both;
      spec_patched = s.spec_patched;
      same_status_sound = s.same_status_sound;
    }

abbrev rejected : TrafficPolicy
rejected =
    let p = policy (backend "" 0 9 ∷ backend "b" 0 9 ∷ []) false in
    record p { status = record (p.status) { phase = degraded } }

rejected_invalid : validate_spec rejected.spec ≡ some empty_name
unfolding validate_spec scan
rejected_invalid = refl

-- The event of the transition is in the journal.
abbrev announced : World Store ℤ
announced = record {
  cluster = record { policy = rejected; route = two_refs };
  smoother = none;
  journal = event warning "InvalidSpec" "backend name must not be empty" ∷ [];
}

invalid-silent_example :
    events
      (calls announcing prometheus_flags "shop" "web" "shop/web"
        (clock ∷ clock ∷ [])
        announced).journal
    ≡ event warning "InvalidSpec" "backend name must not be empty" ∷ []
invalid-silent_example =
    invalid-silent announcing prometheus_flags (clock ∷ clock ∷ []) "shop" "web" "shop/web"
      announced rejected empty_name
      (Server-CaughtUp announcing prometheus_flags "shop" "web" "shop/web" small_cli
        announcing-Server (clock ∷ clock ∷ []) announced)
      refl rejected_invalid refl
