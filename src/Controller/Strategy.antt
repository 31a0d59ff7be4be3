-- ===== src/Controller/Strategy.antt =====
-- internal/controller/trafficpolicy_controller.go: the small functions of the reconciler that read a
-- spec: `signalSpecs`, `backendNames`, `strategyCooldown`, `cooldownElapsed` and the defaults.
use traficctl.Prelude.{
  ℕ, ◌*◌, ◌-◌, List, [], ◌∷◌, ◌++◌, map, Option, none, some, Bool, true, String,
}
use traficctl.Prelude.Tests.{if◌then◌else◌, leb}
use traficctl.Prelude.Int.{ℤ, pos, le_int, pos_part}
use traficctl.Prelude.Float.{Float}
use traficctl.Api.Types.{
  Backend, LatencyMetric, ErrorRateMetric, MetricSpec, Strategy, TrafficPolicySpec,
}

-- Durations are in nanoseconds.
abbrev pub second : ℕ
second = 1_000_000_000

abbrev pub default_cooldown : ℕ
default_cooldown = 30 * second

abbrev pub default_max_step_percent : ℤ
default_max_step_percent = pos 20

abbrev pub default_moving_average_window : ℤ
default_moving_average_window = pos 3

unfoldable pub strategy_cooldown : Strategy → ℕ
strategy_cooldown s =
    if le_int s.cooldown_seconds (pos 0)
    then default_cooldown
    else pos_part s.cooldown_seconds * second

-- `time.Since(last) >= cooldown` at the time `now`; a clock that has gone back has elapsed nothing.
unfoldable pub cooldown_elapsed : ℕ → Option ℕ → Strategy → Bool
unfolding strategy_cooldown
cooldown_elapsed now none s = true
cooldown_elapsed now (some last) s = leb (strategy_cooldown s) (now - last)

unfoldable pub step_percent : Strategy → ℤ
step_percent s =
    if le_int s.max_step_percent (pos 0) then default_max_step_percent else s.max_step_percent

unfoldable pub smoothing_window : Strategy → ℤ
smoothing_window s =
    if le_int s.moving_average_window (pos 0)
    then default_moving_average_window
    else s.moving_average_window

unfoldable pub backend_names : List Backend → List String
backend_names = map λ b. b.name

pub record SignalSpec (F : Type 0) : Type 0 where
  pub name : String
  pub query : String
  pub threshold : F

module _ {F : Type 0} ⦃fl : Float F⦄ where
  abbrev pub latency_spec : Option LatencyMetric → List (SignalSpec F)
  latency_spec none = []
  latency_spec (some m) =
      record { name = "latency"; query = m.query; threshold = fl.of_int m.threshold_ms } ∷ []

  abbrev pub error_rate_spec : Option ErrorRateMetric → List (SignalSpec F)
  error_rate_spec none = []
  error_rate_spec (some m) =
      record { name = "errorRate"; query = m.query; threshold = fl.of_int m.threshold_percent } ∷ []

  abbrev pub metric_specs : Option MetricSpec → List (SignalSpec F)
  metric_specs none = []
  metric_specs (some m) = latency_spec m.latency ++ error_rate_spec m.error_rate

  unfoldable pub signal_specs : TrafficPolicySpec → List (SignalSpec F)
  signal_specs spec = metric_specs spec.metrics
