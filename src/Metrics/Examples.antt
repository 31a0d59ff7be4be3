-- ===== src/Metrics/Examples.antt =====
-- Samples of both sources.
use traficctl.Prelude.{◌≡◌, ◌↔◌, refl, List, [], ◌∷◌, none, String}
use traficctl.Prelude.Int.{ℤ, pos}
use traficctl.Prelude.Lists.{All}
use traficctl.Prelude.Tests.{if◌then◌else◌}
use traficctl.Prelude.Dict.{Dict, lookup, insert}
use traficctl.Prelude.Results.{ok}
use traficctl.Metrics.{StaticSource, requested}
use traficctl.Metrics.Prometheus.{
  QueryResponse, sample_prom, collect, read_value, read_vector, read_response,
}
use traficctl.Metrics.Vector.{Readable, latest}
use traficctl.Metrics.Laws.{Answered, sample_prom-ok, sample_prom-lookup}
use traficctl.Metrics.TestData.{two_net, source}

abbrev names : List String
names = "a" ∷ "c" ∷ []

abbrev static : StaticSource ℤ
static = record { values = ("a", pos 7) ∷ ("b", pos 8) ∷ []; err = none }

abbrev sampled : Dict ℤ
sampled = ("a", pos 300) ∷ []

sampled_a : sample_prom (two_net Unit) source tt "p99" names ≡ ok sampled
unfolding sample_prom read_response read_vector collect read_value lookup insert
sampled_a = refl

sample_prom-ok_example : (sample_prom (two_net Unit) source tt "p99" names ≡ ok sampled) ↔ (
    (parsed : QueryResponse) × Answered (two_net Unit) source tt "p99" parsed
    × (collect (two_net Unit) "backend" names parsed.data_part.result [] ≡ ok sampled))
sample_prom-ok_example = sample_prom-ok (two_net Unit) source tt "p99" names sampled

sample_prom-lookup_example :
    (parsed : QueryResponse) × Answered (two_net Unit) source tt "p99" parsed
    × All (Readable (two_net Unit) "backend" names) parsed.data_part.result
    × ((name : String)
        → lookup name sampled ≡ (
            if requested name names
            then latest (two_net Unit) "backend" name parsed.data_part.result
            else none))
sample_prom-lookup_example =
    sample_prom-lookup (two_net Unit) source tt "p99" names sampled sampled_a
