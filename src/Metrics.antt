-- ===== src/Metrics.antt =====
-- internal/metrics/source.go: `StaticSource` and the contract of `Source`.
pub mod Prometheus
pub mod Vector
pub mod Static
pub mod Laws
pub mod TestData
pub mod Examples
use text.Mathlib.Text.{◌==◌}
use traficctl.Prelude.{◌≡◌, List, [], ◌∷◌, Option, none, some, Bool, true, false, String}
use traficctl.Prelude.Tests.{if◌then◌else◌}
use traficctl.Prelude.Dict.{Dict, lookup, insert}
use traficctl.Prelude.Results.{Result, ok, fails}

pub record StaticSource (F : Type 0) : Type 0 where
  pub values : Dict F
  pub err : Option String

-- Whether a text occurs in a list, as a Go map used as a set answers.
abbrev pub requested : String → List String → Bool
requested s [] = false
requested s (t ∷ ts) = if t == s then true else requested s ts

module _ {F : Type 0} where
  -- The loop over the requested backends.
  unfoldable pub pick_values : Dict F → List String → Dict F → Dict F
  pick_values values [] out = out
  pick_values values (b ∷ bs) out = elim (lookup b values) [
    | none ↦ pick_values values bs out
    | some v ↦ pick_values values bs (insert b v out)
  ]

  unfoldable pub sample_static : StaticSource F → List String → Result (Dict F)
  unfolding pick_values
  sample_static s backends = elim s.err [
    | some e ↦ fails e
    | none ↦ ok (pick_values s.values backends [])
  ]
