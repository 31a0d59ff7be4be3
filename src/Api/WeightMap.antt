-- ===== src/Api/WeightMap.antt =====
-- The `map[string]int32` that `buildStates`, `HTTPRouteWeighter.Apply` and `runStatus` fill from a list of
-- weights.
use text.Mathlib.TextEquality.{eq_iff}
use text.Mathlib.TextPositions.{eq_refl}
use traficctl.Prelude.{◌≡◌, ◌≢◌, refl, List, [], ◌∷◌, some, none, arith, Option, String}
use traficctl.Prelude.Int.{ℤ, pos, IsInt32}
use traficctl.Prelude.Lists.{All, Distinct}
use traficctl.Prelude.Dict.{Dict, lookup, insert, lookup-insert}
use traficctl.Api.Types.{BackendWeight}

-- The map from names to weights that a loop of assignments builds: a later entry of one name
-- replaces an earlier one.
unfoldable pub weight_map : Dict ℤ → List BackendWeight → Dict ℤ
weight_map m [] = m
weight_map m (w ∷ ws) = weight_map (insert w.name w.weight m) ws

-- A read of a Go map gives the zero value for a missing key.
abbrev pub or_zero : Option ℤ → ℤ
or_zero none = pos 0
or_zero (some w) = w

abbrev pub FitsAll : Dict ℤ → Type 0
FitsAll m = (k : String) → IsInt32 (or_zero (lookup k m))

pub weight_map-FitsAll :
    (m : Dict ℤ) (ws : List BackendWeight)
    → All (λ w. IsInt32 w.weight) ws
    → FitsAll m
    → FitsAll (weight_map m ws)
unfolding weight_map
weight_map-FitsAll m [] all h = h
weight_map-FitsAll m (w ∷ ws) (fits, all) h =
    weight_map-FitsAll (insert w.name w.weight m) ws all
      λ k. rw (lookup-insert w.name k w.weight m) (ground (arith, h k))

weight_map_other :
    (k : String) (m : Dict ℤ) (ws : List BackendWeight)
    → All (λ w. w.name ≢ k) ws
    → lookup k (weight_map m ws) ≡ lookup k m
unfolding weight_map
weight_map_other k m [] other = refl
weight_map_other k m (w ∷ ws) (ne, other) =
    rw (weight_map_other k (insert w.name w.weight m) ws other, lookup-insert)
      (ground (arith, eq_iff w.name k))

-- Where no name occurs twice, the map holds every weight under its name.
pub weight_map-Distinct :
    (m : Dict ℤ) (ws : List BackendWeight)
    → Distinct (λ w. w.name) ws
    → All (λ w. lookup w.name (weight_map m ws) ≡ some w.weight) ws
unfolding weight_map
weight_map-Distinct m [] d = tt
weight_map-Distinct m (w ∷ ws) (new, d) = (
  rw (weight_map_other w.name (insert w.name w.weight m) ws new, lookup-insert, eq_refl),
  weight_map-Distinct (insert w.name w.weight m) ws d,
)
