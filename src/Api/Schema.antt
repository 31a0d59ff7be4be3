-- ===== src/Api/Schema.antt =====
-- api/v1alpha1/trafficpolicy_types.go: the `+kubebuilder:validation` markers of the weights, which
-- the API server enforces on admission, and the totals that the documentation speaks of.
use traficctl.Prelude.{◌≡◌, List, [], ◌∷◌}
use traficctl.Prelude.Int.{ℤ, pos, ◌+ℤ◌, ◌≤ℤ◌}
use traficctl.Api.Types.{Backend, BackendWeight}

-- `Minimum=0` and `Maximum=100` of both weights.
abbrev pub InSchema : Backend → Type 0
InSchema b =
    (pos 0 ≤ℤ b.min_weight)
    × (b.min_weight ≤ℤ pos 100)
    × (pos 0 ≤ℤ b.max_weight)
    × (b.max_weight ≤ℤ pos 100)

-- The sum of an allocation, as an integer that does not wrap.
abbrev pub total_weight : List BackendWeight → ℤ
total_weight [] = pos 0
total_weight (w ∷ ws) = w.weight +ℤ total_weight ws

-- A weight of the backend, within its declared bounds.
pub record Bounded (b : Backend) (w : BackendWeight) : Type 0 where
  pub name : w.name ≡ b.name
  pub above_min : b.min_weight ≤ℤ w.weight
  pub below_max : w.weight ≤ℤ b.max_weight
