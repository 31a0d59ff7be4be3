-- ===== src/Router.antt =====
-- internal/router: `Weighter`, `NotFoundError` and `HTTPRouteWeighter.Apply`. An HTTPRoute is modelled
-- by the names and weights of its backend references; `X` stands for all its other fields, the kind
-- and the namespace of a reference among them. The
-- cluster client is a parameter over a type `W` of worlds.
pub mod Weights
pub mod Laws
pub mod Examples
use Prim.Native.String.{◌++◌ as append}
use traficctl.Prelude.{◌≡◌, List, [], ◌∷◌, Option, none, some, Bool, true, false, ◌||◌, not, String}
use traficctl.Prelude.Tests.{if◌then◌else◌}
use traficctl.Prelude.Int.{ℤ, eq_int}
use traficctl.Prelude.Dict.{Dict, lookup, insert}
use traficctl.Api.Types.{BackendWeight}
use traficctl.Api.WeightMap.{weight_map}

pub record BackendRef (X : Type 0) : Type 0 where
  pub name : String
  pub weight : Option ℤ
  pub others : X

pub record Rule (X : Type 0) : Type 0 where
  pub backend_refs : List (BackendRef X)
  pub others : X

pub record HttpRoute (X : Type 0) : Type 0 where
  pub rules : List (Rule X)
  pub others : X

-- What a read through the client returns.
pub data Fetched (A : Type 0) : Type 0 where
  found : A → Fetched A
  absent : Fetched A
  failed : String → Fetched A

-- `NotFoundError` and any other error of the client.
pub data ApplyError : Type 0 where
  not_found : String → String → ApplyError
  client_error : String → ApplyError

unfoldable pub error_text : ApplyError → String
error_text (not_found ns name) = append "route " (append ns (append "/" (append name " not found")))
error_text (client_error e) = e

-- The two calls of the client: `Get`, and `Patch` with the difference to the original.
pub record RouteClient (W X : Type 0) : Type 0 where
  pub get : W → String → String → Fetched (HttpRoute X)
  pub patch : W → String → String → (original changed : HttpRoute X) → W × Option String

-- `ref.Weight == nil || *ref.Weight != weight`
abbrev pub differs : Option ℤ → ℤ → Bool
differs none w = true
differs (some v) w = not (eq_int v w)

module _ {X : Type 0} where
  unfoldable pub set_ref : Dict ℤ → BackendRef X → BackendRef X × Bool
  set_ref desired ref = elim (lookup ref.name desired) [
    | none ↦ (ref, false)
    | some w ↦ if differs ref.weight w then (record ref { weight = some w }, true) else (ref, false)
  ]

  unfoldable pub set_refs : Dict ℤ → List (BackendRef X) → List (BackendRef X) × Bool
  unfolding set_ref
  set_refs desired [] = ([], false)
  set_refs desired (ref ∷ refs) =
      let (r, c) = set_ref desired ref in let (rs, cs) = set_refs desired refs in (r ∷ rs, c || cs)

  unfoldable pub set_rules : Dict ℤ → List (Rule X) → List (Rule X) × Bool
  unfolding set_refs
  set_rules desired [] = ([], false)
  set_rules desired (rule ∷ rules) =
      let (refs, c) = set_refs desired rule.backend_refs in
      let (rs, cs) = set_rules desired rules in (record rule { backend_refs = refs } ∷ rs, c || cs)

module _ {W X : Type 0} (client : RouteClient W X) where
  abbrev pub patch_error : W × Option String → W × Option ApplyError
  patch_error (w, none) = (w, none)
  patch_error (w, some e) = (w, some (client_error e))

  -- What follows the loops: one patch, if something changed.
  unfoldable pub write_back :
      W → String → String → HttpRoute X → List (Rule X) × Bool → W × Option ApplyError
  write_back w ns name route (rules, changed) =
      if not changed
      then (w, none)
      else patch_error (client.patch w ns name route (record route { rules = rules }))

  unfoldable pub apply : W → String → String → List BackendWeight → W × Option ApplyError
  unfolding set_rules weight_map write_back
  apply w ns name weights = elim (client.get w ns name) [
    | absent ↦ (w, some (not_found ns name))
    | failed e ↦ (w, some (client_error e))
    | found route ↦ write_back w ns name route (set_rules (weight_map [] weights) route.rules)
  ]
