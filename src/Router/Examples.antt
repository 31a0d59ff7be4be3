-- ===== src/Router/Examples.antt =====
-- Runs of `Apply` on a cluster that holds one route.
use traficctl.Prelude.{◌≡◌, ◌≢◌, refl, List, [], ◌∷◌, Option, none, some, String}
use traficctl.Prelude.Int.{ℤ, pos}
use traficctl.Api.Types.{BackendWeight}
use traficctl.Router.{BackendRef, HttpRoute, Fetched, found, absent, RouteClient, apply}
use traficctl.Router.Laws.{goal_route, apply-found}

abbrev ref : String → Option ℤ → BackendRef Unit
ref name weight = record { name = name; weight = weight; others = tt }

abbrev two_refs : HttpRoute Unit
two_refs = record {
  rules = record { backend_refs = ref "a" none ∷ ref "b" (some (pos 20)) ∷ []; others = tt } ∷ [];
  others = tt;
}

abbrev two_weights : List BackendWeight
two_weights = record { name = "a"; weight = pos 80 } ∷ record { name = "b"; weight = pos 20 } ∷ []

-- The world is the one route, if it is there.
abbrev fetch : Option (HttpRoute Unit) → Fetched (HttpRoute Unit)
fetch none = absent
fetch (some r) = found r

abbrev one_route : RouteClient (Option (HttpRoute Unit)) Unit
one_route = record {
  get = λ w ns name. fetch w;
  patch = λ w ns name original changed. (some changed, none);
}

apply-found_example :
    ((goal_route two_weights two_refs).rules ≡ two_refs.rules
      → apply one_route (some two_refs) "shop" "web" two_weights ≡ (some two_refs, none))
    × ((goal_route two_weights two_refs).rules ≢ two_refs.rules
        → apply one_route (some two_refs) "shop" "web" two_weights
          ≡ (some (goal_route two_weights two_refs), none))
apply-found_example = apply-found one_route (some two_refs) "shop" "web" two_weights two_refs refl

abbrev settled : HttpRoute Unit
settled = record {
  rules =
      record { backend_refs = ref "a" (some (pos 80)) ∷ ref "b" (some (pos 20)) ∷ []; others = tt }
      ∷ [];
  others = tt;
}
