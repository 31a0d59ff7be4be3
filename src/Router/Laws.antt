-- ===== src/Router/Laws.antt =====
-- The contract of `Weighter.Apply`.
use traficctl.Prelude.{◌≡◌, ◌≢◌, List, [], none, some, Bool, String, inl, inr}
use traficctl.Prelude.Tests.{Bool-cases}
use traficctl.Api.Types.{BackendWeight}
use traficctl.Api.WeightMap.{weight_map}
use traficctl.Router.{
  HttpRoute, Rule, found, absent, failed, not_found, client_error, RouteClient, set_rules,
  patch_error, apply, write_back,
}
use traficctl.Router.Weights.{target_rules, set_rules-Updates, Updates}

-- The route with the weights that `weights` asks for, and nothing else changed.
unfoldable pub goal_route : {X : Type 0} → List BackendWeight → HttpRoute X → HttpRoute X
goal_route weights route = record route { rules = target_rules (weight_map [] weights) route.rules }

module _ {W X : Type 0} (client : RouteClient W X) where
  module _ (w : W) (ns name : String) (route : HttpRoute X) where
    -- An update of the route's rules, written back.
    written :
        (r : List (Rule X) × Bool) (goal : List (Rule X))
        → Updates r goal route.rules
        → (goal ≡ route.rules → write_back client w ns name route r ≡ (w, none))
          × (goal ≢ route.rules
              → write_back client w ns name route r
                ≡ patch_error client (client.patch w ns name route (record route { rules = goal })))
    unfolding write_back
    written r goal (update, same, other) = elim (Bool-cases r.1) [
      | inl e ↦ (λ h. absurd (other e h), λ _. rw (e, update))
      | inr e ↦ (λ _. rw e, λ h. absurd (h (same e)))
    ]

  -- Where the route exists, `Apply` does nothing if every reference has its weight already, and
  -- else sends one patch, to the route in which every reference that `weights` names has the weight
  -- given there and all else is as it was. A reference is found by its name alone, whatever its kind
  -- and its namespace.
  pub apply-found :
      (w : W) (ns name : String) (weights : List BackendWeight) (route : HttpRoute X)
      → client.get w ns name ≡ found route
      → ((goal_route weights route).rules ≡ route.rules
          → apply client w ns name weights ≡ (w, none))
        × ((goal_route weights route).rules ≢ route.rules
            → apply client w ns name weights
              ≡ patch_error client (client.patch w ns name route (goal_route weights route)))
  unfolding apply goal_route
  apply-found w ns name weights route e =
      let desired = weight_map [] weights in
      let run = set_rules desired route.rules in
      let (quiet, loud) =
        written w ns name route run (target_rules desired route.rules)
          (set_rules-Updates desired route.rules) in
      (λ h. rw (e, apply) (quiet h), λ h. rw (e, apply) (loud h))

  -- Where the route is missing or cannot be read, `Apply` changes nothing and says which it was.
  pub apply-unread :
      (w : W) (ns name : String) (weights : List BackendWeight)
      → (client.get w ns name ≡ absent
          → apply client w ns name weights ≡ (w, some (not_found ns name)))
        × ((e : String)
            → client.get w ns name ≡ failed e
            → apply client w ns name weights ≡ (w, some (client_error e)))
  unfolding apply
  apply-unread w ns name weights = (λ h. rw (h, apply), λ e h. rw (h, apply))
