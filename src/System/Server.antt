-- ===== src/System/Server.antt =====
-- The API server that the reconciler of cmd/main.go and the tool of internal/cli share: what its
-- documentation says of the calls of both clients, reads being made without a cache, and what a call of
-- `Apply` leaves of the policies.
use traficctl.Prelude.{
  ℕ, ◌*◌, ◌/◌, ◌≡◌, refl, ◌∙◌, ap, ap₂, ◌⊎◌, List, [], Option, none, some, Bool, true, false,
  String,
}
use traficctl.Prelude.Int.{ℤ}
use traficctl.Prelude.Results.{ok}
use traficctl.Api.Types.{TrafficPolicy, TrafficPolicyStatus, BackendWeight}
use traficctl.Api.WeightMap.{weight_map}
use traficctl.Router.{
  Fetched, found, absent, failed, HttpRoute, Rule, set_rules, patch_error, write_back, apply,
}
use traficctl.Cli.{PolicyClient, with_paused}
use traficctl.Cli.Laws.{regenerated}
use traficctl.Controller.Strategy.{second}
use traficctl.Manager.Wiring.{Kit}

-- A `metav1.Time` is serialised in whole seconds.
abbrev pub whole_second : ℕ → ℕ
whole_second t = (t / second) * second

abbrev pub serialised : Option ℕ → Option ℕ
serialised none = none
serialised (some t) = some (whole_second t)

-- `p` with the status `s`, as the API server stores it.
abbrev pub with_status : TrafficPolicyStatus → TrafficPolicy → TrafficPolicy
with_status s p = record p {
  status = record s {
    last_evaluation_time = serialised s.last_evaluation_time;
    last_weight_change_time = serialised s.last_weight_change_time;
  };
}

-- What a read gives after a write of an object in place of `p`, given what it gave before: the same,
-- or `q` in place of `p`.
abbrev pub Replaced : (p q : TrafficPolicy) → (before after : Fetched TrafficPolicy) → Type 0
Replaced p q before after = (after ≡ before) ⊎ ((before ≡ found p) × (after ≡ found q))

module _ {W F X H B : Type 0} (kit : Kit W F X H B) (cli : PolicyClient W) where
  pub record Server : Type 0 where
    pub keyed :
        (w : W) (ns name : String) (p : TrafficPolicy)
        → kit.get_policy w ns name ≡ found p
        → (p.namespace ≡ ns) × (p.name ≡ name)
    -- A patch of the status subresource, computed against the stored policy, changes no more than the
    -- status of that one, whatever it answers; one that is accepted changes it.
    pub status_patched :
        (w : W) (d p : TrafficPolicy) (ns name : String)
        → kit.get_policy w p.namespace p.name ≡ found p
        → Replaced p
            (with_status d.status p)
            (kit.get_policy w ns name)
            (kit.get_policy (kit.patch_status w d p).0 ns name)
    pub status_accepted :
        (w : W) (d p : TrafficPolicy) (ns name : String)
        → kit.get_policy w ns name ≡ found p
        → (kit.patch_status w d p).1 ≡ none
        → kit.get_policy (kit.patch_status w d p).0 ns name ≡ found (with_status d.status p)
    -- Routes and policies are different objects.
    pub routes_apart :
        (w : W) (d p : TrafficPolicy) (ns name : String)
        → kit.routes.get (kit.patch_status w d p).0 ns name ≡ kit.routes.get w ns name
    pub policies_apart :
        (w : W) (a b : String) (r r' : HttpRoute X) (ns name : String)
        → kit.get_policy (kit.routes.patch w a b r r').0 ns name ≡ kit.get_policy w ns name
    -- The tool reads what the reconciler reads, and a patch of the pause flag of `p` changes no more
    -- than that flag and the generation.
    pub read_by_both :
        (w : W) (ns name : String) (p : TrafficPolicy)
        → cli.get w ns name ≡ ok p
        → kit.get_policy w ns name ≡ found p
    pub spec_patched :
        (w : W) (paused : Bool) (p : TrafficPolicy) (ns name : String)
        → kit.get_policy w p.namespace p.name ≡ found p
        → (g : ℤ) × Replaced p
            (regenerated g (with_paused paused p))
            (kit.get_policy w ns name)
            (kit.get_policy (cli.patch w (with_paused paused p) p).0 ns name)
    -- Equality of statuses is semantic equality.
    pub same_status_sound : (a b : TrafficPolicyStatus) → kit.same_status a b ≡ true → a ≡ b

  patch_error-world : (r : W × Option String) → (patch_error kit.routes r).0 ≡ r.0
  patch_error-world (w, none) = refl
  patch_error-world (w, some e) = refl

  module _ (server : Server) where
    pub own_key :
        (w : W) (ns name : String) (p : TrafficPolicy)
        → kit.get_policy w ns name ≡ found p
        → kit.get_policy w p.namespace p.name ≡ found p
    own_key w ns name p h =
        let (ns_same, name_same) = server.keyed w ns name p h in
        ap₂ (λ a b. kit.get_policy w a b) ns_same name_same ∙ h

    write_back-policies :
        (w : W) (a b : String) (route : HttpRoute X) (r : List (Rule X) × Bool) (ns name : String)
        → kit.get_policy (write_back kit.routes w a b route r).0 ns name ≡ kit.get_policy w ns name
    unfolding write_back
    write_back-policies w a b route (rules, false) ns name = refl
    write_back-policies w a b route (rules, true) ns name =
        let changed : HttpRoute X = record route { rules = rules } in
        ap (λ (v : W). kit.get_policy v ns name)
          (patch_error-world (kit.routes.patch w a b route changed))
        ∙ server.policies_apart w a b route changed ns name

    -- `Apply` leaves every policy as it is stored.
    pub apply-policies :
        (w : W) (a b : String) (weights : List BackendWeight) (ns name : String)
        → kit.get_policy (apply kit.routes w a b weights).0 ns name ≡ kit.get_policy w ns name
    unfolding apply
    apply-policies w a b weights ns name = read (kit.routes.get w a b) refl
      where
        read :
            (r : Fetched (HttpRoute X))
            → kit.routes.get w a b ≡ r
            → kit.get_policy (apply kit.routes w a b weights).0 ns name ≡ kit.get_policy w ns name
        read absent h = rw (h, apply) refl
        read (failed e) h = rw (h, apply) refl
        read (found route) h =
            rw (h, apply)
              (write_back-policies w a b route (set_rules (weight_map [] weights) route.rules) ns
                name)
