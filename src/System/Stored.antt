-- ===== src/System/Stored.antt =====
-- What is stored of a policy after the reconciler of cmd/main.go has written its status.
use traficctl.Prelude.{◌≡◌, refl, sym, ◌∙◌, inl, inr, String}
use traficctl.Prelude.Float.{Float}
use traficctl.Prelude.Tests.{Bool-cases}
use traficctl.Api.Types.{TrafficPolicy}
use traficctl.Router.{Fetched, found, apply}
use traficctl.Cli.{PolicyClient}
use traficctl.Controller.Env.{patch_status_if_changed}
use traficctl.Controller.Reconcile.Safety.{Written}
use traficctl.Manager.{Flags}
use traficctl.Manager.Wiring.{Kit, reconciler}
use traficctl.System.Server.{Server, Replaced, with_status, apply-policies}

-- A replacement does not leave any reading but the two.
Replaced-trans :
    (p q : TrafficPolicy) (a b c : Fetched TrafficPolicy)
    → b ≡ a
    → Replaced p q b c
    → Replaced p q a c
Replaced-trans p q a b c e (inl h) = inl (h ∙ e)
Replaced-trans p q a b c e (inr (h, h')) = inr (sym e ∙ h, h')

module _ {W F X H B : Type 0} ⦃fl : Float F⦄ (kit : Kit W F X H B) (cli : PolicyClient W)
    (f : Flags) (server : Server kit cli) where
  -- What a patch of the status that follows `c` leaves of a stored policy.
  pub patched :
      (c : W) (d p : TrafficPolicy) (ns name : String)
      → kit.get_policy c p.namespace p.name ≡ found p
      → Replaced p
          (with_status d.status p)
          (kit.get_policy c ns name)
          (kit.get_policy (patch_status_if_changed (reconciler kit f) c d p).0 ns name)
  unfolding patch_status_if_changed
  patched c d p ns name own = elim (Bool-cases (kit.same_status p.status d.status)) [
    | inl e ↦ rw e (inl refl)
    | inr e ↦ rw e (server.status_patched c d p ns name own)
  ]

  pub Written-Replaced :
      (c c' : W) (d p : TrafficPolicy) (ns name : String)
      → kit.get_policy c p.namespace p.name ≡ found p
      → Written (reconciler kit f) p d c c'
      → Replaced p (with_status d.status p) (kit.get_policy c ns name) (kit.get_policy c' ns name)
  Written-Replaced c c' d p ns name own (inl e) = rw e (patched c d p ns name own)
  Written-Replaced c c' d p ns name own (inr e) = rw e (
      Replaced-trans p (with_status d.status p) _ _ _ (left ns name)
        (patched _ d p ns name (left p.namespace p.name ∙ own)))
    where
      left :
          (a b : String)
          → kit.get_policy (apply kit.routes c p.namespace p.spec.route_name d.status.weights).0 a b
            ≡ kit.get_policy c a b
      left = apply-policies kit cli server c p.namespace p.spec.route_name d.status.weights
