-- ===== src/System/Sound.antt =====
-- One call of `Reconcile` with the reconciler of cmd/main.go, on a policy that is stored: what is stored
-- afterwards.
use traficctl.Prelude.{◌≡◌, refl, ◌∙◌, ◌⊎◌, inl, inr, List, [], ◌∷◌, some}
use traficctl.Prelude.Int.{pos}
use traficctl.Prelude.Float.{Float, TruncatesShares}
use traficctl.Api.Types.{TrafficPolicy, BackendWeight, Phase}
use traficctl.Api.Schema.{total_weight}
use traficctl.Evaluator.{evaluate}
use traficctl.Controller.Env.{Env, World, Readings, patch_status_if_changed}
use traficctl.Controller.Sampling.Laws.{SameObject}
use traficctl.Controller.Sampling.Governed.{Governed}
use traficctl.Controller.Reconcile.{start_with, start_policy, reconcile_policy}
use traficctl.Controller.Reconcile.Branches.{Holds, branch_of, halted_call}
use traficctl.Controller.Reconcile.Safety.{
  Written, Paced, same, SameObject-trans, moved, to_advance, reconcile_policy-Safe,
}
use traficctl.Controller.Reconcile.Start.{Admitted, start_policy-Governed}

-- No weights yet, or those of the backends, within bounds and 100 together.
abbrev pub Allocated : TrafficPolicy → Type 0
Allocated p = (p.status.weights ≡ []) ⊎ (Governed p × (total_weight p.status.weights ≡ pos 100))

pub record Sound (p : TrafficPolicy) : Type 0 where
  pub admitted : Admitted p
  pub allocated : Allocated p

module _ {W F : Type 0} ⦃fl : Float F⦄ (env : Env W F) where
  -- The status that a call patches, when `c` and `c'` are the cluster before and after.
  pub record Desired (t : Readings) (p : TrafficPolicy) (c c' : W) : Type 0 where
    pub d : TrafficPolicy
    pub object : SameObject env p d
    pub allocated : Allocated d
    pub paced : (p.status.weights ≡ []) ⊎ Paced env t p d
    pub written : Written env p d c c'

  start_with-object :
      (ws : List BackendWeight) (p : TrafficPolicy) → SameObject env p (start_with env ws p)
  unfolding start_with
  start_with-object [] p = record { namespace = refl; name = refl; generation = refl; spec = refl }
  start_with-object (w ∷ ws) p = same env p

  still :
      (t : Readings) (p d : TrafficPolicy) (phase : Phase) (c c' : W)
      → p.status.weights ≡ []
      → Holds env p d phase
      → c' ≡ (patch_status_if_changed env c d p).0
      → Desired t p c c'
  still t p d phase c c' new h e = record {
    d = d;
    object = h.object;
    allocated = inl (h.weights ∙ new);
    paced = inl new;
    written = inl e;
  }

  first :
      TruncatesShares F
      → (t : Readings) (p : TrafficPolicy) (w : World W F) → env.evaluator ≡ some evaluate
      → Admitted p
      → p.status.weights ≡ []
      → Desired t p w.cluster (reconcile_policy env t p w).0.cluster
  first law t p w h a new = elim (branch_of p) [
    | inl halted ↦
        let k = halted_call env t p w halted in
        still t p k.d k.goal w.cluster _ new k.holds k.cluster
    | inr (valid, active) ↦
        let (g, total) = start_policy-Governed env law p a valid new in
        let same = start_with-object p.status.weights p in
        let s = moved env t p (start_policy env p) w h same g in
        rw (to_advance env t p w valid active) (record {
          d = s.d;
          object = SameObject-trans env p (start_policy env p) s.d same s.object;
          allocated = inr (s.governed, s.total ∙ total);
          paced = inl new;
          written = s.written;
        })
  ]

  pub reconcile_policy-Desired :
      TruncatesShares F
      → (t : Readings) (p : TrafficPolicy) (w : World W F) → env.evaluator ≡ some evaluate
      → Sound p
      → Desired t p w.cluster (reconcile_policy env t p w).0.cluster
  reconcile_policy-Desired law t p w h s = elim s.allocated [
    | inl new ↦ first law t p w h s.admitted new
    | inr (g, total) ↦
        let safe = reconcile_policy-Safe env t p w h g in
        record {
          d = safe.d;
          object = safe.object;
          allocated = inr (safe.governed, safe.total ∙ total);
          paced = inr safe.paced;
          written = safe.written;
        }
  ]
