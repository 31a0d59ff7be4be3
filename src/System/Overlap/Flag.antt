-- ===== src/System/Overlap/Flag.antt =====
-- What the tool leaves when it writes by a policy that it has read before, and what others leave.
use traficctl.Prelude.{◌≡◌, refl, sym, ◌∙◌, ap, ◌⊎◌, inl, inr, Option, Bool, String}
use traficctl.Prelude.Float.{Float}
use traficctl.Prelude.Results.{ok}
use traficctl.Api.Types.{TrafficPolicy}
use traficctl.Router.{Fetched, found}
use traficctl.Cli.{PolicyClient, with_paused, toggle_read}
use traficctl.Cli.Laws.{regenerated, toggle_read-Toggled}
use traficctl.Cli.Writes.{Output}
use traficctl.Manager.{Flags}
use traficctl.Manager.Wiring.{Kit}
use traficctl.System.Server.{Server}
use traficctl.System.Sound.{Sound}
use traficctl.System.Invariant.{AllSound, toggled-Sound}
use traficctl.System.Interleaved.{Merges, SameWeights, Undisturbed}
use traficctl.System.Overlap.{Current, found-injective}

module _ {W F X H B O : Type 0} ⦃fl : Float F⦄ (kit : Kit W F X H B) (cli : PolicyClient W)
    (out : Output O) (f : Flags) where
  module _ (server : Server kit cli) (merges : Merges kit cli) where
    -- The tool writes nothing, or changes the pause flag of a stored policy.
    abbrev pub Paused : Fetched TrafficPolicy → Fetched TrafficPolicy → Type 0
    Paused before after =
        (after ≡ before)
        ⊎ ((q q' : TrafficPolicy) × (before ≡ found q)
            × (after ≡ found q')
            × SameWeights q q'
            × (Sound q → Sound q'))

    pub toggle-Paused :
        (c : W) (ns name : String) (paused : Bool) (p : TrafficPolicy) (o : O) (a b : String)
        → Paused
            (kit.get_policy c a b)
            (kit.get_policy (toggle_read cli out c ns name paused o (ok p)).0 a b)
    toggle-Paused c ns name paused p o a b =
        elim (toggle_read-Toggled cli out c ns name paused o (ok p)) [
          | inl (already, same) ↦ inl (ap (λ (v : W). kit.get_policy v a b) same)
          | inr (other, sent, told) ↦ rw sent (elim (merges.spec_merged c paused p a b) [
            | inl same ↦ inl same
            | inr (q, before, g, after) ↦ inr (
              q,
              regenerated g (with_paused paused q),
              before,
              after,
              (refl, refl),
              toggled-Sound kit cli out f server g paused q,
            )
          ])
        ]

    pub toggled-Coherent :
        (c c' : W) (pending : Option TrafficPolicy)
        → ((a b : String) → Paused (kit.get_policy c a b) (kit.get_policy c' a b))
        → AllSound kit c
        → Current kit c pending
        → AllSound kit c' × Current kit c' pending
    toggled-Coherent c c' pending change sound cur = (
      λ ns name x e. elim (change ns name) [
        | inl same ↦ sound ns name x (sym same ∙ e)
        | inr (q, q', before, after, kept, keeps) ↦
            rw⁻¹ (found-injective (sym after ∙ e)) (keeps (sound ns name q before))
      ],
      λ p waiting.
          let (sound_p, kept) = cur p waiting in
          (
            sound_p,
            λ x e. elim (change p.namespace p.name) [
              | inl same ↦ kept x (sym same ∙ e)
              | inr (q, q', before, after, (backends, weights), keeps) ↦
                  let (backends', weights') = kept q before in
                  rw⁻¹ (found-injective (sym after ∙ e)) (backends ∙ backends', weights ∙ weights')
            ],
          ),
    )

    pub others-Current :
        (c c' : W) (pending : Option TrafficPolicy)
        → Undisturbed kit cli out f pending c c'
        → Current kit c pending
        → Current kit c' pending
    others-Current c c' pending (_, keep) cur p waiting =
        let (sound_p, kept) = cur p waiting in
        (
          sound_p,
          λ q e.
              let (q', stored, (backends, weights)) = keep p q waiting e in
              let (backends', weights') = kept q' stored in
              (backends ∙ backends', weights ∙ weights'),
        )
