-- ===== src/Controller/Journal/OneHot.antt =====
-- `recordPhase`: the gauges of a policy's phases are one-hot.
use text.Mathlib.Text.{◌==◌}
use text.Mathlib.TextPositions.{eq_refl}
use traficctl.Prelude.{
  arith, ◌≡◌, ◌∙◌, true, false, ◌≢◌, refl, [], ◌∷◌, ◌++◌, Option, none, some, String, ◌&&◌,
}
use traficctl.Prelude.Tests.{if◌then◌else◌}
use traficctl.Prelude.Float.{Float}
use traficctl.Api.Types.{Phase, unset, pending, stable, progressing, frozen, degraded, phase_text}
use traficctl.Controller.Journal.{
  Effect, Journal, set_policy_phase, same_phase, set_phases, all_phases, record_phase,
}

same_phase_refl : (p : Phase) → same_phase p p ≡ true
same_phase_refl unset = refl
same_phase_refl pending = refl
same_phase_refl stable = refl
same_phase_refl progressing = refl
same_phase_refl frozen = refl
same_phase_refl degraded = refl

same_phase_ne : (p q : Phase) → p ≢ q → same_phase p q ≡ false
same_phase_ne p q h = ground (arith, h)

module _ {F : Type 0} where
  -- What an entry sets the gauge of a phase to.
  abbrev sets : String → String → Phase → Effect F → Option F
  sets ns name p (set_policy_phase ns' name' q v) =
      if ns' == ns && name' == name && phase_text q == phase_text p then some v else none
  sets ns name p _ = none

  abbrev later : Option F → Option F → Option F
  later none first = first
  later (some v) first = some v

  -- The value of the gauge after the entries: the last one set.
  abbrev pub gauge : String → String → Phase → Journal F → Option F
  gauge ns name p [] = none
  gauge ns name p (e ∷ es) = later (gauge ns name p es) (sets ns name p e)

  gauge-append :
      (ns name : String) (p : Phase) (v : F) (j k : Journal F)
      → gauge ns name p k ≡ some v
      → gauge ns name p (j ++ k) ≡ some v
  gauge-append ns name p v [] k h = h
  gauge-append ns name p v (e ∷ j) k h = rw (gauge-append ns name p v j k h) refl

module _ {F : Type 0} ⦃fl : Float F⦄ where
  gauge-set_phases :
      (ns name : String) (phase p : Phase)
      → p ≢ unset
      → gauge ns name p (set_phases ns name phase all_phases)
        ≡ some (if same_phase p phase then fl.one else fl.nought)
  unfolding set_phases all_phases
  gauge-set_phases ns name phase unset named = absurd (named refl)
  gauge-set_phases ns name phase pending named = simp (eq_refl)
  gauge-set_phases ns name phase stable named = simp (eq_refl)
  gauge-set_phases ns name phase progressing named = simp (eq_refl)
  gauge-set_phases ns name phase frozen named = simp (eq_refl)
  gauge-set_phases ns name phase degraded named = simp (eq_refl)

  -- After `recordPhase`, whatever was recorded before, the gauge whose label is the text of the phase is
  -- 1, and that of every other phase with a name is 0.
  pub gauge-record_phase :
      (ns name : String) (phase p : Phase) (j : Journal F)
      → p ≢ unset
      → (p ≡ phase → gauge ns name p (record_phase ns name phase j) ≡ some fl.one)
        × (p ≢ phase → gauge ns name p (record_phase ns name phase j) ≡ some fl.nought)
  unfolding record_phase
  gauge-record_phase ns name phase p j named =
      let last =
        gauge-append ns name p _ j (set_phases ns name phase all_phases)
          (gauge-set_phases ns name phase p named) in
      (
        λ e. last ∙ rw (e, same_phase_refl phase) refl,
        λ e. last ∙ rw (same_phase_ne p phase e) refl,
      )
