-- ===== src/Controller/Journal.antt =====
-- internal/controller/observability.go and event_recorder.go. A call of the Prometheus client library
-- or of the Kubernetes event recorder is an entry of a journal, in the order of the calls.
pub mod OneHot
pub mod Collectors
use traficctl.Prelude.{List, [], ◌∷◌, ◌++◌, Bool, true, false, String}
use traficctl.Prelude.Tests.{if◌then◌else◌}
use traficctl.Prelude.Float.{Float}
use traficctl.Api.Types.{
  BackendWeight, Phase, unset, pending, stable, progressing, frozen, degraded,
}

pub data FreezeCause : Type 0 where
  paused_cause metrics_cause route_cause invalid_cause : FreezeCause

pub data EventType : Type 0 where
  normal warning : EventType

-- The labels of a series come first: namespace, name, and the third label if there is one.
pub data Effect (F : Type 0) : Type 0 where
  event : EventType → String → String → Effect F
  inc_weight_shifts : String → String → Effect F
  inc_freezes : String → String → FreezeCause → Effect F
  inc_metric_source_errors : String → String → String → Effect F
  set_backend_weight : String → String → String → F → Effect F
  set_policy_phase : String → String → Phase → F → Effect F
  delete_backend_weights : String → String → Effect F
  delete_policy_phases : String → String → Effect F

abbrev pub Journal : Type 0 → Type 0
Journal F = List (Effect F)

pub all_phases : List Phase
all_phases = pending ∷ stable ∷ progressing ∷ frozen ∷ degraded ∷ []

abbrev pub same_phase : Phase → Phase → Bool
same_phase unset unset = true
same_phase pending pending = true
same_phase stable stable = true
same_phase progressing progressing = true
same_phase frozen frozen = true
same_phase degraded degraded = true
same_phase _ _ = false

module _ {F : Type 0} where
  unfoldable pub record_freeze : String → String → FreezeCause → Journal F → Journal F
  record_freeze ns name cause j = j ++ (inc_freezes ns name cause ∷ [])

  unfoldable pub record_metric_source_error : String → String → String → Journal F → Journal F
  record_metric_source_error ns name signal j = j ++ (inc_metric_source_errors ns name signal ∷ [])

  unfoldable pub forget_policy_metrics : String → String → Journal F → Journal F
  forget_policy_metrics ns name j =
      j ++ (delete_backend_weights ns name ∷ delete_policy_phases ns name ∷ [])

module _ {F : Type 0} ⦃fl : Float F⦄ where
  unfoldable pub set_weights : String → String → List BackendWeight → Journal F
  set_weights ns name [] = []
  set_weights ns name (w ∷ ws) =
      set_backend_weight ns name w.name (fl.of_int w.weight) ∷ set_weights ns name ws

  unfoldable pub record_backend_weights :
      String → String → List BackendWeight → Journal F → Journal F
  unfolding set_weights
  record_backend_weights ns name ws j = j ++ set_weights ns name ws

  unfoldable pub record_weight_shift : String → String → List BackendWeight → Journal F → Journal F
  unfolding set_weights
  record_weight_shift ns name ws j = j ++ (inc_weight_shifts ns name ∷ set_weights ns name ws)

  abbrev pub phase_value : Phase → Phase → F
  phase_value p phase = if same_phase p phase then fl.one else fl.nought

  unfoldable pub set_phases : String → String → Phase → List Phase → Journal F
  set_phases ns name phase [] = []
  set_phases ns name phase (p ∷ ps) =
      set_policy_phase ns name p (phase_value p phase) ∷ set_phases ns name phase ps

  unfoldable pub record_phase : String → String → Phase → Journal F → Journal F
  unfolding set_phases all_phases
  record_phase ns name phase j = j ++ set_phases ns name phase all_phases
