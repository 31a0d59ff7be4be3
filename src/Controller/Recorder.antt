-- ===== src/Controller/Recorder.antt =====
-- internal/controller/event_recorder.go: the two adapters of an event recorder. Each recorder is
-- client-go's, over what it records to.
use traficctl.Prelude.{Option, none, some, Bool, true, false, String}
use traficctl.Api.Types.{TrafficPolicy}
use traficctl.Controller.Journal.{EventType}

-- `EventRecorder.Event`: of a policy, a type, a reason and a message.
abbrev pub Event : Type 0 → Type 0
Event S = S → TrafficPolicy → EventType → String → String → S

-- `events.EventRecorder.Eventf`, whose last argument is a format.
pub record RuntimeRecorder (S : Type 0) : Type 0 where
  pub eventf :
      S
      → (regarding : TrafficPolicy) → (related : Option TrafficPolicy) → EventType
      → (reason action note : String) → S

-- `record.EventRecorder.Event`
pub record LegacyRecorder (S : Type 0) : Type 0 where
  pub event : S → TrafficPolicy → EventType → String → String → S

module _ {S : Type 0} where
  unfoldable pub runtime_event : RuntimeRecorder S → Event S
  runtime_event r s p kind reason message = r.eventf s p none kind reason reason message

  unfoldable pub new_runtime_event_recorder : Option (RuntimeRecorder S) → Option (Event S)
  unfolding runtime_event
  new_runtime_event_recorder none = none
  new_runtime_event_recorder (some r) = some (runtime_event r)

  unfoldable pub legacy_event : LegacyRecorder S → Event S
  legacy_event r s p kind reason message = r.event s p kind reason message

  unfoldable pub new_legacy_event_recorder : Option (LegacyRecorder S) → Option (Event S)
  unfolding legacy_event
  new_legacy_event_recorder none = none
  new_legacy_event_recorder (some r) = some (legacy_event r)

-- Whether an interface value is not nil.
abbrev pub is_set {ℓ} : {A : Type ℓ} → Option A → Bool
is_set none = false
is_set (some a) = true
