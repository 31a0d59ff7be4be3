-- ===== src/Controller/Env.antt =====
-- internal/controller/trafficpolicy_controller.go: `TrafficPolicyReconciler`, its collaborators and the
-- state that a call of `Reconcile` changes. `W` is the cluster and everything else outside.
use traficctl.Prelude.{ℕ, List, [], ◌∷◌, ◌++◌, Option, none, Bool, String}
use traficctl.Prelude.Tests.{if◌then◌else◌}
use traficctl.Prelude.Dict.{Dict}
use traficctl.Prelude.Results.{Result}
use traficctl.Api.Types.{
  TrafficPolicy, TrafficPolicyStatus, BackendWeight, Condition, ConditionStatus,
}
use traficctl.Evaluator.{Decision}
use traficctl.Evaluator.State.{Input}
use traficctl.Router.{Fetched, ApplyError}
use traficctl.Smoother.{Smoother}
use traficctl.Controller.Journal.{Journal, EventType, event}

-- `Source.Sample` over the world outside.
abbrev pub SampleCall : Type 0 → Type 0 → Type 0
SampleCall W F = W → String → List String → Result (Dict F)

-- The collaborators; a nil field is `none`. `set_condition`, `find_condition` and `same_status` are the API
-- machinery's `SetStatusCondition`, `FindStatusCondition` and `Semantic.DeepEqual`.
pub record Env (W F : Type 0) : Type 0 where
  pub get_policy : W → String → String → Fetched TrafficPolicy
  pub patch_status : W → (desired original : TrafficPolicy) → W × Option String
  pub apply_weights : W → String → String → List BackendWeight → W × Option ApplyError
  pub metric_source : Option (SampleCall W F)
  pub evaluator : Option (Input F → Decision)
  pub has_recorder : Bool
  pub set_condition : List Condition → Condition → List Condition
  pub find_condition : List Condition → String → Option Condition
  pub same_status : TrafficPolicyStatus → TrafficPolicyStatus → Bool

-- The readings of the clock in one call, in order.
pub record Readings : Type 0 where
  pub at_check : ℕ
  pub at_shift : ℕ
  pub at_end : ℕ

pub record World (W F : Type 0) : Type 0 where
  pub cluster : W
  pub smoother : Option (Smoother F)
  pub journal : Journal F

-- `ctrl.Result` and the error.
pub record Outcome : Type 0 where
  pub requeue_after : Option ℕ
  pub error : Option String

module _ {W F : Type 0} (env : Env W F) where
  -- A nil recorder drops the event.
  unfoldable pub emit : EventType → String → String → Journal F → Journal F
  emit kind reason message j = if env.has_recorder then j ++ (event kind reason message ∷ []) else j

  unfoldable pub put_condition :
      String → ConditionStatus → String → String → TrafficPolicy → TrafficPolicy
  put_condition kind status reason message p =
      let c : Condition = record {
        kind = kind;
        status = status;
        reason = reason;
        message = message;
        observed_generation = p.generation;
      } in
      record p {
        status = record (p.status) { conditions = env.set_condition p.status.conditions c };
      }

  unfoldable pub set_ready : ConditionStatus → String → String → TrafficPolicy → TrafficPolicy
  unfolding put_condition
  set_ready = put_condition "Ready"

  unfoldable pub patch_status_if_changed :
      W → (desired original : TrafficPolicy) → W × Option String
  patch_status_if_changed w desired original =
      if env.same_status original.status desired.status
      then (w, none)
      else env.patch_status w desired original
