-- ===== src/Delivery.antt =====
-- The parts of a task that integration and publishing use (src/types/task.ts, src/types/run.ts), the
-- store that they work on, and transitionTask on it (src/store/control-plane-store.ts). Audit events
-- and checkpoints are one list of effects.
use shipyard_cp.Base.{
  ℕ, ◌+◌, Bool, Option, none, some, List, [], ◌∷◌, ◌++◌, String, if◌then◌else◌, value_or, eqb,
  nat_eqb, string_eqb, Outcome, ok, thrown,
}
use shipyard_cp.JsMap.{JsMap, get, set}
use shipyard_cp.StateMachine.{TaskState, can_transition, StateError, state_eqb}
use shipyard_cp.TaskUpdate.{ExternalRef}
use shipyard_cp.Task.{Task, TransitionInput, StateTransitionEvent, control_plane, text, WaitingOn}
use shipyard_cp.TaskService.{TaskError, task_not_found, moved, transition, not_allowed}
use shipyard_cp.RunTimeout.{Run, running}
use shipyard_cp.RepoPolicy.{RepoPolicy, default_repo_policy}

pub record IntegrationState : Type 0 where
  pub integration_branch : Option String
  pub integration_head_sha : Option String
  pub main_updated_sha : Option String
  pub checks_passed : Option Bool
  pub original_base_sha : Option String

pub data PublishMode : Type 0 where
  no_op dry_run apply : PublishMode

pub record PublishPlan : Type 0 where
  pub mode : Option PublishMode
  pub idempotency_key : Option String
  pub approval_required : Bool
  pub policy_warnings : List String

pub record PublishRun : Type 0 where
  pub run : Run
  pub external_refs : Option (List ExternalRef)

-- `task` holds the fields of all services.
pub record DeliveryTask : Type 0 where
  pub task : Task
  pub repo_policy : Option RepoPolicy
  pub default_branch : String
  pub base_sha : Option String
  pub integration : Option IntegrationState
  pub integration_run : Option Run
  pub publish_plan : Option PublishPlan
  pub publish_run : Option PublishRun
  pub pending_approval_token : Option String
  pub pending_approval_expires_at : Option ℕ

-- An audit event or a checkpoint, with the values that it carries.
pub data Effect : Type 0 where
  main_updated : String → Option String → (checks_passed : Bool) → Effect
  main_checkpoint : String → Effect
  publish_requested : PublishMode → String → (approval_required : Bool) → Effect
  publish_idempotent : (key existing : String) → PublishMode → Effect
  approval_checkpoint : String → Effect
  publish_completed : Option (List ExternalRef) → Option String → Effect

pub record DeliveryStore : Type 0 where
  pub tasks : JsMap DeliveryTask
  pub events : List StateTransitionEvent
  pub publish_idempotency_keys : JsMap String
  pub effects : List Effect

pub data TokenError : Type 0 where
  token_required no_token_expected token_expired invalid_token : TokenError

pub data DeliveryError : Type 0 where
  of_task : TaskError → DeliveryError
  invalid_state : (expected current : TaskState) → DeliveryError
  integration_state_not_found : DeliveryError
  bad_token : TokenError → DeliveryError

-- What the calls of the outside give: identifiers, a token, and the clock at each reading.
pub record DeliveryFresh : Type 0 where
  pub event_id : String
  pub run_id : String
  pub token : String
  pub started : ℕ
  pub read : ℕ
  pub transitioned : ℕ

abbrev pub moved_delivery : DeliveryTask → TaskState → (now : ℕ) → DeliveryTask
moved_delivery d to_state now = record d { task = moved d.task to_state now }

unfoldable pub transition_delivery :
    DeliveryStore
    → DeliveryTask
    → TaskState
    → TransitionInput
    → DeliveryFresh
    → Outcome DeliveryError (DeliveryStore × DeliveryTask)
transition_delivery s d to_state input fresh =
    if can_transition d.task.state to_state
    then ok (
      record s {
        tasks = set s.tasks d.task.task_id (moved_delivery d to_state fresh.transitioned);
        events =
            s.events ++ transition d.task to_state input fresh.event_id fresh.transitioned ∷ [];
      },
      moved_delivery d to_state fresh.transitioned,
    )
    else thrown (of_task (not_allowed (StateError.transition_not_allowed d.task.state to_state)))

abbrev pub by_control_plane : String → TransitionInput
by_control_plane reason = record {
  actor_type = control_plane;
  actor_id = "shipyard-cp";
  reason = text reason;
  job_id = none;
  artifact_ids = none;
}

abbrev pub policy_of : DeliveryTask → RepoPolicy
policy_of d = value_or d.repo_policy default_repo_policy

-- The metadata of a run that starts, with its timeout in milliseconds.
abbrev pub new_run : DeliveryFresh → (timeout_ms : ℕ) → Run
new_run fresh timeout_ms = record {
  run_id = fresh.run_id;
  started_at = fresh.started;
  status = running;
  progress = some 0;
  timeout_at = fresh.read + timeout_ms;
  completed_at = none;
  error = none;
}

-- A task with the context of a block.
abbrev pub with_block : DeliveryTask → TaskState → String → WaitingOn → DeliveryTask
with_block d resume_state reason waiting_on = record d {
  task = record d.task {
    updated = record d.task.updated {
      direct = record d.task.updated.direct {
        blocked_context = some (record {
          resume_state = resume_state;
          reason = text reason;
          waiting_on = waiting_on;
          loop_fingerprint = none;
        });
      };
    };
  };
}

-- requireTask, and the guard on the state that each operation of the store has.
abbrev pub guarded :
    {A : Type 0}
    → DeliveryStore
    → String
    → TaskState
    → (DeliveryTask → DeliveryStore × Outcome DeliveryError A)
    → DeliveryStore × Outcome DeliveryError A
guarded s task_id expected k = elim (get s.tasks task_id) [
  | none ↦ (s, thrown (of_task (task_not_found task_id)))
  | some d ↦
      if eqb d.task.state expected then k d else (s, thrown (invalid_state expected d.task.state))
]

-- The store that an operation leaves, and what it returns.
abbrev pub settle :
    {A : Type 0}
    → DeliveryStore
    → (DeliveryTask → A)
    → List Effect
    → Outcome DeliveryError (DeliveryStore × DeliveryTask)
    → DeliveryStore × Outcome DeliveryError A
settle s answer effects (thrown e) = (s, thrown e)
settle s answer effects (ok (t, d)) = (record t { effects = t.effects ++ effects }, ok (answer d))
