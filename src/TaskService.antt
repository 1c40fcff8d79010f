-- ===== src/TaskService.antt =====
-- src/store/services/task-service.ts: the tasks and the log of their transitions. The log is what the
-- context's recordEvent is given, in order. Each new identifier and each reading of the clock is an
-- argument.
pub mod Replay
mod Tests
use shipyard_cp.Base.{
  ℕ, ◌+◌, Bool, not, Option, none, some, List, [], ◌∷◌, ◌++◌, String, str_eq, if◌then◌else◌,
  value_or, eqb, nat_eqb, string_eqb, Outcome, ok, thrown,
}
use shipyard_cp.JsMap.{JsMap, get, set, values}
use shipyard_cp.Types.{RiskLevel, medium}
use shipyard_cp.StateMachine.{
  TaskState, queued, cancelled, blocked, state_eqb, StateError, can_transition, validate_transition,
  is_terminal,
}
use shipyard_cp.TaskUpdate.{UpdatedTask, no_direct, apply_task_update, ExternalRef}
use shipyard_cp.Task.{
  Task, Update, payloads, TransitionInput, StateTransitionEvent, text, control_plane, human,
}

pub record TaskStore : Type 0 where
  pub tasks : JsMap Task
  pub events : List StateTransitionEvent

pub data TaskError : Type 0 where
  not_allowed : StateError → TaskError
  task_not_found : String → TaskError
  already_terminal : TaskState → TaskError
  task_id_mismatch : (expected actual : String) → TaskError
  from_state_mismatch : (current expected : TaskState) → TaskError
  invalid_request : TaskError

-- A new object is stored and an event recorded.
abbrev pub commit : TaskStore → Task → StateTransitionEvent → TaskStore
commit s task event = record {
  tasks = set s.tasks task.task_id task;
  events = s.events ++ event ∷ [];
}

unfoldable pub require_task : TaskStore → String → Outcome TaskError Task
require_task s task_id = elim (get s.tasks task_id) [
  | none ↦ thrown (task_not_found task_id)
  | some task ↦ ok task
]

-- The fields of CreateTaskRequest that the model's task has.
pub record CreateTaskRequest : Type 0 where
  pub typed_ref : String
  pub risk_level : Option RiskLevel
  pub external_refs : Option (List ExternalRef)

abbrev pub new_task : CreateTaskRequest → (task_id : String) → (now : ℕ) → Task
new_task r task_id now = record {
  task_id = task_id;
  typed_ref = r.typed_ref;
  state = queued;
  risk_level = value_or r.risk_level medium;
  updated = record {
    direct = no_direct;
    artifacts = some [];
    resolver_refs = none;
    external_refs = some (value_or r.external_refs []);
    retry_counts = none;
    version = 0;
    updated_at = now;
  };
  completed_at = none;
}

abbrev pub created : (task_id event_id : String) → (now : ℕ) → StateTransitionEvent
created task_id event_id now = record {
  event_id = event_id;
  task_id = task_id;
  from_state = queued;
  to_state = queued;
  input = record {
    actor_type = control_plane;
    actor_id = "shipyard-cp";
    reason = text "task created";
    job_id = none;
    artifact_ids = none;
  };
  occurred_at = now;
}

-- `valid` is the answer of TaskValidator.validateCreateRequest, which tests texts.
unfoldable pub create_task :
    TaskStore
    → (valid : Bool) → CreateTaskRequest
    → (task_id event_id : String) → (now : ℕ) → Outcome TaskError (TaskStore × Task)
create_task s valid r task_id event_id now =
    if valid
    then ok
        (commit s (new_task r task_id now) (created task_id event_id now), new_task r task_id now)
    else thrown invalid_request

-- Leaving blocked_context only where the task is blocked.
abbrev pub moved : Task → TaskState → (now : ℕ) → Task
moved task to_state now = record task {
  state = to_state;
  updated = record task.updated {
    version = task.updated.version + 1;
    updated_at = now;
    direct =
        if eqb to_state blocked
        then task.updated.direct
        else record task.updated.direct { blocked_context = none };
  };
  completed_at = if is_terminal to_state then some now else task.completed_at;
}

abbrev pub transition :
    Task → TaskState → TransitionInput → (event_id : String) → (now : ℕ) → StateTransitionEvent
transition task to_state input event_id now = record {
  event_id = event_id;
  task_id = task.task_id;
  from_state = task.state;
  to_state = to_state;
  input = input;
  occurred_at = now;
}

unfoldable pub transition_task :
    TaskStore
    → Task
    → TaskState
    → TransitionInput
    → (event_id : String) → (now : ℕ)
    → Outcome TaskError (TaskStore × (StateTransitionEvent × Task))
transition_task s task to_state input event_id now =
    if can_transition task.state to_state
    then ok (
      commit s (moved task to_state now) (transition task to_state input event_id now),
      (transition task to_state input event_id now, moved task to_state now),
    )
    else thrown (not_allowed (StateError.transition_not_allowed task.state to_state))

-- The guards of recordTransition: the validator's two, and the state machine's.
unfoldable pub check_event : StateTransitionEvent → String → TaskState → Option TaskError
check_event event task_id current =
    if not (str_eq event.task_id task_id)
    then some (task_id_mismatch task_id event.task_id)
    else if not (eqb event.from_state current)
    then some (from_state_mismatch current event.from_state)
    else if can_transition current event.to_state
    then none
    else some (not_allowed (StateError.transition_not_allowed current event.to_state))

-- Unlike transitionTask this sets no completed_at and keeps blocked_context.
abbrev pub recorded : Task → TaskState → (now : ℕ) → Task
recorded task to_state now = record task {
  state = to_state;
  updated = record task.updated { version = task.updated.version + 1; updated_at = now };
}

unfoldable pub record_transition :
    TaskStore → String → StateTransitionEvent → (now : ℕ) → Outcome TaskError TaskStore
record_transition s task_id event now = elim (get s.tasks task_id) [
  | none ↦ thrown (task_not_found task_id)
  | some task ↦ elim (check_event event task_id task.state) [
    | some e ↦ thrown e
    | none ↦ ok (commit s (recorded task event.to_state now) event)
  ]
]

abbrev pub changed : Task → Update → (now : ℕ) → Task
changed task update now = record task { updated = apply_task_update task.updated update now }

unfoldable pub update_task :
    TaskStore → String → Update → (now : ℕ) → Outcome TaskError (TaskStore × Task)
update_task s task_id update now = elim (get s.tasks task_id) [
  | none ↦ thrown (task_not_found task_id)
  | some task ↦
      ok (
        record s { tasks = set s.tasks task_id (changed task update now) },
        changed task update now,
      )
]

unfoldable pub set_task : TaskStore → String → Task → TaskStore
set_task s task_id task = record s { tasks = set s.tasks task_id task }

abbrev cancel_input : TransitionInput
cancel_input = record {
  actor_type = human;
  actor_id = "operator";
  reason = text "task cancelled";
  job_id = none;
  artifact_ids = none;
}

-- The task is read again after the transition.
abbrev reread :
    String
    → Outcome TaskError (TaskStore × (StateTransitionEvent × Task))
    → Outcome TaskError (TaskStore × Task)
reread task_id (thrown e) = thrown e
reread task_id (ok (s, (event, task))) = elim (get s.tasks task_id) [
  | none ↦ thrown (task_not_found task_id)
  | some t ↦ ok (s, t)
]

unfoldable pub cancel :
    TaskStore → String → (event_id : String) → (now : ℕ) → Outcome TaskError (TaskStore × Task)
unfolding transition_task
cancel s task_id event_id now = elim (get s.tasks task_id) [
  | none ↦ thrown (task_not_found task_id)
  | some task ↦
      if is_terminal task.state
      then thrown (already_terminal task.state)
      else reread task_id (transition_task s task cancelled cancel_input event_id now)
]
