-- ===== src/TaskService/Tests.antt =====
-- A task from its creation to its start (task-service.ts).
use shipyard_cp.Base.{◌≡◌, refl, true, none, some, nat_eqb, string_eqb}
use shipyard_cp.JsMap.{get, set}
use shipyard_cp.StateMachine.{TaskState, blocked, failed, can_transition, is_terminal}
use shipyard_cp.Task.{Task, TransitionInput, text, worker}
use shipyard_cp.TaskService.{
  TaskStore, CreateTaskRequest, create_task, transition_task, commit, new_task, created, moved,
  transition, recorded,
}
use shipyard_cp.TaskService.Replay.{start, next, Step, empty, state_of, after, IsPath, log_replays}

abbrev request : CreateTaskRequest
request = record { typed_ref = "a:b:c:d"; risk_level = none; external_refs = none }

abbrev input : TransitionInput
input = record {
  actor_type = worker;
  actor_id = "codex";
  reason = text "dispatched plan job";
  job_id = some "j";
  artifact_ids = none;
}

abbrev first_task : Task
first_task = new_task request "t" 5

abbrev one : TaskStore
one = commit empty first_task (created "t" "e0" 5)

abbrev two : TaskStore
two =
    commit one (moved first_task TaskState.planning 6)
      (transition first_task TaskState.planning input "e1" 6)

step_one : Step empty one
unfolding get create_task
step_one = Step.create {s = empty} {t = one} true request "t" "e0" 5 first_task refl refl

step_two : Step one two
unfolding get set transition_task can_transition
step_two =
    Step.move {s = one} {t = two} first_task first_task TaskState.planning input "e1" 6
      (transition first_task TaskState.planning input "e1" 6, moved first_task TaskState.planning 6)
      refl refl

log_replays_example :
    (state_of (get two.tasks "t") ≡ after none two.events "t") × IsPath none two.events "t"
log_replays_example = log_replays two "t" (next (next (start refl) step_one) step_two)

-- A move to a terminal state that is recorded from outside sets no completed_at.
terminal_times :
    ((recorded (record first_task { state = blocked }) failed 9).completed_at ≡ none)
    × ((moved (record first_task { state = blocked }) failed 9).completed_at ≡ some 9)
unfolding is_terminal
terminal_times = (refl, refl)
