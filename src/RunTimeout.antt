-- ===== src/RunTimeout.antt =====
-- src/domain/run/run-timeout-service.ts: runs of integration and of publishing that take too long.
-- Of a task only the fields that the service reads or writes; a run's external references are left
-- alone. Each reading of the clock is an argument.
pub mod Blocking
mod Tests
use shipyard_cp.Base.{
  ℕ, min, Bool, true, false, ◌&&◌, Option, none, some, List, [], ◌∷◌, ◌++◌, map, String, ltb,
  if◌then◌else◌, eqb, nat_eqb, string_eqb,
}
use shipyard_cp.StateMachine.{TaskState, integrating, publishing, state_eqb}

pub data RunStatus : Type 0 where
  pending running succeeded failed timeout : RunStatus

-- IntegrationRun, and PublishRun.
pub record Run : Type 0 where
  pub run_id : String
  pub started_at : ℕ
  pub status : RunStatus
  pub progress : Option ℕ
  pub timeout_at : ℕ
  pub completed_at : Option ℕ
  pub error : Option String

pub data WaitingOn : Type 0 where
  github environment : WaitingOn

pub record RunBlockedContext : Type 0 where
  pub resume_state : TaskState
  pub reason : String
  pub waiting_on : WaitingOn

pub record RunTask : Type 0 where
  pub task_id : String
  pub state : TaskState
  pub integration_run : Option Run
  pub publish_run : Option Run
  pub blocked_context : Option RunBlockedContext
  pub updated_at : ℕ

-- A call of transitionTask to blocked.
pub record Transition : Type 0 where
  pub task : RunTask
  pub reason : String

abbrev pub is_running : RunStatus → Bool
is_running running = true
is_running _ = false

-- now > timeoutAt, for a run that is running
abbrev pub is_late : Run → ℕ → Bool
is_late run now = ltb run.timeout_at now && is_running run.status

abbrev pub stop : Run → String → ℕ → Run
stop run error stamp = record run {
  status = timeout;
  error = some error;
  completed_at = some stamp;
}

unfoldable pub check_integration_timeout : RunTask → Run → (now stamp : ℕ) → Option Transition
check_integration_timeout task run now stamp =
    if is_late run now
    then some (record {
      task = record task {
        integration_run = some (stop run "integration timeout" stamp);
        blocked_context = some (record {
          resume_state = integrating;
          reason = "integration timed out";
          waiting_on = github;
        });
      };
      reason = "integration timeout";
    })
    else none

unfoldable pub check_publish_timeout : RunTask → Run → (now stamp : ℕ) → Option Transition
check_publish_timeout task run now stamp =
    if is_late run now
    then some (record {
      task = record task {
        publish_run = some (stop run "publish timeout" stamp);
        blocked_context = some (record {
          resume_state = publishing;
          reason = "publish timed out";
          waiting_on = environment;
        });
      };
      reason = "publish timeout";
    })
    else none

-- The run that a state is in, as `task.state === ... && task.integration_run`.
abbrev pub run_in : TaskState → TaskState → Option Run → Option Run
run_in wanted state run = if eqb state wanted then run else none

abbrev pub integration_of : RunTask → Option Run
integration_of task = run_in integrating task.state task.integration_run

abbrev pub publish_of : RunTask → Option Run
publish_of task = run_in publishing task.state task.publish_run

abbrev checked : Option Run → (Run → Option Transition) → List Transition
checked none check = []
checked (some run) check = elim (check run) [ none ↦ [] | some t ↦ t ∷ [] ]

-- Both tests of one task, in their order.
unfoldable pub check_task : RunTask → (now stamp : ℕ) → List Transition
unfolding check_integration_timeout check_publish_timeout
check_task task now stamp =
    checked (integration_of task) (λ run. check_integration_timeout task run now stamp)
    ++ checked (publish_of task) (λ run. check_publish_timeout task run now stamp)

-- Each time the task is pushed to the result, as it was before the update.
unfoldable pub check_timeouts : (now : ℕ) → List (RunTask × ℕ) → List RunTask × List Transition
unfolding check_task
check_timeouts now [] = ([], [])
check_timeouts now ((task, stamp) ∷ ts) =
    let (timed_out, calls) = check_timeouts now ts in
    let own = check_task task now stamp in (map (λ t. task) own ++ timed_out, own ++ calls)

pub data RunType : Type 0 where
  integration publish : RunType

abbrev active : RunTask → RunType → Option Run → List (RunTask × (Run × RunType))
active task kind none = []
active task kind (some run) = (task, (run, kind)) ∷ []

unfoldable pub get_active_runs : List RunTask → List (RunTask × (Run × RunType))
get_active_runs [] = []
get_active_runs (task ∷ ts) =
    active task integration (integration_of task)
    ++ active task publish (publish_of task)
    ++ get_active_runs ts

-- Math.min(100, progress), for a progress that is not negative.
abbrev with_progress : Run → ℕ → Run
with_progress run progress = record run { progress = some (min 100 progress) }

unfoldable pub update_integration_progress : RunTask → ℕ → (now : ℕ) → RunTask
update_integration_progress task progress now = elim task.integration_run [
  | none ↦ task
  | some run ↦ record task { integration_run = some (with_progress run progress); updated_at = now }
]

unfoldable pub update_publish_progress : RunTask → ℕ → (now : ℕ) → RunTask
update_publish_progress task progress now = elim task.publish_run [
  | none ↦ task
  | some run ↦ record task { publish_run = some (with_progress run progress); updated_at = now }
]
