-- ===== src/Result/Steps.antt =====
-- result-orchestrator.ts: what the handlers share.
use shipyard_cp.Base.{
  ℕ, ◌+◌, ◌*◌, ◌/◌, Bool, true, Option, none, some, List, [], ◌∷◌, String, if◌then◌else◌, value_or,
  nat_eqb, string_eqb, ok,
}
use Prim.Native.String.{◌++◌ as append}
use shipyard_cp.JsMap.{set}
use shipyard_cp.Types.{stage_eqb, stage_name, worker_name}
use shipyard_cp.StateMachine.{TaskState, stage_to_active_state, to_task_state}
use shipyard_cp.Retry.{RetryPolicy, calculate_backoff, second, get_default_max_retries}
use shipyard_cp.Lease.{release}
use shipyard_cp.Concurrency.Jobs.{record_complete}
use shipyard_cp.TaskUpdate.{apply_task_update, merge_task_updates}
use shipyard_cp.Task.{
  Task, Update, Reason, WaitingOn, ActorType, TransitionInput, StateTransitionEvent,
}
use shipyard_cp.Result.{ResultJob, Fresh, Response, ResultAction, Call}
use shipyard_cp.Result.Updates.{direct_only, unset}

-- A worker's lease is released under the name of its type.
unfoldable pub finalize_job : ResultJob → (release_concurrency : Bool) → Call (Unit {0})
finalize_job job release_concurrency s = (
  record s {
    lease_manager = (release s.lease_manager job.job_id (worker_name job.worker_type)).0;
    concurrency_manager =
        if release_concurrency
        then record_complete s.concurrency_manager job.job_id (worker_name job.worker_type)
        else s.concurrency_manager;
  },
  ok tt,
)

-- leaseManager.release
unfoldable pub release_lease : ResultJob → Call (Unit {0})
release_lease job s = (
  record s { lease_manager = (release s.lease_manager job.job_id (worker_name job.worker_type)).0 },
  ok tt,
)

abbrev pub active_state : ResultJob → TaskState
active_state job = to_task_state (stage_to_active_state job.stage)

abbrev pub retry_key : Task → ResultJob → String
retry_key task job = append task.task_id (append ":" (stage_name job.stage))

abbrev pub input_by :
    ActorType → String → Reason → ResultJob → (ids : List String) → TransitionInput
input_by actor_type actor_id reason job ids = record {
  actor_type = actor_type;
  actor_id = actor_id;
  reason = reason;
  job_id = some job.job_id;
  artifact_ids = some ids;
}

abbrev pub with_update : Task → Update → Fresh → Task
with_update task update fresh = record task {
  updated = apply_task_update task.updated update fresh.updated;
}

-- An update whose one key is active_job_id: undefined, which counts as missing.
abbrev pub block_update : ResultJob → Reason → WaitingOn → Option String → Update
block_update job reason waiting_on loop_fingerprint = direct_only (record unset {
  blocked_context = some (record {
    resume_state = active_state job;
    reason = reason;
    waiting_on = waiting_on;
    loop_fingerprint = loop_fingerprint;
  });
})

abbrev pub both : Update → Update → Update
both a b = merge_task_updates (a ∷ b ∷ [])

abbrev pub response : StateTransitionEvent × Task → ResultAction → Update → Response
response (event, task) action update = record {
  task = task;
  emitted_events = event ∷ [];
  next_action = action;
  retry_scheduled_at = none;
  failover_worker = none;
  task_updates = update;
}

abbrev pub max_retries : ResultJob → ℕ
max_retries job = elim job.retry_policy [
  | none ↦ get_default_max_retries (stage_name job.stage)
  | some p ↦ p.max_retries
]

abbrev pub policy_of : ResultJob → RetryPolicy
policy_of job = value_or job.retry_policy (record {
  max_retries = max_retries job;
  backoff_base_seconds = 2;
  max_backoff_seconds = 60;
  jitter_enabled = true;
})

abbrev pub retry_at : ResultJob → ℕ → Fresh → ℕ
retry_at job count fresh =
    fresh.scheduled + calculate_backoff count (policy_of job) fresh.random * 1000 / second

-- retryTracker.set
abbrev pub track : String → ℕ → Call (Unit {0})
track key count s = (record s { retry_tracker = set s.retry_tracker key count }, ok tt)

abbrev pub scheduled : Response → ℕ → Response
scheduled r at = record r { retry_scheduled_at = some at }
