-- ===== src/Result/Reworks.antt =====
-- result-orchestrator.ts: the handlers of results that are blocked or failed.
use shipyard_cp.Base.{
  ℕ, ◌+◌, true, false, Option, none, some, List, String, leb, if◌then◌else◌, is_some, value_or, eqb,
  nat_eqb, string_eqb,
}
use shipyard_cp.Types.{stage_eqb, WorkerType, worker_name, FailureClass}
use shipyard_cp.StateMachine.{rework_required, blocked}
use shipyard_cp.DoomLoop.{LoopDetectionResult}
use shipyard_cp.Task.{
  Task, Update, Reason, text, doom_loop, retry_after, failover_to, rework_exhausted,
  retries_exhausted, human, policy, ReworkContext, ActorType,
}
use shipyard_cp.Result.{
  WorkerResult, ResultJob, Fresh, Response, dispatch_dev, wait_manual, retry, failover, ResultAudit,
  instruction_escalated, litellm_failed, retry_triggered, worker_failover, rework_prepared, Call,
  give, need, emit, emit_if, move, ◌>>=◌, ◌>>◌,
}
use shipyard_cp.Result.Updates.{none_changed, direct_only, unset, get_artifact_ids}
use shipyard_cp.Result.Steps.{
  finalize_job, release_lease, active_state, retry_key, input_by, with_update, block_update, both,
  response, max_retries, retry_at, track, scheduled,
}

abbrev summary_or : WorkerResult → String → Reason
summary_or result d = text (value_or result.summary d)

abbrev litellm_error : WorkerResult → Option String
litellm_error result = elim result.metadata [ none ↦ none | some m ↦ m.litellm_error_type ]

unfoldable pub handle_blocked_result :
    Task → ResultJob → WorkerResult → Update → Fresh → Call Response
unfolding move
handle_blocked_result task job result updates fresh = do
  let reason = summary_or result "worker blocked"
  let update = both updates (block_update job reason human none)
  ids ← need (get_artifact_ids result)
  moved ←
      move (with_update task update fresh) blocked
        (input_by ActorType.worker (worker_name job.worker_type) reason job ids) fresh
  emit (instruction_escalated reason)
  emit_if (is_some (litellm_error result)) (litellm_failed (value_or (litellm_error result) ""))
  give (response moved wait_manual update)

unfoldable pub handle_doom_loop :
    Task → ResultJob → WorkerResult → LoopDetectionResult → Update → Fresh → Call Response
unfolding move finalize_job
handle_doom_loop task job result loop updates fresh = do
  let reason = doom_loop loop.loop_type
  let update = both updates (block_update job reason policy job.loop_fingerprint)
  ids ← need (get_artifact_ids result)
  moved ←
      move (with_update task update fresh) blocked
        (input_by ActorType.policy_engine "doom_loop_detector" reason job ids) fresh
  finalize_job job false
  give (response moved wait_manual update)

unfoldable pub handle_retry :
    Task → ResultJob → WorkerResult → ℕ → FailureClass → Update → Fresh → Call Response
unfolding move release_lease
handle_retry task job result count failure_class updates fresh = do
  track (retry_key task job) (count + 1)
  emit (retry_triggered (count + 1) (max_retries job) failure_class)
  let update = both updates none_changed
  ids ← need (get_artifact_ids result)
  moved ←
      move (with_update task update fresh) (active_state job)
        (input_by ActorType.policy_engine "retry_manager"
          (retry_after (count + 1) (max_retries job) failure_class) job ids)
        fresh
  release_lease job
  give (scheduled (response moved retry update) (retry_at job count fresh))

abbrev to_worker : Response → WorkerType → Response
to_worker r next = record r { failover_worker = some next }

unfoldable pub handle_failover :
    Task → ResultJob → WorkerResult → WorkerType → Update → Fresh → Call Response
unfolding move release_lease
handle_failover task job result next updates fresh = do
  emit (worker_failover job.worker_type next)
  release_lease job
  let update = both updates none_changed
  ids ← need (get_artifact_ids result)
  moved ←
      move (with_update task update fresh) (active_state job)
        (input_by ActorType.policy_engine "failover_manager" (failover_to next job.worker_type) job
          ids)
        fresh
  give (to_worker (response moved failover update) next)

-- MAX_REWORK_ATTEMPTS
abbrev pub max_rework_attempts : ℕ
max_rework_attempts = 2

abbrev pub previous_attempt : Task → ResultJob → ℕ
previous_attempt task job = elim task.updated.direct.rework_context [
  | none ↦ 0
  | some c ↦ if eqb c.stage job.stage then c.attempt else 0
]

abbrev test_failure_summary_of : WorkerResult → Option String
test_failure_summary_of result = elim result.metadata [
  | none ↦ none
  | some m ↦ m.test_failure_summary
]

abbrev build_rework_context :
    ResultJob → WorkerResult → ℕ → (ids : List String) → Fresh → ReworkContext
build_rework_context job result attempt ids fresh = record {
  source_job_id = job.job_id;
  stage = job.stage;
  attempt = attempt;
  max_attempts = max_rework_attempts;
  reason = value_or result.summary (value_or result.failure_code "worker failed");
  failure_summary = result.failure_summary;
  test_failure_summary = test_failure_summary_of result;
  artifact_ids = ids;
  created_at = fresh.rework_created;
}

unfoldable pub block_rework :
    Task → ResultJob → WorkerResult → FailureClass → Update → Fresh → Call Response
unfolding move finalize_job
block_rework task job result failure_class updates fresh = do
  let attempt = previous_attempt task job
  let reason = rework_exhausted attempt result.summary failure_class
  let update = both updates (block_update job reason policy none)
  ids ← need (get_artifact_ids result)
  moved ←
      move (with_update task update fresh) blocked
        (input_by ActorType.policy_engine "rework_loop_guard" reason job ids) fresh
  emit (ResultAudit.rework_exhausted attempt)
  finalize_job job true
  give (response moved wait_manual update)

unfoldable pub require_rework :
    Task → ResultJob → WorkerResult → FailureClass → Update → Fresh → Call Response
unfolding move finalize_job
require_rework task job result failure_class updates fresh = do
  ids ← need (get_artifact_ids result)
  let context = build_rework_context job result (previous_attempt task job + 1) ids fresh
  let update = both updates (direct_only (record unset { rework_context = some context }))
  moved ←
      move (with_update task update fresh) rework_required
        (input_by ActorType.worker (worker_name job.worker_type)
          (elim result.summary [ none ↦ retries_exhausted failure_class | some t ↦ text t ]) job
          ids)
        fresh
  emit (rework_prepared context)
  finalize_job job true
  give (response moved dispatch_dev update)

unfoldable pub handle_final_failure :
    Task → ResultJob → WorkerResult → FailureClass → Update → Fresh → Call Response
unfolding block_rework require_rework
handle_final_failure task job result failure_class updates fresh =
    if leb max_rework_attempts (previous_attempt task job)
    then block_rework task job result failure_class updates fresh
    else require_rework task job result failure_class updates fresh
