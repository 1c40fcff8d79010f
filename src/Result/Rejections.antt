-- ===== src/Result/Rejections.antt =====
-- result-orchestrator.ts: results that the gate or the validation turns down.
use shipyard_cp.Base.{
  ℕ, ◌+◌, Bool, true, false, not, ◌&&◌, ◌||◌, none, List, str_eq, if◌then◌else◌, value_or, any, eqb,
  nat_eqb, string_eqb,
}
use shipyard_cp.JsMap.{get}
use shipyard_cp.Types.{acceptance, stage_eqb, retryable_transient}
use shipyard_cp.StateMachine.{rework_required, blocked}
use shipyard_cp.RunGate.{RunSystemGateReport}
use shipyard_cp.Retry.{should_retry}
use shipyard_cp.Task.{
  Task, text, gate_blocked, manual_gate, validation_failed, schema_retry, human, policy,
  ValidationError, ErrorCode, policy_violation, authority_conflict, schema_error, parse_error,
  ActorType,
}
use shipyard_cp.Result.{
  WorkerResult, ResultJob, Fresh, Response, dispatch_dev, wait_manual, retry, gate_stopped,
  repair_attempted, instruction_escalated, Call, give, need, emit, emit_if, move, ◌>>=◌, ◌>>◌,
}
use shipyard_cp.Result.Updates.{none_changed, get_artifact_ids}
use shipyard_cp.Result.Steps.{
  finalize_job, release_lease, active_state, retry_key, input_by, with_update, block_update, both,
  response, max_retries, retry_at, track, scheduled,
}

unfoldable pub handle_run_system_gate_blocked :
    Task → ResultJob → WorkerResult → RunSystemGateReport → Fresh → Call Response
unfolding move finalize_job
handle_run_system_gate_blocked task job result report fresh = do
  let reason = gate_blocked report.state_gate_verdict
  let update = block_update job reason (if report.manual_required then human else policy) none
  ids ← need (get_artifact_ids result)
  moved ←
      move (with_update task update fresh) blocked
        (input_by ActorType.policy_engine "agent-state-gate" reason job ids) fresh
  emit (gate_stopped report)
  finalize_job job true
  give (response moved wait_manual update)

abbrev is_policy : ErrorCode → Bool
is_policy policy_violation = true
is_policy authority_conflict = true
is_policy _ = false

abbrev is_violation : ErrorCode → Bool
is_violation policy_violation = true
is_violation _ = false

abbrev is_schema : ErrorCode → Bool
is_schema schema_error = true
is_schema parse_error = true
is_schema _ = false

abbrev pub is_policy_violation : List ValidationError → Bool
is_policy_violation errors = any (λ e. is_policy e.code) errors

abbrev pub is_retryable_schema_error : List ValidationError → Bool
is_retryable_schema_error errors =
    not (is_policy_violation errors) && any (λ e. is_schema e.code) errors

abbrev pub is_acceptance_manual_gate_error : ResultJob → List ValidationError → Bool
is_acceptance_manual_gate_error job errors =
    eqb job.stage acceptance
    && any
        (λ e. str_eq e.path "evidence" || (str_eq e.path "verdict.outcome" || is_violation e.code))
        errors

unfoldable pub retry_schema_error : Task → ResultJob → WorkerResult → ℕ → Fresh → Call Response
unfolding move release_lease
retry_schema_error task job result count fresh = do
  emit (repair_attempted (count + 1) (max_retries job))
  track (retry_key task job) (count + 1)
  ids ← need (get_artifact_ids result)
  moved ←
      move (with_update task (both none_changed none_changed) fresh) (active_state job)
        (input_by ActorType.policy_engine "validation_layer"
          (schema_retry (count + 1) (max_retries job)) job ids)
        fresh
  release_lease job
  give (scheduled (response moved retry none_changed) (retry_at job count fresh))

abbrev pub to_manual_gate : ResultJob → List ValidationError → Bool
to_manual_gate job errors = is_policy_violation errors || is_acceptance_manual_gate_error job errors

unfoldable pub reject_result :
    Task → ResultJob → WorkerResult → List ValidationError → Fresh → Call Response
unfolding move finalize_job
reject_result task job result errors fresh = do
  let gate = to_manual_gate job errors
  let update = if gate then block_update job (manual_gate errors) policy none else none_changed
  ids ← need (get_artifact_ids result)
  moved ←
      move (with_update task (both none_changed update) fresh)
        (if gate then blocked else rework_required)
        (input_by ActorType.control_plane "validation_layer" (validation_failed errors) job ids)
        fresh
  emit_if gate (instruction_escalated (text "validation policy violation requires manual gate"))
  finalize_job job true
  give (response moved (if gate then wait_manual else dispatch_dev) update)

-- A retry where the errors are of the schema and one is left, else blocked or rework_required.
unfoldable pub handle_validation_failure :
    Task → ResultJob → WorkerResult → List ValidationError → Fresh → Call Response
unfolding retry_schema_error reject_result
handle_validation_failure task job result errors fresh s =
    let count = value_or (get s.retry_tracker (retry_key task job)) 0 in
    if is_retryable_schema_error errors && should_retry retryable_transient count (max_retries job)
    then retry_schema_error task job result count fresh s
    else reject_result task job result errors fresh s
