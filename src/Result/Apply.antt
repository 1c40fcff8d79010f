-- ===== src/Result/Apply.antt =====
-- applyResult of result-orchestrator.ts, from the handlers; and validate of result-validator.ts.
-- handleSucceededStage of stage-result-handlers.ts.
use shipyard_cp.Base.{
  ℕ, ◌+◌, Bool, true, false, not, Option, none, some, List, [], ◌∷◌, ◌++◌, if◌then◌else◌, value_or,
  length, nat_eqb, string_eqb, ok,
}
use shipyard_cp.JsMap.{get}
use shipyard_cp.Types.{WorkerType, stage_eqb, FailureClass}
use shipyard_cp.RunGate.{
  WorkerStatus, succeeded, failed, blocked, RunSystemMode, DecisionInput, ExternalReport,
  RunSystemGateReport, evaluate_run_system_gate, merge_external_cli_gate_report, is_empty,
}
use shipyard_cp.WorkerPolicy.{can_failover, get_failover_worker}
use shipyard_cp.Retry.{should_retry, classify_from_result}
use shipyard_cp.DoomLoop.{LoopDetectionResult}
use shipyard_cp.DoomLoop.Transitions.{detect_loop}
use shipyard_cp.Task.{Task, Update, ManualChecklistItem, ValidationError}
use shipyard_cp.Result.{
  need, WorkerResult, ResultJob, Fresh, Response, ResultAudit, authority_conflict_found,
  schema_rejected, semantic_rejected, external_gate_evaluated, packet_prepared, gate_evaluated,
  repair_attempted, ResultState, Call, give, emit, emit_if, ◌>>=◌, ◌>>◌,
}
use shipyard_cp.Result.Updates.{compute_task_updates_from_result}
use shipyard_cp.Result.Steps.{retry_key, max_retries}
use shipyard_cp.Result.Rejections.{handle_run_system_gate_blocked, handle_validation_failure}
use shipyard_cp.Result.Reworks.{
  handle_blocked_result, handle_doom_loop, handle_retry, handle_failover, handle_final_failure,
}
use shipyard_cp.Result.Stages.{handle_succeeded_result_final}

-- What the three checks of the validator find: the conflict of authority, if there is one, and the
-- errors of the schema and of the stage.
pub record Checks : Type 0 where
  pub authority_conflict : Option ValidationError
  pub schema_errors : List ValidationError
  pub semantic_errors : List ValidationError

-- The errors of the first check that fails; none, if the result is valid.
abbrev pub errors_of : Checks → List ValidationError
errors_of c = elim c.authority_conflict [
  | some e ↦ e ∷ []
  | none ↦ if is_empty c.schema_errors then c.semantic_errors else c.schema_errors
]

-- The audit event of that check.
abbrev rejections : Checks → List ResultAudit
rejections c = elim c.authority_conflict [
  | some e ↦ authority_conflict_found (e ∷ []) ∷ []
  | none ↦
      if not (is_empty c.schema_errors)
      then schema_rejected c.schema_errors ∷ []
      else if not (is_empty c.semantic_errors)
      then semantic_rejected c.semantic_errors ∷ []
      else []
]

unfoldable pub validate : Checks → Call (List ValidationError)
validate c s = (record s { audit = s.audit ++ rejections c }, ok (errors_of c))

-- The options and the arguments of the orchestrator, and its inputs from outside.
pub record Inputs : Type 0 where
  pub checks : Checks
  pub run_system_mode : RunSystemMode
  pub packet : DecisionInput
  pub external_report : Option ExternalReport
  pub generate_manual_checklist : Task → List ManualChecklistItem
  pub fresh : Fresh

abbrev pub with_external : RunSystemGateReport → Option ExternalReport → RunSystemGateReport
with_external r none = r
with_external r (some e) = merge_external_cli_gate_report r e

abbrev external_events : Option ExternalReport → List ResultAudit
external_events none = []
external_events (some e) = external_gate_evaluated e.gatefield_decision e.state_gate_verdict ∷ []

abbrev pub emit_external : Option ExternalReport → Call (Unit {0})
emit_external e s = (record s { audit = s.audit ++ external_events e }, ok tt)

abbrev pub gate_report : Inputs → RunSystemGateReport
gate_report i =
    with_external (evaluate_run_system_gate i.run_system_mode i.packet) i.external_report

-- result.artifacts.length, for the packet; none is the TypeError of a result without artifacts.
unfoldable pub artifact_count : WorkerResult → Option ℕ
artifact_count result = elim result.artifacts [
  | none ↦ none
  | some artifacts ↦ some (length artifacts)
]

unfoldable pub emit_run_system_packet : WorkerResult → Inputs → Call RunSystemGateReport
unfolding artifact_count
emit_run_system_packet result i = do
  count ← need (artifact_count result)
  emit_external i.external_report
  emit packet_prepared
  emit (gate_evaluated (gate_report i))
  give (gate_report i)

abbrev pub structured_failure : WorkerResult → Bool
structured_failure result = elim result.metadata [ none ↦ false | some m ↦ m.structured_failure ]

abbrev pub failure_class_of : WorkerResult → FailureClass
failure_class_of result =
    value_or result.failure_class (classify_from_result result.failure_code result.summary)

-- result.retry_count ?? retryTracker.get(retryKey) ?? 0
abbrev pub current_retry_count : Task → ResultJob → WorkerResult → ResultState → ℕ
current_retry_count task job result s =
    value_or result.retry_count (value_or (get s.retry_tracker (retry_key task job)) 0)

-- The retry and the final failure.
unfoldable pub retry_or_fail : Task → ResultJob → WorkerResult → ℕ → Update → Fresh → Call Response
unfolding handle_retry handle_final_failure
retry_or_fail task job result count updates fresh =
    let failure_class = failure_class_of result in
    if should_retry failure_class count (max_retries job)
    then (do
      emit_if (structured_failure result) (repair_attempted (count + 1) (max_retries job))
      handle_retry task job result count failure_class updates fresh)
    else handle_final_failure task job result failure_class updates fresh

-- detectLoop, which remembers what it finds.
abbrev pub detect : ResultJob → Fresh → Call (Option LoopDetectionResult)
detect job fresh s =
    let (d, found) =
      detect_loop s.doom_loop_detector job.job_id fresh.loop_detected fresh.loop_stored in
    (record s { doom_loop_detector = d }, ok found)

abbrev pub failover_of : ResultJob → Option WorkerType
failover_of job =
    if can_failover job.stage then get_failover_worker job.stage job.worker_type else none

-- The rest of handleFailedResult, where no loop was found.
unfoldable pub without_loop : Task → ResultJob → WorkerResult → ℕ → Update → Fresh → Call Response
unfolding handle_failover retry_or_fail
without_loop task job result count updates fresh = elim (failover_of job) [
  | some next ↦ handle_failover task job result next updates fresh
  | none ↦ retry_or_fail task job result count updates fresh
]

unfoldable pub after_detection :
    Task
    → ResultJob
    → WorkerResult
    → ℕ
    → Update
    → Fresh
    → Option LoopDetectionResult
    → Call Response
unfolding handle_doom_loop without_loop
after_detection task job result count updates fresh (some loop) =
    handle_doom_loop task job result loop updates fresh
after_detection task job result count updates fresh none =
    without_loop task job result count updates fresh

unfoldable pub handle_failed_result :
    Task → ResultJob → WorkerResult → Update → Fresh → Call Response
unfolding after_detection
handle_failed_result task job result updates fresh s =
    let count = current_retry_count task job result s in
    (detect job fresh >>= after_detection task job result count updates fresh) s

unfoldable pub handle_status :
    WorkerStatus → Task → ResultJob → WorkerResult → Inputs → Update → Call Response
unfolding handle_blocked_result handle_failed_result handle_succeeded_result_final
handle_status blocked task job result i updates =
    handle_blocked_result task job result updates i.fresh
handle_status failed task job result i updates =
    handle_failed_result task job result updates i.fresh
handle_status succeeded task job result i updates =
    handle_succeeded_result_final task job result updates i.generate_manual_checklist i.fresh

-- A valid result after the gate, which blocks the transition or not.
unfoldable pub after_gate :
    (blocks : Bool) → Task → ResultJob → WorkerResult → Inputs → RunSystemGateReport → Call Response
unfolding handle_run_system_gate_blocked compute_task_updates_from_result handle_status
after_gate true task job result i report =
    handle_run_system_gate_blocked task job result report i.fresh
after_gate false task job result i report =
    compute_task_updates_from_result job result i.fresh
    >>= handle_status result.status task job result i

unfoldable pub apply_valid : Task → ResultJob → WorkerResult → Inputs → Call Response
unfolding emit_run_system_packet after_gate
apply_valid task job result i = emit_run_system_packet result i >>= λ report.
    after_gate report.blocks_shipyard_transition task job result i report

abbrev pub after_validation :
    Task → ResultJob → WorkerResult → Inputs → List ValidationError → Call Response
after_validation task job result i [] = apply_valid task job result i
after_validation task job result i (e ∷ es) =
    handle_validation_failure task job result (e ∷ es) i.fresh

unfoldable pub apply_result : Task → ResultJob → WorkerResult → Inputs → Call Response
unfolding validate handle_validation_failure apply_valid
apply_result task job result i = validate i.checks >>= after_validation task job result i
