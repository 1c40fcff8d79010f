-- ===== src/Result/Stages.antt =====
-- handleSucceededStage of stage-result-handlers.ts.
use shipyard_cp.Base.{
  Bool, true, false, not, Option, none, some, List, [], ◌∷◌, ◌++◌, String, if◌then◌else◌, value_or,
  nat_eqb, string_eqb, ok,
}
use shipyard_cp.Types.{WorkerStage, dev, acceptance, stage_eqb, worker_name}
use shipyard_cp.StateMachine.{TaskState, planned, dev_completed, rework_required}
use shipyard_cp.RunGate.{is_empty}
use shipyard_cp.TaskUpdate.{merge_task_updates}
use shipyard_cp.Task.{
  Task, Update, text, ManualChecklistItem, Verdict, VerdictOutcome, reject, rework, ActorType,
  AcceptanceGateContext,
}
use shipyard_cp.Result.{
  WorkerResult, ResultJob, Fresh, Response, ResultAction, dispatch_dev, dispatch_acceptance,
  wait_manual, ResultAudit, acceptance_gate_enforced, Call, give, need, move, ◌>>=◌, ◌>>◌,
}
use shipyard_cp.Result.Updates.{none_changed, direct_only, unset, get_artifact_ids}
use shipyard_cp.Result.Steps.{finalize_job, input_by, with_update, response}

-- A transition with the updates of the result.
abbrev pub pass_on :
    Task
    → ResultJob
    → (ids : List String) → Update
    → Fresh
    → TaskState
    → String
    → ResultAction
    → Call Response
pass_on task job ids updates fresh to_state reason action = do
  moved ←
      move (with_update task updates fresh) to_state
        (input_by ActorType.worker (worker_name job.worker_type) (text reason) job ids) fresh
  give (response moved action updates)

abbrev is_negative : VerdictOutcome → Bool
is_negative reject = true
is_negative rework = true
is_negative _ = false

abbrev pub turned_down : Option Verdict → Bool
turned_down none = false
turned_down (some v) = is_negative v.outcome

abbrev pub gate_of : Task → Option AcceptanceGateContext
gate_of task = elim task.updated.direct.acceptance_gate_context [
  | none ↦ none
  | some g ↦ if g.required then some g else none
]

abbrev enforced : WorkerResult → Option AcceptanceGateContext → List ResultAudit
enforced result none = []
enforced result (some g) =
    acceptance_gate_enforced g.source_job_id
      (elim result.verdict [ none ↦ none | some v ↦ some v.outcome ])
    ∷ []

abbrev enforce_gate : Task → WorkerResult → Call (Unit {0})
enforce_gate task result s = (record s { audit = s.audit ++ enforced result (gate_of task) }, ok tt)

abbrev pub verdict_update : WorkerResult → Update
verdict_update result = elim result.verdict [
  | none ↦ none_changed
  | some v ↦ direct_only (record unset { last_verdict = some v })
]

abbrev pub has_checklist : Task → Bool
has_checklist task = not (is_empty (value_or task.updated.direct.manual_checklist []))

abbrev pub checklist_update : Task → (Task → List ManualChecklistItem) → Update
checklist_update task generate =
    if has_checklist task
    then none_changed
    else direct_only (record unset { manual_checklist = some (generate task) })

-- The task waits for its manual acceptance, in the state that it is in.
abbrev pub wait_for_acceptance :
    Task → WorkerResult → Update → (Task → List ManualChecklistItem) → Fresh → Call Response
wait_for_acceptance task result updates generate fresh =
    let merged =
      merge_task_updates (updates ∷ verdict_update result ∷ checklist_update task generate ∷ []) in
    give (record {
      task = with_update task merged fresh;
      emitted_events = [];
      next_action = wait_manual;
      retry_scheduled_at = none;
      failover_worker = none;
      task_updates = merged;
    })

abbrev rejection : WorkerResult → String
rejection result = elim result.verdict [
  | none ↦ "acceptance rejected by worker"
  | some v ↦ value_or v.reason "acceptance rejected by worker"
]

-- The stage, where the identifiers of the artifacts are read.
unfoldable pub handle_stage :
    WorkerStage
    → Task
    → ResultJob
    → WorkerResult
    → Update
    → (Task → List ManualChecklistItem)
    → Fresh
    → (ids : List String) → Call Response
unfolding move
handle_stage WorkerStage.plan task job result updates generate fresh ids =
    pass_on task job ids updates fresh planned (value_or result.summary "plan completed")
      dispatch_dev
handle_stage dev task job result updates generate fresh ids =
    pass_on task job ids updates fresh dev_completed (value_or result.summary "dev completed")
      dispatch_acceptance
handle_stage acceptance task job result updates generate fresh ids = do
  enforce_gate task result
  (if turned_down result.verdict
      then pass_on task job ids updates fresh rework_required (rejection result) dispatch_dev
      else wait_for_acceptance task result updates generate fresh)

unfoldable pub handle_succeeded_stage :
    Task
    → ResultJob
    → WorkerResult
    → Update
    → (Task → List ManualChecklistItem)
    → Fresh
    → Call Response
unfolding handle_stage
handle_succeeded_stage task job result updates generate fresh =
    need (get_artifact_ids result) >>= handle_stage job.stage task job result updates generate fresh

unfoldable pub handle_succeeded_result_final :
    Task
    → ResultJob
    → WorkerResult
    → Update
    → (Task → List ManualChecklistItem)
    → Fresh
    → Call Response
unfolding handle_succeeded_stage finalize_job
handle_succeeded_result_final task job result updates generate fresh = do
  r ← handle_succeeded_stage task job result updates generate fresh
  finalize_job job true
  give r
