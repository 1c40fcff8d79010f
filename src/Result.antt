-- ===== src/Result.antt =====
-- src/domain/result: what becomes of a task when a worker reports a result. The state is that of the
-- managers that the orchestrator is given, with the store of tasks and the audit log; a call that
-- throws keeps what it wrote before. Results of the text checks of the validators, and the packet of
-- the run-system gate, are arguments.
pub mod Updates
pub mod Steps
pub mod Rejections
pub mod Reworks
pub mod Stages
pub mod Apply
pub mod Failures
pub mod Success
pub mod Total
pub mod Effects
mod Tests
use shipyard_cp.Base.{
  ℕ, Bool, Option, none, some, List, [], ◌∷◌, ◌++◌, String, if◌then◌else◌, nat_eqb, string_eqb,
  Outcome, ok, thrown,
}
use shipyard_cp.JsMap.{JsMap}
use shipyard_cp.Types.{WorkerStage, WorkerType, FailureClass, SideEffectCategory}
use shipyard_cp.StateMachine.{TaskState}
use shipyard_cp.RunGate.{WorkerStatus, GatefieldVerdict, StateGateVerdict, RunSystemGateReport}
use shipyard_cp.SideEffect.{EscalationKind}
use shipyard_cp.Retry.{RetryPolicy}
use shipyard_cp.Lease.{LeaseManager}
use shipyard_cp.Concurrency.{ConcurrencyManager}
use shipyard_cp.DoomLoop.{DoomLoopDetector}
use shipyard_cp.TaskUpdate.{ResolverKey, Partial, ExternalRef}
use shipyard_cp.Task.{
  Task, Update, ArtifactKind, Verdict, VerdictOutcome, ValidationError, ResolverValue, Reason,
  AcceptanceGateContext, ReworkContext, TransitionInput, StateTransitionEvent,
}
use shipyard_cp.TaskService.{TaskStore, TaskError, transition_task}

pub data ResultArtifactKind : Type 0 where
  html : ResultArtifactKind
  other_kind : ArtifactKind → ResultArtifactKind

pub record ResultArtifact : Type 0 where
  pub artifact_id : String
  pub kind : ResultArtifactKind

-- The keys of metadata that are read. `structured_failure` is the test for validation_errors or
-- parse_error; `test_failure_summary` is what the summaries of the tool plan print as.
pub record Metadata : Type 0 where
  pub litellm_error_type : Option String
  pub structured_failure : Bool
  pub tool_plan_dry_run : Bool
  pub tool_plan_applied : Bool
  pub tool_plan_execution_verdict : Option String
  pub test_failure_summary : Option String

pub record WorkerResult : Type 0 where
  pub job_id : String
  pub typed_ref : String
  pub status : WorkerStatus
  pub summary : Option String
  pub artifacts : Option (List ResultArtifact)
  pub verdict : Option Verdict
  pub requested_escalations : List EscalationKind
  pub retry_count : Option ℕ
  pub failure_class : Option FailureClass
  pub failure_code : Option String
  pub failure_summary : Option String
  pub resolver_refs : Option (Partial ResolverKey ResolverValue)
  pub external_refs : Option (List ExternalRef)
  pub context_bundle_ref : Option String
  pub rollback_notes : Option String
  pub loop_fingerprint : Option String
  pub detected_side_effects : Option (List SideEffectCategory)
  pub metadata : Option Metadata

-- The fields of a WorkerJob that are read.
pub record ResultJob : Type 0 where
  pub job_id : String
  pub stage : WorkerStage
  pub worker_type : WorkerType
  pub retry_policy : Option RetryPolicy
  pub loop_fingerprint : Option String

pub data ResultAction : Type 0 where
  dispatch_dev dispatch_acceptance wait_manual retry failover : ResultAction

-- ResultApplyResponseWithUpdates
pub record Response : Type 0 where
  pub task : Task
  pub emitted_events : List StateTransitionEvent
  pub next_action : ResultAction
  pub retry_scheduled_at : Option ℕ
  pub failover_worker : Option WorkerType
  pub task_updates : Update

-- The audit events, with the values of their payloads that are no copy of the job's.
pub data ResultAudit : Type 0 where
  authority_conflict_found schema_rejected semantic_rejected : List ValidationError → ResultAudit
  external_gate_evaluated : Option GatefieldVerdict → Option StateGateVerdict → ResultAudit
  packet_prepared : ResultAudit
  gate_evaluated gate_stopped : RunSystemGateReport → ResultAudit
  repair_attempted : (attempt max_retries : ℕ) → ResultAudit
  instruction_escalated : Reason → ResultAudit
  acceptance_gate_required : AcceptanceGateContext → ResultAudit
  acceptance_gate_enforced : (source_job_id : String) → Option VerdictOutcome → ResultAudit
  permission_escalated : List EscalationKind → ResultAudit
  litellm_failed : (error_type : String) → ResultAudit
  retry_triggered : (attempt max_retries : ℕ) → FailureClass → ResultAudit
  worker_failover : (from to : WorkerType) → ResultAudit
  rework_exhausted : (attempt : ℕ) → ResultAudit
  rework_prepared : ReworkContext → ResultAudit

pub record ResultState : Type 0 where
  pub store : TaskStore
  pub audit : List ResultAudit
  pub retry_tracker : JsMap ℕ
  pub lease_manager : LeaseManager
  pub concurrency_manager : ConcurrencyManager
  pub doom_loop_detector : DoomLoopDetector

-- What a call takes from outside: the identifier of its event, a draw of Math.random, and the clock
-- at each reading.
pub record Fresh : Type 0 where
  pub event_id : String
  pub random : ℕ
  pub gate_created : ℕ
  pub loop_detected : ℕ
  pub loop_stored : ℕ
  pub rework_created : ℕ
  pub updated : ℕ
  pub transitioned : ℕ
  pub scheduled : ℕ

-- An error of the store of tasks, or the TypeError of a field that is read of a missing value.
pub data ResultError : Type 0 where
  of_task : TaskError → ResultError
  type_error : ResultError

-- A call that writes the state and returns or throws.
abbrev pub Call : Type 0 → Type 0
Call A = ResultState → ResultState × Outcome ResultError A

abbrev continue :
    {A B : Type 0}
    → ResultState × Outcome ResultError A
    → (A → Call B)
    → ResultState × Outcome ResultError B
continue (s, ok a) f = f a s
continue (s, thrown e) f = (s, thrown e)

infixl 5 ◌>>=◌ ◌>>◌
abbrev pub ◌>>=◌ : {A B : Type 0} → Call A → (A → Call B) → Call B
◌>>=◌ m f s = continue (m s) f

abbrev pub ◌>>◌ : {B : Type 0} → Call (Unit {0}) → Call B → Call B
m >> k = m >>= λ u. k

abbrev pub give : {A : Type 0} → A → Call A
give a s = (s, ok a)

-- A value, or the TypeError of a missing one.
abbrev pub need : {A : Type 0} → Option A → Call A
need none s = (s, thrown type_error)
need (some a) s = (s, ok a)

-- ctx.emitAuditEvent
abbrev pub emit : ResultAudit → Call (Unit {0})
emit e s = (record s { audit = s.audit ++ e ∷ [] }, ok tt)

abbrev pub emit_if : Bool → ResultAudit → Call (Unit {0})
emit_if test e s = (record s { audit = if test then s.audit ++ e ∷ [] else s.audit }, ok tt)

-- ctx.transitionTask, which throws before it writes.
abbrev transitioned :
    ResultState
    → Outcome TaskError (TaskStore × (StateTransitionEvent × Task))
    → ResultState × Outcome ResultError (StateTransitionEvent × Task)
transitioned s (ok (store, answer)) = (record s { store = store }, ok answer)
transitioned s (thrown e) = (s, thrown (of_task e))

unfoldable pub move :
    Task → TaskState → TransitionInput → Fresh → Call (StateTransitionEvent × Task)
move task to_state input fresh s =
    transitioned s (transition_task s.store task to_state input fresh.event_id fresh.transitioned)
