-- ===== src/Task.antt =====
-- src/types/task.ts, src/types/run.ts and src/types/event.ts: a task with the fields that its
-- services read or write, and the events of its log. Where the code prints a reason from values, the
-- model keeps the values.
use shipyard_cp.Base.{ℕ, Bool, Option, List, String, nat_eqb, string_eqb}
use shipyard_cp.Types.{WorkerStage, WorkerType, FailureClass, RiskLevel}
use shipyard_cp.StateMachine.{TaskState}
use shipyard_cp.RunGate.{StateGateVerdict}
use shipyard_cp.DoomLoop.{LoopType}
use shipyard_cp.TaskUpdate.{Payloads, UpdatedTask, TaskUpdate}

pub data ArtifactKind : Type 0 where
  log report screenshot trace json other : ArtifactKind

pub record ArtifactRef : Type 0 where
  pub artifact_id : String
  pub kind : ArtifactKind

pub data VerdictOutcome : Type 0 where
  accept reject rework needs_manual_review : VerdictOutcome

pub record Verdict : Type 0 where
  pub outcome : VerdictOutcome
  pub reason : Option String
  pub manual_notes : Option String

pub record ManualChecklistItem : Type 0 where
  pub id : String
  pub description : String
  pub required : Bool
  pub checked : Bool
  pub checked_by : Option String
  pub checked_at : Option ℕ
  pub notes : Option String

-- The codes that the result orchestrator tells apart.
pub data ErrorCode : Type 0 where
  policy_violation authority_conflict schema_error parse_error other : ErrorCode

pub record ValidationError : Type 0 where
  pub code : ErrorCode
  pub path : String
  pub message : String

-- A reason: a text, or the values that it is printed from.
pub data Reason : Type 0 where
  text : String → Reason
  gate_blocked : StateGateVerdict → Reason
  manual_gate validation_failed : List ValidationError → Reason
  schema_retry : (attempt max_retries : ℕ) → Reason
  doom_loop : LoopType → Reason
  retry_after : (attempt max_retries : ℕ) → FailureClass → Reason
  failover_to : (next failed : WorkerType) → Reason
  rework_exhausted : (attempts : ℕ) → Option String → FailureClass → Reason
  retries_exhausted : FailureClass → Reason

pub data WaitingOn : Type 0 where
  litellm worker human policy github environment resolver tracker_bridge agent_taskstate : WaitingOn

pub record BlockedContext : Type 0 where
  pub resume_state : TaskState
  pub reason : Reason
  pub waiting_on : WaitingOn
  pub loop_fingerprint : Option String

pub record ReworkContext : Type 0 where
  pub source_job_id : String
  pub stage : WorkerStage
  pub attempt : ℕ
  pub max_attempts : ℕ
  pub reason : String
  pub failure_summary : Option String
  pub test_failure_summary : Option String
  pub artifact_ids : List String
  pub created_at : ℕ

pub record AcceptanceGateContext : Type 0 where
  pub required : Bool
  pub source_job_id : String
  pub reason : String
  pub artifact_ids : List String
  pub created_at : ℕ

pub data StaleStatus : Type 0 where
  fresh stale unknown mixed : StaleStatus

pub record StaleCounts : Type 0 where
  pub fresh_count : ℕ
  pub stale_count : ℕ
  pub unknown_count : ℕ

-- A value under a key of ResolverRefs.
pub data ResolverValue : Type 0 where
  refs : List String → ResolverValue
  status : StaleStatus → ResolverValue
  labels : List (String × String) → ResolverValue
  counts : StaleCounts → ResolverValue

abbrev pub payloads : Payloads
payloads = record {
  ArtifactRef = ArtifactRef;
  ResolverValue = ResolverValue;
  Verdict = Verdict;
  ReworkContext = ReworkContext;
  AcceptanceGateContext = AcceptanceGateContext;
  BlockedContext = BlockedContext;
  ChecklistItem = ManualChecklistItem;
}

-- `updated` holds the fields that an update writes, the version among them.
pub record Task : Type 0 where
  pub task_id : String
  pub typed_ref : String
  pub state : TaskState
  pub risk_level : RiskLevel
  pub updated : UpdatedTask payloads
  pub completed_at : Option ℕ

abbrev pub Update : Type 0
Update = TaskUpdate payloads

pub data ActorType : Type 0 where
  control_plane worker human policy_engine : ActorType

-- What a caller of transitionTask gives.
pub record TransitionInput : Type 0 where
  pub actor_type : ActorType
  pub actor_id : String
  pub reason : Reason
  pub job_id : Option String
  pub artifact_ids : Option (List String)

pub record StateTransitionEvent : Type 0 where
  pub event_id : String
  pub task_id : String
  pub from_state : TaskState
  pub to_state : TaskState
  pub input : TransitionInput
  pub occurred_at : ℕ
