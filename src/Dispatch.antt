-- ===== src/Dispatch.antt =====
-- src/domain/dispatch/dispatch-orchestrator.ts: one job for a task, through the capability check,
-- the limits, the lease and the tables. The prompt, the context and the compiled instruction of a
-- job are texts made from the task and are left out; making them is taken to throw nothing. The
-- context is taken to have emitAuditEvent.
pub mod Steps
pub mod Path
pub mod Success
pub mod Refusals
pub mod Progress
mod Tests
use shipyard_cp.Base.{ℕ, Bool, true, Option, List, [], ◌∷◌, String, value_or, nat_eqb, string_eqb}
use Prim.Native.String.{◌++◌ as append}
use shipyard_cp.JsMap.{JsMap, get, set}
use shipyard_cp.Types.{
  WorkerStage, stage_eqb, stage_name, WorkerType, worker_name, RiskLevel, Capability,
}
use shipyard_cp.StateMachine.{
  TaskState, ActiveState, StateError, get_allowed_dispatch_stage, stage_to_active_state,
  to_task_state,
}
use shipyard_cp.StateMachine.Mapping.{shipyard_keys}
use shipyard_cp.Capability.{
  CapabilityManager, CapabilityCheckOptions, CapabilityCheckResult, check_capabilities,
  get_all_required_capabilities, get_worker_capabilities, register_worker_capabilities,
}
use shipyard_cp.WorkerPolicy.{
  ApprovalPolicy, RequestedOutput, get_default_worker, build_approval_policy, get_requested_outputs,
  default_worker_capabilities,
}
use shipyard_cp.Retry.{RetryPolicy, get_default_max_retries}
use shipyard_cp.Lease.{LeaseManager, Lease, acquire}
use shipyard_cp.Concurrency.{ConcurrencyManager, EnqueueParams}
use shipyard_cp.Concurrency.Jobs.{
  RejectReason, CanAcceptResult, accepted, refused, can_accept, record_start,
}
use shipyard_cp.DoomLoop.{DoomLoopDetector}
use shipyard_cp.DoomLoop.Transitions.{track_transition}

pub data WorkspaceKind : Type 0 where
  container volume host_path : WorkspaceKind

pub record WorkspaceRef : Type 0 where
  pub workspace_id : String
  pub kind : WorkspaceKind
  pub reusable : Bool

-- The fields of a Task that a dispatch reads.
pub record DispatchTask : Type 0 where
  pub task_id : String
  pub typed_ref : String
  pub state : TaskState
  pub risk_level : RiskLevel
  pub workspace_ref : Option WorkspaceRef

pub record DispatchRequest : Type 0 where
  pub target_stage : WorkerStage
  pub worker_selection : Option WorkerType
  pub override_risk_level : Option RiskLevel

pub record WorkerJob : Type 0 where
  pub job_id : String
  pub task_id : String
  pub typed_ref : String
  pub stage : WorkerStage
  pub worker_type : WorkerType
  pub workspace_ref : WorkspaceRef
  pub capability_requirements : List Capability
  pub risk_level : RiskLevel
  pub approval_policy : ApprovalPolicy
  pub retry_policy : RetryPolicy
  pub retry_count : ℕ
  pub loop_fingerprint : String
  pub lease_owner : String
  pub lease_expires_at : ℕ
  pub requested_outputs : List RequestedOutput

-- DispatchDeps, with the tables of jobs and of retries that dispatch is given.
pub record DispatchDeps : Type 0 where
  pub capability_manager : CapabilityManager
  pub concurrency_manager : ConcurrencyManager
  pub lease_manager : LeaseManager
  pub doom_loop_detector : DoomLoopDetector
  pub jobs : JsMap WorkerJob
  pub retry_tracker : JsMap ℕ

-- The flags of the capability check.
pub record DispatchOptions : Type 0 where
  pub requires_network : Bool
  pub under_approval_flow : Bool
  pub produces_patch_artifact : Bool

-- What a dispatch takes from outside: the new identifier, the fingerprint and the clock.
pub record Fresh : Type 0 where
  pub job_id : String
  pub loop_fingerprint : String
  pub lease_checked : ℕ
  pub leased : ℕ
  pub started : ℕ
  pub tracked : ℕ

pub data DispatchResult : Type 0 where
  dispatched : WorkerJob → ActiveState → DispatchResult
  insufficient_capability :
      (missing_capabilities : List Capability) (resume_state : ActiveState) → DispatchResult

pub data DispatchError : Type 0 where
  no_dispatch : StateError → DispatchError
  cannot_dispatch_stage : TaskState → WorkerStage → DispatchError
  over_capacity : RejectReason → DispatchError
  no_lease : DispatchError

pub data AuditEvent : Type 0 where
  capability_mismatch : WorkerStage → WorkerType → CapabilityCheckResult → AuditEvent
  lock_conflict : WorkerStage → WorkerType → RejectReason → AuditEvent
  instruction_envelope_compiled : (job_id : String) → WorkerStage → AuditEvent

abbrev pub check_options : WorkerStage → DispatchOptions → CapabilityCheckOptions
check_options stage o = record {
  stage = stage;
  requires_network = o.requires_network;
  under_approval_flow = o.under_approval_flow;
  produces_patch_artifact = o.produces_patch_artifact;
}

-- A worker without capabilities is registered with the defaults of its type.
abbrev with_defaults : CapabilityManager → WorkerType → List Capability → CapabilityManager
with_defaults m worker [] =
    register_worker_capabilities m (worker_name worker) (default_worker_capabilities worker)
with_defaults m worker (c ∷ cs) = m

abbrev pub registered : CapabilityManager → WorkerType → CapabilityManager
registered m worker = with_defaults m worker (get_worker_capabilities m (worker_name worker))

unfoldable pub check_worker_capabilities :
    CapabilityManager
    → WorkerType
    → WorkerStage
    → DispatchOptions
    → CapabilityManager × CapabilityCheckResult
check_worker_capabilities m worker stage o = (
  registered m worker,
  check_capabilities (get_all_required_capabilities (check_options stage o))
      (get_worker_capabilities (registered m worker) (worker_name worker)),
)

abbrev default_workspace : String → WorkspaceRef
default_workspace task_id = record {
  workspace_id = append "ws_" task_id;
  kind = container;
  reusable = true;
}

-- baseJob
abbrev pub base_job :
    DispatchDeps
    → DispatchTask
    → DispatchRequest
    → WorkerType
    → List Capability
    → Fresh
    → Lease
    → WorkerJob
base_job d task request worker required fresh lease =
    let stage = request.target_stage in
    let risk = value_or request.override_risk_level task.risk_level in
    record {
      job_id = fresh.job_id;
      task_id = task.task_id;
      typed_ref = task.typed_ref;
      stage = stage;
      worker_type = worker;
      workspace_ref = value_or task.workspace_ref (default_workspace task.task_id);
      capability_requirements = required;
      risk_level = risk;
      approval_policy = build_approval_policy stage risk;
      retry_policy = record {
        max_retries = get_default_max_retries (stage_name stage);
        backoff_base_seconds = 2;
        max_backoff_seconds = 60;
        jitter_enabled = true;
      };
      retry_count =
          value_or (get d.retry_tracker (append task.task_id (append ":" (stage_name stage)))) 0;
      loop_fingerprint = fresh.loop_fingerprint;
      lease_owner = lease.lease_owner;
      lease_expires_at = lease.lease_expires_at;
      requested_outputs = get_requested_outputs stage;
    }
