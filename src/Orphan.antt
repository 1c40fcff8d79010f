-- ===== src/Orphan.antt =====
-- src/domain/orphan/orphan-recovery.ts: which jobs are orphans, and what is done about one. Times
-- are milliseconds; each reading of the clock is an argument.
pub mod Scan
pub mod Decisions
mod Tests
use shipyard_cp.Base.{
  ℕ, ◌+◌, ◌*◌, min, Bool, true, false, ◌&&◌, Option, none, some, String, ltb, if◌then◌else◌,
  nat_eqb, string_eqb,
}
use shipyard_cp.Types.{WorkerStage}
use shipyard_cp.Lease.{RecoveryAction, retry, block}

pub record OrphanRecoveryConfig : Type 0 where
  pub lease_timeout_seconds : ℕ
  pub heartbeat_interval_seconds : ℕ
  pub max_recovery_attempts : ℕ

-- WorkerStage | ControlPlaneStage
pub data ControlPlaneStage : Type 0 where
  plan dev acceptance integrating publishing : ControlPlaneStage

pub data ControlPlaneState : Type 0 where
  planning developing accepting integrating publishing : ControlPlaneState

pub data WaitingOnKind : Type 0 where
  litellm worker human github environment : WaitingOnKind

pub data OrphanReason : Type 0 where
  lease_expired heartbeat_timeout : OrphanReason

pub record OrphanCheckInput : Type 0 where
  pub job_id : String
  pub stage : ControlPlaneStage
  pub lease_expires_at : ℕ
  pub last_heartbeat_at : Option ℕ

-- is_orphan is true exactly where there is a reason.
pub data OrphanCheckResult : Type 0 where
  no_orphan : OrphanCheckResult
  orphan : OrphanReason → OrphanCheckResult

pub record OrphanRecoveryDecision : Type 0 where
  pub action : RecoveryAction
  pub target_stage : Option WorkerStage
  pub resume_state : Option ControlPlaneState

pub record BlockedContext : Type 0 where
  pub resume_state : ControlPlaneState
  pub reason : String
  pub waiting_on : WaitingOnKind
  pub orphaned_run : Bool

-- HEARTBEAT_THRESHOLD_MULTIPLIER
abbrev heartbeat_threshold_multiplier : ℕ
heartbeat_threshold_multiplier = 5

-- now - last > threshold, where the clock may have gone back.
abbrev heartbeat_late : OrphanRecoveryConfig → Option ℕ → ℕ → Bool
heartbeat_late c none now = false
heartbeat_late c (some last) now =
    ltb (last + c.heartbeat_interval_seconds * heartbeat_threshold_multiplier * 1000) now

unfoldable pub detect_orphan :
    OrphanRecoveryConfig → OrphanCheckInput → (now : ℕ) → OrphanCheckResult
detect_orphan c input now =
    if ltb input.lease_expires_at now
    then orphan lease_expired
    else if heartbeat_late c input.last_heartbeat_at now
    then orphan heartbeat_timeout
    else no_orphan

unfoldable pub stage_to_state : ControlPlaneStage → ControlPlaneState
stage_to_state plan = planning
stage_to_state dev = developing
stage_to_state acceptance = accepting
stage_to_state ControlPlaneStage.integrating = ControlPlaneState.integrating
stage_to_state ControlPlaneStage.publishing = ControlPlaneState.publishing

unfoldable pub get_max_retries_for_stage : OrphanRecoveryConfig → ControlPlaneStage → ℕ
get_max_retries_for_stage c plan = min 2 c.max_recovery_attempts
get_max_retries_for_stage c dev = min 3 c.max_recovery_attempts
get_max_retries_for_stage c acceptance = min 1 c.max_recovery_attempts
get_max_retries_for_stage c _ = 0

abbrev block_in : ControlPlaneState → OrphanRecoveryDecision
block_in state = record { action = block; target_stage = none; resume_state = some state }

-- The part of determineRecoveryAction for the worker stages that can retry.
abbrev retry_or_block :
    OrphanRecoveryConfig → ControlPlaneStage → WorkerStage → ℕ → OrphanRecoveryDecision
retry_or_block c stage worker_stage retry_count =
    if ltb retry_count (get_max_retries_for_stage c stage)
    then record { action = retry; target_stage = some worker_stage; resume_state = none }
    else block_in (stage_to_state stage)

unfoldable pub determine_recovery_action :
    OrphanRecoveryConfig → ControlPlaneStage → ℕ → OrphanRecoveryDecision
determine_recovery_action c ControlPlaneStage.integrating retry_count =
    block_in (stage_to_state ControlPlaneStage.integrating)
determine_recovery_action c ControlPlaneStage.publishing retry_count =
    block_in (stage_to_state ControlPlaneStage.publishing)
determine_recovery_action c acceptance retry_count = block_in accepting
determine_recovery_action c plan retry_count = retry_or_block c plan WorkerStage.plan retry_count
determine_recovery_action c dev retry_count = retry_or_block c dev WorkerStage.dev retry_count

unfoldable pub get_waiting_on_for_stage : ControlPlaneStage → WaitingOnKind
get_waiting_on_for_stage ControlPlaneStage.integrating = github
get_waiting_on_for_stage ControlPlaneStage.publishing = environment
get_waiting_on_for_stage acceptance = human
get_waiting_on_for_stage _ = worker

unfoldable pub generate_blocked_context : ControlPlaneStage → ControlPlaneState → BlockedContext
generate_blocked_context stage original_state = record {
  resume_state = original_state;
  reason = "job_orphaned";
  waiting_on = get_waiting_on_for_stage stage;
  orphaned_run = true;
}

unfoldable pub should_auto_recover : OrphanRecoveryConfig → ControlPlaneStage → ℕ → Bool
should_auto_recover c stage retry_count =
    let max_retries = get_max_retries_for_stage c stage in
    ltb 0 max_retries && ltb retry_count max_retries
