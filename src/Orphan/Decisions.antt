-- ===== src/Orphan/Decisions.antt =====
-- What is decided about one job, beside the other parts (orphan-recovery.ts).
use shipyard_cp.Base.{ℕ, suc, ◌<◌, ◌≡◌, ◌≢◌, ◌↔◌, ◌⊎◌, true, some, arith, nat_eqb, string_eqb}
use shipyard_cp.Types.{WorkerStage}
use shipyard_cp.StateMachine.{TaskState, blocked, state_eqb, can_transition}
use shipyard_cp.Lease.{Lease, retry, block, is_lease_expired}
use shipyard_cp.Orphan.{
  OrphanRecoveryConfig, OrphanCheckInput, ControlPlaneStage, ControlPlaneState, plan, dev,
  acceptance, orphan, lease_expired, detect_orphan, determine_recovery_action, should_auto_recover,
  planning, developing, accepting, get_max_retries_for_stage, stage_to_state,
}

-- The input of a check for a job under a lease.
abbrev pub input_of : ControlPlaneStage → Lease → OrphanCheckInput
input_of stage l = record {
  job_id = l.job_id;
  stage = stage;
  lease_expires_at = l.lease_expires_at;
  last_heartbeat_at = l.last_heartbeat_at;
}

-- A lease that the recovery takes for expired is expired for the lease manager; and one that is
-- expired for the lease manager is so for the recovery one millisecond later, not before.
pub expiry_agrees :
    (c : OrphanRecoveryConfig) (stage : ControlPlaneStage) (l : Lease) (now : ℕ)
    → (is_lease_expired l now ≡ true)
      ↔ (detect_orphan c (input_of stage l) (suc now) ≡ orphan lease_expired)
unfolding detect_orphan
expiry_agrees c stage l now = (ground arith, ground arith)

-- The state of the state machine of that name.
abbrev pub task_state : ControlPlaneState → TaskState
task_state planning = TaskState.planning
task_state developing = TaskState.developing
task_state accepting = TaskState.accepting
task_state ControlPlaneState.integrating = TaskState.integrating
task_state ControlPlaneState.publishing = TaskState.publishing

can_block : (s : ControlPlaneState) → can_transition (task_state s) blocked ≡ true
unfolding can_transition
can_block s = ground arith

can_resume : (s : ControlPlaneState) → can_transition blocked (task_state s) ≡ true
unfolding can_transition
can_resume s = ground arith

-- An orphan is retried or blocked, never failed. It is retried only in plan and dev and below that
-- stage's limit, and the target of the retry is the stage that it was in; a blocked one resumes in
-- the state of its stage, and the state machine allows both the move to blocked and the move back.
pub decision_cases :
    (c : OrphanRecoveryConfig) (stage : ControlPlaneStage) (retry_count : ℕ)
    → let d = determine_recovery_action c stage retry_count in
      let state = task_state (stage_to_state stage) in
      ((d.action ≡ retry)
        × (((stage ≡ plan) × (d.target_stage ≡ some WorkerStage.plan))
            ⊎ ((stage ≡ dev) × (d.target_stage ≡ some WorkerStage.dev)))
        × (retry_count < get_max_retries_for_stage c stage))
      ⊎ ((d.action ≡ block)
          × (d.resume_state ≡ some (stage_to_state stage))
          × (can_transition state blocked ≡ true)
          × (can_transition blocked state ≡ true))
unfolding determine_recovery_action stage_to_state
decision_cases c stage n =
    ground (arith, can_block (stage_to_state stage), can_resume (stage_to_state stage))

-- Outside acceptance the test for automatic recovery agrees with the decision to retry.
pub auto_recover_agrees :
    (c : OrphanRecoveryConfig) (stage : ControlPlaneStage) (retry_count : ℕ)
    → stage ≢ acceptance
    → (should_auto_recover c stage retry_count ≡ true)
      ↔ ((determine_recovery_action c stage retry_count).action ≡ retry)
unfolding should_auto_recover determine_recovery_action get_max_retries_for_stage
auto_recover_agrees c stage n h = (ground arith, ground arith)
