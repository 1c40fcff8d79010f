-- ===== src/Orphan/Tests.antt =====
-- Orphans at concrete times (orphan-recovery.ts, orphan-scanner.ts).
use shipyard_cp.Base.{
  ℕ, ◌<◌, ◌≡◌, refl, ◌↔◌, ◌⊎◌, true, false, none, some, String, nat_eqb, string_eqb,
}
use shipyard_cp.Types.{WorkerStage}
use shipyard_cp.StateMachine.{blocked, can_transition}
use shipyard_cp.Lease.{Lease, retry, block, is_lease_expired}
use shipyard_cp.Orphan.{
  OrphanRecoveryConfig, plan, dev, acceptance, orphan, lease_expired, detect_orphan,
  determine_recovery_action, should_auto_recover, get_max_retries_for_stage, stage_to_state,
}
use shipyard_cp.Orphan.Decisions.{
  input_of, task_state, expiry_agrees, decision_cases, auto_recover_agrees,
}
use shipyard_cp.Orphan.Scan.{OrphanScanner, JobInfo}

-- DEFAULT_ORPHAN_CONFIG
abbrev config : OrphanRecoveryConfig
config = record {
  lease_timeout_seconds = 300;
  heartbeat_interval_seconds = 30;
  max_recovery_attempts = 3;
}

abbrev held : Lease
held = record {
  job_id = "j";
  lease_owner = "w";
  lease_expires_at = 300000;
  last_heartbeat_at = some 0;
  acquired_at = 0;
  orphaned_at = none;
  recovery_action = none;
}

-- The test allows what the decision never does.
acceptance_blocks :
    (should_auto_recover config acceptance 0 ≡ true)
    × ((determine_recovery_action config acceptance 0).action ≡ block)
unfolding should_auto_recover get_max_retries_for_stage determine_recovery_action
acceptance_blocks = (refl, refl)

expiry_agrees_example :
    (is_lease_expired held 300000 ≡ true)
    ↔ (detect_orphan config (input_of dev held) 300001 ≡ orphan lease_expired)
expiry_agrees_example = expiry_agrees config dev held 300000

decision_cases_example :
    let d = determine_recovery_action config plan 1 in
    let state = task_state (stage_to_state plan) in
    ((d.action ≡ retry)
      × (((plan ≡ plan) × (d.target_stage ≡ some WorkerStage.plan))
          ⊎ ((plan ≡ dev) × (d.target_stage ≡ some WorkerStage.dev)))
      × (1 < get_max_retries_for_stage config plan))
    ⊎ ((d.action ≡ block)
        × (d.resume_state ≡ some (stage_to_state plan))
        × (can_transition state blocked ≡ true)
        × (can_transition blocked state ≡ true))
decision_cases_example = decision_cases config plan 1

auto_recover_agrees_example :
    (should_auto_recover config dev 3 ≡ true)
    ↔ ((determine_recovery_action config dev 3).action ≡ retry)
auto_recover_agrees_example = auto_recover_agrees config dev 3 (λ e. cc)

abbrev scanner : OrphanScanner
scanner = record {
  config = config;
  records_expiry = true;
  records_recovery = true;
  scan_interval = false;
  is_scanning = false;
}

abbrev job : String → ℕ → JobInfo
job id expires = record {
  job_id = id;
  task_id = "t";
  stage = dev;
  lease_expires_at = expires;
  last_heartbeat_at = none;
  retry_count = 0;
}
