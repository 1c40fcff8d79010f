-- ===== src/Orphan/Scan.antt =====
-- src/domain/orphan/orphan-scanner.ts: a scan over the active jobs. What a scan asks of its context
-- is a list of effects, in their order; a callback of the context that throws is not modelled.
pub mod Accounts
use shipyard_cp.Base.{
  ℕ, suc, Bool, true, false, Option, some, List, [], ◌∷◌, ◌++◌, String, if◌then◌else◌, length,
  nat_eqb, string_eqb,
}
use Prim.Native.String.{◌++◌ as append}
use shipyard_cp.Types.{WorkerStage}
use shipyard_cp.Lease.{RecoveryAction, retry, block}
use shipyard_cp.Orphan.{
  OrphanRecoveryConfig, ControlPlaneStage, ControlPlaneState, OrphanReason, lease_expired,
  heartbeat_timeout, OrphanCheckResult, no_orphan, orphan, OrphanRecoveryDecision, detect_orphan,
  determine_recovery_action,
}

pub record JobInfo : Type 0 where
  pub job_id : String
  pub task_id : String
  pub stage : ControlPlaneStage
  pub lease_expires_at : ℕ
  pub last_heartbeat_at : Option ℕ
  pub retry_count : ℕ

pub record ScanAction : Type 0 where
  pub job_id : String
  pub task_id : String
  pub action : RecoveryAction
  pub reason : OrphanReason

pub record OrphanScanResult : Type 0 where
  pub scanned : ℕ
  pub orphans_detected : ℕ
  pub recovery_actions : List ScanAction

-- The calls that a scan makes.
pub data Effect : Type 0 where
  record_lease_expired : ControlPlaneStage → Effect
  record_orphan_recovered : ControlPlaneStage → RecoveryAction → Effect
  retry_job : (task_id : String) → WorkerStage → Effect
  block_task : (task_id reason : String) → ControlPlaneState → (orphaned_run : Bool) → Effect
  audit_orphan_detected :
      (task_id job_id : String) → ControlPlaneStage → OrphanReason → RecoveryAction → Effect
  audit_heartbeat_missed : (task_id job_id : String) → ControlPlaneStage → Option ℕ → Effect

-- Whether the context has the two optional callbacks.
pub record OrphanScanner : Type 0 where
  pub config : OrphanRecoveryConfig
  pub records_expiry : Bool
  pub records_recovery : Bool
  pub scan_interval : Bool
  pub is_scanning : Bool

abbrev reason_text : OrphanReason → String
reason_text lease_expired = "lease_expired"
reason_text heartbeat_timeout = "heartbeat_timeout"

abbrev pub check : OrphanScanner → JobInfo → ℕ → OrphanCheckResult
check s j now =
    detect_orphan s.config
      (record {
        job_id = j.job_id;
        stage = j.stage;
        lease_expires_at = j.lease_expires_at;
        last_heartbeat_at = j.last_heartbeat_at;
      })
      now

abbrev acted : JobInfo → RecoveryAction → OrphanReason → ScanAction
acted j action reason = record {
  job_id = j.job_id;
  task_id = j.task_id;
  action = action;
  reason = reason;
}

-- Executing the recovery action: the entry of the result, and the call.
unfoldable pub execute :
    JobInfo
    → OrphanReason
    → RecoveryAction
    → Option WorkerStage
    → Option ControlPlaneState
    → List ScanAction × List Effect
execute j reason retry (some stage) resume =
    (acted j retry reason ∷ [], retry_job j.task_id stage ∷ [])
execute j reason block target (some state) = (
  acted j block reason ∷ [],
  block_task j.task_id (append "job_orphaned:" (reason_text reason)) state true ∷ [],
)
execute j reason action target resume = ([], [])

abbrev missed : JobInfo → OrphanReason → List Effect
missed j lease_expired = []
missed j heartbeat_timeout =
    audit_heartbeat_missed j.task_id j.job_id j.stage j.last_heartbeat_at ∷ []

abbrev when : Bool → Effect → List Effect
when true e = e ∷ []
when false e = []

-- What is done about one orphan.
unfoldable pub recover : OrphanScanner → JobInfo → OrphanReason → List ScanAction × List Effect
unfolding execute
recover s j reason =
    let d = determine_recovery_action s.config j.stage j.retry_count in
    let (actions, calls) = execute j reason d.action d.target_stage d.resume_state in
    (
      actions,
      when s.records_expiry (record_lease_expired j.stage)
          ++ when s.records_recovery (record_orphan_recovered j.stage d.action)
          ++ calls
          ++ audit_orphan_detected j.task_id j.job_id j.stage reason d.action ∷ missed j reason,
    )

abbrev no_result : OrphanScanResult
no_result = record { scanned = 0; orphans_detected = 0; recovery_actions = [] }

-- One job, and the jobs after it.
abbrev add_job :
    OrphanScanner
    → JobInfo
    → OrphanCheckResult
    → OrphanScanResult × List Effect
    → OrphanScanResult × List Effect
add_job s j no_orphan (r, effects) = (r, effects)
add_job s j (orphan reason) (r, effects) =
    let (actions, calls) = recover s j reason in
    (
      record r {
        orphans_detected = suc r.orphans_detected;
        recovery_actions = actions ++ r.recovery_actions;
      },
      calls ++ effects,
    )

-- The loop over the active jobs, each with the reading of the clock at its check.
unfoldable pub scan_jobs : OrphanScanner → List (JobInfo × ℕ) → OrphanScanResult × List Effect
scan_jobs s [] = (no_result, [])
scan_jobs s ((j, now) ∷ js) = add_job s j (check s j now) (scan_jobs s js)

-- A scan that is called while another runs does nothing.
unfoldable pub scan :
    OrphanScanner → List (JobInfo × ℕ) → OrphanScanner × (OrphanScanResult × List Effect)
scan s jobs =
    if s.is_scanning
    then (s, (no_result, []))
    else let (r, effects) = scan_jobs s jobs in
      (record s { is_scanning = false }, (record r { scanned = length jobs }, effects))

-- The interval is set after a first scan.
unfoldable pub start : OrphanScanner → List (JobInfo × ℕ) → OrphanScanner × List Effect
start s jobs =
    if s.scan_interval
    then (s, [])
    else (record (scan s jobs).0 { scan_interval = true }, (scan s jobs).1.1)

unfoldable pub stop : OrphanScanner → OrphanScanner
stop s = record s { scan_interval = false }

unfoldable pub is_running : OrphanScanner → Bool
is_running s = s.scan_interval
