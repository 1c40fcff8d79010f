-- ===== src/Orphan/Scan/Accounts.antt =====
-- What a scan reports (orphan-scanner.ts).
use shipyard_cp.Base.{ℕ, List, [], ◌∷◌, nat_eqb, string_eqb}
use shipyard_cp.Orphan.{OrphanCheckResult, no_orphan, orphan, determine_recovery_action}
use shipyard_cp.Orphan.Scan.{OrphanScanner, JobInfo, ScanAction, check}

-- The reports of the jobs that are orphans when they are checked, in the order of the jobs.
abbrev report : OrphanScanner → JobInfo → OrphanCheckResult → List ScanAction → List ScanAction
report s j no_orphan rest = rest
report s j (orphan reason) rest =
    record {
      job_id = j.job_id;
      task_id = j.task_id;
      action = (determine_recovery_action s.config j.stage j.retry_count).action;
      reason = reason;
    }
    ∷ rest

unfoldable pub expected : OrphanScanner → List (JobInfo × ℕ) → List ScanAction
expected s [] = []
expected s ((j, now) ∷ js) = report s j (check s j now) (expected s js)
