-- ===== src/WorkerPolicy/Choices.antt =====
-- Which choices the worker policy can make (worker-policy.ts).
use shipyard_cp.Base.{◌≡◌, ◌⊎◌, true, some, arith}
use shipyard_cp.Types.{WorkerStage, WorkerType, capability_eqb}
use shipyard_cp.Capability.{check_capabilities, get_required_capabilities_for_stage}
use shipyard_cp.WorkerPolicy.{get_default_worker, get_failover_worker, default_worker_capabilities}

-- The default worker of a stage, and every worker that the stage fails over to, passes the
-- capability check of the stage with the default capabilities.
pub chosen_workers_capable :
    (stage : WorkerStage) (current chosen : WorkerType)
    → (get_default_worker stage ≡ chosen) ⊎ (get_failover_worker stage current ≡ some chosen)
    → (check_capabilities
        (get_required_capabilities_for_stage stage)
        (default_worker_capabilities chosen)).passed
      ≡ true
unfolding check_capabilities get_required_capabilities_for_stage default_worker_capabilities
    get_default_worker get_failover_worker
chosen_workers_capable stage current chosen h = ground arith
