-- ===== src/WorkerPolicy/Tests.antt =====
-- The worker policy at concrete stages (worker-policy.ts).
use shipyard_cp.Base.{◌≡◌, refl, none, nat_eqb, string_eqb}
use shipyard_cp.Types.{WorkerStage, google_antigravity, capability_eqb}
use shipyard_cp.WorkerPolicy.{get_failover_worker}

last_worker : get_failover_worker WorkerStage.plan google_antigravity ≡ none
unfolding get_failover_worker
last_worker = refl
