-- ===== src/Dispatch/Tests.antt =====
-- Dispatch at a concrete task (dispatch-orchestrator.ts).
use shipyard_cp.Base.{
  ◌≡◌, refl, true, false, none, some, [], arith, is_some, includes, nat_eqb, string_eqb, ok,
}
use shipyard_cp.JsMap.{get, set}
use shipyard_cp.Types.{stage_eqb, capability_eqb, dev, codex, low}
use shipyard_cp.StateMachine.{
  planned, accepted as accepted_state, TaskState, ActiveState, get_allowed_dispatch_stage,
  can_transition, stage_to_active_state,
}
use shipyard_cp.Capability.{
  check_capabilities, get_all_required_capabilities, get_required_capabilities_for_stage,
  get_worker_capabilities, register_worker_capabilities, has_all,
}
use shipyard_cp.WorkerPolicy.{get_default_worker, default_worker_capabilities}
use shipyard_cp.Lease.{Lease, acquire, default_lease_config, get_lease}
use shipyard_cp.Concurrency.{new_manager, default_concurrency_config}
use shipyard_cp.Concurrency.Jobs.{accepted, can_accept, jobs_of}
use shipyard_cp.Concurrency.Jobs.Limits.{IsSound, serve_all, limits_hold}
use shipyard_cp.DoomLoop.{new_detector, default_doom_loop_config, default_loop_fingerprint_config}
use shipyard_cp.Dispatch.{
  DispatchTask, DispatchRequest, DispatchDeps, DispatchOptions, Fresh, WorkerJob, dispatched,
  check_worker_capabilities, base_job,
}
use shipyard_cp.Dispatch.Steps.{dispatch, check_job, accept_job, lease_job, start_job}
use shipyard_cp.Dispatch.Success.{dispatch_guarded, dispatch_recorded}
use shipyard_cp.Dispatch.Refusals.{Untouched, refusal_harmless, dispatch-IsSound}
use shipyard_cp.Dispatch.Progress.{Gives, dispatch_succeeds}

abbrev deps : DispatchDeps
deps = record {
  capability_manager = [];
  concurrency_manager = new_manager default_concurrency_config;
  lease_manager = record { config = default_lease_config; leases = [] };
  doom_loop_detector = new_detector default_doom_loop_config default_loop_fingerprint_config;
  jobs = [];
  retry_tracker = [];
}

abbrev task : DispatchTask
task = record {
  task_id = "t";
  typed_ref = "r";
  state = planned;
  risk_level = low;
  workspace_ref = none;
}

abbrev request : DispatchRequest
request = record { target_stage = dev; worker_selection = none; override_risk_level = none }

abbrev options : DispatchOptions
options = record {
  requires_network = false;
  under_approval_flow = false;
  produces_patch_artifact = true;
}

abbrev fresh : Fresh
fresh = record {
  job_id = "j";
  loop_fingerprint = "f";
  lease_checked = 1;
  leased = 2;
  started = 3;
  tracked = 4;
}

abbrev lease : Lease
lease = record {
  job_id = "j";
  lease_owner = "codex";
  lease_expires_at = 300002;
  last_heartbeat_at = some 2;
  acquired_at = 2;
  orphaned_at = none;
  recovery_action = none;
}

dispatch_succeeds_example : (job : WorkerJob) × Gives deps task request options fresh job
unfolding check_capabilities get_all_required_capabilities get_required_capabilities_for_stage
    get_worker_capabilities register_worker_capabilities get set get_default_worker
    default_worker_capabilities get_allowed_dispatch_stage
dispatch_succeeds_example =
    dispatch_succeeds deps task request options fresh refl refl (omega arith) (omega arith) refl

dispatch-IsSound_example : IsSound (dispatch deps task request options fresh).0.concurrency_manager
unfolding serve_all
dispatch-IsSound_example =
    dispatch-IsSound deps task request options fresh (limits_hold default_concurrency_config [])

abbrev finished : DispatchTask
finished = record task { state = accepted_state }

refusal_harmless_example : Untouched deps (dispatch deps finished request options fresh)
unfolding dispatch get_allowed_dispatch_stage
refusal_harmless_example = refusal_harmless deps finished request options fresh refl

-- The job of the dispatch of `task`.
abbrev job : WorkerJob
job =
    base_job deps task request codex (check_worker_capabilities [] codex dev options).1.required
      fresh lease

gives_job :
    (dispatch deps task request options fresh).1.1 ≡ ok (dispatched job ActiveState.developing)
unfolding dispatch check_job accept_job lease_job start_job get_allowed_dispatch_stage
    stage_to_active_state acquire get set can_accept get_default_worker check_worker_capabilities
    check_capabilities get_all_required_capabilities get_required_capabilities_for_stage
    get_worker_capabilities register_worker_capabilities default_worker_capabilities
gives_job = refl

dispatch_guarded_example :
    let after = (dispatch deps task request options fresh).0 in
    (get_allowed_dispatch_stage planned ≡ ok dev)
    × (can_transition planned TaskState.developing ≡ true)
    × (can_accept deps.concurrency_manager "codex" ≡ accepted)
    × (has_all job.capability_requirements
          (get_worker_capabilities after.capability_manager "codex")
        ≡ true)
dispatch_guarded_example =
    dispatch_guarded deps task request options fresh job ActiveState.developing gives_job

dispatch_recorded_example :
    let after = (dispatch deps task request options fresh).0 in
    (get after.jobs "j" ≡ some job)
    × (is_some (get after.concurrency_manager.active_jobs "j") ≡ true)
    × (includes (jobs_of after.concurrency_manager "codex") "j" ≡ true)
    × (l : Lease) × (get_lease after.lease_manager "j" ≡ some l)
    × (l.lease_owner ≡ "codex")
    × (l.lease_expires_at ≡ 300002)
dispatch_recorded_example =
    dispatch_recorded deps task request options fresh job ActiveState.developing gives_job
