-- ===== src/Dispatch/Steps.antt =====
-- dispatch-orchestrator.ts: dispatch, from its last step to its first. Each step returns the
-- managers, the audit events and the result or the error.
use shipyard_cp.Base.{
  none, some, List, [], ◌∷◌, String, if◌then◌else◌, value_or, eqb, nat_eqb, string_eqb, Outcome, ok,
  thrown,
}
use shipyard_cp.JsMap.{set}
use shipyard_cp.Types.{WorkerStage, stage_eqb, stage_name, WorkerType, worker_name, Capability}
use shipyard_cp.StateMachine.{
  get_allowed_dispatch_stage, stage_to_active_state, to_task_state, state_name,
}
use shipyard_cp.WorkerPolicy.{get_default_worker}
use shipyard_cp.Lease.{Lease, acquire}
use shipyard_cp.Concurrency.{EnqueueParams}
use shipyard_cp.Concurrency.Jobs.{accepted, refused, can_accept, record_start}
use shipyard_cp.DoomLoop.Transitions.{track_transition}
use shipyard_cp.Dispatch.{
  DispatchTask, DispatchRequest, DispatchDeps, DispatchOptions, Fresh, DispatchResult, dispatched,
  insufficient_capability, DispatchError, no_dispatch, cannot_dispatch_stage, over_capacity,
  no_lease, AuditEvent, capability_mismatch, lock_conflict, instruction_envelope_compiled,
  check_worker_capabilities, base_job,
}

abbrev pub Answer : Type 0
Answer = DispatchDeps × (List AuditEvent × Outcome DispatchError DispatchResult)

abbrev pub start_params : String → WorkerType → WorkerStage → EnqueueParams
start_params job_id worker stage = record {
  job_id = job_id;
  worker_id = worker_name worker;
  stage = stage_name stage;
}

-- The job enters the table, the active jobs and the history of transitions.
unfoldable pub start_job :
    DispatchDeps
    → DispatchTask
    → DispatchRequest
    → WorkerType
    → List Capability
    → Fresh
    → Lease
    → Answer
start_job d task request worker required fresh lease =
    let job = base_job d task request worker required fresh lease in
    let stage = request.target_stage in
    let next_state = stage_to_active_state stage in
    (
      record d {
        jobs = set d.jobs fresh.job_id job;
        concurrency_manager =
            record_start d.concurrency_manager (start_params fresh.job_id worker stage)
              fresh.started;
        doom_loop_detector =
            track_transition d.doom_loop_detector fresh.job_id (state_name task.state)
              (state_name (to_task_state next_state)) (stage_name stage) fresh.tracked;
      },
      (instruction_envelope_compiled fresh.job_id stage ∷ [], ok (dispatched job next_state)),
    )

-- From the lease on.
unfoldable pub lease_job :
    DispatchDeps → DispatchTask → DispatchRequest → WorkerType → List Capability → Fresh → Answer
lease_job d task request worker required fresh =
    let (leases, lease) =
      acquire d.lease_manager fresh.job_id (worker_name worker) fresh.lease_checked fresh.leased in
    let d' = record d { lease_manager = leases } in
    elim lease [
      | none ↦ (d', ([], thrown no_lease))
      | some l ↦ start_job d' task request worker required fresh l
    ]

-- From the concurrency check on.
unfoldable pub accept_job :
    DispatchDeps → DispatchTask → DispatchRequest → WorkerType → List Capability → Fresh → Answer
accept_job d task request worker required fresh =
    elim (can_accept d.concurrency_manager (worker_name worker)) [
      | refused why ↦
          (d, (lock_conflict request.target_stage worker why ∷ [], thrown (over_capacity why)))
      | accepted ↦ lease_job d task request worker required fresh
    ]

-- request.worker_selection ?? WorkerPolicy.getDefaultWorker(request.target_stage)
abbrev pub worker_of : DispatchRequest → WorkerType
worker_of request = value_or request.worker_selection (get_default_worker request.target_stage)

-- From the capability check on.
unfoldable pub check_job :
    DispatchDeps → DispatchTask → DispatchRequest → DispatchOptions → Fresh → Answer
check_job d task request options fresh =
    let worker = worker_of request in
    let stage = request.target_stage in
    let (m, r) = check_worker_capabilities d.capability_manager worker stage options in
    let d' = record d { capability_manager = m } in
    if r.passed then accept_job d' task request worker r.required fresh else (
      d',
      (
        capability_mismatch stage worker r ∷ [],
        ok (insufficient_capability r.missing (stage_to_active_state stage)),
      ),
    )

unfoldable pub dispatch :
    DispatchDeps → DispatchTask → DispatchRequest → DispatchOptions → Fresh → Answer
dispatch d task request options fresh = elim (get_allowed_dispatch_stage task.state) [
  | thrown e ↦ (d, ([], thrown (no_dispatch e)))
  | ok allowed ↦
      if eqb allowed request.target_stage
      then check_job d task request options fresh
      else (d, ([], thrown (cannot_dispatch_stage task.state request.target_stage)))
]
