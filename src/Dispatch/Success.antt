-- ===== src/Dispatch/Success.antt =====
-- After a successful dispatch (dispatch-orchestrator.ts).
use shipyard_cp.Base.{
  ℕ, ◌≡◌, refl, sym, ap, ◌∙◌, true, some, List, String, eq_refl, arith, is_some, includes, nat_eqb,
  string_eqb, ok,
}
use shipyard_cp.JsMap.{get, get-set_self, includes-add}
use shipyard_cp.StateMachine.Runs.{dispatch_allowed}
use shipyard_cp.Capability.{
  CapabilityManager, check_capabilities, get_all_required_capabilities, get_worker_capabilities,
  has_all,
}
use shipyard_cp.Capability.Checks.{check_splits}
use shipyard_cp.Types.{WorkerStage, stage_eqb, WorkerType, worker_name, Capability}
use shipyard_cp.StateMachine.{
  ActiveState, get_allowed_dispatch_stage, to_task_state, can_transition,
}
use shipyard_cp.Lease.{LeaseManager, Lease, acquire, get_lease, new_lease}
use shipyard_cp.Concurrency.Jobs.Limits.{jobs_of-record_start}
use shipyard_cp.Concurrency.Jobs.{job_record, accepted, can_accept, record_start, jobs_of}
use shipyard_cp.Dispatch.{
  DispatchTask, DispatchRequest, DispatchDeps, DispatchOptions, Fresh, WorkerJob,
  check_worker_capabilities, base_job, registered, check_options,
}
use shipyard_cp.Dispatch.Steps.{start_params, start_job, worker_of, dispatch}
use shipyard_cp.Dispatch.Path.{Succeeds, Started, started, started_job, at_last, required_caps}

pub checked :
    (m : CapabilityManager) (worker : WorkerType) (stage : WorkerStage) (o : DispatchOptions)
    → let c = check_worker_capabilities m worker stage o in
      c.1.passed ≡ has_all c.1.required (get_worker_capabilities c.0 (worker_name worker))
unfolding check_worker_capabilities check_capabilities
checked m worker stage o =
    (check_splits (get_all_required_capabilities (check_options stage o))
      (get_worker_capabilities (registered m worker) (worker_name worker))).1

pub held :
    (m : LeaseManager) (job owner : String) (checked now : ℕ) (l : Lease)
    → (acquire m job owner checked now).1 ≡ some l
    → (get_lease (acquire m job owner checked now).0 job ≡ some l) × (l.lease_owner ≡ owner)
unfolding acquire get_lease
held m job owner checked now l h =
    ground (arith, get-set_self m.leases job (new_lease m job owner now))

pub start_records :
    (task : DispatchTask) (request : DispatchRequest) (fresh : Fresh) (d : DispatchDeps)
    (worker : WorkerType) (required : List Capability) (l : Lease)
    → let after = (start_job d task request worker required fresh l).0 in
      (get after.jobs fresh.job_id ≡ some (base_job d task request worker required fresh l))
      × (is_some (get after.concurrency_manager.active_jobs fresh.job_id) ≡ true)
      × (includes (jobs_of after.concurrency_manager (worker_name worker)) fresh.job_id ≡ true)
      × (after.lease_manager ≡ d.lease_manager)
unfolding start_job record_start
start_records task request fresh d worker required l = (
  get-set_self d.jobs fresh.job_id (base_job d task request worker required fresh l),
  ground (
    arith,
    get-set_self d.concurrency_manager.active_jobs fresh.job_id
        (job_record (start_params fresh.job_id worker request.target_stage) fresh.started),
  ),
  rw
      (jobs_of-record_start d.concurrency_manager
        (start_params fresh.job_id worker request.target_stage) fresh.started (worker_name worker))
      (ground (
        arith,
        eq_refl (worker_name worker),
        eq_refl fresh.job_id,
        includes-add (jobs_of d.concurrency_manager (worker_name worker)) fresh.job_id fresh.job_id,
      )),
  refl,
)

-- A dispatch succeeds only in a state that allows the stage of its job, with room for the worker
-- in both limits and every required capability of the worker; and the state machine allows the
-- move to the state that is returned.
pub dispatch_guarded :
    (d : DispatchDeps) (task : DispatchTask) (request : DispatchRequest) (options : DispatchOptions)
    (fresh : Fresh) (job : WorkerJob) (next : ActiveState)
    → Succeeds (dispatch d task request options fresh) job next
    → let w = worker_name job.worker_type in
      let after = (dispatch d task request options fresh).0 in
      (get_allowed_dispatch_stage task.state ≡ ok job.stage)
      × (can_transition task.state (to_task_state next) ≡ true)
      × (can_accept d.concurrency_manager w ≡ accepted)
      × (has_all job.capability_requirements (get_worker_capabilities after.capability_manager w)
          ≡ true)
unfolding Started start_job
dispatch_guarded d task request options fresh job next h =
    let (l, stage, passed, free, got, e) = started task request options fresh job next d h in
    let (same, state) = started_job task request options fresh job next d l e h in
    rw (← same, ← state, e)
      (
        stage,
        dispatch_allowed task.state request.target_stage stage,
        free,
        sym (checked d.capability_manager (worker_of request) request.target_stage options)
            ∙ passed,
      )

-- After a successful dispatch the job stands in the table of jobs, in the active jobs and in the
-- set of its worker, and it is under a lease of that worker with the deadline that the job bears.
pub dispatch_recorded :
    (d : DispatchDeps) (task : DispatchTask) (request : DispatchRequest) (options : DispatchOptions)
    (fresh : Fresh) (job : WorkerJob) (next : ActiveState)
    → Succeeds (dispatch d task request options fresh) job next
    → let w = worker_name job.worker_type in
      let after = (dispatch d task request options fresh).0 in
      (get after.jobs job.job_id ≡ some job)
      × (is_some (get after.concurrency_manager.active_jobs job.job_id) ≡ true)
      × (includes (jobs_of after.concurrency_manager w) job.job_id ≡ true)
      × (l : Lease) × (get_lease after.lease_manager job.job_id ≡ some l)
      × (l.lease_owner ≡ w)
      × (l.lease_expires_at ≡ job.lease_expires_at)
unfolding Started
dispatch_recorded d task request options fresh job next h =
    let (l, stage, passed, free, got, e) = started task request options fresh job next d h in
    let (same, state) = started_job task request options fresh job next d l e h in
    let last = at_last task request options fresh job next d in
    let caps = required_caps task request options fresh job next d in
    let (in_jobs, active, of_worker, kept) =
      start_records task request fresh last (worker_of request) caps l in
    let (lease, owner) =
      held d.lease_manager fresh.job_id (worker_name (worker_of request)) fresh.lease_checked
        fresh.leased l got in
    rw (← same, e)
      (in_jobs, active, of_worker, l, ap (λ m. get_lease m fresh.job_id) kept ∙ lease, owner, refl)
