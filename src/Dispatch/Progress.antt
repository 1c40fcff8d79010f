-- ===== src/Dispatch/Progress.antt =====
-- When a dispatch gives a job, and which (dispatch-orchestrator.ts).
use shipyard_cp.Base.{
  ℕ, ◌<◌, ◌≡◌, refl, ap, ◌∙◌, true, none, some, List, String, arith, length, includes, eqb_refl,
  nat_eqb, string_eqb, ok,
}
use shipyard_cp.JsMap.{get, size}
use shipyard_cp.Types.{stage_eqb, worker_name, Capability}
use shipyard_cp.StateMachine.{
  get_allowed_dispatch_stage, stage_to_active_state, to_task_state, can_transition,
}
use shipyard_cp.StateMachine.Runs.{dispatch_allowed}
use shipyard_cp.Capability.{
  get_all_required_capabilities, get_worker_capabilities, has_all, check_capabilities,
}
use shipyard_cp.Lease.{LeaseManager, Lease, acquire, get_lease, new_lease}
use shipyard_cp.Lease.Exclusion.{acquire_cases}
use shipyard_cp.Concurrency.{ConcurrencyManager}
use shipyard_cp.Concurrency.Jobs.{accepted, can_accept, jobs_of}
use shipyard_cp.Dispatch.{
  DispatchTask, DispatchRequest, DispatchDeps, DispatchOptions, Fresh, WorkerJob, base_job,
  check_worker_capabilities, check_options, registered,
}
use shipyard_cp.Dispatch.Steps.{start_job, lease_job, accept_job, worker_of, check_job, dispatch}
use shipyard_cp.Dispatch.Path.{Succeeds}
use shipyard_cp.Dispatch.Success.{checked, held, start_records}

room_accepts :
    (m : ConcurrencyManager) (w : String)
    → size m.active_jobs < m.max_concurrent_global
    → length (jobs_of m w) < m.max_concurrent_per_worker
    → can_accept m w ≡ accepted
unfolding can_accept
room_accepts m w g h = ground (arith, g, h)

acquire-some :
    (m : LeaseManager) (job owner : String) (checked now : ℕ)
    → get m.leases job ≡ none
    → (acquire m job owner checked now).1 ≡ some (new_lease m job owner now)
unfolding get_lease
acquire-some m job owner checked now h =
    ground (arith, h, acquire_cases m job owner job checked now)

module _ (d : DispatchDeps) (task : DispatchTask) (request : DispatchRequest)
    (options : DispatchOptions) (fresh : Fresh) where
  abbrev owner : String
  owner = worker_name (worker_of request)

  -- The capabilities that the stage and the options require.
  abbrev pub required : List Capability
  required = get_all_required_capabilities (check_options request.target_stage options)

  -- The lease that a new job is under.
  abbrev pub fresh_lease : Lease
  fresh_lease = new_lease d.lease_manager fresh.job_id owner fresh.leased

  -- A dispatch that gives this job, recorded and under its lease.
  pub record Gives (job : WorkerJob) : Type 0 where
    pub returned :
        Succeeds
          (dispatch d task request options fresh)
          job
          (stage_to_active_state request.target_stage)
    pub allowed :
        can_transition task.state (to_task_state (stage_to_active_state request.target_stage))
        ≡ true
    pub of_task : (job.task_id ≡ task.task_id) × (job.typed_ref ≡ task.typed_ref)
    pub new : job.job_id ≡ fresh.job_id
    pub in_stage : job.stage ≡ request.target_stage
    pub by_worker : job.worker_type ≡ worker_of request
    pub with_capabilities : job.capability_requirements ≡ required
    pub recorded : get (dispatch d task request options fresh).0.jobs fresh.job_id ≡ some job
    pub counted :
        includes
          (jobs_of (dispatch d task request options fresh).0.concurrency_manager owner)
          fresh.job_id
        ≡ true
    pub leased :
        get_lease (dispatch d task request options fresh).0.lease_manager fresh.job_id
        ≡ some fresh_lease
    pub due : job.lease_expires_at ≡ fresh_lease.lease_expires_at

  abbrev last : DispatchDeps
  last = record d {
    capability_manager = registered d.capability_manager (worker_of request);
    lease_manager = (acquire d.lease_manager fresh.job_id owner fresh.lease_checked fresh.leased).0;
  }

  abbrev new_job : WorkerJob
  new_job = base_job last task request (worker_of request) required fresh fresh_lease

  lease_reaches :
      (e : DispatchDeps)
      → get e.lease_manager.leases fresh.job_id ≡ none
      → lease_job e task request (worker_of request) required fresh
        ≡ start_job
            (record e {
              lease_manager =
                  (acquire e.lease_manager fresh.job_id owner fresh.lease_checked fresh.leased).0;
            })
            task
            request
            (worker_of request)
            required
            fresh
            (new_lease e.lease_manager fresh.job_id owner fresh.leased)
  unfolding lease_job
  lease_reaches e unheld = ground (
    arith,
    acquire-some e.lease_manager fresh.job_id owner fresh.lease_checked fresh.leased unheld,
  )

  able_passes :
      has_all required
          (get_worker_capabilities (registered d.capability_manager (worker_of request)) owner)
        ≡ true
      → (check_capabilities required (
          get_worker_capabilities
            (registered d.capability_manager (worker_of request))
            owner)).passed
        ≡ true
  unfolding check_worker_capabilities check_capabilities
  able_passes able =
      checked d.capability_manager (worker_of request) request.target_stage options ∙ able

  reaches :
      get_allowed_dispatch_stage task.state ≡ ok request.target_stage
      → has_all required
          (get_worker_capabilities (registered d.capability_manager (worker_of request)) owner)
        ≡ true
      → can_accept d.concurrency_manager owner ≡ accepted
      → get d.lease_manager.leases fresh.job_id ≡ none
      → dispatch d task request options fresh
        ≡ start_job last task request (worker_of request) required fresh fresh_lease
  unfolding dispatch check_job accept_job check_worker_capabilities check_capabilities
  reaches stage able free unheld = ground (
    arith,
    eqb_refl request.target_stage,
    able_passes able,
    lease_reaches
        (record d { capability_manager = registered d.capability_manager (worker_of request) })
        unheld,
  )

  gives :
      get_allowed_dispatch_stage task.state ≡ ok request.target_stage
      → get d.lease_manager.leases fresh.job_id ≡ none
      → dispatch d task request options fresh
        ≡ start_job last task request (worker_of request) required fresh fresh_lease
      → Gives new_job
  unfolding start_job
  gives stage unheld e =
      let (in_jobs, active, of_worker, kept) =
        start_records task request fresh last (worker_of request) required fresh_lease in
      let (lease, same) =
        held d.lease_manager fresh.job_id owner fresh.lease_checked fresh.leased fresh_lease (
          acquire-some d.lease_manager fresh.job_id owner fresh.lease_checked fresh.leased
            unheld) in
      record {
        returned = ap (λ a. a.1.1) e;
        allowed = dispatch_allowed task.state request.target_stage stage;
        of_task = (refl, refl);
        new = refl;
        in_stage = refl;
        by_worker = refl;
        with_capabilities = refl;
        recorded = ap (λ a. get a.0.jobs fresh.job_id) e ∙ in_jobs;
        counted =
            ap (λ a. includes (jobs_of a.0.concurrency_manager owner) fresh.job_id) e ∙ of_worker;
        leased = ap (λ a. get_lease a.0.lease_manager fresh.job_id) e ∙ lease;
        due = refl;
      }

  -- A dispatch of the stage that the task's state allows gives a job, if the worker has every
  -- capability that the stage and the options require, both limits have room and no lease is held
  -- under the new identifier. The job is of the task, the stage, the worker and the new identifier
  -- and requires those capabilities; it is recorded, counted for its worker and under a lease of it,
  -- whose deadline it bears; and the state that is returned is the active one of the stage, to which
  -- the state machine allows the move.
  pub dispatch_succeeds :
      get_allowed_dispatch_stage task.state ≡ ok request.target_stage
      → has_all required
          (get_worker_capabilities (registered d.capability_manager (worker_of request)) owner)
        ≡ true
      → size d.concurrency_manager.active_jobs < d.concurrency_manager.max_concurrent_global
      → length (jobs_of d.concurrency_manager owner)
        < d.concurrency_manager.max_concurrent_per_worker
      → get d.lease_manager.leases fresh.job_id ≡ none
      → (job : WorkerJob) × Gives job
  dispatch_succeeds stage able global worker unheld = (
    new_job,
    gives stage unheld
        (reaches stage able (room_accepts d.concurrency_manager owner global worker) unheld),
  )
