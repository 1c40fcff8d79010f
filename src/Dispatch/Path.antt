-- ===== src/Dispatch/Path.antt =====
-- The steps of a successful dispatch (dispatch-orchestrator.ts).
use shipyard_cp.Base.{
  ◌≡◌, refl, ◌∙◌, inl, inr, true, some, List, arith, Bool-cases, Option-cases, eqb, eqb_iff,
  nat_eqb, string_eqb, Outcome, ok, thrown,
}
use mathlib.Core.Path.{subst}
use shipyard_cp.Types.{WorkerStage, stage_eqb, WorkerType, worker_name, Capability}
use shipyard_cp.StateMachine.{
  ActiveState, StateError, get_allowed_dispatch_stage, stage_to_active_state,
}
use shipyard_cp.Lease.{Lease, acquire}
use shipyard_cp.Concurrency.Jobs.{accepted, can_accept}
use shipyard_cp.Dispatch.{
  DispatchTask, DispatchRequest, DispatchDeps, DispatchOptions, Fresh, WorkerJob, dispatched,
  check_worker_capabilities, base_job,
}
use shipyard_cp.Dispatch.Steps.{
  Answer, start_job, lease_job, accept_job, worker_of, check_job, dispatch,
}

-- The result is this job with this state.
abbrev pub Succeeds : Answer → WorkerJob → ActiveState → Type 0
Succeeds a job next = a.1.1 ≡ ok (dispatched job next)

module _ (task : DispatchTask) (request : DispatchRequest) (options : DispatchOptions)
    (fresh : Fresh) (job : WorkerJob) (next : ActiveState) where
  lease_passed :
      (d : DispatchDeps) (worker : WorkerType) (required : List Capability)
      → Succeeds (lease_job d task request worker required fresh) job next
      → let r =
          acquire d.lease_manager fresh.job_id
            (worker_name worker)
            fresh.lease_checked
            fresh.leased in
        (l : Lease) × (r.1 ≡ some l)
        × (lease_job d task request worker required fresh
            ≡ start_job (record d { lease_manager = r.0 }) task request worker required fresh l)
  unfolding lease_job
  lease_passed d worker required h =
      elim (Option-cases
        (acquire d.lease_manager fresh.job_id (worker_name worker) fresh.lease_checked
          fresh.leased).1) [ inl e ↦ absurd (ground arith) | inr (l, e) ↦ (l, e, ground arith) ]

  accept_passed :
      (d : DispatchDeps) (worker : WorkerType) (required : List Capability)
      → Succeeds (accept_job d task request worker required fresh) job next
      → (can_accept d.concurrency_manager (worker_name worker) ≡ accepted)
        × (accept_job d task request worker required fresh
            ≡ lease_job d task request worker required fresh)
  unfolding accept_job
  accept_passed d worker required h = (ground arith, ground arith)

  check_passed :
      (d : DispatchDeps)
      → Succeeds (check_job d task request options fresh) job next
      → let c =
          check_worker_capabilities d.capability_manager
            (worker_of request)
            request.target_stage
            options in
        (c.1.passed ≡ true)
        × (check_job d task request options fresh
            ≡ accept_job
                (record d { capability_manager = c.0 })
                task
                request
                (worker_of request)
                c.1.required
                fresh)
  unfolding check_job
  check_passed d h = (ground arith, ground arith)

  dispatch_passed :
      (d : DispatchDeps)
      → Succeeds (dispatch d task request options fresh) job next
      → (get_allowed_dispatch_stage task.state ≡ ok request.target_stage)
        × (dispatch d task request options fresh ≡ check_job d task request options fresh)
  unfolding dispatch
  dispatch_passed d h = by_stage (get_allowed_dispatch_stage task.state) refl
    where
      by_stage :
          (o : Outcome StateError WorkerStage)
          → get_allowed_dispatch_stage task.state ≡ o
          → (get_allowed_dispatch_stage task.state ≡ ok request.target_stage)
            × (dispatch d task request options fresh ≡ check_job d task request options fresh)
      by_stage (thrown e) g = absurd (ground arith)
      by_stage (ok s) g = elim (Bool-cases (eqb s request.target_stage)) [
        | inl same ↦ (ground (arith, eqb_iff s request.target_stage), ground arith)
        | inr other ↦ absurd (ground arith)
      ]

  -- The managers, the events and the job at the last step.
  unfoldable pub Started : DispatchDeps → Type 0
  Started d =
      let c =
        check_worker_capabilities d.capability_manager (worker_of request) request.target_stage
          options in
      let w = worker_name (worker_of request) in
      let r = acquire d.lease_manager fresh.job_id w fresh.lease_checked fresh.leased in
      (l : Lease) × (get_allowed_dispatch_stage task.state ≡ ok request.target_stage)
      × (c.1.passed ≡ true)
      × (can_accept d.concurrency_manager w ≡ accepted)
      × (r.1 ≡ some l)
      × (dispatch d task request options fresh
          ≡ start_job (record d { capability_manager = c.0; lease_manager = r.0 }) task request
              (worker_of request) c.1.required fresh l)

  pub started :
      (d : DispatchDeps) → Succeeds (dispatch d task request options fresh) job next → Started d
  unfolding Started
  started d h =
      let (stage, e) = dispatch_passed d h in
      let h1 = subst (λ a. Succeeds a job next) e h in
      let (passed, e2) = check_passed d h1 in
      let h2 = subst (λ a. Succeeds a job next) e2 h1 in
      let (free, e3) = accept_passed _ _ _ h2 in
      let (l, held, e4) = lease_passed _ _ _ (subst (λ a. Succeeds a job next) e3 h2) in
      (l, stage, passed, free, held, e ∙ e2 ∙ e3 ∙ e4)

  job_of :
      (d : DispatchDeps) (worker : WorkerType) (required : List Capability) (l : Lease)
      → Succeeds (start_job d task request worker required fresh l) job next
      → (base_job d task request worker required fresh l ≡ job)
        × (stage_to_active_state request.target_stage ≡ next)
  unfolding start_job
  job_of d worker required l h = (cc, cc)

  -- The managers at the last step.
  abbrev pub at_last : DispatchDeps → DispatchDeps
  at_last d = record d {
    capability_manager =
        (check_worker_capabilities d.capability_manager (worker_of request) request.target_stage
          options).0;
    lease_manager =
        (acquire d.lease_manager fresh.job_id (worker_name (worker_of request)) fresh.lease_checked
          fresh.leased).0;
  }

  abbrev pub required_caps : DispatchDeps → List Capability
  required_caps d =
      (check_worker_capabilities d.capability_manager (worker_of request) request.target_stage
        options).1.required

  pub started_job :
      (d : DispatchDeps) (l : Lease)
      → dispatch d task request options fresh
        ≡ start_job (at_last d) task request (worker_of request) (required_caps d) fresh l
      → Succeeds (dispatch d task request options fresh) job next
      → (base_job (at_last d) task request (worker_of request) (required_caps d) fresh l ≡ job)
        × (stage_to_active_state request.target_stage ≡ next)
  started_job d l e h =
      job_of (at_last d) (worker_of request) (required_caps d) l
        (subst (λ a. Succeeds a job next) e h)
