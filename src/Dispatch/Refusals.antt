-- ===== src/Dispatch/Refusals.antt =====
-- What a dispatch leaves, refused or not (dispatch-orchestrator.ts).
use shipyard_cp.Base.{
  ℕ, ◌≡◌, refl, inl, inr, Bool, true, false, Option, none, some, List, String, arith, Bool-cases,
  eqb, nat_eqb, string_eqb, Outcome, ok, thrown,
}
use shipyard_cp.Capability.{CapabilityManager, CapabilityCheckResult}
use shipyard_cp.Concurrency.Jobs.Limits.{IsSound, start-IsSound}
use shipyard_cp.Lease.Exclusion.{acquire_cases}
use shipyard_cp.Types.{WorkerStage, stage_eqb, WorkerType, worker_name, Capability}
use shipyard_cp.StateMachine.{StateError, get_allowed_dispatch_stage}
use shipyard_cp.Lease.{LeaseManager, Lease, acquire}
use shipyard_cp.Concurrency.Jobs.{CanAcceptResult, accepted, refused, can_accept}
use shipyard_cp.Dispatch.{
  DispatchTask, DispatchRequest, DispatchDeps, DispatchOptions, Fresh, DispatchResult, dispatched,
  insufficient_capability, DispatchError, check_worker_capabilities,
}
use shipyard_cp.Dispatch.Steps.{
  Answer, start_params, start_job, lease_job, accept_job, worker_of, check_job, dispatch,
}

-- Whether a job was dispatched.
abbrev pub is_dispatched : Outcome DispatchError DispatchResult → Bool
is_dispatched (ok (dispatched job next)) = true
is_dispatched (ok (insufficient_capability missing resume)) = false
is_dispatched (thrown e) = false

-- Nothing but the registry of capabilities differs.
abbrev pub Untouched : DispatchDeps → Answer → Type 0
Untouched d a =
    (a.0.jobs ≡ d.jobs)
    × (a.0.concurrency_manager ≡ d.concurrency_manager)
    × (a.0.lease_manager ≡ d.lease_manager)
    × (a.0.doom_loop_detector ≡ d.doom_loop_detector)

-- What a step keeps: nothing changes if it refuses, and the limits hold either way.
record Keeps (d : DispatchDeps) (a : Answer) : Type 0 where
  refused_untouched : is_dispatched a.1.1 ≡ false → Untouched d a
  limits : IsSound d.concurrency_manager → IsSound a.0.concurrency_manager

acquire-none :
    (m : LeaseManager) (job owner : String) (checked now : ℕ)
    → (acquire m job owner checked now).1 ≡ none
    → (acquire m job owner checked now).0 ≡ m
acquire-none m job owner checked now h = ground (arith, acquire_cases m job owner job checked now)

lease-Keeps :
    (d : DispatchDeps) (task : DispatchTask) (request : DispatchRequest) (worker : WorkerType)
    (required : List Capability) (fresh : Fresh)
    → can_accept d.concurrency_manager (worker_name worker) ≡ accepted
    → Keeps d (lease_job d task request worker required fresh)
unfolding lease_job start_job
lease-Keeps d task request worker required fresh free =
    by_lease
      (acquire d.lease_manager fresh.job_id (worker_name worker) fresh.lease_checked fresh.leased).1
      refl
  where
    by_lease :
        (r : Option Lease)
        → (acquire d.lease_manager fresh.job_id
            (worker_name worker)
            fresh.lease_checked
            fresh.leased).1
          ≡ r
        → Keeps d (lease_job d task request worker required fresh)
    by_lease none e =
        rw (e, lease_job)
          (record {
            refused_untouched = λ h. (
              refl,
              refl,
              acquire-none d.lease_manager fresh.job_id (worker_name worker) fresh.lease_checked
                  fresh.leased e,
              refl,
            );
            limits = λ s. s;
          })
    by_lease (some l) e =
        rw (e, lease_job)
          (record {
            refused_untouched = λ h. cc;
            limits = λ s.
                start-IsSound d.concurrency_manager
                  (start_params fresh.job_id worker request.target_stage) fresh.started free s;
          })

accept-Keeps :
    (d : DispatchDeps) (task : DispatchTask) (request : DispatchRequest) (worker : WorkerType)
    (required : List Capability) (fresh : Fresh)
    → Keeps d (accept_job d task request worker required fresh)
unfolding accept_job
accept-Keeps d task request worker required fresh =
    by_answer (can_accept d.concurrency_manager (worker_name worker)) refl
  where
    by_answer :
        (r : CanAcceptResult)
        → can_accept d.concurrency_manager (worker_name worker) ≡ r
        → Keeps d (accept_job d task request worker required fresh)
    by_answer (refused why) e =
        rw (e, accept_job)
          (record { refused_untouched = λ h. (refl, refl, refl, refl); limits = λ s. s })
    by_answer accepted e = rw (e, accept_job) (lease-Keeps d task request worker required fresh e)

check-Keeps :
    (d : DispatchDeps) (task : DispatchTask) (request : DispatchRequest) (options : DispatchOptions)
    (fresh : Fresh)
    → Keeps d (check_job d task request options fresh)
unfolding check_job
check-Keeps d task request options fresh = elim (Bool-cases c.1.passed) [
  | inl e ↦ rw e (record { refused_untouched = kept.refused_untouched; limits = kept.limits })
  | inr e ↦ rw e (record { refused_untouched = λ h. (refl, refl, refl, refl); limits = λ s. s })
]
  where
    c : CapabilityManager × CapabilityCheckResult
    c =
        check_worker_capabilities d.capability_manager (worker_of request) request.target_stage
          options

    kept :
        Keeps
          (record d { capability_manager = c.0 })
          (accept_job
            (record d { capability_manager = c.0 })
            task
            request
            (worker_of request)
            c.1.required
            fresh)
    kept =
        accept-Keeps (record d { capability_manager = c.0 }) task request (worker_of request)
          c.1.required fresh

dispatch-Keeps :
    (d : DispatchDeps) (task : DispatchTask) (request : DispatchRequest) (options : DispatchOptions)
    (fresh : Fresh)
    → Keeps d (dispatch d task request options fresh)
unfolding dispatch
dispatch-Keeps d task request options fresh = by_stage (get_allowed_dispatch_stage task.state) refl
  where
    by_stage :
        (o : Outcome StateError WorkerStage)
        → get_allowed_dispatch_stage task.state ≡ o
        → Keeps d (dispatch d task request options fresh)
    by_stage (thrown err) e =
        rw (e, dispatch)
          (record { refused_untouched = λ h. (refl, refl, refl, refl); limits = λ s. s })
    by_stage (ok s) e = elim (Bool-cases (eqb s request.target_stage)) [
      | inl same ↦ rw (e, same, dispatch) (check-Keeps d task request options fresh)
      | inr other ↦
          rw (e, other, dispatch)
            (record { refused_untouched = λ h. (refl, refl, refl, refl); limits = λ s. s })
    ]

-- A dispatch that gives no job, by an error or for want of a capability, leaves the jobs, the
-- limits, the leases and the histories as they were.
pub refusal_harmless :
    (d : DispatchDeps) (task : DispatchTask) (request : DispatchRequest) (options : DispatchOptions)
    (fresh : Fresh)
    → is_dispatched (dispatch d task request options fresh).1.1 ≡ false
    → Untouched d (dispatch d task request options fresh)
refusal_harmless d task request options fresh h =
    (dispatch-Keeps d task request options fresh).refused_untouched h

-- Whatever its result, a dispatch keeps the limits on active jobs.
pub dispatch-IsSound :
    (d : DispatchDeps) (task : DispatchTask) (request : DispatchRequest) (options : DispatchOptions)
    (fresh : Fresh)
    → IsSound d.concurrency_manager
    → IsSound (dispatch d task request options fresh).0.concurrency_manager
dispatch-IsSound d task request options fresh s =
    (dispatch-Keeps d task request options fresh).limits s
