-- ===== src/Result/Effects.antt =====
-- What each handler of result-orchestrator.ts leaves behind.
use shipyard_cp.Base.{
  ℕ, ◌≡◌, refl, ◌⊎◌, inl, inr, Bool, true, false, some, List, [], ◌∷◌, String, if◌then◌else◌,
  Bool-cases, nat_eqb, string_eqb, Outcome, ok, thrown,
}
use shipyard_cp.JsMap.{get, get-set_self}
use shipyard_cp.Types.{worker_name, WorkerType, FailureClass}
use shipyard_cp.StateMachine.{blocked, rework_required, state_eqb, can_transition}
use shipyard_cp.RunGate.{RunSystemGateReport}
use shipyard_cp.Lease.{LeaseManager, release}
use shipyard_cp.Concurrency.{ConcurrencyManager}
use shipyard_cp.Concurrency.Jobs.{record_complete}
use shipyard_cp.DoomLoop.{LoopDetectionResult}
use shipyard_cp.TaskUpdate.{apply_task_update}
use shipyard_cp.Task.{Task, Update, StateTransitionEvent, ValidationError}
use shipyard_cp.TaskService.{transition_task}
use shipyard_cp.Result.{
  ResultError, WorkerResult, ResultJob, Fresh, Response, ResultAction, retry, failover, ResultState,
  move,
}
use shipyard_cp.Result.Updates.{get_artifact_ids}
use shipyard_cp.Result.Steps.{finalize_job, release_lease, active_state}
use shipyard_cp.Result.Rejections.{
  handle_run_system_gate_blocked, retry_schema_error, reject_result, to_manual_gate,
}
use shipyard_cp.Result.Reworks.{
  handle_blocked_result, handle_doom_loop, handle_retry, handle_failover, block_rework,
  require_rework,
}

-- A call returns, in a state and with an answer for which P holds.
abbrev pub Returns :
    {A : Type 0} → (ResultState → A → Type 0) → ResultState × Outcome ResultError A → Type 0
Returns P (t, ok a) = P t a
Returns P (t, thrown e) = ⊥

-- One event leads from the state of the task to that of the answer, which is stored; or no event is
-- emitted, the state stays and nothing is stored.
abbrev pub IsMove : Task → ResultState → ResultState → Response → Type 0
IsMove task s t r =
    ((e : StateTransitionEvent) × (r.emitted_events ≡ e ∷ [])
      × (e.from_state ≡ task.state)
      × (e.to_state ≡ r.task.state)
      × (get t.store.tasks task.task_id ≡ some r.task))
    ⊎ ((r.emitted_events ≡ []) × (r.task.state ≡ task.state) × (t.store ≡ s.store))

abbrev pub releases : ResultJob → LeaseManager → LeaseManager
releases job m = (release m job.job_id (worker_name job.worker_type)).0

abbrev pub completes : ResultJob → ConcurrencyManager → ConcurrencyManager
completes job m = record_complete m job.job_id (worker_name job.worker_type)

-- A job that goes on, by a retry or by another worker, keeps its slot.
abbrev pub goes_on : ResultAction → Bool
goes_on retry = true
goes_on failover = true
goes_on _ = false

-- The lease is released, and the slot is given back where the job does not go on.
abbrev pub IsFinal : ResultJob → ResultState → ResultState → Response → Type 0
IsFinal job s t r =
    (t.lease_manager ≡ releases job s.lease_manager)
    × (t.concurrency_manager ≡ (
        if goes_on r.next_action
        then s.concurrency_manager
        else completes job s.concurrency_manager))

-- Every handler but the one of a blocked result.
abbrev pub Handled : Task → ResultJob → ResultState → ResultState → Response → Type 0
Handled task job s t r = IsMove task s t r × IsFinal job s t r

module _ (task : Task) (job : ResultJob) (result : WorkerResult) (u : Update) (fresh : Fresh)
    (s : ResultState) (ids : List String) (g : get_artifact_ids result ≡ some ids) where
  pub handle_doom_loop-Returns :
      (loop : LoopDetectionResult)
      → can_transition task.state blocked ≡ true
      → Returns
          (λ t r.
            IsMove task s t r
            × (t.lease_manager ≡ releases job s.lease_manager)
            × (t.concurrency_manager ≡ s.concurrency_manager)
            × (t.doom_loop_detector ≡ s.doom_loop_detector))
          (handle_doom_loop task job result loop u fresh s)
  unfolding handle_doom_loop move finalize_job transition_task
  handle_doom_loop-Returns loop h =
      rw (g, h) (inl (_, refl, refl, refl, get-set_self _ _ _), refl, refl, refl)

  pub handle_blocked_result-Returns :
      can_transition task.state blocked ≡ true
      → Returns
          (λ t r.
            IsMove task s t r
            × (t.lease_manager ≡ s.lease_manager)
            × (t.concurrency_manager ≡ s.concurrency_manager))
          (handle_blocked_result task job result u fresh s)
  unfolding handle_blocked_result move transition_task
  handle_blocked_result-Returns h =
      rw (g, h) (inl (_, refl, refl, refl, get-set_self _ _ _), refl, refl)

  pub handle_retry-Returns :
      (count : ℕ) (c : FailureClass)
      → can_transition task.state (active_state job) ≡ true
      → Returns (Handled task job s) (handle_retry task job result count c u fresh s)
  unfolding handle_retry move release_lease transition_task
  handle_retry-Returns count c h =
      rw (g, h) (inl (_, refl, refl, refl, get-set_self _ _ _), (refl, refl))

  pub handle_failover-Returns :
      (next : WorkerType)
      → can_transition task.state (active_state job) ≡ true
      → Returns (Handled task job s) (handle_failover task job result next u fresh s)
  unfolding handle_failover move release_lease transition_task
  handle_failover-Returns next h =
      rw (g, h) (inl (_, refl, refl, refl, get-set_self _ _ _), (refl, refl))

  pub block_rework-Returns :
      (c : FailureClass)
      → can_transition task.state blocked ≡ true
      → Returns (Handled task job s) (block_rework task job result c u fresh s)
  unfolding block_rework move finalize_job transition_task
  block_rework-Returns c h = rw (g, h) (inl (_, refl, refl, refl, get-set_self _ _ _), (refl, refl))

  pub require_rework-Returns :
      (c : FailureClass)
      → can_transition task.state rework_required ≡ true
      → Returns (Handled task job s) (require_rework task job result c u fresh s)
  unfolding require_rework move finalize_job transition_task
  require_rework-Returns c h =
      rw (g, h) (inl (_, refl, refl, refl, get-set_self _ _ _), (refl, refl))

module _ (task : Task) (job : ResultJob) (result : WorkerResult) (fresh : Fresh) (s : ResultState)
    (ids : List String) (g : get_artifact_ids result ≡ some ids) where
  pub gate_blocked-Returns :
      (report : RunSystemGateReport)
      → can_transition task.state blocked ≡ true
      → Returns (Handled task job s) (handle_run_system_gate_blocked task job result report fresh s)
  unfolding handle_run_system_gate_blocked move finalize_job transition_task apply_task_update
  gate_blocked-Returns report h =
      rw (g, h) (inl (_, refl, refl, refl, get-set_self _ _ _), (refl, refl))

  pub retry_schema_error-Returns :
      (count : ℕ)
      → can_transition task.state (active_state job) ≡ true
      → Returns (Handled task job s) (retry_schema_error task job result count fresh s)
  unfolding retry_schema_error move release_lease transition_task
  retry_schema_error-Returns count h =
      rw (g, h) (inl (_, refl, refl, refl, get-set_self _ _ _), (refl, refl))

  pub reject_result-Returns :
      (errors : List ValidationError)
      → can_transition task.state blocked ≡ true
      → can_transition task.state rework_required ≡ true
      → Returns (Handled task job s) (reject_result task job result errors fresh s)
  unfolding reject_result move finalize_job transition_task
  reject_result-Returns errors h k = elim (Bool-cases (to_manual_gate job errors)) [
    | inl e ↦ rw (e, g, h) (inl (_, refl, refl, refl, get-set_self _ _ _), (refl, refl))
    | inr e ↦ rw (e, g, k) (inl (_, refl, refl, refl, get-set_self _ _ _), (refl, refl))
  ]
