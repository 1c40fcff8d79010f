-- ===== src/Result/Total.antt =====
-- Every result of a task that is worked on is handled (applyResult of result-orchestrator.ts).
use shipyard_cp.Base.{
  ◌≡◌, refl, ◌⊎◌, inl, inr, Bool, true, false, not, ◌&&◌, none, some, List, [], ◌∷◌, String, arith,
  Bool-cases, Option-cases, is_some, value_or, nat_eqb, string_eqb, Outcome, thrown,
}
use shipyard_cp.JsMap.{get}
use shipyard_cp.Types.{retryable_transient}
use shipyard_cp.StateMachine.{state_eqb}
use shipyard_cp.RunGate.{is_empty, WorkerStatus, succeeded, failed, blocked, RunSystemGateReport}
use shipyard_cp.Retry.{should_retry}
use shipyard_cp.TaskUpdate.{merge_task_updates}
use shipyard_cp.Task.{Task, Update, ValidationError}
use shipyard_cp.Result.{
  acceptance_gate_required, emit_if, permission_escalated, ResultError, WorkerResult, ResultJob,
  Response, ResultState,
}
use shipyard_cp.Result.Updates.{
  acceptance_gate, get_artifact_ids, gate_ids, needs_gate, updates_of,
  compute_task_updates_from_result,
}
use shipyard_cp.Result.Steps.{active_state, retry_key, max_retries}
use shipyard_cp.Result.Rejections.{
  handle_validation_failure, handle_run_system_gate_blocked, is_retryable_schema_error,
}
use shipyard_cp.Result.Reworks.{handle_blocked_result}
use shipyard_cp.Result.{emit, packet_prepared, gate_evaluated}
use shipyard_cp.Result.{type_error}
use shipyard_cp.Result.Rejections.{retry_schema_error, reject_result}
use shipyard_cp.Result.Apply.{artifact_count}
use shipyard_cp.Result.Apply.{emit_external}
use shipyard_cp.Result.Apply.{
  Inputs, validate, emit_run_system_packet, errors_of, handle_status, after_gate, after_validation,
  apply_valid, apply_result, gate_report,
}
use shipyard_cp.Result.Stages.{handle_succeeded_result_final}
use shipyard_cp.Result.Failures.{
  Answered, Returns-map, to_blocked, to_rework, to_active, failed-Returns,
}
use shipyard_cp.Result.Success.{succeeded-Returns}
use shipyard_cp.Result.Effects.{
  Returns, IsMove, Handled, handle_blocked_result-Returns, gate_blocked-Returns,
  retry_schema_error-Returns, reject_result-Returns,
}

module _ (task : Task) (job : ResultJob) (result : WorkerResult) (i : Inputs)
    (h : task.state ≡ active_state job) (ids : List String)
    (g : get_artifact_ids result ≡ some ids) where
  lift :
      (s : ResultState) (x : ResultState × Outcome ResultError Response)
      → Returns (Handled task job s) x
      → Returns (Answered task job result s) x
  lift s x p =
      Returns-map (Handled task job s) (Answered task job result s) x (λ t r q. (q.0, inl q.1)) p

  validation-Returns :
      (errors : List ValidationError) (s : ResultState)
      → Returns (Handled task job s) (handle_validation_failure task job result errors i.fresh s)
  unfolding handle_validation_failure
  validation-Returns errors s =
      let count = value_or (get s.retry_tracker (retry_key task job)) 0 in
      elim (Bool-cases (
        is_retryable_schema_error errors
        && should_retry retryable_transient count (max_retries job))) [
          | inl e ↦
              rw (e, handle_validation_failure)
                (retry_schema_error-Returns task job result i.fresh s ids g count
                  (to_active task job result h ids g))
          | inr e ↦
              rw (e, handle_validation_failure)
                (reject_result-Returns task job result i.fresh s ids g errors
                  (to_blocked task job result h ids g) (to_rework task job result h ids g))
        ]

  status-Returns :
      (x : WorkerStatus) (u : Update) (s : ResultState)
      → result.status ≡ x
      → Returns (Answered task job result s) (handle_status x task job result i u s)
  unfolding handle_status
  status-Returns succeeded u s e =
      lift s (handle_succeeded_result_final task job result u i.generate_manual_checklist i.fresh s)
        (succeeded-Returns task job result i.generate_manual_checklist u i.fresh s h ids g)
  status-Returns failed u s e = failed-Returns task job result h ids g u i.fresh s e
  status-Returns blocked u s e =
      Returns-map
        (λ t r.
          IsMove task s t r
          × (t.lease_manager ≡ s.lease_manager)
          × (t.concurrency_manager ≡ s.concurrency_manager))
        (Answered task job result s) (handle_blocked_result task job result u i.fresh s)
        (λ t r p. (p.0, inr (inl (e, p.1, p.2))))
        (handle_blocked_result-Returns task job result u i.fresh s ids g
          (to_blocked task job result h ids g))

  gate_state : List String → ResultState → ResultState
  gate_state used s =
      (emit_if (not (is_empty result.requested_escalations))
        (permission_escalated result.requested_escalations)
        (emit_if (needs_gate job result)
          (acceptance_gate_required (acceptance_gate job used i.fresh)) s).0).0

  gate-Returns :
      (blocks : Bool) (report : RunSystemGateReport) (s : ResultState)
      → Returns (Answered task job result s) (after_gate blocks task job result i report s)
  unfolding after_gate compute_task_updates_from_result gate_state
  gate-Returns true report s =
      lift s (handle_run_system_gate_blocked task job result report i.fresh s) (
        gate_blocked-Returns task job result i.fresh s ids g report
          (to_blocked task job result h ids g))
  gate-Returns false report s = elim (Option-cases (gate_ids job result)) [
    | inl e ↦ absurd (ground (arith, e, g))
    | inr (used, e) ↦
        rw (e, compute_task_updates_from_result)
          (status-Returns result.status (merge_task_updates (updates_of job result used i.fresh))
            (gate_state used s) refl)
  ]

  packet_state : ResultState → ResultState
  packet_state s =
      (emit (gate_evaluated (gate_report i))
        (emit packet_prepared (emit_external i.external_report s).0).0).0

  valid-Returns :
      (s : ResultState) → Returns (Answered task job result s) (apply_valid task job result i s)
  unfolding apply_valid emit_run_system_packet get_artifact_ids artifact_count packet_state
  valid-Returns s = elim (Option-cases (artifact_count result)) [
    | inl e ↦ absurd (ground (arith, e, g))
    | inr (count, e) ↦
        rw (e, emit_run_system_packet)
          (gate-Returns (gate_report i).blocks_shipyard_transition (gate_report i) (packet_state s))
  ]

  validated-Returns :
      (errors : List ValidationError) (s : ResultState)
      → Returns (Answered task job result s) (after_validation task job result i errors s)
  validated-Returns [] s = valid-Returns s
  validated-Returns (e ∷ es) s =
      lift s (handle_validation_failure task job result (e ∷ es) i.fresh s)
        (validation-Returns (e ∷ es) s)

ids_of :
    (result : WorkerResult)
    → is_some result.artifacts ≡ true
    → (ids : List String) × (get_artifact_ids result ≡ some ids)
unfolding get_artifact_ids
ids_of result h = elim (Option-cases (get_artifact_ids result)) [
  | inl e ↦ absurd (ground (arith, e, h))
  | inr p ↦ p
]

no_ids :
    (result : WorkerResult)
    → is_some result.artifacts ≡ false
    → (get_artifact_ids result ≡ none) × (artifact_count result ≡ none)
unfolding get_artifact_ids artifact_count
no_ids result h = (ground (arith, h), ground (arith, h))

module _ (task : Task) (job : ResultJob) (result : WorkerResult) (i : Inputs)
    (g : get_artifact_ids result ≡ none) where
  validation-throws :
      (errors : List ValidationError) (s : ResultState)
      → (handle_validation_failure task job result errors i.fresh s).1 ≡ thrown type_error
  unfolding handle_validation_failure retry_schema_error reject_result
  validation-throws errors s =
      elim (Bool-cases (
        is_retryable_schema_error errors
        && should_retry retryable_transient (value_or (get s.retry_tracker (retry_key task job)) 0)
            (max_retries job))) [
              | inl e ↦ rw (e, g, handle_validation_failure, retry_schema_error) refl
              | inr e ↦ rw (e, g, handle_validation_failure, reject_result) refl
            ]

  validated-throws :
      (errors : List ValidationError) (s : ResultState)
      → artifact_count result ≡ none
      → (after_validation task job result i errors s).1 ≡ thrown type_error
  unfolding apply_valid emit_run_system_packet
  validated-throws [] s c = rw (c, apply_valid, emit_run_system_packet) refl
  validated-throws (e ∷ es) s c = validation-throws (e ∷ es) s

-- A result for a task that is in the active state of its job's stage is always handled if it has its
-- artifacts: applyResult throws nothing. It emits the one event of a move from the task's state to
-- that of the answer, which is stored, or, where the task waits for its manual acceptance, no event.
-- The lease of the job is released; its slot is given back unless it is retried or handed to another
-- worker; but a result of status blocked may keep both, and a failed job with a loop in its states
-- keeps the slot. A result without artifacts always throws a TypeError.
pub result_handled :
    (task : Task) (job : ResultJob) (result : WorkerResult) (i : Inputs) (s : ResultState)
    → task.state ≡ active_state job
    → ((is_some result.artifacts ≡ true)
        × Returns (Answered task job result s) (apply_result task job result i s))
      ⊎ ((is_some result.artifacts ≡ false)
          × ((apply_result task job result i s).1 ≡ thrown type_error))
unfolding apply_result validate
result_handled task job result i s h = elim (Bool-cases (is_some result.artifacts)) [
  | inl a ↦
      let (ids, g) = ids_of result a in
      inl (
        a,
        validated-Returns task job result i h ids g (errors_of i.checks) (validate i.checks s).0,
      )
  | inr a ↦
      let (g, c) = no_ids result a in
      inr (a, validated-throws task job result i g (errors_of i.checks) (validate i.checks s).0 c)
]
