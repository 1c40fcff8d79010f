-- ===== src/Result/Failures.antt =====
-- A failed result, with its retries, failovers and loops (result-orchestrator.ts).
use shipyard_cp.Base.{
  ℕ, ◌+◌, ◌≡◌, refl, ◌⊎◌, inl, inr, true, none, some, List, String, leb, Bool-cases, Option-cases,
  nat_eqb, string_eqb, Outcome, ok, thrown,
}
use shipyard_cp.JsMap.{has, get-set_self}
use shipyard_cp.Types.{WorkerStage, plan, dev, acceptance, FailureClass}
use shipyard_cp.StateMachine.{
  TaskState, planned, dev_completed, rework_required, state_eqb, can_transition,
}
use shipyard_cp.StateMachine
use shipyard_cp.RunGate.{failed, blocked}
use shipyard_cp.Retry.{should_retry}
use shipyard_cp.DoomLoop.{DoomLoopDetector, LoopDetectionResult}
use shipyard_cp.DoomLoop.Transitions.{detect_loop, find_loop, get_transition_history}
use shipyard_cp.Task.{Task, Update}
use shipyard_cp.Result.{
  repair_attempted, ResultError, WorkerResult, ResultJob, Fresh, Response, ResultState, emit_if,
}
use shipyard_cp.Result.Steps.{active_state, max_retries}
use shipyard_cp.Result.Reworks.{
  handle_final_failure, handle_doom_loop, previous_attempt, max_rework_attempts,
}
use shipyard_cp.Result.Apply.{
  structured_failure, without_loop, current_retry_count, retry_or_fail, failure_class_of,
  after_detection, failover_of, handle_failed_result,
}
use shipyard_cp.Result.Updates.{get_artifact_ids}
use shipyard_cp.Result.Effects.{
  Returns, IsMove, IsFinal, Handled, releases, handle_doom_loop-Returns, handle_retry-Returns,
  handle_failover-Returns, block_rework-Returns, require_rework-Returns,
}

-- The moves that the handlers ask for are allowed in the active state of the stage.
abbrev pub active : WorkerStage → TaskState
active stage = StateMachine.to_task_state (StateMachine.stage_to_active_state stage)

pub stage_moves :
    (stage : WorkerStage)
    → (can_transition (active stage) TaskState.blocked ≡ true)
      × (can_transition (active stage) rework_required ≡ true)
      × (can_transition (active stage) (active stage) ≡ true)
unfolding can_transition StateMachine.stage_to_active_state
stage_moves plan = (refl, refl, refl)
stage_moves dev = (refl, refl, refl)
stage_moves acceptance = (refl, refl, refl)

-- The lease is released and the slot given back, but for a job that goes on; a blocked result keeps
-- both; and a job whose states loop keeps its slot.
abbrev pub IsDisposed : ResultJob → WorkerResult → ResultState → ResultState → Response → Type 0
IsDisposed job result s t r =
    IsFinal job s t r
    ⊎ (((result.status ≡ blocked)
          × (t.lease_manager ≡ s.lease_manager)
          × (t.concurrency_manager ≡ s.concurrency_manager))
        ⊎ ((result.status ≡ failed)
            × (has t.doom_loop_detector.loop_results job.job_id ≡ true)
            × (t.lease_manager ≡ releases job s.lease_manager)
            × (t.concurrency_manager ≡ s.concurrency_manager)))

abbrev pub Answered :
    Task → ResultJob → WorkerResult → ResultState → ResultState → Response → Type 0
Answered task job result s t r = IsMove task s t r × IsDisposed job result s t r

pub Returns-map :
    (P Q : ResultState → Response → Type 0) (x : ResultState × Outcome ResultError Response)
    → ((t : ResultState) (r : Response) → P t r → Q t r)
    → Returns P x
    → Returns Q x
Returns-map P Q (t, ok a) f p = f t a p
Returns-map P Q (t, thrown e) f p = elim p [ ]

-- What detectLoop leaves: nothing, or the loop that it answers, under the job.
loop_cases :
    (d : DoomLoopDetector) (id : String) (detected now : ℕ)
    → ((detect_loop d id detected now).1 ≡ none)
      ⊎ ((loop : LoopDetectionResult) × ((detect_loop d id detected now).1 ≡ some loop)
          × (has (detect_loop d id detected now).0.loop_results id ≡ true))
unfolding detect_loop
loop_cases d id detected now =
    elim (Option-cases (find_loop d.max_repeats (get_transition_history d id) detected)) [
      | inl e ↦ inl (rw (e, detect_loop) refl)
      | inr (loop, e) ↦ inr (
        loop,
        rw (e, detect_loop) refl,
        rw (e, detect_loop) (rw (get-set_self d.loop_results id loop) refl),
      )
    ]

module _ (task : Task) (job : ResultJob) (result : WorkerResult) (h : task.state ≡ active_state job)
    (ids : List String) (g : get_artifact_ids result ≡ some ids) where
  pub to_blocked : can_transition task.state TaskState.blocked ≡ true
  to_blocked = rw h (stage_moves job.stage).0

  pub to_rework : can_transition task.state rework_required ≡ true
  to_rework = rw h (stage_moves job.stage).1

  pub to_active : can_transition task.state (active_state job) ≡ true
  to_active = rw h (stage_moves job.stage).2

  module _ (u : Update) (fresh : Fresh) (s : ResultState) where
    final_failure-Returns :
        (c : FailureClass)
        → Returns (Handled task job s) (handle_final_failure task job result c u fresh s)
    unfolding handle_final_failure
    final_failure-Returns c =
        elim (Bool-cases (leb max_rework_attempts (previous_attempt task job))) [
          | inl e ↦ rw e (block_rework-Returns task job result u fresh s ids g c to_blocked)
          | inr e ↦ rw e (require_rework-Returns task job result u fresh s ids g c to_rework)
        ]

    retry_or_fail-Returns :
        (count : ℕ) → Returns (Handled task job s) (retry_or_fail task job result count u fresh s)
    unfolding retry_or_fail
    retry_or_fail-Returns count =
        elim (Bool-cases (should_retry (failure_class_of result) count (max_retries job))) [
          | inl e ↦ rw e (
              handle_retry-Returns task job result u fresh
                (emit_if (structured_failure result)
                  (repair_attempted (count + 1) (max_retries job)) s).0
                ids g count (failure_class_of result) to_active)
          | inr e ↦ rw e (final_failure-Returns (failure_class_of result))
        ]

    without_loop-Returns :
        (count : ℕ) → Returns (Handled task job s) (without_loop task job result count u fresh s)
    unfolding without_loop
    without_loop-Returns count = elim (Option-cases (failover_of job)) [
      | inr (next, e) ↦
          rw (e, without_loop)
            (handle_failover-Returns task job result u fresh s ids g next to_active)
      | inl e ↦ rw (e, without_loop) (retry_or_fail-Returns count)
    ]

  module _ (u : Update) (fresh : Fresh) (s : ResultState) where
    detected : ResultState
    detected = record s {
      doom_loop_detector =
          (detect_loop s.doom_loop_detector job.job_id fresh.loop_detected fresh.loop_stored).0;
    }

    pub failed-Returns :
        result.status ≡ failed
        → Returns (Answered task job result s) (handle_failed_result task job result u fresh s)
    unfolding handle_failed_result after_detection detected
    failed-Returns f =
        elim (loop_cases s.doom_loop_detector job.job_id fresh.loop_detected fresh.loop_stored) [
          | inr (loop, e, k) ↦
              rw (e, after_detection)
                (Returns-map
                  (λ t r.
                    IsMove task s t r
                    × (t.lease_manager ≡ releases job s.lease_manager)
                    × (t.concurrency_manager ≡ s.concurrency_manager)
                    × (t.doom_loop_detector ≡ detected.doom_loop_detector))
                  (Answered task job result s)
                  (handle_doom_loop task job result loop u fresh detected)
                  (λ t r p. (p.0, inr (inr (f, rw (p.3) k, p.1, p.2))))
                  (handle_doom_loop-Returns task job result u fresh detected ids g loop to_blocked))
          | inl e ↦
              rw (e, after_detection)
                (Returns-map (Handled task job s) (Answered task job result s)
                  (without_loop task job result (current_retry_count task job result s) u fresh
                    detected)
                  (λ t r p. (p.0, inl p.1))
                  (without_loop-Returns u fresh detected (current_retry_count task job result s)))
        ]
