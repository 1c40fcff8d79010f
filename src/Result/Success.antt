-- ===== src/Result/Success.antt =====
-- A result that succeeded, stage by stage (stage-result-handlers.ts).
use shipyard_cp.Base.{
  ◌≡◌, refl, some, List, String, ◌⊎◌, inl, inr, true, List, Bool-cases, nat_eqb, string_eqb,
}
use shipyard_cp.JsMap.{get-set_self}
use shipyard_cp.Types.{WorkerStage, plan, dev, acceptance}
use shipyard_cp.StateMachine.{
  TaskState, planned, dev_completed, rework_required, state_eqb, can_transition,
}
use shipyard_cp.StateMachine
use shipyard_cp.TaskUpdate.{merge_task_updates}
use shipyard_cp.Task.{Task, Update, ManualChecklistItem}
use shipyard_cp.TaskService.{transition_task}
use shipyard_cp.Result.{WorkerResult, ResultJob, Fresh, ResultState, move}
use shipyard_cp.Result.Updates.{get_artifact_ids}
use shipyard_cp.Result.Steps.{finalize_job, active_state}
use shipyard_cp.Result.Stages.{
  turned_down, handle_succeeded_stage, handle_stage, handle_succeeded_result_final,
}
use shipyard_cp.Result.Failures.{stage_moves}
use shipyard_cp.Result.Effects.{Returns, Handled}

stage_cases : (stage : WorkerStage) → (stage ≡ plan) ⊎ ((stage ≡ dev) ⊎ (stage ≡ acceptance))
stage_cases plan = inl refl
stage_cases dev = inr (inl refl)
stage_cases acceptance = inr (inr refl)

-- The moves of a success.
success_moves :
    (can_transition TaskState.planning planned ≡ true)
    × (can_transition TaskState.developing dev_completed ≡ true)
unfolding can_transition
success_moves = (refl, refl)

module _ (task : Task) (job : ResultJob) (result : WorkerResult)
    (generate : Task → List ManualChecklistItem) (u : Update) (fresh : Fresh) (s : ResultState)
    (h : task.state ≡ active_state job) (ids : List String)
    (g : get_artifact_ids result ≡ some ids) where
  plan-Returns :
      job.stage ≡ plan
      → Returns
          (Handled task job s)
          (handle_succeeded_result_final task job result u generate fresh s)
  unfolding handle_succeeded_result_final handle_succeeded_stage handle_stage move finalize_job
      transition_task
  plan-Returns e =
      let k : can_transition task.state planned ≡ true =
        unfold StateMachine.stage_to_active_state in rw (h, e) success_moves.0 in
      rw (g, e, k) (inl (_, refl, refl, refl, get-set_self _ _ _), (refl, refl))

  dev-Returns :
      job.stage ≡ dev
      → Returns
          (Handled task job s)
          (handle_succeeded_result_final task job result u generate fresh s)
  unfolding handle_succeeded_result_final handle_succeeded_stage handle_stage move finalize_job
      transition_task
  dev-Returns e =
      let k : can_transition task.state dev_completed ≡ true =
        unfold StateMachine.stage_to_active_state in rw (h, e) success_moves.1 in
      rw (g, e, k) (inl (_, refl, refl, refl, get-set_self _ _ _), (refl, refl))

  acceptance-Returns :
      job.stage ≡ acceptance
      → Returns
          (Handled task job s)
          (handle_succeeded_result_final task job result u generate fresh s)
  unfolding handle_succeeded_result_final handle_succeeded_stage handle_stage move finalize_job
      transition_task merge_task_updates
  acceptance-Returns e = elim (Bool-cases (turned_down result.verdict)) [
    | inl v ↦
        let k : can_transition task.state rework_required ≡ true = rw h (stage_moves job.stage).1 in
        rw (g, e, v, k) (inl (_, refl, refl, refl, get-set_self _ _ _), (refl, refl))
    | inr v ↦ rw (g, e, v) (inr (refl, refl, refl), (refl, refl))
  ]

  pub succeeded-Returns :
      Returns
        (Handled task job s)
        (handle_succeeded_result_final task job result u generate fresh s)
  succeeded-Returns = elim (stage_cases job.stage) [
    | inl e ↦ plan-Returns e
    | inr (inl e) ↦ dev-Returns e
    | inr (inr e) ↦ acceptance-Returns e
  ]
