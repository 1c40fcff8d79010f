-- ===== src/Integration.antt =====
-- src/domain/integration/integration-orchestrator.ts, and integrate and completeIntegrate of
-- src/store/control-plane-store.ts.
pub mod Decisions
mod Tests
use shipyard_cp.Base.{
  ℕ, ◌*◌, min, Bool, true, false, not, Option, none, some, List, [], ◌∷◌, String, if◌then◌else◌,
  value_or, or_else, nat_eqb, string_eqb, Outcome, thrown,
}
use shipyard_cp.StateMachine.{TaskState, accepted, integrating, integrated, blocked}
use shipyard_cp.Task.{github}
use shipyard_cp.RunTimeout.{Run, succeeded, failed}
use shipyard_cp.RepoPolicy.{
  RepoPolicy, validate_integration_policy, get_default_integration_branch, is_given,
  IntegrationPolicyResult,
}
use shipyard_cp.BaseSha.{
  validate_base_sha, BaseShaCheckInput, BaseShaCheckResult, BaseShaReason, base_sha_changed,
  original_base_sha_missing,
}
use shipyard_cp.Delivery.{
  DeliveryTask, DeliveryStore, DeliveryError, DeliveryFresh, IntegrationState,
  integration_state_not_found, transition_delivery, by_control_plane, policy_of, new_run,
  with_block, guarded, settle, Effect, main_updated, main_checkpoint,
}

pub record CompleteIntegrateRequest : Type 0 where
  pub checks_passed : Bool
  pub integration_head_sha : Option String
  pub main_updated_sha : Option String
  pub is_fast_forward : Option Bool
  pub has_conflicts : Option Bool

pub record IntegrateResponse : Type 0 where
  pub task_id : String
  pub state : TaskState
  pub integration_branch : String
  pub integration_head_sha : Option String
  pub requires_pr : Bool
  pub can_fast_forward : Bool
  pub policy_warnings : List String
  pub needs_rebase : Option Bool

-- The policy, as it is asked at the start: the checks count as not passed yet.
abbrev start_policy : DeliveryTask → String → IntegrationPolicyResult
start_policy d base_sha = validate_integration_policy (record {
  policy = policy_of d;
  task_id = d.task.task_id;
  base_sha = base_sha;
  integration_head_sha = none;
  main_sha = none;
  checks_passed = false;
})

abbrev integration_timeout_ms : ℕ
integration_timeout_ms = 10 * 60 * 1000

abbrev pub integration_started : DeliveryTask → String → DeliveryFresh → DeliveryTask
integration_started d base_sha fresh = record d {
  repo_policy = some (policy_of d);
  base_sha = some base_sha;
  integration = some (record {
    integration_branch = some (get_default_integration_branch (policy_of d) d.task.task_id);
    integration_head_sha = some base_sha;
    main_updated_sha = none;
    checks_passed = some false;
    original_base_sha = some base_sha;
  });
  integration_run = some (new_run fresh integration_timeout_ms);
}

unfoldable pub start_integration :
    DeliveryStore
    → DeliveryTask
    → String
    → DeliveryFresh
    → Outcome DeliveryError (DeliveryStore × DeliveryTask)
unfolding validate_integration_policy
start_integration s d base_sha fresh =
    transition_delivery s (integration_started d base_sha fresh) integrating
      (by_control_plane (
        if (start_policy d base_sha).requires_pr
        then "integrate requested (PR required)"
        else "integrate requested"))
      fresh

abbrev reason_text : Option BaseShaReason → String
reason_text none = "base SHA validation failed"
reason_text (some base_sha_changed) = "base_sha_changed"
reason_text (some original_base_sha_missing) = "original_base_sha_missing"

abbrev pub base_sha_result :
    DeliveryTask → IntegrationState → CompleteIntegrateRequest → BaseShaCheckResult
base_sha_result d state r = validate_base_sha (record {
  original_base_sha = state.original_base_sha;
  current_base_sha = value_or d.base_sha "";
  integration_head_sha = r.integration_head_sha;
  is_fast_forward = r.is_fast_forward;
  has_conflicts = r.has_conflicts;
})

abbrev pub complete_policy : DeliveryTask → CompleteIntegrateRequest → IntegrationPolicyResult
complete_policy d r = validate_integration_policy (record {
  policy = policy_of d;
  task_id = d.task.task_id;
  base_sha = value_or d.base_sha "";
  integration_head_sha = r.integration_head_sha;
  main_sha = r.main_updated_sha;
  checks_passed = r.checks_passed;
})

-- The transition to blocked, for a task that has nothing else changed.
abbrev pub block_integration :
    DeliveryStore
    → DeliveryTask
    → (reason event_reason : String) → DeliveryFresh
    → Outcome DeliveryError (DeliveryStore × DeliveryTask)
block_integration s d reason event_reason fresh =
    transition_delivery s (with_block d integrating reason github) blocked
      (by_control_plane event_reason) fresh

abbrev base_sha_response :
    DeliveryTask
    → IntegrationState
    → CompleteIntegrateRequest
    → BaseShaCheckResult
    → DeliveryTask
    → IntegrateResponse
base_sha_response d state r b after = record {
  task_id = d.task.task_id;
  state = after.task.state;
  integration_branch = value_or state.integration_branch "";
  integration_head_sha = r.integration_head_sha;
  requires_pr = false;
  can_fast_forward = false;
  policy_warnings = reason_text b.reason ∷ [];
  needs_rebase = b.needs_rebase;
}

abbrev one_warning : Option String → List String
one_warning none = []
one_warning (some r) = r ∷ []

abbrev policy_response :
    DeliveryTask
    → IntegrationState
    → Option String
    → IntegrationPolicyResult
    → List String
    → DeliveryTask
    → IntegrateResponse
policy_response d state head p warnings after = record {
  task_id = d.task.task_id;
  state = after.task.state;
  integration_branch = value_or state.integration_branch "";
  integration_head_sha = head;
  requires_pr = p.requires_pr;
  can_fast_forward = p.can_ff;
  policy_warnings = warnings;
  needs_rebase = none;
}

abbrev finished_run : (passed : Bool) → (now : ℕ) → Run → Run
finished_run true now run = record run {
  completed_at = some now;
  progress = some 100;
  status = succeeded;
}
finished_run false now run = record run {
  completed_at = some now;
  progress = some 100;
  status = failed;
  error = some "CI checks failed";
}

abbrev run_map : (Run → Run) → Option Run → Option Run
run_map f none = none
run_map f (some run) = some (f run)

-- The task with the results of the integration.
abbrev pub integration_finished :
    DeliveryTask → IntegrationState → CompleteIntegrateRequest → DeliveryFresh → DeliveryTask
integration_finished d state r fresh = record d {
  integration = some (record state {
    checks_passed = some r.checks_passed;
    integration_head_sha = or_else r.integration_head_sha state.integration_head_sha;
    main_updated_sha = or_else r.main_updated_sha state.main_updated_sha;
  });
  integration_run = run_map (finished_run r.checks_passed fresh.started) d.integration_run;
}

-- `after` is the task with the results.
abbrev pub finish_as :
    DeliveryStore
    → (after : DeliveryTask) (passed : Bool) → DeliveryFresh
    → Outcome DeliveryError (DeliveryStore × DeliveryTask)
finish_as s after true fresh =
    transition_delivery s after integrated (by_control_plane "integration checks passed") fresh
finish_as s after false fresh =
    block_integration s after "CI checks failed" "integration checks failed" fresh

abbrev pub finish_integration :
    DeliveryStore
    → DeliveryTask
    → IntegrationState
    → CompleteIntegrateRequest
    → DeliveryFresh
    → Outcome DeliveryError (DeliveryStore × DeliveryTask)
finish_integration s d state r fresh =
    finish_as s (integration_finished d state r fresh) r.checks_passed fresh

-- `state` is task.integration, which the store requires; `effects` are its own.
unfoldable pub complete_integration :
    DeliveryStore
    → DeliveryTask
    → IntegrationState
    → CompleteIntegrateRequest
    → List Effect
    → DeliveryFresh
    → DeliveryStore × Outcome DeliveryError IntegrateResponse
unfolding validate_base_sha validate_integration_policy
complete_integration s d state r effects fresh =
    let b = base_sha_result d state r in
    let p = complete_policy d r in
    if not b.valid
    then settle s (base_sha_response d state r b) effects
        (block_integration s d (reason_text b.reason) (reason_text b.reason) fresh)
    else if not p.allowed
    then settle s (policy_response d state r.integration_head_sha p (one_warning p.reason)) effects
        (let reason = value_or p.reason "integration policy denied" in
          block_integration s d reason reason fresh)
    else settle s (policy_response d state state.integration_head_sha p []) effects
        (finish_integration s d state r fresh)

abbrev pub raised_progress : (progress : ℕ) → Run → Run
raised_progress progress run = record run { progress = some (min 100 progress) }

abbrev pub update_progress : DeliveryTask → (progress : ℕ) → DeliveryTask
update_progress d progress = record d {
  integration_run = run_map (raised_progress progress) d.integration_run;
}

unfoldable pub integrate :
    DeliveryStore
    → String
    → String
    → DeliveryFresh
    → DeliveryStore × Outcome DeliveryError DeliveryTask
unfolding start_integration
integrate s task_id base_sha fresh =
    guarded s task_id accepted
      (λ d. settle s (λ after. after) [] (start_integration s d base_sha fresh))

-- The audit event and the checkpoint of a new main, if there is one.
abbrev main_effects : CompleteIntegrateRequest → List Effect
main_effects r =
    if is_given r.main_updated_sha
    then (let sha = value_or r.main_updated_sha "" in
        main_updated sha r.integration_head_sha r.checks_passed ∷ main_checkpoint sha ∷ [])
    else []

unfoldable pub complete_integrate :
    DeliveryStore
    → String
    → CompleteIntegrateRequest
    → DeliveryFresh
    → DeliveryStore × Outcome DeliveryError IntegrateResponse
unfolding complete_integration
complete_integrate s task_id r fresh = guarded s task_id integrating (λ d. elim d.integration [
  | none ↦ (s, thrown integration_state_not_found)
  | some state ↦ complete_integration s d state r (main_effects r) fresh
])
