-- ===== src/Integration/Tests.antt =====
-- An integration whose checks passed (integration-orchestrator.ts).
use shipyard_cp.Base.{◌≡◌, refl, true, false, Option, none, some, [], nat_eqb, string_eqb}
use shipyard_cp.JsMap.{get, set}
use shipyard_cp.StateMachine.{integrating, can_transition}
use shipyard_cp.Types.{low}
use shipyard_cp.TaskService.{new_task}
use shipyard_cp.RunTimeout.{running, RunStatus}
use shipyard_cp.RepoPolicy.{validate_integration_policy}
use shipyard_cp.BaseSha.{validate_base_sha}
use shipyard_cp.Delivery.{
  DeliveryTask, DeliveryStore, DeliveryFresh, IntegrationState, transition_delivery,
}
use shipyard_cp.Integration.{CompleteIntegrateRequest, complete_integration, integration_started}
use shipyard_cp.Integration.Decisions.{Ended, integration_ends}

abbrev fresh : DeliveryFresh
fresh = record {
  event_id = "e";
  run_id = "int-run";
  token = "00ff";
  started = 10;
  read = 11;
  transitioned = 12;
}

abbrev base : DeliveryTask
base = record {
  task =
      record (new_task
        (record { typed_ref = "a:b:c:d"; risk_level = some low; external_refs = none }) "t" 1) {
          state = integrating;
        };
  repo_policy = none;
  default_branch = "main";
  base_sha = none;
  integration = none;
  integration_run = none;
  publish_plan = none;
  publish_run = none;
  pending_approval_token = none;
  pending_approval_expires_at = none;
}

abbrev given : DeliveryTask
given = integration_started base "abc" fresh

abbrev state : IntegrationState
state = record {
  integration_branch = some "cp/integrate/t";
  integration_head_sha = some "abc";
  main_updated_sha = none;
  checks_passed = some false;
  original_base_sha = some "abc";
}

abbrev store : DeliveryStore
store = record {
  tasks = set [] "t" given;
  events = [];
  publish_idempotency_keys = [];
  effects = [];
}

abbrev request : CompleteIntegrateRequest
request = record {
  checks_passed = true;
  integration_head_sha = some "def";
  main_updated_sha = some "def";
  is_fast_forward = some true;
  has_conflicts = none;
}

integration_ends_example :
    Ended given state request store (complete_integration store given state request [] fresh)
integration_ends_example = integration_ends store given state request [] fresh refl

abbrev status_of : Option DeliveryTask → Option RunStatus
status_of none = none
status_of (some d) = elim d.integration_run [ none ↦ none | some run ↦ some run.status ]

-- By the default policy, failed checks block the task and leave its run running.
failed_checks_leave_run :
    status_of (
      get
        (complete_integration store given state
          (record request { checks_passed = false })
          []
          fresh).0.tasks
        "t")
    ≡ some running
unfolding get set complete_integration validate_base_sha validate_integration_policy
    transition_delivery can_transition
failed_checks_leave_run = refl
