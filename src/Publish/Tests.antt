-- ===== src/Publish/Tests.antt =====
-- A publish that waits for an approval (publish-orchestrator.ts).
use shipyard_cp.Base.{
  ◌≡◌, refl, ◌↔◌, true, false, Option, none, some, [], ◌∷◌, nat_eqb, string_eqb, Outcome,
}
use shipyard_cp.JsMap.{get, set}
use shipyard_cp.Text.{codes}
use shipyard_cp.StateMachine.{
  TaskState, integrated, publishing, publish_pending_approval, can_transition,
}
use shipyard_cp.Types.{low}
use shipyard_cp.TaskService.{new_task}
use shipyard_cp.RepoPolicy.{validate_publish_policy, is_protected_branch, glob_test}
use shipyard_cp.Delivery.{
  DeliveryTask, DeliveryStore, DeliveryFresh, DeliveryError, apply, transition_delivery,
}
use shipyard_cp.Publish.{
  PublishRequest, start_publish, approve_publish, tokens_match, with_token, publish,
}
use shipyard_cp.Publish.Tokens.{tokens_match_iff}
use shipyard_cp.Publish.Approval.{Stores, Begun, publish_begins, Approved, approval_decided}

abbrev fresh : DeliveryFresh
fresh = record {
  event_id = "e";
  run_id = "pub-run";
  token = "00ff";
  started = 10;
  read = 11;
  transitioned = 12;
}

abbrev given : DeliveryTask
given = record {
  task =
      record (new_task
        (record { typed_ref = "a:b:c:d"; risk_level = some low; external_refs = none }) "t" 1) {
          state = integrated;
        };
  repo_policy = none;
  default_branch = "main";
  base_sha = some "abc";
  integration = some (record {
    integration_branch = some "cp/integrate/t";
    integration_head_sha = some "def";
    main_updated_sha = none;
    checks_passed = some true;
    original_base_sha = some "abc";
  });
  integration_run = none;
  publish_plan = some (record {
    mode = none;
    idempotency_key = none;
    approval_required = true;
    policy_warnings = [];
  });
  publish_run = none;
  pending_approval_token = none;
  pending_approval_expires_at = none;
}

abbrev with : DeliveryTask → DeliveryStore
with d = record { tasks = set [] "t" d; events = []; publish_idempotency_keys = []; effects = [] }

abbrev request : PublishRequest
request = record { mode = apply; idempotency_key = "k"; approval_token = none }

publish_begins_example :
    Stores (Begun given request fresh) (start_publish (with given) given request fresh)
publish_begins_example = publish_begins (with given) fresh given request refl refl

abbrev waiting : DeliveryTask
waiting =
    with_token (record given { task = record given.task { state = publish_pending_approval } })
      fresh

approval_decided_example :
    Approved waiting "00ff" 20 (approve_publish (with waiting) waiting "00ff" 20 fresh)
approval_decided_example = approval_decided (with waiting) fresh waiting "00ff" 20 refl

tokens_match_iff_example : (tokens_match "00ff" "00fe" ≡ true) ↔ (codes "00ff" ≡ codes "00fe")
tokens_match_iff_example = tokens_match_iff "00ff" "00fe"

abbrev state_in : Option DeliveryTask → Option TaskState
state_in none = none
state_in (some d) = some d.task.state

abbrev left_by : DeliveryStore × Outcome DeliveryError DeliveryTask → Option TaskState
left_by (s, r) = state_in (get s.tasks "t")

-- Without a token the publish waits; with any token it starts, which is compared with none.
any_token_starts :
    (left_by (publish (with given) "t" request fresh) ≡ some publish_pending_approval)
    × (left_by (publish (with given) "t" (record request { approval_token = some "x" }) fresh)
        ≡ some publishing)
unfolding get set publish start_publish validate_publish_policy is_protected_branch glob_test
    transition_delivery can_transition
any_token_starts = (refl, refl)

abbrev not_checked : DeliveryTask
not_checked = record given { integration = none }

-- A publish that the policy refuses keeps its idempotency key.
key_kept :
    get (publish (with not_checked) "t" request fresh).0.publish_idempotency_keys "k" ≡ some "t"
unfolding get set publish start_publish validate_publish_policy is_protected_branch glob_test
    transition_delivery can_transition
key_kept = refl

-- A pattern with a star, and a dot that stands for any character.
globs :
    (is_protected_branch "release/1.2" ("main" ∷ "release/*" ∷ []) ≡ true)
    × (is_protected_branch "hotfix" ("main" ∷ "release/*" ∷ []) ≡ false)
    × (is_protected_branch "v1x2" ("v1.*" ∷ []) ≡ true)
unfolding is_protected_branch glob_test
globs = (refl, refl, refl)
