-- ===== src/Publish.antt =====
-- src/domain/publish/publish-orchestrator.ts, and publish, approvePublish and completePublish of
-- src/store/control-plane-store.ts. Tokens are compared on the codes of their texts; the code's loop
-- compares UTF-16 units, which texts of hexadecimal digits have one for one.
pub mod Tokens
pub mod Approval
mod Tests
use shipyard_cp.Base.{
  ℕ, ◌+◌, ◌*◌, min, Bool, true, false, not, ◌&&◌, Option, none, some, List, [], ◌∷◌, ◌++◌, String,
  str_eq, ltb, ◌==◌, if◌then◌else◌, value_or, length, nat_eqb, string_eqb, Outcome, ok, thrown,
}
use Prim.Native.Nat.{bit_or, bit_xor}
use shipyard_cp.JsMap.{JsMap, get, set}
use shipyard_cp.Text.{codes}
use shipyard_cp.StateMachine.{
  TaskState, integrated, blocked, publishing, published, publish_pending_approval,
}
use shipyard_cp.TaskUpdate.{ExternalRef, append_unique}
use shipyard_cp.Task.{environment, human, text, TransitionInput}
use shipyard_cp.RunTimeout.{Run, succeeded}
use shipyard_cp.RepoPolicy.{RepoPolicy, PublishPolicyResult, validate_publish_policy, bot, is_given}
use shipyard_cp.Delivery.{
  DeliveryTask, DeliveryStore, DeliveryError, DeliveryFresh, PublishMode, apply, PublishPlan,
  PublishRun, TokenError, token_required, no_token_expected, token_expired, invalid_token,
  bad_token, transition_delivery, by_control_plane, policy_of, new_run, with_block, guarded, settle,
  Effect, publish_requested, publish_idempotent, approval_checkpoint, publish_completed,
}

pub record PublishRequest : Type 0 where
  pub mode : PublishMode
  pub idempotency_key : String
  pub approval_token : Option String

pub record CompletePublishRequest : Type 0 where
  pub external_refs : Option (List ExternalRef)
  pub rollback_notes : Option String

-- canFastForward of startPublish
abbrev pub main_unmoved : DeliveryTask → Bool
main_unmoved d = elim d.integration [
  | none ↦ true
  | some i ↦ elim i.main_updated_sha [
    | none ↦ true
    | some sha ↦ elim d.base_sha [ none ↦ false | some base ↦ str_eq sha base ]
  ]
]

abbrev pub checks_of : DeliveryTask → Bool
checks_of d = elim d.integration [ none ↦ false | some i ↦ value_or i.checks_passed false ]

abbrev pub publish_policy : DeliveryTask → PublishPolicyResult
publish_policy d = validate_publish_policy (record {
  policy = policy_of d;
  actor = bot;
  target_branch = d.default_branch;
  checks_passed = checks_of d;
  is_fast_forward = main_unmoved d;
})

abbrev pub is_apply : PublishMode → Bool
is_apply apply = true
is_apply _ = false

abbrev empty_plan : PublishPlan
empty_plan = record {
  mode = none;
  idempotency_key = none;
  approval_required = false;
  policy_warnings = [];
}

abbrev pub plan_of : DeliveryTask → PublishPlan
plan_of d = value_or d.publish_plan empty_plan

abbrev is_empty : List String → Bool
is_empty [] = true
is_empty (x ∷ xs) = false

-- The plan with the warnings of the policy, where there are any, and with the request.
abbrev pub planned : DeliveryTask → PublishRequest → (warnings : List String) → DeliveryTask
planned d r warnings = record d {
  publish_plan = some (record (plan_of d) {
    mode = some r.mode;
    idempotency_key = some r.idempotency_key;
    policy_warnings = if is_empty warnings then (plan_of d).policy_warnings else warnings;
  });
}

abbrev pub needs_approval : DeliveryTask → PublishRequest → Bool
needs_approval d r =
    is_apply r.mode && (plan_of d).approval_required && not (is_given r.approval_token)

-- APPROVAL_TOKEN_TTL_MS
abbrev approval_token_ttl_ms : ℕ
approval_token_ttl_ms = 24 * 60 * 60 * 1000

abbrev pub publish_timeout_ms : ℕ
publish_timeout_ms = 15 * 60 * 1000

abbrev pub with_token : DeliveryTask → DeliveryFresh → DeliveryTask
with_token d fresh = record d {
  pending_approval_token = some fresh.token;
  pending_approval_expires_at = some (fresh.read + approval_token_ttl_ms);
}

abbrev pub with_run : DeliveryTask → DeliveryFresh → DeliveryTask
with_run d fresh = record d {
  publish_run = some (record { run = new_run fresh publish_timeout_ms; external_refs = none });
}

abbrev pub begin_publish :
    DeliveryStore
    → DeliveryTask
    → (needs : Bool) → DeliveryFresh
    → Outcome DeliveryError (DeliveryStore × DeliveryTask)
begin_publish s d true fresh =
    transition_delivery s (with_token d fresh) publish_pending_approval
      (by_control_plane "publish approval required") fresh
begin_publish s d false fresh =
    transition_delivery s (with_run d fresh) publishing (by_control_plane "publish started") fresh

abbrev pub block_publish :
    DeliveryStore
    → DeliveryTask
    → String
    → DeliveryFresh
    → Outcome DeliveryError (DeliveryStore × DeliveryTask)
block_publish s d reason fresh =
    transition_delivery s (with_block d integrated reason environment) blocked
      (by_control_plane reason) fresh

unfoldable pub start_publish :
    DeliveryStore
    → DeliveryTask
    → PublishRequest
    → DeliveryFresh
    → Outcome DeliveryError (DeliveryStore × DeliveryTask)
unfolding validate_publish_policy
start_publish s d r fresh =
    let p = publish_policy d in
    if is_apply r.mode && not p.allowed
    then block_publish s d (value_or p.reason "publish policy denied") fresh
    else begin_publish s (planned d r (if is_apply r.mode then p.warnings else []))
        (needs_approval d r) fresh

-- The comparison in constant time, of texts of one length: 0 if all codes are the same.
unfoldable pub compare_codes : List ℕ → List ℕ → ℕ → ℕ
compare_codes [] provided result = result
compare_codes (e ∷ es) [] result = result
compare_codes (e ∷ es) (p ∷ ps) result = compare_codes es ps (bit_or result (bit_xor e p))

abbrev pub is_expired : Option ℕ → (now : ℕ) → Bool
is_expired none now = false
is_expired (some expires) now = ltb expires now

unfoldable pub tokens_match : String → String → Bool
unfolding compare_codes
tokens_match expected provided =
    length (codes expected) == length (codes provided)
    && compare_codes (codes expected) (codes provided) 0 == 0

unfoldable pub validate_approval_token : DeliveryTask → String → (now : ℕ) → Option TokenError
validate_approval_token d provided now =
    if str_eq provided ""
    then some token_required
    else if not (is_given d.pending_approval_token)
    then some no_token_expected
    else if is_expired d.pending_approval_expires_at now
    then some token_expired
    else if tokens_match (value_or d.pending_approval_token "") provided
    then none
    else some invalid_token

abbrev pub approved_input : TransitionInput
approved_input = record {
  actor_type = human;
  actor_id = "operator";
  reason = text "publish approved";
  job_id = none;
  artifact_ids = none;
}

abbrev pub without_token : DeliveryTask → DeliveryTask
without_token d = record d { pending_approval_token = none; pending_approval_expires_at = none }

-- `now` is the clock that the expiration is compared with.
unfoldable pub approve_publish :
    DeliveryStore
    → DeliveryTask
    → String
    → (now : ℕ) → DeliveryFresh
    → Outcome DeliveryError (DeliveryStore × DeliveryTask)
approve_publish s d token now fresh = elim (validate_approval_token d token now) [
  | some e ↦ thrown (bad_token e)
  | none ↦ transition_delivery s (with_run (without_token d) fresh) publishing approved_input fresh
]

abbrev finished_publish_run : Option (List ExternalRef) → (now : ℕ) → PublishRun → PublishRun
finished_publish_run refs now run = record {
  run = record run.run { completed_at = some now; status = succeeded; progress = some 100 };
  external_refs = append_unique refs run.external_refs;
}

abbrev finished_run_of :
    Option (List ExternalRef) → (now : ℕ) → Option PublishRun → Option PublishRun
finished_run_of refs now none = none
finished_run_of refs now (some run) = some (finished_publish_run refs now run)

abbrev pub publish_finished : DeliveryTask → CompletePublishRequest → DeliveryFresh → DeliveryTask
publish_finished d r fresh = record d {
  task = record d.task {
    updated = record d.task.updated {
      external_refs = append_unique r.external_refs d.task.updated.external_refs;
      direct = record d.task.updated.direct {
        rollback_notes =
            if is_given r.rollback_notes
            then r.rollback_notes
            else d.task.updated.direct.rollback_notes;
      };
    };
  };
  publish_run = finished_run_of r.external_refs fresh.started d.publish_run;
}

unfoldable pub complete_publish :
    DeliveryStore
    → DeliveryTask
    → CompletePublishRequest
    → DeliveryFresh
    → Outcome DeliveryError (DeliveryStore × DeliveryTask)
complete_publish s d r fresh =
    transition_delivery s (publish_finished d r fresh) published
      (by_control_plane "publish completed") fresh

-- What completePublish returns: the stored task with the time of its own reading.
abbrev completed_at : DeliveryFresh → DeliveryTask → DeliveryTask
completed_at fresh after = record after {
  task = record after.task { completed_at = some fresh.started };
}

abbrev pub update_publish_progress : DeliveryTask → (progress : ℕ) → DeliveryTask
update_publish_progress d progress = elim d.publish_run [
  | none ↦ d
  | some p ↦ record d {
    publish_run = some (record p { run = record p.run { progress = some (min 100 progress) } });
  }
]

-- The task that used the key before, if it is still there.
abbrev existing_task : DeliveryStore → String → Option DeliveryTask
existing_task s key = elim (get s.publish_idempotency_keys key) [
  | none ↦ none
  | some id ↦ get s.tasks id
]

abbrev keep_key : DeliveryStore → String → (task_id : String) → DeliveryStore
keep_key s key task_id = record s {
  publish_idempotency_keys = set s.publish_idempotency_keys key task_id;
}

abbrev pub publish_new :
    DeliveryStore
    → DeliveryTask
    → PublishRequest
    → DeliveryFresh
    → DeliveryStore × Outcome DeliveryError DeliveryTask
publish_new s d r fresh =
    settle s (λ after. after)
      (publish_requested r.mode r.idempotency_key (plan_of d).approval_required ∷ [])
      (start_publish s d r fresh)

-- The key is kept before the publish starts, and stays if that throws.
abbrev pub publish_keyed :
    DeliveryStore
    → DeliveryTask
    → PublishRequest
    → DeliveryFresh
    → Option DeliveryTask
    → DeliveryStore × Outcome DeliveryError DeliveryTask
publish_keyed s d r fresh (some e) = (
  record s {
    effects = s.effects ++ publish_idempotent r.idempotency_key e.task.task_id r.mode ∷ [];
  },
  ok e,
)
publish_keyed s d r fresh none = publish_new (keep_key s r.idempotency_key d.task.task_id) d r fresh

unfoldable pub publish :
    DeliveryStore
    → String
    → PublishRequest
    → DeliveryFresh
    → DeliveryStore × Outcome DeliveryError DeliveryTask
unfolding start_publish
publish s task_id r fresh = guarded s task_id integrated (λ d.
    if str_eq r.idempotency_key ""
    then publish_new s d r fresh
    else publish_keyed s d r fresh (existing_task s r.idempotency_key))

unfoldable pub approve :
    DeliveryStore
    → String
    → String
    → (now : ℕ) → DeliveryFresh
    → DeliveryStore × Outcome DeliveryError DeliveryTask
unfolding approve_publish
approve s task_id token now fresh = guarded s task_id publish_pending_approval (λ d.
    settle s (λ after. after) (approval_checkpoint d.task.task_id ∷ [])
      (approve_publish s d token now fresh))

unfoldable pub complete :
    DeliveryStore
    → String
    → CompletePublishRequest
    → DeliveryFresh
    → DeliveryStore × Outcome DeliveryError DeliveryTask
unfolding complete_publish
complete s task_id r fresh = guarded s task_id publishing (λ d.
    settle s (completed_at fresh) (publish_completed r.external_refs r.rollback_notes ∷ [])
      (complete_publish s d r fresh))
