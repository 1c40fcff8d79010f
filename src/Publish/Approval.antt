-- ===== src/Publish/Approval.antt =====
-- What a publish needs before it starts (publish-orchestrator.ts).
use shipyard_cp.Base.{
  ℕ, ◌≡◌, refl, inl, inr, Bool, true, false, not, ◌&&◌, ◌||◌, none, some, [], String, str_eq, arith,
  if◌then◌else◌, Bool-cases, Option-cases, is_some, value_or, nat_eqb, string_eqb, Outcome, ok,
  thrown,
}
use shipyard_cp.JsMap.{get, get-set_self}
use shipyard_cp.Text.{codes}
use shipyard_cp.StateMachine.{
  TaskState, integrated, blocked, publishing, publish_pending_approval, can_transition, state_eqb,
}
use shipyard_cp.Task.{TransitionInput}
use shipyard_cp.RepoPolicy.{is_given}
use shipyard_cp.Delivery.{
  DeliveryTask, DeliveryStore, DeliveryError, DeliveryFresh, TokenError, bad_token,
  transition_delivery, moved_delivery, with_block,
}
use shipyard_cp.Delivery.{new_run}
use shipyard_cp.Publish.{
  publish_timeout_ms, PublishRequest, start_publish, approve_publish, publish_policy, is_apply,
  needs_approval, plan_of, begin_publish, planned, with_token, with_run, without_token,
  validate_approval_token, is_expired, approved_input,
}
use shipyard_cp.Publish.Tokens.{tokens_match_iff}

-- What became of a task that a publish was asked for without an approval token.
pub data Begun (d : DeliveryTask) (r : PublishRequest) (fresh : DeliveryFresh)
    (after : DeliveryTask) : Type 0 where
  refused :
      is_apply r.mode ≡ true
      → (publish_policy d).allowed ≡ false
      → after.task.state ≡ blocked
      → after.publish_run ≡ d.publish_run
      → Begun d r fresh after
  waits :
      is_apply r.mode ≡ true
      → (publish_policy d).allowed ≡ true
      → (plan_of d).approval_required ≡ true
      → after.task.state ≡ publish_pending_approval
      → after.pending_approval_token ≡ some fresh.token
      → after.publish_run ≡ d.publish_run
      → Begun d r fresh after
  started :
      is_apply r.mode && (not (publish_policy d).allowed || (plan_of d).approval_required) ≡ false
      → after.task.state ≡ publishing
      → after.publish_run
        ≡ some (record { run = new_run fresh publish_timeout_ms; external_refs = none })
      → Begun d r fresh after

-- An operation that returns a task, of which P holds, stored under its identifier.
pub record Stores (P : DeliveryTask → Type 0)
    (x : Outcome DeliveryError (DeliveryStore × DeliveryTask)) : Type 0 where
  pub store : DeliveryStore
  pub after : DeliveryTask
  pub returned : x ≡ ok (store, after)
  pub stored : get store.tasks after.task.task_id ≡ some after
  pub holds : P after

-- A token that approves: it is the pending one, and in time.
pub record IsApproval (d : DeliveryTask) (token : String) (now : ℕ) : Type 0 where
  pub given : str_eq token "" ≡ false
  pub expected : is_given d.pending_approval_token ≡ true
  pub in_time : is_expired d.pending_approval_expires_at now ≡ false
  pub same : codes (value_or d.pending_approval_token "") ≡ codes token

-- A task whose publish runs, the token used up.
pub record Runs (after : DeliveryTask) : Type 0 where
  pub in_publishing : after.task.state ≡ publishing
  pub has_run : is_some after.publish_run ≡ true
  pub no_token : after.pending_approval_token ≡ none

pub data Approved (d : DeliveryTask) (token : String) (now : ℕ)
    (x : Outcome DeliveryError (DeliveryStore × DeliveryTask)) : Type 0 where
  approves : IsApproval d token now → Stores Runs x → Approved d token now x
  rejects :
      (e : TokenError)
      → ¬ IsApproval d token now
      → x ≡ thrown (bad_token e)
      → Approved d token now x

module _ (s : DeliveryStore) (fresh : DeliveryFresh) where
  moves :
      (P : DeliveryTask → Type 0) (d : DeliveryTask) (to_state : TaskState) (i : TransitionInput)
      → can_transition d.task.state to_state ≡ true
      → P (moved_delivery d to_state fresh.transitioned)
      → Stores P (transition_delivery s d to_state i fresh)
  unfolding transition_delivery
  moves P d to_state i c p =
      rw (c, transition_delivery)
        (record {
          store = _;
          after = moved_delivery d to_state fresh.transitioned;
          returned = refl;
          stored =
              get-set_self s.tasks d.task.task_id (moved_delivery d to_state fresh.transitioned);
          holds = p;
        })

  allowed_from : (a b c : TaskState) → a ≡ b → can_transition b c ≡ true → can_transition a c ≡ true
  allowed_from a b c e h = rw e h

  begin-Begun :
      (d c : DeliveryTask) (r : PublishRequest) (needs : Bool)
      → is_given r.approval_token ≡ false
      → c.task.state ≡ integrated
      → c.publish_run ≡ d.publish_run
      → is_apply r.mode && not (publish_policy d).allowed ≡ false
      → needs_approval d r ≡ needs
      → Stores (Begun d r fresh) (begin_publish s c needs fresh)
  unfolding can_transition
  begin-Begun d c r true n h same a e =
      moves (Begun d r fresh) (with_token c fresh) publish_pending_approval _
        (allowed_from c.task.state integrated publish_pending_approval h refl)
        (waits (ground (arith, e)) (ground (arith, a, e)) (ground (arith, e)) refl refl same)
  begin-Begun d c r false n h same a e =
      moves (Begun d r fresh) (with_run c fresh) publishing _
        (allowed_from c.task.state integrated publishing h refl)
        (started (ground (arith, a, e, n)) refl refl)

  -- A publish of an integrated task by a request without an approval token returns, and its task is
  -- stored: blocked, its run left as it was, if the publish is to be applied against the policy;
  -- waiting for the fresh token, its run left as it was, if it is to be applied, the policy allows it
  -- and its plan requires an approval; else publishing with the new run.
  pub publish_begins :
      (d : DeliveryTask) (r : PublishRequest)
      → d.task.state ≡ integrated
      → is_given r.approval_token ≡ false
      → Stores (Begun d r fresh) (start_publish s d r fresh)
  unfolding start_publish can_transition
  publish_begins d r h n = elim (Bool-cases (is_apply r.mode && not (publish_policy d).allowed)) [
    | inl e ↦
        rw (e, start_publish)
          (moves (Begun d r fresh) (with_block d integrated _ _) blocked _
            (allowed_from d.task.state integrated blocked h refl)
            (refused (ground (arith, e)) (ground (arith, e)) refl refl))
    | inr e ↦
        rw (e, start_publish)
          (begin-Begun d (planned d r (if is_apply r.mode then (publish_policy d).warnings else []))
            r (needs_approval d r) n h refl e refl)
  ]

  validates :
      (d : DeliveryTask) (token : String) (now : ℕ)
      → validate_approval_token d token now ≡ none
      → IsApproval d token now
  unfolding validate_approval_token
  validates d token now h = record {
    given = ground (arith, h);
    expected = ground (arith, h);
    in_time = ground (arith, h);
    same = (tokens_match_iff (value_or d.pending_approval_token "") token).0 (ground (arith, h));
  }

  approval-validates :
      (d : DeliveryTask) (token : String) (now : ℕ)
      → IsApproval d token now
      → validate_approval_token d token now ≡ none
  unfolding validate_approval_token
  approval-validates d token now p = ground (
    arith,
    p.given,
    p.expected,
    p.in_time,
    (tokens_match_iff (value_or d.pending_approval_token "") token).1 p.same,
  )

  -- Approving a publish that waits succeeds exactly with the pending token in time, and uses it up:
  -- then the stored task is publishing, has a run and no token any more. Else an error of the token
  -- is thrown.
  pub approval_decided :
      (d : DeliveryTask) (token : String) (now : ℕ)
      → d.task.state ≡ publish_pending_approval
      → Approved d token now (approve_publish s d token now fresh)
  unfolding approve_publish can_transition
  approval_decided d token now h = elim (Option-cases (validate_approval_token d token now)) [
    | inl v ↦
        rw (v, approve_publish)
          (approves (validates d token now v) (
            moves Runs (with_run (without_token d) fresh) publishing approved_input
              (allowed_from d.task.state publish_pending_approval publishing h refl)
              (record { in_publishing = refl; has_run = refl; no_token = refl })))
    | inr (e, v) ↦
        rw (v, approve_publish)
          (rejects e (λ p. ground (arith, v, approval-validates d token now p)) refl)
  ]
