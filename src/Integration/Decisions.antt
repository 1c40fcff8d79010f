-- ===== src/Integration/Decisions.antt =====
-- How an integration ends (integration-orchestrator.ts).
use shipyard_cp.Base.{
  ◌+◌, ◌≡◌, refl, sym, inl, inr, Bool, true, false, ◌&&◌, Option, none, some, List, String, str_eq,
  arith, if◌then◌else◌, Bool-cases, value_or, length, length-append, nat_eqb, string_eqb, Outcome,
  ok,
}
use shipyard_cp.JsMap.{get, get-set_self}
use shipyard_cp.StateMachine.{
  TaskState, integrating, integrated, blocked, can_transition, state_eqb,
}
use shipyard_cp.Task.{BlockedContext, github}
use shipyard_cp.RepoPolicy.{is_given, validate_integration_policy}
use shipyard_cp.BaseSha.{validate_base_sha}
use shipyard_cp.Delivery.{
  DeliveryTask, DeliveryStore, DeliveryError, DeliveryFresh, IntegrationState, Effect,
  transition_delivery, moved_delivery, with_block, settle, by_control_plane,
}
use shipyard_cp.Integration.{
  CompleteIntegrateRequest, IntegrateResponse, complete_integration, base_sha_result,
  block_integration, finish_as, complete_policy, integration_finished,
}

-- The base of the main branch is the one that the integration started from.
abbrev pub is_based : DeliveryTask → IntegrationState → Bool
is_based d state =
    is_given state.original_base_sha
    && str_eq (value_or state.original_base_sha "") (value_or d.base_sha "")

abbrev pub end_state : DeliveryTask → IntegrationState → CompleteIntegrateRequest → TaskState
end_state d state r = if is_based d state && r.checks_passed then integrated else blocked

abbrev resume_of : Option BlockedContext → Option TaskState
resume_of none = none
resume_of (some c) = some c.resume_state

-- The task that is stored is the one whose state is answered; a block resumes in `integrating`.
pub record Ended (d : DeliveryTask) (state : IntegrationState) (r : CompleteIntegrateRequest)
    (s : DeliveryStore) (x : DeliveryStore × Outcome DeliveryError IntegrateResponse) : Type 0 where
  pub after : DeliveryTask
  pub response : IntegrateResponse
  pub returned : x.1 ≡ ok response
  pub answered : response.state ≡ end_state d state r
  pub stored : get x.0.tasks d.task.task_id ≡ some after
  pub of_state : after.task.state ≡ end_state d state r
  pub resumes :
      resume_of after.task.updated.direct.blocked_context
      ≡ (if is_based d state && r.checks_passed then none else some integrating)
  pub one_event : length x.0.events ≡ length s.events + 1

-- Any task that ends in the state that is due is enough.
module _ (s : DeliveryStore) (d : DeliveryTask) (state : IntegrationState)
    (r : CompleteIntegrateRequest) (effects : List Effect) (fresh : DeliveryFresh)
    (h : d.task.state ≡ integrating) where
  blocks :
      (c : DeliveryTask)
      → c.task.state ≡ integrating
      → c.task.task_id ≡ d.task.task_id
      → (answer : DeliveryTask → IntegrateResponse)
      → ((a : DeliveryTask) → (answer a).state ≡ a.task.state)
      → (reason event_reason : String) → is_based d state && r.checks_passed ≡ false
      → Ended d state r s
          (settle s answer effects (block_integration s c reason event_reason fresh))
  unfolding transition_delivery can_transition
  blocks c hc id answer same reason event_reason e =
      rw (hc, transition_delivery)
        (record {
          after =
              moved_delivery (with_block c integrating reason github) blocked fresh.transitioned;
          response =
              answer (
                moved_delivery (with_block c integrating reason github) blocked fresh.transitioned);
          returned = refl;
          answered =
              rw
                (
                  e,
                  same (
                      moved_delivery (with_block c integrating reason github) blocked
                        fresh.transitioned),
                )
                refl;
          stored = rw (sym id) (
              get-set_self s.tasks c.task.task_id (
                moved_delivery (with_block c integrating reason github) blocked
                  fresh.transitioned));
          of_state = rw e refl;
          resumes = rw e refl;
          one_event = length-append s.events _;
        })

  integrates :
      (c : DeliveryTask)
      → c.task.state ≡ integrating
      → c.task.task_id ≡ d.task.task_id
      → (answer : DeliveryTask → IntegrateResponse)
      → ((a : DeliveryTask) → (answer a).state ≡ a.task.state)
      → (reason : String) → is_based d state && r.checks_passed ≡ true
      → Ended d state r s (
          settle s answer effects
            (transition_delivery s c integrated (by_control_plane reason) fresh))
  unfolding transition_delivery can_transition
  integrates c hc id answer same reason e =
      rw (hc, transition_delivery)
        (record {
          after = moved_delivery c integrated fresh.transitioned;
          response = answer (moved_delivery c integrated fresh.transitioned);
          returned = refl;
          answered = rw (e, same (moved_delivery c integrated fresh.transitioned)) refl;
          stored = rw (sym id) (
              get-set_self s.tasks c.task.task_id (moved_delivery c integrated fresh.transitioned));
          of_state = rw e refl;
          resumes = rw e refl;
          one_event = length-append s.events _;
        })

  finish_as-Ended :
      (answer : DeliveryTask → IntegrateResponse)
      → ((a : DeliveryTask) → (answer a).state ≡ a.task.state)
      → (passed : Bool) → is_based d state && r.checks_passed ≡ passed
      → Ended d state r s (
          settle s answer effects (finish_as s (integration_finished d state r fresh) passed fresh))
  finish_as-Ended answer same true e =
      integrates (integration_finished d state r fresh) h refl answer same
        "integration checks passed" e
  finish_as-Ended answer same false e =
      blocks (integration_finished d state r fresh) h refl answer same "CI checks failed"
        "integration checks failed" e

  base_valid : (base_sha_result d state r).valid ≡ is_based d state
  unfolding validate_base_sha
  base_valid = ground arith

  policy_needs_checks : (complete_policy d r).allowed ≡ false → r.checks_passed ≡ false
  unfolding validate_integration_policy
  policy_needs_checks = ground arith

  -- An integration that is completed ends integrated exactly if the base of main is still the one
  -- it started from and the checks passed, else blocked, to be resumed in integrating. The call
  -- returns; the stored task is in the state that is answered, after one event.
  pub integration_ends : Ended d state r s (complete_integration s d state r effects fresh)
  unfolding complete_integration
  integration_ends = elim (Bool-cases (base_sha_result d state r).valid) [
    | inr v ↦
        rw (v, complete_integration)
          (blocks d h refl _ (λ a. refl) _ _ (ground (arith, v, base_valid)))
    | inl v ↦ elim (Bool-cases (complete_policy d r).allowed) [
      | inr p ↦
          rw (v, p, complete_integration)
            (blocks d h refl _ (λ a. refl) _ _ (ground (arith, policy_needs_checks p)))
      | inl p ↦
          rw (v, p, complete_integration)
            (finish_as-Ended _ (λ a. refl) r.checks_passed (ground (arith, v, base_valid)))
    ]
  ]
