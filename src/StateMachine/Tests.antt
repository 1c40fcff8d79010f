-- ===== src/StateMachine/Tests.antt =====
-- The state machine at concrete states (state-machine.ts, state-mapping.ts).
use shipyard_cp.Base.{◌≡◌, refl, true, List, [], ◌∷◌, includes, nat_eqb, string_eqb, thrown}
use shipyard_cp.StateMachine.{
  TaskState, queued, planned, dev_completed, accepted, rework_required, integrating, integrated,
  publishing, published, transition_not_allowed, cannot_dispatch_worker, can_transition,
  validate_transition, get_allowed_dispatch_stage, state_eqb,
}
use shipyard_cp.StateMachine.Mapping.{agent_eqb, review, to_agent_task_state}
use shipyard_cp.StateMachine.Runs.{IsTrace, publish_needs_accepted}

no_skip : validate_transition planned published ≡ thrown (transition_not_allowed planned published)
unfolding validate_transition can_transition
no_skip = refl

no_dispatch : get_allowed_dispatch_stage accepted ≡ thrown (cannot_dispatch_worker accepted)
unfolding get_allowed_dispatch_stage
no_dispatch = refl

rework_is_review : to_agent_task_state rework_required ≡ review
unfolding to_agent_task_state
rework_is_review = refl

abbrev straight : List TaskState
straight =
    TaskState.planning ∷ planned ∷ TaskState.developing ∷ dev_completed ∷ TaskState.accepting
    ∷ accepted ∷ integrating ∷ integrated ∷ publishing ∷ published ∷ []

straight-IsTrace : IsTrace queued straight
unfolding can_transition
straight-IsTrace =
    (refl, (refl, (refl, (refl, (refl, (refl, (refl, (refl, (refl, (refl, tt))))))))))

publish_needs_accepted_example : includes straight accepted ≡ true
publish_needs_accepted_example = publish_needs_accepted straight straight-IsTrace refl refl
