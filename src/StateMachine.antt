-- ===== src/StateMachine.antt =====
-- src/domain/state-machine: the states of a task and the moves between them.
pub mod Mapping
pub mod Runs
mod Tests
use shipyard_cp.Base.{
  ℕ, ◌≡◌, Bool, List, [], ◌∷◌, String, arith, if◌then◌else◌, includes, Eqb, Eqb_of_code, nat_eqb,
  string_eqb, Outcome, ok, thrown,
}
use shipyard_cp.Types.{WorkerStage, dev, acceptance}

pub data TaskState : Type 0 where
  queued planning planned developing dev_completed accepting accepted : TaskState
  rework_required integrating integrated publish_pending_approval publishing : TaskState
  published completed cancelled failed blocked : TaskState

pub data ActiveState : Type 0 where
  planning developing accepting : ActiveState

abbrev state_code : TaskState → ℕ
state_code queued = 0
state_code TaskState.planning = 1
state_code planned = 2
state_code TaskState.developing = 3
state_code dev_completed = 4
state_code TaskState.accepting = 5
state_code accepted = 6
state_code rework_required = 7
state_code integrating = 8
state_code integrated = 9
state_code publish_pending_approval = 10
state_code publishing = 11
state_code published = 12
state_code completed = 13
state_code cancelled = 14
state_code failed = 15
state_code blocked = 16

pub state_code-inj : (a b : TaskState) → state_code a ≡ state_code b → a ≡ b
state_code-inj a b h = ground arith

instance abbrev pub state_eqb : Eqb TaskState
state_eqb = Eqb_of_code state_code state_code-inj

-- The text of a state.
abbrev pub state_name : TaskState → String
state_name queued = "queued"
state_name TaskState.planning = "planning"
state_name planned = "planned"
state_name TaskState.developing = "developing"
state_name dev_completed = "dev_completed"
state_name TaskState.accepting = "accepting"
state_name accepted = "accepted"
state_name rework_required = "rework_required"
state_name integrating = "integrating"
state_name integrated = "integrated"
state_name publish_pending_approval = "publish_pending_approval"
state_name publishing = "publishing"
state_name published = "published"
state_name completed = "completed"
state_name cancelled = "cancelled"
state_name failed = "failed"
state_name blocked = "blocked"

-- TERMINAL_STATES
abbrev terminal_states : List TaskState
terminal_states = completed ∷ cancelled ∷ failed ∷ published ∷ []

-- An active state, seen as the task state of that name.
abbrev pub to_task_state : ActiveState → TaskState
to_task_state ActiveState.planning = TaskState.planning
to_task_state ActiveState.developing = TaskState.developing
to_task_state ActiveState.accepting = TaskState.accepting

pub data StateError : Type 0 where
  transition_not_allowed : TaskState → TaskState → StateError
  cannot_dispatch_worker : TaskState → StateError

-- ALLOWED_TRANSITIONS.get(state) ?? []
unfoldable pub get_allowed_transitions : TaskState → List TaskState
get_allowed_transitions queued = queued ∷ TaskState.planning ∷ blocked ∷ cancelled ∷ failed ∷ []
get_allowed_transitions TaskState.planning =
    TaskState.planning ∷ planned ∷ rework_required ∷ blocked ∷ cancelled ∷ failed ∷ []
get_allowed_transitions planned = planned ∷ TaskState.developing ∷ blocked ∷ cancelled ∷ failed ∷ []
get_allowed_transitions TaskState.developing =
    TaskState.developing ∷ dev_completed ∷ rework_required ∷ blocked ∷ cancelled ∷ failed ∷ []
get_allowed_transitions dev_completed =
    dev_completed ∷ TaskState.accepting ∷ blocked ∷ cancelled ∷ failed ∷ []
get_allowed_transitions TaskState.accepting =
    TaskState.accepting ∷ accepted ∷ rework_required ∷ blocked ∷ cancelled ∷ failed ∷ []
get_allowed_transitions rework_required =
    rework_required ∷ TaskState.developing ∷ blocked ∷ cancelled ∷ failed ∷ []
get_allowed_transitions accepted = accepted ∷ integrating ∷ blocked ∷ cancelled ∷ failed ∷ []
get_allowed_transitions integrating = integrating ∷ integrated ∷ blocked ∷ cancelled ∷ failed ∷ []
get_allowed_transitions integrated =
    integrated ∷ publish_pending_approval ∷ publishing ∷ blocked ∷ cancelled ∷ failed ∷ []
get_allowed_transitions publish_pending_approval =
    publish_pending_approval ∷ publishing ∷ blocked ∷ cancelled ∷ failed ∷ []
get_allowed_transitions publishing = publishing ∷ published ∷ blocked ∷ cancelled ∷ failed ∷ []
get_allowed_transitions blocked =
    blocked ∷ TaskState.planning ∷ TaskState.developing ∷ TaskState.accepting ∷ integrating
    ∷ integrated ∷ publishing ∷ cancelled ∷ failed ∷ []
get_allowed_transitions _ = []

unfoldable pub can_transition : TaskState → TaskState → Bool
unfolding get_allowed_transitions
can_transition from to = includes (get_allowed_transitions from) to

pub validate_transition : TaskState → TaskState → Outcome StateError (Unit {0})
validate_transition from to =
    if can_transition from to then ok tt else thrown (transition_not_allowed from to)

unfoldable pub get_allowed_dispatch_stage : TaskState → Outcome StateError WorkerStage
get_allowed_dispatch_stage queued = ok WorkerStage.plan
get_allowed_dispatch_stage planned = ok dev
get_allowed_dispatch_stage rework_required = ok dev
get_allowed_dispatch_stage dev_completed = ok acceptance
get_allowed_dispatch_stage state = thrown (cannot_dispatch_worker state)

unfoldable pub stage_to_active_state : WorkerStage → ActiveState
stage_to_active_state WorkerStage.plan = ActiveState.planning
stage_to_active_state dev = ActiveState.developing
stage_to_active_state acceptance = ActiveState.accepting

unfoldable pub is_terminal : TaskState → Bool
is_terminal state = includes terminal_states state
