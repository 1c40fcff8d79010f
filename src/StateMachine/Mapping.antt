-- ===== src/StateMachine/Mapping.antt =====
-- src/domain/state-machine/state-mapping.ts: the seven states of agent-taskstate.
use shipyard_cp.Base.{
  ℕ, ◌≡◌, Bool, true, List, [], ◌∷◌, Eqb, Eqb_of_code, eqb, arith, includes, keep, if◌then◌else◌,
}
use shipyard_cp.StateMachine.{
  TaskState, queued, planned, dev_completed, accepted, rework_required, integrating, integrated,
  publish_pending_approval, publishing, published, completed, failed,
}

pub data AgentTaskState : Type 0 where
  proposed ready in_progress blocked review done cancelled : AgentTaskState

abbrev agent_code : AgentTaskState → ℕ
agent_code proposed = 0
agent_code ready = 1
agent_code in_progress = 2
agent_code AgentTaskState.blocked = 3
agent_code review = 4
agent_code done = 5
agent_code AgentTaskState.cancelled = 6

pub agent_code-inj : (a b : AgentTaskState) → agent_code a ≡ agent_code b → a ≡ b
agent_code-inj a b h = ground arith

instance abbrev pub agent_eqb : Eqb AgentTaskState
agent_eqb = Eqb_of_code agent_code agent_code-inj

-- SHIPYARD_TO_AGENT_TASKSTATE, read by toAgentTaskState
unfoldable pub to_agent_task_state : TaskState → AgentTaskState
to_agent_task_state queued = proposed
to_agent_task_state planned = ready
to_agent_task_state integrated = ready
to_agent_task_state TaskState.planning = in_progress
to_agent_task_state TaskState.developing = in_progress
to_agent_task_state TaskState.accepting = in_progress
to_agent_task_state integrating = in_progress
to_agent_task_state publishing = in_progress
to_agent_task_state TaskState.blocked = AgentTaskState.blocked
to_agent_task_state publish_pending_approval = AgentTaskState.blocked
to_agent_task_state dev_completed = review
to_agent_task_state accepted = review
to_agent_task_state rework_required = review
to_agent_task_state published = done
to_agent_task_state completed = done
to_agent_task_state TaskState.cancelled = AgentTaskState.cancelled
to_agent_task_state failed = AgentTaskState.cancelled

-- AGENT_TASKSTATE_TO_SHIPYARD, read by fromAgentTaskState
unfoldable pub from_agent_task_state : AgentTaskState → TaskState
from_agent_task_state proposed = queued
from_agent_task_state ready = planned
from_agent_task_state in_progress = TaskState.developing
from_agent_task_state AgentTaskState.blocked = TaskState.blocked
from_agent_task_state review = dev_completed
from_agent_task_state done = published
from_agent_task_state AgentTaskState.cancelled = TaskState.cancelled

-- The keys of SHIPYARD_TO_AGENT_TASKSTATE, in the order of the source.
abbrev pub shipyard_keys : List TaskState
shipyard_keys =
    queued ∷ planned ∷ integrated ∷ TaskState.planning ∷ TaskState.developing ∷ TaskState.accepting
    ∷ integrating ∷ publishing ∷ TaskState.blocked ∷ publish_pending_approval ∷ dev_completed
    ∷ accepted ∷ rework_required ∷ published ∷ completed ∷ TaskState.cancelled ∷ failed ∷ []

unfoldable pub get_shipyard_states_for_agent_state : AgentTaskState → List TaskState
unfolding to_agent_task_state
get_shipyard_states_for_agent_state agent_state =
    keep (λ s. eqb (to_agent_task_state s) agent_state) shipyard_keys

-- validTransitions
abbrev valid_transitions : AgentTaskState → List AgentTaskState
valid_transitions proposed = ready ∷ []
valid_transitions ready = in_progress ∷ []
valid_transitions in_progress = AgentTaskState.blocked ∷ review ∷ []
valid_transitions AgentTaskState.blocked = in_progress ∷ []
valid_transitions review = in_progress ∷ done ∷ []
valid_transitions done = []
valid_transitions AgentTaskState.cancelled = []

unfoldable pub is_agent_task_state_transition_valid : AgentTaskState → AgentTaskState → Bool
is_agent_task_state_transition_valid from to =
    if eqb from to
    then true
    else if eqb to AgentTaskState.cancelled
    then true
    else includes (valid_transitions from) to

unfoldable pub is_transition_compatible_with_agent_task_state : TaskState → TaskState → Bool
unfolding to_agent_task_state is_agent_task_state_transition_valid
is_transition_compatible_with_agent_task_state from to =
    is_agent_task_state_transition_valid (to_agent_task_state from) (to_agent_task_state to)
