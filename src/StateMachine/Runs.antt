-- ===== src/StateMachine/Runs.antt =====
-- What holds of a task over every sequence of allowed moves (state-machine.ts).
use shipyard_cp.Base.{◌≡◌, refl, ◌⊎◌, Bool, true, false, List, [], ◌∷◌, arith, includes, ok, eqb}
use shipyard_cp.Types.{WorkerStage}
use shipyard_cp.StateMachine.{
  TaskState, queued, planned, dev_completed, accepted, rework_required, integrating, integrated,
  publish_pending_approval, publishing, published, completed, cancelled, failed, blocked, state_eqb,
  can_transition, get_allowed_dispatch_stage, stage_to_active_state, to_task_state, is_terminal,
}

-- A sequence of moves, each allowed.
pub data Run : TaskState → TaskState → Type 0 where
  here : {s : TaskState} → Run s s
  move : {s t u : TaskState} → can_transition s t ≡ true → Run t u → Run s u

terminal_blocks : (s t : TaskState) → is_terminal s ≡ true → can_transition s t ≡ false
unfolding is_terminal can_transition
terminal_blocks s t h = ground arith

-- Every run from a terminal state stays there.
pub terminal_absorbs : {s t : TaskState} → is_terminal s ≡ true → Run s t → t ≡ s
terminal_absorbs h here = refl
terminal_absorbs {s} h (move {t = t} m r) = cc (terminal_blocks s t h)

-- Whatever stage may be dispatched from a state, the move to its active state is allowed.
pub dispatch_allowed :
    (s : TaskState) (stage : WorkerStage)
    → get_allowed_dispatch_stage s ≡ ok stage
    → can_transition s (to_task_state (stage_to_active_state stage)) ≡ true
unfolding get_allowed_dispatch_stage can_transition stage_to_active_state
dispatch_allowed s stage h = ground arith

late : Run publishing published
unfolding can_transition
late = move refl here

from_accepted : Run accepted published
unfolding can_transition
from_accepted =
    move {t = integrating} refl (move {t = integrated} refl (move {t = publishing} refl late))

from_developing : Run TaskState.developing published
unfolding can_transition
from_developing =
    move {t = dev_completed} refl
      (move {t = TaskState.accepting} refl (move {t = accepted} refl from_accepted))

-- From every state that is not terminal some run leads to publication.
pub published_reachable : (s : TaskState) → is_terminal s ≡ false → Run s published
unfolding can_transition is_terminal
published_reachable queued h =
    move {t = TaskState.planning} refl (move {t = planned} refl (move refl from_developing))
published_reachable TaskState.planning h = move {t = planned} refl (move refl from_developing)
published_reachable planned h = move refl from_developing
published_reachable TaskState.developing h = from_developing
published_reachable dev_completed h =
    move {t = TaskState.accepting} refl (move {t = accepted} refl from_accepted)
published_reachable TaskState.accepting h = move {t = accepted} refl from_accepted
published_reachable accepted h = from_accepted
published_reachable rework_required h = move refl from_developing
published_reachable integrating h = move {t = integrated} refl (move {t = publishing} refl late)
published_reachable integrated h = move {t = publishing} refl late
published_reachable publish_pending_approval h = move {t = publishing} refl late
published_reachable publishing h = late
published_reachable blocked h = move {t = publishing} refl late
published_reachable published h = cc
published_reachable completed h = cc
published_reachable cancelled h = cc
published_reachable failed h = cc

-- The states that a trace of moves goes through after `s`.
abbrev pub IsTrace : TaskState → List TaskState → Type 0
IsTrace s [] = Unit
IsTrace s (t ∷ ts) = (can_transition s t ≡ true) × IsTrace t ts

-- The states before the acceptance verdict, and those in which a task is given up.
abbrev is_early : TaskState → Bool
is_early queued = true
is_early TaskState.planning = true
is_early planned = true
is_early TaskState.developing = true
is_early dev_completed = true
is_early TaskState.accepting = true
is_early rework_required = true
is_early cancelled = true
is_early failed = true
is_early _ = false

early-step :
    (s t : TaskState)
    → is_early s ≡ true
    → can_transition s t ≡ true
    → (eqb t accepted ≡ true)
      ⊎ (eqb t blocked ≡ true)
      ⊎ ((is_early t ≡ true) × (eqb t published ≡ false))
unfolding can_transition
early-step s t h m = ground arith

early_needs_accepted :
    (s : TaskState) (ts : List TaskState)
    → is_early s ≡ true
    → IsTrace s ts
    → includes ts blocked ≡ false
    → includes ts published ≡ true
    → includes ts accepted ≡ true
early_needs_accepted s [] h tr b p = cc
early_needs_accepted s (t ∷ ts) h tr b p =
    ground (arith, early-step s t h tr.0, early_needs_accepted t ts)

-- A task that is published without ever having been blocked was accepted on the way.
pub publish_needs_accepted :
    (ts : List TaskState)
    → IsTrace queued ts
    → includes ts blocked ≡ false
    → includes ts published ≡ true
    → includes ts accepted ≡ true
publish_needs_accepted ts tr b p = early_needs_accepted queued ts refl tr b p
