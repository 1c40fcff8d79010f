-- ===== src/TaskService/Replay.antt =====
-- The log of transitions tells the state of every task (task-service.ts).
use shipyard_cp.Base.{
  ℕ, ◌≡◌, refl, sym, ◌∙◌, inl, inr, Bool, true, Option, none, some, List, [], ◌∷◌, ◌++◌, String,
  str_eq, eq_iff, arith, if◌then◌else◌, Option-cases, value_or, eqb_iff, nat_eqb, string_eqb, ok,
}
use shipyard_cp.JsMap.{get, get-set}
use shipyard_cp.StateMachine.{TaskState, queued, cancelled, state_eqb, can_transition}
use shipyard_cp.Task.{Task, Update, TransitionInput, StateTransitionEvent}
use shipyard_cp.TaskService.{
  TaskStore, CreateTaskRequest, commit, new_task, created, moved, transition, recorded, changed,
  create_task, transition_task, record_transition, update_task, set_task, cancel, check_event,
  cancel_input,
}

-- A stored task with other fields than its identifier and its state.
abbrev pub version_of : (stored other : Task) → Task
version_of stored other = record other { task_id = stored.task_id; state = stored.state }

-- A call that succeeds, as the other parts make it: a task that is moved (transitionTask) or stored
-- whole (setTask, which checks nothing) is a stored one with other fields than its identifier and
-- its state; the identifier of a new task is new.
pub data Step : TaskStore → TaskStore → Type 0 where
  create :
      {s t : TaskStore} (valid : Bool) (r : CreateTaskRequest) (id event_id : String) (now : ℕ)
      (task : Task)
      → get s.tasks id ≡ none
      → create_task s valid r id event_id now ≡ ok (t, task)
      → Step s t
  move :
      {s t : TaskStore} (stored other : Task) (to_state : TaskState) (input : TransitionInput)
      (event_id : String) (now : ℕ) (answer : StateTransitionEvent × Task)
      → get s.tasks stored.task_id ≡ some stored
      → transition_task s (version_of stored other) to_state input event_id now ≡ ok (t, answer)
      → Step s t
  note :
      {s t : TaskStore} (id : String) (event : StateTransitionEvent) (now : ℕ)
      → record_transition s id event now ≡ ok t
      → Step s t
  update :
      {s t : TaskStore} (id : String) (change : Update) (now : ℕ) (task : Task)
      → update_task s id change now ≡ ok (t, task)
      → Step s t
  store :
      {s t : TaskStore} (stored other : Task)
      → get s.tasks stored.task_id ≡ some stored
      → t ≡ set_task s stored.task_id (version_of stored other)
      → Step s t
  stop :
      {s t : TaskStore} (id event_id : String) (now : ℕ) (task : Task)
      → cancel s id event_id now ≡ ok (t, task)
      → Step s t

abbrev pub empty : TaskStore
empty = record { tasks = []; events = [] }

pub data Reach : TaskStore → Type 0 where
  start : {s : TaskStore} → s ≡ empty → Reach s
  next : {s t : TaskStore} → Reach s → Step s t → Reach t

abbrev pub state_of : Option Task → Option TaskState
state_of none = none
state_of (some task) = some task.state

-- The state of a task after events, from the one before.
abbrev pub after : Option TaskState → List StateTransitionEvent → String → Option TaskState
after o [] id = o
after o (e ∷ es) id = after (if str_eq e.task_id id then some e.to_state else o) es id

-- The events of a task are a path of the state machine: each starts in the state that the one before
-- led to, the first in queued, and each move is allowed.
abbrev pub IsPath : Option TaskState → List StateTransitionEvent → String → Type 0
IsPath o [] id = Unit
IsPath o (e ∷ es) id =
    (str_eq e.task_id id ≡ true
      → (e.from_state ≡ value_or o queued) × (can_transition e.from_state e.to_state ≡ true))
    × IsPath (if str_eq e.task_id id then some e.to_state else o) es id

after-append :
    (o : Option TaskState) (es : List StateTransitionEvent) (e : StateTransitionEvent) (id : String)
    → after o (es ++ e ∷ []) id ≡ (if str_eq e.task_id id then some e.to_state else after o es id)
after-append o [] e id = refl
after-append o (f ∷ es) e id =
    after-append (if str_eq f.task_id id then some f.to_state else o) es e id

append-IsPath :
    (o : Option TaskState) (es : List StateTransitionEvent) (e : StateTransitionEvent) (id : String)
    → IsPath o es id
    → (str_eq e.task_id id ≡ true
        → (e.from_state ≡ value_or (after o es id) queued)
          × (can_transition e.from_state e.to_state ≡ true))
    → IsPath o (es ++ e ∷ []) id
append-IsPath o [] e id p h = (h, tt)
append-IsPath o (f ∷ es) e id p h =
    (p.0, append-IsPath (if str_eq f.task_id id then some f.to_state else o) es e id p.1 h)

record Consistent (s : TaskStore) : Type 0 where
  replays : (id : String) → state_of (get s.tasks id) ≡ after none s.events id
  path : (id : String) → IsPath none s.events id
  keyed : (id : String) (task : Task) → get s.tasks id ≡ some task → task.task_id ≡ id

commit-Consistent :
    (s : TaskStore) (task : Task) (e : StateTransitionEvent)
    → Consistent s
    → e.task_id ≡ task.task_id
    → e.to_state ≡ task.state
    → e.from_state ≡ value_or (state_of (get s.tasks task.task_id)) queued
    → can_transition e.from_state e.to_state ≡ true
    → Consistent (commit s task e)
commit-Consistent s task e c hi ht hf ha = record {
  replays = λ id. ground (
    arith,
    get-set s.tasks task.task_id id task,
    after-append none s.events e id,
    c.replays id,
    eq_iff e.task_id id,
  );
  path = λ id.
      append-IsPath none s.events e id (c.path id)
        (λ h. (ground (arith, c.replays id, (eq_iff e.task_id id).0 h), ha));
  keyed = λ id t h.
      ground (arith, get-set s.tasks task.task_id id task, eq_iff task.task_id id, c.keyed id t);
}

-- What a successful call wrote.
transitioned :
    (s t : TaskStore) (task : Task) (to_state : TaskState) (i : TransitionInput) (event_id : String)
    (now : ℕ) (answer : StateTransitionEvent × Task)
    → transition_task s task to_state i event_id now ≡ ok (t, answer)
    → (t ≡ commit s (moved task to_state now) (transition task to_state i event_id now))
      × (can_transition task.state to_state ≡ true)
unfolding transition_task
transitioned s t task to_state i event_id now answer h = ground arith

checked_event :
    (event : StateTransitionEvent) (id : String) (current : TaskState)
    → check_event event id current ≡ none
    → (event.task_id ≡ id)
      × (event.from_state ≡ current)
      × (can_transition current event.to_state ≡ true)
unfolding check_event
checked_event event id current h =
    ground (arith, eq_iff event.task_id id, eqb_iff event.from_state current)

noted :
    (s t : TaskStore) (id : String) (event : StateTransitionEvent) (now : ℕ)
    → record_transition s id event now ≡ ok t
    → (task : Task) × (get s.tasks id ≡ some task)
      × (check_event event id task.state ≡ none)
      × (t ≡ commit s (recorded task event.to_state now) event)
unfolding record_transition
noted s t id event now h = elim (Option-cases (get s.tasks id)) [
  | inl e ↦ absurd (ground arith)
  | inr (task, e) ↦ (task, e, ground arith, ground arith)
]

cancelled_by :
    (s t : TaskStore) (id event_id : String) (now : ℕ) (answer : Task)
    → cancel s id event_id now ≡ ok (t, answer)
    → (task : Task) × (get s.tasks id ≡ some task)
      × (t
          ≡ commit s
              (moved task cancelled now)
              (transition task cancelled cancel_input event_id now))
      × (can_transition task.state cancelled ≡ true)
unfolding cancel transition_task
cancelled_by s t id event_id now answer h = elim (Option-cases (get s.tasks id)) [
  | inl e ↦ absurd (ground arith)
  | inr (task, e) ↦ (task, e, ground arith, ground arith)
]

created_by :
    (s t : TaskStore) (valid : Bool) (r : CreateTaskRequest) (id event_id : String) (now : ℕ)
    (task : Task)
    → create_task s valid r id event_id now ≡ ok (t, task)
    → t ≡ commit s (new_task r id now) (created id event_id now)
unfolding create_task
created_by s t valid r id event_id now task h = ground arith

-- A write that keeps the identifier and the state of the task.
rewrite-Consistent :
    (s : TaskStore) (id : String) (stored task : Task)
    → Consistent s
    → get s.tasks id ≡ some stored
    → task.task_id ≡ id
    → task.state ≡ stored.state
    → Consistent (set_task s id task)
unfolding set_task
rewrite-Consistent s id stored task c h e k = record {
  replays = λ j. ground (arith, get-set s.tasks id j task, c.replays j, eq_iff id j);
  path = c.path;
  keyed = λ j t g. ground (arith, get-set s.tasks id j task, eq_iff id j, c.keyed j t);
}

queued_again : can_transition queued queued ≡ true
unfolding can_transition
queued_again = refl

updated_by :
    (s t : TaskStore) (id : String) (change : Update) (now : ℕ) (task : Task)
    → update_task s id change now ≡ ok (t, task)
    → (stored : Task) × (get s.tasks id ≡ some stored)
      × (t ≡ set_task s id (changed stored change now))
unfolding update_task set_task
updated_by s t id change now task h = elim (Option-cases (get s.tasks id)) [
  | inl e ↦ absurd (ground arith)
  | inr (stored, e) ↦ (stored, e, ground arith)
]

Step-Consistent : {s t : TaskStore} → Step s t → Consistent s → Consistent t
Step-Consistent {s} {t} (create valid r id event_id now task new h) c =
    rw (created_by s t valid r id event_id now task h) (
      commit-Consistent s (new_task r id now) (created id event_id now) c refl refl (rw new refl)
        queued_again)
Step-Consistent {s} {t} (move stored other to_state input event_id now answer g h) c =
    let task = version_of stored other in
    let w = transitioned s t task to_state input event_id now answer h in
    rw w.0 (
      commit-Consistent s (moved task to_state now) (transition task to_state input event_id now) c
        refl refl (rw g refl) w.1)
Step-Consistent {s} {t} (note id event now h) c =
    let (task, g, k, e) = noted s t id event now h in
    let w = checked_event event id task.state k in
    let key = c.keyed id task g in
    rw e (
      commit-Consistent s (recorded task event.to_state now) event c (w.0 ∙ sym key) refl
        (rw (key, g) w.1) (rw w.1 w.2))
Step-Consistent {s} {t} (update id change now task h) c =
    let (stored, g, e) = updated_by s t id change now task h in
    rw e (rewrite-Consistent s id stored (changed stored change now) c g (c.keyed id stored g) refl)
Step-Consistent {s} {t} (store stored other g h) c =
    rw h (rewrite-Consistent s stored.task_id stored (version_of stored other) c g refl refl)
Step-Consistent {s} {t} (stop id event_id now answer h) c =
    let (task, g, e, a) = cancelled_by s t id event_id now answer h in
    let key = c.keyed id task g in
    rw e (
      commit-Consistent s (moved task cancelled now)
        (transition task cancelled cancel_input event_id now) c refl refl (rw (key, g) refl) a)

Reach-Consistent : {s : TaskStore} → Reach s → Consistent s
Reach-Consistent {s} (start e) = rw e (record {
  replays = λ id. unfold get in refl;
  path = λ id. tt;
  keyed = λ id task h. absurd (unfold get in ground arith);
})
Reach-Consistent (next r st) = Step-Consistent st (Reach-Consistent r)

-- From an empty store, after any successful calls, in which a new task has a new identifier and a task
-- that is moved or stored whole has the identifier and the state of the stored one: the state that the
-- store holds of a task is the one that the last event of its log leads to, a task without events is
-- not in the store, and the events of a task are a path of allowed moves that starts in queued.
pub log_replays :
    (s : TaskStore) (id : String)
    → Reach s
    → (state_of (get s.tasks id) ≡ after none s.events id) × IsPath none s.events id
log_replays s id r = let c = Reach-Consistent r in (c.replays id, c.path id)
