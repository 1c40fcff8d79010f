-- ===== src/Acceptance.antt =====
-- src/domain/acceptance/acceptance-service.ts, on the store of tasks (TaskService). The log artifacts
-- are required whatever the deprecated option says.
pub mod Gates
mod Tests
use shipyard_cp.Base.{
  ℕ, Bool, true, false, not, Option, none, some, List, [], ◌∷◌, ◌++◌, String, if◌then◌else◌,
  is_some, value_or, or_else, any, eqb, nat_eqb, string_eqb, Outcome, ok, thrown,
}
use Prim.Native.String.{◌++◌ as append}
use shipyard_cp.JsMap.{get}
use shipyard_cp.Types.{WorkerStage, acceptance}
use shipyard_cp.StateMachine.{TaskState, accepting, accepted, state_eqb}
use shipyard_cp.TaskUpdate.{ResolverKey, Partial, no_update, no_direct}
use shipyard_cp.Task.{
  Task, Update, payloads, ArtifactRef, ArtifactKind, log, ManualChecklistItem, Verdict,
  VerdictOutcome, accept, ResolverValue, status, counts, StaleStatus, StaleCounts, TransitionInput,
  StateTransitionEvent, ActorType, human, text,
}
use shipyard_cp.TaskService.{
  TaskStore, TaskError, task_not_found, require_task, update_task, transition_task,
}
use shipyard_cp.Checklist.{ChecklistValidation, validate_checklist, check_item}
use shipyard_cp.StaleCheck.{StaleCheckInput, StaleCheckResult, StaleAction, check_stale}

pub record CheckedItem : Type 0 where
  pub id : String
  pub checked_by : Option String
  pub notes : Option String

pub record AcceptanceRequest : Type 0 where
  pub checked_items : Option (List CheckedItem)
  pub verdict : Option Verdict

pub data VerdictSource : Type 0 where
  human_override manual_without_worker worker_verdict : VerdictSource

-- The approval checkpoint, with the values that its reference is printed from.
pub record Approval : Type 0 where
  pub task_id : String
  pub stage : WorkerStage

pub data AcceptanceAudit : Type 0 where
  verdict_submitted : Verdict → VerdictSource → ChecklistValidation → AcceptanceAudit

pub record AcceptanceState : Type 0 where
  pub store : TaskStore
  pub checkpoints : List Approval
  pub audit : List AcceptanceAudit

pub data AcceptanceError : Type 0 where
  of_task : TaskError → AcceptanceError
  not_accepting : TaskState → AcceptanceError
  checklist_required no_verdict no_log_artifact : AcceptanceError
  checklist_incomplete : (missing : List String) → AcceptanceError
  not_accepted : VerdictOutcome → AcceptanceError
  stale_docs : StaleAction → Option String → AcceptanceError

pub record AcceptanceResponse : Type 0 where
  pub task_id : String
  pub state : TaskState
  pub checklist_complete : Bool
  pub verdict_outcome : VerdictOutcome

-- The new identifier, and the clock at each reading.
pub record AcceptanceFresh : Type 0 where
  pub event_id : String
  pub checked : ℕ
  pub updated : ℕ
  pub transitioned : ℕ

abbrev pub checks_made : List ManualChecklistItem → List CheckedItem → ℕ → List ManualChecklistItem
checks_made checklist [] now = checklist
checks_made checklist (item ∷ items) now =
    checks_made (check_item checklist item.id item.checked_by item.notes now) items now

abbrev pub checklist_of : Task → Option (List ManualChecklistItem)
checklist_of task = task.updated.direct.manual_checklist

-- updatedChecklist, and whether the task is updated with it.
abbrev pub updated_checklist :
    Task → AcceptanceRequest → ℕ → Option (List ManualChecklistItem) × Bool
updated_checklist task request now = elim request.checked_items [
  | none ↦ (checklist_of task, false)
  | some items ↦ elim (checklist_of task) [
    | none ↦ (none, false)
    | some checklist ↦ (some (checks_made checklist items now), true)
  ]
]

abbrev checklist_change : Option (List ManualChecklistItem) → Update
checklist_change checklist = record (no_update {P = payloads}) {
  direct = record (no_direct {P = payloads}) { manual_checklist = checklist };
}

abbrev updated_store : TaskStore → Outcome TaskError (TaskStore × Task) → TaskStore
updated_store s (ok (t, task)) = t
updated_store s (thrown e) = s

-- ctx.updateTask, of a task that is there.
abbrev pub save_checklist :
    TaskStore → String → Option (List ManualChecklistItem) × Bool → ℕ → TaskStore
save_checklist s task_id (checklist, false) now = s
save_checklist s task_id (checklist, true) now =
    updated_store s (update_task s task_id (checklist_change checklist) now)

abbrev is_log : ArtifactKind → Bool
is_log log = true
is_log _ = false

abbrev pub has_log : Task → Bool
has_log task = any (λ a. is_log a.kind) (value_or task.updated.artifacts [])

abbrev status_in : Option ResolverValue → Option StaleStatus
status_in (some (status s)) = some s
status_in _ = none

abbrev counts_in : Option ResolverValue → Option StaleCounts
counts_in (some (counts c)) = some c
counts_in _ = none

abbrev resolver_value : Task → ResolverKey → Option ResolverValue
resolver_value task key = value_or task.updated.resolver_refs (λ k. none) key

abbrev stale_input : Task → StaleStatus → StaleCheckInput
stale_input task s = record {
  stale_status = s;
  has_resolver_refs = true;
  current_stage = some acceptance;
  reread_performed = false;
  reread_status = none;
  doc_updated_at = none;
  check_performed_at = none;
  stale_threshold_seconds = none;
  doc_stale_counts = counts_in (resolver_value task ResolverKey.stale_doc_counts);
}

-- Gate 5, and the error of its failure.
abbrev pub stale_error : Task → Option AcceptanceError
stale_error task = elim (status_in (resolver_value task ResolverKey.stale_status)) [
  | none ↦ none
  | some s ↦
      let r = check_stale (stale_input task s) in
      if r.can_proceed then none else some (stale_docs r.action r.reason)
]

abbrev pub is_accept : VerdictOutcome → Bool
is_accept accept = true
is_accept _ = false

-- request.verdict ?? task.last_verdict
abbrev pub verdict_of : Task → AcceptanceRequest → Option Verdict
verdict_of task request = or_else request.verdict task.updated.direct.last_verdict

abbrev pub verdict_source : Task → AcceptanceRequest → VerdictSource
verdict_source task request =
    if is_some request.verdict
    then (if is_some task.updated.direct.last_verdict
        then human_override
        else manual_without_worker)
    else worker_verdict

abbrev pub is_empty : Option (List ManualChecklistItem) → Bool
is_empty (some (i ∷ is)) = false
is_empty _ = true

-- Gates 2 to 5: the verdict, or the error of the first gate that fails.
unfoldable pub check_gates :
    Task → AcceptanceRequest → Option (List ManualChecklistItem) → Outcome AcceptanceError Verdict
check_gates task request checklist =
    let validation = validate_checklist (value_or checklist []) in
    if is_empty checklist
    then thrown checklist_required
    else if not validation.valid
    then thrown (checklist_incomplete validation.missing)
    else elim (verdict_of task request) [
      | none ↦ thrown no_verdict
      | some v ↦
          if not (is_accept v.outcome)
          then thrown (not_accepted v.outcome)
          else if not (has_log task)
          then thrown no_log_artifact
          else elim (stale_error task) [ some e ↦ thrown e | none ↦ ok v ]
    ]

abbrev pub acceptance_input : TransitionInput
acceptance_input = record {
  actor_type = human;
  actor_id = "manual_acceptance";
  reason = text "manual acceptance completed";
  job_id = none;
  artifact_ids = none;
}

-- acceptedCandidate, made from the task as it was read at first.
abbrev pub accepted_candidate : Task → Option (List ManualChecklistItem) → Verdict → Task
accepted_candidate task checklist verdict = record task {
  updated = record task.updated {
    direct = record task.updated.direct {
      manual_checklist = checklist;
      last_verdict = some verdict;
    };
  };
}

abbrev pub answer : Task → Verdict → ChecklistValidation → AcceptanceResponse
answer task verdict validation = record {
  task_id = task.task_id;
  state = task.state;
  checklist_complete = validation.valid;
  verdict_outcome = verdict.outcome;
}

abbrev pub finish :
    AcceptanceState
    → Task
    → AcceptanceRequest
    → Verdict
    → ChecklistValidation
    → Outcome TaskError (TaskStore × (StateTransitionEvent × Task))
    → AcceptanceState × Outcome AcceptanceError AcceptanceResponse
finish s task request verdict validation (thrown e) = (s, thrown (of_task e))
finish s task request verdict validation (ok (store, (event, after))) = (
  record {
    store = store;
    checkpoints = s.checkpoints ++ record { task_id = task.task_id; stage = acceptance } ∷ [];
    audit = s.audit ++ verdict_submitted verdict (verdict_source task request) validation ∷ [];
  },
  ok (answer after verdict validation),
)

-- The gates are checked after the checklist is saved.
abbrev pub after_gates :
    AcceptanceState
    → Task
    → AcceptanceRequest
    → Option (List ManualChecklistItem)
    → AcceptanceFresh
    → Outcome AcceptanceError Verdict
    → AcceptanceState × Outcome AcceptanceError AcceptanceResponse
after_gates s task request checklist fresh (thrown e) = (s, thrown e)
after_gates s task request checklist fresh (ok verdict) =
    finish s task request verdict (validate_checklist (value_or checklist [])) (
      transition_task s.store (accepted_candidate task checklist verdict) accepted acceptance_input
        fresh.event_id fresh.transitioned)

unfoldable pub accept_task :
    AcceptanceState
    → String
    → Task
    → AcceptanceRequest
    → AcceptanceFresh
    → AcceptanceState × Outcome AcceptanceError AcceptanceResponse
accept_task s task_id task request fresh =
    let checklist = updated_checklist task request fresh.checked in
    let saved = record s { store = save_checklist s.store task_id checklist fresh.updated } in
    after_gates saved task request checklist.0 fresh (check_gates task request checklist.0)

unfoldable pub complete_acceptance :
    AcceptanceState
    → String
    → AcceptanceRequest
    → AcceptanceFresh
    → AcceptanceState × Outcome AcceptanceError AcceptanceResponse
unfolding accept_task
complete_acceptance s task_id request fresh = elim (get s.store.tasks task_id) [
  | none ↦ (s, thrown (of_task (task_not_found task_id)))
  | some task ↦
      if eqb task.state accepting
      then accept_task s task_id task request fresh
      else (s, thrown (not_accepting task.state))
]
