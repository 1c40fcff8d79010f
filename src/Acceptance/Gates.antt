-- ===== src/Acceptance/Gates.antt =====
-- When acceptance is completed, and what it leaves (acceptance-service.ts).
use shipyard_cp.Base.{
  ℕ, ◌≡◌, refl, inl, inr, Bool, true, false, Option, none, some, List, [], ◌∷◌, ◌++◌, String, arith,
  Bool-cases, Option-cases, value_or, eqb, eqb_iff, nat_eqb, string_eqb, Outcome, ok, thrown,
}
use shipyard_cp.Types.{acceptance}
use shipyard_cp.JsMap.{get}
use shipyard_cp.StateMachine.{accepting, accepted, state_eqb, can_transition}
use shipyard_cp.Task.{Task, Verdict, ManualChecklistItem}
use shipyard_cp.TaskService.{TaskStore, transition_task, moved, commit, transition, update_task}
use shipyard_cp.Checklist.{validate_checklist}
use shipyard_cp.Acceptance.{
  AcceptanceState, AcceptanceRequest, AcceptanceFresh, AcceptanceResponse, AcceptanceError,
  is_accept, updated_checklist, verdict_of, has_log, stale_error, is_empty, check_gates,
  accept_task, complete_acceptance, after_gates, not_accepting, accepted_candidate, save_checklist,
  verdict_source, answer, acceptance_input, verdict_submitted,
}

-- The five gates, of a task as it was read: its state, the checklist with the items of the request
-- checked, the verdict, a log and the documents.
pub record IsOpen (task : Task) (request : AcceptanceRequest) (now : ℕ) (verdict : Verdict)
    : Type 0 where
  pub in_acceptance : task.state ≡ accepting
  pub has_items : is_empty (updated_checklist task request now).0 ≡ false
  pub all_checked :
      (validate_checklist (value_or (updated_checklist task request now).0 [])).valid ≡ true
  pub verdict_given : verdict_of task request ≡ some verdict
  pub is_positive : is_accept verdict.outcome ≡ true
  pub log_kept : has_log task ≡ true
  pub docs_fresh : stale_error task ≡ none

gates_open :
    (task : Task) (request : AcceptanceRequest) (checklist : Option (List ManualChecklistItem))
    (v : Verdict)
    → check_gates task request checklist ≡ ok v
    → (is_empty checklist ≡ false)
      × ((validate_checklist (value_or checklist [])).valid ≡ true)
      × (verdict_of task request ≡ some v)
      × (is_accept v.outcome ≡ true)
      × (has_log task ≡ true)
      × (stale_error task ≡ none)
unfolding check_gates
gates_open task request checklist v h = ground arith

open_gates :
    (task : Task) (request : AcceptanceRequest) (checklist : Option (List ManualChecklistItem))
    (v : Verdict)
    → is_empty checklist ≡ false
    → (validate_checklist (value_or checklist [])).valid ≡ true
    → verdict_of task request ≡ some v
    → is_accept v.outcome ≡ true
    → has_log task ≡ true
    → stale_error task ≡ none
    → check_gates task request checklist ≡ ok v
unfolding check_gates
open_gates task request checklist v a b c d e f = ground arith

-- The state that a completed acceptance leaves, made of the task as it was read.
abbrev accepted_state :
    AcceptanceState → Task → AcceptanceRequest → AcceptanceFresh → Verdict → AcceptanceState
accepted_state saved task request fresh verdict =
    let checklist = (updated_checklist task request fresh.checked).0 in
    let candidate = accepted_candidate task checklist verdict in
    record {
      store =
          commit saved.store (moved candidate accepted fresh.transitioned)
            (transition candidate accepted acceptance_input fresh.event_id fresh.transitioned);
      checkpoints = saved.checkpoints ++ record { task_id = task.task_id; stage = acceptance } ∷ [];
      audit =
          saved.audit
          ++ verdict_submitted verdict (verdict_source task request)
              (validate_checklist (value_or checklist []))
            ∷ [];
    }

-- All but the stored tasks is as before.
pub record KeepsLog (s t : AcceptanceState) : Type 0 where
  pub events : t.store.events ≡ s.store.events
  pub checkpoints : t.checkpoints ≡ s.checkpoints
  pub audit : t.audit ≡ s.audit

pub data Decided (s : AcceptanceState) (task : Task) (request : AcceptanceRequest)
    (fresh : AcceptanceFresh)
    : AcceptanceState × Outcome AcceptanceError AcceptanceResponse → Type 0 where
  accepts :
      (saved : AcceptanceState) (v : Verdict) (r : AcceptanceResponse)
      → KeepsLog s saved
      → IsOpen task request fresh.checked v
      → r.state ≡ accepted
      → Decided s task request fresh (accepted_state saved task request fresh v, ok r)
  refuses :
      (t : AcceptanceState) (e : AcceptanceError)
      → KeepsLog s t
      → ((v : Verdict) → ¬ IsOpen task request fresh.checked v)
      → Decided s task request fresh (t, thrown e)

update_task-events :
    (s : TaskStore) (task_id : String) (c : Option (List ManualChecklistItem)) (now : ℕ)
    → (save_checklist s task_id (c, true) now).events ≡ s.events
unfolding update_task
update_task-events s task_id c now = elim (Option-cases (get s.tasks task_id)) [
  | inl e ↦ rw (e, update_task) refl
  | inr (t, e) ↦ rw (e, update_task) refl
]

save_checklist-events :
    (s : TaskStore) (task_id : String) (c : Option (List ManualChecklistItem) × Bool) (now : ℕ)
    → (save_checklist s task_id c now).events ≡ s.events
save_checklist-events s task_id (c, true) now = update_task-events s task_id c now
save_checklist-events s task_id (c, false) now = refl

module _ (s : AcceptanceState) (task_id : String) (task : Task) (request : AcceptanceRequest)
    (fresh : AcceptanceFresh) where
  abbrev checklist : Option (List ManualChecklistItem)
  checklist = (updated_checklist task request fresh.checked).0

  abbrev saved : AcceptanceState
  saved = record s {
    store =
        save_checklist s.store task_id (updated_checklist task request fresh.checked) fresh.updated;
  }

  saved-KeepsLog : KeepsLog s saved
  saved-KeepsLog = record {
    events =
        save_checklist-events s.store task_id (updated_checklist task request fresh.checked)
          fresh.updated;
    checkpoints = refl;
    audit = refl;
  }

  allowed :
      (c : Task)
      → c.state ≡ accepting
      → transition_task saved.store c accepted acceptance_input fresh.event_id fresh.transitioned
        ≡ ok (
          commit saved.store
              (moved c accepted fresh.transitioned)
              (transition c accepted acceptance_input fresh.event_id fresh.transitioned),
          (
            transition c accepted acceptance_input fresh.event_id fresh.transitioned,
            moved c accepted fresh.transitioned,
          ),
        )
  unfolding transition_task can_transition
  allowed c h = rw (h, transition_task) refl

  gates-Decided :
      (o : Outcome AcceptanceError Verdict)
      → check_gates task request checklist ≡ o
      → task.state ≡ accepting
      → Decided s task request fresh (after_gates saved task request checklist fresh o)
  gates-Decided (thrown e) c h = refuses saved e saved-KeepsLog (λ v p. ground (
    arith,
    c,
    open_gates task request checklist v p.has_items p.all_checked p.verdict_given p.is_positive
        p.log_kept p.docs_fresh,
  ))
  gates-Decided (ok v) c h =
      let g = gates_open task request checklist v c in
      rw (allowed (accepted_candidate task checklist v) h) (
        accepts saved v
          (answer (moved (accepted_candidate task checklist v) accepted fresh.transitioned) v
            (validate_checklist (value_or checklist [])))
          saved-KeepsLog
          (record {
            in_acceptance = h;
            has_items = g.0;
            all_checked = g.1;
            verdict_given = g.2;
            is_positive = g.3;
            log_kept = g.4;
            docs_fresh = g.5;
          })
          refl)

  -- For a task that is found, acceptance is decided by its gates. Either they are all open, in the
  -- task as it was read and the checklist with the items of the request checked, and the accepted
  -- task is stored with one event, one approval and one audit event. Or some gate is shut whatever
  -- the verdict, the call throws, and the events, the approvals and the audit are as before.
  pub acceptance-Decided :
      get s.store.tasks task_id ≡ some task
      → Decided s task request fresh (complete_acceptance s task_id request fresh)
  unfolding complete_acceptance accept_task
  acceptance-Decided found =
      rw (found, complete_acceptance)
        (elim (Bool-cases (eqb task.state accepting)) [
          | inl e ↦
              rw (e, complete_acceptance)
                (gates-Decided (check_gates task request checklist) refl
                  ((eqb_iff task.state accepting).0 e))
          | inr e ↦
              rw (e, complete_acceptance)
                (refuses s (not_accepting task.state)
                  (record { events = refl; checkpoints = refl; audit = refl })
                  (λ v p. ground (arith, e, p.in_acceptance, eqb_iff task.state accepting)))
        ])
