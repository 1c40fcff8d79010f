-- ===== src/Acceptance/Tests.antt =====
-- A task that is accepted, and one without a log (acceptance-service.ts).
use shipyard_cp.Base.{
  ℕ, ◌≡◌, refl, true, false, Option, none, some, [], ◌∷◌, nat_eqb, string_eqb, thrown,
}
use shipyard_cp.JsMap.{get, set}
use shipyard_cp.TaskUpdate.{no_direct, apply_task_update}
use shipyard_cp.Task.{Task, payloads, accept, log, ManualChecklistItem}
use shipyard_cp.StateMachine.{accepting, can_transition, is_terminal}
use shipyard_cp.Types.{low}
use shipyard_cp.TaskService.{update_task, transition_task}
use shipyard_cp.TaskService.Replay.{empty}
use shipyard_cp.Checklist.{check_item, validate_checklist}
use shipyard_cp.StaleCheck.{check_stale}
use shipyard_cp.Acceptance.{
  AcceptanceState, AcceptanceRequest, AcceptanceFresh, complete_acceptance, no_log_artifact,
  accept_task, check_gates, save_checklist, updated_checklist,
}
use shipyard_cp.Acceptance.Gates.{Decided, acceptance-Decided}

abbrev item : ManualChecklistItem
item = record {
  id = "tests-passed";
  description = "All automated tests passed";
  required = true;
  checked = false;
  checked_by = none;
  checked_at = none;
  notes = none;
}

abbrev given : Task
given = record {
  task_id = "t";
  typed_ref = "a:b:c:d";
  state = accepting;
  risk_level = low;
  updated = record {
    direct = record (no_direct {P = payloads}) { manual_checklist = some (item ∷ []) };
    artifacts = some (record { artifact_id = "a"; kind = log } ∷ []);
    resolver_refs = none;
    external_refs = none;
    retry_counts = none;
    version = 7;
    updated_at = 1;
  };
  completed_at = none;
}

abbrev with : Task → AcceptanceState
with task = record {
  store = record empty { tasks = set empty.tasks "t" task };
  checkpoints = [];
  audit = [];
}

abbrev request : AcceptanceRequest
request = record {
  checked_items = some (record { id = "tests-passed"; checked_by = some "u"; notes = none } ∷ []);
  verdict = some (record { outcome = accept; reason = none; manual_notes = none });
}

abbrev fresh : AcceptanceFresh
fresh = record { event_id = "e"; checked = 2; updated = 3; transitioned = 4 }

acceptance-Decided_example :
    Decided (with given) given request fresh (complete_acceptance (with given) "t" request fresh)
unfolding get set
acceptance-Decided_example = acceptance-Decided (with given) "t" given request fresh refl

abbrev no_logs : Task
no_logs = record given { updated = record given.updated { artifacts = some [] } }

log_is_needed : (complete_acceptance (with no_logs) "t" request fresh).1 ≡ thrown no_log_artifact
unfolding get set complete_acceptance accept_task check_gates update_task check_item
    validate_checklist check_stale
log_is_needed = refl

abbrev version_in : Option Task → Option ℕ
version_in none = none
version_in (some t) = some t.updated.version

-- The versions of the snapshots of the checklist that is saved and of the task that is accepted.
versions_meet :
    (version_in (
        get (save_checklist (with given).store "t" (updated_checklist given request 2) 3).tasks "t")
      ≡ some 8)
    × (version_in (get (complete_acceptance (with given) "t" request fresh).0.store.tasks "t")
        ≡ some 8)
unfolding get set complete_acceptance accept_task check_gates update_task check_item
    validate_checklist check_stale transition_task can_transition is_terminal apply_task_update
versions_meet = (refl, refl)
