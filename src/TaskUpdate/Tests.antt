-- ===== src/TaskUpdate/Tests.antt =====
-- Updates of a concrete task (task-update.ts).
use shipyard_cp.Base.{◌≡◌, refl, inl, none, some, [], ◌∷◌, String, nat_eqb, string_eqb}
use shipyard_cp.TaskUpdate.{
  Payloads, ExternalRef, UpdatedTask, TaskUpdate, no_direct, no_update, apply_task_update,
  merge_task_updates, merge_step,
}
use shipyard_cp.TaskUpdate.Merging.{Agree, merged_applies}
use shipyard_cp.TaskUpdate.Refs.{refs_idempotent}

abbrev texts : Payloads
texts = record {
  ArtifactRef = String;
  ResolverValue = String;
  Verdict = String;
  ReworkContext = String;
  AcceptanceGateContext = String;
  BlockedContext = String;
  ChecklistItem = String;
}

abbrev task : UpdatedTask texts
task = record {
  direct = no_direct;
  artifacts = none;
  resolver_refs = none;
  external_refs = none;
  retry_counts = none;
  version = 1;
  updated_at = 0;
}

abbrev adds : String → TaskUpdate texts
adds artifact = record no_update { merge_artifacts = some (artifact ∷ []) }

abbrev replaces : TaskUpdate texts
replaces = record no_update { artifacts = some ("c" ∷ []) }

abbrev ref : ExternalRef
ref = record {
  kind = "tag";
  value = "v1";
  connection_ref = none;
  link_role = none;
  metadata_json = none;
}

abbrev adds_ref : TaskUpdate texts
adds_ref = record no_update { merge_external_refs = some (ref ∷ []) }

-- A replacement after a merge: the merged update keeps what the replacement drops.
replacement_differs :
    ((apply_task_update task (merge_task_updates (adds "a" ∷ replaces ∷ [])) 2).artifacts
      ≡ some ("c" ∷ "a" ∷ []))
    × ((apply_task_update (apply_task_update task (adds "a") 1) replaces 2).artifacts
        ≡ some ("c" ∷ []))
unfolding apply_task_update merge_task_updates merge_step
replacement_differs = (refl, refl)

-- Two updates that bring the same reference: merged, it is added twice.
reference_doubled :
    ((apply_task_update task (merge_task_updates (adds_ref ∷ adds_ref ∷ [])) 2).external_refs
      ≡ some (ref ∷ ref ∷ []))
    × ((apply_task_update (apply_task_update task adds_ref 1) adds_ref 2).external_refs
        ≡ some (ref ∷ []))
unfolding apply_task_update merge_task_updates merge_step
reference_doubled = (refl, refl)

merged_applies_example :
    Agree (apply_task_update task (merge_task_updates (adds "a" ∷ adds_ref ∷ adds "b" ∷ [])) 2) (
      apply_task_update
        (apply_task_update task (merge_task_updates (adds "a" ∷ adds_ref ∷ [])) 1)
        (adds "b")
        2)
unfolding merge_task_updates merge_step
merged_applies_example =
    merged_applies task (adds "a" ∷ adds_ref ∷ []) (adds "b") 1 2
      (inl refl, inl refl, inl (refl, refl))

refs_idempotent_example :
    (apply_task_update (apply_task_update task adds_ref 1) adds_ref 2).external_refs
    ≡ (apply_task_update task adds_ref 1).external_refs
refs_idempotent_example = refs_idempotent task adds_ref 1 2 refl
