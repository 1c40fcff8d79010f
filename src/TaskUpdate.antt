-- ===== src/TaskUpdate.antt =====
-- src/domain/task/task-update.ts: partial updates of a task. A key that is present holds a value.
-- The records that an update carries whole are types of the caller.
pub mod Merging
pub mod Refs
mod Tests
use shipyard_cp.Base.{
  ℕ, ◌+◌, not, Option, none, some, List, [], ◌∷◌, ◌++◌, map, String, value_or, or_else, keep,
  includes, nat_eqb, string_eqb,
}
use shipyard_cp.JsMap.{JsSet}
use shipyard_cp.Types.{FailureClass, SideEffectCategory, WorkerStage}

pub record Payloads : Type 1 where
  pub ArtifactRef : Type 0
  pub ResolverValue : Type 0
  pub Verdict : Type 0
  pub ReworkContext : Type 0
  pub AcceptanceGateContext : Type 0
  pub BlockedContext : Type 0
  pub ChecklistItem : Type 0

pub record ExternalRef : Type 0 where
  pub kind : String
  pub value : String
  pub connection_ref : Option String
  pub link_role : Option String
  pub metadata_json : Option String

-- The keys of ResolverRefs.
pub data ResolverKey : Type 0 where
  doc_refs chunk_refs ack_refs contract_refs stale_status importance reason : ResolverKey
  stale_doc_counts : ResolverKey

-- An object whose keys may be missing.
abbrev pub Partial : Type 0 → Type 0 → Type 0
Partial K V = K → Option V

-- { ...a, ...b }
abbrev pub spread : {K V : Type 0} → Partial K V → Partial K V → Partial K V
spread a b k = or_else (b k) (a k)

-- The fields that a replacement sets, of a task and of an update alike.
pub record DirectFields (P : Payloads) : Type 0 where
  pub context_bundle_ref : Option String
  pub rollback_notes : Option String
  pub last_verdict : Option P.Verdict
  pub last_failure_class : Option FailureClass
  pub rework_context : Option P.ReworkContext
  pub acceptance_gate_context : Option P.AcceptanceGateContext
  pub loop_fingerprint : Option String
  pub detected_side_effects : Option (List SideEffectCategory)
  pub blocked_context : Option P.BlockedContext
  pub active_job_id : Option String
  pub manual_checklist : Option (List P.ChecklistItem)

-- The fields of a Task that an update writes.
pub record UpdatedTask (P : Payloads) : Type 0 where
  pub direct : DirectFields P
  pub artifacts : Option (List P.ArtifactRef)
  pub resolver_refs : Option (Partial ResolverKey P.ResolverValue)
  pub external_refs : Option (List ExternalRef)
  pub retry_counts : Option (Partial WorkerStage ℕ)
  pub version : ℕ
  pub updated_at : ℕ

pub record TaskUpdate (P : Payloads) : Type 0 where
  pub direct : DirectFields P
  pub artifacts : Option (List P.ArtifactRef)
  pub merge_artifacts : Option (List P.ArtifactRef)
  pub resolver_refs : Option (Partial ResolverKey P.ResolverValue)
  pub merge_resolver_refs : Option (Partial ResolverKey P.ResolverValue)
  pub external_refs : Option (List ExternalRef)
  pub merge_external_refs : Option (List ExternalRef)
  pub retry_counts : Option (Partial WorkerStage ℕ)

-- An optional object, spread over another; a missing one has no keys.
abbrev pub spread_over :
    {K V : Type 0} → Option (Partial K V) → Option (Partial K V) → Option (Partial K V)
spread_over none old = old
spread_over (some new) old = some (spread (value_or old (λ k. none)) new)

-- An optional list, appended to another; a missing one is empty.
abbrev pub append_to : {A : Type 0} → Option (List A) → Option (List A) → Option (List A)
append_to none old = old
append_to (some new) old = some (value_or old [] ++ new)

-- The new references whose value does not occur among the old ones.
abbrev pub unique_new : List ExternalRef → List ExternalRef → List ExternalRef
unique_new existing new = keep (λ e. not (includes (map (λ r. r.value) existing) e.value)) new

abbrev pub append_unique :
    Option (List ExternalRef) → Option (List ExternalRef) → Option (List ExternalRef)
append_unique none old = old
append_unique (some new) old = some (value_or old [] ++ unique_new (value_or old []) new)

module _ {P : Payloads} where
  -- Each field that the new ones set, else the old one.
  abbrev pub replace_direct : DirectFields P → DirectFields P → DirectFields P
  replace_direct new old = record {
    context_bundle_ref = or_else new.context_bundle_ref old.context_bundle_ref;
    rollback_notes = or_else new.rollback_notes old.rollback_notes;
    last_verdict = or_else new.last_verdict old.last_verdict;
    last_failure_class = or_else new.last_failure_class old.last_failure_class;
    rework_context = or_else new.rework_context old.rework_context;
    acceptance_gate_context = or_else new.acceptance_gate_context old.acceptance_gate_context;
    loop_fingerprint = or_else new.loop_fingerprint old.loop_fingerprint;
    detected_side_effects = or_else new.detected_side_effects old.detected_side_effects;
    blocked_context = or_else new.blocked_context old.blocked_context;
    active_job_id = or_else new.active_job_id old.active_job_id;
    manual_checklist = or_else new.manual_checklist old.manual_checklist;
  }

  unfoldable pub apply_task_update : UpdatedTask P → TaskUpdate P → (now : ℕ) → UpdatedTask P
  apply_task_update task u now = record {
    direct = replace_direct u.direct task.direct;
    artifacts = append_to u.merge_artifacts (or_else u.artifacts task.artifacts);
    resolver_refs =
        spread_over u.merge_resolver_refs (spread_over u.resolver_refs task.resolver_refs);
    external_refs =
        append_unique u.merge_external_refs (or_else u.external_refs task.external_refs);
    retry_counts = spread_over u.retry_counts task.retry_counts;
    version = task.version + 1;
    updated_at = now;
  }

  -- The body of the loop of mergeTaskUpdates.
  unfoldable pub merge_step : TaskUpdate P → TaskUpdate P → TaskUpdate P
  merge_step merged u = record {
    direct = replace_direct u.direct merged.direct;
    artifacts = or_else u.artifacts merged.artifacts;
    merge_artifacts = append_to u.merge_artifacts merged.merge_artifacts;
    resolver_refs = spread_over u.resolver_refs merged.resolver_refs;
    merge_resolver_refs = spread_over u.merge_resolver_refs merged.merge_resolver_refs;
    external_refs = or_else u.external_refs merged.external_refs;
    merge_external_refs = append_to u.merge_external_refs merged.merge_external_refs;
    retry_counts = spread_over u.retry_counts merged.retry_counts;
  }

  abbrev pub no_direct : DirectFields P
  no_direct = record {
    context_bundle_ref = none;
    rollback_notes = none;
    last_verdict = none;
    last_failure_class = none;
    rework_context = none;
    acceptance_gate_context = none;
    loop_fingerprint = none;
    detected_side_effects = none;
    blocked_context = none;
    active_job_id = none;
    manual_checklist = none;
  }

  abbrev pub no_update : TaskUpdate P
  no_update = record {
    direct = no_direct;
    artifacts = none;
    merge_artifacts = none;
    resolver_refs = none;
    merge_resolver_refs = none;
    external_refs = none;
    merge_external_refs = none;
    retry_counts = none;
  }

  abbrev pub merge_from : TaskUpdate P → List (TaskUpdate P) → TaskUpdate P
  merge_from merged [] = merged
  merge_from merged (u ∷ us) = merge_from (merge_step merged u) us

  unfoldable pub merge_task_updates : List (TaskUpdate P) → TaskUpdate P
  merge_task_updates us = merge_from no_update us
