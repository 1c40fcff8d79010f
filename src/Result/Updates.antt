-- ===== src/Result/Updates.antt =====
-- result-orchestrator.ts: the updates of a task that a result carries.
use shipyard_cp.Base.{
  Bool, true, false, not, ◌&&◌, ◌||◌, Option, none, some, List, [], ◌∷◌, ◌++◌, map, String, str_eq,
  if◌then◌else◌, value_or, eqb, nat_eqb, string_eqb,
}
use shipyard_cp.Types.{dev, stage_eqb}
use shipyard_cp.SideEffect.{analyze_side_effects}
use shipyard_cp.TaskUpdate.{DirectFields, no_direct, no_update, merge_task_updates}
use shipyard_cp.RunGate.{is_empty}
use shipyard_cp.Task.{Update, payloads, ArtifactRef, ArtifactKind, AcceptanceGateContext}
use shipyard_cp.Result.{
  WorkerResult, ResultJob, ResultArtifact, ResultArtifactKind, html, other_kind, Metadata, Fresh,
  acceptance_gate_required, permission_escalated, Call, give, need, emit_if, ◌>>=◌, ◌>>◌,
}

abbrev pub none_changed : Update
none_changed = no_update {P = payloads}

abbrev pub direct_only : DirectFields payloads → Update
direct_only d = record none_changed { direct = d }

abbrev pub unset : DirectFields payloads
unset = no_direct {P = payloads}

-- The kind html is stored as other.
abbrev stored_kind : ResultArtifactKind → ArtifactKind
stored_kind html = ArtifactKind.other
stored_kind (other_kind k) = k

abbrev pub stored_artifact : ResultArtifact → ArtifactRef
stored_artifact a = record { artifact_id = a.artifact_id; kind = stored_kind a.kind }

-- getArtifactIds of src/store/utils.ts; none is the TypeError of a result without artifacts.
unfoldable pub get_artifact_ids : WorkerResult → Option (List String)
get_artifact_ids result = elim result.artifacts [
  | none ↦ none
  | some artifacts ↦ some (map (λ a. a.artifact_id) artifacts)
]

-- An empty text is falsy.
abbrev pub truthy : Option String → Option String
truthy none = none
truthy (some t) = if str_eq t "" then none else some t

unfoldable pub push : {A : Type 0} → Option A → (A → Update) → List Update
push none f = []
push (some a) f = f a ∷ []

abbrev pub non_empty : {A : Type 0} → List A → Option (List A)
non_empty [] = none
non_empty (x ∷ xs) = some (x ∷ xs)

abbrev pub non_empty? : {A : Type 0} → Option (List A) → Option (List A)
non_empty? none = none
non_empty? (some xs) = non_empty xs

abbrev applied : Metadata → Bool
applied m =
    not m.tool_plan_dry_run
    && (m.tool_plan_applied
        || (elim m.tool_plan_execution_verdict [ none ↦ false | some v ↦ str_eq v "applied" ]))

unfoldable pub requires_tool_plan_acceptance_gate : WorkerResult → Bool
requires_tool_plan_acceptance_gate result = elim result.metadata [
  | none ↦ false
  | some m ↦ applied m
]

abbrev pub acceptance_gate : ResultJob → (ids : List String) → Fresh → AcceptanceGateContext
acceptance_gate job ids fresh = record {
  required = true;
  source_job_id = job.job_id;
  reason =
      "tool_plan applied workspace changes and requires independent acceptance before integration";
  artifact_ids = ids;
  created_at = fresh.gate_created;
}

abbrev pub needs_gate : ResultJob → WorkerResult → Bool
needs_gate job result = eqb job.stage dev && requires_tool_plan_acceptance_gate result

-- The identifiers of the artifacts are read where there is a gate.
abbrev pub gate_ids : ResultJob → WorkerResult → Option (List String)
gate_ids job result = if needs_gate job result then get_artifact_ids result else some []

unfoldable pub gate_update : ResultJob → WorkerResult → (ids : List String) → Fresh → List Update
gate_update job result ids fresh =
    if needs_gate job result
    then direct_only
        (record unset { acceptance_gate_context = some (acceptance_gate job ids fresh) })
      ∷ []
    else []

-- What the result detected, else what the analysis of its escalations finds.
unfoldable pub side_effects : WorkerResult → List Update
side_effects result = elim result.detected_side_effects [
  | some found ↦ direct_only (record unset { detected_side_effects = some found }) ∷ []
  | none ↦ push (non_empty result.requested_escalations) (λ kinds. direct_only (record unset {
    detected_side_effects =
        some
          (analyze_side_effects
            (record { escalation_requests = kinds; publish_targets = none })).categories;
  }))
]

unfoldable pub updates_of : ResultJob → WorkerResult → (ids : List String) → Fresh → List Update
updates_of job result ids fresh =
    push (non_empty (map stored_artifact (value_or result.artifacts [])))
      (λ a. record none_changed { merge_artifacts = some a })
    ++ (push result.resolver_refs (λ r. record none_changed { merge_resolver_refs = some r })
        ++ (push (non_empty? result.external_refs)
              (λ r. record none_changed { merge_external_refs = some r })
            ++ (push (truthy result.context_bundle_ref)
                  (λ r. direct_only (record unset { context_bundle_ref = some r }))
                ++ (push (truthy result.rollback_notes)
                      (λ n. direct_only (record unset { rollback_notes = some n }))
                    ++ (push result.verdict
                          (λ v. direct_only (record unset { last_verdict = some v }))
                        ++ (push result.retry_count (λ n. record none_changed {
                          retry_counts =
                              some (λ stage. if eqb stage job.stage then some n else none);
                        })
                            ++ (push result.failure_class
                                  (λ c. direct_only (record unset { last_failure_class = some c }))
                                ++ (gate_update job result ids fresh
                                    ++ (push (truthy result.loop_fingerprint) (λ f.
                                          direct_only (record unset { loop_fingerprint = some f }))
                                        ++ side_effects result)))))))))

-- A warning for a fingerprint other than the job's only goes to the log.
unfoldable pub compute_task_updates_from_result : ResultJob → WorkerResult → Fresh → Call Update
unfolding updates_of push gate_update side_effects
compute_task_updates_from_result job result fresh = do
  ids ← need (gate_ids job result)
  emit_if (needs_gate job result) (acceptance_gate_required (acceptance_gate job ids fresh))
  emit_if (not (is_empty result.requested_escalations))
      (permission_escalated result.requested_escalations)
  give (merge_task_updates (updates_of job result ids fresh))
