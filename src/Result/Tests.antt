-- ===== src/Result/Tests.antt =====
-- Results of concrete jobs (result-orchestrator.ts).
use shipyard_cp.Base.{
  ◌≡◌, refl, ◌⊎◌, true, false, none, some, [], ◌∷◌, is_some, nat_eqb, string_eqb, thrown,
}
use shipyard_cp.Types.{dev, codex, medium}
use shipyard_cp.StateMachine.{TaskState, stage_to_active_state}
use shipyard_cp.RunGate.{WorkerStatus, succeeded, failed, advisory}
use shipyard_cp.Lease.{default_lease_config, Lease}
use shipyard_cp.Concurrency.{new_manager, default_concurrency_config}
use shipyard_cp.DoomLoop.{new_detector, default_doom_loop_config, default_loop_fingerprint_config}
use shipyard_cp.TaskUpdate.{no_direct}
use shipyard_cp.Task.{Task, schema_error}
use shipyard_cp.Result.{type_error, WorkerResult, ResultJob, ResultState}
use shipyard_cp.JsMap.{get}
use shipyard_cp.Retry.{should_retry, get_default_max_retries}
use shipyard_cp.Result.Updates.{get_artifact_ids}
use shipyard_cp.Result.Apply.{Inputs, apply_result}
use shipyard_cp.Result.Effects.{Returns}
use shipyard_cp.Result.Failures.{Answered}
use shipyard_cp.Result.Total.{result_handled}

abbrev task : Task
task = record {
  task_id = "t";
  typed_ref = "a:b:c:d";
  state = TaskState.developing;
  risk_level = medium;
  updated = record {
    direct = record no_direct { active_job_id = some "j" };
    artifacts = none;
    resolver_refs = none;
    external_refs = none;
    retry_counts = none;
    version = 3;
    updated_at = 1;
  };
  completed_at = none;
}

abbrev job : ResultJob
job = record {
  job_id = "j";
  stage = dev;
  worker_type = codex;
  retry_policy = none;
  loop_fingerprint = none;
}

abbrev result : WorkerStatus → WorkerResult
result status = record {
  job_id = "j";
  typed_ref = "a:b:c:d";
  status = status;
  summary = some "timeout";
  artifacts = some [];
  verdict = none;
  requested_escalations = [];
  retry_count = none;
  failure_class = none;
  failure_code = none;
  failure_summary = none;
  resolver_refs = none;
  external_refs = none;
  context_bundle_ref = none;
  rollback_notes = none;
  loop_fingerprint = none;
  detected_side_effects = none;
  metadata = none;
}

abbrev inputs : Inputs
inputs = record {
  checks = record { authority_conflict = none; schema_errors = []; semantic_errors = [] };
  run_system_mode = advisory;
  packet = record {
    worker_status = succeeded;
    failed_tests = 0;
    requested_escalation_count = 0;
    side_effects = [];
    tool_plan = none;
  };
  external_report = none;
  generate_manual_checklist = λ t. [];
  fresh = record {
    event_id = "e";
    random = 0;
    gate_created = 2;
    loop_detected = 2;
    loop_stored = 2;
    rework_created = 2;
    updated = 2;
    transitioned = 2;
    scheduled = 2;
  };
}

abbrev lease : Lease
lease = record {
  job_id = "j";
  lease_owner = "codex";
  lease_expires_at = 100;
  last_heartbeat_at = none;
  acquired_at = 0;
  orphaned_at = none;
  recovery_action = none;
}

abbrev start : ResultState
start = record {
  store = record { tasks = []; events = [] };
  audit = [];
  retry_tracker = [];
  lease_manager = record { config = default_lease_config; leases = ("j", lease) ∷ [] };
  concurrency_manager = new_manager default_concurrency_config;
  doom_loop_detector = new_detector default_doom_loop_config default_loop_fingerprint_config;
}

result_handled_example :
    ((is_some (result failed).artifacts ≡ true)
      × Returns
          (Answered task job (result failed) start)
          (apply_result task job (result failed) inputs start))
    ⊎ ((is_some (result failed).artifacts ≡ false)
        × ((apply_result task job (result failed) inputs start).1 ≡ thrown type_error))
result_handled_example =
    result_handled task job (result failed) inputs start (unfold stage_to_active_state in refl)

-- A schema error, of the field that is missing.
abbrev reported : Inputs
reported = record inputs {
  checks = record {
    authority_conflict = none;
    schema_errors = record { code = schema_error; path = "artifacts"; message = "artifacts" } ∷ [];
    semantic_errors = [];
  };
}

-- A result without artifacts is reported by the validator, and then throws a TypeError.
without_artifacts :
    (apply_result task job (record (result failed) { artifacts = none }) reported start).1
    ≡ thrown type_error
unfolding apply_result should_retry get_default_max_retries get get_artifact_ids
without_artifacts = refl
