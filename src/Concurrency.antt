-- ===== src/Concurrency.antt =====
-- src/domain/concurrency: the state of the ConcurrencyManager. Its operations stand in the children
-- Jobs, Queues, Locks and Versions, and their laws below those.
pub mod Jobs
pub mod Queues
pub mod Locks
pub mod Versions
mod Tests
use shipyard_cp.Base.{
  ℕ, zero, suc, ◌+◌, ◌-◌, ◌*◌, ◌/◌, ◌%◌, ◌^◌, ◌≤◌, ◌<◌, min, max, ◌≡◌, refl, sym, ap, ◌∙◌, ◌≢◌, ◌↔◌,
  ◌⊎◌, inl, inr, Bool, true, false, not, ◌&&◌, ◌||◌, Option, none, some, List, [], ◌∷◌, ◌++◌, map,
  String, str_eq, eq_iff, eq_refl, arith, ltb, leb, ◌==◌, ==_iff, if◌then◌else◌, ltb→lt, lt→ltb,
  leb→le, le→leb, tests, Bool-cases, Option-cases, is_some, value_or, or_else, length,
  length-append, drop, length-drop, keep, any, all, find, length-keep-le, includes, index_of, All,
  Eqb, eqb, eqb_iff, eqb_refl, Eqb_of_code, nat_eqb, string_eqb, Outcome, ok, thrown,
}
use shipyard_cp.JsMap.{JsMap, JsSet}

pub record ConcurrencyConfig : Type 0 where
  pub max_concurrent_per_worker : ℕ
  pub max_concurrent_global : ℕ
  pub default_lock_duration_seconds : Option ℕ

-- DEFAULT_CONCURRENCY_CONFIG
abbrev pub default_concurrency_config : ConcurrencyConfig
default_concurrency_config = record {
  max_concurrent_per_worker = 20;
  max_concurrent_global = 200;
  default_lock_duration_seconds = some 300;
}

pub record JobRecord : Type 0 where
  pub job_id : String
  pub worker_id : String
  pub stage : String
  pub started_at : ℕ

pub record EnqueueParams : Type 0 where
  pub job_id : String
  pub worker_id : String
  pub stage : String

pub record QueuedJob : Type 0 where
  pub params : EnqueueParams
  pub enqueued_at : ℕ

pub data ResourceLockType : Type 0 where
  task repo_branch environment publish_target : ResourceLockType

pub record LockRecord : Type 0 where
  pub lock_id : String
  pub resource_key : String
  pub resource_type : ResourceLockType
  pub owner_job_id : String
  pub owner_task_id : String
  pub acquired_at : ℕ
  pub expires_at : ℕ

-- Record<ResourceLockType, number>
pub record ConflictCounts : Type 0 where
  pub task_count : ℕ
  pub repo_branch_count : ℕ
  pub environment_count : ℕ
  pub publish_target_count : ℕ

abbrev zero_counts : ConflictCounts
zero_counts = record {
  task_count = 0;
  repo_branch_count = 0;
  environment_count = 0;
  publish_target_count = 0;
}

pub record ConcurrencyManager : Type 0 where
  pub config : ConcurrencyConfig
  pub open config use *
  pub active_jobs : JsMap JobRecord
  pub worker_jobs : JsMap JsSet
  pub job_queue : JsMap (List QueuedJob)
  pub resource_locks : JsMap LockRecord
  pub task_versions : JsMap ℕ
  pub lock_conflict_counts : ConflictCounts
  pub state_update_conflict_count : ℕ

-- The constructor, for a configuration that is complete.
abbrev pub new_manager : ConcurrencyConfig → ConcurrencyManager
new_manager config = record {
  config = config;
  active_jobs = [];
  worker_jobs = [];
  job_queue = [];
  resource_locks = [];
  task_versions = [];
  lock_conflict_counts = zero_counts;
  state_update_conflict_count = 0;
}

unfoldable pub reset_conflict_counters : ConcurrencyManager → ConcurrencyManager
reset_conflict_counters m = record m {
  lock_conflict_counts = zero_counts;
  state_update_conflict_count = 0;
}

unfoldable pub reset : ConcurrencyManager → ConcurrencyManager
unfolding reset_conflict_counters
reset m = reset_conflict_counters (record m {
  active_jobs = [];
  worker_jobs = [];
  job_queue = [];
  resource_locks = [];
  task_versions = [];
})
