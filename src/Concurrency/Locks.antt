-- ===== src/Concurrency/Locks.antt =====
-- concurrency-manager.ts and types.ts: locks on resources. Each reading of the clock is an argument,
-- and so is the identifier that randomUUID makes.
pub mod Exclusion
pub mod Accounts
use shipyard_cp.Base.{
  ℕ, zero, suc, ◌+◌, ◌-◌, ◌*◌, ◌/◌, ◌%◌, ◌^◌, ◌≤◌, ◌<◌, min, max, ◌≡◌, refl, sym, ap, ◌∙◌, ◌≢◌, ◌↔◌,
  ◌⊎◌, inl, inr, Bool, true, false, not, ◌&&◌, ◌||◌, Option, none, some, List, [], ◌∷◌, ◌++◌, map,
  String, str_eq, eq_iff, eq_refl, arith, ltb, leb, ◌==◌, ==_iff, if◌then◌else◌, ltb→lt, lt→ltb,
  leb→le, le→leb, tests, Bool-cases, Option-cases, is_some, value_or, or_else, length,
  length-append, drop, length-drop, keep, any, all, find, length-keep-le, includes, index_of, All,
  Eqb, eqb, eqb_iff, eqb_refl, Eqb_of_code, nat_eqb, string_eqb, Outcome, ok, thrown,
}
use Prim.Native.String.{◌++◌ as append}
use shipyard_cp.JsMap.{JsMap, get, set, delete, size, values, keep_values}
use shipyard_cp.Concurrency.{
  ConcurrencyManager, LockRecord, ConflictCounts, ResourceLockType, task, repo_branch, environment,
  publish_target,
}

pub record AcquireLockParams : Type 0 where
  pub resource_key : String
  pub resource_type : ResourceLockType
  pub job_id : String
  pub task_id : String
  pub duration_seconds : Option ℕ

pub data AcquireLockResult : Type 0 where
  acquired : LockRecord → AcquireLockResult
  conflict : (conflict_with : String) (conflict_expires_at : ℕ) → AcquireLockResult

abbrev pub lock_expired : ℕ → LockRecord → Bool
lock_expired now l = leb l.expires_at now

abbrev pub live_locks : ConcurrencyManager → ℕ → JsMap LockRecord
live_locks m now = keep_values (λ l. not (lock_expired now l)) m.resource_locks

unfoldable pub cleanup_expired_locks : ConcurrencyManager → (now : ℕ) → ConcurrencyManager × ℕ
cleanup_expired_locks m now = (
  record m { resource_locks = live_locks m now },
  length (keep (lock_expired now) (values m.resource_locks)),
)

-- this.lockConflictCounts[resource_type]++
abbrev count_conflict : ResourceLockType → ConflictCounts → ConflictCounts
count_conflict task c = record c { task_count = c.task_count + 1 }
count_conflict repo_branch c = record c { repo_branch_count = c.repo_branch_count + 1 }
count_conflict environment c = record c { environment_count = c.environment_count + 1 }
count_conflict publish_target c = record c { publish_target_count = c.publish_target_count + 1 }

abbrev pub new_lock : ConcurrencyManager → AcquireLockParams → String → ℕ → LockRecord
new_lock m p lock_id now = record {
  lock_id = lock_id;
  resource_key = p.resource_key;
  resource_type = p.resource_type;
  owner_job_id = p.job_id;
  owner_task_id = p.task_id;
  acquired_at = now;
  expires_at =
      now + value_or (or_else p.duration_seconds m.default_lock_duration_seconds) 300 * 1000;
}

-- acquireLock, once the expired locks are gone.
unfoldable pub take_lock :
    ConcurrencyManager
    → AcquireLockParams
    → String
    → (now : ℕ) → ConcurrencyManager × AcquireLockResult
take_lock m p lock_id now = elim (get m.resource_locks p.resource_key) [
  | some l ↦ (
    record m { lock_conflict_counts = count_conflict p.resource_type m.lock_conflict_counts },
    conflict l.owner_job_id l.expires_at,
  )
  | none ↦ (
    record m { resource_locks = set m.resource_locks p.resource_key (new_lock m p lock_id now) },
    acquired (new_lock m p lock_id now),
  )
]

unfoldable pub acquire_lock :
    ConcurrencyManager
    → AcquireLockParams
    → String
    → (cleaned now : ℕ) → ConcurrencyManager × AcquireLockResult
unfolding take_lock cleanup_expired_locks
acquire_lock m p lock_id cleaned now = take_lock (cleanup_expired_locks m cleaned).0 p lock_id now

-- Only the owner can release a lock.
unfoldable pub release_lock :
    ConcurrencyManager → (resource_key job_id : String) → ConcurrencyManager × Bool
release_lock m resource_key job_id = elim (get m.resource_locks resource_key) [
  | none ↦ (m, false)
  | some l ↦
      if str_eq l.owner_job_id job_id
      then (record m { resource_locks = delete m.resource_locks resource_key }, true)
      else (m, false)
]

unfoldable pub release_locks_for_job : ConcurrencyManager → String → ConcurrencyManager × ℕ
release_locks_for_job m job_id = (
  record m {
    resource_locks = keep_values (λ l. not (str_eq l.owner_job_id job_id)) m.resource_locks;
  },
  length (keep (λ l. str_eq l.owner_job_id job_id) (values m.resource_locks)),
)

unfoldable pub get_lock :
    ConcurrencyManager → String → (now : ℕ) → ConcurrencyManager × Option LockRecord
unfolding cleanup_expired_locks
get_lock m resource_key now =
    let c = (cleanup_expired_locks m now).0 in (c, get c.resource_locks resource_key)

unfoldable pub is_locked : ConcurrencyManager → String → (now : ℕ) → ConcurrencyManager × Bool
unfolding cleanup_expired_locks
is_locked m resource_key now =
    let c = (cleanup_expired_locks m now).0 in (c, is_some (get c.resource_locks resource_key))

unfoldable pub build_task_lock_key : String → String
build_task_lock_key task_id = append "task:" task_id

unfoldable pub build_repo_branch_lock_key : (repo_ref branch : String) → String
build_repo_branch_lock_key repo_ref branch =
    append "repo_branch:" (append repo_ref (append ":" branch))

unfoldable pub build_environment_lock_key : String → String
build_environment_lock_key environment_name = append "environment:" environment_name

unfoldable pub build_publish_target_lock_key : (provider target_id : String) → String
build_publish_target_lock_key provider target_id =
    append "publish_target:" (append provider (append ":" target_id))

abbrev task_params : String → String → Option ℕ → AcquireLockParams
task_params task_id job_id duration_seconds = record {
  resource_key = build_task_lock_key task_id;
  resource_type = task;
  job_id = job_id;
  task_id = task_id;
  duration_seconds = duration_seconds;
}

unfoldable pub acquire_task_lock :
    ConcurrencyManager
    → (task_id job_id : String) → Option ℕ
    → String
    → (cleaned now : ℕ) → ConcurrencyManager × AcquireLockResult
acquire_task_lock m task_id job_id duration_seconds lock_id cleaned now =
    acquire_lock m (task_params task_id job_id duration_seconds) lock_id cleaned now

unfoldable pub release_task_lock :
    ConcurrencyManager → (task_id job_id : String) → ConcurrencyManager × Bool
release_task_lock m task_id job_id = release_lock m (build_task_lock_key task_id) job_id

unfoldable pub is_task_locked : ConcurrencyManager → String → (now : ℕ) → ConcurrencyManager × Bool
is_task_locked m task_id now = is_locked m (build_task_lock_key task_id) now

pub record LockMetrics : Type 0 where
  pub resource_lock_conflict_total : ConflictCounts
  pub state_update_conflict_total : ℕ
  pub active_locks_count : ℕ

unfoldable pub get_lock_metrics : ConcurrencyManager → (now : ℕ) → ConcurrencyManager × LockMetrics
unfolding cleanup_expired_locks
get_lock_metrics m now =
    let c = (cleanup_expired_locks m now).0 in
    (
      c,
      record {
        resource_lock_conflict_total = c.lock_conflict_counts;
        state_update_conflict_total = c.state_update_conflict_count;
        active_locks_count = size c.resource_locks;
      },
    )

unfoldable pub get_active_locks :
    ConcurrencyManager → (now : ℕ) → ConcurrencyManager × List LockRecord
unfolding cleanup_expired_locks
get_active_locks m now = let c = (cleanup_expired_locks m now).0 in (c, values c.resource_locks)

unfoldable pub get_locks_by_task :
    ConcurrencyManager → String → (now : ℕ) → ConcurrencyManager × List LockRecord
unfolding cleanup_expired_locks
get_locks_by_task m task_id now =
    let c = (cleanup_expired_locks m now).0 in
    (c, keep (λ l. str_eq l.owner_task_id task_id) (values c.resource_locks))
