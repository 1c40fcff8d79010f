-- ===== src/Concurrency/Tests.antt =====
-- The concurrency manager at concrete calls (concurrency-manager.ts).
use shipyard_cp.Base.{
  ℕ, ◌≡◌, refl, ◌≢◌, ◌⊎◌, true, false, none, some, List, [], ◌∷◌, ◌++◌, String, arith, nat_eqb,
  string_eqb, str_ne,
}
use shipyard_cp.JsMap.{get, set, keep_values}
use shipyard_cp.Concurrency.{
  ConcurrencyManager, ConcurrencyConfig, EnqueueParams, LockRecord, environment, new_manager,
}
use shipyard_cp.Concurrency.Jobs.{refused, global_capacity_exceeded, can_accept, record_start}
use shipyard_cp.Concurrency.Jobs.Limits.{IsSound, starts, completes, serve_all, limits_hold}
use shipyard_cp.Concurrency.Queues.Fifo.{waiting, QueueCall, puts, takes, put_for, queue_fifo}
use shipyard_cp.Concurrency.Queues.Fifo
use shipyard_cp.Concurrency.Locks.{AcquireLockParams, conflict, acquire_lock, new_lock}
use shipyard_cp.Concurrency.Locks.Exclusion.{
  LockCall, acquires, releases, releases_all, looks_up, run, lock_excludes,
}
use shipyard_cp.Concurrency.Versions.{get_task_version, check_and_update_version}
use shipyard_cp.Concurrency.Versions.Race.{update_cases}

abbrev job : String → EnqueueParams
job id = record { job_id = id; worker_id = "w"; stage = "dev" }

abbrev one_job : ConcurrencyConfig
one_job = record {
  max_concurrent_per_worker = 1;
  max_concurrent_global = 1;
  default_lock_duration_seconds = none;
}

full :
    can_accept (record_start (new_manager one_job) (job "a") 0) "w"
    ≡ refused global_capacity_exceeded
unfolding can_accept record_start get set
full = refl

limits_hold_example : IsSound (
    serve_all
      (new_manager one_job)
      (starts (job "a") 0 ∷ starts (job "b") 1 ∷ completes "a" "w" ∷ []))
limits_hold_example =
    limits_hold one_job (starts (job "a") 0 ∷ starts (job "b") 1 ∷ completes "a" "w" ∷ [])

abbrev calls : List QueueCall
calls = puts (job "a") 0 ∷ puts (job "b") 1 ∷ takes "w" ∷ []

queue_fifo_example :
    (Fifo.serve (new_manager one_job) "w" calls).1
      ++ waiting (Fifo.serve (new_manager one_job) "w" calls).0 "w"
    ≡ job "a" ∷ job "b" ∷ []
unfolding put_for get
queue_fifo_example = queue_fifo (new_manager one_job) "w" calls

abbrev lock_params : String → AcquireLockParams
lock_params job_id = record {
  resource_key = "env:prod";
  resource_type = environment;
  job_id = job_id;
  task_id = "t";
  duration_seconds = some 60;
}

abbrev lock : LockRecord
lock = new_lock (new_manager one_job) (lock_params "a") "l1" 5

abbrev locked : ConcurrencyManager
locked = record (new_manager one_job) { resource_locks = ("env:prod", lock) ∷ [] }

abbrev others : List LockCall
others =
    acquires (lock_params "b") "l2" 9 10
    ∷ releases "env:prod" "b"
    ∷ releases_all "c"
    ∷ looks_up "env:prod" 60004
    ∷ []

lock_excludes_example :
    (acquire_lock
      (run (acquire_lock (new_manager one_job) (lock_params "a") "l1" 4 5).0 others)
      (lock_params "b")
      "l3"
      60004
      60004).1
    ≡ conflict "a" 60005
unfolding acquire_lock get keep_values
lock_excludes_example =
    lock_excludes (new_manager one_job) (lock_params "a") (lock_params "b") "l1" "l3" 4 5 60004
      60004 lock others refl (omega arith, (str_ne refl, (str_ne refl, (omega arith, tt)))) refl
      (omega arith)

abbrev versioned : ConcurrencyManager
versioned = record (new_manager one_job) { task_versions = ("t", 3) ∷ [] }

update_cases_example :
    let r = check_and_update_version versioned "t" 2 4 in
    ((r.1 ≡ true)
      × ((get_task_version versioned "t" ≡ none) ⊎ (get_task_version versioned "t" ≡ some 2))
      × (get_task_version r.0 "t" ≡ some 4)
      × (r.0.state_update_conflict_count ≡ 0))
    ⊎ ((current : ℕ) × (r.1 ≡ false)
        × (get_task_version versioned "t" ≡ some current)
        × (current ≢ 2)
        × (r.0.task_versions ≡ versioned.task_versions)
        × (r.0.state_update_conflict_count ≡ 1))
update_cases_example = update_cases versioned "t" 2 4
