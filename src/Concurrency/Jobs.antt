-- ===== src/Concurrency/Jobs.antt =====
-- concurrency-manager.ts: the active jobs, globally and of each worker.
pub mod Limits
use shipyard_cp.Base.{
  ℕ, zero, suc, ◌+◌, ◌-◌, ◌*◌, ◌/◌, ◌%◌, ◌^◌, ◌≤◌, ◌<◌, min, max, ◌≡◌, refl, sym, ap, ◌∙◌, ◌≢◌, ◌↔◌,
  ◌⊎◌, inl, inr, Bool, true, false, not, ◌&&◌, ◌||◌, Option, none, some, List, [], ◌∷◌, ◌++◌, map,
  String, str_eq, eq_iff, eq_refl, arith, ltb, leb, ◌==◌, ==_iff, if◌then◌else◌, ltb→lt, lt→ltb,
  leb→le, le→leb, tests, Bool-cases, Option-cases, is_some, value_or, or_else, length,
  length-append, drop, length-drop, keep, any, all, find, length-keep-le, includes, index_of, All,
  Eqb, eqb, eqb_iff, eqb_refl, Eqb_of_code, nat_eqb, string_eqb, Outcome, ok, thrown,
}
use shipyard_cp.JsMap.{JsMap, JsSet, get, set, delete, size, add, remove}
use shipyard_cp.Concurrency.{ConcurrencyManager, JobRecord, EnqueueParams}

pub data RejectReason : Type 0 where
  worker_capacity_exceeded global_capacity_exceeded : RejectReason

-- CanAcceptResult: accepted, or refused for a reason.
pub data CanAcceptResult : Type 0 where
  accepted : CanAcceptResult
  refused : RejectReason → CanAcceptResult

-- this.workerJobs.get(worker_id), a missing set read as the empty one
abbrev pub jobs_of : ConcurrencyManager → String → JsSet
jobs_of m worker_id = value_or (get m.worker_jobs worker_id) []

unfoldable pub can_accept : ConcurrencyManager → String → CanAcceptResult
can_accept m worker_id =
    if leb m.max_concurrent_global (size m.active_jobs)
    then refused global_capacity_exceeded
    else if leb m.max_concurrent_per_worker (length (jobs_of m worker_id))
    then refused worker_capacity_exceeded
    else accepted

abbrev pub job_record : EnqueueParams → ℕ → JobRecord
job_record p now = record {
  job_id = p.job_id;
  worker_id = p.worker_id;
  stage = p.stage;
  started_at = now;
}

unfoldable pub record_start : ConcurrencyManager → EnqueueParams → (now : ℕ) → ConcurrencyManager
record_start m p now = record m {
  active_jobs = set m.active_jobs p.job_id (job_record p now);
  worker_jobs = set m.worker_jobs p.worker_id (add (jobs_of m p.worker_id) p.job_id);
}

-- The set of a worker that has none stays missing.
abbrev drop_job : ConcurrencyManager → String → String → JsMap JsSet
drop_job m job_id worker_id = elim (get m.worker_jobs worker_id) [
  | none ↦ m.worker_jobs
  | some s ↦ set m.worker_jobs worker_id (remove s job_id)
]

unfoldable pub record_complete :
    ConcurrencyManager → (job_id worker_id : String) → ConcurrencyManager
record_complete m job_id worker_id = record m {
  active_jobs = delete m.active_jobs job_id;
  worker_jobs = drop_job m job_id worker_id;
}

-- A quotient of two counts, which the source computes as a float.
pub record Ratio : Type 0 where
  pub numerator : ℕ
  pub denominator : ℕ

pub record WorkerStats : Type 0 where
  pub worker_id : String
  pub active_jobs : ℕ
  pub max_concurrent : ℕ
  pub utilization : Ratio
  pub queued_jobs : ℕ

unfoldable pub get_stats : ConcurrencyManager → String → WorkerStats
get_stats m worker_id = record {
  worker_id = worker_id;
  active_jobs = length (jobs_of m worker_id);
  max_concurrent = m.max_concurrent_per_worker;
  utilization = record {
    numerator = length (jobs_of m worker_id);
    denominator = m.max_concurrent_per_worker;
  };
  queued_jobs = length (value_or (get m.job_queue worker_id) []);
}

pub record GlobalStats : Type 0 where
  pub total_active_jobs : ℕ
  pub total_capacity : ℕ
  pub active_workers : ℕ
  pub global_utilization : Ratio

unfoldable pub get_global_stats : ConcurrencyManager → GlobalStats
get_global_stats m = record {
  total_active_jobs = size m.active_jobs;
  total_capacity = m.max_concurrent_global;
  active_workers = size m.worker_jobs;
  global_utilization = record {
    numerator = size m.active_jobs;
    denominator = m.max_concurrent_global;
  };
}
