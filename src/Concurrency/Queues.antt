-- ===== src/Concurrency/Queues.antt =====
-- concurrency-manager.ts: the waiting jobs of each worker.
pub mod Fifo
use shipyard_cp.Base.{
  ℕ, zero, suc, ◌+◌, ◌-◌, ◌*◌, ◌/◌, ◌%◌, ◌^◌, ◌≤◌, ◌<◌, min, max, ◌≡◌, refl, sym, ap, ◌∙◌, ◌≢◌, ◌↔◌,
  ◌⊎◌, inl, inr, Bool, true, false, not, ◌&&◌, ◌||◌, Option, none, some, List, [], ◌∷◌, ◌++◌, map,
  String, str_eq, eq_iff, eq_refl, arith, ltb, leb, ◌==◌, ==_iff, if◌then◌else◌, ltb→lt, lt→ltb,
  leb→le, le→leb, tests, Bool-cases, Option-cases, is_some, value_or, or_else, length,
  length-append, drop, length-drop, keep, any, all, find, length-keep-le, includes, index_of, All,
  Eqb, eqb, eqb_iff, eqb_refl, Eqb_of_code, nat_eqb, string_eqb, Outcome, ok, thrown,
}
use shipyard_cp.JsMap.{JsMap, get, set}
use shipyard_cp.Concurrency.{ConcurrencyManager, EnqueueParams, QueuedJob}

-- this.jobQueue.get(worker_id), a missing queue read as the empty one
abbrev pub queue_of : ConcurrencyManager → String → List QueuedJob
queue_of m worker_id = value_or (get m.job_queue worker_id) []

unfoldable pub enqueue : ConcurrencyManager → EnqueueParams → (now : ℕ) → ConcurrencyManager
enqueue m p now = record m {
  job_queue =
      set m.job_queue p.worker_id
        (queue_of m p.worker_id ++ record { params = p; enqueued_at = now } ∷ []);
}

-- queue.findIndex(job => job.job_id === job_id)
abbrev find_index : List QueuedJob → String → Option ℕ
find_index [] job_id = none
find_index (q ∷ qs) job_id =
    let rest : Option ℕ = elim (find_index qs job_id) [ none ↦ none | some i ↦ some (suc i) ] in
    if str_eq q.params.job_id job_id then some 0 else rest

abbrev position_in : JsMap (List QueuedJob) → String → ℕ
position_in [] job_id = 0
position_in ((worker_id, queue) ∷ m) job_id =
    let rest = position_in m job_id in
    elim (find_index queue job_id) [ none ↦ rest | some i ↦ i + 1 ]

unfoldable pub get_queue_position : ConcurrencyManager → String → ℕ
get_queue_position m job_id = position_in m.job_queue job_id

-- A queue that is missing and one that is empty both give null.
unfoldable pub dequeue : ConcurrencyManager → String → ConcurrencyManager × Option EnqueueParams
dequeue m worker_id = elim (queue_of m worker_id) [
  | [] ↦ (m, none)
  | q ∷ qs ↦ (record m { job_queue = set m.job_queue worker_id qs }, some q.params)
]
