-- ===== src/Concurrency/Jobs/Limits.antt =====
-- The limits, over sequences of starts and completions (concurrency-manager.ts).
use shipyard_cp.Base.{
  ℕ, ◌≤◌, ◌<◌, ◌≡◌, refl, inl, inr, true, not, some, List, [], ◌∷◌, String, str_eq, eq_iff, eq_refl,
  arith, if◌then◌else◌, Bool-cases, Option-cases, length, length-keep-le, includes, nat_eqb,
  string_eqb,
}
use shipyard_cp.JsMap.{
  JsSet, get, size, add, remove, get-set, get-delete, size-set, size-delete-le, includes-add,
  includes-remove, length-add-le,
}
use shipyard_cp.Concurrency.{
  ConcurrencyManager, ConcurrencyConfig, JobRecord, EnqueueParams, new_manager,
}
use shipyard_cp.Concurrency.Jobs.{
  CanAcceptResult, accepted, refused, jobs_of, can_accept, record_start, job_record,
  record_complete,
}

-- Neither limit is passed, and an active job stands in the set of its worker.
pub record IsSound (m : ConcurrencyManager) : Type 0 where
  pub global : size m.active_jobs ≤ m.max_concurrent_global
  pub local : (w : String) → length (jobs_of m w) ≤ m.max_concurrent_per_worker
  pub registered :
      (j : String) (r : JobRecord)
      → get m.active_jobs j ≡ some r
      → includes (jobs_of m r.worker_id) j ≡ true

pub jobs_of-record_start :
    (m : ConcurrencyManager) (p : EnqueueParams) (now : ℕ) (w : String)
    → jobs_of (record_start m p now) w
      ≡ (if str_eq p.worker_id w then add (jobs_of m p.worker_id) p.job_id else jobs_of m w)
unfolding record_start
jobs_of-record_start m p now w =
    ground (arith, get-set m.worker_jobs p.worker_id w (add (jobs_of m p.worker_id) p.job_id))

jobs_of-record_complete :
    (m : ConcurrencyManager) (j v w : String)
    → jobs_of (record_complete m j v) w
      ≡ (if str_eq v w then remove (jobs_of m v) j else jobs_of m w)
unfolding record_complete
jobs_of-record_complete m j v w = elim (Option-cases (get m.worker_jobs v)) [
  | inl e ↦ ground (arith, eq_iff v w)
  | inr (s, e) ↦ ground (arith, get-set m.worker_jobs v w (remove s j))
]

accepted_below :
    (m : ConcurrencyManager) (w : String)
    → can_accept m w ≡ accepted
    → (size m.active_jobs < m.max_concurrent_global)
      × (length (jobs_of m w) < m.max_concurrent_per_worker)
unfolding can_accept
accepted_below m w h = ground arith

start_global :
    (m : ConcurrencyManager) (p : EnqueueParams) (now : ℕ)
    → can_accept m p.worker_id ≡ accepted
    → size (record_start m p now).active_jobs ≤ m.max_concurrent_global
unfolding record_start
start_global m p now h =
    ground
      (arith, accepted_below m p.worker_id h, size-set m.active_jobs p.job_id (job_record p now))

start_local :
    (m : ConcurrencyManager) (p : EnqueueParams) (now : ℕ) (w : String)
    → can_accept m p.worker_id ≡ accepted
    → length (jobs_of m w) ≤ m.max_concurrent_per_worker
    → length (jobs_of (record_start m p now) w) ≤ m.max_concurrent_per_worker
start_local m p now w h b =
    rw (jobs_of-record_start m p now w) (elim (Bool-cases (str_eq p.worker_id w)) [
      | inl e ↦ rw e (
          omega
            (arith, accepted_below m p.worker_id h, length-add-le (jobs_of m p.worker_id) p.job_id))
      | inr e ↦ rw e b
    ])

start_registered :
    (m : ConcurrencyManager) (p : EnqueueParams) (now : ℕ) (j : String) (r : JobRecord)
    → (get m.active_jobs j ≡ some r → includes (jobs_of m r.worker_id) j ≡ true)
    → get (record_start m p now).active_jobs j ≡ some r
    → includes (jobs_of (record_start m p now) r.worker_id) j ≡ true
unfolding record_start
start_registered m p now j r old h = ground (
  arith,
  get-set m.active_jobs p.job_id j (job_record p now),
  jobs_of-record_start m p now r.worker_id,
  includes-add (jobs_of m p.worker_id) p.job_id j,
  eq_iff p.job_id j,
  eq_iff p.worker_id r.worker_id,
  eq_refl p.worker_id,
)

-- A start that was accepted keeps the manager sound.
pub start-IsSound :
    (m : ConcurrencyManager) (p : EnqueueParams) (now : ℕ)
    → can_accept m p.worker_id ≡ accepted
    → IsSound m
    → IsSound (record_start m p now)
unfolding record_start
start-IsSound m p now h v = record {
  global = start_global m p now h;
  local = λ w. start_local m p now w h (v.local w);
  registered = λ j r. start_registered m p now j r (v.registered j r);
}

length-remove-le : (s : JsSet) (j : String) → length (remove s j) ≤ length s
length-remove-le s j = length-keep-le (λ i. not (str_eq i j)) s

complete_registered :
    (m : ConcurrencyManager) (k v j : String) (r : JobRecord)
    → (get m.active_jobs j ≡ some r → includes (jobs_of m r.worker_id) j ≡ true)
    → get (record_complete m k v).active_jobs j ≡ some r
    → includes (jobs_of (record_complete m k v) r.worker_id) j ≡ true
unfolding record_complete
complete_registered m k v j r old h = ground (
  arith,
  get-delete m.active_jobs k j,
  jobs_of-record_complete m k v r.worker_id,
  includes-remove (jobs_of m v) k j,
  eq_iff k j,
  eq_iff v r.worker_id,
)

-- A completion, of any job under any worker, keeps the manager sound.
complete-IsSound :
    (m : ConcurrencyManager) (j v : String) → IsSound m → IsSound (record_complete m j v)
unfolding record_complete
complete-IsSound m j v s = record {
  global = omega (arith, s.global, size-delete-le m.active_jobs j);
  local = λ w.
      rw (jobs_of-record_complete m j v w)
        (ground (arith, s.local w, s.local v, length-remove-le (jobs_of m v) j));
  registered = λ i r. complete_registered m j v i r (s.registered i r);
}

-- What the callers of the manager do: start a job if it is accepted, and complete one.
pub data Event : Type 0 where
  starts : EnqueueParams → (now : ℕ) → Event
  completes : (job_id worker_id : String) → Event

pub serve : ConcurrencyManager → Event → ConcurrencyManager
serve m (starts p now) = elim (can_accept m p.worker_id) [
  | accepted ↦ record_start m p now
  | refused why ↦ m
]
serve m (completes j v) = record_complete m j v

unfoldable pub serve_all : ConcurrencyManager → List Event → ConcurrencyManager
serve_all m [] = m
serve_all m (e ∷ es) = serve_all (serve m e) es

serve-IsSound : (m : ConcurrencyManager) (e : Event) → IsSound m → IsSound (serve m e)
unfolding serve
serve-IsSound m (starts p now) s = by_answer (can_accept m p.worker_id) refl
  where
    by_answer :
        (a : CanAcceptResult)
        → can_accept m p.worker_id ≡ a
        → IsSound (elim a [ accepted ↦ record_start m p now | refused why ↦ m ])
    by_answer accepted h = start-IsSound m p now h s
    by_answer (refused why) h = s
serve-IsSound m (completes j v) s = complete-IsSound m j v s

serve_all-IsSound :
    (m : ConcurrencyManager) (es : List Event) → IsSound m → IsSound (serve_all m es)
unfolding serve_all
serve_all-IsSound m [] s = s
serve_all-IsSound m (e ∷ es) s = serve_all-IsSound (serve m e) es (serve-IsSound m e s)

-- After any sequence of starts and completions from a new manager, neither limit is passed and
-- each active job stands in the set of its worker.
pub limits_hold :
    (config : ConcurrencyConfig) (es : List Event) → IsSound (serve_all (new_manager config) es)
unfolding get
limits_hold config es =
    serve_all-IsSound (new_manager config) es
      (record { global = omega arith; local = λ w. omega arith; registered = λ j r h. cc })
