-- ===== src/Concurrency/Locks/Exclusion.antt =====
-- Who holds a resource, over sequences of calls (concurrency-manager.ts).
use shipyard_cp.Base.{
  ℕ, ◌<◌, ◌≡◌, ◌≢◌, inl, inr, not, some, List, [], ◌∷◌, String, str_eq, eq_iff, arith, Option-cases,
  All, nat_eqb, string_eqb,
}
use shipyard_cp.JsMap.{get, get-set, get-set_self, get-delete, get-keep_values-some}
use shipyard_cp.Concurrency.{ConcurrencyManager, LockRecord}
use shipyard_cp.Concurrency.Locks.{
  AcquireLockParams, acquired, conflict, lock_expired, live_locks, cleanup_expired_locks, new_lock,
  take_lock, acquire_lock, release_lock, release_locks_for_job, get_lock,
}

-- The calls on locks, with the times at which they read the clock.
pub data LockCall : Type 0 where
  acquires : (p : AcquireLockParams) (lock_id : String) (cleaned now : ℕ) → LockCall
  releases : (resource_key job_id : String) → LockCall
  releases_all : (job_id : String) → LockCall
  looks_up : (resource_key : String) (now : ℕ) → LockCall

pub step : ConcurrencyManager → LockCall → ConcurrencyManager
step m (acquires p lock_id cleaned now) = (acquire_lock m p lock_id cleaned now).0
step m (releases key job) = (release_lock m key job).0
step m (releases_all job) = (release_locks_for_job m job).0
step m (looks_up key now) = (get_lock m key now).0

pub run : ConcurrencyManager → List LockCall → ConcurrencyManager
run m [] = m
run m (c ∷ cs) = run (step m c) cs

-- Before the lock runs out, a call that is no release by its owner.
abbrev pub Foreign : LockRecord → LockCall → Type 0
Foreign l (acquires p lock_id cleaned now) = cleaned < l.expires_at
Foreign l (releases key job) = job ≢ l.owner_job_id
Foreign l (releases_all job) = job ≢ l.owner_job_id
Foreign l (looks_up key now) = now < l.expires_at

live :
    (m : ConcurrencyManager) (key : String) (now : ℕ) (l : LockRecord)
    → get m.resource_locks key ≡ some l
    → now < l.expires_at
    → get (live_locks m now) key ≡ some l
live m key now l h t =
    get-keep_values-some (λ k. not (lock_expired now k)) m.resource_locks key l h (ground arith)

take_keeps :
    (m : ConcurrencyManager) (p : AcquireLockParams) (lock_id key : String) (now : ℕ)
    (l : LockRecord)
    → get m.resource_locks key ≡ some l
    → get (take_lock m p lock_id now).0.resource_locks key ≡ some l
unfolding take_lock
take_keeps m p lock_id key now l h = elim (Option-cases (get m.resource_locks p.resource_key)) [
  | inl e ↦ ground (
    arith,
    get-set m.resource_locks p.resource_key key (new_lock m p lock_id now),
    eq_iff p.resource_key key,
  )
  | inr (k, e) ↦ ground arith
]

step_keeps :
    (m : ConcurrencyManager) (key : String) (l : LockRecord) (c : LockCall)
    → get m.resource_locks key ≡ some l
    → Foreign l c
    → get (step m c).resource_locks key ≡ some l
unfolding step acquire_lock release_lock release_locks_for_job get_lock cleanup_expired_locks
step_keeps m key l (acquires p lock_id cleaned now) h f =
    take_keeps (cleanup_expired_locks m cleaned).0 p lock_id key now l (live m key cleaned l h f)
step_keeps m key l (releases k job) h f = elim (Option-cases (get m.resource_locks k)) [
  | inl e ↦ ground arith
  | inr (l', e) ↦
      ground (arith, get-delete m.resource_locks k key, eq_iff k key, eq_iff l'.owner_job_id job)
]
step_keeps m key l (releases_all job) h f =
    get-keep_values-some (λ k. not (str_eq k.owner_job_id job)) m.resource_locks key l h
      (ground (arith, eq_iff l.owner_job_id job))
step_keeps m key l (looks_up k now) h f = live m key now l h f

-- A lock stands until it runs out or its owner releases it, in every sequence of calls.
lock_stands :
    (m : ConcurrencyManager) (key : String) (l : LockRecord) (cs : List LockCall)
    → get m.resource_locks key ≡ some l
    → All (Foreign l) cs
    → get (run m cs).resource_locks key ≡ some l
unfolding run
lock_stands m key l [] h f = h
lock_stands m key l (c ∷ cs) h f = lock_stands (step m c) key l cs (step_keeps m key l c h f.0) f.1

taken :
    (m : ConcurrencyManager) (p : AcquireLockParams) (lock_id : String) (now : ℕ) (l : LockRecord)
    → (take_lock m p lock_id now).1 ≡ acquired l
    → get (take_lock m p lock_id now).0.resource_locks p.resource_key ≡ some l
unfolding take_lock
taken m p lock_id now l h = elim (Option-cases (get m.resource_locks p.resource_key)) [
  | inl e ↦ ground (arith, get-set_self m.resource_locks p.resource_key (new_lock m p lock_id now))
  | inr (k, e) ↦ ground arith
]

acquired_held :
    (m : ConcurrencyManager) (p : AcquireLockParams) (lock_id : String) (cleaned now : ℕ)
    (l : LockRecord)
    → (acquire_lock m p lock_id cleaned now).1 ≡ acquired l
    → get (acquire_lock m p lock_id cleaned now).0.resource_locks p.resource_key ≡ some l
unfolding acquire_lock
acquired_held m p lock_id cleaned now l h =
    taken (cleanup_expired_locks m cleaned).0 p lock_id now l h

refused :
    (m : ConcurrencyManager) (p : AcquireLockParams) (lock_id : String) (cleaned now : ℕ)
    (l : LockRecord)
    → get m.resource_locks p.resource_key ≡ some l
    → cleaned < l.expires_at
    → (acquire_lock m p lock_id cleaned now).1 ≡ conflict l.owner_job_id l.expires_at
unfolding acquire_lock take_lock cleanup_expired_locks
refused m p lock_id cleaned now l h t = ground (arith, live m p.resource_key cleaned l h t)

-- After a lock is acquired, and whatever others then call, every attempt on the same resource
-- before the lock runs out, by the owner or by another job, is refused and names the owner.
pub lock_excludes :
    (m : ConcurrencyManager) (p q : AcquireLockParams) (id id' : String)
    (cleaned now cleaned' now' : ℕ) (l : LockRecord) (cs : List LockCall)
    → (acquire_lock m p id cleaned now).1 ≡ acquired l
    → All (Foreign l) cs
    → q.resource_key ≡ p.resource_key
    → cleaned' < l.expires_at
    → (acquire_lock (run (acquire_lock m p id cleaned now).0 cs) q id' cleaned' now').1
      ≡ conflict l.owner_job_id l.expires_at
lock_excludes m p q id id' cleaned now cleaned' now' l cs h f same t =
    refused (run (acquire_lock m p id cleaned now).0 cs) q id' cleaned' now' l
      (rw same (
        lock_stands (acquire_lock m p id cleaned now).0 p.resource_key l cs
          (acquired_held m p id cleaned now l h) f))
      t
