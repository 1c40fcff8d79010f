-- ===== src/Concurrency/Locks/Accounts.antt =====
-- Attempts and conflict counters (concurrency-manager.ts).
use shipyard_cp.Base.{
  ℕ, suc, ◌+◌, ◌≡◌, refl, List, [], ◌∷◌, String, arith, length, nat_eqb, string_eqb,
}
use shipyard_cp.Concurrency.{ConcurrencyManager}
use shipyard_cp.Concurrency.Locks.{
  AcquireLockParams, AcquireLockResult, acquired, conflict, cleanup_expired_locks, take_lock,
  acquire_lock,
}

-- All conflicts that have been counted.
abbrev pub conflicts : ConcurrencyManager → ℕ
conflicts m = c.task_count + c.repo_branch_count + c.environment_count + c.publish_target_count
  where
    open m use {lock_conflict_counts as c}

-- An attempt to acquire a lock, with the two readings of the clock.
pub record Attempt : Type 0 where
  pub params : AcquireLockParams
  pub lock_id : String
  pub cleaned : ℕ
  pub now : ℕ

abbrev granted : AcquireLockResult → ℕ
granted (acquired l) = 1
granted (conflict who when) = 0

-- The manager after the attempts, and how many were granted.
pub attempt_all : ConcurrencyManager → List Attempt → ConcurrencyManager × ℕ
attempt_all m [] = (m, 0)
attempt_all m (a ∷ as') =
    let (m', result) = acquire_lock m a.params a.lock_id a.cleaned a.now in
    let (m'', n) = attempt_all m' as' in (m'', granted result + n)

attempt_counts :
    (m : ConcurrencyManager) (p : AcquireLockParams) (lock_id : String) (cleaned now : ℕ)
    → let r = acquire_lock m p lock_id cleaned now in
      granted r.1 + conflicts r.0 ≡ suc (conflicts m)
unfolding acquire_lock take_lock cleanup_expired_locks
attempt_counts m p lock_id cleaned now = ground arith

-- Over every sequence of attempts, those granted and those counted as conflicts are all of them.
pub attempts_accounted :
    (m : ConcurrencyManager) (as' : List Attempt)
    → let r = attempt_all m as' in r.1 + conflicts r.0 ≡ length as' + conflicts m
unfolding attempt_all
attempts_accounted m [] = refl
attempts_accounted m (a ∷ as') = omega (
  arith,
  attempt_counts m a.params a.lock_id a.cleaned a.now,
  attempts_accounted (acquire_lock m a.params a.lock_id a.cleaned a.now).0 as',
)
