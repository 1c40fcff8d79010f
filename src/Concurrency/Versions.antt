-- ===== src/Concurrency/Versions.antt =====
-- concurrency-manager.ts: optimistic locks on the versions of tasks.
pub mod Race
use shipyard_cp.Base.{
  ℕ, zero, suc, ◌+◌, ◌-◌, ◌*◌, ◌/◌, ◌%◌, ◌^◌, ◌≤◌, ◌<◌, min, max, ◌≡◌, refl, sym, ap, ◌∙◌, ◌≢◌, ◌↔◌,
  ◌⊎◌, inl, inr, Bool, true, false, not, ◌&&◌, ◌||◌, Option, none, some, List, [], ◌∷◌, ◌++◌, map,
  String, str_eq, eq_iff, eq_refl, arith, ltb, leb, ◌==◌, ==_iff, if◌then◌else◌, ltb→lt, lt→ltb,
  leb→le, le→leb, tests, Bool-cases, Option-cases, is_some, value_or, or_else, length,
  length-append, List-cases, drop, length-drop, keep, any, all, find, length-keep-le, includes,
  index_of, All, Eqb, eqb, eqb_iff, eqb_refl, Eqb_of_code, nat_eqb, string_eqb, Outcome, ok, thrown,
}
use shipyard_cp.JsMap.{get, set}
use shipyard_cp.Concurrency.{ConcurrencyManager}

-- OptimisticLockResult: valid, or not with the current version.
pub data OptimisticLockResult : Type 0 where
  valid : OptimisticLockResult
  stale : (current_version : ℕ) → OptimisticLockResult

unfoldable pub get_task_version : ConcurrencyManager → String → Option ℕ
get_task_version m task_id = get m.task_versions task_id

unfoldable pub set_task_version : ConcurrencyManager → String → ℕ → ConcurrencyManager
set_task_version m task_id version = record m {
  task_versions = set m.task_versions task_id version;
}

unfoldable pub update_task_version : ConcurrencyManager → String → ℕ → ConcurrencyManager
update_task_version m task_id new_version = record m {
  task_versions = set m.task_versions task_id new_version;
}

unfoldable pub validate_optimistic_lock :
    ConcurrencyManager → String → (expected_version : ℕ) → ConcurrencyManager × OptimisticLockResult
validate_optimistic_lock m task_id expected_version = elim (get m.task_versions task_id) [
  | none ↦ (m, valid)
  | some current ↦ if current == expected_version then (m, valid) else (
    record m { state_update_conflict_count = m.state_update_conflict_count + 1 },
    stale current,
  )
]

-- The end of checkAndUpdateVersion, by the answer of the validation.
abbrev finish : ConcurrencyManager → OptimisticLockResult → String → ℕ → ConcurrencyManager × Bool
finish m valid task_id new_version =
    (record m { task_versions = set m.task_versions task_id new_version }, true)
finish m (stale current) task_id new_version = (m, false)

unfoldable pub check_and_update_version :
    ConcurrencyManager → String → (expected_version new_version : ℕ) → ConcurrencyManager × Bool
unfolding validate_optimistic_lock
check_and_update_version m task_id expected_version new_version =
    let (m', result) = validate_optimistic_lock m task_id expected_version in
    finish m' result task_id new_version
