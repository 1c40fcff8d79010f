-- ===== src/Concurrency/Versions/Race.antt =====
-- Updates by version (concurrency-manager.ts).
use shipyard_cp.Base.{
  ℕ, suc, ◌≡◌, ◌≢◌, ◌⊎◌, inl, inr, true, false, none, some, String, arith, ◌==◌, Bool-cases,
  Option-cases, nat_eqb, string_eqb,
}
use shipyard_cp.JsMap.{get, get-set_self}
use shipyard_cp.Concurrency.{ConcurrencyManager}
use shipyard_cp.Concurrency.Versions.{get_task_version, check_and_update_version}

-- An update succeeds exactly when the task has no version yet or has the expected one. It then
-- has the new version; a refused update changes no version and counts one conflict.
pub update_cases :
    (m : ConcurrencyManager) (id : String) (expected new : ℕ)
    → let r = check_and_update_version m id expected new in
      ((r.1 ≡ true)
        × ((get_task_version m id ≡ none) ⊎ (get_task_version m id ≡ some expected))
        × (get_task_version r.0 id ≡ some new)
        × (r.0.state_update_conflict_count ≡ m.state_update_conflict_count))
      ⊎ ((current : ℕ) × (r.1 ≡ false)
          × (get_task_version m id ≡ some current)
          × (current ≢ expected)
          × (r.0.task_versions ≡ m.task_versions)
          × (r.0.state_update_conflict_count ≡ suc m.state_update_conflict_count))
unfolding check_and_update_version get_task_version
update_cases m id expected new = elim (Option-cases (get m.task_versions id)) [
  | inl e ↦
      inl (ground arith, inl e, ground (arith, get-set_self m.task_versions id new), ground arith)
  | inr (current, e) ↦ elim (Bool-cases (current == expected)) [
    | inl same ↦ inl (
      ground arith,
      inr (ground arith),
      ground (arith, get-set_self m.task_versions id new),
      ground arith,
    )
    | inr other ↦ inr (current, ground arith, e, ground arith, ground arith, ground arith)
  ]
]

-- Of two updates that expect the same version, at most one succeeds, once the task has a version
-- and the first writes another one.
pub one_winner :
    (m : ConcurrencyManager) (id : String) (v expected new new' : ℕ)
    → get_task_version m id ≡ some v
    → new ≢ expected
    → (check_and_update_version m id expected new).1 ≡ true
    → (check_and_update_version (check_and_update_version m id expected new).0 id expected new').1
      ≡ false
unfolding check_and_update_version get_task_version
one_winner m id v expected new new' h ne w = ground (arith, get-set_self m.task_versions id new)
