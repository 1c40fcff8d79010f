-- ===== src/TaskUpdate/Refs.antt =====
-- Merging external references (task-update.ts).
use shipyard_cp.Base.{
  ℕ, ◌≡◌, refl, ap, Bool, true, ◌||◌, Option, none, some, List, [], ◌∷◌, ◌++◌, map, String, eq_iff,
  eq_refl, arith, value_or, includes, nat_eqb, string_eqb,
}
use mathlib.Core.List.{append-nil}
use shipyard_cp.TaskUpdate.{
  Payloads, ExternalRef, UpdatedTask, TaskUpdate, append_unique, unique_new, apply_task_update,
}

has_value : List ExternalRef → String → Bool
has_value refs v = includes (map (λ r. r.value) refs) v

has_value-append :
    (xs ys : List ExternalRef) (v : String)
    → has_value (xs ++ ys) v ≡ (has_value xs v || has_value ys v)
unfolding has_value
has_value-append [] ys v = refl
has_value-append (x ∷ xs) ys v = ground (arith, has_value-append xs ys v)

has_value-unique_new :
    (old new : List ExternalRef) (v : String)
    → (has_value old v || has_value (unique_new old new) v) ≡ (has_value old v || has_value new v)
unfolding has_value
has_value-unique_new old [] v = refl
has_value-unique_new old (e ∷ es) v =
    ground (arith, has_value-unique_new old es v, eq_iff e.value v)

all_old :
    (refs new : List ExternalRef)
    → ((v : String) → has_value new v ≡ true → has_value refs v ≡ true)
    → unique_new refs new ≡ []
unfolding has_value
all_old refs [] h = refl
all_old refs (e ∷ es) h =
    ground (arith, h e.value, eq_refl e.value, all_old refs es (λ v k. h v (ground (arith, k))))

again : (old new : List ExternalRef) → unique_new (old ++ unique_new old new) new ≡ []
again old new = all_old (old ++ unique_new old new) new (λ v k.
    ground (arith, k, has_value-append old (unique_new old new) v, has_value-unique_new old new v))

append_again :
    (new old : Option (List ExternalRef))
    → append_unique new (append_unique new old) ≡ append_unique new old
append_again none old = refl
append_again (some new) old = ap some (
    rw (again (value_or old []) new)
      (append-nil (value_or old [] ++ unique_new (value_or old []) new)))

-- Applying an update a second time adds no external reference, where it replaces none.
pub refs_idempotent :
    {P : Payloads} (t : UpdatedTask P) (u : TaskUpdate P) (now later : ℕ)
    → u.external_refs ≡ none
    → (apply_task_update (apply_task_update t u now) u later).external_refs
      ≡ (apply_task_update t u now).external_refs
unfolding apply_task_update
refs_idempotent t u now later h = rw h (append_again u.merge_external_refs t.external_refs)
