-- ===== src/TaskUpdate/Merging.antt =====
-- Merging updates, against applying them one by one (task-update.ts).
use shipyard_cp.Base.{
  ℕ, ◌≡◌, refl, sym, ap, ◌⊎◌, inl, inr, Option, none, some, List, [], ◌∷◌, ◌++◌, value_or, or_else,
  nat_eqb, string_eqb,
}
use mathlib.Core.List.{append_assoc}
use shipyard_cp.TaskUpdate.{
  Payloads, ResolverKey, Partial, UpdatedTask, TaskUpdate, spread_over, append_to, append_unique,
  replace_direct, apply_task_update, merge_step, no_update, merge_from, merge_task_updates,
}
use shipyard_cp.Types.{WorkerStage}

or_else_assoc : {A : Type 0} (a b c : Option A) → or_else a (or_else b c) ≡ or_else (or_else a b) c
or_else_assoc none b c = refl
or_else_assoc (some x) b c = refl

or_else-none : {A : Type 0} (a : Option A) → or_else a none ≡ a
or_else-none none = refl
or_else-none (some x) = refl

append_to_assoc :
    {A : Type 0} (a b c : Option (List A))
    → append_to a (append_to b c) ≡ append_to (append_to a b) c
append_to_assoc none b c = refl
append_to_assoc (some x) none c = refl
append_to_assoc (some x) (some y) c = ap some (append_assoc (value_or c []) y x)

append_to-none : {A : Type 0} (a : Option (List A)) → append_to a none ≡ a
append_to-none none = refl
append_to-none (some x) = refl

-- The value of a key, in an object that may be missing.
unfoldable pub key_of : {K V : Type 0} → Option (Partial K V) → K → Option V
key_of o k = value_or o (λ i. none) k

key_of-spread_over :
    {K V : Type 0} (a b : Option (Partial K V)) (k : K)
    → key_of (spread_over a b) k ≡ or_else (key_of a k) (key_of b k)
unfolding key_of
key_of-spread_over none b k = refl
key_of-spread_over (some x) none k = refl
key_of-spread_over (some x) (some y) k = refl

key_of-none : {K V : Type 0} (k : K) → key_of {K = K} {V = V} none k ≡ none
unfolding key_of
key_of-none k = refl

-- Two tasks have the same fields, up to the version and the time of the update.
pub record Agree {P : Payloads} (a b : UpdatedTask P) : Type 0 where
  pub same_direct : a.direct ≡ b.direct
  pub same_artifacts : a.artifacts ≡ b.artifacts
  pub same_resolver_refs : (k : ResolverKey) → key_of a.resolver_refs k ≡ key_of b.resolver_refs k
  pub same_external_refs : a.external_refs ≡ b.external_refs
  pub same_retry_counts : (s : WorkerStage) → key_of a.retry_counts s ≡ key_of b.retry_counts s

-- The later update replaces no field that the earlier one merges into, and not both merge
-- external references.
abbrev pub Compatible : {P : Payloads} → TaskUpdate P → TaskUpdate P → Type 0
Compatible m u =
    ((u.artifacts ≡ none) ⊎ (m.merge_artifacts ≡ none))
    × ((u.resolver_refs ≡ none) ⊎ (m.merge_resolver_refs ≡ none))
    × (((u.external_refs ≡ none) × (u.merge_external_refs ≡ none)) ⊎ (m.merge_external_refs ≡ none))

module _ {P : Payloads} (t : UpdatedTask P) (m u : TaskUpdate P) (now later : ℕ) where
  direct_agree :
      replace_direct (replace_direct u.direct m.direct) t.direct
      ≡ replace_direct u.direct (replace_direct m.direct t.direct)
  direct_agree = simp or_else_assoc

  artifacts_agree :
      (u.artifacts ≡ none) ⊎ (m.merge_artifacts ≡ none)
      → append_to
          (append_to u.merge_artifacts m.merge_artifacts)
          (or_else (or_else u.artifacts m.artifacts) t.artifacts)
        ≡ append_to u.merge_artifacts
            (or_else u.artifacts (append_to m.merge_artifacts (or_else m.artifacts t.artifacts)))
  artifacts_agree (inl e) =
      rw e (
        sym (append_to_assoc u.merge_artifacts m.merge_artifacts (or_else m.artifacts t.artifacts)))
  artifacts_agree (inr e) =
      rw (e, append_to-none u.merge_artifacts)
        (ap (append_to u.merge_artifacts) (sym (or_else_assoc u.artifacts m.artifacts t.artifacts)))

  external_agree :
      ((u.external_refs ≡ none) × (u.merge_external_refs ≡ none)) ⊎ (m.merge_external_refs ≡ none)
      → append_unique
          (append_to u.merge_external_refs m.merge_external_refs)
          (or_else (or_else u.external_refs m.external_refs) t.external_refs)
        ≡ append_unique u.merge_external_refs (
            or_else u.external_refs
              (append_unique m.merge_external_refs (or_else m.external_refs t.external_refs)))
  external_agree (inl (e, f)) = rw (e, f) refl
  external_agree (inr e) =
      rw (e, append_to-none u.merge_external_refs)
        (ap (append_unique u.merge_external_refs)
          (sym (or_else_assoc u.external_refs m.external_refs t.external_refs)))

  resolver_agree :
      (k : ResolverKey)
      → (u.resolver_refs ≡ none) ⊎ (m.merge_resolver_refs ≡ none)
      → key_of
          (spread_over
            (spread_over u.merge_resolver_refs m.merge_resolver_refs)
            (spread_over (spread_over u.resolver_refs m.resolver_refs) t.resolver_refs))
          k
        ≡ key_of
            (spread_over u.merge_resolver_refs (
              spread_over u.resolver_refs
                (spread_over m.merge_resolver_refs (spread_over m.resolver_refs t.resolver_refs))))
            k
  resolver_agree k (inl e) = simp (e, key_of-spread_over, key_of-none, or_else-none, or_else_assoc)
  resolver_agree k (inr e) = simp (e, key_of-spread_over, key_of-none, or_else-none, or_else_assoc)

  retry_agree :
      (s : WorkerStage)
      → key_of (spread_over (spread_over u.retry_counts m.retry_counts) t.retry_counts) s
        ≡ key_of (spread_over u.retry_counts (spread_over m.retry_counts t.retry_counts)) s
  retry_agree s = simp (key_of-spread_over, or_else_assoc)

  -- Applying a merged update gives the fields that applying the two updates in turn gives, if they
  -- are compatible.
  step-Agree :
      Compatible m u
      → Agree
          (apply_task_update t (merge_step m u) later)
          (apply_task_update (apply_task_update t m now) u later)
  unfolding apply_task_update merge_step
  step-Agree c = record {
    same_direct = direct_agree;
    same_artifacts = artifacts_agree c.0;
    same_resolver_refs = λ k. resolver_agree k c.1;
    same_external_refs = external_agree c.2;
    same_retry_counts = retry_agree;
  }

merge_last :
    {P : Payloads} (us : List (TaskUpdate P)) (m u : TaskUpdate P)
    → merge_from m (us ++ u ∷ []) ≡ merge_step (merge_from m us) u
merge_last [] m u = refl
merge_last (v ∷ us) m u = merge_last us (merge_step m v) u

-- Merging one more update and applying the whole gives a task the same fields as applying the
-- merged ones and then that update, if it replaces no field that they merge into and does not
-- merge external references where they do.
pub merged_applies :
    {P : Payloads} (t : UpdatedTask P) (us : List (TaskUpdate P)) (u : TaskUpdate P) (now later : ℕ)
    → Compatible (merge_task_updates us) u
    → Agree
        (apply_task_update t (merge_task_updates (us ++ u ∷ [])) later)
        (apply_task_update (apply_task_update t (merge_task_updates us) now) u later)
unfolding merge_task_updates
merged_applies t us u now later c =
    rw (merge_last us no_update u) (step-Agree t (merge_from no_update us) u now later c)
