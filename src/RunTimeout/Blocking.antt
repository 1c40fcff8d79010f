-- ===== src/RunTimeout/Blocking.antt =====
-- What a check of the timeouts asks for (run-timeout-service.ts).
use shipyard_cp.Base.{
  ℕ, ◌≡◌, refl, sym, ◌⊎◌, inl, inr, true, Option, none, some, List, [], ◌∷◌, arith, Bool-cases, All,
  All-append, eqb, eqb_iff, nat_eqb, string_eqb,
}
use shipyard_cp.StateMachine.{
  TaskState, integrating, publishing, blocked, state_eqb, can_transition,
}
use shipyard_cp.RunTimeout.{
  RunTask, Run, RunBlockedContext, Transition, timeout, check_integration_timeout,
  check_publish_timeout, checked, check_task, check_timeouts, stop, run_in, github, environment,
}

-- The task of a call resumes in the state that it was in, the state machine allows the move to
-- blocked and the move back, and no later check finds the task late again.
abbrev pub IsSettled : Transition → Type 0
IsSettled t =
    (c : RunBlockedContext) × (t.task.blocked_context ≡ some c)
    × (c.resume_state ≡ t.task.state)
    × (can_transition t.task.state blocked ≡ true)
    × (can_transition blocked c.resume_state ≡ true)
    × ((later stamp : ℕ) → check_task t.task later stamp ≡ [])

by_answer :
    (o : Option Transition)
    → ((t : Transition) → o ≡ some t → IsSettled t)
    → All IsSettled (elim o [ none ↦ [] | some t ↦ t ∷ [] ])
by_answer none h = tt
by_answer (some t) h = (h t refl, tt)

not_again :
    (task : RunTask) (r : Run) (later again : ℕ)
    → r.status ≡ timeout
    → ((task.state ≡ integrating) × (task.integration_run ≡ some r))
      ⊎ ((task.state ≡ publishing) × (task.publish_run ≡ some r))
    → check_task task later again ≡ []
unfolding check_task check_integration_timeout check_publish_timeout
not_again task r later again over h = ground arith

integration-IsSettled :
    (task : RunTask) (run : Run) (now stamp : ℕ) (t : Transition)
    → task.state ≡ integrating
    → check_integration_timeout task run now stamp ≡ some t
    → IsSettled t
unfolding check_integration_timeout can_transition
integration-IsSettled task run now stamp t h e =
    let state : t.task.state ≡ integrating = ground arith in
    let over : (r : Run) × (t.task.integration_run ≡ some r) × (r.status ≡ timeout) =
      (stop run "integration timeout" stamp, ground arith, refl) in
    (
      record { resume_state = integrating; reason = "integration timed out"; waiting_on = github },
      ground arith,
      sym state,
      rw state refl,
      refl,
      λ later again. not_again t.task over.0 later again over.2 (inl (state, over.1)),
    )

publish-IsSettled :
    (task : RunTask) (run : Run) (now stamp : ℕ) (t : Transition)
    → task.state ≡ publishing
    → check_publish_timeout task run now stamp ≡ some t
    → IsSettled t
unfolding check_publish_timeout can_transition
publish-IsSettled task run now stamp t h e =
    let state : t.task.state ≡ publishing = ground arith in
    let over : (r : Run) × (t.task.publish_run ≡ some r) × (r.status ≡ timeout) =
      (stop run "publish timeout" stamp, ground arith, refl) in
    (
      record { resume_state = publishing; reason = "publish timed out"; waiting_on = environment },
      ground arith,
      sym state,
      rw state refl,
      refl,
      λ later again. not_again t.task over.0 later again over.2 (inr (state, over.1)),
    )

run-IsSettled :
    (task : RunTask) (wanted : TaskState) (o : Option Run) (check : Run → Option Transition)
    → ((r : Run) (t : Transition) → task.state ≡ wanted → check r ≡ some t → IsSettled t)
    → All IsSettled (checked (run_in wanted task.state o) check)
run-IsSettled task wanted none check h = elim (Bool-cases (eqb task.state wanted)) [
  | inl e ↦ rw e tt
  | inr e ↦ rw e tt
]
run-IsSettled task wanted (some r) check h = elim (Bool-cases (eqb task.state wanted)) [
  | inl e ↦ rw e (by_answer (check r) (λ t. h r t ((eqb_iff task.state wanted).0 e)))
  | inr e ↦ rw e tt
]

task-IsSettled : (task : RunTask) (now stamp : ℕ) → All IsSettled (check_task task now stamp)
unfolding check_task
task-IsSettled task now stamp =
    All-append IsSettled _ _
      (run-IsSettled task integrating task.integration_run
        (λ run. check_integration_timeout task run now stamp)
        (λ r t. integration-IsSettled task r now stamp t))
      (run-IsSettled task publishing task.publish_run
        (λ run. check_publish_timeout task run now stamp)
        (λ r t. publish-IsSettled task r now stamp t))

-- Each call of a check of the timeouts blocks a task that resumes in the state that it was in; the
-- state machine allows the move to blocked and the move back; and no later check of the task that
-- is handed over finds it late again.
pub timeouts-IsSettled :
    (now : ℕ) (ts : List (RunTask × ℕ)) → All IsSettled (check_timeouts now ts).1
unfolding check_timeouts
timeouts-IsSettled now [] = tt
timeouts-IsSettled now ((task, stamp) ∷ ts) =
    All-append IsSettled (check_task task now stamp) (check_timeouts now ts).1
      (task-IsSettled task now stamp) (timeouts-IsSettled now ts)
