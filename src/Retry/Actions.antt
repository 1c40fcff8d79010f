-- ===== src/Retry/Actions.antt =====
-- The action after a failure, on every branch (retry-manager.ts).
use shipyard_cp.Base.{
  ℕ, suc, ◌+◌, ◌*◌, ◌/◌, ◌^◌, ◌≤◌, ◌<◌, min, ◌≡◌, refl, ◌≢◌, ◌↔◌, ◌⊎◌, inl, inr, true, false, none,
  some, String, arith, Option-cases, nat_eqb, string_eqb,
}
use shipyard_cp.Types.{FailureClass, WorkerType}
use shipyard_cp.StateMachine.{TaskState, integrating, publishing, can_transition}
use shipyard_cp.Retry.Backoff.{one_pow, default_backoff_flat}
use shipyard_cp.Retry.{
  ActionKind, retry, failover, is_non_retryable, should_retry, second, give_up, calculate_backoff,
  determine_next_action, determine_next_action_with_failover, default_retry_policy,
}

give_up_no_retry :
    (stage : String) (class : FailureClass)
    → ((give_up stage class).action ≢ retry) × ((give_up stage class).retry_scheduled_at ≡ none)
unfolding give_up
give_up_no_retry stage class = (ground arith, ground arith)

-- The longest delay in milliseconds of a retry after so many: the jitter only shortens it.
abbrev pub longest_delay : (count : ℕ) → ℕ
longest_delay count =
    min (default_retry_policy.backoff_base_seconds ^ suc count)
      default_retry_policy.max_backoff_seconds
    * 1000

due_within :
    (now random n : ℕ)
    → random < second
    → calculate_backoff n default_retry_policy random * 1000 / second ≤ longest_delay n
due_within now random n h = rw (default_backoff_flat n random h, one_pow (suc n)) (omega arith)

-- A failure is retried exactly when its class may be and the limit is not reached. Exactly then a
-- time is scheduled for it: not before now, and not later than now and the exponential backoff of the
-- count under the default policy, with its cap.
pub retry_iff :
    (stage : String) (class : FailureClass) (count limit now random : ℕ)
    → random < second
    → let a = determine_next_action stage class count limit now random in
      ((a.action ≡ retry) ↔ ((is_non_retryable class ≡ false) × (count < limit)))
      × (((a.action ≢ retry) × (a.retry_scheduled_at ≡ none))
          ⊎ ((a.action ≡ retry)
              × ((at : ℕ) × (a.retry_scheduled_at ≡ some at)
                  × (now ≤ at)
                  × (at ≤ now + longest_delay count))))
unfolding determine_next_action should_retry
retry_iff stage class count limit now random h = (
  (ground (arith, give_up_no_retry stage class), ground (arith, give_up_no_retry stage class)),
  elim (Option-cases
      (determine_next_action stage class count limit now random).retry_scheduled_at) [
        | inl e ↦ inl (ground (arith, give_up_no_retry stage class), ground arith)
        | inr (at, e) ↦ inr (
          ground (arith, give_up_no_retry stage class),
          (
            at,
            ground (arith, give_up_no_retry stage class),
            ground (arith, give_up_no_retry stage class),
            ground (arith, give_up_no_retry stage class, due_within now random count h),
          ),
        )
      ],
)

-- The five stages, and the task state in which each runs.
pub data Stage : Type 0 where
  plan dev acceptance integrate publish : Stage

abbrev stage_text : Stage → String
stage_text plan = "plan"
stage_text dev = "dev"
stage_text acceptance = "acceptance"
stage_text integrate = "integrate"
stage_text publish = "publish"

abbrev pub state_of : Stage → TaskState
state_of plan = TaskState.planning
state_of dev = TaskState.developing
state_of acceptance = TaskState.accepting
state_of integrate = integrating
state_of publish = publishing

-- The state that an action asks for; a retry or a failover stays in the stage.
abbrev pub target : TaskState → ActionKind → TaskState
target s retry = s
target s failover = s
target s ActionKind.blocked = TaskState.blocked
target s ActionKind.rework_required = TaskState.rework_required
target s ActionKind.failed = TaskState.failed

give_up_allowed :
    (stage : Stage) (class : FailureClass)
    → can_transition
        (state_of stage)
        (target (state_of stage) (give_up (stage_text stage) class).action)
      ≡ true
unfolding give_up can_transition
give_up_allowed plan class = ground arith
give_up_allowed dev class = ground arith
give_up_allowed acceptance class = ground arith
give_up_allowed integrate class = ground arith
give_up_allowed publish class = ground arith

stays : (stage : Stage) → can_transition (state_of stage) (state_of stage) ≡ true
unfolding can_transition
stays plan = refl
stays _ = refl

-- Whatever action follows a failure in one of the five stages, the state machine allows the move
-- from the state of the stage to the state that the action asks for.
pub action_allowed :
    (stage : Stage) (current : WorkerType) (class : FailureClass) (count limit now random : ℕ)
    → let a =
        determine_next_action_with_failover
          (stage_text stage)
          current
          class
          count
          limit
          now
          random in
      can_transition (state_of stage) (target (state_of stage) a.action) ≡ true
unfolding determine_next_action_with_failover determine_next_action
action_allowed stage current class count limit now random =
    ground (arith, give_up_allowed stage class, stays stage)
