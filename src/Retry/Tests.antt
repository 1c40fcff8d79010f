-- ===== src/Retry/Tests.antt =====
-- Retries at concrete failures (retry-manager.ts).
use shipyard_cp.Base.{
  ℕ, ◌+◌, ◌*◌, ◌≤◌, ◌<◌, ◌≡◌, ◌≢◌, refl, ◌↔◌, ◌⊎◌, true, false, none, some, arith, nat_eqb,
  string_eqb,
}
use shipyard_cp.Types.{retryable_transient, retryable_capacity, codex}
use shipyard_cp.StateMachine.{can_transition}
use shipyard_cp.Retry.{
  RetryPolicy, second, calculate_backoff, retry, determine_next_action,
  determine_next_action_with_failover, is_non_retryable,
}
use shipyard_cp.Retry.Actions.{longest_delay, retry_iff, publish, state_of, target, action_allowed}

abbrev doubling : RetryPolicy
doubling = record {
  max_retries = 5;
  backoff_base_seconds = 2;
  max_backoff_seconds = 60;
  jitter_enabled = false;
}

doubles : calculate_backoff 3 doubling 0 ≡ second * 16
unfolding calculate_backoff
doubles = refl

retry_iff_example :
    let a = determine_next_action "dev" retryable_transient 1 2 1000 5 in
    ((a.action ≡ retry) ↔ ((is_non_retryable retryable_transient ≡ false) × (1 < 2)))
    × (((a.action ≢ retry) × (a.retry_scheduled_at ≡ none))
        ⊎ ((a.action ≡ retry)
            × ((at : ℕ) × (a.retry_scheduled_at ≡ some at)
                × (1000 ≤ at)
                × (at ≤ 1000 + longest_delay 1))))
retry_iff_example = retry_iff "dev" retryable_transient 1 2 1000 5 (omega arith)

action_allowed_example :
    let a = determine_next_action_with_failover "publish" codex retryable_capacity 3 3 1000 5 in
    can_transition (state_of publish) (target (state_of publish) a.action) ≡ true
action_allowed_example = action_allowed publish codex retryable_capacity 3 3 1000 5
