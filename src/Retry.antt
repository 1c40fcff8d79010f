-- ===== src/Retry.antt =====
-- src/domain/retry: backoff, the action after a failure, and the classification of failures.
-- Seconds and counts are natural numbers; a draw of Math.random() is r / 2^53 with r < 2^53, and
-- a backoff is counted in units of 2^-53 seconds, so that the product with the draw is exact.
pub mod Backoff
pub mod Actions
mod Tests
use shipyard_cp.Base.{
  ℕ, zero, suc, ◌+◌, ◌-◌, ◌*◌, ◌/◌, ◌%◌, ◌^◌, ◌≤◌, ◌<◌, min, max, ◌≡◌, refl, sym, ap, ◌∙◌, ◌≢◌, ◌↔◌,
  ◌⊎◌, inl, inr, Bool, true, false, not, ◌&&◌, ◌||◌, Option, none, some, List, [], ◌∷◌, ◌++◌, map,
  String, str_eq, eq_iff, eq_refl, arith, ltb, leb, ◌==◌, ==_iff, if◌then◌else◌, ltb→lt, lt→ltb,
  leb→le, le→leb, tests, Bool-cases, Option-cases, is_some, value_or, or_else, length,
  length-append, drop, length-drop, keep, any, all, find, length-keep-le, includes, index_of, All,
  Eqb, eqb, eqb_iff, eqb_refl, Eqb_of_code, nat_eqb, string_eqb, Outcome, ok, thrown,
}
use Prim.Native.String.{◌++◌ as append}
use shipyard_cp.Types.{
  WorkerStage, WorkerType, worker_name, FailureClass, retryable_transient, retryable_capacity,
  non_retryable_policy, non_retryable_logic,
}
use shipyard_cp.Text.{codes, lower, contains}
use shipyard_cp.WorkerPolicy.{can_failover, get_failover_worker}

pub record RetryPolicy : Type 0 where
  pub max_retries : ℕ
  pub backoff_base_seconds : ℕ
  pub max_backoff_seconds : ℕ
  pub jitter_enabled : Bool

-- DEFAULT_RETRY_POLICY
abbrev pub default_retry_policy : RetryPolicy
default_retry_policy = record {
  max_retries = 3;
  backoff_base_seconds = 1;
  max_backoff_seconds = 60;
  jitter_enabled = true;
}

pub data ActionKind : Type 0 where
  retry blocked rework_required failed failover : ActionKind

pub record NextAction : Type 0 where
  pub action : ActionKind
  pub reason : Option String
  pub retry_scheduled_at : Option ℕ
  pub failover_worker : Option WorkerType

abbrev pub is_non_retryable : FailureClass → Bool
is_non_retryable non_retryable_policy = true
is_non_retryable non_retryable_logic = true
is_non_retryable _ = false

abbrev is_logic : FailureClass → Bool
is_logic non_retryable_logic = true
is_logic _ = false

unfoldable pub should_retry : FailureClass → ℕ → ℕ → Bool
should_retry failure_class retry_count max_retries =
    if is_non_retryable failure_class
    then false
    else if leb max_retries retry_count
    then false
    else true

-- One second, in the units of a backoff.
abbrev pub second : ℕ
second = 0x20_0000_0000_0000

unfoldable pub calculate_backoff : ℕ → RetryPolicy → ℕ → ℕ
calculate_backoff retry_count policy random =
    let base_backoff = policy.backoff_base_seconds ^ (retry_count + 1) in
    let backoff = min base_backoff policy.max_backoff_seconds in
    if policy.jitter_enabled then random * backoff else second * backoff

-- The reasons of the source.
abbrev stop_reason : FailureClass → String
stop_reason failure_class =
    if is_non_retryable failure_class then "non_retryable_failure" else "max_retries_reached"

abbrev stop : ActionKind → String → NextAction
stop kind why = record {
  action = kind;
  reason = some why;
  retry_scheduled_at = none;
  failover_worker = none;
}

-- The part of determineNextAction after the test for a retry.
unfoldable pub give_up : String → FailureClass → NextAction
give_up stage failure_class =
    if str_eq stage "acceptance"
    then stop rework_required (stop_reason failure_class)
    else if str_eq stage "plan" || str_eq stage "dev"
    then (if is_non_retryable failure_class && is_logic failure_class
        then stop rework_required "non_retryable_failure"
        else stop blocked (stop_reason failure_class))
    else if str_eq stage "integrate" || str_eq stage "publish"
    then (if is_non_retryable failure_class
        then stop failed "non_retryable_failure"
        else stop blocked "max_retries_reached")
    else stop blocked "max_retries_reached"

-- `now` is Date.now() in milliseconds. The schedule drops the fraction of a millisecond, as Date
-- does.
unfoldable pub determine_next_action : String → FailureClass → ℕ → ℕ → (now random : ℕ) → NextAction
determine_next_action stage failure_class retry_count max_retries now random =
    if should_retry failure_class retry_count max_retries
    then record {
      action = retry;
      reason = none;
      retry_scheduled_at =
          some (now + calculate_backoff retry_count default_retry_policy random * 1000 / second);
      failover_worker = none;
    }
    else give_up stage failure_class

abbrev failover_reason : WorkerType → WorkerType → String
failover_reason from to =
    append "failover from " (append (worker_name from) (append " to " (worker_name to)))

unfoldable pub determine_next_action_with_failover :
    String → WorkerType → FailureClass → ℕ → ℕ → (now random : ℕ) → NextAction
determine_next_action_with_failover stage current_worker failure_class retry_count max_retries now
      random =
    let fall_back = determine_next_action stage failure_class retry_count max_retries now random in
    if str_eq stage "plan" && can_failover WorkerStage.plan
    then (elim (get_failover_worker WorkerStage.plan current_worker) [
      | none ↦ fall_back
      | some next ↦ record {
        action = failover;
        reason = some (failover_reason current_worker next);
        retry_scheduled_at = none;
        failover_worker = some next;
      }
    ])
    else fall_back

-- defaultMaxRetriesByStage[stage] ?? 2
unfoldable pub get_default_max_retries : String → ℕ
get_default_max_retries stage =
    if str_eq stage "plan"
    then 2
    else if str_eq stage "dev"
    then 3
    else if str_eq stage "acceptance"
    then 1
    else if str_eq stage "integrate"
    then 2
    else if str_eq stage "publish"
    then 1
    else 2

-- FAILURE_CODES
abbrev capacity_codes : List String
capacity_codes =
    "rate_limit" ∷ "timeout" ∷ "quota_exceeded" ∷ "capacity_exceeded" ∷ "too_many_requests" ∷ []

abbrev transient_codes : List String
transient_codes =
    "network_error" ∷ "connection_error" ∷ "connection_refused" ∷ "dns_failure"
    ∷ "service_unavailable" ∷ []

abbrev policy_codes : List String
policy_codes =
    "policy_violation" ∷ "unauthorized" ∷ "forbidden" ∷ "sandbox_violation" ∷ "permission_denied"
    ∷ "authorization_error" ∷ []

abbrev logic_codes : List String
logic_codes =
    "invalid_input" ∷ "parse_error" ∷ "logic_error" ∷ "assertion_failed" ∷ "validation_error" ∷ []

-- FAILURE_CODES.X.some(c => text.includes(c))
unfoldable pub mentions : List String → List ℕ → Bool
unfolding contains
mentions keys text = any (λ c. contains text (codes c)) keys

-- The four tests in their order, on lower-case text.
unfoldable pub classify_text : List ℕ → FailureClass
unfolding mentions
classify_text text =
    if mentions transient_codes text
    then retryable_transient
    else if mentions capacity_codes text
    then retryable_capacity
    else if mentions policy_codes text
    then non_retryable_policy
    else if mentions logic_codes text
    then non_retryable_logic
    else retryable_transient

unfoldable pub classify_failure : String → FailureClass
unfolding classify_text lower
classify_failure error_code = classify_text (lower (codes error_code))

-- A missing or empty failure_code is falsy; a missing summary counts as "".
unfoldable pub classify_from_result : Option String → Option String → FailureClass
unfolding classify_failure
classify_from_result failure_code summary =
    let inferred = classify_text (lower (codes (value_or summary ""))) in
    elim failure_code [
      | none ↦ inferred
      | some c ↦ if str_eq c "" then inferred else classify_failure c
    ]
