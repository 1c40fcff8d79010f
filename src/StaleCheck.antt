-- ===== src/StaleCheck.antt =====
-- src/domain/stale-check/stale-docs-validator.ts. A time is a number of milliseconds; the age of a
-- document is compared in milliseconds, which the code compares in seconds.
use shipyard_cp.Base.{
  ℕ, ◌+◌, ◌*◌, Bool, true, false, not, Option, none, some, String, ltb, if◌then◌else◌, value_or,
  eqb, nat_eqb, string_eqb,
}
use shipyard_cp.Types.{WorkerStage, plan, stage_eqb}
use shipyard_cp.Task.{StaleStatus, StaleCounts, fresh, stale, unknown, mixed}

pub record StaleCheckInput : Type 0 where
  pub stale_status : StaleStatus
  pub has_resolver_refs : Bool
  pub current_stage : Option WorkerStage
  pub reread_performed : Bool
  pub reread_status : Option StaleStatus
  pub doc_updated_at : Option ℕ
  pub check_performed_at : Option ℕ
  pub stale_threshold_seconds : Option ℕ
  pub doc_stale_counts : Option StaleCounts

pub data StaleAction : Type 0 where
  proceed blocked rework resolve_first : StaleAction

pub record StaleCheckResult : Type 0 where
  pub can_proceed : Bool
  pub action : StaleAction
  pub reason : Option String
  pub detected_stale : Option Bool

abbrev go_on : StaleCheckResult
go_on = record { can_proceed = true; action = proceed; reason = none; detected_stale = none }

abbrev stop : StaleAction → String → StaleCheckResult
stop action reason = record {
  can_proceed = false;
  action = action;
  reason = some reason;
  detected_stale = none;
}

-- DEFAULT_STALE_THRESHOLD_SECONDS
abbrev default_threshold : ℕ
default_threshold = 1800

unfoldable pub detect_stale_by_timestamp : (updated checked threshold : ℕ) → Bool
detect_stale_by_timestamp updated checked threshold = ltb (updated + threshold * 1000) checked

-- The test by the age of a document of unknown status.
abbrev by_age : StaleCheckInput → ℕ → ℕ → StaleCheckResult
by_age i updated checked =
    if detect_stale_by_timestamp updated checked
      (value_or i.stale_threshold_seconds default_threshold)
    then record (stop blocked "stale_docs_require_reread") { detected_stale = some true }
    else record go_on { detected_stale = some false }

abbrev after_reread : StaleCheckInput → StaleCheckResult
after_reread i =
    let reread = stop blocked "stale_docs_require_reread" in
    if i.reread_performed
    then (elim i.reread_status [
      | none ↦ reread
      | some s ↦ elim s [
        | fresh ↦ go_on
        | stale ↦ stop rework "docs_still_stale_after_reread"
        | _ ↦ reread
      ]
    ])
    else reread

abbrev has_stale : Option StaleCounts → Bool
has_stale none = false
has_stale (some c) = ltb 0 c.stale_count

abbrev of_unknown : StaleCheckInput → StaleCheckResult
of_unknown i = elim i.doc_updated_at [
  | none ↦ stop blocked "stale_status_unknown"
  | some updated ↦ elim i.check_performed_at [
    | none ↦ stop blocked "stale_status_unknown"
    | some checked ↦ by_age i updated checked
  ]
]

-- The tests after those of the plan stage; each is about one status.
abbrev pub by_status : StaleCheckInput → StaleStatus → StaleCheckResult
by_status i unknown = of_unknown i
by_status i fresh = go_on
by_status i mixed =
    if has_stale i.doc_stale_counts
    then stop blocked "stale_docs_require_reread"
    else after_reread i
by_status i stale = after_reread i

abbrev is_plan : Option WorkerStage → Bool
is_plan none = false
is_plan (some s) = eqb s plan

abbrev of_plan : StaleStatus → StaleCheckResult
of_plan stale = record go_on { action = resolve_first }
of_plan mixed = record go_on { action = resolve_first }
of_plan _ = go_on

unfoldable pub check_stale : StaleCheckInput → StaleCheckResult
unfolding detect_stale_by_timestamp
check_stale i =
    if not i.has_resolver_refs
    then go_on
    else if is_plan i.current_stage
    then of_plan i.stale_status
    else by_status i i.stale_status
