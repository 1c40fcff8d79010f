-- ===== src/Session/Reuse.antt =====
-- Which sessions are reused (reuse.ts).
use shipyard_cp.Base.{
  ℕ, ◌≡◌, Bool, true, false, not, ◌&&◌, Option, none, some, str_eq, if◌then◌else◌, is_some, eqb,
  nat_eqb, string_eqb,
}
use shipyard_cp.Types.{stage_eqb, worker_eqb}
use shipyard_cp.Session.{
  SessionRecord, SessionSearchCriteria, AgentProfile, same_profile, ReuseSkipReason, is_ready,
  is_past, is_sick, has_errors,
}

-- A session of the task, its workspace, worker, stage, policy and profile.
abbrev pub is_match : SessionSearchCriteria → AgentProfile → SessionRecord → Bool
is_match c profile r =
    (str_eq r.task_id c.task_id
      && (str_eq r.workspace_kind c.workspace_kind && str_eq r.workspace_id c.workspace_id))
    && ((eqb r.logical_worker c.logical_worker && eqb r.stage_bucket c.stage_bucket)
        && (str_eq r.policy_fingerprint c.policy_fingerprint
            && same_profile r.agent_profile profile))

-- A session whose lease has run out, or that has none and is ready and healthy with few errors.
abbrev pub is_free : (m now : ℕ) → SessionRecord → Bool
is_free m now r =
    if is_some r.leased_by
    then is_past r.lease_expires_at now
    else is_ready r.state && (not (is_sick r.health_score) && not (has_errors r.health_score m))

-- A session that a job may take at once.
abbrev pub IsUsable : SessionRecord → Type 0
IsUsable r = (r.leased_by ≡ none) × (is_ready r.state ≡ true)

abbrev is_none : Option ReuseSkipReason → Bool
is_none none = true
is_none (some x) = false
