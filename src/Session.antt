-- ===== src/Session.antt =====
-- src/domain/worker/session-registry: reuse.ts and the leases of registry.ts. The warm pool, the
-- ranking of candidates, the scores of health and the counters are left out: of a score of health a
-- session has whether it is healthy and the number of errors. A search reads the clock once.
pub mod Reuse
mod Tests
use shipyard_cp.Base.{
  ℕ, ◌+◌, Bool, true, false, not, ◌&&◌, Option, none, some, List, [], ◌∷◌, String, str_eq, ltb,
  ◌==◌, if◌then◌else◌, is_some, eqb, nat_eqb, string_eqb,
}
use shipyard_cp.JsMap.{JsMap, get, set}
use shipyard_cp.Types.{WorkerType, WorkerStage, stage_eqb, worker_eqb}

pub data AgentProfile : Type 0 where
  planning_oriented build_oriented verification_oriented : AgentProfile

abbrev profile_code : AgentProfile → ℕ
profile_code planning_oriented = 0
profile_code build_oriented = 1
profile_code verification_oriented = 2

abbrev pub same_profile : AgentProfile → AgentProfile → Bool
same_profile a b = profile_code a == profile_code b

pub data SessionState : Type 0 where
  initializing ready active idle draining dead expired : SessionState

pub data ReuseSkipReason : Type 0 where
  agent_profile_mismatch stage_bucket_mismatch policy_fingerprint_mismatch : ReuseSkipReason
  workspace_mismatch task_mismatch already_leased state_not_ready : ReuseSkipReason
  health_score_low error_history_high : ReuseSkipReason

pub record HealthScore : Type 0 where
  pub error_count : ℕ
  pub is_healthy : Bool

pub record SessionRecord : Type 0 where
  pub session_id : String
  pub task_id : String
  pub workspace_kind : String
  pub workspace_id : String
  pub logical_worker : WorkerType
  pub stage_bucket : WorkerStage
  pub policy_fingerprint : String
  pub agent_profile : AgentProfile
  pub state : SessionState
  pub last_activity_at : ℕ
  pub last_used_at : Option ℕ
  pub leased_by : Option String
  pub lease_expires_at : Option ℕ
  pub error : Option String
  pub health_score : Option HealthScore

pub record SessionSearchCriteria : Type 0 where
  pub task_id : String
  pub workspace_kind : String
  pub workspace_id : String
  pub logical_worker : WorkerType
  pub stage_bucket : WorkerStage
  pub policy_fingerprint : String

abbrev pub is_ready : SessionState → Bool
is_ready ready = true
is_ready idle = true
is_ready _ = false

-- leaseExpiresAt < now, for a time that is set
abbrev pub is_past : Option ℕ → (now : ℕ) → Bool
is_past none now = false
is_past (some t) now = ltb t now

abbrev pub is_sick : Option HealthScore → Bool
is_sick none = false
is_sick (some h) = not h.is_healthy

abbrev pub has_errors : Option HealthScore → (max_error_count : ℕ) → Bool
has_errors none m = false
has_errors (some h) m = ltb m h.error_count

-- The conditions on state and health, of a session without a lease.
abbrev pub check_state : SessionRecord → (max_error_count : ℕ) → Option ReuseSkipReason
check_state r m =
    if not (is_ready r.state)
    then some state_not_ready
    else if is_sick r.health_score
    then some health_score_low
    else if has_errors r.health_score m
    then some error_history_high
    else none

-- The conditions from the lease on.
abbrev pub check_lease : SessionRecord → (max_error_count now : ℕ) → Option ReuseSkipReason
check_lease r m now =
    if is_some r.leased_by
    then (if is_past r.lease_expires_at now then none else some already_leased)
    else check_state r m

-- The reason to skip a session; none if it is eligible.
unfoldable pub check_reuse_eligibility :
    SessionRecord
    → SessionSearchCriteria
    → AgentProfile
    → (max_error_count now : ℕ) → Option ReuseSkipReason
check_reuse_eligibility r c profile m now =
    if not (str_eq r.task_id c.task_id)
    then some task_mismatch
    else if not (str_eq r.workspace_kind c.workspace_kind && str_eq r.workspace_id c.workspace_id)
    then some workspace_mismatch
    else if not (eqb r.logical_worker c.logical_worker)
    then some task_mismatch
    else if not (eqb r.stage_bucket c.stage_bucket)
    then some stage_bucket_mismatch
    else if not (str_eq r.policy_fingerprint c.policy_fingerprint)
    then some policy_fingerprint_mismatch
    else if not (same_profile r.agent_profile profile)
    then some agent_profile_mismatch
    else check_lease r m now

-- An eligible session whose lease has expired is cleared.
abbrev pub cleared : SessionRecord → (now : ℕ) → SessionRecord
cleared r now =
    if is_some r.leased_by && is_past r.lease_expires_at now
    then record r {
      leased_by = none;
      lease_expires_at = none;
      state = idle;
      last_activity_at = now;
    }
    else r

-- The loop of findReusableSession: the candidates, cleared, and the reasons of the others.
unfoldable pub find_candidates :
    List SessionRecord
    → SessionSearchCriteria
    → AgentProfile
    → (max_error_count now : ℕ) → List SessionRecord × List ReuseSkipReason
unfolding check_reuse_eligibility
find_candidates [] c profile m now = ([], [])
find_candidates (r ∷ rs) c profile m now =
    let rest = find_candidates rs c profile m now in
    elim (check_reuse_eligibility r c profile m now) [
      | none ↦ (cleared r now ∷ rest.0, rest.1)
      | some reason ↦ (rest.0, reason ∷ rest.1)
    ]

-- A lease by another or the same job that has not expired.
abbrev pub is_leased : SessionRecord → (now : ℕ) → Bool
is_leased r now =
    is_some r.leased_by && elim r.lease_expires_at [ none ↦ false | some t ↦ ltb now t ]

abbrev leased : SessionRecord → String → (lease_ttl_ms now : ℕ) → SessionRecord
leased r job_id lease_ttl_ms now = record r {
  leased_by = some job_id;
  lease_expires_at = some (now + lease_ttl_ms);
  state = active;
  last_activity_at = now;
  last_used_at = some now;
}

unfoldable pub lease_session :
    JsMap SessionRecord
    → (session_id job_id : String) (lease_ttl_ms checked now : ℕ) → JsMap SessionRecord × Bool
lease_session sessions session_id job_id lease_ttl_ms checked now = elim (get sessions session_id) [
  | none ↦ (sessions, false)
  | some r ↦
      if is_leased r checked
      then (sessions, false)
      else (set sessions session_id (leased r job_id lease_ttl_ms now), true)
]

-- markSessionDead leaves the lease as it is.
abbrev pub died : SessionRecord → Option String → (now : ℕ) → SessionRecord
died r error now = record r { state = dead; error = error; last_activity_at = now }

unfoldable pub mark_session_dead :
    JsMap SessionRecord → (session_id : String) → Option String → (now : ℕ) → JsMap SessionRecord
mark_session_dead sessions session_id error now = elim (get sessions session_id) [
  | none ↦ sessions
  | some r ↦ set sessions session_id (died r error now)
]
