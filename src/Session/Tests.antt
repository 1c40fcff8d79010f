-- ===== src/Session/Tests.antt =====
-- A ready session, and a dead one whose lease ran out (reuse.ts).
use shipyard_cp.Base.{◌≡◌, refl, true, Option, none, some, List, [], ◌∷◌, map, nat_eqb, string_eqb}
use shipyard_cp.JsMap.{get, set}
use shipyard_cp.Types.{codex, dev}
use shipyard_cp.Session.{
  SessionRecord, SessionSearchCriteria, SessionState, ready, idle, build_oriented,
  check_reuse_eligibility, find_candidates, mark_session_dead, lease_session,
}

abbrev criteria : SessionSearchCriteria
criteria = record {
  task_id = "t";
  workspace_kind = "volume";
  workspace_id = "w";
  logical_worker = codex;
  stage_bucket = dev;
  policy_fingerprint = "p";
}

abbrev session : SessionRecord
session = record {
  session_id = "s";
  task_id = "t";
  workspace_kind = "volume";
  workspace_id = "w";
  logical_worker = codex;
  stage_bucket = dev;
  policy_fingerprint = "p";
  agent_profile = build_oriented;
  state = ready;
  last_activity_at = 0;
  last_used_at = none;
  leased_by = none;
  lease_expires_at = none;
  error = none;
  health_score = some (record { error_count = 0; is_healthy = true });
}

abbrev only : Option SessionRecord → List SessionRecord
only none = []
only (some r) = r ∷ []

abbrev states : List SessionRecord → List SessionState
states rs = map (λ r. r.state) rs

-- A session that is marked dead under a lease is found again as idle once the lease has run out.
dead_is_found :
    states
      (find_candidates
        (only (
          get
            (mark_session_dead
              (lease_session (set [] "s" session) "s" "j" 10 1 1).0
              "s"
              (some "crash")
              2)
            "s"))
        criteria
        build_oriented
        3
        50).0
    ≡ idle ∷ []
unfolding get set mark_session_dead lease_session find_candidates check_reuse_eligibility
dead_is_found = refl
