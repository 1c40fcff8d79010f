-- ===== src/Lease.antt =====
-- src/domain/lease: one lease for each job. Times are milliseconds since the epoch; the ISO texts
-- of the source stand for them exactly. Each reading of the clock is an argument.
pub mod Exclusion
pub mod Orphans
mod Tests
use shipyard_cp.Base.{
  ℕ, zero, suc, ◌+◌, ◌-◌, ◌*◌, ◌/◌, ◌%◌, ◌^◌, ◌≤◌, ◌<◌, min, max, ◌≡◌, refl, sym, ap, ◌∙◌, ◌≢◌, ◌↔◌,
  ◌⊎◌, inl, inr, Bool, true, false, not, ◌&&◌, ◌||◌, Option, none, some, List, [], ◌∷◌, ◌++◌, map,
  String, str_eq, eq_iff, eq_refl, arith, ltb, leb, ◌==◌, ==_iff, if◌then◌else◌, ltb→lt, lt→ltb,
  leb→le, le→leb, tests, Bool-cases, Option-cases, is_some, value_or, or_else, length,
  length-append, drop, length-drop, keep, any, all, find, length-keep-le, includes, index_of, All,
  Eqb, eqb, eqb_iff, eqb_refl, Eqb_of_code, nat_eqb, string_eqb, Outcome, ok, thrown,
}
use shipyard_cp.JsMap.{JsMap, get, set, delete, values, map_values}

pub record LeaseConfig : Type 0 where
  pub lease_duration_seconds : ℕ
  pub heartbeat_grace_multiplier : ℕ
  pub heartbeat_interval_seconds : Option ℕ

pub data RecoveryAction : Type 0 where
  retry block fail : RecoveryAction

pub record Lease : Type 0 where
  pub job_id : String
  pub lease_owner : String
  pub lease_expires_at : ℕ
  pub last_heartbeat_at : Option ℕ
  pub acquired_at : ℕ
  pub orphaned_at : Option ℕ
  pub recovery_action : Option RecoveryAction

pub record HeartbeatResponse : Type 0 where
  pub lease_expires_at : ℕ
  pub next_heartbeat_due_at : ℕ
  pub last_heartbeat_at : ℕ

-- DEFAULT_LEASE_CONFIG
abbrev pub default_lease_config : LeaseConfig
default_lease_config = record {
  lease_duration_seconds = 300;
  heartbeat_grace_multiplier = 3;
  heartbeat_interval_seconds = some 60;
}

pub record LeaseManager : Type 0 where
  pub config : LeaseConfig
  pub open config use *
  pub leases : JsMap Lease

abbrev pub is_lease_expired : Lease → ℕ → Bool
is_lease_expired lease now = leb lease.lease_expires_at now

-- `existing && !isLeaseExpired(existing) && existing.lease_owner !== owner`
abbrev pub held_by_other : Option Lease → String → ℕ → Bool
held_by_other none owner now = false
held_by_other (some l) owner now = not (is_lease_expired l now) && not (str_eq l.lease_owner owner)

abbrev pub new_lease : LeaseManager → String → String → ℕ → Lease
new_lease m job_id owner now = record {
  job_id = job_id;
  lease_owner = owner;
  lease_expires_at = now + m.lease_duration_seconds * 1000;
  last_heartbeat_at = some now;
  acquired_at = now;
  orphaned_at = none;
  recovery_action = none;
}

-- The clock is read for the test, and again for the new lease.
unfoldable pub acquire :
    LeaseManager → String → String → (checked now : ℕ) → LeaseManager × Option Lease
acquire m job_id owner checked now =
    if held_by_other (get m.leases job_id) owner checked then (m, none) else (
      record m { leases = set m.leases job_id (new_lease m job_id owner now) },
      some (new_lease m job_id owner now),
    )

-- The lease that the heartbeat, or the release, of an owner is about.
abbrev own_lease : Option Lease → String → Option Lease
own_lease none owner = none
own_lease (some l) owner = if str_eq l.lease_owner owner then some l else none

abbrev pub renewed : LeaseManager → Lease → ℕ → Lease
renewed m l now = record l {
  lease_expires_at = now + m.lease_duration_seconds * 1000;
  last_heartbeat_at = some now;
}

unfoldable pub heartbeat :
    LeaseManager → String → String → (now : ℕ) → LeaseManager × Option HeartbeatResponse
heartbeat m job_id owner now = elim (own_lease (get m.leases job_id) owner) [
  | none ↦ (m, none)
  | some l ↦ if is_some l.orphaned_at then (m, none) else (
    record m { leases = set m.leases job_id (renewed m l now) },
    some (record {
      lease_expires_at = now + m.lease_duration_seconds * 1000;
      next_heartbeat_due_at = now + value_or m.heartbeat_interval_seconds 60 * 1000;
      last_heartbeat_at = now;
    }),
  )
]

unfoldable pub is_expired : LeaseManager → String → (now : ℕ) → Bool
is_expired m job_id now = elim (get m.leases job_id) [
  | none ↦ true
  | some l ↦ is_lease_expired l now
]

-- The clock is read for the test, and again for the mark.
unfoldable pub detect_orphan :
    LeaseManager → String → (checked now : ℕ) → LeaseManager × Option Lease
detect_orphan m job_id checked now = elim (get m.leases job_id) [
  | none ↦ (m, none)
  | some l ↦
      if not (is_lease_expired l checked)
      then (m, none)
      else if is_some l.orphaned_at
      then (m, some l)
      else (
        record m { leases = set m.leases job_id (record l { orphaned_at = some now }) },
        some (record l { orphaned_at = some now }),
      )
]

unfoldable pub release : LeaseManager → String → String → LeaseManager × Bool
release m job_id owner = elim (own_lease (get m.leases job_id) owner) [
  | none ↦ (m, false)
  | some l ↦ (record m { leases = delete m.leases job_id }, true)
]

unfoldable pub get_lease : LeaseManager → String → Option Lease
get_lease m job_id = get m.leases job_id

unfoldable pub get_orphaned_jobs : LeaseManager → List Lease
get_orphaned_jobs m = keep (λ l. is_some l.orphaned_at) (values m.leases)

-- Expired, and not yet marked.
abbrev pub newly_expired : ℕ → Lease → Bool
newly_expired now l = not (is_some l.orphaned_at) && is_lease_expired l now

unfoldable pub get_expired_leases : LeaseManager → (now : ℕ) → List Lease
get_expired_leases m now = keep (newly_expired now) (values m.leases)

abbrev pub mark : ℕ → Lease → Lease
mark now l = if newly_expired now l then record l { orphaned_at = some now } else l

-- The returned leases are the objects in the map, so they carry the mark.
unfoldable pub check_and_mark_expired : LeaseManager → (now : ℕ) → LeaseManager × List Lease
check_and_mark_expired m now = (
  record m { leases = map_values (mark now) m.leases },
  map (mark now) (keep (newly_expired now) (values m.leases)),
)
