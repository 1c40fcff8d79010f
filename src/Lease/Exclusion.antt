-- ===== src/Lease/Exclusion.antt =====
-- Who holds a job, over sequences of calls (lease-manager.ts).
use shipyard_cp.Base.{
  ℕ, ◌<◌, ◌≡◌, ◌≢◌, ◌⊎◌, inl, inr, true, false, none, some, List, [], ◌∷◌, String, str_eq, eq_iff,
  arith, if◌then◌else◌, Bool-cases, Option-cases, All, nat_eqb, string_eqb,
}
use shipyard_cp.JsMap.{get, get-set, get-delete, get-map_values}
use shipyard_cp.Lease.{
  LeaseManager, Lease, held_by_other, new_lease, acquire, renewed, heartbeat, detect_orphan,
  release, get_lease, mark, check_and_mark_expired,
}

-- While another owner's lease has not run out, acquire returns null and changes nothing; else the
-- caller holds the job until the new deadline, unmarked, and no other job is touched.
pub acquire_cases :
    (m : LeaseManager) (job owner other : String) (checked now : ℕ)
    → let r = acquire m job owner checked now in
      ((held_by_other (get_lease m job) owner checked ≡ true) × (r ≡ (m, none)))
      ⊎ ((held_by_other (get_lease m job) owner checked ≡ false)
          × (r.1 ≡ some (new_lease m job owner now))
          × (get_lease r.0 other
              ≡ (if str_eq job other then some (new_lease m job owner now) else get_lease m other)))
unfolding acquire get_lease
acquire_cases m job owner other checked now =
    elim (Bool-cases (held_by_other (get m.leases job) owner checked)) [
      | inl e ↦ inl (e, rw e)
      | inr e ↦ inr (e, rw e, rw e (get-set m.leases job other (new_lease m job owner now)))
    ]

-- The calls that change the leases, with the times at which they read the clock.
pub data Call : Type 0 where
  acquires : (job owner : String) (checked now : ℕ) → Call
  heartbeats : (job owner : String) (now : ℕ) → Call
  detects : (job : String) (checked now : ℕ) → Call
  releases : (job owner : String) → Call
  marks : (now : ℕ) → Call

pub step : LeaseManager → Call → LeaseManager
step m (acquires job owner checked now) = (acquire m job owner checked now).0
step m (heartbeats job owner now) = (heartbeat m job owner now).0
step m (detects job checked now) = (detect_orphan m job checked now).0
step m (releases job owner) = (release m job owner).0
step m (marks now) = (check_and_mark_expired m now).0

pub run : LeaseManager → List Call → LeaseManager
run m [] = m
run m (c ∷ cs) = run (step m c) cs

-- A call that the holder of `job` does not make, before its deadline.
abbrev pub Foreign : (job holder : String) (deadline : ℕ) → Call → Type 0
Foreign job holder deadline (acquires j owner checked now) = (owner ≢ holder) × (checked < deadline)
Foreign job holder deadline (heartbeats j owner now) = owner ≢ holder
Foreign job holder deadline (detects j checked now) = checked < deadline
Foreign job holder deadline (releases j owner) = owner ≢ holder
Foreign job holder deadline (marks now) = now < deadline

step_keeps :
    (m : LeaseManager) (job : String) (l : Lease) (c : Call)
    → get_lease m job ≡ some l
    → Foreign job l.lease_owner l.lease_expires_at c
    → get_lease (step m c) job ≡ some l
unfolding step get_lease acquire heartbeat detect_orphan release check_and_mark_expired
step_keeps m job l (acquires j owner checked now) h f = ground (
  arith,
  get-set m.leases j job (new_lease m j owner now),
  eq_iff j job,
  eq_iff l.lease_owner owner,
)
step_keeps m job l (heartbeats j owner now) h f = elim (Option-cases (get m.leases j)) [
  | inl e ↦ ground arith
  | inr (k, e) ↦
      ground
        (arith, get-set m.leases j job (renewed m k now), eq_iff j job, eq_iff k.lease_owner owner)
]
step_keeps m job l (detects j checked now) h f = elim (Option-cases (get m.leases j)) [
  | inl e ↦ ground arith
  | inr (k, e) ↦
      ground (arith, get-set m.leases j job (record k { orphaned_at = some now }), eq_iff j job)
]
step_keeps m job l (releases j owner) h f = elim (Option-cases (get m.leases j)) [
  | inl e ↦ ground arith
  | inr (k, e) ↦ ground (arith, get-delete m.leases j job, eq_iff j job, eq_iff k.lease_owner owner)
]
step_keeps m job l (marks now) h f = ground (arith, get-map_values (mark now) m.leases job)

-- Until its deadline a lease is changed by nobody but its holder, in every sequence of calls.
pub lease_exclusive :
    (m : LeaseManager) (job : String) (l : Lease) (cs : List Call)
    → get_lease m job ≡ some l
    → All (Foreign job l.lease_owner l.lease_expires_at) cs
    → get_lease (run m cs) job ≡ some l
unfolding run
lease_exclusive m job l [] h f = h
lease_exclusive m job l (c ∷ cs) h f =
    lease_exclusive (step m c) job l cs (step_keeps m job l c h f.0) f.1
