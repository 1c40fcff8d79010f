-- ===== src/Lease/Orphans.antt =====
-- Expired leases and their marks (lease-manager.ts).
use shipyard_cp.Base.{
  ℕ, ◌≤◌, ◌≡◌, refl, ap, inl, inr, true, false, none, some, [], ◌∷◌, map, String, eq_refl, arith,
  Option-cases, is_some, keep, nat_eqb, string_eqb,
}
use shipyard_cp.JsMap.{JsMap, get, values, map_values, get-set, get-delete}
use shipyard_cp.Lease.{
  LeaseManager, Lease, heartbeat, is_expired, detect_orphan, release, get_lease, get_expired_leases,
  newly_expired, mark, check_and_mark_expired,
}

mark_clears :
    (now : ℕ) (later : ℕ) (l : Lease) → later ≤ now → newly_expired later (mark now l) ≡ false
mark_clears now later l h = ground arith

swept :
    (m : JsMap Lease) (now later : ℕ)
    → later ≤ now
    → keep (newly_expired later) (values (map_values (mark now) m)) ≡ []
unfolding map_values
swept [] now later h = refl
swept ((k, l) ∷ m) now later h = rw (mark_clears now later l h) (swept m now later h)

-- A sweep leaves nothing to mark: until time moves on, no lease is expired and unmarked, and a
-- second sweep returns nothing.
pub sweep_complete :
    (m : LeaseManager) (now later : ℕ)
    → later ≤ now
    → let s = (check_and_mark_expired m now).0 in
      (get_expired_leases s later ≡ []) × ((check_and_mark_expired s later).1 ≡ [])
unfolding check_and_mark_expired get_expired_leases
sweep_complete m now later h =
    (swept m.leases now later h, ap (map (mark later)) (swept m.leases now later h))

detected :
    (m : LeaseManager) (job : String) (checked now : ℕ) (l : Lease)
    → (detect_orphan m job checked now).1 ≡ some l
    → (get_lease (detect_orphan m job checked now).0 job ≡ some l) × (is_some l.orphaned_at ≡ true)
unfolding detect_orphan get_lease
detected m job checked now l h = elim (Option-cases (get m.leases job)) [
  | inl e ↦ ground arith
  | inr (k, e) ↦
      ground (arith, get-set m.leases job job (record k { orphaned_at = some now }), eq_refl job)
]

orphan_stays :
    (s : LeaseManager) (job owner : String) (later : ℕ) (l : Lease)
    → get_lease s job ≡ some l
    → is_some l.orphaned_at ≡ true
    → heartbeat s job owner later ≡ (s, none)
unfolding heartbeat get_lease
orphan_stays s job owner later l g o = ground arith

release_clears :
    (s : LeaseManager) (job : String) (later : ℕ) (l : Lease)
    → get_lease s job ≡ some l
    → ((release s job l.lease_owner).1 ≡ true)
      × (is_expired (release s job l.lease_owner).0 job later ≡ true)
unfolding release is_expired get_lease
release_clears s job later l g =
    ground (arith, eq_refl l.lease_owner, eq_refl job, get-delete s.leases job job)

-- Once detectOrphan has returned a lease, it is marked and no heartbeat revives it; the release of
-- its owner does clear it, and the job then counts as expired.
pub orphan_final :
    (m : LeaseManager) (job owner : String) (checked now later : ℕ) (l : Lease)
    → (detect_orphan m job checked now).1 ≡ some l
    → let s = (detect_orphan m job checked now).0 in
      (get_lease s job ≡ some l)
      × (is_some l.orphaned_at ≡ true)
      × (heartbeat s job owner later ≡ (s, none))
      × ((release s job l.lease_owner).1 ≡ true)
      × (is_expired (release s job l.lease_owner).0 job later ≡ true)
orphan_final m job owner checked now later l h =
    let d = detected m job checked now l h in
    let s = (detect_orphan m job checked now).0 in
    let r = release_clears s job later l d.0 in
    (d.0, d.1, orphan_stays s job owner later l d.0 d.1, r.0, r.1)
