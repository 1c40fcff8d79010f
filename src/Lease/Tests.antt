-- ===== src/Lease/Tests.antt =====
-- Leases at concrete times (lease-manager.ts).
use shipyard_cp.Base.{
  ◌≡◌, refl, true, none, some, List, [], ◌∷◌, arith, is_some, nat_eqb, string_eqb, str_ne,
}
use shipyard_cp.JsMap.{get}
use shipyard_cp.Lease.{
  LeaseManager, Lease, default_lease_config, acquire, heartbeat, is_expired, detect_orphan, release,
  get_lease,
}
use shipyard_cp.Lease.Exclusion.{
  Call, acquires, heartbeats, detects, releases, marks, run, lease_exclusive,
}
use shipyard_cp.Lease.Orphans.{orphan_final}

abbrev held : Lease
held = record {
  job_id = "j";
  lease_owner = "w";
  lease_expires_at = 300000;
  last_heartbeat_at = some 0;
  acquired_at = 0;
  orphaned_at = none;
  recovery_action = none;
}

abbrev leased : LeaseManager
leased = record { config = default_lease_config; leases = ("j", held) ∷ [] }

second_owner_refused : acquire leased "j" "v" 299999 299999 ≡ (leased, none)
unfolding acquire get
second_owner_refused = refl

extended :
    (heartbeat leased "j" "w" 1000).1
    ≡ some (record {
      lease_expires_at = 301000;
      next_heartbeat_due_at = 61000;
      last_heartbeat_at = 1000;
    })
unfolding heartbeat get
extended = refl

abbrev others : List Call
others =
    acquires "j" "v" 5 6
    ∷ heartbeats "j" "v" 9
    ∷ detects "j" 10 11
    ∷ releases "j" "v"
    ∷ marks 12
    ∷ []

lease_exclusive_example : get_lease (run leased others) "j" ≡ some held
unfolding get_lease get
lease_exclusive_example =
    lease_exclusive leased "j" held others refl
      ((str_ne refl, omega arith), (str_ne refl, (omega arith, (str_ne refl, (omega arith, tt)))))

abbrev orphan : Lease
orphan = record held { orphaned_at = some 300001 }

orphan_final_example :
    let s = (detect_orphan leased "j" 300000 300001).0 in
    (get_lease s "j" ≡ some orphan)
    × (is_some orphan.orphaned_at ≡ true)
    × (heartbeat s "j" "w" 300002 ≡ (s, none))
    × ((release s "j" "w").1 ≡ true)
    × (is_expired (release s "j" "w").0 "j" 300002 ≡ true)
unfolding detect_orphan get
orphan_final_example = orphan_final leased "j" "w" 300000 300001 300002 orphan refl
