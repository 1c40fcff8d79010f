-- ===== src/Capability/Tests.antt =====
-- The capability checks at concrete workers (capability-manager.ts).
use shipyard_cp.Base.{refl, true, false, [], ◌∷◌, nat_eqb, string_eqb}
use shipyard_cp.JsMap.{get, UniqueKeys}
use shipyard_cp.Types.{dev, capability_eqb, edit_repo, run_tests, networked}
use shipyard_cp.Capability.{CapabilityManager, CapabilityCheckOptions}

abbrev workers : CapabilityManager
workers = ("a", edit_repo ∷ run_tests ∷ []) ∷ ("b", edit_repo ∷ run_tests ∷ networked ∷ []) ∷ []

abbrev on_network : CapabilityCheckOptions
on_network = record {
  stage = dev;
  requires_network = true;
  under_approval_flow = false;
  produces_patch_artifact = false;
}

workers-UniqueKeys : UniqueKeys workers
unfolding get
workers-UniqueKeys = (refl, (refl, tt))
