-- ===== src/Capability/Checks.antt =====
-- The checks and the search for capable workers (capability-manager.ts).
use shipyard_cp.Base.{
  ◌+◌, ◌≡◌, refl, false, List, [], ◌∷◌, String, arith, includes, length, eq_iff, value_or, sym, ◌∙◌,
  string_eqb,
}
use shipyard_cp.JsMap.{get, UniqueKeys}
use shipyard_cp.Types.{Capability, capability_eqb}
use shipyard_cp.Capability.{
  CapabilityManager, CapabilityCheckOptions, check_capabilities, present_of, missing_of, is_empty,
  has_all, get_all_required_capabilities, get_worker_capabilities,
  can_worker_handle_stage_with_options, capable_of, find_capable_workers_with_options,
}

missing_all :
    (required available : List Capability)
    → is_empty (missing_of required available) ≡ has_all required available
missing_all [] available = refl
missing_all (c ∷ cs) available = ground (arith, missing_all cs available)

length-split :
    (required available : List Capability)
    → length (present_of required available) + length (missing_of required available)
      ≡ length required
length-split [] available = refl
length-split (c ∷ cs) available = ground (arith, length-split cs available)

-- The check splits the required list into what is present and what is missing, and passes exactly
-- when the worker has every required capability.
pub check_splits :
    (required available : List Capability)
    → let r = check_capabilities required available in
      (length r.present + length r.missing ≡ length required)
      × (r.passed ≡ has_all required available)
unfolding check_capabilities
check_splits required available = (length-split required available, missing_all required available)

-- A list of required capabilities that asks for nothing does not occur.
abbrev Asks : List Capability → Type 0
Asks required = (caps : List Capability) → caps ≡ [] → has_all required caps ≡ false

capable_of_iff :
    (required : List Capability) (m : CapabilityManager) (w : String)
    → has_all required [] ≡ false
    → UniqueKeys m
    → includes (capable_of required m) w ≡ has_all required (value_or (get m w) [])
unfolding get
capable_of_iff required [] w ne u = cc
capable_of_iff required ((v, caps) ∷ m) w ne u =
    ground (arith, eq_iff v w, capable_of_iff required m w ne u.1)

all_asks : (o : CapabilityCheckOptions) → has_all (get_all_required_capabilities o) [] ≡ false
unfolding get_all_required_capabilities
all_asks o = ground arith

-- The search with options finds a worker exactly when the check with the same options passes for
-- it, in a registry that holds each worker once.
pub find_capable_iff :
    (m : CapabilityManager) (o : CapabilityCheckOptions) (w : String)
    → UniqueKeys m
    → includes (find_capable_workers_with_options m o) w
      ≡ (can_worker_handle_stage_with_options m w o).passed
unfolding find_capable_workers_with_options can_worker_handle_stage_with_options
    get_worker_capabilities
find_capable_iff m o w u =
    capable_of_iff (get_all_required_capabilities o) m w (all_asks o) u
    ∙ sym (check_splits (get_all_required_capabilities o) (value_or (get m w) [])).1
