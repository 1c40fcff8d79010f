-- ===== src/Capability.antt =====
-- src/domain/capability: which workers may be given a stage.
pub mod Checks
mod Tests
use shipyard_cp.Base.{
  ◌≡◌, Bool, true, false, ◌||◌, List, [], ◌∷◌, ◌++◌, String, Eqb, string_eqb, arith, includes, all,
  value_or, if◌then◌else◌, length, ◌==◌,
}
use shipyard_cp.JsMap.{JsMap, get, set}
use shipyard_cp.Types.{
  WorkerStage, dev, acceptance, Capability, edit_repo, run_tests, needs_approval, networked,
  produces_patch, produces_verdict, capability_eqb, capability_name,
}

-- CapabilityManager, by its field workerCapabilities.
abbrev pub CapabilityManager : Type 0
CapabilityManager = JsMap (List Capability)

pub record CapabilityCheckResult : Type 0 where
  pub required : List Capability
  pub present : List Capability
  pub missing : List Capability
  pub passed : Bool

-- CapabilityCheckOptions without worker_capabilities, which no method reads; a flag that is left
-- out counts as false.
pub record CapabilityCheckOptions : Type 0 where
  pub stage : WorkerStage
  pub requires_network : Bool
  pub under_approval_flow : Bool
  pub produces_patch_artifact : Bool

pub record ValidateCapabilitiesResult : Type 0 where
  pub valid : Bool
  pub missing : List String

abbrev is_empty : List Capability → Bool
is_empty [] = true
is_empty (c ∷ cs) = false

-- The loop of checkCapabilities: the required capabilities, split in two in their order.
abbrev present_of : List Capability → List Capability → List Capability
present_of [] available = []
present_of (c ∷ cs) available =
    let rest = present_of cs available in if includes available c then c ∷ rest else rest

abbrev missing_of : List Capability → List Capability → List Capability
missing_of [] available = []
missing_of (c ∷ cs) available =
    let rest = missing_of cs available in if includes available c then rest else c ∷ rest

unfoldable pub check_capabilities : List Capability → List Capability → CapabilityCheckResult
check_capabilities required available =
    let missing = missing_of required available in
    record {
      required = required;
      present = present_of required available;
      missing = missing;
      passed = is_empty missing;
    }

-- STAGE_CAPABILITIES[stage]
unfoldable pub get_required_capabilities_for_stage : WorkerStage → List Capability
get_required_capabilities_for_stage WorkerStage.plan = Capability.plan ∷ []
get_required_capabilities_for_stage dev = edit_repo ∷ run_tests ∷ []
get_required_capabilities_for_stage acceptance = produces_verdict ∷ []

abbrev when : Bool → Capability → List Capability
when true c = c ∷ []
when false c = []

-- `additional`
abbrev additional : CapabilityCheckOptions → List Capability
additional o =
    when o.requires_network networked
    ++ (when o.under_approval_flow needs_approval ++ when o.produces_patch_artifact produces_patch)

unfoldable pub get_all_required_capabilities : CapabilityCheckOptions → List Capability
unfolding get_required_capabilities_for_stage
get_all_required_capabilities o = get_required_capabilities_for_stage o.stage ++ additional o

-- The loop of validateCapabilities, whose worker names its capabilities by strings.
abbrev missing_names : List Capability → List String → List String
missing_names [] worker_capabilities = []
missing_names (c ∷ cs) worker_capabilities =
    let rest = missing_names cs worker_capabilities in
    if includes worker_capabilities (capability_name c) then rest else capability_name c ∷ rest

abbrev no_names : List String → Bool
no_names [] = true
no_names (c ∷ cs) = false

unfoldable pub validate_capabilities : WorkerStage → List String → ValidateCapabilitiesResult
unfolding get_required_capabilities_for_stage
validate_capabilities stage worker_capabilities =
    let missing = missing_names (get_required_capabilities_for_stage stage) worker_capabilities in
    record { valid = no_names missing; missing = missing }

unfoldable pub register_worker_capabilities :
    CapabilityManager → String → List Capability → CapabilityManager
unfolding set
register_worker_capabilities m worker_id capabilities = set m worker_id capabilities

unfoldable pub get_worker_capabilities : CapabilityManager → String → List Capability
unfolding get
get_worker_capabilities m worker_id = value_or (get m worker_id) []

-- required.every(cap => caps.includes(cap))
abbrev pub has_all : List Capability → List Capability → Bool
has_all required caps = all (λ c. includes caps c) required

unfoldable pub can_worker_handle_stage : CapabilityManager → String → WorkerStage → Bool
unfolding get_worker_capabilities get_required_capabilities_for_stage
can_worker_handle_stage m worker_id stage =
    has_all (get_required_capabilities_for_stage stage) (get_worker_capabilities m worker_id)

unfoldable pub can_worker_handle_stage_with_options :
    CapabilityManager → String → CapabilityCheckOptions → CapabilityCheckResult
unfolding get_worker_capabilities get_all_required_capabilities check_capabilities
can_worker_handle_stage_with_options m worker_id o =
    check_capabilities (get_all_required_capabilities o) (get_worker_capabilities m worker_id)

-- The loop of both searches: the workers, in the order of registration, that have all of it.
abbrev capable_of : List Capability → CapabilityManager → List String
capable_of required [] = []
capable_of required ((worker_id, caps) ∷ m) =
    let rest = capable_of required m in if has_all required caps then worker_id ∷ rest else rest

unfoldable pub find_capable_workers : CapabilityManager → WorkerStage → List String
unfolding get_required_capabilities_for_stage
find_capable_workers m stage = capable_of (get_required_capabilities_for_stage stage) m

unfoldable pub find_capable_workers_with_options :
    CapabilityManager → CapabilityCheckOptions → List String
unfolding get_all_required_capabilities
find_capable_workers_with_options m o = capable_of (get_all_required_capabilities o) m
