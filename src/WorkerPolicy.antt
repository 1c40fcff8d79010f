-- ===== src/WorkerPolicy.antt =====
-- src/domain/worker/worker-policy.ts: default workers, approval policies and failover.
pub mod Choices
mod Tests
use shipyard_cp.Base.{
  ℕ, suc, ◌≡◌, Bool, true, false, ◌||◌, List, [], ◌∷◌, Option, none, some, Eqb, arith, includes,
  index_of, if◌then◌else◌, String,
}
use shipyard_cp.Types.{
  WorkerStage, dev, acceptance, WorkerType, codex, claude_code, google_antigravity, RiskLevel, high,
  Capability, edit_repo, run_tests, needs_approval, networked, produces_patch, produces_verdict,
  SideEffectCategory, network_access, worker_eqb, risk_eqb,
}

pub data ApprovalMode : Type 0 where
  deny ask allow : ApprovalMode

pub data SandboxProfile : Type 0 where
  read_only workspace_write : SandboxProfile

pub record ApprovalPolicy : Type 0 where
  pub mode : ApprovalMode
  pub sandbox_profile : SandboxProfile
  pub operator_approval_required : Bool
  pub allowed_side_effect_categories : Option (List SideEffectCategory)

pub data RequestedOutput : Type 0 where
  patch branch tests verdict artifacts plan_notes resolver_refs : RequestedOutput

-- DEFAULT_WORKERS[stage]
unfoldable pub get_default_worker : WorkerStage → WorkerType
get_default_worker WorkerStage.plan = codex
get_default_worker dev = codex
get_default_worker acceptance = claude_code

-- FAILOVER_ORDER[stage]
abbrev failover_order : WorkerStage → Option (List WorkerType)
failover_order WorkerStage.plan = some (codex ∷ claude_code ∷ google_antigravity ∷ [])
failover_order dev = none
failover_order acceptance = none

-- The last two returns of buildApprovalPolicy.
abbrev write_policy : RiskLevel → ApprovalPolicy
write_policy high = record {
  mode = ask;
  sandbox_profile = workspace_write;
  operator_approval_required = true;
  allowed_side_effect_categories = some (network_access ∷ []);
}
write_policy _ = record {
  mode = ask;
  sandbox_profile = workspace_write;
  operator_approval_required = false;
  allowed_side_effect_categories = none;
}

unfoldable pub build_approval_policy : WorkerStage → RiskLevel → ApprovalPolicy
build_approval_policy WorkerStage.plan risk = record {
  mode = deny;
  sandbox_profile = read_only;
  operator_approval_required = false;
  allowed_side_effect_categories = none;
}
build_approval_policy _ risk = write_policy risk

-- STAGE_CAPABILITY_REQUIREMENTS[stage]
unfoldable pub get_capability_requirements : WorkerStage → List Capability
get_capability_requirements WorkerStage.plan = Capability.plan ∷ []
get_capability_requirements dev = edit_repo ∷ run_tests ∷ []
get_capability_requirements acceptance = produces_verdict ∷ []

unfoldable pub get_requested_outputs : WorkerStage → List RequestedOutput
get_requested_outputs WorkerStage.plan = plan_notes ∷ artifacts ∷ []
get_requested_outputs dev = patch ∷ tests ∷ artifacts ∷ []
get_requested_outputs acceptance = verdict ∷ tests ∷ artifacts ∷ []

unfoldable pub can_failover : WorkerStage → Bool
can_failover stage = elim (failover_order stage) [ none ↦ false | some order ↦ true ]

-- order[i]
abbrev nth : List WorkerType → ℕ → Option WorkerType
nth [] i = none
nth (w ∷ ws) ℕ.zero = some w
nth (w ∷ ws) (suc i) = nth ws i

-- An index that is missing or the last gives null, as reading past the end does here.
abbrev next_in : List WorkerType → WorkerType → Option WorkerType
next_in order current_worker = elim (index_of order current_worker) [
  | none ↦ none
  | some i ↦ nth order (suc i)
]

unfoldable pub get_failover_worker : WorkerStage → WorkerType → Option WorkerType
get_failover_worker stage current_worker = elim (failover_order stage) [
  | none ↦ none
  | some order ↦ next_in order current_worker
]

-- DEFAULT_WORKER_CAPABILITIES[worker] of src/store/utils.ts
unfoldable pub default_worker_capabilities : WorkerType → List Capability
default_worker_capabilities codex =
    Capability.plan ∷ edit_repo ∷ run_tests ∷ produces_patch ∷ produces_verdict ∷ []
default_worker_capabilities claude_code =
    Capability.plan ∷ edit_repo ∷ run_tests ∷ needs_approval ∷ produces_patch ∷ produces_verdict
    ∷ networked ∷ []
default_worker_capabilities google_antigravity = Capability.plan ∷ produces_verdict ∷ []
