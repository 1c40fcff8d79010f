-- ===== src/Types.antt =====
-- The enumerations of src/types/base.ts that the components share.
use shipyard_cp.Base.{ℕ, String, ◌≡◌, Eqb, Eqb_of_code, arith}

pub data RiskLevel : Type 0 where
  low medium high : RiskLevel

pub data WorkerType : Type 0 where
  codex claude_code google_antigravity : WorkerType

pub data WorkerStage : Type 0 where
  plan dev acceptance : WorkerStage

pub data FailureClass : Type 0 where
  retryable_transient retryable_capacity non_retryable_policy non_retryable_logic : FailureClass

pub data Capability : Type 0 where
  plan edit_repo run_tests needs_approval networked produces_patch produces_verdict : Capability

pub data SideEffectCategory : Type 0 where
  network_access workspace_outside_write protected_path_write : SideEffectCategory
  destructive_tool secret_access external_release : SideEffectCategory

abbrev risk_code : RiskLevel → ℕ
risk_code low = 0
risk_code medium = 1
risk_code high = 2

abbrev worker_code : WorkerType → ℕ
worker_code codex = 0
worker_code claude_code = 1
worker_code google_antigravity = 2

abbrev stage_code : WorkerStage → ℕ
stage_code WorkerStage.plan = 0
stage_code dev = 1
stage_code acceptance = 2

abbrev capability_code : Capability → ℕ
capability_code Capability.plan = 0
capability_code edit_repo = 1
capability_code run_tests = 2
capability_code needs_approval = 3
capability_code networked = 4
capability_code produces_patch = 5
capability_code produces_verdict = 6

abbrev category_code : SideEffectCategory → ℕ
category_code network_access = 0
category_code workspace_outside_write = 1
category_code protected_path_write = 2
category_code destructive_tool = 3
category_code secret_access = 4
category_code external_release = 5

pub risk_code-inj : (a b : RiskLevel) → risk_code a ≡ risk_code b → a ≡ b
risk_code-inj a b h = ground arith

pub worker_code-inj : (a b : WorkerType) → worker_code a ≡ worker_code b → a ≡ b
worker_code-inj a b h = ground arith

pub stage_code-inj : (a b : WorkerStage) → stage_code a ≡ stage_code b → a ≡ b
stage_code-inj a b h = ground arith

pub capability_code-inj : (a b : Capability) → capability_code a ≡ capability_code b → a ≡ b
capability_code-inj a b h = ground arith

pub category_code-inj : (a b : SideEffectCategory) → category_code a ≡ category_code b → a ≡ b
category_code-inj a b h = ground arith

instance abbrev pub risk_eqb : Eqb RiskLevel
risk_eqb = Eqb_of_code risk_code risk_code-inj

instance abbrev pub worker_eqb : Eqb WorkerType
worker_eqb = Eqb_of_code worker_code worker_code-inj

instance abbrev pub stage_eqb : Eqb WorkerStage
stage_eqb = Eqb_of_code stage_code stage_code-inj

instance abbrev pub capability_eqb : Eqb Capability
capability_eqb = Eqb_of_code capability_code capability_code-inj

instance abbrev pub category_eqb : Eqb SideEffectCategory
category_eqb = Eqb_of_code category_code category_code-inj

-- The literals of the source.
abbrev pub worker_name : WorkerType → String
worker_name codex = "codex"
worker_name claude_code = "claude_code"
worker_name google_antigravity = "google_antigravity"

abbrev pub stage_name : WorkerStage → String
stage_name WorkerStage.plan = "plan"
stage_name dev = "dev"
stage_name acceptance = "acceptance"

abbrev pub capability_name : Capability → String
capability_name Capability.plan = "plan"
capability_name edit_repo = "edit_repo"
capability_name run_tests = "run_tests"
capability_name needs_approval = "needs_approval"
capability_name networked = "networked"
capability_name produces_patch = "produces_patch"
capability_name produces_verdict = "produces_verdict"
