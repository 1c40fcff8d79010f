-- ===== src/SideEffect.antt =====
-- src/domain/side-effect/side-effect-analyzer.ts
pub mod Impact
mod Tests
use shipyard_cp.Base.{
  ℕ, ◌≡◌, Bool, true, false, ◌||◌, ◌&&◌, not, List, [], ◌∷◌, ◌++◌, Option, none, some, Eqb,
  Eqb_of_code, arith, includes, any, all, if◌then◌else◌, String,
}
use shipyard_cp.Types.{
  SideEffectCategory, external_release, category_eqb, RiskLevel, low, medium, high,
}

pub data EscalationKind : Type 0 where
  network_access workspace_outside_write protected_path_write destructive_tool : EscalationKind
  secret_access human_verdict : EscalationKind

abbrev escalation_code : EscalationKind → ℕ
escalation_code network_access = 0
escalation_code workspace_outside_write = 1
escalation_code protected_path_write = 2
escalation_code destructive_tool = 3
escalation_code secret_access = 4
escalation_code human_verdict = 5

pub escalation_code-inj : (a b : EscalationKind) → escalation_code a ≡ escalation_code b → a ≡ b
escalation_code-inj a b h = ground arith

instance abbrev pub escalation_eqb : Eqb EscalationKind
escalation_eqb = Eqb_of_code escalation_code escalation_code-inj

pub data PublishTarget : Type 0 where
  deployment release package_publish external_api : PublishTarget

-- requested_outputs is read by no method.
pub record SideEffectInput : Type 0 where
  pub escalation_requests : List EscalationKind
  pub publish_targets : Option (List PublishTarget)

pub record SideEffectResult : Type 0 where
  pub categories : List SideEffectCategory
  pub requires_approval : Bool
  pub risk_impact : RiskLevel

-- APPROVAL_REQUIRED_CATEGORIES
abbrev pub approval_required_categories : List SideEffectCategory
approval_required_categories =
    SideEffectCategory.network_access ∷ SideEffectCategory.workspace_outside_write
    ∷ SideEffectCategory.protected_path_write ∷ SideEffectCategory.destructive_tool
    ∷ SideEffectCategory.secret_access ∷ external_release ∷ []

-- HIGH_RISK_CATEGORIES
abbrev pub high_risk_categories : List SideEffectCategory
high_risk_categories =
    SideEffectCategory.secret_access ∷ SideEffectCategory.destructive_tool
    ∷ SideEffectCategory.protected_path_write ∷ []

-- MEDIUM_RISK_CATEGORIES
abbrev pub medium_risk_categories : List SideEffectCategory
medium_risk_categories =
    SideEffectCategory.network_access ∷ SideEffectCategory.workspace_outside_write
    ∷ external_release ∷ []

-- `escalation as SideEffectCategory`, where it is not human_verdict
abbrev pub category_of : EscalationKind → Option SideEffectCategory
category_of EscalationKind.network_access = some SideEffectCategory.network_access
category_of EscalationKind.workspace_outside_write = some SideEffectCategory.workspace_outside_write
category_of EscalationKind.protected_path_write = some SideEffectCategory.protected_path_write
category_of EscalationKind.destructive_tool = some SideEffectCategory.destructive_tool
category_of EscalationKind.secret_access = some SideEffectCategory.secret_access
category_of human_verdict = none

-- The loop over escalation_requests.
abbrev pub escalated : List EscalationKind → List SideEffectCategory
escalated [] = []
escalated (k ∷ ks) =
    let rest = escalated ks in elim (category_of k) [ none ↦ rest | some c ↦ c ∷ rest ]

abbrev is_external_api : PublishTarget → Bool
is_external_api external_api = true
is_external_api _ = false

-- publish_targets?.includes('external_api')
abbrev pub targets_external : Option (List PublishTarget) → Bool
targets_external none = false
targets_external (some ts) = any is_external_api ts

abbrev has_none : List SideEffectCategory → Bool
has_none [] = true
has_none (c ∷ cs) = false

unfoldable pub determine_risk_impact : List SideEffectCategory → RiskLevel
determine_risk_impact categories =
    if has_none categories
    then low
    else if any (includes high_risk_categories) categories
    then high
    else if any (includes medium_risk_categories) categories
    then medium
    else low

-- The categories, with external_release added once.
abbrev pub categories_of : SideEffectInput → List SideEffectCategory
categories_of input =
    let found = escalated input.escalation_requests in
    if targets_external input.publish_targets && not (includes found external_release)
    then found ++ external_release ∷ []
    else found

unfoldable pub analyze_side_effects : SideEffectInput → SideEffectResult
unfolding determine_risk_impact
analyze_side_effects input =
    let categories = categories_of input in
    record {
      categories = categories;
      requires_approval = any (includes approval_required_categories) categories;
      risk_impact = determine_risk_impact categories;
    }

unfoldable pub is_allowed : List SideEffectCategory → List SideEffectCategory → Bool
is_allowed categories allowed_categories =
    if has_none categories then true else all (includes allowed_categories) categories
