-- ===== src/Checklist.antt =====
-- src/domain/checklist/manual-checklist-service.ts. The two percentages, which round a
-- float, are left out.
pub mod Completion
mod Tests
use shipyard_cp.Base.{
  ℕ, Bool, true, false, not, ◌&&◌, Option, none, some, List, [], ◌∷◌, ◌++◌, map, String, str_eq,
  ◌==◌, if◌then◌else◌, tests, length, keep, any, includes, eqb, nat_eqb, string_eqb,
}
use shipyard_cp.Types.{RiskLevel, low, medium, high, risk_eqb}
use shipyard_cp.Task.{ManualChecklistItem}

pub record ChecklistTemplate : Type 0 where
  pub id : String
  pub description : String
  pub required : Bool
  pub applies_to : List RiskLevel
  pub triggers : List String

abbrev template :
    (id description : String) → Bool → List RiskLevel → List String → ChecklistTemplate
template id description required applies_to triggers = record {
  id = id;
  description = description;
  required = required;
  applies_to = applies_to;
  triggers = triggers;
}

abbrev every_level : List RiskLevel
every_level = low ∷ medium ∷ high ∷ []

-- DEFAULT_CHECKLIST_TEMPLATES; missing triggers are none.
abbrev pub default_checklist_templates : List ChecklistTemplate
default_checklist_templates =
    template "tests-passed" "All automated tests passed" true every_level []
    ∷ template "no-regressions" "No regressions in existing functionality" true every_level []
    ∷ template "code-compiles" "Code compiles without errors" true every_level []
    ∷ template "code-review" "Code review completed" true (medium ∷ high ∷ []) []
    ∷ template "docs-updated" "Documentation updated if applicable" false (medium ∷ high ∷ []) []
    ∷ template "security-review" "Security review completed" true (high ∷ []) []
    ∷ template "performance-check" "Performance impact assessed" true (high ∷ []) []
    ∷ template "rollback-plan" "Rollback plan documented" true (high ∷ [])
        ("rollback_notes_required" ∷ [])
    ∷ template "stakeholder-approval" "Stakeholder approval obtained" true (high ∷ [])
        ("high_risk" ∷ [])
    ∷ template "secrets-handled" "Secrets handling reviewed and approved" true every_level
        ("secrets_referenced" ∷ [])
    ∷ template "network-approved" "Network access approved" true every_level ("network_access" ∷ [])
    ∷ template "core-review" "Core area changes reviewed by senior engineer" true every_level
        ("core_area_modified" ∷ [])
    ∷ template "breaking-changes" "Breaking changes documented and communicated" true every_level
        ("breaking_change" ∷ [])
    ∷ []

-- The new Set of triggers, as a list.
abbrev pub all_triggers : RiskLevel → (additional forced : List String) → List String
all_triggers level additional forced =
    (additional ++ forced) ++ (if eqb level high then "high_risk" ∷ [] else [])

abbrev is_triggered : List String → List String → Bool
is_triggered found [] = true
is_triggered found (t ∷ ts) = any (λ x. includes found x) (t ∷ ts)

abbrev pub applies : RiskLevel → List String → ChecklistTemplate → Bool
applies level found t = includes t.applies_to level && is_triggered found t.triggers

abbrev item_of : ChecklistTemplate → ManualChecklistItem
item_of t = record {
  id = t.id;
  description = t.description;
  required = t.required;
  checked = false;
  checked_by = none;
  checked_at = none;
  notes = none;
}

-- The level and the forced_high_factors of the risk assessment are what is read of it.
unfoldable pub generate_checklist :
    List ChecklistTemplate
    → RiskLevel
    → (forced additional : List String) → List ManualChecklistItem
generate_checklist templates level forced additional =
    map item_of (keep (applies level (all_triggers level additional forced)) templates)

abbrev pub is_missing : ManualChecklistItem → Bool
is_missing item = item.required && not item.checked

pub record ChecklistValidation : Type 0 where
  pub valid : Bool
  pub missing : List String

abbrev is_empty : List String → Bool
is_empty [] = true
is_empty (x ∷ xs) = false

unfoldable pub get_unchecked_required : List ManualChecklistItem → List ManualChecklistItem
get_unchecked_required checklist = keep is_missing checklist

unfoldable pub validate_checklist : List ManualChecklistItem → ChecklistValidation
validate_checklist checklist =
    let missing = map (λ item. item.id) (keep is_missing checklist) in
    record { valid = is_empty missing; missing = missing }

abbrev pub mark_item :
    String
    → (checked_by notes : Option String) → (now : ℕ) → ManualChecklistItem
    → ManualChecklistItem
mark_item item_id checked_by notes now item =
    if str_eq item.id item_id
    then record item {
      checked = true;
      checked_by = checked_by;
      checked_at = some now;
      notes = notes;
    }
    else item

unfoldable pub check_item :
    List ManualChecklistItem
    → String
    → (checked_by notes : Option String) → (now : ℕ) → List ManualChecklistItem
check_item checklist item_id checked_by notes now =
    map (mark_item item_id checked_by notes now) checklist

abbrev unmark_item : String → ManualChecklistItem → ManualChecklistItem
unmark_item item_id item =
    if str_eq item.id item_id
    then record item { checked = false; checked_by = none; checked_at = none; notes = none }
    else item

unfoldable pub uncheck_item : List ManualChecklistItem → String → List ManualChecklistItem
uncheck_item checklist item_id = map (unmark_item item_id) checklist

-- The identifier is printed from the clock.
unfoldable pub add_custom_item :
    List ManualChecklistItem
    → (custom_id description : String) → (required : Bool) → List ManualChecklistItem
add_custom_item checklist custom_id description required =
    checklist ++ item_of (template custom_id description required [] []) ∷ []

pub record Summary : Type 0 where
  pub total : ℕ
  pub checked : ℕ
  pub required_total : ℕ
  pub required_checked : ℕ
  pub complete : Bool

unfoldable pub get_summary : List ManualChecklistItem → Summary
get_summary checklist =
    let required = keep (λ item. item.required) checklist in
    let required_checked = keep (λ item. item.checked) required in
    record {
      total = length checklist;
      checked = length (keep (λ item. item.checked) checklist);
      required_total = length required;
      required_checked = length required_checked;
      complete = length required == length required_checked;
    }
