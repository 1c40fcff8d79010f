-- ===== src/Checklist/Tests.antt =====
-- The checklist of a task of high risk (manual-checklist-service.ts).
use shipyard_cp.Base.{◌≡◌, refl, true, none, List, [], ◌∷◌, map, nat_eqb, string_eqb}
use shipyard_cp.Types.{high}
use shipyard_cp.Task.{ManualChecklistItem}
use shipyard_cp.Checklist.{default_checklist_templates, generate_checklist, validate_checklist}
use shipyard_cp.Checklist.Completion.{check_all, check_missing_valid}

abbrev items : List ManualChecklistItem
unfolding generate_checklist
items = generate_checklist default_checklist_templates high ("breaking_change" ∷ []) []

items_made :
    map (λ i. i.id) items
    ≡ "tests-passed" ∷ "no-regressions" ∷ "code-compiles" ∷ "code-review" ∷ "docs-updated"
      ∷ "security-review" ∷ "performance-check" ∷ "stakeholder-approval" ∷ "breaking-changes" ∷ []
unfolding generate_checklist
items_made = refl

check_missing_valid_example :
    (validate_checklist (check_all items (validate_checklist items).missing none 5)).valid ≡ true
check_missing_valid_example = check_missing_valid items none 5
