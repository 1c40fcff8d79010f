-- ===== src/Checklist/Completion.antt =====
-- Completing a checklist (manual-checklist-service.ts).
use shipyard_cp.Base.{
  ℕ, ◌≤◌, ◌≡◌, refl, Bool, true, false, Option, none, List, [], ◌∷◌, map, String, eq_iff, eq_refl,
  arith, if◌then◌else◌, length, keep, length-keep-le, includes, nat_eqb, string_eqb,
}
use shipyard_cp.Task.{ManualChecklistItem}
use shipyard_cp.Checklist.{is_missing, validate_checklist, check_item, get_summary}

-- Checking the items of a list of identifiers, one after the other.
abbrev pub check_all :
    List ManualChecklistItem → List String → Option String → (now : ℕ) → List ManualChecklistItem
check_all checklist [] checked_by now = checklist
check_all checklist (id ∷ ids) checked_by now =
    check_all (check_item checklist id checked_by none now) ids checked_by now

-- Each item that is missing has its identifier in the list.
abbrev Covered : List String → List ManualChecklistItem → Type 0
Covered ids [] = Unit
Covered ids (item ∷ items) =
    (is_missing item ≡ true → includes ids item.id ≡ true) × Covered ids items

Covered-check :
    (id : String) (ids : List String) (items : List ManualChecklistItem) (by : Option String)
    (now : ℕ)
    → Covered (id ∷ ids) items
    → Covered ids (check_item items id by none now)
unfolding check_item
Covered-check id ids [] by now c = tt
Covered-check id ids (item ∷ items) by now c = (
  ground (arith, c.0, eq_iff item.id id, eq_iff id item.id),
  Covered-check id ids items by now c.1,
)

Covered-valid :
    (items : List ManualChecklistItem) → Covered [] items → (validate_checklist items).valid ≡ true
unfolding validate_checklist
Covered-valid [] c = refl
Covered-valid (item ∷ items) c = ground (arith, c.0, Covered-valid items c.1)

all-Covered :
    (ids : List String) (items : List ManualChecklistItem) (by : Option String) (now : ℕ)
    → Covered ids items
    → (validate_checklist (check_all items ids by now)).valid ≡ true
all-Covered [] items by now c = Covered-valid items c
all-Covered (id ∷ ids) items by now c =
    all-Covered ids (check_item items id by none now) by now (Covered-check id ids items by now c)

Covered-more :
    (id : String) (ids : List String) (items : List ManualChecklistItem)
    → Covered ids items
    → Covered (id ∷ ids) items
Covered-more id ids [] c = tt
Covered-more id ids (item ∷ items) c = (ground (arith, c.0), Covered-more id ids items c.1)

cons-Covered :
    (b : Bool) (item : ManualChecklistItem) (items missing : List ManualChecklistItem)
    → is_missing item ≡ b
    → Covered (map (λ j. j.id) missing) items
    → Covered (map (λ j. j.id) (if b then item ∷ missing else missing)) (item ∷ items)
cons-Covered true item items missing e c =
    ((λ h. rw (eq_refl item.id) refl), Covered-more item.id (map (λ j. j.id) missing) items c)
cons-Covered false item items missing e c = ((λ h. cc), c)

missing-Covered :
    (items : List ManualChecklistItem) → Covered (validate_checklist items).missing items
unfolding validate_checklist
missing-Covered [] = tt
missing-Covered (item ∷ items) =
    cons-Covered (is_missing item) item items (keep is_missing items) refl (missing-Covered items)

-- Checking the items that a validation names as missing makes the checklist valid.
pub check_missing_valid :
    (items : List ManualChecklistItem) (by : Option String) (now : ℕ)
    → (validate_checklist (check_all items (validate_checklist items).missing by now)).valid ≡ true
check_missing_valid items by now =
    all-Covered (validate_checklist items).missing items by now (missing-Covered items)

checked_le :
    (items : List ManualChecklistItem)
    → length (keep (λ item. item.checked) (keep (λ item. item.required) items))
      ≤ length (keep (λ item. item.required) items)
checked_le items = length-keep-le (λ item. item.checked) (keep (λ item. item.required) items)

-- The summary calls a checklist complete exactly if the validation calls it valid.
pub summary_agrees :
    (items : List ManualChecklistItem)
    → (get_summary items).complete ≡ (validate_checklist items).valid
unfolding get_summary validate_checklist
summary_agrees [] = refl
summary_agrees (item ∷ items) = ground (arith, checked_le items, summary_agrees items)
