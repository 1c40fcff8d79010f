-- ===== src/Risk.antt =====
-- src/domain/risk: risk-assessor.ts and risk-integration-service.ts. Of a result, the model has the
-- number of files in its patch, its escalations and its tests; counting the files is a match of the
-- patch's text that is left out.
pub mod Forced
pub mod Kinds
pub mod Levels
mod Tests
use shipyard_cp.Base.{
  ℕ, Bool, true, false, not, ◌&&◌, ◌||◌, Option, none, some, List, [], ◌∷◌, ◌++◌, map, String, leb,
  ◌==◌, if◌then◌else◌, tests, value_or, keep, any, all, find, eqb, nat_eqb, string_eqb,
}
use shipyard_cp.Text.{codes, contains}
use shipyard_cp.Types.{RiskLevel, low, medium, high, risk_eqb}

pub data EscalationKind : Type 0 where
  network_access workspace_outside_write protected_path_write destructive_tool : EscalationKind
  secret_access human_verdict : EscalationKind

abbrev pub escalation_code : EscalationKind → ℕ
escalation_code network_access = 0
escalation_code workspace_outside_write = 1
escalation_code protected_path_write = 2
escalation_code destructive_tool = 3
escalation_code secret_access = 4
escalation_code human_verdict = 5

abbrev pub same_kind : EscalationKind → EscalationKind → Bool
same_kind a b = escalation_code a == escalation_code b

-- A reason of either level.
pub data RiskReason : Type 0 where
  secrets_referenced network_access destructive_tool protected_path_write : RiskReason
  core_area_modified no_test_coverage escalation_requested large_change_scope : RiskReason
  config_modified dependencies_changed moderate_change_scope : RiskReason

abbrev reason_code : RiskReason → ℕ
reason_code secrets_referenced = 0
reason_code RiskReason.network_access = 1
reason_code RiskReason.destructive_tool = 2
reason_code RiskReason.protected_path_write = 3
reason_code core_area_modified = 4
reason_code no_test_coverage = 5
reason_code escalation_requested = 6
reason_code large_change_scope = 7
reason_code config_modified = 8
reason_code dependencies_changed = 9
reason_code moderate_change_scope = 10

abbrev pub has_reason : List RiskReason → RiskReason → Bool
has_reason reasons r = any (λ x. reason_code x == reason_code r) reasons

pub data FactorValue : Type 0 where
  flag : Bool → FactorValue
  count : ℕ → FactorValue
  areas : List String → FactorValue
  kinds : List EscalationKind → FactorValue

pub data FactorKind : Type 0 where
  file_count test_coverage secrets_referenced network_access destructive_tool : FactorKind
  protected_path_write core_area_modified modified_areas config_modified : FactorKind
  dependencies_changed escalation_requested regression_test_passed : FactorKind

pub record RiskFactor : Type 0 where
  pub kind : FactorKind
  pub value : FactorValue

pub record RiskAssessment : Type 0 where
  pub level : RiskLevel
  pub reasons : List RiskReason

-- CORE_AREAS
abbrev pub core_areas : List String
core_areas =
    "src/auth/" ∷ "src/authentication/" ∷ "src/payment/" ∷ "src/payments/" ∷ "src/security/"
    ∷ "src/iam/" ∷ "src/identity/" ∷ "src/crypto/" ∷ "src/secrets/" ∷ []

abbrev pub is_true : FactorValue → Bool
is_true (flag b) = b
is_true _ = false

abbrev is_false : FactorValue → Bool
is_false (flag b) = not b
is_false _ = false

abbrev pub text_includes : String → String → Bool
text_includes s p = contains (codes s) (codes p)

abbrev is_core : String → Bool
is_core area = any (λ core. text_includes area core || text_includes core area) core_areas

abbrev has_core : FactorValue → Bool
has_core (areas names) = any is_core names
has_core _ = false

abbrev pub is_high_kind : EscalationKind → Bool
is_high_kind network_access = true
is_high_kind secret_access = true
is_high_kind destructive_tool = true
is_high_kind protected_path_write = true
is_high_kind _ = false

abbrev pub has_high_kind : FactorValue → Bool
has_high_kind (kinds ks) = any is_high_kind ks
has_high_kind _ = false

abbrev pub is_regression : FactorKind → FactorValue → Bool
is_regression regression_test_passed v = is_true v
is_regression _ v = false

abbrev pub has_regression : List RiskFactor → Bool
has_regression factors = any (λ f. is_regression f.kind f.value) factors

-- The reason that a factor forces, as checkForcedHigh pushes it.
abbrev pub forced_by :
    (all_factors : List RiskFactor) → FactorKind → FactorValue → Option RiskReason
forced_by fs secrets_referenced v = if is_true v then some RiskReason.secrets_referenced else none
forced_by fs FactorKind.network_access v =
    if is_true v then some RiskReason.network_access else none
forced_by fs FactorKind.destructive_tool v =
    if is_true v then some RiskReason.destructive_tool else none
forced_by fs FactorKind.protected_path_write v =
    if is_true v then some RiskReason.protected_path_write else none
forced_by fs core_area_modified v = if is_true v then some RiskReason.core_area_modified else none
forced_by fs modified_areas v = if has_core v then some RiskReason.core_area_modified else none
forced_by fs test_coverage v =
    if is_false v && not (has_regression fs) then some no_test_coverage else none
forced_by fs escalation_requested v =
    if has_high_kind v then some RiskReason.escalation_requested else none
forced_by fs _ v = none

abbrev pub add_reason : Option RiskReason → List RiskReason → List RiskReason
add_reason none reasons = reasons
add_reason (some r) reasons = r ∷ reasons

unfoldable pub forced_reasons : (all_factors factors : List RiskFactor) → List RiskReason
forced_reasons fs [] = []
forced_reasons fs (f ∷ rest) = add_reason (forced_by fs f.kind f.value) (forced_reasons fs rest)

abbrev new_reason : List RiskReason → RiskReason → List RiskReason
new_reason reasons r = if has_reason reasons r then reasons else reasons ++ r ∷ []

-- checkMediumRisk
abbrev pub medium_by : FactorKind → FactorValue → List RiskReason → List RiskReason
medium_by FactorKind.config_modified v reasons =
    if is_true v then new_reason reasons RiskReason.config_modified else reasons
medium_by FactorKind.dependencies_changed v reasons =
    if is_true v then new_reason reasons RiskReason.dependencies_changed else reasons
medium_by _ v reasons = reasons

unfoldable pub medium_reasons : List RiskFactor → List RiskReason → List RiskReason
medium_reasons [] reasons = reasons
medium_reasons (f ∷ factors) reasons = medium_reasons factors (medium_by f.kind f.value reasons)

abbrev pub is_file_count : FactorKind → Bool
is_file_count file_count = true
is_file_count _ = false

abbrev pub count_in : FactorValue → ℕ
count_in (count n) = n
count_in _ = 1

-- The first file count, if it is a number, else 1.
abbrev pub file_count_of : List RiskFactor → ℕ
file_count_of factors = elim (find (λ f. is_file_count f.kind) factors) [
  | none ↦ 1
  | some f ↦ count_in f.value
]

abbrev pub is_nil : {A : Type 0} → List A → Bool
is_nil [] = true
is_nil (x ∷ xs) = false

abbrev pub by_count : ℕ → RiskAssessment
by_count n =
    if leb 20 n
    then record { level = high; reasons = large_change_scope ∷ [] }
    else if leb 5 n
    then record { level = medium; reasons = moderate_change_scope ∷ [] }
    else record { level = low; reasons = [] }

unfoldable pub assess_risk : List RiskFactor → RiskAssessment
unfolding forced_reasons medium_reasons
assess_risk factors =
    let forced = forced_reasons factors factors in
    let reasons = medium_reasons factors [] in
    if not (is_nil forced)
    then record { level = high; reasons = forced }
    else if not (is_nil reasons)
    then record { level = medium; reasons = reasons }
    else by_count (file_count_of factors)

pub record RequestedEscalation : Type 0 where
  pub kind : EscalationKind
  pub approved : Bool

pub record TestResult : Type 0 where
  pub suite : String
  pub passed : Bool

-- `patch_files` is the count of files of a patch that has content.
pub record RiskResult : Type 0 where
  pub patch_files : Option ℕ
  pub requested_escalations : List RequestedEscalation
  pub test_results : List TestResult

abbrev pub factor : FactorKind → FactorValue → RiskFactor
factor kind value = record { kind = kind; value = value }

abbrev pub asks : EscalationKind → List RequestedEscalation → Bool
asks kind es = any (λ e. same_kind e.kind kind) es

abbrev pub flagged : Bool → FactorKind → List RiskFactor
flagged b kind = if b then factor kind (flag true) ∷ [] else []

abbrev pub files_factor : Option ℕ → List RiskFactor
files_factor none = []
files_factor (some n) = factor file_count (count n) ∷ []

abbrev pub kinds_factor : List RequestedEscalation → List RiskFactor
kinds_factor es =
    if is_nil es
    then []
    else factor FactorKind.escalation_requested (kinds (map (λ e. e.kind) es)) ∷ []

abbrev pub all_passed : List TestResult → Bool
all_passed ts = all (λ t. t.passed) ts

abbrev pub test_factors : List TestResult → List RiskFactor
test_factors [] = factor test_coverage (flag false) ∷ []
test_factors (t ∷ ts) =
    factor test_coverage (flag (all_passed (t ∷ ts)))
    ∷ flagged (any (λ x. text_includes x.suite "regression") (t ∷ ts) && all_passed (t ∷ ts))
        regression_test_passed

-- The factors after the file count.
abbrev pub rest_factors : List RequestedEscalation → (tests : List RiskFactor) → List RiskFactor
rest_factors es tests =
    kinds_factor es
    ++ (flagged (asks EscalationKind.network_access es) FactorKind.network_access
        ++ (flagged (asks secret_access es) FactorKind.secrets_referenced
            ++ (flagged (asks EscalationKind.destructive_tool es) FactorKind.destructive_tool
                ++ (flagged (asks EscalationKind.protected_path_write es)
                      FactorKind.protected_path_write
                    ++ tests))))

unfoldable pub extract_risk_factors_from_result : RiskResult → List RiskFactor
extract_risk_factors_from_result r =
    files_factor r.patch_files ++ rest_factors r.requested_escalations (test_factors r.test_results)

-- The areas of the default argument.
unfoldable pub detect_core_area_modification : (modified_files areas : List String) → Bool
detect_core_area_modification files names =
    any (λ file. any (λ area. text_includes file area) names) files

abbrev approved_for : EscalationKind → List RequestedEscalation → Bool
approved_for kind es = any (λ e. same_kind e.kind kind && e.approved) es

unfoldable pub analyze_side_effects : List RequestedEscalation → List RiskFactor
analyze_side_effects es =
    flagged (approved_for EscalationKind.network_access es) FactorKind.network_access
    ++ (flagged (approved_for secret_access es) FactorKind.secrets_referenced
        ++ (flagged (approved_for EscalationKind.destructive_tool es) FactorKind.destructive_tool
            ++ flagged (approved_for EscalationKind.protected_path_write es)
                FactorKind.protected_path_write))

pub record RiskIntegrationResult : Type 0 where
  pub level : RiskLevel
  pub assessment : RiskAssessment
  pub forced_high_factors : List RiskReason
  pub recommendations : List String

abbrev is_scope : RiskReason → Bool
is_scope large_change_scope = true
is_scope moderate_change_scope = true
is_scope _ = false

abbrev texts_if : Bool → List String → List String
texts_if b texts = if b then texts else []

unfoldable pub generate_recommendations : RiskAssessment → List String
generate_recommendations a =
    texts_if (eqb a.level high) (
      "Require additional manual verification before acceptance"
      ∷ "Consider staging deployment before production" ∷ [])
    ++ (texts_if (has_reason a.reasons RiskReason.secrets_referenced) (
          "Ensure secrets are properly masked in logs" ∷ "Verify secret access is logged for audit"
          ∷ [])
        ++ (texts_if (has_reason a.reasons RiskReason.network_access)
              ("Verify network requests are to approved endpoints" ∷ [])
            ++ (texts_if (has_reason a.reasons RiskReason.core_area_modified)
                  ("Require senior engineer sign-off" ∷ "Run extended test suite" ∷ [])
                ++ (texts_if (has_reason a.reasons no_test_coverage)
                      ("Add tests before merging" ∷ [])
                    ++ (texts_if (has_reason a.reasons RiskReason.config_modified)
                          ("Review configuration changes carefully" ∷ [])
                        ++ texts_if (has_reason a.reasons RiskReason.dependencies_changed)
                            ("Run dependency security scan" ∷ []))))))

unfoldable pub assess_from_factors :
    List RiskFactor → (override_level : Option RiskLevel) → RiskIntegrationResult
unfolding assess_risk generate_recommendations
assess_from_factors factors override_level =
    let a = assess_risk factors in
    record {
      level = value_or override_level a.level;
      assessment = a;
      forced_high_factors = keep (λ r. not (is_scope r)) a.reasons;
      recommendations = generate_recommendations a;
    }

unfoldable pub assess_from_result : RiskResult → RiskIntegrationResult
unfolding assess_from_factors extract_risk_factors_from_result
assess_from_result r = assess_from_factors (extract_risk_factors_from_result r) none

unfoldable pub requires_manual_review : RiskIntegrationResult → Bool
requires_manual_review r = eqb r.level high || not (is_nil r.forced_high_factors)

unfoldable pub requires_test_verification : RiskIntegrationResult → Bool
requires_test_verification r = has_reason r.assessment.reasons no_test_coverage
