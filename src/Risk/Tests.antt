-- ===== src/Risk/Tests.antt =====
-- Results of low and of high risk, and a change of configuration (risk-assessor.ts).
use shipyard_cp.Base.{◌≡◌, refl, true, none, some, [], ◌∷◌, nat_eqb, string_eqb}
use shipyard_cp.Types.{medium, high}
use shipyard_cp.Risk.{
  RiskResult, assess_risk, factor, FactorKind, file_count, flag, count, forced_reasons,
  medium_reasons, assess_from_factors, requires_manual_review, generate_recommendations,
}

abbrev given : RiskResult
given = record {
  patch_files = some 7;
  requested_escalations = [];
  test_results = record { suite = "regression"; passed = true } ∷ [];
}

-- A change of 25 files is of high risk, but of medium risk if it changes the configuration too.
configuration_lowers :
    ((assess_risk (factor file_count (count 25) ∷ [])).level ≡ high)
    × ((assess_risk
          (factor file_count (count 25) ∷ factor FactorKind.config_modified (flag true) ∷ [])).level
        ≡ medium)
unfolding assess_risk forced_reasons medium_reasons
configuration_lowers = (refl, refl)

-- A change of configuration alone is of medium risk and asks for a manual review.
configuration_reviewed :
    requires_manual_review
      (assess_from_factors (factor FactorKind.config_modified (flag true) ∷ []) none)
    ≡ true
unfolding requires_manual_review assess_from_factors assess_risk forced_reasons medium_reasons
    generate_recommendations
configuration_reviewed = refl
