-- ===== src/Risk/Levels.antt =====
-- The level of risk of a result, without its factors (risk-integration-service.ts).
use shipyard_cp.Base.{not, ◌||◌, List, ◌++◌, leb, if◌then◌else◌, value_or, nat_eqb, string_eqb}
use shipyard_cp.Types.{RiskLevel, low, medium, high}
use shipyard_cp.Risk.{RiskFactor, RiskResult, files_factor, test_factors, rest_factors}
use shipyard_cp.Risk.Forced.{asks_high, tests_ok}

module _ (r : RiskResult) where
  abbrev factors : List RiskFactor
  factors =
      files_factor r.patch_files
      ++ rest_factors r.requested_escalations (test_factors r.test_results)

  abbrev pub expected_level : RiskLevel
  expected_level =
      let n = value_or r.patch_files 1 in
      if asks_high r.requested_escalations || not (tests_ok r.test_results)
      then high
      else if leb 20 n
      then high
      else if leb 5 n
      then medium
      else low
