-- ===== src/Risk/Kinds.antt =====
-- The kinds of the factors of a result (risk-integration-service.ts).
use shipyard_cp.Base.{
  ℕ, ◌≡◌, refl, Bool, true, false, not, ◌&&◌, Option, none, some, List, [], ◌∷◌, ◌++◌, arith,
  value_or, any, all, find, nat_eqb, string_eqb,
}
use shipyard_cp.Risk.{
  EscalationKind, secret_access, RiskReason, RiskFactor, FactorKind, FactorValue, file_count,
  test_coverage, medium_by, medium_reasons, is_regression, has_regression, is_file_count,
  file_count_of, RequestedEscalation, TestResult, asks, flagged, files_factor, kinds_factor,
  all_passed, test_factors, text_includes, rest_factors,
}
use shipyard_cp.Risk.Forced.{tests_ok}

-- A test of the kind that all factors pass.
abbrev pub all_kind : (FactorKind → Bool) → List RiskFactor → Bool
all_kind p gs = all (λ f. p f.kind) gs

all_kind-flagged :
    (p : FactorKind → Bool) (b : Bool) (k : FactorKind) (more : List RiskFactor)
    → p k ≡ true
    → all_kind p (flagged b k ++ more) ≡ all_kind p more
all_kind-flagged p true k more h = rw h refl
all_kind-flagged p false k more h = refl

all_kind-kinds :
    (p : FactorKind → Bool) (es : List RequestedEscalation) (more : List RiskFactor)
    → p FactorKind.escalation_requested ≡ true
    → all_kind p (kinds_factor es ++ more) ≡ all_kind p more
all_kind-kinds p [] more h = refl
all_kind-kinds p (e ∷ es) more h = rw h refl

pub all_kind-rest :
    (p : FactorKind → Bool) (es : List RequestedEscalation) (more : List RiskFactor)
    → p FactorKind.escalation_requested ≡ true
    → p FactorKind.network_access ≡ true
    → p FactorKind.secrets_referenced ≡ true
    → p FactorKind.destructive_tool ≡ true
    → p FactorKind.protected_path_write ≡ true
    → all_kind p (rest_factors es more) ≡ all_kind p more
all_kind-rest p es more he hn hs ht hp =
    let network = asks EscalationKind.network_access es in
    let secret = asks secret_access es in
    let tool = asks EscalationKind.destructive_tool es in
    let path = asks EscalationKind.protected_path_write es in
    let t4 = flagged path FactorKind.protected_path_write ++ more in
    let t3 = flagged tool FactorKind.destructive_tool ++ t4 in
    let t2 = flagged secret FactorKind.secrets_referenced ++ t3 in
    rw
      (
        all_kind-kinds p es (flagged network FactorKind.network_access ++ t2) he,
        all_kind-flagged p network FactorKind.network_access t2 hn,
        all_kind-flagged p secret FactorKind.secrets_referenced t3 hs,
        all_kind-flagged p tool FactorKind.destructive_tool t4 ht,
        all_kind-flagged p path FactorKind.protected_path_write more hp,
      )
      refl

no_count :
    (gs : List RiskFactor)
    → all_kind (λ k. not (is_file_count k)) gs ≡ true
    → find (λ f. is_file_count f.kind) gs ≡ none
no_count [] h = refl
no_count (g ∷ gs) h = ground (arith, h, no_count gs)

pub counts :
    (n : Option ℕ) (gs : List RiskFactor)
    → all_kind (λ k. not (is_file_count k)) gs ≡ true
    → file_count_of (files_factor n ++ gs) ≡ value_or n 1
counts none gs h = rw (no_count gs h, file_count_of) refl
counts (some n) gs h = refl

unfoldable pub is_medium : FactorKind → Bool
is_medium FactorKind.config_modified = true
is_medium FactorKind.dependencies_changed = true
is_medium _ = false

not_medium :
    (k : FactorKind) (v : FactorValue) (rs : List RiskReason)
    → is_medium k ≡ false
    → medium_by k v rs ≡ rs
unfolding is_medium
not_medium FactorKind.config_modified v rs h = cc
not_medium FactorKind.dependencies_changed v rs h = cc
not_medium file_count v rs h = refl
not_medium test_coverage v rs h = refl
not_medium FactorKind.secrets_referenced v rs h = refl
not_medium FactorKind.network_access v rs h = refl
not_medium FactorKind.destructive_tool v rs h = refl
not_medium FactorKind.protected_path_write v rs h = refl
not_medium FactorKind.core_area_modified v rs h = refl
not_medium FactorKind.modified_areas v rs h = refl
not_medium FactorKind.escalation_requested v rs h = refl
not_medium FactorKind.regression_test_passed v rs h = refl

pub no_medium :
    (gs : List RiskFactor) (rs : List RiskReason)
    → all_kind (λ k. not (is_medium k)) gs ≡ true
    → medium_reasons gs rs ≡ rs
unfolding medium_reasons
no_medium [] rs h = refl
no_medium (g ∷ gs) rs h =
    rw (not_medium g.kind g.value rs (ground (arith, h))) (no_medium gs rs (ground (arith, h)))

unfoldable pub is_regression_kind : FactorKind → Bool
is_regression_kind FactorKind.regression_test_passed = true
is_regression_kind _ = false

other_kind :
    (k : FactorKind) (v : FactorValue) → is_regression_kind k ≡ false → is_regression k v ≡ false
unfolding is_regression_kind
other_kind FactorKind.config_modified v h = refl
other_kind FactorKind.dependencies_changed v h = refl
other_kind file_count v h = refl
other_kind test_coverage v h = refl
other_kind FactorKind.secrets_referenced v h = refl
other_kind FactorKind.network_access v h = refl
other_kind FactorKind.destructive_tool v h = refl
other_kind FactorKind.protected_path_write v h = refl
other_kind FactorKind.core_area_modified v h = refl
other_kind FactorKind.modified_areas v h = refl
other_kind FactorKind.escalation_requested v h = refl
other_kind FactorKind.regression_test_passed v h = cc

pub no_regression :
    (gs : List RiskFactor)
    → all_kind (λ k. not (is_regression_kind k)) gs ≡ true
    → has_regression gs ≡ false
no_regression [] h = refl
no_regression (g ∷ gs) h =
    rw (other_kind g.kind g.value (ground (arith, h))) (no_regression gs (ground (arith, h)))

-- A kind that is none of the tests' and the file count's passes in all factors of a result.
pub all_kind-files :
    (p : FactorKind → Bool) (n : Option ℕ) (gs : List RiskFactor)
    → p file_count ≡ true
    → all_kind p (files_factor n ++ gs) ≡ all_kind p gs
all_kind-files p none gs h = refl
all_kind-files p (some n) gs h = rw h refl

not-flagged :
    (b : Bool)
    → all_kind
        (λ k. not (is_regression_kind k))
        (flagged (b && false) FactorKind.regression_test_passed)
      ≡ true
not-flagged true = refl
not-flagged false = refl

pub failed_tests :
    (ts : List TestResult)
    → tests_ok ts ≡ false
    → all_kind (λ k. not (is_regression_kind k)) (test_factors ts) ≡ true
unfolding is_regression_kind
failed_tests [] h = refl
failed_tests (t ∷ ts) h =
    rw (h, test_factors) (not-flagged (any (λ x. text_includes x.suite "regression") (t ∷ ts)))

-- The tests add no factor of a kind p, if they add none of these two.
pub all_kind-tests :
    (p : FactorKind → Bool) (ts : List TestResult)
    → p test_coverage ≡ true
    → p FactorKind.regression_test_passed ≡ true
    → all_kind p (test_factors ts) ≡ true
all_kind-tests p [] hc hr = rw hc refl
all_kind-tests p (t ∷ ts) hc hr =
    rw hc (tail (any (λ x. text_includes x.suite "regression") (t ∷ ts) && all_passed (t ∷ ts)))
  where
    tail : (b : Bool) → all_kind p (flagged b FactorKind.regression_test_passed) ≡ true
    tail true = rw hr refl
    tail false = refl
