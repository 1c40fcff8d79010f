-- ===== src/Risk/Forced.antt =====
-- Which factors of a result force a level (risk-assessor.ts).
use shipyard_cp.Base.{
  ℕ, ◌≡◌, refl, sym, inl, inr, Bool, true, false, not, ◌&&◌, ◌||◌, Option, none, some, List, [],
  ◌∷◌, ◌++◌, map, arith, ◌==◌, ==_iff, if◌then◌else◌, Bool-cases, is_some, any, nat_eqb, string_eqb,
}
use shipyard_cp.Risk.{
  EscalationKind, secret_access, escalation_code, same_kind, is_high_kind, RiskReason, RiskFactor,
  FactorKind, flag, test_coverage, forced_by, add_reason, forced_reasons, has_regression, is_nil,
  RequestedEscalation, TestResult, factor, asks, flagged, files_factor, kinds_factor, all_passed,
  test_factors, rest_factors,
}

high_code : ℕ → Bool
high_code c = c == 0 || c == 2 || c == 3 || c == 4

is_high_kind-code : (k : EscalationKind) → is_high_kind k ≡ high_code (escalation_code k)
unfolding high_code
is_high_kind-code EscalationKind.network_access = refl
is_high_kind-code EscalationKind.workspace_outside_write = refl
is_high_kind-code EscalationKind.protected_path_write = refl
is_high_kind-code EscalationKind.destructive_tool = refl
is_high_kind-code secret_access = refl
is_high_kind-code EscalationKind.human_verdict = refl

same-high :
    (a b : EscalationKind) → same_kind a b ≡ true → is_high_kind b ≡ true → is_high_kind a ≡ true
same-high a b s h =
    rw (is_high_kind-code a, (==_iff (escalation_code a) (escalation_code b)).0 s)
      (rw (sym (is_high_kind-code b)) h)

-- Whether an escalation of high risk is asked for.
abbrev pub asks_high : List RequestedEscalation → Bool
asks_high es = any (λ e. is_high_kind e.kind) es

asks-high :
    (k : EscalationKind) (es : List RequestedEscalation)
    → is_high_kind k ≡ true
    → asks k es ≡ true
    → asks_high es ≡ true
asks-high k [] h a = absurd (ground arith)
asks-high k (e ∷ es) h a = elim (Bool-cases (same_kind e.kind k)) [
  | inl s ↦ rw (same-high e.kind k s h) refl
  | inr s ↦ rw (asks-high k es h (ground (arith, a, s))) (ground arith)
]

high_kinds :
    (es : List RequestedEscalation) → any is_high_kind (map (λ e. e.kind) es) ≡ asks_high es
high_kinds [] = refl
high_kinds (e ∷ es) = rw (high_kinds es) refl

is_nil-add :
    (o : Option RiskReason) (rs : List RiskReason)
    → is_nil (add_reason o rs) ≡ not (is_some o) && is_nil rs
is_nil-add none rs = refl
is_nil-add (some r) rs = refl

-- Whether no factor of a list forces a reason.
abbrev pub is_quiet : List RiskFactor → List RiskFactor → Bool
is_quiet fs gs = is_nil (forced_reasons fs gs)

pub forced-append :
    (fs a b : List RiskFactor) → is_quiet fs (a ++ b) ≡ is_quiet fs a && is_quiet fs b
unfolding forced_reasons
forced-append fs [] b = refl
forced-append fs (f ∷ a) b = ground (
  arith,
  is_nil-add (forced_by fs f.kind f.value) (forced_reasons fs (a ++ b)),
  is_nil-add (forced_by fs f.kind f.value) (forced_reasons fs a),
  forced-append fs a b,
)

forced-flagged :
    (fs : List RiskFactor) (b : Bool) (k : FactorKind) (r : RiskReason)
    → forced_by fs k (flag true) ≡ some r
    → is_quiet fs (flagged b k) ≡ not b
unfolding forced_reasons
forced-flagged fs true k r h = rw h refl
forced-flagged fs false k r h = refl

pub forced-files : (fs : List RiskFactor) (n : Option ℕ) → is_quiet fs (files_factor n) ≡ true
unfolding forced_reasons
forced-files fs none = refl
forced-files fs (some n) = refl

nil_if : (b : Bool) (r : RiskReason) → is_nil (add_reason (if b then some r else none) []) ≡ not b
nil_if true r = refl
nil_if false r = refl

forced-kinds :
    (fs : List RiskFactor) (es : List RequestedEscalation)
    → is_quiet fs (kinds_factor es) ≡ not (asks_high es)
unfolding forced_reasons
forced-kinds fs [] = refl
forced-kinds fs (e ∷ es) =
    rw (sym (high_kinds (e ∷ es)))
      (nil_if (any is_high_kind (map (λ x. x.kind) (e ∷ es))) RiskReason.escalation_requested)

-- The tests of a result: there are some, and all passed.
abbrev pub tests_ok : List TestResult → Bool
tests_ok [] = false
tests_ok (t ∷ ts) = all_passed (t ∷ ts)

forced-passed :
    (fs : List RiskFactor) (ok b : Bool)
    → has_regression fs && not ok ≡ false
    → is_quiet fs (factor test_coverage (flag ok) ∷ flagged b FactorKind.regression_test_passed)
      ≡ ok
unfolding forced_reasons
forced-passed fs true true h = refl
forced-passed fs true false h = refl
forced-passed fs false true h = let q : has_regression fs ≡ false = ground (arith, h) in rw q refl
forced-passed fs false false h = let q : has_regression fs ≡ false = ground (arith, h) in rw q refl

pub forced-tests :
    (fs : List RiskFactor) (ts : List TestResult)
    → has_regression fs && not (tests_ok ts) ≡ false
    → is_quiet fs (test_factors ts) ≡ tests_ok ts
forced-tests fs [] h = forced-passed fs false false h
forced-tests fs (t ∷ ts) h = forced-passed fs (all_passed (t ∷ ts)) _ h

forced-step :
    (fs : List RiskFactor) (b : Bool) (k : FactorKind) (r : RiskReason) (more : List RiskFactor)
    → forced_by fs k (flag true) ≡ some r
    → is_quiet fs (flagged b k ++ more) ≡ not b && is_quiet fs more
forced-step fs b k r more h =
    rw (forced-append fs (flagged b k) more, forced-flagged fs b k r h) refl

absorbed :
    (asked a b c d q : Bool)
    → (a ≡ true → asked ≡ true)
    → (b ≡ true → asked ≡ true)
    → (c ≡ true → asked ≡ true)
    → (d ≡ true → asked ≡ true)
    → not asked && (not a && (not b && (not c && (not d && q)))) ≡ not asked && q
absorbed asked a b c d q ha hb hc hd = ground arith

pub forced-rest :
    (fs : List RiskFactor) (es : List RequestedEscalation) (more : List RiskFactor)
    → is_quiet fs (rest_factors es more) ≡ not (asks_high es) && is_quiet fs more
forced-rest fs es more =
    let network = asks EscalationKind.network_access es in
    let secret = asks secret_access es in
    let tool = asks EscalationKind.destructive_tool es in
    let path = asks EscalationKind.protected_path_write es in
    let t4 = flagged path FactorKind.protected_path_write ++ more in
    let t3 = flagged tool FactorKind.destructive_tool ++ t4 in
    let t2 = flagged secret FactorKind.secrets_referenced ++ t3 in
    let t1 = flagged network FactorKind.network_access ++ t2 in
    rw
      (
        forced-append fs (kinds_factor es) t1,
        forced-kinds fs es,
        forced-step fs network FactorKind.network_access RiskReason.network_access t2 refl,
        forced-step fs secret FactorKind.secrets_referenced RiskReason.secrets_referenced t3 refl,
        forced-step fs tool FactorKind.destructive_tool RiskReason.destructive_tool t4 refl,
        forced-step fs path FactorKind.protected_path_write RiskReason.protected_path_write more
            refl,
      )
      (absorbed (asks_high es) network secret tool path (is_quiet fs more)
        (asks-high EscalationKind.network_access es refl) (asks-high secret_access es refl)
        (asks-high EscalationKind.destructive_tool es refl)
        (asks-high EscalationKind.protected_path_write es refl))
