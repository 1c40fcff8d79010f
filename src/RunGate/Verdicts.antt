-- ===== src/RunGate/Verdicts.antt =====
-- What evaluateRunSystemGate decides.
use shipyard_cp.Base.{
  ◌<◌, ◌≡◌, refl, Bool, true, false, not, ◌||◌, Option, none, some, List, [], ◌∷◌, ◌++◌, String,
  arith, ltb, nat_eqb, string_eqb,
}
use shipyard_cp.RunGate.{
  RunSystemMode, advisory, enforce, GatefieldVerdict, StateGateVerdict, ExpectedVerdict, go,
  ToolPlan, DecisionInput, Raised, RaiseOptions, raise, raise_if, should_block, expected,
  max_gatefield, max_state_gate, state_gate_order, unraised, check_tool_plan, check_result,
  evaluate_run_system_gate, is_bad, is_empty, has_failed, was_skipped, has_errors,
}

-- A plan gives cause for concern.
abbrev pub plan_concern : Option ToolPlan → Bool
plan_concern none = false
plan_concern (some p) =
    has_failed p || was_skipped p || p.is_dry_run || p.acceptance_gate_required || has_errors p

-- The result gives cause for concern.
abbrev pub concern : DecisionInput → Bool
concern d =
    is_bad d.worker_status
    || ltb 0 d.failed_tests
    || ltb 0 d.requested_escalation_count
    || not (is_empty d.side_effects)
    || plan_concern d.tool_plan

abbrev pub is_go : ExpectedVerdict → Bool
is_go go = true
is_go _ = false

-- The verdicts so far stop a transition, and are no "go", exactly if something was raised.
abbrev Agrees : Raised → Bool → Type 0
Agrees g b =
    (should_block g.gatefield_verdict g.state_gate_verdict ≡ b)
    × (is_go (expected g.blockers g.residual_risks g.manual_required) ≡ not b)

max-allow :
    (v w : StateGateVerdict) → 0 < state_gate_order w → 0 < state_gate_order (max_state_gate v w)
unfolding max_state_gate
max-allow v w h = ground arith

strict_blocks :
    (f : GatefieldVerdict) (w : StateGateVerdict) → 0 < state_gate_order w → should_block f w ≡ true
unfolding should_block
strict_blocks f w h = ground arith

pushed : (xs : List String) (x : String) → is_empty (xs ++ x ∷ []) ≡ false
pushed [] x = refl
pushed (y ∷ xs) x = refl

raise-Agrees :
    (g : Raised) (f : GatefieldVerdict) (s : StateGateVerdict) (reason : String) (o : RaiseOptions)
    → 0 < state_gate_order s
    → (o.blocker || (o.residual_risk || o.manual)) ≡ true
    → Agrees (raise g f s reason o) true
unfolding raise expected
raise-Agrees g f s reason o h k = (
  strict_blocks (max_gatefield g.gatefield_verdict f) (max_state_gate g.state_gate_verdict s)
      (max-allow g.state_gate_verdict s h),
  ground (arith, pushed g.blockers reason, pushed g.residual_risks reason),
)

raise_if-Agrees :
    (test : Bool) (f : GatefieldVerdict) (s : StateGateVerdict) (reason : String) (o : RaiseOptions)
    (g : Raised) (b : Bool)
    → Agrees g b
    → 0 < state_gate_order s
    → (o.blocker || (o.residual_risk || o.manual)) ≡ true
    → Agrees (raise_if test f s reason o g) (b || test)
unfolding raise_if
raise_if-Agrees true f s reason o g true a h k = raise-Agrees g f s reason o h k
raise_if-Agrees true f s reason o g false a h k = raise-Agrees g f s reason o h k
raise_if-Agrees false f s reason o g true a h k = a
raise_if-Agrees false f s reason o g false a h k = a

result-Agrees :
    (d : DecisionInput)
    → Agrees (check_result d unraised) (
        (((false || is_bad d.worker_status) || ltb 0 d.failed_tests)
          || ltb 0 d.requested_escalation_count)
        || not (is_empty d.side_effects))
unfolding check_result
result-Agrees d =
    raise_if-Agrees _ _ _ _ _ _ _
      (raise_if-Agrees _ _ _ _ _ _ _
        (raise_if-Agrees _ _ _ _ _ _ _ (raise_if-Agrees _ _ _ _ _ _ _ start (omega arith) refl)
          (omega arith) refl)
        (omega arith) refl)
      (omega arith) refl
  where
    start : Agrees unraised false
    start = unfold should_block expected in (refl, refl)

or_assoc :
    (b c d e f g : Bool) → (b || (c || d || e || f || g)) ≡ (((((b || c) || d) || e) || f) || g)
or_assoc true c d e f g = refl
or_assoc false true d e f g = refl
or_assoc false false true e f g = refl
or_assoc false false false e f g = ground arith

plan-Agrees :
    (plan : Option ToolPlan) (g : Raised) (b : Bool)
    → Agrees g b
    → Agrees (check_tool_plan plan g) (b || plan_concern plan)
unfolding check_tool_plan
plan-Agrees none g true a = a
plan-Agrees none g false a = a
plan-Agrees (some p) g b a =
    rw
      (or_assoc b (has_failed p) (was_skipped p) p.is_dry_run p.acceptance_gate_required
        (has_errors p))
      (raise_if-Agrees (has_errors p) _ _ _ _ _ _
        (raise_if-Agrees p.acceptance_gate_required _ _ _ _ _ _
          (raise_if-Agrees p.is_dry_run _ _ _ _ _ _
            (raise_if-Agrees (was_skipped p) _ _ _ _ _ _
              (raise_if-Agrees (has_failed p) _ _ _ _ g b a (omega arith) refl) (omega arith) refl)
            (omega arith) refl)
          (omega arith) refl)
        (omega arith) refl)

-- The gate expects "go" exactly if the result gives no cause for concern: its status is succeeded,
-- no test failed, no escalation and no side effect is named, and its tool plan, if there is one,
-- neither failed nor was skipped, was no dry run, asks for no acceptance gate and has no errors.
-- In enforce mode it blocks the transition exactly if there is a cause, in advisory mode never.
pub gate_verdicts :
    (mode : RunSystemMode) (d : DecisionInput)
    → (is_go (evaluate_run_system_gate mode d).expected_verdict ≡ not (concern d))
      × ((evaluate_run_system_gate enforce d).blocks_shipyard_transition ≡ concern d)
      × ((evaluate_run_system_gate advisory d).blocks_shipyard_transition ≡ false)
unfolding evaluate_run_system_gate
gate_verdicts mode d =
    let a = plan-Agrees d.tool_plan (check_result d unraised) _ (result-Agrees d) in
    (ground (arith, a), ground (arith, a), refl)
