-- ===== src/RunGate/External.antt =====
-- What an external report can change of the gate (mergeExternalCliGateReport).
use shipyard_cp.Base.{
  ℕ, ◌≤◌, ◌≡◌, refl, Bool, true, false, ◌&&◌, ◌||◌, none, some, List, [], ◌∷◌, ◌++◌, String, arith,
  nat_eqb, string_eqb,
}
use shipyard_cp.RunGate.{
  RunSystemMode, DecisionInput, raised_gatefield, raised_state_gate, evaluate_run_system_gate,
  RunSystemGateReport, ExternalReport, merge_external_cli_gate_report, gatefield_order,
  state_gate_order, max_gatefield, max_state_gate, should_block, expected, is_empty,
  ExpectedVerdict, go, conditional_go, no_go, is_enforce, GatefieldVerdict, StateGateVerdict,
}

-- How severe an expected verdict is.
abbrev pub severity : ExpectedVerdict → ℕ
severity go = 0
severity conditional_go = 1
severity no_go = 2

empty-append : (xs ys : List String) → is_empty (xs ++ ys) ≡ (is_empty xs && is_empty ys)
empty-append [] ys = refl
empty-append (x ∷ xs) ys = refl

expected_mono :
    (b c r s : List String) (m n : Bool)
    → severity (expected b r m) ≤ severity (expected (b ++ c) (r ++ s) (m || n))
unfolding expected
expected_mono b c r s m n = ground (arith, empty-append b c, empty-append r s)

max_mono : (v w : GatefieldVerdict) → gatefield_order v ≤ gatefield_order (max_gatefield v w)
unfolding max_gatefield
max_mono v w = ground arith

max_state_mono :
    (v w : StateGateVerdict) → state_gate_order v ≤ state_gate_order (max_state_gate v w)
unfolding max_state_gate
max_state_mono v w = ground arith

block_mono :
    (f f' : GatefieldVerdict) (s s' : StateGateVerdict)
    → gatefield_order f ≤ gatefield_order f'
    → state_gate_order s ≤ state_gate_order s'
    → should_block f s ≡ true
    → should_block f' s' ≡ true
unfolding should_block
block_mono f f' s s' h k b = ground arith

and_mono : (a b c : Bool) → (b ≡ true → c ≡ true) → (a && b) ≡ true → (a && c) ≡ true
and_mono true b c h k = h k
and_mono false b c h k = k

module _ (mode : RunSystemMode) (d : DecisionInput) (e : ExternalReport) where
  abbrev pub own : RunSystemGateReport
  own = evaluate_run_system_gate mode d

  abbrev pub merged : RunSystemGateReport
  merged = merge_external_cli_gate_report (evaluate_run_system_gate mode d) e

  gatefield_raised :
      gatefield_order own.gatefield_verdict ≤ gatefield_order merged.gatefield_verdict
  unfolding merge_external_cli_gate_report
  gatefield_raised =
      elim e.gatefield_decision
        as (λ o.
          gatefield_order own.gatefield_verdict
          ≤ gatefield_order (raised_gatefield own.gatefield_verdict o)) [
            | none ↦ omega arith
            | some w ↦ max_mono own.gatefield_verdict w
          ]

  state_gate_raised :
      state_gate_order own.state_gate_verdict ≤ state_gate_order merged.state_gate_verdict
  unfolding merge_external_cli_gate_report
  state_gate_raised =
      elim e.state_gate_verdict
        as (λ o.
          state_gate_order own.state_gate_verdict
          ≤ state_gate_order (raised_state_gate own.state_gate_verdict o)) [
            | none ↦ omega arith
            | some w ↦ max_state_mono own.state_gate_verdict w
          ]

  still_blocked : own.blocks_shipyard_transition ≡ true → merged.blocks_shipyard_transition ≡ true
  unfolding evaluate_run_system_gate merge_external_cli_gate_report
  still_blocked =
      and_mono (is_enforce mode) _ _ (block_mono _ _ _ _ gatefield_raised state_gate_raised)

  -- An external report can only make the gate stricter: neither verdict falls, the expected verdict
  -- gets no better, and a transition that the gate blocks stays blocked.
  pub external_stricter :
      (gatefield_order own.gatefield_verdict ≤ gatefield_order merged.gatefield_verdict)
      × (state_gate_order own.state_gate_verdict ≤ state_gate_order merged.state_gate_verdict)
      × (severity own.expected_verdict ≤ severity merged.expected_verdict)
      × (own.blocks_shipyard_transition ≡ true → merged.blocks_shipyard_transition ≡ true)
  unfolding evaluate_run_system_gate merge_external_cli_gate_report
  external_stricter =
      (gatefield_raised, state_gate_raised, expected_mono _ _ _ _ _ _, still_blocked)
