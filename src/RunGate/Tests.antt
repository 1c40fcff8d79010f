-- ===== src/RunGate/Tests.antt =====
-- The gate on concrete results (run-system-gate.ts).
use shipyard_cp.Base.{◌≤◌, ◌≡◌, refl, true, false, not, none, some, [], ◌∷◌, nat_eqb, string_eqb}
use shipyard_cp.RunGate.{
  advisory, enforce, DecisionInput, ExternalReport, WorkerStatus, evaluate_run_system_gate,
  merge_external_cli_gate_report, no_go, pass, gatefield_order, state_gate_order, check_result,
  check_tool_plan, raise_if, raise, max_gatefield, max_state_gate, should_block, expected,
}
use shipyard_cp.RunGate.Verdicts.{gate_verdicts, is_go, concern}
use shipyard_cp.RunGate.External.{external_stricter, own, merged, severity}

abbrev failed_test : DecisionInput
failed_test = record {
  worker_status = WorkerStatus.succeeded;
  failed_tests = 1;
  requested_escalation_count = 0;
  side_effects = [];
  tool_plan = none;
}

abbrev clean : DecisionInput
clean = record failed_test { failed_tests = 0 }

abbrev lenient : ExternalReport
lenient = record {
  gatefield_decision = some pass;
  state_gate_verdict = none;
  blockers = "policy" ∷ [];
  residual_risks = [];
}

-- A blocker of the tools that comes with no verdict makes the expected verdict no_go, but the
-- transition goes through.
blocker_alone :
    ((merge_external_cli_gate_report
        (evaluate_run_system_gate enforce clean)
        lenient).expected_verdict
      ≡ no_go)
    × ((merge_external_cli_gate_report
          (evaluate_run_system_gate enforce clean)
          lenient).blocks_shipyard_transition
        ≡ false)
unfolding merge_external_cli_gate_report evaluate_run_system_gate check_tool_plan check_result
    raise_if raise max_gatefield max_state_gate should_block expected
blocker_alone = (refl, refl)

gate_verdicts_example :
    (is_go (evaluate_run_system_gate advisory failed_test).expected_verdict
      ≡ not (concern failed_test))
    × ((evaluate_run_system_gate enforce failed_test).blocks_shipyard_transition
        ≡ concern failed_test)
    × ((evaluate_run_system_gate advisory failed_test).blocks_shipyard_transition ≡ false)
gate_verdicts_example = gate_verdicts advisory failed_test

external_stricter_example :
    (gatefield_order (own enforce failed_test lenient).gatefield_verdict
      ≤ gatefield_order (merged enforce failed_test lenient).gatefield_verdict)
    × (state_gate_order (own enforce failed_test lenient).state_gate_verdict
        ≤ state_gate_order (merged enforce failed_test lenient).state_gate_verdict)
    × (severity (own enforce failed_test lenient).expected_verdict
        ≤ severity (merged enforce failed_test lenient).expected_verdict)
    × ((own enforce failed_test lenient).blocks_shipyard_transition ≡ true
        → (merged enforce failed_test lenient).blocks_shipyard_transition ≡ true)
external_stricter_example = external_stricter enforce failed_test lenient
