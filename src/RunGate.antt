-- ===== src/RunGate.antt =====
-- src/domain/run-system/run-system-gate.ts: the gate between the result of a worker and the
-- transition of its task. Of a packet only the mode and the decision input are read; an external
-- report is what the command line tools of other projects return.
pub mod Verdicts
pub mod External
mod Tests
use shipyard_cp.Base.{
  ℕ, Bool, true, false, not, ◌&&◌, ◌||◌, Option, none, some, List, [], ◌∷◌, ◌++◌, map, String,
  str_eq, ltb, if◌then◌else◌, value_or, or_else, nat_eqb, string_eqb,
}
use Prim.Native.String.{◌++◌ as append}

pub data WorkerStatus : Type 0 where
  succeeded failed blocked : WorkerStatus

pub data RunSystemMode : Type 0 where
  advisory enforce : RunSystemMode

pub data GatefieldVerdict : Type 0 where
  pass warn hold block : GatefieldVerdict

pub data StateGateVerdict : Type 0 where
  allow revise needs_approval require_human stale_blocked deny : StateGateVerdict

pub data ExpectedVerdict : Type 0 where
  go conditional_go no_go : ExpectedVerdict

pub data ExecutionVerdict : Type 0 where
  executed applied skipped failed dry_run : ExecutionVerdict

pub record ToolPlan : Type 0 where
  pub execution_verdict : ExecutionVerdict
  pub is_dry_run : Bool
  pub acceptance_gate_required : Bool
  pub errors : Option String

pub record DecisionInput : Type 0 where
  pub worker_status : WorkerStatus
  pub failed_tests : ℕ
  pub requested_escalation_count : ℕ
  pub side_effects : List String
  pub tool_plan : Option ToolPlan

-- The variables of evaluateRunSystemGate that raise writes.
pub record Raised : Type 0 where
  pub gatefield_verdict : GatefieldVerdict
  pub state_gate_verdict : StateGateVerdict
  pub reasons : List String
  pub blockers : List String
  pub residual_risks : List String
  pub manual_required : Bool
  pub manual_reason : Option String

pub record RunSystemGateReport : Type 0 where
  pub mode : RunSystemMode
  pub gatefield_verdict : GatefieldVerdict
  pub gatefield_reasons : List String
  pub state_gate_verdict : StateGateVerdict
  pub state_gate_reasons : List String
  pub manual_required : Bool
  pub manual_reason : Option String
  pub expected_verdict : ExpectedVerdict
  pub blockers : List String
  pub residual_risks : List String
  pub blocks_shipyard_transition : Bool

abbrev pub gatefield_order : GatefieldVerdict → ℕ
gatefield_order pass = 0
gatefield_order warn = 1
gatefield_order hold = 2
gatefield_order block = 3

abbrev pub state_gate_order : StateGateVerdict → ℕ
state_gate_order allow = 0
state_gate_order revise = 1
state_gate_order needs_approval = 2
state_gate_order require_human = 3
state_gate_order stale_blocked = 4
state_gate_order deny = 5

unfoldable pub max_gatefield : GatefieldVerdict → GatefieldVerdict → GatefieldVerdict
max_gatefield current candidate =
    if ltb (gatefield_order current) (gatefield_order candidate) then candidate else current

unfoldable pub max_state_gate : StateGateVerdict → StateGateVerdict → StateGateVerdict
max_state_gate current candidate =
    if ltb (state_gate_order current) (state_gate_order candidate) then candidate else current

abbrev stops : GatefieldVerdict → Bool
stops hold = true
stops block = true
stops _ = false

abbrev is_allow : StateGateVerdict → Bool
is_allow allow = true
is_allow _ = false

unfoldable pub should_block : GatefieldVerdict → StateGateVerdict → Bool
should_block gatefield state_gate = stops gatefield || not (is_allow state_gate)

abbrev is_enforce : RunSystemMode → Bool
is_enforce enforce = true
is_enforce advisory = false

-- The options of raise; a missing one is false.
pub record RaiseOptions : Type 0 where
  pub blocker : Bool
  pub residual_risk : Bool
  pub manual : Bool

abbrev pub options : (blocker residual_risk manual : Bool) → RaiseOptions
options b r m = record { blocker = b; residual_risk = r; manual = m }

abbrev push_if : Bool → List String → String → List String
push_if test xs x = if test then xs ++ x ∷ [] else xs

unfoldable pub raise : Raised → GatefieldVerdict → StateGateVerdict → String → RaiseOptions → Raised
raise g gatefield state_gate reason o = record {
  gatefield_verdict = max_gatefield g.gatefield_verdict gatefield;
  state_gate_verdict = max_state_gate g.state_gate_verdict state_gate;
  reasons = g.reasons ++ reason ∷ [];
  blockers = push_if o.blocker g.blockers reason;
  residual_risks = push_if o.residual_risk g.residual_risks reason;
  manual_required = o.manual || g.manual_required;
  manual_reason = if o.manual then some (value_or g.manual_reason reason) else g.manual_reason;
}

-- One `if (...) raise(...)`.
unfoldable pub raise_if :
    Bool → GatefieldVerdict → StateGateVerdict → String → RaiseOptions → Raised → Raised
raise_if test gatefield state_gate reason o g =
    if test then raise g gatefield state_gate reason o else g

abbrev pub is_bad : WorkerStatus → Bool
is_bad succeeded = false
is_bad _ = true

abbrev status_name : WorkerStatus → String
status_name succeeded = "succeeded"
status_name WorkerStatus.failed = "failed"
status_name blocked = "blocked"

abbrev pub is_empty {ℓ} : {A : Type ℓ} → List A → Bool
is_empty [] = true
is_empty (x ∷ xs) = false

abbrev pub has_failed : ToolPlan → Bool
has_failed p = elim p.execution_verdict [ ExecutionVerdict.failed ↦ true | _ ↦ false ]

abbrev pub was_skipped : ToolPlan → Bool
was_skipped p = elim p.execution_verdict [ skipped ↦ true | _ ↦ false ]

-- A missing text and the empty one are falsy.
abbrev pub has_errors : ToolPlan → Bool
has_errors p = elim p.errors [ none ↦ false | some e ↦ not (str_eq e "") ]

unfoldable pub check_tool_plan : Option ToolPlan → Raised → Raised
check_tool_plan none g = g
check_tool_plan (some p) g =
    raise_if (has_errors p) hold revise "tool_plan reported execution errors"
      (options true false false)
      (raise_if p.acceptance_gate_required hold needs_approval
        "shipyard acceptance gate is required for applied tool_plan output"
        (options false false true)
        (raise_if p.is_dry_run warn revise
          "tool_plan dry-run must be applied and accepted before publish" (options false true false)
          (raise_if (was_skipped p) warn revise
            "tool_plan was skipped by policy or unsupported operation" (options false true false)
            (raise_if (has_failed p) block deny "tool_plan execution failed"
              (options true false true) g))))

unfoldable pub check_result : DecisionInput → Raised → Raised
check_result d g =
    raise_if (not (is_empty d.side_effects)) warn needs_approval
      "side effects require explicit review" (options false true true)
      (raise_if (ltb 0 d.requested_escalation_count) hold needs_approval
        "permission escalation requires approval evidence" (options false true true)
        (raise_if (ltb 0 d.failed_tests) hold revise "test failure requires rework before publish"
          (options true false false)
          (raise_if (is_bad d.worker_status) block deny
            (append "worker result is " (status_name d.worker_status)) (options true false true)
            g)))

abbrev pub unraised : Raised
unraised = record {
  gatefield_verdict = pass;
  state_gate_verdict = allow;
  reasons = [];
  blockers = [];
  residual_risks = [];
  manual_required = false;
  manual_reason = none;
}

unfoldable pub expected : (blockers residual_risks : List String) → Bool → ExpectedVerdict
expected blockers residual_risks manual_required =
    if not (is_empty blockers)
    then no_go
    else if not (is_empty residual_risks) || manual_required
    then conditional_go
    else go

abbrev report : RunSystemMode → Raised → RunSystemGateReport
report mode g = record {
  mode = mode;
  gatefield_verdict = g.gatefield_verdict;
  gatefield_reasons = g.reasons;
  state_gate_verdict = g.state_gate_verdict;
  state_gate_reasons = g.reasons;
  manual_required = g.manual_required;
  manual_reason = g.manual_reason;
  expected_verdict = expected g.blockers g.residual_risks g.manual_required;
  blockers = g.blockers;
  residual_risks = g.residual_risks;
  blocks_shipyard_transition =
      is_enforce mode && should_block g.gatefield_verdict g.state_gate_verdict;
}

unfoldable pub evaluate_run_system_gate : RunSystemMode → DecisionInput → RunSystemGateReport
evaluate_run_system_gate mode d =
    report mode (check_tool_plan d.tool_plan (check_result d unraised))

-- The fields of an ExternalRunSystemCliReport that are merged.
pub record ExternalReport : Type 0 where
  pub gatefield_decision : Option GatefieldVerdict
  pub state_gate_verdict : Option StateGateVerdict
  pub blockers : List String
  pub residual_risks : List String

abbrev first : List String → Option String
first [] = none
first (x ∷ xs) = some x

abbrev pub raised_gatefield : GatefieldVerdict → Option GatefieldVerdict → GatefieldVerdict
raised_gatefield v none = v
raised_gatefield v (some w) = max_gatefield v w

abbrev pub raised_state_gate : StateGateVerdict → Option StateGateVerdict → StateGateVerdict
raised_state_gate v none = v
raised_state_gate v (some w) = max_state_gate v w

abbrev external_reasons : ExternalReport → List String
external_reasons e =
    map (append "external CLI blocker: ") e.blockers
    ++ map (append "external CLI residual risk: ") e.residual_risks

unfoldable pub merge_external_cli_gate_report :
    RunSystemGateReport → ExternalReport → RunSystemGateReport
merge_external_cli_gate_report r e =
    let gatefield = raised_gatefield r.gatefield_verdict e.gatefield_decision in
    let state_gate = raised_state_gate r.state_gate_verdict e.state_gate_verdict in
    let manual =
      r.manual_required || (not (is_empty e.residual_risks) || not (is_empty e.blockers)) in
    record {
      mode = r.mode;
      gatefield_verdict = gatefield;
      gatefield_reasons = r.gatefield_reasons ++ external_reasons e;
      state_gate_verdict = state_gate;
      state_gate_reasons = r.state_gate_reasons ++ external_reasons e;
      manual_required = manual;
      manual_reason = or_else r.manual_reason (or_else (first e.blockers) (first e.residual_risks));
      expected_verdict =
          expected (r.blockers ++ e.blockers) (r.residual_risks ++ e.residual_risks) manual;
      blockers = r.blockers ++ e.blockers;
      residual_risks = r.residual_risks ++ e.residual_risks;
      blocks_shipyard_transition = is_enforce r.mode && should_block gatefield state_gate;
    }
