-- ===== src/SideEffect/Tests.antt =====
-- The analysis of side effects at concrete inputs (side-effect-analyzer.ts).
use shipyard_cp.Base.{◌≡◌, refl, false, none, some, [], ◌∷◌, nat_eqb, string_eqb}
use shipyard_cp.Types.{category_eqb}
use shipyard_cp.SideEffect.{
  SideEffectInput, escalation_eqb, external_api, secret_access, human_verdict, analyze_side_effects,
}

abbrev publishing : SideEffectInput
publishing = record {
  escalation_requests = secret_access ∷ human_verdict ∷ [];
  publish_targets = some (external_api ∷ []);
}

verdict_only :
    (analyze_side_effects (record {
      escalation_requests = human_verdict ∷ [];
      publish_targets = none;
    })).requires_approval
    ≡ false
unfolding analyze_side_effects
verdict_only = refl
