-- ===== src/SideEffect/Impact.antt =====
-- The categories that the analysis of side effects finds (side-effect-analyzer.ts).
use shipyard_cp.Base.{
  ◌≡◌, refl, ◌⊎◌, inl, inr, true, ◌||◌, some, List, [], ◌∷◌, ◌++◌, arith, any, includes, eqb,
  nat_eqb, string_eqb,
}
use shipyard_cp.Types.{SideEffectCategory, external_release, category_eqb}
use shipyard_cp.SideEffect.{
  SideEffectInput, EscalationKind, escalation_eqb, category_of, escalated, targets_external,
  analyze_side_effects,
}

includes-escalated :
    (ks : List EscalationKind) (k : EscalationKind) (c : SideEffectCategory)
    → category_of k ≡ some c
    → any (λ j. eqb j k) ks ≡ true
    → includes (escalated ks) c ≡ true
includes-escalated [] k c e h = cc
includes-escalated (j ∷ ks) k c e h = ground (arith, includes-escalated ks k c e)

includes-append :
    (xs ys : List SideEffectCategory) (c : SideEffectCategory)
    → includes (xs ++ ys) c ≡ (includes xs c || includes ys c)
includes-append [] ys c = refl
includes-append (x ∷ xs) ys c = ground (arith, includes-append xs ys c)

-- Nothing that was asked for is lost: the category of each escalation that has one is a category of
-- the result, and with a target external_api so is external_release.
pub categories_complete :
    (input : SideEffectInput) (k : EscalationKind) (c : SideEffectCategory)
    → ((category_of k ≡ some c) × (any (λ j. eqb j k) input.escalation_requests ≡ true))
      ⊎ ((c ≡ external_release) × (targets_external input.publish_targets ≡ true))
    → includes (analyze_side_effects input).categories c ≡ true
unfolding analyze_side_effects
categories_complete input k c (inl (e, h)) = ground (
  arith,
  includes-escalated input.escalation_requests k c e h,
  includes-append (escalated input.escalation_requests) (external_release ∷ []) c,
)
categories_complete input k c (inr (e, h)) = ground (
  arith,
  includes-append (escalated input.escalation_requests) (external_release ∷ []) external_release,
)
