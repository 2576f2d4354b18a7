-- ===== src/Policy/Engine/Spec.antt =====
-- What a decision of decision-engine.ts means, without its fold and its flattening.
use aops_pmoa.Prelude.{◌≡◌, ◌≤◌, ◌⊎◌, true, Option, List, All, Any, if◌then◌else◌}
use aops_pmoa.JsonValue.{Floats}
use aops_pmoa.Policy.Types.{
  PolicyDecisionValue, allow, deny, PolicyDefaultEffect, PolicyStatement, PolicyDecisionRequest,
  EffectivePolicy,
}
use aops_pmoa.Policy.Engine.{decision_rank, is_permissive, matches_statement}

module _ (floats : Floats) (request : PolicyDecisionRequest floats.Float) where
  -- Some statement of some policy matches the request and satisfies `P`.
  abbrev pub SomeMatch : (PolicyStatement → Type 0) → List EffectivePolicy → Type 0
  SomeMatch P policies =
      Any (λ p. Any (λ s. (matches_statement floats s request ≡ true) × P s) p.statements) policies

  -- Every statement that matches the request satisfies `P`.
  abbrev pub EveryMatch : (PolicyStatement → Type 0) → List EffectivePolicy → Type 0
  EveryMatch P policies =
      All (λ p. All (λ s. matches_statement floats s request ≡ true → P s) p.statements) policies

  -- No statement matches the request.
  abbrev pub Unmatched : List EffectivePolicy → Type 0
  Unmatched policies = EveryMatch (λ s. ⊥) policies

-- A statement decides `d`, or at most `d` in strictness.
abbrev pub Decides : PolicyDecisionValue → PolicyStatement → Type 0
Decides d s = s.decision ≡ d

abbrev pub IsWithin : PolicyDecisionValue → PolicyStatement → Type 0
IsWithin d s = decision_rank s.decision ≤ decision_rank d

-- The decision where nothing matches.
abbrev pub fallback : Option PolicyDefaultEffect → PolicyDecisionValue
fallback default_effect = if is_permissive default_effect then allow else deny

-- The decision `d` is the strictest that a matching statement makes, or the default effect's where
-- no statement matches.
abbrev pub Governs :
    (floats : Floats)
    → PolicyDecisionRequest floats.Float
    → List EffectivePolicy
    → Option PolicyDefaultEffect
    → PolicyDecisionValue
    → Type 0
Governs floats request policies default_effect d =
    (SomeMatch floats request (Decides d) policies
      × EveryMatch floats request (IsWithin d) policies)
    ⊎ (Unmatched floats request policies × (d ≡ fallback default_effect))
