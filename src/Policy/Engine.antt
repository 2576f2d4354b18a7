-- ===== src/Policy/Engine.antt =====
-- apps/api/src/engines/policy/decision-engine.ts: which statements match a request, and the
-- decision that they make. Doubles are a parameter: the engine converts texts to them, tests them
-- for being finite and compares them. Each `return false` of the source is a failed conjunct here,
-- in the same order.
pub mod Spec
pub mod Decision
pub mod Order
pub mod Matching
use mathlib.Core.List.{flat_map, foldl}
use mathlib.Core.Option
use aops_pmoa.Prelude.{
  ℕ, String, Bool, true, false, not, ◌&&◌, ◌||◌, Option, none, some, List, [], ◌∷◌, map, ltb,
  text_comparable, if◌then◌else◌, holds, includes, filter,
}
use aops_pmoa.JsonValue.{Json, Floats}
use aops_pmoa.Policy.Types.{
  role_comparable, PolicyDecisionValue, allow, deny, approval_required, observe,
  PolicyDefaultEffect, enforceable, target_comparable, ResourceCondition, PaymentCondition,
  ToolCondition, PolicyStatementConditions, PolicyStatement, PolicyDecisionRequest, EffectivePolicy,
  PolicyDecisionMatch, PolicyDecisionResult,
}
use aops_pmoa.Policy.Values.{includes_if_present, object_at, string_at, number_at}

abbrev pub decision_rank : PolicyDecisionValue → ℕ
decision_rank allow = 0
decision_rank observe = 1
decision_rank approval_required = 2
decision_rank deny = 3

unfoldable pub reason_code : PolicyDecisionValue → String
reason_code allow = "no_matching_policy"
reason_code observe = "policy_observed"
reason_code approval_required = "policy_requires_approval"
reason_code deny = "policy_denied"

unfoldable pub explanation : PolicyDecisionValue → String
explanation allow = "No active policy blocked this request."
explanation observe = "A policy marked this request for observation."
explanation approval_required = "A policy requires approval before this request can continue."
explanation deny = "A policy denied this request."

abbrev pub no_match_deny_reason : String
no_match_deny_reason = "no_matching_policy_denied"

abbrev pub no_match_deny_explanation : String
no_match_deny_explanation = "No policy authorizes this request."

-- The reducer of the source: the stricter of the decision so far and the match's.
abbrev pub stricter : PolicyDecisionValue → PolicyDecisionMatch → PolicyDecisionValue
stricter current match =
    if ltb (decision_rank current) (decision_rank match.decision) then match.decision else current

abbrev pub is_permissive : Option PolicyDefaultEffect → Bool
is_permissive (some PolicyDefaultEffect.allow) = true
is_permissive _ = false

-- What `evaluatePolicyDecision` makes of the matched statements.
unfoldable pub decide_matched :
    List PolicyDecisionMatch → Option PolicyDefaultEffect → PolicyDecisionResult
decide_matched [] default_effect =
    let permissive = is_permissive default_effect in
    record {
      decision = if permissive then allow else deny;
      enforceability = enforceable;
      reason_code = if permissive then reason_code allow else no_match_deny_reason;
      explanation = if permissive then explanation allow else no_match_deny_explanation;
      matched = [];
    }
decide_matched (m ∷ ms) default_effect =
    let decision = foldl stricter allow (m ∷ ms) in
    record {
      decision = decision;
      enforceability = enforceable;
      reason_code = reason_code decision;
      explanation = explanation decision;
      matched = m ∷ ms;
    }

-- `condition === undefined || matches(condition)`
abbrev pub if_given : {A : Type 0} → (A → Bool) → Option A → Bool
if_given test none = true
if_given test (some condition) = test condition

abbrev pub match_of : EffectivePolicy → PolicyStatement → PolicyDecisionMatch
match_of policy statement = record {
  policy_id = policy.policy_id;
  policy_version = policy.version;
  policy_name = policy.name;
  statement_id = statement.id;
  decision = statement.decision;
}

module _ (floats : Floats) where
  open floats use {Float, of_text, is_finite, lt}

  unfoldable pub matches_resource_condition : ResourceCondition → List (String × Json Float) → Bool
  matches_resource_condition condition context =
      let resource = object_at context "resource" in
      includes_if_present condition.categories (string_at resource "category")
      && includes_if_present condition.domains (string_at resource "domain")

  -- `minAmount` and `maxAmount`, where given, must be finite and bound an amount that is given.
  abbrev pub at_least : Option String → Option Float → Bool
  at_least none amount = true
  at_least (some bound) amount =
      is_finite (of_text bound) && holds (λ a. not (lt a (of_text bound))) amount

  abbrev pub at_most : Option String → Option Float → Bool
  at_most none amount = true
  at_most (some bound) amount =
      is_finite (of_text bound) && holds (λ a. not (lt (of_text bound) a)) amount

  unfoldable pub matches_payment_condition : PaymentCondition → List (String × Json Float) → Bool
  matches_payment_condition condition context =
      let payment = object_at context "payment" in
      let amount = number_at floats payment "amount" in
      at_least condition.min_amount amount
      && at_most condition.max_amount amount
      && includes_if_present condition.assets (string_at payment "asset")
      && includes_if_present condition.networks (string_at payment "network")
      && includes_if_present condition.recipients (string_at payment "recipient")

  unfoldable pub matches_tool_condition : ToolCondition → List (String × Json Float) → Bool
  matches_tool_condition condition context =
      let tool = object_at context "tool" in
      includes_if_present condition.names (string_at tool "name")
      && includes_if_present condition.risk_levels (string_at tool "riskLevel")

  unfoldable pub matches_conditions :
      Option PolicyStatementConditions → List (String × Json Float) → Bool
  matches_conditions none context = true
  matches_conditions (some conditions) context =
      if_given (λ c. matches_resource_condition c context) conditions.resource
      && if_given (λ c. matches_payment_condition c context) conditions.payment
      && if_given (λ c. matches_tool_condition c context) conditions.tool

  unfoldable pub matches_statement : PolicyStatement → PolicyDecisionRequest Float → Bool
  unfolding Option.bind
  matches_statement statement request =
      (includes statement.actions "*" || includes statement.actions request.action)
      && includes_if_present (Option.bind statement.actor (λ roles. roles)) request.actor.role
      && includes_if_present (Option.bind statement.target (λ t. t.types))
          (some request.target.type)
      && includes_if_present (Option.bind statement.target (λ t. t.ids)) request.target.id
      && matches_conditions statement.conditions request.context

  -- The matches of one policy, and of all of them in order.
  abbrev pub policy_matches :
      PolicyDecisionRequest Float → EffectivePolicy → List PolicyDecisionMatch
  policy_matches request policy =
      map (match_of policy)
        (filter (λ statement. matches_statement statement request) policy.statements)

  unfoldable pub matched_statements :
      PolicyDecisionRequest Float → List EffectivePolicy → List PolicyDecisionMatch
  unfolding flat_map
  matched_statements request policies = flat_map (policy_matches request) policies

  unfoldable pub evaluate_policy_decision :
      PolicyDecisionRequest Float
      → List EffectivePolicy
      → Option PolicyDefaultEffect
      → PolicyDecisionResult
  evaluate_policy_decision request policies default_effect =
      decide_matched (matched_statements request policies) default_effect
