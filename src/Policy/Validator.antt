-- ===== src/Policy/Validator.antt =====
-- apps/api/src/engines/policy/validator.ts. Each message of the source is a constructor that
-- carries the values which the message shows; a loop that pushes messages is the list of what its
-- rounds add.
pub mod Accepts
use aops_pmoa.Prelude.{
  ℕ, ◌+◌, String, Bool, true, false, not, ◌&&◌, ◌||◌, Option, none, some, List, [], ◌∷◌, ◌++◌, ◌==◌,
  text_comparable, if◌then◌else◌, is_some, is_empty, is_blank, includes, when, collect,
}
use aops_pmoa.JsonValue.{Floats}
use aops_pmoa.Policy.Types.{
  PolicyDecisionValue, allow, deny, approval_required, observe, decision_comparable,
  PolicyAuditLevel, standard, detailed, audit_comparable, PolicyConditionGroup, resource, payment,
  tool, group_comparable, ResourceCondition, PaymentCondition, ToolCondition, PolicyStatement,
}

pub data ValidationError : Type 0 where
  no_statements : ValidationError
  missing_id : (position : ℕ) → ValidationError
  duplicated_id unsupported_decision no_actions : (id : String) → ValidationError
  unknown_action : (id action : String) → ValidationError
  unsupported_group : (id action : String) → PolicyConditionGroup → ValidationError
  empty_condition : (id : String) → PolicyConditionGroup → ValidationError
  invalid_min_amount invalid_max_amount unsupported_audit : (id : String) → ValidationError

pub data ValidationWarning : Type 0 where
  allows_without_enforcing : (id : String) → ValidationWarning

abbrev pub allowed_decisions : List PolicyDecisionValue
allowed_decisions = allow ∷ deny ∷ approval_required ∷ observe ∷ []

abbrev pub allowed_audit_levels : List PolicyAuditLevel
allowed_audit_levels = standard ∷ detailed ∷ []

abbrev pub condition_groups : List PolicyConditionGroup
condition_groups = resource ∷ payment ∷ tool ∷ []

-- `map.get(key) ?? []`
abbrev pub get_or_empty :
    List (String × List PolicyConditionGroup) → String → List PolicyConditionGroup
get_or_empty [] key = []
get_or_empty ((k, groups) ∷ rest) key = if k == key then groups else get_or_empty rest key

unfoldable pub supported_condition_groups :
    List (String × List PolicyConditionGroup) → String → List PolicyConditionGroup
supported_condition_groups groups action =
    if action == "*" then condition_groups else get_or_empty groups action

abbrev pub has_values : {A : Type 0} → Option (List A) → Bool
has_values none = false
has_values (some xs) = not (is_empty xs)

-- `statement.conditions?.resource`, and the like.
abbrev pub resource_of : PolicyStatement → Option ResourceCondition
resource_of s = elim s.conditions [ none ↦ none | some c ↦ c.resource ]

abbrev pub payment_of : PolicyStatement → Option PaymentCondition
payment_of s = elim s.conditions [ none ↦ none | some c ↦ c.payment ]

abbrev pub tool_of : PolicyStatement → Option ToolCondition
tool_of s = elim s.conditions [ none ↦ none | some c ↦ c.tool ]

unfoldable pub has_resource_condition : PolicyStatement → Bool
has_resource_condition s = elim (resource_of s) [
  | none ↦ false
  | some r ↦ has_values r.categories || has_values r.domains
]

unfoldable pub has_payment_condition : PolicyStatement → Bool
has_payment_condition s = elim (payment_of s) [
  | none ↦ false
  | some p ↦
      is_some p.min_amount
      || is_some p.max_amount
      || has_values p.assets
      || has_values p.networks
      || has_values p.recipients
]

unfoldable pub has_tool_condition : PolicyStatement → Bool
has_tool_condition s = elim (tool_of s) [
  | none ↦ false
  | some t ↦ has_values t.names || has_values t.risk_levels
]

unfoldable pub used_condition_groups : PolicyStatement → List PolicyConditionGroup
used_condition_groups s =
    when (has_resource_condition s) resource
    ++ (when (has_payment_condition s) payment ++ when (has_tool_condition s) tool)

-- The id of a statement is missing, or was seen before.
abbrev pub id_errors : ℕ → List String → String → List ValidationError
id_errors index seen id =
    if is_blank id then missing_id (index + 1) ∷ [] else when (includes seen id) (duplicated_id id)

-- `payment?.minAmount`, `payment?.maxAmount`
abbrev pub min_amount_of : PolicyStatement → Option String
min_amount_of s = elim (payment_of s) [ none ↦ none | some p ↦ p.min_amount ]

abbrev pub max_amount_of : PolicyStatement → Option String
max_amount_of s = elim (payment_of s) [ none ↦ none | some p ↦ p.max_amount ]

pub record PolicyValidationResult : Type 0 where
  pub valid : Bool
  pub errors : List ValidationError
  pub warnings : List ValidationWarning

unfoldable pub empty_condition_errors : PolicyStatement → List ValidationError
empty_condition_errors s =
    when (is_some (resource_of s) && not (has_resource_condition s)) (empty_condition s.id resource)
    ++ (when (is_some (payment_of s) && not (has_payment_condition s))
          (empty_condition s.id payment)
        ++ when (is_some (tool_of s) && not (has_tool_condition s)) (empty_condition s.id tool))

unfoldable pub warnings_of : List PolicyStatement → List ValidationWarning
warnings_of statements =
    collect (λ s. when (s.decision == allow) (allows_without_enforcing s.id)) statements

-- `bound !== undefined && !Number.isFinite(Number(bound))`
abbrev pub is_invalid_bound : Floats → Option String → Bool
is_invalid_bound floats none = false
is_invalid_bound floats (some bound) = not (floats.is_finite (floats.of_text bound))

-- What validation is given: the known actions and the condition groups that each supports.
module _ (known_actions : List String) (groups : List (String × List PolicyConditionGroup)) where
  unfoldable pub action_errors : PolicyStatement → List ValidationError
  action_errors s =
      when (is_empty s.actions) (no_actions s.id)
      ++ (collect
            (λ a. when (not (a == "*") && not (includes known_actions a)) (unknown_action s.id a))
            s.actions
          ++ collect
              (λ g.
                collect
                  (λ a.
                    when (not (includes (supported_condition_groups groups a) g))
                      (unsupported_group s.id a g))
                  s.actions)
              (used_condition_groups s))

  module _ (floats : Floats) where
    -- One round of the loop over the statements, with the ids seen before.
    unfoldable pub statement_errors : ℕ → List String → PolicyStatement → List ValidationError
    statement_errors index seen s =
        id_errors index seen s.id
        ++ (when (not (includes allowed_decisions s.decision)) (unsupported_decision s.id)
            ++ (action_errors s
                ++ (empty_condition_errors s
                    ++ (when (is_invalid_bound floats (min_amount_of s)) (invalid_min_amount s.id)
                        ++ (when (is_invalid_bound floats (max_amount_of s))
                              (invalid_max_amount s.id)
                            ++ when (not (includes allowed_audit_levels s.audit))
                                (unsupported_audit s.id))))))

    unfoldable pub errors_from : ℕ → List String → List PolicyStatement → List ValidationError
    errors_from index seen [] = []
    errors_from index seen (s ∷ ss) =
        statement_errors index seen s ++ errors_from (index + 1) (s.id ∷ seen) ss

    unfoldable pub validate_policy_statements : List PolicyStatement → PolicyValidationResult
    validate_policy_statements statements =
        let errors = when (is_empty statements) no_statements ++ errors_from 0 [] statements in
        record { valid = is_empty errors; errors = errors; warnings = warnings_of statements }
