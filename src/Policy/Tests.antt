-- ===== src/Policy/Tests.antt =====
-- Runs of the policy engine and of its validator, with each theorem at an input that it covers.
use mathlib.Core.List.Perm
use mathlib.Core.Option
use mathlib.Core.List.{flat_map, flatten}
use aops_pmoa.Prelude.{
  ℕ, ◌+◌, ◌-◌, ◌&&◌, leb, is_blank, ◌*◌, ◌≤◌, ◌≡◌, ◌≢◌, ◌↔◌, refl, String, true, false, Option,
  none, some, List, [], ◌∷◌, ◌++◌, ltb, All, inl, is_some, codes, if◌then◌else◌,
}
use aops_pmoa.JsonValue.{str, obj, end, prop, Floats}
use aops_pmoa.Policy.Types.{
  allow, deny, approval_required, PolicyDefaultEffect, org, user, operator, detailed, payment,
  PaymentCondition, PolicyStatementConditions, PolicyStatement, PolicyDecisionRequest,
  EffectivePolicy,
}
use aops_pmoa.Policy.Values.{includes_if_present, object_at, string_at, number_at}
use aops_pmoa.Policy.Engine.{
  decision_rank, reason_code, explanation, decide_matched, matches_resource_condition,
  matches_payment_condition, matches_tool_condition, matches_conditions, matches_statement,
  matched_statements, evaluate_policy_decision,
}
use aops_pmoa.Policy.Engine.Spec.{Governs}
use aops_pmoa.Policy.Engine.Decision.{evaluate-eq_iff}
use aops_pmoa.Policy.Engine.Order.{evaluate_permuted, evaluate-append_mono}
use aops_pmoa.Policy.Engine.Matching.{
  IsMatch, matches_statement_iff, IsAtMost, evaluate-allow-capped,
}
use aops_pmoa.Policy.Validator.{validate_policy_statements}
use aops_pmoa.Policy.Validator.Accepts.{IsWellFormed, HasDistinctIds, validate-valid_iff}

-- Whole amounts in decimal digits; any other text is not a number.
abbrev digits_value : ℕ → List ℕ → Option ℕ
digits_value acc [] = some acc
digits_value acc (c ∷ cs) =
    let rest = digits_value (acc * 10 + (c - b'0')) cs in
    if leb b'0' c && leb c b'9' then rest else none

abbrev whole_numbers : Floats
whole_numbers = record {
  Float = Option ℕ;
  of_text = λ s. digits_value 0 (codes s);
  is_finite = is_some;
  lt = λ a b. elim a [ none ↦ false | some x ↦ elim b [ none ↦ false | some y ↦ ltb x y ] ];
}

abbrev capped : PaymentCondition
capped = record {
  min_amount = none;
  max_amount = some "50";
  assets = some ("USDC" ∷ []);
  networks = none;
  recipients = some [];
}

abbrev payments_only : PolicyStatementConditions
payments_only = record { resource = none; payment = some capped; tool = none }

abbrev small_payments : PolicyStatement
small_payments = record {
  id = "small";
  decision = allow;
  actions = "payment.execute" ∷ [];
  actor = some (some (operator ∷ []));
  target = none;
  conditions = some payments_only;
  audit = detailed;
}

abbrev review_all : PolicyStatement
review_all = record {
  id = "review";
  decision = approval_required;
  actions = "*" ∷ [];
  actor = none;
  target = none;
  conditions = none;
  audit = detailed;
}

abbrev first_policy : EffectivePolicy
first_policy = record {
  policy_id = "p1";
  version = 1;
  name = "payments";
  statements = small_payments ∷ [];
}

abbrev second_policy : EffectivePolicy
second_policy = record { policy_id = "p2"; version = 3; name = "all"; statements = review_all ∷ [] }

-- A payment, its amount given as a text.
abbrev pay : String → PolicyDecisionRequest (Option ℕ)
pay amount = record {
  actor = record { type = user; id = none; role = some operator };
  action = "payment.execute";
  target = record { type = org; id = none };
  context = ("payment", obj (prop "amount" (str amount) (prop "asset" (str "USDC") end))) ∷ [];
}

engine : Unit {0}
unfolding evaluate_policy_decision matched_statements matches_statement matches_conditions
    matches_resource_condition matches_payment_condition matches_tool_condition includes_if_present
    object_at string_at number_at decide_matched reason_code explanation flat_map flatten
    Option.bind is_blank
engine = tt

decisions :
    ((evaluate_policy_decision whole_numbers (pay "40") (first_policy ∷ []) none).decision ≡ allow)
    × ((evaluate_policy_decision whole_numbers (pay "60") (first_policy ∷ []) none).decision ≡ deny)
    × ((evaluate_policy_decision whole_numbers (pay "x") (first_policy ∷ []) none).decision ≡ deny)
    × ((evaluate_policy_decision whole_numbers
          (pay "40")
          (first_policy ∷ second_policy ∷ [])
          none).decision
        ≡ approval_required)
    × ((evaluate_policy_decision whole_numbers
          (pay "40")
          []
          (some PolicyDefaultEffect.allow)).decision
        ≡ allow)
unfolding engine
decisions = (refl, refl, refl, refl, refl)

small_matches :
    (matches_statement whole_numbers small_payments (pay "40") ≡ true)
    ↔ IsMatch whole_numbers small_payments (pay "40")
small_matches = matches_statement_iff whole_numbers small_payments (pay "40")

decision_example :
    ((evaluate_policy_decision whole_numbers (pay "60") (first_policy ∷ []) none).decision ≡ deny)
    ↔ Governs whole_numbers (pay "60") (first_policy ∷ []) none deny
decision_example = evaluate-eq_iff whole_numbers (pay "60") (first_policy ∷ []) none deny

permuted_example :
    (evaluate_policy_decision whole_numbers
      (pay "40")
      (first_policy ∷ second_policy ∷ [])
      none).decision
    ≡ (evaluate_policy_decision whole_numbers
        (pay "40")
        (second_policy ∷ first_policy ∷ [])
        none).decision
permuted_example =
    evaluate_permuted whole_numbers (pay "40") none (Perm.swap second_policy first_policy [])

append_example :
    decision_rank
      (evaluate_policy_decision whole_numbers (pay "40") (first_policy ∷ []) none).decision
    ≤ decision_rank
        (evaluate_policy_decision whole_numbers
          (pay "40")
          ((first_policy ∷ []) ++ (second_policy ∷ []))
          none).decision
unfolding engine
append_example =
    evaluate-append_mono whole_numbers (pay "40") none (first_policy ∷ []) (second_policy ∷ [])
      (inl (inl (refl, tt)))

capped_example :
    IsAtMost whole_numbers "50"
      (number_at whole_numbers (object_at (pay "40").context "payment") "amount")
unfolding engine
capped_example =
    evaluate-allow-capped whole_numbers "50" (pay "40") (first_policy ∷ []) none refl
      (((λ m d. (payments_only, capped, refl, refl, refl)), tt), tt) refl

validate_example :
    ((validate_policy_statements
        ("payment.execute" ∷ [])
        (("payment.execute", payment ∷ []) ∷ [])
        whole_numbers
        (small_payments ∷ review_all ∷ [])).valid
      ≡ true)
    ↔ ((small_payments ∷ review_all ∷ [] ≢ [])
        × All
            (IsWellFormed
              ("payment.execute" ∷ [])
              (("payment.execute", payment ∷ []) ∷ [])
              whole_numbers)
            (small_payments ∷ review_all ∷ [])
        × HasDistinctIds (small_payments ∷ review_all ∷ []))
validate_example =
    validate-valid_iff ("payment.execute" ∷ []) (("payment.execute", payment ∷ []) ∷ [])
      whole_numbers (small_payments ∷ review_all ∷ [])
