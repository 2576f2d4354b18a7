-- ===== src/Policy/Engine/Matching.antt =====
-- Which statements match a request, as a predicate without tests, and what a bounded payment
-- condition says of the amount of a request that is allowed.
use mathlib.Core.Option
use aops_pmoa.Prelude.{
  ◌≡◌, ◌↔◌, ◌⊎◌, inl, inr, refl, ◌∙◌, String, Bool, true, false, Option, none, some, List, [], ◌∷◌,
  arith, Comparable, Any, includes_iff, text_comparable, Given,
}
use aops_pmoa.JsonValue.{Json, Floats}
use aops_pmoa.Policy.Types.{
  role_comparable, target_comparable, allow, ResourceCondition, PaymentCondition, ToolCondition,
  PolicyStatement, PolicyStatementConditions, PolicyDefaultEffect, PolicyDecisionRequest,
  EffectivePolicy,
}
use aops_pmoa.Policy.Values.{includes_if_present, object_at, string_at, number_at}
use aops_pmoa.Policy.Engine.{
  matches_resource_condition, at_least, at_most, matches_payment_condition, matches_tool_condition,
  if_given, matches_conditions, matches_statement, is_permissive, evaluate_policy_decision,
}
use aops_pmoa.Policy.Engine.Spec.{EveryMatch}
use aops_pmoa.Policy.Engine.Decision.{meet, evaluate-Governs}

-- A list that is absent or empty permits everything; any other permits its elements.
abbrev pub Permits : {A : Type 0} → Option (List A) → Option A → Type 0
Permits none actual = Unit
Permits (some []) actual = Unit
Permits (some (x ∷ xs)) none = ⊥
Permits (some (x ∷ xs)) (some a) = Any (λ y. y ≡ a) (x ∷ xs)

includes_if_present_iff :
    {A : Type 0} ⦃e : Comparable A⦄ (allowed : Option (List A)) (actual : Option A)
    → (includes_if_present allowed actual ≡ true) ↔ Permits allowed actual
unfolding includes_if_present
includes_if_present_iff none actual = (λ e. tt, λ h. refl)
includes_if_present_iff (some []) actual = (λ e. tt, λ h. refl)
includes_if_present_iff (some (x ∷ xs)) none = (λ e. cc, λ h. absurd h)
includes_if_present_iff (some (x ∷ xs)) (some a) = includes_iff (x ∷ xs) a

if_given_iff :
    {A : Type 0} (P : A → Type 0) (test : A → Bool)
    → ((a : A) → (test a ≡ true) ↔ P a)
    → (o : Option A) → (if_given test o ≡ true) ↔ Given P o
if_given_iff P test h none = (λ e. tt, λ k. refl)
if_given_iff P test h (some a) = h a

module _ (floats : Floats) where
  open floats use {Float, of_text, is_finite, lt}

  -- The bound is a finite number, and a finite amount is given that lies on its right side.
  abbrev pub IsAtLeast : String → Option Float → Type 0
  IsAtLeast bound none = ⊥
  IsAtLeast bound (some a) = (is_finite (of_text bound) ≡ true) × (lt a (of_text bound) ≡ false)

  abbrev pub IsAtMost : String → Option Float → Type 0
  IsAtMost bound none = ⊥
  IsAtMost bound (some a) = (is_finite (of_text bound) ≡ true) × (lt (of_text bound) a ≡ false)

  at_least_iff :
      (bound : Option String) (amount : Option Float)
      → (at_least floats bound amount ≡ true) ↔ Given (λ b. IsAtLeast b amount) bound
  at_least_iff bound amount = ground arith

  at_most_iff :
      (bound : Option String) (amount : Option Float)
      → (at_most floats bound amount ≡ true) ↔ Given (λ b. IsAtMost b amount) bound
  at_most_iff bound amount = ground arith

  abbrev pub MeetsResource : List (String × Json Float) → ResourceCondition → Type 0
  MeetsResource context c =
      Permits c.categories (string_at (object_at context "resource") "category")
      × Permits c.domains (string_at (object_at context "resource") "domain")

  abbrev pub MeetsPayment : List (String × Json Float) → PaymentCondition → Type 0
  MeetsPayment context c =
      Given (λ b. IsAtLeast b (number_at floats (object_at context "payment") "amount"))
        c.min_amount
      × Given (λ b. IsAtMost b (number_at floats (object_at context "payment") "amount"))
          c.max_amount
      × Permits c.assets (string_at (object_at context "payment") "asset")
      × Permits c.networks (string_at (object_at context "payment") "network")
      × Permits c.recipients (string_at (object_at context "payment") "recipient")

  abbrev pub MeetsTool : List (String × Json Float) → ToolCondition → Type 0
  MeetsTool context c =
      Permits c.names (string_at (object_at context "tool") "name")
      × Permits c.risk_levels (string_at (object_at context "tool") "riskLevel")

  abbrev pub MeetsConditions : List (String × Json Float) → PolicyStatementConditions → Type 0
  MeetsConditions context c =
      Given (MeetsResource context) c.resource
      × Given (MeetsPayment context) c.payment
      × Given (MeetsTool context) c.tool

  -- A statement matches: one of its actions is the wildcard or the request's, and each restriction
  -- that it makes permits what the request shows.
  pub record IsMatch (s : PolicyStatement) (r : PolicyDecisionRequest Float) : Type 0 where
    pub action : Any (λ a. a ≡ "*") s.actions ⊎ Any (λ a. a ≡ r.action) s.actions
    pub role : Permits (Option.bind s.actor (λ roles. roles)) r.actor.role
    pub target_type : Permits (Option.bind s.target (λ t. t.types)) (some r.target.type)
    pub target_id : Permits (Option.bind s.target (λ t. t.ids)) r.target.id
    pub conditions : Given (MeetsConditions r.context) s.conditions

  matches_resource_iff :
      (context : List (String × Json Float)) (c : ResourceCondition)
      → (matches_resource_condition floats c context ≡ true) ↔ MeetsResource context c
  unfolding matches_resource_condition
  matches_resource_iff context c = ground (
    arith,
    includes_if_present_iff c.categories (string_at (object_at context "resource") "category"),
    includes_if_present_iff c.domains (string_at (object_at context "resource") "domain"),
  )

  matches_payment_iff :
      (context : List (String × Json Float)) (c : PaymentCondition)
      → (matches_payment_condition floats c context ≡ true) ↔ MeetsPayment context c
  unfolding matches_payment_condition
  matches_payment_iff context c =
      let payment = object_at context "payment" in
      ground (
        arith,
        at_least_iff c.min_amount (number_at floats payment "amount"),
        at_most_iff c.max_amount (number_at floats payment "amount"),
        includes_if_present_iff c.assets (string_at payment "asset"),
        includes_if_present_iff c.networks (string_at payment "network"),
        includes_if_present_iff c.recipients (string_at payment "recipient"),
      )

  matches_tool_iff :
      (context : List (String × Json Float)) (c : ToolCondition)
      → (matches_tool_condition floats c context ≡ true) ↔ MeetsTool context c
  unfolding matches_tool_condition
  matches_tool_iff context c = ground (
    arith,
    includes_if_present_iff c.names (string_at (object_at context "tool") "name"),
    includes_if_present_iff c.risk_levels (string_at (object_at context "tool") "riskLevel"),
  )

  matches_conditions_iff :
      (context : List (String × Json Float)) (c : Option PolicyStatementConditions)
      → (matches_conditions floats c context ≡ true) ↔ Given (MeetsConditions context) c
  unfolding matches_conditions
  matches_conditions_iff context none = (λ e. tt, λ h. refl)
  matches_conditions_iff context (some c) = ground (
    arith,
    if_given_iff _ _ (matches_resource_iff context) c.resource,
    if_given_iff _ _ (matches_payment_iff context) c.payment,
    if_given_iff _ _ (matches_tool_iff context) c.tool,
  )

  -- A statement passes the engine's tests exactly if its actions name the request's action or the
  -- wildcard and every restriction on role, target type, target id, resource, payment and tool
  -- permits the request; a restriction on a value that the request lacks permits nothing.
  pub matches_statement_iff :
      (s : PolicyStatement) (r : PolicyDecisionRequest Float)
      → (matches_statement floats s r ≡ true) ↔ IsMatch s r
  unfolding matches_statement
  matches_statement_iff s r = ground (
    arith,
    includes_iff s.actions "*",
    includes_iff s.actions r.action,
    includes_if_present_iff (Option.bind s.actor (λ roles. roles)) r.actor.role,
    includes_if_present_iff (Option.bind s.target (λ t. t.types)) (some r.target.type),
    includes_if_present_iff (Option.bind s.target (λ t. t.ids)) r.target.id,
    matches_conditions_iff r.context s.conditions,
  )

  -- The statement caps the payment amount at `cap`.
  abbrev pub Caps : String → PolicyStatement → Type 0
  Caps cap s =
      (c : PolicyStatementConditions) × (p : PaymentCondition) × (s.conditions ≡ some c)
      × (c.payment ≡ some p)
      × (p.max_amount ≡ some cap)

  IsMatch-capped :
      (cap : String) (s : PolicyStatement) (r : PolicyDecisionRequest Float)
      → matches_statement floats s r ≡ true
      → Caps cap s
      → IsAtMost cap (number_at floats (object_at r.context "payment") "amount")
  IsMatch-capped cap s r m (c, p, given, paid, capped) =
      let conditions : MeetsConditions r.context c =
        rw given at ((matches_statement_iff s r).0 m).conditions in
      let payment : MeetsPayment r.context p = rw paid at conditions.1 in rw capped at payment.1

  -- Where the default effect denies and every matching statement that allows caps the amount, a request
  -- that is allowed has a finite amount, given as a number or a text, which is not above the cap.
  pub evaluate-allow-capped :
      (cap : String) (r : PolicyDecisionRequest Float) (policies : List EffectivePolicy)
      (default_effect : Option PolicyDefaultEffect)
      → is_permissive default_effect ≡ false
      → EveryMatch floats r (λ s. s.decision ≡ allow → Caps cap s) policies
      → (evaluate_policy_decision floats r policies default_effect).decision ≡ allow
      → IsAtMost cap (number_at floats (object_at r.context "payment") "amount")
  evaluate-allow-capped cap r policies default_effect closed capped allowed =
      elim (evaluate-Governs floats r policies default_effect) [
        | inr (unmatched, e) ↦ absurd (ground arith)
        | inl (some_d, every_d) ↦
            meet floats r (λ s m d caps. IsMatch-capped cap s r m (caps (d ∙ allowed))) policies
              some_d capped
      ]
