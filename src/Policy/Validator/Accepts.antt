-- ===== src/Policy/Validator/Accepts.antt =====
-- What validator.ts accepts: well-formed lists of statements.
use aops_pmoa.Prelude.{
  ℕ, ◌+◌, ◌≡◌, ◌≢◌, ◌↔◌, ◌⊎◌, inl, inr, refl, sym, String, true, false, not, ◌&&◌, Option, none,
  some, List, [], ◌∷◌, arith, ◌==◌, text_comparable, is_some, is_empty, is_blank, includes,
  includes_iff, when, is_empty-append, is_empty-when, collect_iff, All, Any, Given,
}
use aops_pmoa.JsonValue.{Floats}
use aops_pmoa.Policy.Types.{
  PolicyConditionGroup, group_comparable, decision_comparable, audit_comparable, ResourceCondition,
  PaymentCondition, ToolCondition, PolicyStatement, PolicyDecisionValue, PolicyAuditLevel,
}
use aops_pmoa.Policy.Validator.{
  allowed_decisions, allowed_audit_levels, supported_condition_groups, resource_of, payment_of,
  tool_of, has_resource_condition, has_payment_condition, has_tool_condition, used_condition_groups,
  id_errors, min_amount_of, max_amount_of, empty_condition_errors, action_errors, is_invalid_bound,
  statement_errors, errors_from, validate_policy_statements, unknown_action, unsupported_group,
}

abbrev pub NonEmpty : {A : Type 0} → Option (List A) → Type 0
NonEmpty none = ⊥
NonEmpty (some []) = ⊥
NonEmpty (some (x ∷ xs)) = Unit

abbrev pub IsGiven : {A : Type 0} → Option A → Type 0
IsGiven none = ⊥
IsGiven (some a) = Unit

-- No id occurs twice.
abbrev pub HasDistinctIds : List PolicyStatement → Type 0
HasDistinctIds [] = Unit
HasDistinctIds (s ∷ ss) = ¬ Any (λ t. t.id ≡ s.id) ss × HasDistinctIds ss

abbrev IsUnseen : List String → PolicyStatement → Type 0
IsUnseen seen s = ¬ Any (λ i. i ≡ s.id) seen

-- Nothing was seen with the new id among those seen exactly if nothing was seen before, and the new
-- id is not among the ids to come.
IsUnseen-cons_iff :
    (seen : List String) (id : String) (ss : List PolicyStatement)
    → All (IsUnseen (id ∷ seen)) ss ↔ (All (IsUnseen seen) ss × ¬ Any (λ t. t.id ≡ id) ss)
IsUnseen-cons_iff seen id [] = (λ h. (tt, λ k. k), λ h. tt)
IsUnseen-cons_iff seen id (s ∷ ss) =
    let (to, from) = IsUnseen-cons_iff seen id ss in
    (
      λ h. (
        (λ k. h.0 (inr k), (to h.1).0),
        λ k. elim k [ inl same ↦ h.0 (inl (sym same)) | inr later ↦ (to h.1).1 later ],
      ),
      λ h. (
        λ k. elim k [ inl same ↦ h.1 (inl (sym same)) | inr later ↦ h.0.0 later ],
        from (h.0.1, λ k. h.1 (inr k)),
      ),
    )

-- What a condition restricts, where it is not empty.
abbrev pub RestrictsResource : ResourceCondition → Type 0
RestrictsResource r = NonEmpty r.categories ⊎ NonEmpty r.domains

abbrev pub RestrictsPayment : PaymentCondition → Type 0
RestrictsPayment p =
    IsGiven p.min_amount
    ⊎ IsGiven p.max_amount
    ⊎ NonEmpty p.assets
    ⊎ NonEmpty p.networks
    ⊎ NonEmpty p.recipients

abbrev pub RestrictsTool : ToolCondition → Type 0
RestrictsTool t = NonEmpty t.names ⊎ NonEmpty t.risk_levels

not-is_empty : (s : PolicyStatement) → (is_empty s.actions ≡ false) ↔ (s.actions ≢ [])
not-is_empty s = ground arith

resource_used_iff :
    (s : PolicyStatement)
    → ((is_some (resource_of s) && not (has_resource_condition s)) ≡ false)
      ↔ Given RestrictsResource (resource_of s)
unfolding has_resource_condition
resource_used_iff s = ground arith

payment_used_iff :
    (s : PolicyStatement)
    → ((is_some (payment_of s) && not (has_payment_condition s)) ≡ false)
      ↔ Given RestrictsPayment (payment_of s)
unfolding has_payment_condition
payment_used_iff s = ground arith

tool_used_iff :
    (s : PolicyStatement)
    → ((is_some (tool_of s) && not (has_tool_condition s)) ≡ false)
      ↔ Given RestrictsTool (tool_of s)
unfolding has_tool_condition
tool_used_iff s = ground arith

empty_condition_errors_iff :
    (s : PolicyStatement)
    → (is_empty (empty_condition_errors s) ≡ true) ↔ (
        Given RestrictsResource (resource_of s)
        × Given RestrictsPayment (payment_of s)
        × Given RestrictsTool (tool_of s))
unfolding empty_condition_errors
empty_condition_errors_iff s =
    simp (is_empty-append, is_empty-when)
      (ground (arith, resource_used_iff s, payment_used_iff s, tool_used_iff s))

bound_iff :
    (floats : Floats) (bound : Option String)
    → (is_invalid_bound floats bound ≡ false)
      ↔ Given (λ b. floats.is_finite (floats.of_text b) ≡ true) bound
bound_iff floats bound = ground arith

id_errors_iff :
    (index : ℕ) (seen : List String) (s : PolicyStatement)
    → (is_empty (id_errors index seen s.id) ≡ true) ↔ ((is_blank s.id ≡ false) × IsUnseen seen s)
id_errors_iff index seen s = ground (arith, includes_iff seen s.id)

-- The checks of the decision and of the audit level pass for every value of their types.
decision_allowed : (d : PolicyDecisionValue) → includes allowed_decisions d ≡ true
decision_allowed d = ground arith

audit_allowed : (a : PolicyAuditLevel) → includes allowed_audit_levels a ≡ true
audit_allowed a = ground arith

module _ (known_actions : List String) (groups : List (String × List PolicyConditionGroup))
    (floats : Floats) where
  open floats use {of_text, is_finite}

  abbrev pub IsKnown : String → Type 0
  IsKnown action = (action ≡ "*") ⊎ Any (λ k. k ≡ action) known_actions

  abbrev pub Supports : PolicyConditionGroup → String → Type 0
  Supports group action = Any (λ g. g ≡ group) (supported_condition_groups groups action)

  -- A statement on its own.
  pub record IsWellFormed (s : PolicyStatement) : Type 0 where
    pub has_id : is_blank s.id ≡ false
    pub has_actions : s.actions ≢ []
    pub actions_known : All IsKnown s.actions
    pub groups_supported : All (λ g. All (Supports g) s.actions) (used_condition_groups s)
    pub resource_used : Given RestrictsResource (resource_of s)
    pub payment_used : Given RestrictsPayment (payment_of s)
    pub tool_used : Given RestrictsTool (tool_of s)
    pub min_finite : Given (λ b. is_finite (of_text b) ≡ true) (min_amount_of s)
    pub max_finite : Given (λ b. is_finite (of_text b) ≡ true) (max_amount_of s)

  IsKnown-iff :
      (id action : String)
      → (is_empty (
            when
              (not (action == "*") && not (includes known_actions action))
              (unknown_action id action))
          ≡ true)
        ↔ IsKnown action
  IsKnown-iff id action =
      ground (arith, text_comparable.same_iff action "*", includes_iff known_actions action)

  Supports-iff :
      (id : String) (group : PolicyConditionGroup) (action : String)
      → (is_empty (
            when
              (not (includes (supported_condition_groups groups action) group))
              (unsupported_group id action group))
          ≡ true)
        ↔ Supports group action
  Supports-iff id group action =
      ground (arith, includes_iff (supported_condition_groups groups action) group)

  action_errors_iff :
      (s : PolicyStatement)
      → (is_empty (action_errors known_actions groups s) ≡ true) ↔ (
          (s.actions ≢ [])
          × All IsKnown s.actions
          × All (λ g. All (Supports g) s.actions) (used_condition_groups s))
  unfolding action_errors
  action_errors_iff s =
      let known = collect_iff _ _ (IsKnown-iff s.id) s.actions in
      let supported =
        collect_iff _ _ (λ g. collect_iff _ _ (Supports-iff s.id g) s.actions)
          (used_condition_groups s) in
      simp (is_empty-append, is_empty-when) (ground (arith, known, supported, not-is_empty s))

  -- One round adds no error exactly if the statement is well formed and its id was not seen.
  statement_errors_iff :
      (index : ℕ) (seen : List String) (s : PolicyStatement)
      → (is_empty (statement_errors known_actions groups floats index seen s) ≡ true)
        ↔ (IsWellFormed s × IsUnseen seen s)
  unfolding statement_errors
  statement_errors_iff index seen s =
      simp (is_empty-append, is_empty-when)
        (ground (
          arith,
          id_errors_iff index seen s,
          decision_allowed s.decision,
          action_errors_iff s,
          empty_condition_errors_iff s,
          bound_iff floats (min_amount_of s),
          bound_iff floats (max_amount_of s),
          audit_allowed s.audit,
        ))

  errors_from_iff :
      (index : ℕ) (seen : List String) (ss : List PolicyStatement)
      → (is_empty (errors_from known_actions groups floats index seen ss) ≡ true)
        ↔ (All IsWellFormed ss × All (IsUnseen seen) ss × HasDistinctIds ss)
  unfolding errors_from
  errors_from_iff index seen [] = (λ e. (tt, tt, tt), λ h. refl)
  errors_from_iff index seen (s ∷ ss) = rw is_empty-append (
      ground (
        arith,
        statement_errors_iff index seen s,
        errors_from_iff (index + 1) (s.id ∷ seen) ss,
        IsUnseen-cons_iff seen s.id ss,
      ))

  All-IsUnseen : (ss : List PolicyStatement) → All (IsUnseen []) ss
  All-IsUnseen [] = tt
  All-IsUnseen (s ∷ ss) = (λ h. h, All-IsUnseen ss)

  -- Validation succeeds exactly if there is a statement, every statement is well formed, and no two
  -- statements have the same id.
  pub validate-valid_iff :
      (statements : List PolicyStatement)
      → ((validate_policy_statements known_actions groups floats statements).valid ≡ true)
        ↔ ((statements ≢ []) × All IsWellFormed statements × HasDistinctIds statements)
  unfolding validate_policy_statements
  validate-valid_iff statements =
      simp (is_empty-append, is_empty-when)
        (ground (arith, errors_from_iff 0 [] statements, All-IsUnseen statements))
