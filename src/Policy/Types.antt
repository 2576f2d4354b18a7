-- ===== src/Policy/Types.antt =====
-- apps/api/src/engines/policy/types.ts and the role of identity/types.ts: statements, requests and
-- decisions. Requests carry a JSON context over the engine's numbers.
use aops_pmoa.Prelude.{ℕ, ◌≡◌, ◌↔◌, String, true, Option, List, arith, Comparable, nat_beq}
use aops_pmoa.JsonValue.{Json}

pub data Role : Type 0 where
  owner admin operator auditor viewer member : Role

pub data PolicyDecisionValue : Type 0 where
  allow deny approval_required observe : PolicyDecisionValue

pub data PolicyDefaultEffect : Type 0 where
  deny allow : PolicyDefaultEffect

pub data PolicyEnforceability : Type 0 where
  enforceable : PolicyEnforceability

pub data PolicyTargetType : Type 0 where
  org team agent connection : PolicyTargetType

pub data PolicyAuditLevel : Type 0 where
  standard detailed : PolicyAuditLevel

pub data PolicyConditionGroup : Type 0 where
  resource payment tool : PolicyConditionGroup

pub data ActorType : Type 0 where
  user agent connection system : ActorType

pub record ResourceCondition : Type 0 where
  pub categories : Option (List String)
  pub domains : Option (List String)

pub record PaymentCondition : Type 0 where
  pub min_amount : Option String
  pub max_amount : Option String
  pub assets : Option (List String)
  pub networks : Option (List String)
  pub recipients : Option (List String)

pub record ToolCondition : Type 0 where
  pub names : Option (List String)
  pub risk_levels : Option (List String)

pub record PolicyStatementConditions : Type 0 where
  pub resource : Option ResourceCondition
  pub payment : Option PaymentCondition
  pub tool : Option ToolCondition

pub record StatementTarget : Type 0 where
  pub types : Option (List PolicyTargetType)
  pub ids : Option (List String)

-- `actor` is the optional object with its optional list `roles`.
pub record PolicyStatement : Type 0 where
  pub id : String
  pub decision : PolicyDecisionValue
  pub actions : List String
  pub actor : Option (Option (List Role))
  pub target : Option StatementTarget
  pub conditions : Option PolicyStatementConditions
  pub audit : PolicyAuditLevel

pub record RequestActor : Type 0 where
  pub type : ActorType
  pub id : Option String
  pub role : Option Role

pub record RequestTarget : Type 0 where
  pub type : PolicyTargetType
  pub id : Option String

pub record PolicyDecisionRequest (Float : Type 0) : Type 0 where
  pub actor : RequestActor
  pub action : String
  pub target : RequestTarget
  pub context : List (String × Json Float)

pub record EffectivePolicy : Type 0 where
  pub policy_id : String
  pub version : ℕ
  pub name : String
  pub statements : List PolicyStatement

pub record PolicyDecisionMatch : Type 0 where
  pub policy_id : String
  pub policy_version : ℕ
  pub policy_name : String
  pub statement_id : String
  pub decision : PolicyDecisionValue

pub record PolicyDecisionResult : Type 0 where
  pub decision : PolicyDecisionValue
  pub enforceability : PolicyEnforceability
  pub reason_code : String
  pub explanation : String
  pub matched : List PolicyDecisionMatch

-- Equality of the enumerations, through their positions.
abbrev role_index : Role → ℕ
role_index owner = 0
role_index admin = 1
role_index operator = 2
role_index auditor = 3
role_index viewer = 4
role_index member = 5

abbrev target_index : PolicyTargetType → ℕ
target_index org = 0
target_index team = 1
target_index PolicyTargetType.agent = 2
target_index PolicyTargetType.connection = 3

abbrev group_index : PolicyConditionGroup → ℕ
group_index resource = 0
group_index payment = 1
group_index tool = 2

pub role_beq_iff : (a b : Role) → (nat_beq (role_index a) (role_index b) ≡ true) ↔ (a ≡ b)
role_beq_iff a b = ground arith

pub target_beq_iff :
    (a b : PolicyTargetType) → (nat_beq (target_index a) (target_index b) ≡ true) ↔ (a ≡ b)
target_beq_iff a b = ground arith

pub group_beq_iff :
    (a b : PolicyConditionGroup) → (nat_beq (group_index a) (group_index b) ≡ true) ↔ (a ≡ b)
group_beq_iff a b = ground arith

instance abbrev pub role_comparable : Comparable Role
role_comparable = record {
  same = λ a b. nat_beq (role_index a) (role_index b);
  same_iff = role_beq_iff;
}

instance abbrev pub target_comparable : Comparable PolicyTargetType
target_comparable = record {
  same = λ a b. nat_beq (target_index a) (target_index b);
  same_iff = target_beq_iff;
}

instance abbrev pub group_comparable : Comparable PolicyConditionGroup
group_comparable = record {
  same = λ a b. nat_beq (group_index a) (group_index b);
  same_iff = group_beq_iff;
}

abbrev decision_index : PolicyDecisionValue → ℕ
decision_index PolicyDecisionValue.allow = 0
decision_index PolicyDecisionValue.deny = 1
decision_index approval_required = 2
decision_index observe = 3

abbrev audit_index : PolicyAuditLevel → ℕ
audit_index standard = 0
audit_index detailed = 1

pub decision_beq_iff :
    (a b : PolicyDecisionValue) → (nat_beq (decision_index a) (decision_index b) ≡ true) ↔ (a ≡ b)
decision_beq_iff a b = ground arith

pub audit_beq_iff :
    (a b : PolicyAuditLevel) → (nat_beq (audit_index a) (audit_index b) ≡ true) ↔ (a ≡ b)
audit_beq_iff a b = ground arith

instance abbrev pub decision_comparable : Comparable PolicyDecisionValue
decision_comparable = record {
  same = λ a b. nat_beq (decision_index a) (decision_index b);
  same_iff = decision_beq_iff;
}

instance abbrev pub audit_comparable : Comparable PolicyAuditLevel
audit_comparable = record {
  same = λ a b. nat_beq (audit_index a) (audit_index b);
  same_iff = audit_beq_iff;
}
