-- ===== src/Evidence/Audit/Types.antt =====
-- Inputs and rows of audit-writer.ts. Times are whole milliseconds; sequences are whole numbers.
use aops_pmoa.Prelude.{ℕ, String, Option, List}
use aops_pmoa.JsonValue.{Json}

pub data AuditActorType : Type 0 where
  user agent connection system service key unknown : AuditActorType

pub data AuditOutcome : Type 0 where
  success denied failure pending : AuditOutcome

pub data AuditRetentionClass : Type 0 where
  standard payment security legal_hold : AuditRetentionClass

pub data AuditEventDomain : Type 0 where
  identity credential policy wallet payment treasury system : AuditEventDomain

pub data AuditEventCategory : Type 0 where
  configuration policy runtime financial security compliance : AuditEventCategory

pub data AuditSeverity : Type 0 where
  info warning critical : AuditSeverity

pub data RedactionState : Type 0 where
  unredacted redacted : RedactionState

-- The optional objects of the input are written out field by field, an absent one having absent
-- fields; a resource has both of its own.
pub record RecordAuditEventInput (Float : Type 0) : Type 0 where
  pub org_id : String
  pub idempotency_key : Option String
  pub event_type : String
  pub occurred_at : Option ℕ
  pub actor_type : AuditActorType
  pub actor_id : Option String
  pub action : String
  pub outcome : AuditOutcome
  pub reason_code : Option String
  pub resource : Option (String × String)
  pub domain : Option AuditEventDomain
  pub category : Option AuditEventCategory
  pub severity : Option AuditSeverity
  pub tags : Option (List String)
  pub related_agent : Option String
  pub related_team : Option String
  pub related_connection : Option String
  pub related_wallet_ref : Option String
  pub related_policy : Option String
  pub related_wallet : Option String
  pub request_id : Option String
  pub source_section : Option String
  pub source_system : Option String
  pub source_ref : Option String
  pub policy_ref : Option String
  pub decision_ref : Option String
  pub approval_ref : Option String
  pub external_refs : Option (Json Float)
  pub retention_class : Option AuditRetentionClass
  pub payload : Option (Json Float)

pub record AuditEventRow (Float : Type 0) : Type 0 where
  pub id : String
  pub org_id : String
  pub sequence : ℕ
  pub idempotency_key : Option String
  pub event_type : String
  pub occurred_at : ℕ
  pub actor_type : AuditActorType
  pub actor_id : Option String
  pub action : String
  pub outcome : AuditOutcome
  pub reason_code : Option String
  pub resource_type : Option String
  pub resource_id : Option String
  pub event_domain : AuditEventDomain
  pub event_category : AuditEventCategory
  pub severity : AuditSeverity
  pub tags : List String
  pub related_agent_id : Option String
  pub related_team_id : Option String
  pub related_connection_id : Option String
  pub related_wallet_ref_id : Option String
  pub related_policy_id : Option String
  pub related_wallet_id : Option String
  pub request_id : Option String
  pub source_section : Option String
  pub source_system : Option String
  pub source_ref : Option String
  pub policy_ref : Option String
  pub decision_ref : Option String
  pub approval_ref : Option String
  pub external_refs : Json Float
  pub retention_class : AuditRetentionClass
  pub redaction_state : RedactionState
  pub payload : Json Float
  pub canonical_body : Json Float
  pub canonical_body_hash : String
  pub previous_hash : Option String
  pub event_hash : String

-- audit_event_heads
pub record AuditHeadRow : Type 0 where
  pub org_id : String
  pub last_sequence : ℕ
  pub last_event_hash : Option String

pub record AuditDb (Float : Type 0) : Type 0 where
  pub events : List (AuditEventRow Float)
  pub heads : List AuditHeadRow

abbrev pub actor_type_text : AuditActorType → String
actor_type_text user = "user"
actor_type_text agent = "agent"
actor_type_text connection = "connection"
actor_type_text AuditActorType.system = "system"
actor_type_text service = "service"
actor_type_text key = "key"
actor_type_text unknown = "unknown"

abbrev pub outcome_text : AuditOutcome → String
outcome_text success = "success"
outcome_text denied = "denied"
outcome_text failure = "error"
outcome_text pending = "pending"

abbrev pub retention_text : AuditRetentionClass → String
retention_text standard = "standard"
retention_text AuditRetentionClass.payment = "payment"
retention_text AuditRetentionClass.security = "security"
retention_text legal_hold = "legal_hold"

abbrev pub domain_text : AuditEventDomain → String
domain_text identity = "identity"
domain_text credential = "credential"
domain_text AuditEventDomain.policy = "policy"
domain_text wallet = "wallet"
domain_text AuditEventDomain.payment = "payment"
domain_text treasury = "treasury"
domain_text AuditEventDomain.system = "system"

abbrev pub category_text : AuditEventCategory → String
category_text configuration = "configuration"
category_text AuditEventCategory.policy = "policy"
category_text runtime = "runtime"
category_text financial = "financial"
category_text AuditEventCategory.security = "security"
category_text compliance = "compliance"

abbrev pub severity_text : AuditSeverity → String
severity_text info = "info"
severity_text warning = "warning"
severity_text critical = "critical"

abbrev pub redaction_text : RedactionState → String
redaction_text unredacted = "none"
redaction_text redacted = "redacted"
