-- ===== src/Approvals/Types.antt =====
-- Rows of store.ts and types.ts of approvals. Times are whole milliseconds.
use aops_pmoa.Prelude.{ℕ, String, Bool, true, false, Option, List}
use aops_pmoa.JsonValue.{Json}
use aops_pmoa.Evidence.Audit.Types.{AuditOutcome, AuditDb}

pub data ApprovalStatus : Type 0 where
  pending approved denied expired cancelled consumed : ApprovalStatus

abbrev pub is_pending : ApprovalStatus → Bool
is_pending pending = true
is_pending approved = false
is_pending denied = false
is_pending expired = false
is_pending cancelled = false
is_pending consumed = false

pub record ApprovalRow (Float : Type 0) : Type 0 where
  pub id : String
  pub org_id : String
  pub agent_id : String
  pub connection_id : String
  pub decision_id : String
  pub status : ApprovalStatus
  pub action_id : String
  pub target_type : String
  pub target_id : Option String
  pub context : Json Float
  pub context_hash : String
  pub requested_by : String
  pub approved_by : Option String
  pub approved_at : Option ℕ
  pub denied_by : Option String
  pub denied_at : Option ℕ
  pub consumed_at : Option ℕ
  pub expires_at : ℕ
  pub note : String
  pub required_approvals : ℕ
  pub created_at : ℕ
  pub updated_at : ℕ

-- approval_votes
pub record VoteRow : Type 0 where
  pub id : String
  pub org_id : String
  pub approval_id : String
  pub actor_id : String
  pub note : String

pub data ApprovalActor : Type 0 where
  user agent connection system : ApprovalActor

pub record ApprovalActionRow : Type 0 where
  pub id : String
  pub org_id : String
  pub approval_id : String
  pub actor_type : ApprovalActor
  pub actor_id : String
  pub action : ApprovalStatus
  pub note : String

pub record ActivityRow (Float : Type 0) : Type 0 where
  pub id : String
  pub org_id : String
  pub agent_id : Option String
  pub connection_id : Option String
  pub decision_id : Option String
  pub approval_id : Option String
  pub category : String
  pub action : String
  pub outcome : AuditOutcome
  pub summary : String
  pub payload : Json Float

pub record ApprovalsDb (Float : Type 0) : Type 0 where
  pub requests : List (ApprovalRow Float)
  pub votes : List VoteRow
  pub actions : List ApprovalActionRow
  pub activities : List (ActivityRow Float)
  pub audit : AuditDb Float

-- The random ids of one operation.
pub record Ids : Type 0 where
  pub vote : String
  pub action : String
  pub activity : String
  pub audit : String
