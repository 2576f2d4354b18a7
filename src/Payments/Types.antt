-- ===== src/Payments/Types.antt =====
-- Row types of the payments engine: apps/api/src/engines/payments/types.ts, x402-attempt-store.ts,
-- ledger.ts and the columns of their tables. Columns of type numeric(20,6) are whole millionths;
-- times are whole microseconds.
use aops_pmoa.Prelude.{ℕ, ◌≡◌, ◌↔◌, String, true, Option, List, arith, Comparable, nat_beq}
use aops_pmoa.Prelude.Int.{ℤ}

pub data PaymentMode : Type 0 where
  test live : PaymentMode

pub data PaymentChain : Type 0 where
  base arbitrum polygon optimism avalanche arc : PaymentChain

pub data PaymentRail : Type 0 where
  gateway_base gateway_arbitrum gateway_polygon gateway_optimism : PaymentRail
  gateway_avalanche gateway_arc : PaymentRail
  exact_base exact_arbitrum exact_polygon exact_optimism exact_avalanche exact_arc : PaymentRail

pub data X402AttemptStatus : Type 0 where
  reserved submitting settled failed unknown : X402AttemptStatus

pub data ReservationStatus : Type 0 where
  reserved settled released failed : ReservationStatus

pub data ApprovalStatus : Type 0 where
  pending approved denied expired other : ApprovalStatus

-- A value of a metadata object: absent, a text, a whole number from 0, or anything else.
pub data MetadataValue : Type 0 where
  undefined : MetadataValue
  text : String → MetadataValue
  whole : ℕ → MetadataValue
  other : MetadataValue

abbrev pub Metadata : Type 0
Metadata = List (String × MetadataValue)

pub record X402ResultEnvelope : Type 0 where
  pub algorithm : String
  pub ciphertext : String
  pub iv : String
  pub tag : String
  pub version : ℕ

pub record X402AttemptRow : Type 0 where
  pub id : String
  pub org_id : String
  pub agent_id : String
  pub connection_id : Option String
  pub source_id : Option String
  pub idempotency_key : String
  pub request_hash : String
  pub quote_hash : Option String
  pub amount_usdc : Option ℕ
  pub asset : Option String
  pub rail : Option PaymentRail
  pub network : Option String
  pub recipient : Option String
  pub status : X402AttemptStatus
  pub payment_metadata : Metadata
  pub response_metadata : Metadata
  pub encrypted_result : Option X402ResultEnvelope
  pub result_expires_at : Option ℕ
  pub error_code : Option String
  pub created_at : ℕ
  pub updated_at : ℕ
  pub submitted_at : Option ℕ
  pub finalized_at : Option ℕ

pub record ReservationRow : Type 0 where
  pub id : String
  pub org_id : String
  pub agent_id : String
  pub amount_usdc : ℕ
  pub status : ReservationStatus
  pub reason_code : String
  pub expires_at : ℕ
  pub updated_at : ℕ

pub record AccountRow : Type 0 where
  pub org_id : String
  pub agent_id : String
  pub reserved_usdc : ℕ
  pub updated_at : ℕ

pub record ApprovalRow : Type 0 where
  pub id : String
  pub org_id : String
  pub agent_id : String
  pub connection_id : String
  pub status : ApprovalStatus
  pub expires_at : ℕ

pub record ConnectionRow : Type 0 where
  pub id : String
  pub org_id : String
  pub agent_id : String

-- Agents and payment sources, of which the engine reads the id and the organisation.
pub record OwnedRow : Type 0 where
  pub id : String
  pub org_id : String

pub data LedgerEntryType : Type 0 where
  reserve release settle topup sweep deposit correction : LedgerEntryType

pub record LedgerPostingRow : Type 0 where
  pub id : String
  pub org_id : String
  pub agent_id : Option String
  pub mode : PaymentMode
  pub chain : Option PaymentChain
  pub entry_type : LedgerEntryType
  pub amount_usdc : ℤ
  pub reservation_id : Option String
  pub attempt_id : Option String
  pub job_id : Option String
  pub corrects_posting_id : Option String
  pub reason_code : String
  pub created_by : String
  pub created_at : ℕ

-- The tables that the operations read and write.
pub record PaymentsDb : Type 0 where
  pub attempts : List X402AttemptRow
  pub reservations : List ReservationRow
  pub accounts : List AccountRow
  pub approvals : List ApprovalRow
  pub connections : List ConnectionRow
  pub agents : List OwnedRow
  pub sources : List OwnedRow
  pub payment_modes : List (String × PaymentMode)
  pub postings : List LedgerPostingRow

abbrev attempt_status_index : X402AttemptStatus → ℕ
attempt_status_index X402AttemptStatus.reserved = 0
attempt_status_index submitting = 1
attempt_status_index X402AttemptStatus.settled = 2
attempt_status_index X402AttemptStatus.failed = 3
attempt_status_index unknown = 4

abbrev reservation_status_index : ReservationStatus → ℕ
reservation_status_index ReservationStatus.reserved = 0
reservation_status_index ReservationStatus.settled = 1
reservation_status_index released = 2
reservation_status_index ReservationStatus.failed = 3

abbrev approval_status_index : ApprovalStatus → ℕ
approval_status_index pending = 0
approval_status_index approved = 1
approval_status_index denied = 2
approval_status_index expired = 3
approval_status_index ApprovalStatus.other = 4

abbrev mode_index : PaymentMode → ℕ
mode_index test = 0
mode_index live = 1

abbrev entry_type_index : LedgerEntryType → ℕ
entry_type_index reserve = 0
entry_type_index release = 1
entry_type_index settle = 2
entry_type_index topup = 3
entry_type_index sweep = 4
entry_type_index deposit = 5
entry_type_index correction = 6

pub attempt_status_iff :
    (a b : X402AttemptStatus)
    → (nat_beq (attempt_status_index a) (attempt_status_index b) ≡ true) ↔ (a ≡ b)
attempt_status_iff a b = ground arith

pub reservation_status_iff :
    (a b : ReservationStatus)
    → (nat_beq (reservation_status_index a) (reservation_status_index b) ≡ true) ↔ (a ≡ b)
reservation_status_iff a b = ground arith

pub approval_status_iff :
    (a b : ApprovalStatus)
    → (nat_beq (approval_status_index a) (approval_status_index b) ≡ true) ↔ (a ≡ b)
approval_status_iff a b = ground arith

pub mode_iff : (a b : PaymentMode) → (nat_beq (mode_index a) (mode_index b) ≡ true) ↔ (a ≡ b)
mode_iff a b = ground arith

pub entry_type_iff :
    (a b : LedgerEntryType) → (nat_beq (entry_type_index a) (entry_type_index b) ≡ true) ↔ (a ≡ b)
entry_type_iff a b = ground arith

instance abbrev pub attempt_status_comparable : Comparable X402AttemptStatus
attempt_status_comparable = record {
  same = λ a b. nat_beq (attempt_status_index a) (attempt_status_index b);
  same_iff = attempt_status_iff;
}

instance abbrev pub reservation_status_comparable : Comparable ReservationStatus
reservation_status_comparable = record {
  same = λ a b. nat_beq (reservation_status_index a) (reservation_status_index b);
  same_iff = reservation_status_iff;
}

instance abbrev pub approval_status_comparable : Comparable ApprovalStatus
approval_status_comparable = record {
  same = λ a b. nat_beq (approval_status_index a) (approval_status_index b);
  same_iff = approval_status_iff;
}

instance abbrev pub mode_comparable : Comparable PaymentMode
mode_comparable = record {
  same = λ a b. nat_beq (mode_index a) (mode_index b);
  same_iff = mode_iff;
}

instance abbrev pub entry_type_comparable : Comparable LedgerEntryType
entry_type_comparable = record {
  same = λ a b. nat_beq (entry_type_index a) (entry_type_index b);
  same_iff = entry_type_iff;
}

-- The first amount that does not fit into a column numeric(20, 6).
abbrev pub numeric_limit : ℕ
numeric_limit = 100000000000000000000
