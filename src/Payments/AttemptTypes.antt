-- ===== src/Payments/AttemptTypes.antt =====
-- Inputs and checks of apps/api/src/engines/payments/x402-attempt-store.ts: scopes, the data of a
-- new attempt, and the metadata that a finalisation may write.
use aops_pmoa.Prelude.{
  ℕ, String, Bool, true, false, not, ◌&&◌, Option, none, some, List, [], ◌∷◌, leb, if◌then◌else◌,
  ◌==◌, text_comparable, all, filter, includes, Failure, identity_error, conflict,
}
use aops_pmoa.Payments.Types.{
  PaymentRail, MetadataValue, undefined, text, whole, other, Metadata, X402ResultEnvelope,
}

pub record X402AttemptScope : Type 0 where
  pub connection_id : String
  pub org_id : String

pub record X402ResultCryptoContext : Type 0 where
  pub attempt_id : String
  pub connection_id : String
  pub org_id : String

pub record CreateX402AttemptInput : Type 0 where
  pub org_id : String
  pub agent_id : String
  pub connection_id : String
  pub source_id : String
  pub idempotency_key : String
  pub request_hash : String
  pub quote_hash : String
  pub amount_usdc : ℕ
  pub asset : String
  pub rail : PaymentRail
  pub network : String
  pub recipient : String

pub record X402AttemptFinalizationInput (Payload : Type 0) : Type 0 where
  pub payment_metadata : Option Metadata
  pub response_metadata : Option Metadata
  pub result : Option Payload

-- What a finalisation writes: each column, or `none` to keep it.
pub record FinalizationValues : Type 0 where
  pub payment_metadata : Option Metadata
  pub response_metadata : Option Metadata
  pub encrypted_result : Option X402ResultEnvelope

abbrev pub payment_metadata_keys : List String
payment_metadata_keys =
    "approvalId" ∷ "decisionId" ∷ "eventId" ∷ "payer" ∷ "providerMode" ∷ "providerReference"
    ∷ "reservationId" ∷ "resumeReason" ∷ "receiptId" ∷ "transactionHash" ∷ []

abbrev pub response_metadata_keys : List String
response_metadata_keys = "contentLength" ∷ "contentType" ∷ "statusCode" ∷ []

abbrev pub scope_invalid : Failure
scope_invalid = identity_error "payment_attempt_scope_invalid" 404

abbrev pub state_conflict : Failure
state_conflict = conflict "payment_attempt_state_conflict"

-- `Number.MAX_SAFE_INTEGER`
abbrev pub max_safe_integer : ℕ
max_safe_integer = 9007199254740991

abbrev pub fifteen_minutes : ℕ
fifteen_minutes = 900000000

abbrev pub has_known_keys : List String → Metadata → Bool
has_known_keys allowed metadata = all (λ e. includes allowed e.0) metadata

abbrev pub is_text_if_given : MetadataValue → Bool
is_text_if_given undefined = true
is_text_if_given (text s) = true
is_text_if_given (whole n) = false
is_text_if_given other = false

unfoldable pub is_safe_payment_metadata : Metadata → Bool
is_safe_payment_metadata metadata =
    has_known_keys payment_metadata_keys metadata && all (λ e. is_text_if_given e.1) metadata

-- The test of one field of the response metadata, by its key.
abbrev pub is_safe_length : MetadataValue → Bool
is_safe_length undefined = true
is_safe_length (whole n) = leb n max_safe_integer
is_safe_length (text s) = false
is_safe_length other = false

abbrev pub is_status_code : MetadataValue → Bool
is_status_code undefined = true
is_status_code (whole n) = leb 100 n && leb n 599
is_status_code (text s) = false
is_status_code other = false

abbrev pub is_safe_field : String → MetadataValue → Bool
is_safe_field key value =
    if key == "contentLength"
    then is_safe_length value
    else if key == "statusCode"
    then is_status_code value
    else is_text_if_given value

unfoldable pub is_safe_response_metadata : Metadata → Bool
is_safe_response_metadata metadata =
    has_known_keys response_metadata_keys metadata && all (λ e. is_safe_field e.0 e.1) metadata

-- `JSON.stringify` leaves absent values out.
abbrev pub is_written : String × MetadataValue → Bool
is_written (k, undefined) = false
is_written (k, text s) = true
is_written (k, whole n) = true
is_written (k, other) = true

abbrev pub written : Option Metadata → Option Metadata
written none = none
written (some m) = some (filter is_written m)

abbrev pub fails_if_given : (Metadata → Bool) → Option Metadata → Bool
fails_if_given is_safe none = false
fails_if_given is_safe (some m) = not (is_safe m)

abbrev pub or_keep {ℓ} : {A : Type ℓ} → Option A → A → A
or_keep none old = old
or_keep (some new) old = new

abbrev pub coalesce {ℓ} : {A : Type ℓ} → Option A → Option A → Option A
coalesce none old = old
coalesce (some new) old = some new
