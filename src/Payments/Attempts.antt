-- ===== src/Payments/Attempts.antt =====
-- The operations of apps/api/src/engines/payments/x402-attempt-store.ts on the attempts of runtime
-- payments. A statement of SQL is its effect on the tables; `now` is the time of the transaction.
-- The encryption of results is injected in the source too, and is the parameter `seal`, which may
-- fail.
pub mod Lifecycle
pub mod Evolution
pub mod Outcomes
use aops_pmoa.Prelude.{
  ℕ, ◌+◌, String, Bool, true, false, not, ◌&&◌, Option, none, some, List, [], ◌∷◌, ◌++◌, leb,
  nat_beq, if◌then◌else◌, ◌==◌, text_comparable, holds, is_some, any, find?, update_where, Failure,
  error, conflict, Result, ok, err, Tx, ◌>>=◌, ◌>>◌, pure, throw, throw_if, query, update,
}
use aops_pmoa.Payments.Types.{
  X402AttemptStatus, reserved, submitting, settled, failed, unknown, attempt_status_comparable,
  X402ResultEnvelope, X402AttemptRow, ConnectionRow, OwnedRow, PaymentsDb, numeric_limit,
}
use aops_pmoa.Payments.AttemptTypes.{
  X402AttemptScope, X402ResultCryptoContext, CreateX402AttemptInput, X402AttemptFinalizationInput,
  FinalizationValues, scope_invalid, state_conflict, fifteen_minutes, is_safe_payment_metadata,
  is_safe_response_metadata, written, fails_if_given, or_keep, coalesce,
}

-- `result_expires_at <= now()`, which an absent time does not meet
abbrev pub is_expired : ℕ → X402AttemptRow → Bool
is_expired now row = holds (λ t. leb t now) row.result_expires_at

abbrev pub scrub : ℕ → X402AttemptRow → X402AttemptRow
scrub now row = record row { encrypted_result = none; result_expires_at = none; updated_at = now }

abbrev pub has_key : String → String → X402AttemptRow → Bool
has_key connection_id key row =
    holds (λ c. c == connection_id) row.connection_id && row.idempotency_key == key

abbrev pub in_scope : X402AttemptScope → String → X402AttemptRow → Bool
in_scope scope attempt_id row =
    row.id == attempt_id
    && row.org_id == scope.org_id
    && holds (λ c. c == scope.connection_id) row.connection_id

-- The expired result of the row is scrubbed before the row is returned.
unfoldable pub find_attempt : ℕ → String → String → Tx PaymentsDb (Option X402AttemptRow)
find_attempt now connection_id key db =
    let hit = λ (row : X402AttemptRow). has_key connection_id key row && is_expired now row in
    let db' = record db { attempts = update_where hit (scrub now) db.attempts } in
    elim (find? hit db.attempts) [
      | some row ↦ ok (some (scrub now row), db')
      | none ↦ ok (find? (has_key connection_id key) db.attempts, db')
    ]

abbrev pub is_ready : X402AttemptScope → String → X402AttemptStatus → X402AttemptRow → Bool
is_ready scope attempt_id required row = in_scope scope attempt_id row && row.status == required

-- An UPDATE of the row in scope and in the required status, which returns it; otherwise one of two
-- failures.
unfoldable pub transition :
    X402AttemptScope
    → String
    → X402AttemptStatus
    → (X402AttemptRow → X402AttemptRow)
    → Tx PaymentsDb X402AttemptRow
transition scope attempt_id required change db =
    let hit = is_ready scope attempt_id required in
    elim (find? hit db.attempts) [
      | some row ↦ ok (change row, record db { attempts = update_where hit change db.attempts })
      | none ↦
          if any (in_scope scope attempt_id) db.attempts
          then err state_conflict
          else err scope_invalid
    ]

abbrev pub submit : ℕ → X402AttemptRow → X402AttemptRow
submit now row = record row { status = submitting; submitted_at = some now; updated_at = now }

unfoldable pub mark_submitting : ℕ → X402AttemptScope → String → Tx PaymentsDb X402AttemptRow
mark_submitting now scope attempt_id = transition scope attempt_id reserved (submit now)

-- The columns that the three finalisations set in the same way.
abbrev pub finalize :
    ℕ → X402AttemptStatus → Option String → FinalizationValues → X402AttemptRow → X402AttemptRow
finalize now status error_code values row = record row {
  status = status;
  payment_metadata = or_keep values.payment_metadata row.payment_metadata;
  response_metadata = or_keep values.response_metadata row.response_metadata;
  encrypted_result = coalesce values.encrypted_result row.encrypted_result;
  result_expires_at =
      if is_some values.encrypted_result
      then some (now + fifteen_minutes)
      else row.result_expires_at;
  error_code = error_code;
  finalized_at = some now;
  updated_at = now;
}

module _ {Payload : Type 0}
    (seal : X402ResultCryptoContext → Payload → Result X402ResultEnvelope) where
  abbrev pub sealed :
      X402AttemptScope → String → Option Payload → Tx PaymentsDb (Option X402ResultEnvelope)
  sealed scope attempt_id none db = ok (none, db)
  sealed scope attempt_id (some payload) db =
      elim (seal
        (record {
          attempt_id = attempt_id;
          connection_id = scope.connection_id;
          org_id = scope.org_id;
        })
        payload) [ ok envelope ↦ ok (some envelope, db) | err e ↦ err e ]

  unfoldable pub finalization_values :
      X402AttemptScope
      → String
      → X402AttemptFinalizationInput Payload
      → Tx PaymentsDb FinalizationValues
  finalization_values scope attempt_id input = do
    throw_if (fails_if_given is_safe_payment_metadata input.payment_metadata)
        (error "payment_attempt_unsafe_payment_metadata")
    throw_if (fails_if_given is_safe_response_metadata input.response_metadata)
        (error "payment_attempt_unsafe_response_metadata")
    encrypted_result ← sealed scope attempt_id input.result
    pure (record {
      payment_metadata = written input.payment_metadata;
      response_metadata = written input.response_metadata;
      encrypted_result = encrypted_result;
    })

  unfoldable pub finalize_settled :
      ℕ
      → X402AttemptScope
      → String
      → X402AttemptFinalizationInput Payload
      → Tx PaymentsDb X402AttemptRow
  finalize_settled now scope attempt_id input = do
    values ← finalization_values scope attempt_id input
    transition scope attempt_id submitting (finalize now settled none values)

  unfoldable pub finalize_failed :
      ℕ
      → X402AttemptScope
      → String
      → X402AttemptFinalizationInput Payload
      → (error_code : String) → (provider_call_made : Bool) → Tx PaymentsDb X402AttemptRow
  finalize_failed now scope attempt_id input error_code provider_call_made = do
    values ← finalization_values scope attempt_id input
    transition scope attempt_id (if provider_call_made then submitting else reserved)
        (finalize now failed (some error_code) values)

  unfoldable pub finalize_unknown :
      ℕ
      → X402AttemptScope
      → String
      → X402AttemptFinalizationInput Payload
      → (error_code : String) → Tx PaymentsDb X402AttemptRow
  finalize_unknown now scope attempt_id input error_code = do
    values ← finalization_values scope attempt_id input
    transition scope attempt_id submitting (finalize now unknown (some error_code) values)

-- The connection belongs to the organisation and the agent, and the agent and the source to the
-- organisation.
unfoldable pub is_valid_scope : CreateX402AttemptInput → PaymentsDb → Bool
is_valid_scope input db =
    any
      (λ (c : ConnectionRow).
        c.id == input.connection_id
        && c.org_id == input.org_id
        && c.agent_id == input.agent_id
        && any (λ (a : OwnedRow). a.id == c.agent_id && a.org_id == c.org_id) db.agents
        && any (λ (s : OwnedRow). s.id == input.source_id && s.org_id == c.org_id) db.sources)
      db.connections

abbrev pub new_attempt : ℕ → String → CreateX402AttemptInput → X402AttemptRow
new_attempt now id input = record {
  id = id;
  org_id = input.org_id;
  agent_id = input.agent_id;
  connection_id = some input.connection_id;
  source_id = some input.source_id;
  idempotency_key = input.idempotency_key;
  request_hash = input.request_hash;
  quote_hash = some input.quote_hash;
  amount_usdc = some input.amount_usdc;
  asset = some input.asset;
  rail = some input.rail;
  network = some input.network;
  recipient = some input.recipient;
  status = reserved;
  payment_metadata = [];
  response_metadata = [];
  encrypted_result = none;
  result_expires_at = none;
  error_code = none;
  created_at = now;
  updated_at = now;
  submitted_at = none;
  finalized_at = none;
}

-- The row that holds the key already: its expired result is scrubbed, and another request under
-- the same key is a conflict.
abbrev pub reuse_attempt :
    ℕ → CreateX402AttemptInput → X402AttemptRow → Tx PaymentsDb X402AttemptRow
reuse_attempt now input row db =
    let hit = λ (r : X402AttemptRow). r.id == row.id && is_expired now r in
    if not (row.request_hash == input.request_hash)
    then err (conflict "payment_idempotency_conflict")
    else ok (
      if is_expired now row then scrub now row else row,
      record db { attempts = update_where hit (scrub now) db.attempts },
    )

-- INSERT … ON CONFLICT (connection_id, idempotency_key) DO NOTHING, then the row of the conflict.
-- `new_id` is the random id; one that is taken already violates the primary key. The column takes
-- amounts below its limit, and its table those above zero, whether the key is taken or not.
unfoldable pub create_attempt :
    ℕ → (new_id : String) → CreateX402AttemptInput → Tx PaymentsDb X402AttemptRow
create_attempt now new_id input db =
    if not (is_valid_scope input db)
    then err scope_invalid
    else if leb numeric_limit input.amount_usdc
    then err (error "numeric_value_out_of_range")
    else if nat_beq input.amount_usdc 0
    then err (error "check_violation")
    else elim (find? (has_key input.connection_id input.idempotency_key) db.attempts) [
      | some row ↦ reuse_attempt now input row db
      | none ↦
          if any (λ (r : X402AttemptRow). r.id == new_id) db.attempts
          then err (error "unique_violation")
          else ok (
            new_attempt now new_id input,
            record db { attempts = db.attempts ++ new_attempt now new_id input ∷ [] },
          )
    ]
