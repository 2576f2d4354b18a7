-- ===== src/Payments/Reservations.antt =====
-- Releases of reservations in apps/api/src/engines/payments/x402-attempt-store.ts: on the proof that
-- an authorisation is dead, and for attempts that were stranded before submission. The reader of
-- the chain is injected in the source too. A counter below zero violates the check of its table.
pub mod Conservation
pub mod Release
use Prim.Native.String.{compare}
use Prim.Native.Nat.{Ordering}
use Prim.Native.String
use aops_pmoa.Prelude.{
  ℕ, zero, ◌+◌, ◌-◌, String, Bool, true, false, not, ◌&&◌, ◌||◌, Option, none, some, List, [], ◌∷◌,
  ◌++◌, leb, ltb, nat_beq, if◌then◌else◌, ◌==◌, text_comparable, holds, length, any, filter, find?,
  collect, update_where, when, identity_error, error, conflict, bad_request, Result, ok, err, Tx,
  ◌>>=◌, ◌>>◌, pure, throw, throw_if, query, update,
}
use aops_pmoa.Prelude.Int.{pos}
use aops_pmoa.Payments.Types.{
  PaymentMode, test, X402AttemptStatus, attempt_status_comparable, ReservationStatus, reserved,
  released, reservation_status_comparable, ApprovalStatus, pending, approved, denied, expired,
  approval_status_comparable, MetadataValue, text, Metadata, X402AttemptRow, ReservationRow,
  AccountRow, ApprovalRow, release, LedgerPostingRow, PaymentsDb,
}
use aops_pmoa.Payments.Ledger.{WritePostingInput, write_posting}

pub record DeathProof : Type 0 where
  pub valid_before_unix_seconds : ℕ
  pub authorization_used : Bool

-- Both conditions, never either alone.
unfoldable pub is_provably_dead : DeathProof → (now_unix_seconds : ℕ) → Bool
is_provably_dead proof now_unix_seconds =
    ltb proof.valid_before_unix_seconds now_unix_seconds && not proof.authorization_used

-- `result.rows[0]?.mode ?? 'test'`
abbrev pub mode_or_test : String → List (String × PaymentMode) → PaymentMode
mode_or_test org_id [] = test
mode_or_test org_id ((k, mode) ∷ modes) = if k == org_id then mode else mode_or_test org_id modes

unfoldable pub org_payment_mode : String → PaymentsDb → PaymentMode
org_payment_mode org_id db = mode_or_test org_id db.payment_modes

abbrev pub is_reservation : (id org_id : String) → ReservationRow → Bool
is_reservation id org_id r = r.id == id && r.org_id == org_id && r.status == reserved

abbrev pub is_account : (org_id agent_id : String) → AccountRow → Bool
is_account org_id agent_id a = a.org_id == org_id && a.agent_id == agent_id

abbrev pub set_released : ℕ → ReservationRow → ReservationRow
set_released now r = record r { status = released; updated_at = now }

abbrev pub lower_reserved : ℕ → ℕ → AccountRow → AccountRow
lower_reserved now amount a = record a {
  reserved_usdc = a.reserved_usdc - amount;
  updated_at = now;
}

-- UPDATE of reserved_usdc of the account, refused where the counter would fall below zero.
unfoldable pub subtract_reserved : ℕ → (org_id agent_id : String) → ℕ → Tx PaymentsDb (Unit {0})
subtract_reserved now org_id agent_id amount db =
    if any (λ (a : AccountRow). is_account org_id agent_id a && ltb a.reserved_usdc amount)
      db.accounts
    then err (error "check_violation")
    else ok (
      tt,
      record db {
        accounts =
            update_where (is_account org_id agent_id) (lower_reserved now amount) db.accounts;
      },
    )

abbrev pub release_posting : PaymentMode → ReservationRow → WritePostingInput
release_posting mode row = record {
  org_id = row.org_id;
  agent_id = some row.agent_id;
  mode = mode;
  chain = none;
  entry_type = release;
  amount_usdc = pos row.amount_usdc;
  reservation_id = some row.id;
  attempt_id = none;
  job_id = none;
  reason_code = "death_predicate_proven";
  created_by = "system";
}

module _ (chain_reader : (reservation_id : String) → Result DeathProof) where
  abbrev pub read_proof : String → Tx PaymentsDb DeathProof
  read_proof id db = elim (chain_reader id) [ ok proof ↦ ok (proof, db) | err e ↦ err e ]

  -- What happens to the locked row of the reservation.
  unfoldable pub release_row :
      ℕ → (now_unix_seconds : ℕ) → (new_id : String) → ReservationRow → Tx PaymentsDb (Unit {0})
  release_row now now_unix_seconds new_id row = do
    throw_if (not (row.status == reserved)) (conflict "reservation_not_reserved")
    proof ← read_proof row.id
    throw_if (not (is_provably_dead proof now_unix_seconds)) (bad_request "not_provably_dead")
    update (λ (db : PaymentsDb). record db {
      reservations =
          update_where (is_reservation row.id row.org_id) (set_released now) db.reservations;
    })
    subtract_reserved now row.org_id row.agent_id row.amount_usdc
    mode ← query (org_payment_mode row.org_id)
    write_posting now new_id (release_posting mode row)
    pure tt

  -- The body of the transaction.
  unfoldable pub release_on_proof :
      ℕ → (now_unix_seconds : ℕ) → (new_id reservation_id : String) → Tx PaymentsDb (Unit {0})
  release_on_proof now now_unix_seconds new_id reservation_id db =
      elim (find? (λ (r : ReservationRow). r.id == reservation_id) db.reservations) [
        | none ↦ err (identity_error "reservation_not_found" 404)
        | some row ↦ release_row now now_unix_seconds new_id row db
      ]
