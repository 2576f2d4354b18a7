-- ===== src/Payments/Tests.antt =====
-- Runs of the payments engine on small tables, and the theorems at those tables.
use aops_pmoa.Payments.Purge.{
  insert_by_expiry, order_by_expiry, take_rows, is_due, expired_rows, purge_expired_x402_results,
}
use aops_pmoa.Payments.Purge.Limits.{purge-is_expired}
use aops_pmoa.Prelude.{
  arith, any, false, ◌≤◌, ◌≡◌, refl, String, false, trim, none, some, [], ◌∷◌, find?, length, ◌==◌,
  text_comparable, All, Result, ok, codes,
}
use aops_pmoa.Payments.Money.{
  span_digits, decimal_value, fraction_value, after_whole, parse_usdc_micros, format_usdc,
}
use aops_pmoa.Payments.Money.RoundTrip.{parse-format}
use aops_pmoa.Payments.Types.{
  reserved, settled, exact_base, X402ResultEnvelope, X402AttemptRow, PaymentsDb, text, test, live,
  settle, LedgerPostingRow, ReservationStatus, ReservationRow, AccountRow,
}
use aops_pmoa.Payments.AttemptTypes.{
  X402AttemptScope, X402ResultCryptoContext, CreateX402AttemptInput, X402AttemptFinalizationInput,
  FinalizationValues, is_safe_payment_metadata,
}
use aops_pmoa.Payments.Attempts.{
  scrub, transition, submit, mark_submitting, finalize, finalization_values, finalize_settled,
  new_attempt, is_valid_scope, create_attempt,
}
use aops_pmoa.Payments.Attempts.Lifecycle.{Follows, Evolves}
use aops_pmoa.Payments.Attempts.Outcomes.{transition-answer, create_attempt-again}
use aops_pmoa.Prelude.Int.{pos, magnitude, ◌+ℤ◌, -ℤ◌}
use aops_pmoa.Payments.Ledger.{
  posting_of, insert_posting, write_posting, correction_of, correct_posting, derive_spent_usdc,
  spent_total, counts_as_spent,
}
use aops_pmoa.Payments.Ledger.Corrections.{correct_posting-derive_spent}
use aops_pmoa.Payments.Reservations.{
  DeathProof, is_provably_dead, org_payment_mode, set_released, lower_reserved, subtract_reserved,
  release_posting, release_row, release_on_proof,
}
use aops_pmoa.Payments.Reservations.Conservation.{IsBacked, reserved_sum}
use aops_pmoa.Payments.Reservations.Release.{IsDead, release_on_proof-IsBacked}
use aops_pmoa.Payments.History.{
  History, History-attempt, begin, after, marks_submitting, finalizes_settled,
}

parsed : parse_usdc_micros (codes "2.5") ≡ some 2500000
unfolding trim parse_usdc_micros after_whole fraction_value decimal_value span_digits
parsed = refl

not_signed : parse_usdc_micros (codes "-1") ≡ none
unfolding trim parse_usdc_micros after_whole fraction_value decimal_value span_digits
not_signed = refl

parse-format_example : parse_usdc_micros (format_usdc 1250003) ≡ some 1250003
parse-format_example = parse-format 1250003

abbrev empty_db : PaymentsDb
empty_db = record {
  attempts = [];
  reservations = [];
  accounts = [];
  approvals = [];
  connections = record { id = "conn"; org_id = "org"; agent_id = "agent" } ∷ [];
  agents = record { id = "agent"; org_id = "org" } ∷ [];
  sources = record { id = "source"; org_id = "org" } ∷ [];
  payment_modes = [];
  postings = [];
}

abbrev coffee : CreateX402AttemptInput
coffee = record {
  org_id = "org";
  agent_id = "agent";
  connection_id = "conn";
  source_id = "source";
  idempotency_key = "key";
  request_hash = "h1";
  quote_hash = "q1";
  amount_usdc = 1000;
  asset = "USDC";
  rail = exact_base;
  network = "base";
  recipient = "shop";
}

abbrev first : X402AttemptRow
first = new_attempt 10 "att_1" coffee

abbrev created_db : PaymentsDb
created_db = record empty_db { attempts = first ∷ [] }

create_coffee : create_attempt 10 "att_1" coffee empty_db ≡ ok (first, created_db)
unfolding create_attempt is_valid_scope
create_coffee = refl

create_attempt-again_example :
    (row' : X402AttemptRow) × (db'' : PaymentsDb) × (create_attempt 90 "att_2" coffee created_db
      ≡ ok (row', db''))
    × (row'.id ≡ "att_1")
    × (length db''.attempts ≡ 1)
create_attempt-again_example =
    create_attempt-again 10 90 "att_1" "att_2" coffee empty_db created_db first create_coffee

abbrev scope : X402AttemptScope
scope = record { connection_id = "conn"; org_id = "org" }

abbrev submitted_db : PaymentsDb
submitted_db = record created_db { attempts = submit 20 first ∷ [] }

submits_first : mark_submitting 20 scope "att_1" created_db ≡ ok (submit 20 first, submitted_db)
unfolding mark_submitting transition
submits_first = refl

transition-answer_example :
    transition scope "att_1" reserved (submit 20) created_db ≡ ok (submit 20 first, submitted_db)
transition-answer_example =
    transition-answer scope "att_1" reserved (submit 20) created_db (refl, tt)

abbrev seal : X402ResultCryptoContext → String → Result X402ResultEnvelope
seal context payload = ok (record {
  algorithm = "aes-256-gcm";
  ciphertext = payload;
  iv = "iv";
  tag = "tag";
  version = 1;
})

abbrev receipt : X402AttemptFinalizationInput String
receipt = record {
  payment_metadata = some (("receiptId", text "r1") ∷ []);
  response_metadata = none;
  result = some "latte";
}

abbrev receipt_values : FinalizationValues
receipt_values = record {
  payment_metadata = some (("receiptId", text "r1") ∷ []);
  response_metadata = none;
  encrypted_result = some (record {
    algorithm = "aes-256-gcm";
    ciphertext = "latte";
    iv = "iv";
    tag = "tag";
    version = 1;
  });
}

abbrev paid : X402AttemptRow
paid = finalize 30 settled none receipt_values (submit 20 first)

abbrev paid_db : PaymentsDb
paid_db = record submitted_db { attempts = paid ∷ [] }

settle_first : finalize_settled seal 30 scope "att_1" receipt submitted_db ≡ ok (paid, paid_db)
unfolding finalize_settled finalization_values transition is_safe_payment_metadata
settle_first = refl

run : History seal created_db paid_db
run =
    after (after begin (marks_submitting 20 scope "att_1" (submit 20 first) submits_first))
      (finalizes_settled 30 scope "att_1" receipt paid settle_first)

History-attempt_example :
    (r' : X402AttemptRow) × (find? (λ (a : X402AttemptRow). a.id == "att_1") paid_db.attempts
      ≡ some r')
    × Evolves first r'
    × Follows first.status r'.status
History-attempt_example = History-attempt seal created_db paid_db "att_1" first run refl

abbrev bought : LedgerPostingRow
bought = record {
  id = "post_1";
  org_id = "org";
  agent_id = some "agent";
  mode = live;
  chain = none;
  entry_type = settle;
  amount_usdc = pos 300;
  reservation_id = none;
  attempt_id = some "att_1";
  job_id = none;
  corrects_posting_id = none;
  reason_code = "paid";
  created_by = "system";
  created_at = 5;
}

abbrev ledger_db : PaymentsDb
ledger_db = record empty_db { postings = bought ∷ [] }

abbrev offset : LedgerPostingRow
offset = correction_of (λ a. a) 50 "post_2" bought "typo" "system"

abbrev corrected_db : PaymentsDb
corrected_db = record empty_db { postings = bought ∷ offset ∷ [] }

corrects_bought :
    correct_posting (λ a. a) 50 "post_2" "post_1" "typo" none ledger_db ≡ ok (offset, corrected_db)
unfolding correct_posting insert_posting -ℤ◌
corrects_bought = refl

corrected-small :
    (magnitude (-ℤ◌ bought.amount_usdc) ≤ 1000000)
    × (magnitude (spent_total "org" "agent" live ledger_db) ≤ 1000000)
    × (magnitude (spent_total "org" "agent" live corrected_db) ≤ 1000000)
unfolding -ℤ◌ ◌+ℤ◌ counts_as_spent
corrected-small = (omega arith, omega arith, omega arith)

correct_posting-derive_spent_example :
    derive_spent_usdc (λ a. a) "org" "agent" live corrected_db +ℤ pos 300
    ≡ derive_spent_usdc (λ a. a) "org" "agent" live ledger_db
correct_posting-derive_spent_example =
    correct_posting-derive_spent (λ a. a) 1000000 50 "post_2" "post_1" "typo" none ledger_db
      corrected_db bought offset "org" "agent" live (λ z h. refl) refl refl refl corrected-small.0
      corrected-small.1 corrected-small.2 corrects_bought

abbrev hold : ReservationRow
hold = record {
  id = "res_1";
  org_id = "org";
  agent_id = "agent";
  amount_usdc = 1000;
  status = ReservationStatus.reserved;
  reason_code = "x402_attempt:att_1";
  expires_at = 100;
  updated_at = 10;
}

abbrev account : AccountRow
account = record { org_id = "org"; agent_id = "agent"; reserved_usdc = 1000; updated_at = 10 }

abbrev held_db : PaymentsDb
held_db = record empty_db { reservations = hold ∷ []; accounts = account ∷ [] }

abbrev reader : String → Result DeathProof
reader id = ok (record { valid_before_unix_seconds = 60; authorization_used = false })

abbrev released_db : PaymentsDb
released_db = record held_db {
  reservations = set_released 70000000 hold ∷ [];
  accounts = lower_reserved 70000000 1000 account ∷ [];
  postings = posting_of 70000000 "post_9" (release_posting test hold) ∷ [];
}

releases_hold : release_on_proof reader 70000000 70 "post_9" "res_1" held_db ≡ ok (tt, released_db)
unfolding release_on_proof release_row is_provably_dead subtract_reserved org_payment_mode
    write_posting insert_posting
releases_hold = refl

held-IsBacked : All (IsBacked held_db.reservations) held_db.accounts
unfolding reserved_sum
held-IsBacked = (refl, tt)

release_on_proof-IsBacked_example :
    IsDead reader "res_1" 70 × All (IsBacked released_db.reservations) released_db.accounts
release_on_proof-IsBacked_example =
    release_on_proof-IsBacked reader 70000000 70 "post_9" "res_1" held_db released_db (refl, tt)
      held-IsBacked releases_hold

abbrev purged_db : PaymentsDb
purged_db = record paid_db { attempts = scrub 900000040 paid ∷ [] }

purges_paid : purge_expired_x402_results (λ id. false) 900000040 5 paid_db ≡ ok (1, purged_db)
unfolding purge_expired_x402_results expired_rows take_rows order_by_expiry insert_by_expiry
purges_paid = refl

purge-is_expired_example : any (is_due (λ id. false) 900000040) purged_db.attempts ≡ false
purge-is_expired_example =
    purge-is_expired (λ id. false) 900000040 5 1 paid_db purged_db (omega arith) purges_paid
