-- ===== src/Payments/Purge.antt =====
-- purgeExpiredX402Results of apps/api/src/engines/payments/x402-attempt-store.ts: the results that
-- have expired longest are scrubbed, at most as many as the limit says. Ids are ordered by their code
-- points, a limit that is no whole number from 0 does not occur, and the rows that other transactions
-- have locked are a parameter.
pub mod Limits
use aops_pmoa.Prelude.{
  ℕ, zero, suc, String, Bool, true, false, not, ◌&&◌, ◌||◌, Option, none, some, List, [], ◌∷◌, leb,
  ltb, nat_beq, min, if◌then◌else◌, ◌==◌, text_comparable, holds, any, length, filter, update_where,
  error, ok, err, Tx,
}
use aops_pmoa.Payments.Types.{X402AttemptRow, PaymentsDb}
use aops_pmoa.Payments.Attempts.{is_expired, scrub}
use aops_pmoa.Payments.Stranded.{is_text_before}

abbrev pub max_result_purge_batch_limit : ℕ
max_result_purge_batch_limit = 1000

abbrev pub default_result_purge_batch_limit : ℕ
default_result_purge_batch_limit = 100

abbrev pub expiry_of : X402AttemptRow → ℕ
expiry_of row = time_of row.result_expires_at
  where
    time_of : Option ℕ → ℕ
    time_of none = 0
    time_of (some t) = t

-- ORDER BY result_expires_at ASC, id ASC
abbrev pub expires_before : X402AttemptRow → X402AttemptRow → Bool
expires_before a b =
    ltb (expiry_of a) (expiry_of b)
    || nat_beq (expiry_of a) (expiry_of b) && is_text_before a.id b.id

unfoldable pub insert_by_expiry : X402AttemptRow → List X402AttemptRow → List X402AttemptRow
insert_by_expiry r [] = r ∷ []
insert_by_expiry r (s ∷ rows) =
    let later = s ∷ insert_by_expiry r rows in if expires_before s r then later else r ∷ s ∷ rows

unfoldable pub order_by_expiry : List X402AttemptRow → List X402AttemptRow
order_by_expiry [] = []
order_by_expiry (r ∷ rows) = insert_by_expiry r (order_by_expiry rows)

-- LIMIT
unfoldable pub take_rows : ℕ → List X402AttemptRow → List X402AttemptRow
take_rows zero rows = []
take_rows (suc n) [] = []
take_rows (suc n) (r ∷ rows) = r ∷ take_rows n rows

-- FOR UPDATE SKIP LOCKED: a row that another transaction has locked is passed over, and does not
-- count towards the limit.
abbrev pub is_due : (locked : String → Bool) → ℕ → X402AttemptRow → Bool
is_due locked now row = is_expired now row && not (locked row.id)

unfoldable pub expired_rows :
    (locked : String → Bool) → ℕ → (limit : ℕ) → List X402AttemptRow → List X402AttemptRow
expired_rows locked now limit rows =
    take_rows limit (order_by_expiry (filter (is_due locked now) rows))

abbrev pub is_among : List X402AttemptRow → X402AttemptRow → Bool
is_among rows r = any (λ (e : X402AttemptRow). e.id == r.id) rows

unfoldable pub purge_expired_x402_results :
    (locked : String → Bool) → ℕ → (batch_limit : ℕ) → Tx PaymentsDb ℕ
purge_expired_x402_results locked now batch_limit db =
    let expired =
      expired_rows locked now (min batch_limit max_result_purge_batch_limit) db.attempts in
    if ltb batch_limit 1
    then err (error "payment_attempt_purge_batch_limit_invalid")
    else ok (
      length (filter (is_among expired) db.attempts),
      record db { attempts = update_where (is_among expired) (scrub now) db.attempts },
    )
