-- ===== src/Payments/Ledger.antt =====
-- apps/api/src/engines/payments/ledger.ts: the append-only ledger. The table refuses a posting that
-- names no cause, and refuses every change and deletion of a posting.
pub mod Corrections
use aops_pmoa.Prelude.{
  ℕ, ◌+◌, String, Bool, true, false, ◌&&◌, ◌||◌, Option, none, some, List, [], ◌∷◌, ◌++◌,
  if◌then◌else◌, ◌==◌, text_comparable, holds, is_some, any, find?, leb, error, ok, err, Tx, not,
}
use aops_pmoa.Prelude.Int.{ℤ, magnitude, pos, ◌+ℤ◌, -ℤ◌}
use aops_pmoa.Payments.Types.{
  PaymentMode, PaymentChain, LedgerEntryType, settle, correction, entry_type_comparable,
  mode_comparable, LedgerPostingRow, PaymentsDb, numeric_limit,
}

pub record WritePostingInput : Type 0 where
  pub org_id : String
  pub agent_id : Option String
  pub mode : PaymentMode
  pub chain : Option PaymentChain
  pub entry_type : LedgerEntryType
  pub amount_usdc : ℤ
  pub reservation_id : Option String
  pub attempt_id : Option String
  pub job_id : Option String
  pub reason_code : String
  pub created_by : String

-- INSERT of a posting, with the checks of its table: an amount that fits its column, a fresh id and some
-- cause.
abbrev pub has_cause : LedgerPostingRow → Bool
has_cause p =
    is_some p.reservation_id
    || is_some p.attempt_id
    || is_some p.job_id
    || is_some p.corrects_posting_id

unfoldable pub insert_posting : LedgerPostingRow → Tx PaymentsDb LedgerPostingRow
insert_posting p db =
    if leb numeric_limit (magnitude p.amount_usdc)
    then err (error "numeric_value_out_of_range")
    else if any (λ (q : LedgerPostingRow). q.id == p.id) db.postings
    then err (error "unique_violation")
    else if not (has_cause p)
    then err (error "check_violation")
    else ok (p, record db { postings = db.postings ++ p ∷ [] })

abbrev pub posting_of : ℕ → String → WritePostingInput → LedgerPostingRow
posting_of now new_id input = record {
  id = new_id;
  org_id = input.org_id;
  agent_id = input.agent_id;
  mode = input.mode;
  chain = input.chain;
  entry_type = input.entry_type;
  amount_usdc = input.amount_usdc;
  reservation_id = input.reservation_id;
  attempt_id = input.attempt_id;
  job_id = input.job_id;
  corrects_posting_id = none;
  reason_code = input.reason_code;
  created_by = input.created_by;
  created_at = now;
}

unfoldable pub write_posting :
    ℕ → (new_id : String) → WritePostingInput → Tx PaymentsDb LedgerPostingRow
write_posting now new_id input = insert_posting (posting_of now new_id input)

-- A posting of the opposite amount, with a reference to the corrected one. The source takes the amount
-- through `Number` and `toFixed(6)`: `fixed` says what becomes of it there, in whole millionths.
abbrev pub correction_of :
    (fixed : ℤ → ℤ)
    → ℕ
    → String
    → LedgerPostingRow
    → (reason_code created_by : String) → LedgerPostingRow
correction_of fixed now new_id row reason_code created_by = record {
  id = new_id;
  org_id = row.org_id;
  agent_id = row.agent_id;
  mode = row.mode;
  chain = row.chain;
  entry_type = correction;
  amount_usdc = fixed (-ℤ◌ row.amount_usdc);
  reservation_id = none;
  attempt_id = none;
  job_id = none;
  corrects_posting_id = some row.id;
  reason_code = reason_code;
  created_by = created_by;
  created_at = now;
}

-- `createdBy ?? 'system'`
abbrev pub or_system : Option String → String
or_system none = "system"
or_system (some user) = user

unfoldable pub correct_posting :
    (fixed : ℤ → ℤ)
    → ℕ
    → (new_id posting_id reason_code : String) → (created_by : Option String)
    → Tx PaymentsDb LedgerPostingRow
correct_posting fixed now new_id posting_id reason_code created_by db =
    elim (find? (λ (p : LedgerPostingRow). p.id == posting_id) db.postings) [
      | none ↦ err (error "ledger_posting_not_found")
      | some row ↦
          insert_posting (correction_of fixed now new_id row reason_code (or_system created_by)) db
    ]

-- A posting counts as spending: it settles, or it corrects a posting of the table that settles.
unfoldable pub counts_as_spent : List LedgerPostingRow → LedgerPostingRow → Bool
counts_as_spent postings p =
    p.entry_type == settle
    || any
        (λ (q : LedgerPostingRow).
          holds (λ i. q.id == i) p.corrects_posting_id && q.entry_type == settle)
        postings

abbrev pub in_account : (org_id agent_id : String) → PaymentMode → LedgerPostingRow → Bool
in_account org_id agent_id mode p =
    p.org_id == org_id && holds (λ a. a == agent_id) p.agent_id && p.mode == mode

-- The sum of the rows that pass a test, in order.
abbrev pub sum_where : (LedgerPostingRow → Bool) → List LedgerPostingRow → ℤ
sum_where test [] = pos 0
sum_where test (p ∷ ps) =
    let rest = sum_where test ps in if test p then p.amount_usdc +ℤ rest else rest

-- COALESCE(SUM(p.amount_usdc), 0), which is exact.
abbrev pub spent_total : (org_id agent_id : String) → PaymentMode → PaymentsDb → ℤ
spent_total org_id agent_id mode db =
    sum_where (λ p. in_account org_id agent_id mode p && counts_as_spent db.postings p) db.postings

-- The total goes through `Number` and `toFixed(6)` too.
unfoldable pub derive_spent_usdc :
    (fixed : ℤ → ℤ) → (org_id agent_id : String) → PaymentMode → PaymentsDb → ℤ
derive_spent_usdc fixed org_id agent_id mode db = fixed (spent_total org_id agent_id mode db)
