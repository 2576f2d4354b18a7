-- ===== src/Payments/Stranded.antt =====
-- cancelStrandedReservedAttempts of apps/api/src/engines/payments/x402-attempt-store.ts: attempts
-- that were reserved and never submitted, whose reservation or approval has lapsed.
use Prim.Native.Nat.{Ordering}
use Prim.Native.String.{compare}
use Prim.Native.String
use aops_pmoa.Prelude.{
  ℕ, ◌+◌, String, Bool, true, false, not, ◌&&◌, ◌||◌, Option, none, some, List, [], ◌∷◌, leb, ltb,
  nat_beq, if◌then◌else◌, ◌==◌, text_comparable, holds, length, filter, find?, collect, when,
  update_where, error, ok, err, Tx, ◌>>=◌, pure,
}
use aops_pmoa.Payments.Types.{
  X402AttemptStatus, attempt_status_comparable, ReservationStatus, reservation_status_comparable,
  pending, approved, denied, expired, approval_status_comparable, MetadataValue, text, whole,
  undefined, other, Metadata, X402AttemptRow, ReservationRow, AccountRow, ApprovalRow, PaymentsDb,
}
use aops_pmoa.Payments.Reservations.{is_reservation, is_account, set_released, lower_reserved}

pub record X402AttemptCleanupScope : Type 0 where
  pub agent_id : String
  pub org_id : String

pub record Candidate : Type 0 where
  pub amount_usdc : ℕ
  pub attempt_id : String
  pub error_code : String
  pub reservation_id : String
  pub expires_at : ℕ

abbrev pub text_of : MetadataValue → Option String
text_of (text s) = some s
text_of (whole n) = none
text_of undefined = none
text_of other = none

-- `payment_metadata ->> 'approvalId'`; the metadata holds texts only.
abbrev pub approval_id_of : Metadata → Option String
approval_id_of [] = none
approval_id_of ((k, v) ∷ m) = if k == "approvalId" then text_of v else approval_id_of m

-- The LEFT JOIN of the approval.
unfoldable pub approval_of : List ApprovalRow → X402AttemptRow → Option ApprovalRow
approval_of approvals a =
    find?
      (λ (p : ApprovalRow).
        holds (λ i. p.id == i) (approval_id_of a.payment_metadata)
        && p.org_id == a.org_id
        && p.agent_id == a.agent_id
        && holds (λ c. p.connection_id == c) a.connection_id)
      approvals

abbrev pub is_denied : ApprovalRow → Bool
is_denied p = p.status == denied

abbrev pub has_lapsed : ℕ → ApprovalRow → Bool
has_lapsed now p =
    p.status == expired || (p.status == pending || p.status == approved) && leb p.expires_at now

unfoldable pub error_code_of : ℕ → Option ApprovalRow → String
error_code_of now approval =
    if holds is_denied approval
    then "payment_approval_denied"
    else if holds (has_lapsed now) approval
    then "payment_approval_expired"
    else "payment_reservation_expired"

-- The conditions of the join and of the WHERE clause.
unfoldable pub is_stranded :
    ℕ → X402AttemptCleanupScope → List ApprovalRow → X402AttemptRow → ReservationRow → Bool
is_stranded now scope approvals a r =
    r.reason_code == String.◌++◌ "x402_attempt:" a.id
    && r.org_id == a.org_id
    && r.agent_id == a.agent_id
    && a.org_id == scope.org_id
    && a.agent_id == scope.agent_id
    && a.status == X402AttemptStatus.reserved
    && r.status == ReservationStatus.reserved
    && (leb r.expires_at now
        || holds is_denied (approval_of approvals a)
        || holds (has_lapsed now) (approval_of approvals a))

abbrev pub candidate_of : ℕ → List ApprovalRow → X402AttemptRow → ReservationRow → Candidate
candidate_of now approvals a r = record {
  amount_usdc = r.amount_usdc;
  attempt_id = a.id;
  error_code = error_code_of now (approval_of approvals a);
  reservation_id = r.id;
  expires_at = r.expires_at;
}

abbrev pub is_text_before : String → String → Bool
is_text_before a b = elim (compare a b) [ Ordering.lt ↦ true | _ ↦ false ]

-- ORDER BY reservation.expires_at, attempt.id
abbrev pub comes_before : Candidate → Candidate → Bool
comes_before c d =
    ltb c.expires_at d.expires_at
    || nat_beq c.expires_at d.expires_at && is_text_before c.attempt_id d.attempt_id

unfoldable pub insert_ordered : Candidate → List Candidate → List Candidate
insert_ordered c [] = c ∷ []
insert_ordered c (d ∷ ds) =
    let later = d ∷ insert_ordered c ds in if comes_before d c then later else c ∷ d ∷ ds

unfoldable pub order_candidates : List Candidate → List Candidate
order_candidates [] = []
order_candidates (c ∷ cs) = insert_ordered c (order_candidates cs)

unfoldable pub candidates : ℕ → X402AttemptCleanupScope → PaymentsDb → List Candidate
candidates now scope db = order_candidates (
    collect
      (λ (a : X402AttemptRow).
        collect
          (λ (r : ReservationRow).
            when (is_stranded now scope db.approvals a r) (candidate_of now db.approvals a r))
          db.reservations)
      db.attempts)

abbrev pub has_funds : (org_id agent_id : String) → ℕ → AccountRow → Bool
has_funds org_id agent_id amount a = is_account org_id agent_id a && leb amount a.reserved_usdc

abbrev pub is_open_attempt : (id org_id agent_id : String) → X402AttemptRow → Bool
is_open_attempt id org_id agent_id a =
    a.id == id
    && a.org_id == org_id
    && a.agent_id == agent_id
    && a.status == X402AttemptStatus.reserved

abbrev pub set_failed : ℕ → String → X402AttemptRow → X402AttemptRow
set_failed now code a = record a {
  status = X402AttemptStatus.failed;
  error_code = some code;
  finalized_at = some now;
  updated_at = now;
}

-- The account and the attempt of a candidate whose reservation was released.
unfoldable pub settle_candidate : ℕ → X402AttemptCleanupScope → Candidate → Tx PaymentsDb ℕ
settle_candidate now scope c db =
    let funded = has_funds scope.org_id scope.agent_id c.amount_usdc in
    let is_open = is_open_attempt c.attempt_id scope.org_id scope.agent_id in
    if not (nat_beq (length (filter funded db.accounts)) 1)
    then err (error "payment_attempt_reserved_budget_invalid")
    else if not (nat_beq (length (filter is_open db.attempts)) 1)
    then err (error "payment_attempt_state_conflict")
    else ok (
      1,
      record db {
        accounts = update_where funded (lower_reserved now c.amount_usdc) db.accounts;
        attempts = update_where is_open (set_failed now c.error_code) db.attempts;
      },
    )

-- UPDATE of the candidate's reservation.
abbrev pub with_released : ℕ → X402AttemptCleanupScope → Candidate → PaymentsDb → PaymentsDb
with_released now scope c db = record db {
  reservations =
      update_where (is_reservation c.reservation_id scope.org_id) (set_released now)
        db.reservations;
}

abbrev pub hits_one : X402AttemptCleanupScope → Candidate → PaymentsDb → Bool
hits_one scope c db =
    nat_beq (length (filter (is_reservation c.reservation_id scope.org_id) db.reservations)) 1

-- One round of the loop, with what it adds to the count.
unfoldable pub cancel_candidate : ℕ → X402AttemptCleanupScope → Candidate → Tx PaymentsDb ℕ
cancel_candidate now scope c db =
    if hits_one scope c db
    then settle_candidate now scope c (with_released now scope c db)
    else ok (0, with_released now scope c db)

unfoldable pub cancel_candidates : ℕ → X402AttemptCleanupScope → List Candidate → Tx PaymentsDb ℕ
cancel_candidates now scope [] = pure 0
cancel_candidates now scope (c ∷ cs) = do
  n ← cancel_candidate now scope c
  m ← cancel_candidates now scope cs
  pure (n + m)

unfoldable pub cancel_stranded_reserved_attempts : ℕ → X402AttemptCleanupScope → Tx PaymentsDb ℕ
cancel_stranded_reserved_attempts now scope db =
    cancel_candidates now scope (candidates now scope db) db
