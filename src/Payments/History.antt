-- ===== src/Payments/History.antt =====
-- Sequences of operations on the attempts: each step is one committed operation of
-- x402-attempt-store.ts, in any order and interleaving, at any time.
use aops_pmoa.Prelude.{
  min, ℕ, ◌≡◌, inl, inr, refl, String, Bool, Option, some, List, [], ◌∷◌, arith, ◌==◌,
  text_comparable, find?, Bool-cases, update_where, Extends, Extends-refl, Extends-trans,
  Extends-update_where, Result, ok, bind-eq-ok,
}
use aops_pmoa.Payments.Types.{
  X402AttemptStatus, attempt_status_comparable, X402ResultEnvelope, X402AttemptRow, PaymentsDb,
}
use aops_pmoa.Payments.AttemptTypes.{
  X402AttemptScope, X402ResultCryptoContext, CreateX402AttemptInput, X402AttemptFinalizationInput,
}
use aops_pmoa.Payments.Attempts.{
  scrub, find_attempt, mark_submitting, finalize_settled, finalize_failed, finalize_unknown,
  create_attempt,
}
use aops_pmoa.Payments.Attempts.Lifecycle.{
  scrub-Evolves, is_cancelled, Follows, Leads-Follows, Evolves, Evolves-refl, Evolves-trans, along,
  AttemptsEvolve,
}
use aops_pmoa.Payments.Attempts.Evolution.{
  mark_submitting-Evolves, finalize_settled-Evolves, finalize_failed-Evolves,
  finalize_unknown-Evolves, find_attempt-Evolves, create_attempt-Evolves,
}
use aops_pmoa.Payments.Purge.{
  max_result_purge_batch_limit, expired_rows, is_among, purge_expired_x402_results,
}
use aops_pmoa.Payments.Stranded.{
  X402AttemptCleanupScope, Candidate, candidates, with_released, hits_one, is_open_attempt,
  set_failed, settle_candidate, cancel_candidate, cancel_candidates,
  cancel_stranded_reserved_attempts,
}

-- A row that is found by its id is found in what the table has become.
Extends-find :
    (id : String) (xs ys : List X402AttemptRow) (r : X402AttemptRow)
    → Extends Evolves xs ys
    → find? (λ (a : X402AttemptRow). a.id == id) xs ≡ some r
    → (r' : X402AttemptRow) × (find? (λ (a : X402AttemptRow). a.id == id) ys ≡ some r')
      × Evolves r r'
Extends-find id [] ys r h e = absurd (ground arith)
Extends-find id (x ∷ xs) [] r h e = absurd h
Extends-find id (x ∷ xs) (y ∷ ys) r (p, h) e = elim (Bool-cases (x.id == id)) [
  | inl hit ↦ let same : x ≡ r = ground arith in (y, rw (p.id, hit) refl, rw same at p)
  | inr miss ↦
      let (r', there, evolved) = Extends-find id xs ys r h (rw miss at e) in
      (r', rw (p.id, miss) there, evolved)
]

-- The cleanup fails reserved attempts, and no others.
settle_candidate-Evolves :
    (now : ℕ) (scope : X402AttemptCleanupScope) (c : Candidate) (db db' : PaymentsDb) (n : ℕ)
    → settle_candidate now scope c db ≡ ok (n, db')
    → AttemptsEvolve db db'
unfolding settle_candidate
settle_candidate-Evolves now scope c db db' n e =
    let is_open = is_open_attempt c.attempt_id scope.org_id scope.agent_id in
    let written : db'.attempts ≡ update_where is_open (set_failed now c.error_code) db.attempts =
      ground arith in
    rw written (
      Extends-update_where Evolves Evolves-refl is_open (set_failed now c.error_code)
        (λ r h.
          along r X402AttemptStatus.reserved (set_failed now c.error_code r) is_cancelled
            (ground arith) (refl, refl, refl, refl, refl, refl, refl, refl))
        db.attempts)

cancel_candidate-Evolves :
    (now : ℕ) (scope : X402AttemptCleanupScope) (c : Candidate) (db db' : PaymentsDb) (n : ℕ)
    → cancel_candidate now scope c db ≡ ok (n, db')
    → AttemptsEvolve db db'
unfolding cancel_candidate
cancel_candidate-Evolves now scope c db db' n e = elim (Bool-cases (hits_one scope c db)) [
  | inl one ↦
      settle_candidate-Evolves now scope c (with_released now scope c db) db' n (rw one at e)
  | inr none_or_more ↦
      let written : db' ≡ with_released now scope c db = ground arith in
      rw written (Extends-refl Evolves Evolves-refl db.attempts)
]

cancel_candidates-Evolves :
    (now : ℕ) (scope : X402AttemptCleanupScope) (cs : List Candidate) (db db' : PaymentsDb) (n : ℕ)
    → cancel_candidates now scope cs db ≡ ok (n, db')
    → AttemptsEvolve db db'
unfolding cancel_candidates
cancel_candidates-Evolves now scope [] db db' n e =
    let same : db' ≡ db = ground arith in rw same (Extends-refl Evolves Evolves-refl db.attempts)
cancel_candidates-Evolves now scope (c ∷ cs) db db' n e =
    let (k, middle, first, later) = bind-eq-ok (cancel_candidate now scope c) _ db e in
    let (m, final, second, counted) = bind-eq-ok (cancel_candidates now scope cs) _ middle later in
    let same : db' ≡ final = ground arith in
    rw same (
      Extends-trans Evolves Evolves-trans db.attempts middle.attempts final.attempts
        (cancel_candidate-Evolves now scope c db middle k first)
        (cancel_candidates-Evolves now scope cs middle final m second))

-- The purge scrubs results.
purge-Evolves :
    (locked : String → Bool) (now batch_limit : ℕ) (db db' : PaymentsDb) (n : ℕ)
    → purge_expired_x402_results locked now batch_limit db ≡ ok (n, db')
    → AttemptsEvolve db db'
unfolding purge_expired_x402_results
purge-Evolves locked now batch_limit db db' n e =
    let hit =
      is_among
        (expired_rows locked now (min batch_limit max_result_purge_batch_limit) db.attempts) in
    let written : db'.attempts ≡ update_where hit (scrub now) db.attempts = ground arith in
    rw written (
      Extends-update_where Evolves Evolves-refl hit (scrub now) (λ r h. scrub-Evolves now r)
        db.attempts)

module _ {Payload : Type 0}
    (seal : X402ResultCryptoContext → Payload → Result X402ResultEnvelope) where
  -- One committed operation. An operation that fails is rolled back, and is no step.
  pub data Step (db db' : PaymentsDb) : Type 0 where
    finds :
        (now : ℕ) (connection_id key : String) (found : Option X402AttemptRow)
        → find_attempt now connection_id key db ≡ ok (found, db')
        → Step db db'
    creates :
        (now : ℕ) (new_id : String) (input : CreateX402AttemptInput) (row : X402AttemptRow)
        → create_attempt now new_id input db ≡ ok (row, db')
        → Step db db'
    marks_submitting :
        (now : ℕ) (scope : X402AttemptScope) (attempt_id : String) (row : X402AttemptRow)
        → mark_submitting now scope attempt_id db ≡ ok (row, db')
        → Step db db'
    finalizes_settled :
        (now : ℕ) (scope : X402AttemptScope) (attempt_id : String)
        (input : X402AttemptFinalizationInput Payload) (row : X402AttemptRow)
        → finalize_settled seal now scope attempt_id input db ≡ ok (row, db')
        → Step db db'
    finalizes_failed :
        (now : ℕ) (scope : X402AttemptScope) (attempt_id : String)
        (input : X402AttemptFinalizationInput Payload) (code : String) (called : Bool)
        (row : X402AttemptRow)
        → finalize_failed seal now scope attempt_id input code called db ≡ ok (row, db')
        → Step db db'
    finalizes_unknown :
        (now : ℕ) (scope : X402AttemptScope) (attempt_id : String)
        (input : X402AttemptFinalizationInput Payload) (code : String) (row : X402AttemptRow)
        → finalize_unknown seal now scope attempt_id input code db ≡ ok (row, db')
        → Step db db'
    cancels_stranded :
        (now : ℕ) (scope : X402AttemptCleanupScope) (count : ℕ)
        → cancel_stranded_reserved_attempts now scope db ≡ ok (count, db')
        → Step db db'
    purges :
        (locked : String → Bool) (now batch_limit count : ℕ)
        → purge_expired_x402_results locked now batch_limit db ≡ ok (count, db')
        → Step db db'

  pub Step-Evolves : (db db' : PaymentsDb) → Step db db' → AttemptsEvolve db db'
  unfolding cancel_stranded_reserved_attempts
  Step-Evolves db db' (finds now c k found e) = find_attempt-Evolves now c k db db' found e
  Step-Evolves db db' (creates now i input row e) = create_attempt-Evolves now i input db db' row e
  Step-Evolves db db' (marks_submitting now s a row e) =
      mark_submitting-Evolves now s a db db' row e
  Step-Evolves db db' (finalizes_settled now s a input row e) =
      finalize_settled-Evolves seal now s a input db db' row e
  Step-Evolves db db' (finalizes_failed now s a input code called row e) =
      finalize_failed-Evolves seal now s a input code called db db' row e
  Step-Evolves db db' (finalizes_unknown now s a input code row e) =
      finalize_unknown-Evolves seal now s a input code db db' row e
  Step-Evolves db db' (cancels_stranded now s n e) =
      cancel_candidates-Evolves now s (candidates now s db) db db' n e
  Step-Evolves db db' (purges locked now limit n e) = purge-Evolves locked now limit db db' n e

  pub data History (db : PaymentsDb) : PaymentsDb → Type 0 where
    begin : History db db
    after : {db' db'' : PaymentsDb} → History db db' → Step db' db'' → History db db''

  pub History-Evolves : {db db' : PaymentsDb} → History db db' → AttemptsEvolve db db'
  History-Evolves {db} begin = Extends-refl Evolves Evolves-refl db.attempts
  History-Evolves {db} (after {db'} {db''} h s) =
      Extends-trans Evolves Evolves-trans db.attempts db'.attempts db''.attempts (History-Evolves h)
        (Step-Evolves db' db'' s)

  -- Throughout any history an attempt is found under its id with the same request, amount and
  -- recipient, its status reached along the edges of its life: one that was submitted is never
  -- reserved again, and a settled, failed or unknown one stays so.
  pub History-attempt :
      (db db' : PaymentsDb) (id : String) (r : X402AttemptRow)
      → History db db'
      → find? (λ (a : X402AttemptRow). a.id == id) db.attempts ≡ some r
      → (r' : X402AttemptRow) × (find? (λ (a : X402AttemptRow). a.id == id) db'.attempts ≡ some r')
        × Evolves r r'
        × Follows r.status r'.status
  History-attempt db db' id r h found =
      let (r', there, evolved) =
        Extends-find id db.attempts db'.attempts r (History-Evolves h) found in
      (r', there, evolved, Leads-Follows evolved.leads)
