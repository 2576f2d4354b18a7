-- ===== src/Payments/Attempts/Evolution.antt =====
-- The operations of x402-attempt-store.ts, one by one, against the life of an attempt.
use aops_pmoa.Prelude.{
  ℕ, ◌≡◌, inl, inr, refl, String, Bool, true, false, ◌&&◌, text_comparable, Option, none, some, [],
  ◌∷◌, ◌++◌, arith, ◌==◌, find?, Option-cases, update_where, Extends-append, Extends-update_where,
  Result, ok, ◌>>=◌, bind-eq-ok,
}
use aops_pmoa.Payments.Types.{
  X402AttemptStatus, reserved, submitting, settled, failed, unknown, X402ResultEnvelope,
  X402AttemptRow, PaymentsDb,
}
use aops_pmoa.Payments.AttemptTypes.{
  X402AttemptScope, X402ResultCryptoContext, CreateX402AttemptInput, X402AttemptFinalizationInput,
  FinalizationValues,
}
use aops_pmoa.Payments.Attempts.{
  is_expired, scrub, has_key, is_ready, find_attempt, transition, submit, mark_submitting, finalize,
  finalization_values, finalize_settled, finalize_failed, finalize_unknown, new_attempt,
  create_attempt,
}
use aops_pmoa.Payments.Attempts.Lifecycle.{
  Edge, submits, settles, fails, is_lost, is_cancelled, Evolves, Evolves-refl, along,
  AttemptsEvolve, scrub-Evolves,
}

-- A transition that succeeds found a row in scope and in the required status, and updates the rows
-- that are.
pub transition-eq-ok :
    (scope : X402AttemptScope) (attempt_id : String) (required : X402AttemptStatus)
    (change : X402AttemptRow → X402AttemptRow) (db db' : PaymentsDb) (row : X402AttemptRow)
    → transition scope attempt_id required change db ≡ ok (row, db')
    → (r : X402AttemptRow) × (find? (is_ready scope attempt_id required) db.attempts ≡ some r)
      × (row ≡ change r)
      × (db' ≡ record db {
        attempts = update_where (is_ready scope attempt_id required) change db.attempts;
      })
unfolding transition
transition-eq-ok scope attempt_id required change db db' row e =
    elim (Option-cases (find? (is_ready scope attempt_id required) db.attempts)) [
      | inl missing ↦ absurd (ground arith)
      | inr (r, found) ↦ (r, found, ground arith, ground arith)
    ]

ready-status :
    (scope : X402AttemptScope) (attempt_id : String) (required : X402AttemptStatus)
    (r : X402AttemptRow)
    → is_ready scope attempt_id required r ≡ true
    → r.status ≡ required
ready-status scope attempt_id required r h = ground arith

transition-Evolves :
    (scope : X402AttemptScope) (attempt_id : String) (required : X402AttemptStatus)
    (change : X402AttemptRow → X402AttemptRow)
    → ((r : X402AttemptRow) → r.status ≡ required → Evolves r (change r))
    → (db db' : PaymentsDb) (row : X402AttemptRow)
    → transition scope attempt_id required change db ≡ ok (row, db')
    → AttemptsEvolve db db'
transition-Evolves scope attempt_id required change step db db' row e =
    let (r, found, changed, written) =
      transition-eq-ok scope attempt_id required change db db' row e in
    rw written (
      Extends-update_where Evolves Evolves-refl (is_ready scope attempt_id required) change
        (λ r h. step r (ready-status scope attempt_id required r h)) db.attempts)

pub mark_submitting-Evolves :
    (now : ℕ) (scope : X402AttemptScope) (attempt_id : String) (db db' : PaymentsDb)
    (row : X402AttemptRow)
    → mark_submitting now scope attempt_id db ≡ ok (row, db')
    → AttemptsEvolve db db'
unfolding mark_submitting
mark_submitting-Evolves now scope attempt_id db db' row e =
    transition-Evolves scope attempt_id reserved (submit now)
      (λ r h.
        along r reserved (submit now r) submits h (refl, refl, refl, refl, refl, refl, refl, refl))
      db db' row e

-- A finalisation along an edge from the required status.
finalize-Evolves :
    (now : ℕ) (required final : X402AttemptStatus) (code : Option String)
    (values : FinalizationValues)
    → Edge required final
    → (r : X402AttemptRow) → r.status ≡ required
    → Evolves r (finalize now final code values r)
finalize-Evolves now required final code values edge r h =
    along r required (finalize now final code values r) edge h
      (refl, refl, refl, refl, refl, refl, refl, refl)

-- A body that reads values and then makes a transition.
module _ {Payload : Type 0}
    (seal : X402ResultCryptoContext → Payload → Result X402ResultEnvelope) where
  -- Reading and sealing the values writes nothing.
  finalization_values-keeps :
      (scope : X402AttemptScope) (attempt_id : String)
      (input : X402AttemptFinalizationInput Payload) (db db' : PaymentsDb)
      (values : FinalizationValues)
      → finalization_values seal scope attempt_id input db ≡ ok (values, db')
      → db' ≡ db
  unfolding finalization_values
  finalization_values-keeps scope attempt_id input db db' values e = ground arith

  finalizes :
      (now : ℕ) (scope : X402AttemptScope) (attempt_id : String)
      (input : X402AttemptFinalizationInput Payload) (required final : X402AttemptStatus)
      (code : Option String) (db db' : PaymentsDb) (row : X402AttemptRow)
      → Edge required final
      → (finalization_values seal scope attempt_id input >>= λ values.
            transition scope attempt_id required (finalize now final code values))
          db
        ≡ ok (row, db')
      → AttemptsEvolve db db'
  finalizes now scope attempt_id input required final code db db' row edge e =
      let (values, middle, first, second) =
        bind-eq-ok (finalization_values seal scope attempt_id input)
          (λ values. transition scope attempt_id required (finalize now final code values)) db e in
      transition-Evolves scope attempt_id required (finalize now final code values)
        (finalize-Evolves now required final code values edge) db db' row
        (rw (finalization_values-keeps scope attempt_id input db middle values first) at second)

  pub finalize_settled-Evolves :
      (now : ℕ) (scope : X402AttemptScope) (attempt_id : String)
      (input : X402AttemptFinalizationInput Payload) (db db' : PaymentsDb) (row : X402AttemptRow)
      → finalize_settled seal now scope attempt_id input db ≡ ok (row, db')
      → AttemptsEvolve db db'
  unfolding finalize_settled
  finalize_settled-Evolves now scope attempt_id input db db' row e =
      finalizes now scope attempt_id input submitting settled none db db' row settles e

  pub finalize_failed-Evolves :
      (now : ℕ) (scope : X402AttemptScope) (attempt_id : String)
      (input : X402AttemptFinalizationInput Payload) (code : String) (called : Bool)
      (db db' : PaymentsDb) (row : X402AttemptRow)
      → finalize_failed seal now scope attempt_id input code called db ≡ ok (row, db')
      → AttemptsEvolve db db'
  unfolding finalize_failed
  finalize_failed-Evolves now scope attempt_id input code true db db' row e =
      finalizes now scope attempt_id input submitting failed (some code) db db' row fails e
  finalize_failed-Evolves now scope attempt_id input code false db db' row e =
      finalizes now scope attempt_id input reserved failed (some code) db db' row is_cancelled e

  pub finalize_unknown-Evolves :
      (now : ℕ) (scope : X402AttemptScope) (attempt_id : String)
      (input : X402AttemptFinalizationInput Payload) (code : String) (db db' : PaymentsDb)
      (row : X402AttemptRow)
      → finalize_unknown seal now scope attempt_id input code db ≡ ok (row, db')
      → AttemptsEvolve db db'
  unfolding finalize_unknown
  finalize_unknown-Evolves now scope attempt_id input code db db' row e =
      finalizes now scope attempt_id input submitting unknown (some code) db db' row is_lost e

-- The scrubbing of expired results keeps every status.
pub find_attempt-Evolves :
    (now : ℕ) (connection_id key : String) (db db' : PaymentsDb) (found : Option X402AttemptRow)
    → find_attempt now connection_id key db ≡ ok (found, db')
    → AttemptsEvolve db db'
unfolding find_attempt
find_attempt-Evolves now connection_id key db db' found e =
    let test = λ (row : X402AttemptRow). has_key connection_id key row && is_expired now row in
    let written : db' ≡ record db { attempts = update_where test (scrub now) db.attempts } =
      ground arith in
    rw written (
      Extends-update_where Evolves Evolves-refl test (scrub now) (λ r h. scrub-Evolves now r)
        db.attempts)

-- A new attempt stands behind the others; an attempt that is used again is scrubbed at most.
pub create_attempt-Evolves :
    (now : ℕ) (new_id : String) (input : CreateX402AttemptInput) (db db' : PaymentsDb)
    (row : X402AttemptRow)
    → create_attempt now new_id input db ≡ ok (row, db')
    → AttemptsEvolve db db'
unfolding create_attempt
create_attempt-Evolves now new_id input db db' row e =
    elim (Option-cases (find? (has_key input.connection_id input.idempotency_key) db.attempts)) [
      | inl fresh ↦
          let written : db'
              ≡ record db { attempts = db.attempts ++ new_attempt now new_id input ∷ [] } =
            ground arith in
          rw written
            (Extends-append Evolves Evolves-refl db.attempts (new_attempt now new_id input ∷ []))
      | inr (old, held) ↦
          let test = λ (r : X402AttemptRow). r.id == old.id && is_expired now r in
          let written : db' ≡ record db { attempts = update_where test (scrub now) db.attempts } =
            ground arith in
          rw written (
            Extends-update_where Evolves Evolves-refl test (scrub now) (λ r h. scrub-Evolves now r)
              db.attempts)
    ]
