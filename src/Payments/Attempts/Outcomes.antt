-- ===== src/Payments/Attempts/Outcomes.antt =====
-- What transitions and creations of attempts answer, on every branch.
use mathlib.Core.Option
use aops_pmoa.Prelude.{
  ℕ, ◌≡◌, inl, inr, refl, ◌∙◌, ap, String, Bool, true, false, ◌&&◌, Option, none, some, List, [],
  ◌∷◌, ◌++◌, arith, ◌==◌, text_comparable, find?, any, length, Option-cases, if◌then◌else◌,
  update_where, Result, ok, err, ==_refl, is_some, suc,
}
use aops_pmoa.Payments.Types.{
  X402AttemptStatus, attempt_status_comparable, X402AttemptRow, PaymentsDb,
}
use aops_pmoa.Payments.AttemptTypes.{
  X402AttemptScope, CreateX402AttemptInput, scope_invalid, state_conflict,
}
use aops_pmoa.Payments.Attempts.{
  is_expired, scrub, has_key, in_scope, is_ready, transition, is_valid_scope, new_attempt,
  create_attempt,
}

-- The primary key of the table.
abbrev pub HasDistinctIds : List X402AttemptRow → Type 0
HasDistinctIds [] = Unit
HasDistinctIds (r ∷ rs) =
    (any (λ (q : X402AttemptRow). q.id == r.id) rs ≡ false) × HasDistinctIds rs

module _ (scope : X402AttemptScope) (attempt_id : String) (required : X402AttemptStatus) where
  -- A row whose id is not in the table is not found in scope.
  in_scope-absent :
      (id : String) (rs : List X402AttemptRow)
      → id ≡ attempt_id
      → any (λ (q : X402AttemptRow). q.id == id) rs ≡ false
      → (find? (is_ready scope attempt_id required) rs ≡ none)
  in_scope-absent id [] same h = refl
  in_scope-absent id (r ∷ rs) same h = ground (
    arith,
    text_comparable.same_iff r.id id,
    text_comparable.same_iff r.id attempt_id,
    in_scope-absent id rs same,
  )

  -- Where ids are distinct, the row that is ready is the row in scope, if it has the status.
  abbrev if_required : Option X402AttemptRow → Option X402AttemptRow
  if_required none = none
  if_required (some r) = if r.status == required then some r else none

  ready-eq-in_scope :
      (rs : List X402AttemptRow)
      → HasDistinctIds rs
      → find? (is_ready scope attempt_id required) rs
        ≡ if_required (find? (in_scope scope attempt_id) rs)
  ready-eq-in_scope [] h = refl
  ready-eq-in_scope (r ∷ rs) (alone, h) = ground (
    arith,
    ready-eq-in_scope rs h,
    text_comparable.same_iff r.id attempt_id,
    in_scope-absent r.id rs,
  )

  any-in_scope :
      (rs : List X402AttemptRow)
      → any (in_scope scope attempt_id) rs ≡ is_some (find? (in_scope scope attempt_id) rs)
  any-in_scope [] = refl
  any-in_scope (r ∷ rs) = ground (arith, any-in_scope rs)

  -- What a transition answers for the row in scope.
  abbrev pub answer :
      (X402AttemptRow → X402AttemptRow)
      → PaymentsDb
      → Option X402AttemptRow
      → Result (X402AttemptRow × PaymentsDb)
  answer change db none = err scope_invalid
  answer change db (some r) =
      if r.status == required
      then ok (
        change r,
        record db {
          attempts = update_where (is_ready scope attempt_id required) change db.attempts;
        },
      )
      else err state_conflict

  -- Where ids are distinct, a transition changes the row in scope if it has the required status; it
  -- is a conflict in any other status, and a failure of the scope where no row is in scope.
  pub transition-answer :
      (change : X402AttemptRow → X402AttemptRow) (db : PaymentsDb)
      → HasDistinctIds db.attempts
      → transition scope attempt_id required change db
        ≡ answer change db (find? (in_scope scope attempt_id) db.attempts)
  unfolding transition
  transition-answer change db distinct =
      ground (arith, ready-eq-in_scope db.attempts distinct, any-in_scope db.attempts)

-- A search for a column that an update keeps finds the updated row.
find?-update_where :
    (test hit : X402AttemptRow → Bool) (change : X402AttemptRow → X402AttemptRow)
    → ((r : X402AttemptRow) → test (change r) ≡ test r)
    → (rs : List X402AttemptRow)
    → find? test (update_where hit change rs)
      ≡ Option.map (λ r. if hit r then change r else r) (find? test rs)
find?-update_where test hit change keep [] = refl
find?-update_where test hit change keep (r ∷ rs) =
    ground (arith, keep r, find?-update_where test hit change keep rs)

find?-append :
    (test : X402AttemptRow → Bool) (rs : List X402AttemptRow) (r : X402AttemptRow)
    → find? test rs ≡ none
    → test r ≡ true
    → find? test (rs ++ r ∷ []) ≡ some r
find?-append test [] r h k = ground arith
find?-append test (q ∷ rs) r h k = ground (arith, find?-append test rs r)

length-update_where :
    (hit : X402AttemptRow → Bool) (change : X402AttemptRow → X402AttemptRow)
    (rs : List X402AttemptRow)
    → length (update_where hit change rs) ≡ length rs
length-update_where hit change [] = refl
length-update_where hit change (r ∷ rs) = ap suc (length-update_where hit change rs)

-- A successful creation leaves a row under its key, and hands that row's id and request out.
module _ (now : ℕ) (new_id : String) (input : CreateX402AttemptInput) (db : PaymentsDb) where
  abbrev IsHeld : X402AttemptRow → PaymentsDb → Type 0
  IsHeld row db' =
      (r : X402AttemptRow) × (find? (has_key input.connection_id input.idempotency_key) db'.attempts
        ≡ some r)
      × (r.id ≡ row.id)
      × (r.request_hash ≡ input.request_hash)
      × (is_valid_scope input db' ≡ true)

  abbrev with_new : PaymentsDb
  with_new = record db { attempts = db.attempts ++ new_attempt now new_id input ∷ [] }

  new-IsHeld :
      is_valid_scope input db ≡ true
      → find? (has_key input.connection_id input.idempotency_key) db.attempts ≡ none
      → IsHeld (new_attempt now new_id input) with_new
  unfolding is_valid_scope
  new-IsHeld valid fresh = (
    new_attempt now new_id input,
    find?-append (has_key input.connection_id input.idempotency_key) db.attempts
        (new_attempt now new_id input) fresh
        (ground (arith, ==_refl input.connection_id, ==_refl input.idempotency_key)),
    refl,
    refl,
    valid,
  )

  abbrev with_scrubbed : X402AttemptRow → PaymentsDb
  with_scrubbed old = record db {
    attempts =
        update_where (λ (r : X402AttemptRow). r.id == old.id && is_expired now r) (scrub now)
          db.attempts;
  }

  abbrev scrubbed : X402AttemptRow → X402AttemptRow
  scrubbed old = if is_expired now old then scrub now old else old

  scrubbed-IsHeld :
      (old : X402AttemptRow)
      → is_valid_scope input db ≡ true
      → find? (has_key input.connection_id input.idempotency_key) db.attempts ≡ some old
      → old.request_hash ≡ input.request_hash
      → IsHeld (scrubbed old) (with_scrubbed old)
  unfolding is_valid_scope
  scrubbed-IsHeld old valid held same =
      let there =
        find?-update_where (has_key input.connection_id input.idempotency_key)
          (λ (r : X402AttemptRow). r.id == old.id && is_expired now r) (scrub now) (λ r. refl)
          db.attempts in
      (scrubbed old, there ∙ ground (arith, held, ==_refl old.id), refl, ground arith, valid)

  create_attempt-IsHeld :
      (db' : PaymentsDb) (row : X402AttemptRow)
      → create_attempt now new_id input db ≡ ok (row, db')
      → IsHeld row db'
  unfolding create_attempt
  create_attempt-IsHeld db' row e =
      let valid : is_valid_scope input db ≡ true = ground arith in
      elim (Option-cases (find? (has_key input.connection_id input.idempotency_key) db.attempts)) [
        | inl fresh ↦
            let handed : row ≡ new_attempt now new_id input = ground arith in
            let written : db' ≡ with_new = ground arith in
            rw (handed, written) (new-IsHeld valid fresh)
        | inr (old, held) ↦
            let same : old.request_hash ≡ input.request_hash =
              ground (arith, text_comparable.same_iff old.request_hash input.request_hash) in
            let handed : row ≡ scrubbed old = ground arith in
            let written : db' ≡ with_scrubbed old = ground arith in
            rw (handed, written) (scrubbed-IsHeld old valid held same)
      ]

-- Creating an attempt again, for the same input at any later time, succeeds with the row of the
-- first creation: the same id, and no further row, whatever id was drawn for it.
pub create_attempt-again :
    (now later : ℕ) (new_id other_id : String) (input : CreateX402AttemptInput)
    (db db' : PaymentsDb) (row : X402AttemptRow)
    → create_attempt now new_id input db ≡ ok (row, db')
    → (row' : X402AttemptRow) × (db'' : PaymentsDb) × (create_attempt later other_id input db'
        ≡ ok (row', db''))
      × (row'.id ≡ row.id)
      × (length db''.attempts ≡ length db'.attempts)
unfolding create_attempt
create_attempt-again now later new_id other_id input db db' row e =
    let (r, held, same, hash, valid) = create_attempt-IsHeld now new_id input db db' row e in
    (
      scrubbed later other_id input db' r,
      with_scrubbed later other_id input db' r,
      ground (arith, text_comparable.same_iff r.request_hash input.request_hash),
      ground arith,
      length-update_where (λ (x : X402AttemptRow). x.id == r.id && is_expired later x) (scrub later)
          db'.attempts,
    )
