-- ===== src/Payments/Reservations/Release.antt =====
-- releaseOnProof of x402-attempt-store.ts, and the counters of accounts.
use aops_pmoa.Prelude.{
  ℕ, ◌<◌, ◌≡◌, sym, ap, ◌∙◌, subst, inl, inr, String, Bool, false, not, ◌&&◌, some, arith, ltb,
  ◌==◌, text_comparable, any, find?, All, Option-cases, update_where, Failure, find?-test, Result,
  ok, throw_if, conflict, bad_request, bind-eq-ok,
}
use aops_pmoa.Payments.Types.{
  reserved, reservation_status_comparable, ReservationRow, AccountRow, LedgerPostingRow, PaymentsDb,
}
use aops_pmoa.Payments.Ledger.{WritePostingInput, write_posting, insert_posting}
use aops_pmoa.Payments.Reservations.{
  DeathProof, is_provably_dead, org_payment_mode, is_reservation, is_account, set_released,
  lower_reserved, subtract_reserved, release_posting, read_proof, release_row, release_on_proof,
}
use aops_pmoa.Payments.Reservations.Conservation.{HasDistinctIds, IsBacked, lower-All-IsBacked}

throw_if-eq-ok :
    (b : Bool) (e : Failure) (db db' : PaymentsDb)
    → throw_if b e db ≡ ok (tt, db')
    → (b ≡ false) × (db' ≡ db)
throw_if-eq-ok b e db db' h = ground arith

subtract_reserved-eq-ok :
    (now : ℕ) (org_id agent_id : String) (amount : ℕ) (db db' : PaymentsDb)
    → subtract_reserved now org_id agent_id amount db ≡ ok (tt, db')
    → (db'.reservations ≡ db.reservations)
      × (any
            (λ (a : AccountRow). is_account org_id agent_id a && ltb a.reserved_usdc amount)
            db.accounts
          ≡ false)
      × (db'.accounts
          ≡ update_where (is_account org_id agent_id) (lower_reserved now amount) db.accounts)
unfolding subtract_reserved
subtract_reserved-eq-ok now org_id agent_id amount db db' e =
    (ground arith, ground arith, ground arith)

write_posting-keeps :
    (now : ℕ) (new_id : String) (input : WritePostingInput) (db db' : PaymentsDb)
    (p : LedgerPostingRow)
    → write_posting now new_id input db ≡ ok (p, db')
    → (db'.reservations ≡ db.reservations) × (db'.accounts ≡ db.accounts)
unfolding write_posting insert_posting
write_posting-keeps now new_id input db db' p e = (ground arith, ground arith)

module _ (chain_reader : (reservation_id : String) → Result DeathProof) where
  -- The proof that a reservation's authorisation is dead was read, and holds.
  abbrev pub IsDead : (reservation_id : String) → (now_unix_seconds : ℕ) → Type 0
  IsDead id now_unix_seconds =
      (proof : DeathProof) × (chain_reader id ≡ ok proof)
      × (proof.valid_before_unix_seconds < now_unix_seconds)
      × (proof.authorization_used ≡ false)

  read_proof-eq-ok :
      (id : String) (db db' : PaymentsDb) (proof : DeathProof)
      → read_proof chain_reader id db ≡ ok (proof, db')
      → (chain_reader id ≡ ok proof) × (db' ≡ db)
  read_proof-eq-ok id db db' proof e = ground arith

  release_row-eq-ok :
      (now now_unix_seconds : ℕ) (new_id : String) (row : ReservationRow) (db db' : PaymentsDb)
      → release_row chain_reader now now_unix_seconds new_id row db ≡ ok (tt, db')
      → (row.status ≡ reserved)
        × IsDead row.id now_unix_seconds
        × (db'.reservations
            ≡ update_where (is_reservation row.id row.org_id) (set_released now) db.reservations)
        × (any
              (λ (a : AccountRow).
                is_account row.org_id row.agent_id a && ltb a.reserved_usdc row.amount_usdc)
              db.accounts
            ≡ false)
        × (db'.accounts
            ≡ update_where
                (is_account row.org_id row.agent_id)
                (lower_reserved now row.amount_usdc)
                db.accounts)
  unfolding release_row is_provably_dead
  release_row-eq-ok now now_unix_seconds new_id row db db' e =
      let (t0, d0, tested, e0) =
        bind-eq-ok (throw_if (not (row.status == reserved)) (conflict "reservation_not_reserved")) _
          db e in
      let (proof, d1, read, e1) = bind-eq-ok (read_proof chain_reader row.id) _ d0 e0 in
      let (t1, d2, dead, e2) =
        bind-eq-ok
          (throw_if (not (is_provably_dead proof now_unix_seconds))
            (bad_request "not_provably_dead"))
          _ d1 e1 in
      let changed : PaymentsDb = record d2 {
        reservations =
            update_where (is_reservation row.id row.org_id) (set_released now) d2.reservations;
      } in
      let (t3, d3, subtracted, e3) =
        bind-eq-ok (subtract_reserved now row.org_id row.agent_id row.amount_usdc) _ changed e2 in
      let (p, d4, posted, e4) =
        bind-eq-ok (write_posting now new_id (release_posting (org_payment_mode row.org_id d3) row))
          _ d3 e3 in
      let (held, first) = throw_if-eq-ok _ _ db d0 tested in
      let (alive, third) = throw_if-eq-ok _ _ d1 d2 dead in
      let (answered, second) = read_proof-eq-ok row.id d0 d1 proof read in
      let same : d2 ≡ db = third ∙ second ∙ first in
      let (kept, enough, lowered) =
        subtract_reserved-eq-ok now row.org_id row.agent_id row.amount_usdc changed d3 subtracted in
      let (kept', lowered') =
        write_posting-keeps now new_id (release_posting (org_payment_mode row.org_id d3) row) d3 d4
          p posted in
      let last : db' ≡ d4 = ground arith in
      (
        ground arith,
        (proof, answered, ground arith, ground arith),
        ap (λ d. d.reservations) last
            ∙ kept'
            ∙ kept
            ∙ ap
                (λ d.
                  update_where (is_reservation row.id row.org_id) (set_released now) d.reservations)
                same,
        ap
              (λ d.
                any
                  (λ (a : AccountRow).
                    is_account row.org_id row.agent_id a && ltb a.reserved_usdc row.amount_usdc)
                  d.accounts)
              (sym same)
            ∙ enough,
        ap (λ d. d.accounts) last
            ∙ lowered'
            ∙ lowered
            ∙ ap
                (λ d.
                  update_where (is_account row.org_id row.agent_id)
                    (lower_reserved now row.amount_usdc) d.accounts)
                same,
      )

  -- Where ids are distinct and the counters of all accounts agree with their reservations, a release
  -- that succeeds had the proof that the authorisation was past its window and unused, and leaves the
  -- counters in agreement.
  pub release_on_proof-IsBacked :
      (now now_unix_seconds : ℕ) (new_id reservation_id : String) (db db' : PaymentsDb)
      → HasDistinctIds db.reservations
      → All (IsBacked db.reservations) db.accounts
      → release_on_proof chain_reader now now_unix_seconds new_id reservation_id db ≡ ok (tt, db')
      → IsDead reservation_id now_unix_seconds × All (IsBacked db'.reservations) db'.accounts
  unfolding release_on_proof
  release_on_proof-IsBacked now now_unix_seconds new_id reservation_id db db' distinct backed e =
      elim (Option-cases (find? (λ (r : ReservationRow). r.id == reservation_id) db.reservations)) [
        | inl missing ↦ absurd (ground arith)
        | inr (row, found) ↦
            let named : row.id ≡ reservation_id =
              (text_comparable.same_iff row.id reservation_id).0 (
                find?-test (λ (r : ReservationRow). r.id == reservation_id) db.reservations
                  found) in
            let (held, dead, reservations, enough, accounts) =
              release_row-eq-ok now now_unix_seconds new_id row db db' (ground arith) in
            (
              subst (λ id. IsDead id now_unix_seconds) named dead,
              rw (reservations, accounts)
                  (lower-All-IsBacked now row db.reservations db.accounts distinct
                    (subst
                      (λ id. find? (λ (q : ReservationRow). q.id == id) db.reservations ≡ some row)
                      (sym named) found)
                    held enough backed),
            )
      ]
