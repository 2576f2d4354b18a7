-- ===== src/Payments/Escrow/Books.antt =====
-- The books of escrow: how the reservation of each job stands to its state, through the operations of
-- escrow.ts on one job and another.
use aops_pmoa.Prelude.{
  ◌≡◌, refl, sym, subst, ◌∙◌, inl, inr, String, true, false, Option, some, [], ◌∷◌, ◌++◌, arith,
  text_comparable, any, find?, find?-All, update_where, includes, All, All-append, Option-cases,
}
use aops_pmoa.Prelude.Keys.{
  All-change, All-both, is_keyed, HasDistinct, find?-fresh, HasDistinct-append,
  HasDistinct-update_where, found-only,
}
use aops_pmoa.Payments.Types.{reservation_status_comparable}
use aops_pmoa.Payments.Escrow.Types.{
  EscrowState, opened, escrow_state_comparable, EscrowJobRow, EscrowReservationRow, EscrowQuote,
  SourceRow, EscrowDb,
}
use aops_pmoa.Payments.Escrow.Rows.{
  is_job, reservation_of, is_reserved_for, outcome_of, set_outcome, settle_reservation,
}
use aops_pmoa.Payments.Escrow.Jobs.{set_funded}
use aops_pmoa.Payments.Escrow.Lifecycle.{escrow_transitions, set_state}
use aops_pmoa.Payments.Escrow.Effects.{Effect, stays, adds, funds, changes}
use aops_pmoa.Payments.Escrow.Booked.{
  BookedBy, Booked, IsBooked, Booked-append, Booked-settle, settle-own, allowed-cases,
}

-- A transition keeps its own job booked, and every other.
abbrev Carries : EscrowDb → EscrowDb → EscrowJobRow → (EscrowJobRow → EscrowJobRow) → Type 0
Carries db db' job change =
    Booked db'.reservations (change job)
    × ((other : EscrowJobRow)
        → is_job job.id other ≡ false
        → Booked db.reservations other
        → Booked db'.reservations other)

change-Carries :
    (db db' : EscrowDb) (job : EscrowJobRow) (next : EscrowState)
    (tx_hash deliverable_hash : Option String)
    → includes (escrow_transitions job.state) next ≡ true
    → db'.reservations
      ≡ (settle_reservation job job.reservation_id (outcome_of next) db).reservations
    → Booked db.reservations job
    → Carries db db' job (set_state next tx_hash deliverable_hash)
change-Carries db db' job next tx_hash deliverable_hash allowed rows booked =
    let (held, outcome) = allowed-cases job.state next allowed in
    elim (Option-cases job.reservation_id) [
      | inl none_held ↦
          let at : job.state ≡ opened = rw none_held at booked in absurd (ground arith)
      | inr (id, known) ↦
          let (r, found, backs) : BookedBy db.reservations job (some id) =
            subst (BookedBy db.reservations job) known booked in
          elim outcome [
            | inl (at, silent) ↦
                let same : db'.reservations ≡ db.reservations = rows ∙ rw (known, silent) refl in
                (
                  subst (BookedBy db'.reservations (set_state next tx_hash deliverable_hash job))
                      (sym known)
                      (
                        r,
                        rw same found,
                        record {
                          org_id = backs.org_id;
                          agent_id = backs.agent_id;
                          amount = backs.amount;
                          reason = backs.reason;
                          status = rw at (sym held ∙ backs.status);
                        },
                      ),
                  λ other apart b. subst (λ rs. Booked rs other) (sym same) b,
                )
            | inr (o, ends, final) ↦
                let changed : db'.reservations
                    ≡ update_where (is_reserved_for job id) (set_outcome o) db.reservations =
                  rows ∙ rw (known, ends) refl in
                (
                  subst (λ rs. Booked rs (set_state next tx_hash deliverable_hash job))
                      (sym changed)
                      (subst
                        (BookedBy
                          (update_where (is_reserved_for job id) (set_outcome o) db.reservations)
                          (set_state next tx_hash deliverable_hash job))
                        (sym known)
                        (settle-own db.reservations job id o r next tx_hash deliverable_hash found
                          backs held final)),
                  λ other apart b.
                      subst (λ rs. Booked rs other) (sym changed)
                        (Booked-settle db.reservations job other id o r other.reservation_id found
                          backs.reason apart b),
                )
          ]
    ]

fund-Carries :
    (hash_quote : EscrowQuote → String) (db db' : EscrowDb) (job : EscrowJobRow)
    (source : SourceRow) (reservation_id tx_hash : String)
    → any (is_keyed (λ (r : EscrowReservationRow). r.id) reservation_id) db.reservations ≡ false
    → db'.reservations ≡ db.reservations ++ reservation_of hash_quote reservation_id job source ∷ []
    → Carries db db' job (set_funded tx_hash reservation_id)
fund-Carries hash_quote db db' job source reservation_id tx_hash fresh rows =
    let row : EscrowReservationRow = reservation_of hash_quote reservation_id job source in
    (
      subst (λ rs. Booked rs (set_funded tx_hash reservation_id job)) (sym rows)
          (
            row,
            find?-fresh (λ (r : EscrowReservationRow). r.id) db.reservations row fresh,
            record { org_id = refl; agent_id = refl; amount = refl; reason = refl; status = refl },
          ),
      λ other apart b.
          subst (λ rs. Booked rs other) (sym rows)
            (Booked-append db.reservations (row ∷ []) other other.reservation_id b),
    )

-- A change of one job that carries the books carries the invariant.
Carries-IsBooked :
    (db db' : EscrowDb) (job : EscrowJobRow) (change : EscrowJobRow → EscrowJobRow)
    → ((j : EscrowJobRow) → (change j).id ≡ j.id)
    → find? (is_job job.id) db.jobs ≡ some job
    → db'.jobs ≡ update_where (is_job job.id) change db.jobs
    → Carries db db' job change
    → IsBooked db
    → IsBooked db'
Carries-IsBooked db db' job change keep found rows (own, others) (distinct, booked) =
    let only = found-only (λ (j : EscrowJobRow). j.id) job.id db.jobs distinct found in
    let P : EscrowJobRow → Type 0 =
      λ j. Booked db.reservations j × (is_job job.id j ≡ true → j ≡ job) in
    subst (λ js. HasDistinct (λ (j : EscrowJobRow). j.id) js × All (Booked db'.reservations) js)
      (sym rows)
      (
        HasDistinct-update_where (λ (j : EscrowJobRow). j.id) (is_job job.id) change keep db.jobs
            distinct,
        All-change P (Booked db'.reservations) (is_job job.id) change
            (λ j hit p. subst (λ z. Booked db'.reservations (change z)) (sym (p.1 hit)) own)
            (λ j miss p. others j miss p.0) db.jobs
            (All-both (Booked db.reservations) (λ j. is_job job.id j ≡ true → j ≡ job) db.jobs
              booked only),
      )

pub Effect-IsBooked :
    (hash_quote : EscrowQuote → String) (db db' : EscrowDb)
    → Effect hash_quote db db'
    → IsBooked db
    → IsBooked db'
Effect-IsBooked hash_quote db db' (stays (jobs, rows)) h = rw (jobs, rows) h
Effect-IsBooked hash_quote db db' (adds row fresh at unheld jobs rows) (distinct, booked) =
    let new : Booked db.reservations row = subst (BookedBy db.reservations row) (sym unheld) at in
    rw (jobs, rows)
      (
        HasDistinct-append (λ (j : EscrowJobRow). j.id) db.jobs row distinct fresh,
        All-append (Booked db.reservations) db.jobs (row ∷ []) booked (new, tt),
      )
Effect-IsBooked hash_quote db db' (funds job source reservation_id tx_hash found at fresh jobs rows)
      h =
    Carries-IsBooked db db' job (set_funded tx_hash reservation_id) (λ j. refl) found jobs
      (fund-Carries hash_quote db db' job source reservation_id tx_hash fresh rows) h
Effect-IsBooked hash_quote db db'
      (changes job next tx_hash deliverable_hash found allowed jobs rows) h =
    Carries-IsBooked db db' job (set_state next tx_hash deliverable_hash) (λ j. refl) found jobs
      (change-Carries db db' job next tx_hash deliverable_hash allowed rows
        (find?-All (Booked db.reservations) (is_job job.id) db.jobs h.1 found))
      h
