-- ===== src/Payments/Escrow/Booked.antt =====
-- How the reservation of a job stands to its state, and what the UPDATE of an outcome does to it.
use aops_pmoa.Prelude.{
  ◌≡◌, ◌⊎◌, refl, sym, subst, ap, ◌∙◌, inl, inr, String, true, false, Option, none, some, List,
  ◌++◌, arith, ◌==◌, text_comparable, if◌then◌else◌, find?, find?-test, update_where, includes, All,
  Bool-cases,
}
use aops_pmoa.Prelude.Keys.{find?-append, find?-update_where, is_keyed, HasDistinct}
use aops_pmoa.Payments.Types.{
  ReservationStatus, reserved, settled, released, reservation_status_comparable,
}
use aops_pmoa.Payments.Escrow.Types.{
  EscrowState, opened, funded, submitted, completed, rejected, expired, escrow_state_comparable,
  EscrowJobRow, EscrowReservationRow, EscrowDb,
}
use aops_pmoa.Payments.Escrow.Rows.{is_job, is_reserved_for, outcome_of, set_outcome}
use aops_pmoa.Payments.Escrow.Lifecycle.{escrow_transitions, set_state}

-- What a reservation says of a job in each state; an open job has none.
abbrev pub status_for : EscrowState → Option ReservationStatus
status_for opened = none
status_for funded = some reserved
status_for submitted = some reserved
status_for completed = some settled
status_for rejected = some released
status_for expired = some released

pub record Backs (job : EscrowJobRow) (r : EscrowReservationRow) : Type 0 where
  pub org_id : r.org_id ≡ job.org_id
  pub agent_id : r.agent_id ≡ job.client_agent_id
  pub amount : r.amount_usdc ≡ job.budget_usdc
  pub reason : r.reason_job_id ≡ job.id
  pub status : status_for job.state ≡ some r.status

abbrev pub BookedBy : List EscrowReservationRow → EscrowJobRow → Option String → Type 0
BookedBy rs job none = job.state ≡ opened
BookedBy rs job (some id) =
    (r : EscrowReservationRow) × (find? (is_keyed (λ (r : EscrowReservationRow). r.id) id) rs
      ≡ some r)
    × Backs job r

-- The reservation of the job is there with its amount and the status of its state, or the job is open
-- and has none.
abbrev pub Booked : List EscrowReservationRow → EscrowJobRow → Type 0
Booked rs job = BookedBy rs job job.reservation_id

abbrev pub IsBooked : EscrowDb → Type 0
IsBooked db =
    HasDistinct (λ (j : EscrowJobRow). j.id) db.jobs × All (Booked db.reservations) db.jobs

pub Booked-append :
    (rs more : List EscrowReservationRow) (job : EscrowJobRow) (id : Option String)
    → BookedBy rs job id
    → BookedBy (rs ++ more) job id
Booked-append rs more job none h = h
Booked-append rs more job (some id) (r, found, backs) =
    (r, find?-append (is_keyed (λ (r : EscrowReservationRow). r.id) id) rs more found, backs)

-- The reservation of another job is not touched.
pub Booked-settle :
    (rs : List EscrowReservationRow) (job other : EscrowJobRow) (id : String)
    (outcome : ReservationStatus) (r : EscrowReservationRow) (o : Option String)
    → find? (is_keyed (λ (r : EscrowReservationRow). r.id) id) rs ≡ some r
    → r.reason_job_id ≡ job.id
    → is_job job.id other ≡ false
    → BookedBy rs other o
    → BookedBy (update_where (is_reserved_for job id) (set_outcome outcome) rs) other o
Booked-settle rs job other id outcome r none found reason apart h = h
Booked-settle rs job other id outcome r (some k) found reason apart (q, there, backs) =
    let after =
      find?-update_where (is_keyed (λ (r : EscrowReservationRow). r.id) k) (is_reserved_for job id)
        (set_outcome outcome) (λ x. refl) rs there in
    let kept : is_reserved_for job id q ≡ false = elim (Bool-cases (q.id == id)) [
      | inr differs ↦ ground arith
      | inl same ↦
          let ids : q.id ≡ k =
            (text_comparable.same_iff q.id k).0
              (find?-test (is_keyed (λ (r : EscrowReservationRow). r.id) k) rs there) in
          let keys : k ≡ id = sym ids ∙ (text_comparable.same_iff q.id id).0 same in
          let found' : find? (is_keyed (λ (r : EscrowReservationRow). r.id) id) rs ≡ some q =
            subst (λ i. find? (is_keyed (λ (r : EscrowReservationRow). r.id) i) rs ≡ some q) keys
              there in
          let rows : some q ≡ some r = sym found' ∙ found in
          let named : other.id ≡ job.id =
            sym backs.reason
            ∙ ap (λ (o : Option EscrowReservationRow). reason_or other.id o) rows
            ∙ reason in
          absurd (clash named)
    ] in
    (
      q,
      subst
          (λ b.
            find? (is_keyed (λ (r : EscrowReservationRow). r.id) k)
              (update_where (is_reserved_for job id) (set_outcome outcome) rs)
            ≡ some (if b then set_outcome outcome q else q))
          kept after,
      backs,
    )
  where
    reason_or : String → Option EscrowReservationRow → String
    reason_or fallback none = fallback
    reason_or fallback (some r) = r.reason_job_id

    clash : other.id ≡ job.id → ⊥
    clash e =
        let yes : (other.id == job.id) ≡ true = (text_comparable.same_iff other.id job.id).1 e in cc

pub some-same : (a b : ReservationStatus) → some a ≡ some b → a ≡ b
some-same a b e = ground arith

-- The reservation of the job itself takes the outcome.
pub settle-own :
    (rs : List EscrowReservationRow) (job : EscrowJobRow) (id : String)
    (outcome : ReservationStatus) (r : EscrowReservationRow) (next : EscrowState)
    (tx_hash deliverable_hash : Option String)
    → find? (is_keyed (λ (r : EscrowReservationRow). r.id) id) rs ≡ some r
    → Backs job r
    → status_for job.state ≡ some reserved
    → status_for next ≡ some outcome
    → BookedBy
        (update_where (is_reserved_for job id) (set_outcome outcome) rs)
        (set_state next tx_hash deliverable_hash job)
        (some id)
settle-own rs job id outcome r next tx_hash deliverable_hash found backs held ends =
    let after =
      find?-update_where (is_keyed (λ (r : EscrowReservationRow). r.id) id) (is_reserved_for job id)
        (set_outcome outcome) (λ x. refl) rs found in
    let named : (r.id == id) ≡ true =
      find?-test (is_keyed (λ (r : EscrowReservationRow). r.id) id) rs found in
    let owned : (r.org_id == job.org_id) ≡ true =
      (text_comparable.same_iff r.org_id job.org_id).1 backs.org_id in
    let waits : (r.status == reserved) ≡ true =
      (reservation_status_comparable.same_iff r.status reserved).1
        (some-same r.status reserved (sym backs.status ∙ held)) in
    let hit : is_reserved_for job id r ≡ true = rw (named, owned, waits) refl in
    (
      set_outcome outcome r,
      subst
          (λ b.
            find? (is_keyed (λ (r : EscrowReservationRow). r.id) id)
              (update_where (is_reserved_for job id) (set_outcome outcome) rs)
            ≡ some (if b then set_outcome outcome r else r))
          hit after,
      record {
        org_id = backs.org_id;
        agent_id = backs.agent_id;
        amount = backs.amount;
        reason = backs.reason;
        status = ends;
      },
    )

-- The transitions that are allowed, with their outcomes.
pub allowed-cases :
    (s next : EscrowState)
    → includes (escrow_transitions s) next ≡ true
    → (status_for s ≡ some reserved)
      × (((next ≡ submitted) × (outcome_of next ≡ none))
          ⊎ ((o : ReservationStatus) × (outcome_of next ≡ some o) × (status_for next ≡ some o)))
allowed-cases opened next h = absurd (ground arith)
allowed-cases completed next h = absurd (ground arith)
allowed-cases rejected next h = absurd (ground arith)
allowed-cases expired next h = absurd (ground arith)
allowed-cases funded submitted h = (refl, inl (refl, refl))
allowed-cases funded opened h = absurd (ground arith)
allowed-cases funded funded h = absurd (ground arith)
allowed-cases funded completed h = absurd (ground arith)
allowed-cases funded rejected h = absurd (ground arith)
allowed-cases funded expired h = absurd (ground arith)
allowed-cases submitted completed h = (refl, inr (settled, refl, refl))
allowed-cases submitted rejected h = (refl, inr (released, refl, refl))
allowed-cases submitted expired h = (refl, inr (released, refl, refl))
allowed-cases submitted opened h = absurd (ground arith)
allowed-cases submitted funded h = absurd (ground arith)
allowed-cases submitted submitted h = absurd (ground arith)
