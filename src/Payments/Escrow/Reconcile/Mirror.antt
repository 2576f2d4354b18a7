-- ===== src/Payments/Escrow/Reconcile/Mirror.antt =====
-- Reconciliation of a job with the chain: what reconcileEscrowJob writes, and that it sends nothing.
use aops_pmoa.Payments.Types.{numeric_limit}
use Prim.Native.String
use aops_pmoa.Prelude.{
  ℕ, ◌≡◌, ◌⊎◌, refl, sym, subst, ap, ◌∙◌, inl, inr, String, true, false, ◌&&◌, Option, none, some,
  List, arith, ltb, leb, nat_beq, nat_beq_iff, ◌==◌, ==_refl, text_comparable, if◌then◌else◌,
  is_empty, find?, find?-test, update_where, error, Result, ok, Result-cases, Bool-cases,
  Option-cases,
}
use aops_pmoa.Prelude.Effects.{or_throw, ◌>>=◌, then-eq-ok, same_db}
use aops_pmoa.Prelude.Keys.{find?-update_where, is_keyed}
use aops_pmoa.Payments.Types.{ReservationStatus, reserved, reservation_status_comparable}
use aops_pmoa.Payments.Escrow.Types.{
  escrow_state_comparable, EscrowJobRow, EscrowReservationRow, EscrowDb, EscrowNetwork, EscrowWorld,
}
use aops_pmoa.Payments.Escrow.Rows.{
  EscrowJob, is_job, is_reserved_for, set_outcome, outcome_of, settle_reservation,
  apply_reservation_outcome,
}
use aops_pmoa.Payments.Escrow.Rows.Locked.{locked-eq-ok}
use aops_pmoa.Payments.Escrow.Reconcile.{
  OnchainEscrowJob, decode_escrow_job, EscrowDrift, ReconcileEscrowJobInput, is_budget_drifted,
  drift_of, set_onchain, correct_job, read_job_call_data, reconcile_read, reconcile_locked,
  reconcile_escrow_job,
}
use aops_pmoa.Payments.Escrow.Reconcile.Quiet.{executions, read-IsQuiet}

-- The row as the chain has it: its state, and its budget unless that is zero.
abbrev pub Mirrors : OnchainEscrowJob → EscrowJobRow → EscrowJobRow → Type 0
Mirrors onchain job row =
    (row.state ≡ onchain.state)
    × (row.budget_usdc
        ≡ (if ltb 0 onchain.budget_micros then onchain.budget_micros else job.budget_usdc))

no_drift-Mirrors :
    (job : EscrowJobRow) (onchain : OnchainEscrowJob)
    → is_empty (drift_of job onchain) ≡ true
    → Mirrors onchain job job
unfolding drift_of
no_drift-Mirrors job onchain h = elim (Bool-cases (onchain.state == job.state)) [
  | inr differs ↦ absurd (ground arith)
  | inl same ↦
      let states : onchain.state ≡ job.state =
        (escrow_state_comparable.same_iff onchain.state job.state).0 same in
      elim (Bool-cases (ltb 0 onchain.budget_micros)) [
        | inr unset ↦ (sym states, rw unset refl)
        | inl given ↦ elim (Bool-cases (nat_beq onchain.budget_micros job.budget_usdc)) [
          | inl equal ↦ (
            sym states,
            rw given (sym ((nat_beq_iff onchain.budget_micros job.budget_usdc).0 equal)),
          )
          | inr differs ↦ absurd (ground arith)
        ]
      ]
]

set_onchain-Mirrors :
    (job : EscrowJobRow) (onchain : OnchainEscrowJob)
    → Mirrors onchain job (set_onchain (is_budget_drifted job onchain) onchain job)
set_onchain-Mirrors job onchain = elim (Bool-cases (ltb 0 onchain.budget_micros)) [
  | inr unset ↦ (refl, rw unset refl)
  | inl given ↦ elim (Bool-cases (nat_beq onchain.budget_micros job.budget_usdc)) [
    | inl equal ↦ (
      refl,
      rw (given, equal) (sym ((nat_beq_iff onchain.budget_micros job.budget_usdc).0 equal)),
    )
    | inr differs ↦ (refl, rw (given, differs) refl)
  ]
]

-- What a correction writes.
abbrev pub Corrects : EscrowJobRow → OnchainEscrowJob → EscrowDb → EscrowDb → Type 0
Corrects job onchain db db' =
    ((is_empty (drift_of job onchain) ≡ true) × (db' ≡ db))
    ⊎ ((is_empty (drift_of job onchain) ≡ false)
        × (db'
            ≡ settle_reservation job job.reservation_id (outcome_of onchain.state) (record db {
              jobs =
                  update_where (is_job job.id) (set_onchain (is_budget_drifted job onchain) onchain)
                    db.jobs;
            })))

-- The row is found again, and mirrors the chain.
abbrev pub IsMirrored : EscrowJobRow → OnchainEscrowJob → EscrowDb → Type 0
IsMirrored job onchain db =
    (row : EscrowJobRow) × (find? (is_job job.id) db.jobs ≡ some row) × Mirrors onchain job row

settle-jobs :
    (job : EscrowJobRow) (id : Option String) (outcome : Option ReservationStatus) (db : EscrowDb)
    → (settle_reservation job id outcome db).jobs ≡ db.jobs
settle-jobs job none outcome db = refl
settle-jobs job (some id) none db = refl
settle-jobs job (some id) (some outcome) db = refl

correct_job-eq-ok :
    (job : EscrowJobRow) (onchain : OnchainEscrowJob) (w w' : EscrowWorld) (view : EscrowJob)
    (drift : List EscrowDrift)
    → find? (is_job job.id) w.db.jobs ≡ some job
    → correct_job job onchain w ≡ (ok (view, drift), w')
    → (drift ≡ drift_of job onchain)
      × (w'.calls ≡ w.calls)
      × Corrects job onchain w.db w'.db
      × IsMirrored job onchain w'.db
unfolding correct_job apply_reservation_outcome
correct_job-eq-ok job onchain w w' view drift found e =
    let change : EscrowJobRow → EscrowJobRow =
      set_onchain (is_budget_drifted job onchain) onchain in
    elim (Bool-cases (is_empty (drift_of job onchain))) [
      | inl agrees ↦
          let same : w'.db ≡ w.db = ground arith in
          (
            ground arith,
            ground arith,
            inl (agrees, same),
            rw same (job, found, no_drift-Mirrors job onchain agrees),
          )
      | inr drifted ↦
          elim (Bool-cases
            (is_budget_drifted job onchain && leb numeric_limit onchain.budget_micros)) [
              | inl large ↦ absurd (ground arith)
              | inr fits ↦
                  let there =
                    find?-update_where (is_job job.id) (is_job job.id) change (λ r. refl) w.db.jobs
                      found in
                  let hit : is_job job.id job ≡ true = ==_refl job.id in
                  let row : find? (is_job job.id) (update_where (is_job job.id) change w.db.jobs)
                      ≡ some (change job) =
                    there ∙ rw hit refl in
                  let made : w'.db
                      ≡ settle_reservation job job.reservation_id (outcome_of onchain.state)
                          (record w.db { jobs = update_where (is_job job.id) change w.db.jobs }) =
                    ground arith in
                  (
                    ground arith,
                    ground arith,
                    inr (drifted, made),
                    (
                      change job,
                      ap (λ db. find? (is_job job.id) db.jobs) made
                          ∙ ap (find? (is_job job.id))
                              (settle-jobs job job.reservation_id (outcome_of onchain.state) _)
                          ∙ row,
                      set_onchain-Mirrors job onchain,
                    ),
                  )
            ]
    ]

module _ (network : EscrowNetwork) where
  -- What the reader of the input answers for the job, decoded.
  abbrev pub IsSource :
      ReconcileEscrowJobInput → EscrowJobRow → OnchainEscrowJob → EscrowWorld → Type 0
  IsSource input job onchain w =
      (job_id : ℕ) × (job.onchain_job_id ≡ some job_id)
      × ((call_data : String) × ((u : EscrowWorld) × (read_job_call_data network input job_id
                job.escrow_address job.chain w
              ≡ (ok call_data, u)))
          × (decode_escrow_job (network.decode_get_job call_data) ≡ ok onchain))

  -- What a reconciliation of the row does.
  abbrev pub Reconciles :
      ReconcileEscrowJobInput → EscrowJobRow → List EscrowDrift → EscrowWorld → EscrowWorld → Type 0
  Reconciles input job drift w w' =
      (onchain : OnchainEscrowJob) × (drift ≡ drift_of job onchain)
      × (executions w'.calls ≡ executions w.calls)
      × Corrects job onchain w.db w'.db
      × IsMirrored job onchain w'.db
      × IsSource input job onchain w

  reconcile_read-eq-ok :
      (job : EscrowJobRow) (call_data : String) (w w' : EscrowWorld) (view : EscrowJob)
      (drift : List EscrowDrift)
      → find? (is_job job.id) w.db.jobs ≡ some job
      → reconcile_read network job call_data w ≡ (ok (view, drift), w')
      → (onchain : OnchainEscrowJob) × (drift ≡ drift_of job onchain)
        × (executions w'.calls ≡ executions w.calls)
        × Corrects job onchain w.db w'.db
        × IsMirrored job onchain w'.db
        × (decode_escrow_job (network.decode_get_job call_data) ≡ ok onchain)
  unfolding reconcile_read
  reconcile_read-eq-ok job call_data w w' view drift found e =
      elim (Result-cases (decode_escrow_job (network.decode_get_job call_data))) [
        | inr (failure, unread) ↦ absurd (ground arith)
        | inl (onchain, decoded) ↦
            let (reported, calls, corrects, mirrored) =
              correct_job-eq-ok job onchain w w' view drift found (rw decoded at e) in
            (onchain, reported, ap executions calls, corrects, mirrored, decoded)
      ]

  reconcile_locked-eq-ok :
      (input : ReconcileEscrowJobInput) (job : EscrowJobRow) (w w' : EscrowWorld) (view : EscrowJob)
      (drift : List EscrowDrift)
      → find? (is_job job.id) w.db.jobs ≡ some job
      → reconcile_locked network input job w ≡ (ok (view, drift), w')
      → Reconciles input job drift w w'
  unfolding reconcile_locked
  reconcile_locked-eq-ok input job w w' view drift found e =
      elim (Option-cases job.onchain_job_id) [
        | inl unknown ↦ absurd (ground arith)
        | inr (job_id, known) ↦
            let (call_data, u, read, last) =
              then-eq-ok (read_job_call_data network input job_id job.escrow_address job.chain)
                (reconcile_read network job) w {b = (view, drift)} {final = w'}
                (subst
                  (λ o.
                    (or_throw (error (String.◌++◌ "escrow_onchain_job_id_missing:" job.id)) o
                        >>= λ i.
                            read_job_call_data network input i job.escrow_address job.chain
                            >>= reconcile_read network job)
                      w
                    ≡ (ok (view, drift), w'))
                  known e) in
            let (kept, silent) = read-IsQuiet network input job_id job.escrow_address job.chain w in
            let same : u.db ≡ w.db =
              same_db (read_job_call_data network input job_id job.escrow_address job.chain) kept
                read in
            let unsent : executions u.calls ≡ executions w.calls =
              sym (ap (λ (p : Result String × EscrowWorld). executions p.1.calls) read) ∙ silent in
            let (onchain, reported, calls, corrects, mirrored, decoded) =
              reconcile_read-eq-ok job call_data u w' view drift (rw same found) last in
            (
              onchain,
              reported,
              calls ∙ unsent,
              subst (λ db. Corrects job onchain db w'.db) same corrects,
              mirrored,
              (job_id, known, (call_data, (u, read), decoded)),
            )
      ]

  pub reconcile_escrow_job-parts :
      (input : ReconcileEscrowJobInput) (w w' : EscrowWorld) (view : EscrowJob)
      (drift : List EscrowDrift)
      → reconcile_escrow_job network input w ≡ (ok (view, drift), w')
      → (job : EscrowJobRow) × (find? (is_job input.escrow_job_id) w.db.jobs ≡ some job)
        × Reconciles input job drift w w'
  unfolding reconcile_escrow_job
  reconcile_escrow_job-parts input w w' view drift e =
      let (job, found, rest) =
        locked-eq-ok input.escrow_job_id (reconcile_locked network input) w w' (view, drift) e in
      let named : job.id ≡ input.escrow_job_id =
        (text_comparable.same_iff job.id input.escrow_job_id).0
          (find?-test (is_job input.escrow_job_id) w.db.jobs found) in
      (
        job,
        found,
        reconcile_locked-eq-ok input job w w' view drift
            (subst (λ i. find? (is_job i) w.db.jobs ≡ some job) (sym named) found) rest,
      )

  corrects-final :
      (job : EscrowJobRow) (id : String) (r : EscrowReservationRow) (o : Option String)
      (outcome : Option ReservationStatus) (db : EscrowDb)
      → find? (is_keyed (λ (r : EscrowReservationRow). r.id) id) db.reservations ≡ some r
      → (r.status == reserved) ≡ false
      → find?
          (is_keyed (λ (r : EscrowReservationRow). r.id) id)
          (settle_reservation job o outcome db).reservations
        ≡ some r
  corrects-final job id r none outcome db found over = found
  corrects-final job id r (some k) none db found over = found
  corrects-final job id r (some k) (some outcome) db found over =
      let after =
        find?-update_where (is_keyed (λ (r : EscrowReservationRow). r.id) id)
          (is_reserved_for job k) (set_outcome outcome) (λ x. refl) db.reservations found in
      let missed : is_reserved_for job k r ≡ false = ground arith in
      subst
        (λ b.
          find? (is_keyed (λ (r : EscrowReservationRow). r.id) id)
            (update_where (is_reserved_for job k) (set_outcome outcome) db.reservations)
          ≡ some (if b then set_outcome outcome r else r))
        missed after

  -- A reservation that is not reserved any more is left as it is by a reconciliation that succeeds,
  -- whatever state the chain reports.
  pub reconcile_escrow_job-final :
      (input : ReconcileEscrowJobInput) (w w' : EscrowWorld) (view : EscrowJob)
      (drift : List EscrowDrift) (id : String) (r : EscrowReservationRow)
      → reconcile_escrow_job network input w ≡ (ok (view, drift), w')
      → find? (is_keyed (λ (r : EscrowReservationRow). r.id) id) w.db.reservations ≡ some r
      → (r.status == reserved) ≡ false
      → find? (is_keyed (λ (r : EscrowReservationRow). r.id) id) w'.db.reservations ≡ some r
  reconcile_escrow_job-final input w w' view drift id r e found over =
      let (job, there, (onchain, reported, calls, corrects, mirrored, source)) =
        reconcile_escrow_job-parts input w w' view drift e in
      elim corrects [
        | inl (agrees, same) ↦ rw same found
        | inr (drifted, made) ↦ rw made (
            corrects-final job id r job.reservation_id (outcome_of onchain.state)
              (record w.db {
                jobs =
                    update_where (is_job job.id)
                      (set_onchain (is_budget_drifted job onchain) onchain) w.db.jobs;
              })
              found over)
      ]
