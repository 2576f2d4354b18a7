-- ===== src/Payments/Escrow/Reconcile/Chain.antt =====
-- A reconciliation and the answer of the chain: the status that was read, what is reported and what is
-- written, in full.
use aops_pmoa.Prelude.{
  ℕ, ◌≡◌, ◌⊎◌, ◌≢◌, refl, sym, ap, ◌∙◌, inl, inr, String, true, not, ◌&&◌, Option, some, List, [],
  ◌∷◌, arith, ltb, nat_beq, ◌==◌, text_comparable, if◌then◌else◌, is_empty, find?, update_where, ok,
}
use aops_pmoa.Payments.Types.{ReservationStatus}
use aops_pmoa.Payments.Escrow.Types.{
  EscrowState, escrow_state_comparable, EscrowJobRow, DecodedJob, EscrowDb, EscrowNetwork,
  EscrowWorld,
}
use aops_pmoa.Payments.Escrow.Rows.{EscrowJob, is_job, outcome_of}
use aops_pmoa.Payments.Escrow.Lifecycle.Duties.{resolved, settle-eq}
use aops_pmoa.Payments.Escrow.Reconcile.{
  OnchainEscrowJob, EscrowDrift, ReconcileEscrowJobInput, drift_of, reconcile_escrow_job,
}
use aops_pmoa.Payments.Escrow.Reconcile.Mirror.{Corrects, reconcile_escrow_job-parts}
use aops_pmoa.Payments.Escrow.Reconcile.Quiet.{executions}
use aops_pmoa.Payments.Escrow.Reconcile.Answers.{
  StatusOf, Resolves, outcome_of-Resolves, Differs, drift_of-Differs, decoded-StatusOf,
}
use aops_pmoa.Payments.Escrow.Reconcile.Reads.{IsRead, read_job_call_data-IsRead}

nothing : (drift : List EscrowDrift) → is_empty drift ≡ true → drift ≡ []
nothing [] h = refl
nothing (d ∷ drift) h = absurd (ground arith)

module _ (network : EscrowNetwork) where
  -- The row of the job, in the state and with the budget of the chain, and its reservation.
  abbrev pub followed :
      EscrowJobRow → EscrowState → (budget : ℕ) → Option ReservationStatus → EscrowDb → EscrowDb
  followed job state budget outcome db = record db {
    jobs =
        update_where (λ (j : EscrowJobRow). j.id == job.id)
          (λ (j : EscrowJobRow). record j {
            state = state;
            budget_usdc =
                if ltb 0 budget && not (nat_beq budget job.budget_usdc)
                then budget
                else j.budget_usdc;
          })
          db.jobs;
    reservations = resolved job job.reservation_id outcome db.reservations;
  }

  Corrects-followed :
      (job : EscrowJobRow) (onchain : OnchainEscrowJob) (db db' : EscrowDb)
      → Corrects job onchain db db'
      → ((drift_of job onchain ≡ []) × (db' ≡ db))
        ⊎ ((drift_of job onchain ≢ [])
            × ((outcome : Option ReservationStatus) × Resolves onchain.state outcome
                × (db' ≡ followed job onchain.state onchain.budget_micros outcome db)))
  Corrects-followed job onchain db db' (inl (agrees, same)) =
      inl (nothing (drift_of job onchain) agrees, same)
  Corrects-followed job onchain db db' (inr (drifted, made)) = inr (
    λ e. absurd (ground (arith, sym drifted ∙ ap is_empty e)),
    (
      outcome_of onchain.state,
      outcome_of-Resolves onchain.state,
      made ∙ settle-eq job job.reservation_id (outcome_of onchain.state) _,
    ),
  )

  -- A reconciliation that succeeds read the status and the budget of the job from the chain. It sends no
  -- transaction, and reports exactly where the row differs from them, a budget of zero aside. Where
  -- nothing differs, nothing is written; otherwise the row takes the state of that status and that
  -- budget, unless it is zero, its reservation, where it is still held, is settled for a completion and
  -- released for a rejection or an expiry, and nothing else is written.
  pub reconcile_escrow_job-eq-ok :
      (input : ReconcileEscrowJobInput) (w w' : EscrowWorld) (view : EscrowJob)
      (drift : List EscrowDrift)
      → reconcile_escrow_job network input w ≡ (ok (view, drift), w')
      → (job : EscrowJobRow) × (find? (is_job input.escrow_job_id) w.db.jobs ≡ some job)
        × ((job_id : ℕ) × (job.onchain_job_id ≡ some job_id)
            × ((call_data : String) × IsRead network input.read_job_call_data job_id
                  job.escrow_address job.chain call_data
                × ((answer : DecodedJob) × (network.decode_get_job call_data ≡ ok answer)
                    × ((state : EscrowState) × StatusOf answer.status state
                        × Differs job.state job.budget_usdc state answer.budget drift
                        × (executions w'.calls ≡ executions w.calls)
                        × (((drift ≡ []) × (w'.db ≡ w.db))
                            ⊎ ((drift ≢ [])
                                × ((outcome : Option ReservationStatus) × Resolves state outcome
                                    × (w'.db ≡ followed job state answer.budget outcome w.db))))))))
  reconcile_escrow_job-eq-ok input w w' view drift e =
      let (
        job,
        found,
        (
          onchain,
          reported,
          calls,
          corrects,
          mirrored,
          (job_id, known, (call_data, (u, read), decoded)),
        ),
      ) =
        reconcile_escrow_job-parts network input w w' view drift e in
      let (answer, answered, status, budget) =
        decoded-StatusOf (network.decode_get_job call_data) onchain decoded in
      let differs : Differs job.state job.budget_usdc onchain.state onchain.budget_micros drift =
        rw reported (drift_of-Differs job onchain) in
      (
        job,
        found,
        (
          job_id,
          known,
          (
            call_data,
            read_job_call_data-IsRead network input input.read_job_call_data job_id
                job.escrow_address job.chain call_data w u read,
            (
              answer,
              answered,
              (
                onchain.state,
                status,
                rw (sym budget) differs,
                calls,
                rw (sym budget, reported) (Corrects-followed job onchain w.db w'.db corrects),
              ),
            ),
          ),
        ),
      )
