-- ===== src/Payments/Escrow/Tests.antt =====
-- Runs of escrow on a small world, and the theorems at them.
use mathlib.Core.Option
use aops_pmoa.Prelude.{
  ℕ, ◌≤◌, ◌≡◌, ◌≢◌, ◌⊎◌, refl, ap, inl, inr, String, Option, none, some, List, [], ◌∷◌, map, max,
  arith, find?, length, ok, err, conflict, text_comparable,
}
use aops_pmoa.Prelude.Keys.{is_keyed}
use aops_pmoa.Payments.Types.{test, arc, released, ReservationStatus, reservation_status_comparable}
use aops_pmoa.Payments.Escrow.Types.{
  EscrowState, opened, submitted, completed, expired, escrow_state_comparable, EscrowJobRow,
  AgentWalletRow, EscrowReservationRow, EscrowWorld,
}
use aops_pmoa.Payments.Escrow.Types.{DecodedJob}
use aops_pmoa.Payments.Escrow.Contract.{receipt_retry_delay_ms}
use aops_pmoa.Payments.Escrow.Rows.{
  escrow_job_from_row, is_job, find_agent_wallet, fleet_wallet_address, first_source,
  insert_reservation, reserve_escrow_budget, apply_reservation_outcome,
}
use aops_pmoa.Payments.Escrow.Reading.{
  read_again, result_then, logs_of_body, read_receipt_logs_via_rpc,
}
use aops_pmoa.Payments.Escrow.Jobs.{
  escrow_budget_micros, create_escrow_job, record_funding, approve_and_fund, fund_on_chain,
  fund_locked, fund_escrow_job,
}
use aops_pmoa.Payments.Escrow.Jobs.Funding.{fund_escrow_job-eq-ok}
use aops_pmoa.Payments.Escrow.Jobs.Funds.{Funds}
use aops_pmoa.Payments.Escrow.Jobs.Retries.{Answers, read_receipt_logs-Answers}
use aops_pmoa.Payments.Escrow.Lifecycle.{
  send_escrow_call, send_escrow_transition, record_change, change_locked, change_state,
  apply_escrow_state_change,
}
use aops_pmoa.Payments.Escrow.Lifecycle.Driven.{Drives, change_state-eq-ok}
use aops_pmoa.Payments.Escrow.Lifecycle.Final.{final-refused}
use aops_pmoa.Payments.Escrow.Reconcile.{
  EscrowDrift, decode_escrow_job, ReconcileEscrowJobInput, drift_of, correct_job,
  read_job_call_data_via_rpc, reconcile_read, reconcile_locked, reconcile_escrow_job,
}
use aops_pmoa.Payments.Escrow.Reconcile.Mirror.{reconcile_escrow_job-final}
use aops_pmoa.Payments.Escrow.Reconcile.Answers.{StatusOf, Resolves, Differs}
use aops_pmoa.Payments.Escrow.Reconcile.Reads.{IsRead}
use aops_pmoa.Payments.Escrow.Reconcile.Chain.{followed, reconcile_escrow_job-eq-ok}
use aops_pmoa.Payments.Escrow.Reconcile.Quiet.{executions}
use aops_pmoa.Payments.Escrow.Follows.{Follows}
use aops_pmoa.Payments.Escrow.Runs.{
  IsSound, start, then_step, creates, funds_job, applies, Run-IsSound,
}
use aops_pmoa.Payments.Escrow.Lists.{
  ListEscrowLivenessRisksInput, ListEscrowJobsInput, risk_of, list_escrow_liveness_risks,
  list_escrow_jobs,
}
use aops_pmoa.Payments.Escrow.Lists.Risks.{length-list_escrow_jobs}
use aops_pmoa.Prelude.Sort.{insert_by, order_by}
use aops_pmoa.Payments.Escrow.Sample.{
  created_log, chain, tables, hire, empty, listed, funded_job, held, paid, submits, completes,
  submitted_job, delivered, created_world, funded_world, submitted_world, completed_world,
}

fund_runs : (fund_escrow_job chain "res" "job" listed).0 ≡ ok (escrow_job_from_row funded_job)
unfolding fund_escrow_job fund_locked escrow_budget_micros find_agent_wallet fund_on_chain
    fleet_wallet_address approve_and_fund record_funding reserve_escrow_budget first_source
    insert_reservation
fund_runs = refl

fund_escrow_job-eq-ok_example :
    (job : EscrowJobRow) × (find? (is_job "job") listed.db.jobs ≡ some job)
    × (job.state ≡ opened)
    × (10000 ≤ job.budget_usdc)
    × ((job_id : ℕ) × (job.onchain_job_id ≡ some job_id)
        × ((wallet : AgentWalletRow) × (find_agent_wallet job.client_agent_id job.mode job.chain
                listed.db
              ≡ some wallet)
            × Funds chain "res" job job_id wallet.address listed
                (fund_escrow_job chain "res" "job" listed).1))
fund_escrow_job-eq-ok_example =
    fund_escrow_job-eq-ok chain "res" "job" listed (fund_escrow_job chain "res" "job" listed).1
      (escrow_job_from_row funded_job)
      (ap (λ r. (r, (fund_escrow_job chain "res" "job" listed).1)) fund_runs)

read_receipt_logs-Answers_example :
    Answers receipt_retry_delay_ms
      (λ calls. result_then (chain.fetch_receipt "http://arc" "0xab" calls) logs_of_body)
      1
      empty
      (read_receipt_logs_via_rpc chain "0xab" arc empty)
read_receipt_logs-Answers_example =
    read_receipt_logs-Answers chain "0xab" "http://arc" arc 1 empty (created_log ∷ []) refl refl
      (omega arith) refl

submit_runs : (change_state chain submits paid).0 ≡ ok (escrow_job_from_row submitted_job)
unfolding change_state change_locked send_escrow_transition send_escrow_call fleet_wallet_address
    record_change apply_reservation_outcome
submit_runs = refl

change_state-eq-ok_example :
    (job : EscrowJobRow) × (find? (is_job "job") paid.db.jobs ≡ some job)
    × Drives chain submits job job.state submitted paid (change_state chain submits paid).1
change_state-eq-ok_example =
    change_state-eq-ok chain submits paid (change_state chain submits paid).1
      (escrow_job_from_row submitted_job)
      (ap (λ r. (r, (change_state chain submits paid).1)) submit_runs)

abbrev rejected_job : EscrowJobRow
rejected_job = record submitted_job { state = EscrowState.rejected }

abbrev turned_down : EscrowWorld
turned_down = record {
  db = record tables { jobs = rejected_job ∷ []; reservations = held ∷ [] };
  calls = [];
}

final-refused_example :
    (fund_escrow_job chain "res" "job" turned_down
      ≡ (err (conflict "escrow_invalid_transition"), turned_down))
    × (apply_escrow_state_change chain "ev" completes turned_down
        ≡ (err (conflict "escrow_invalid_transition"), turned_down))
final-refused_example =
    final-refused chain "ev" "res" completes turned_down rejected_job refl (inr (inl refl))

abbrev check_job : ReconcileEscrowJobInput
check_job = record { escrow_job_id = "job"; read_job_call_data = none }

abbrev drifted : List EscrowDrift
drifted = EscrowDrift.state_drift submitted completed ∷ []

reconcile_runs :
    (reconcile_escrow_job chain check_job delivered).0
    ≡ ok (escrow_job_from_row (record submitted_job { state = completed }), drifted)
unfolding reconcile_escrow_job reconcile_locked reconcile_read correct_job drift_of
    decode_escrow_job read_job_call_data_via_rpc read_again apply_reservation_outcome
reconcile_runs = refl

reconcile_escrow_job-eq-ok_example :
    (job : EscrowJobRow) × (find? (is_job "job") delivered.db.jobs ≡ some job)
    × ((job_id : ℕ) × (job.onchain_job_id ≡ some job_id)
        × ((call_data : String) × IsRead chain check_job.read_job_call_data job_id
              job.escrow_address job.chain call_data
            × ((answer : DecodedJob) × (chain.decode_get_job call_data ≡ ok answer)
                × ((state : EscrowState) × StatusOf answer.status state
                    × Differs job.state job.budget_usdc state answer.budget drifted
                    × (executions (reconcile_escrow_job chain check_job delivered).1.calls
                        ≡ executions delivered.calls)
                    × (((drifted ≡ [])
                          × ((reconcile_escrow_job chain check_job delivered).1.db ≡ delivered.db))
                        ⊎ ((drifted ≢ [])
                            × ((outcome : Option ReservationStatus) × Resolves state outcome
                                × ((reconcile_escrow_job chain check_job delivered).1.db
                                    ≡ followed chain job state answer.budget outcome
                                        delivered.db))))))))
reconcile_escrow_job-eq-ok_example =
    reconcile_escrow_job-eq-ok chain check_job delivered
      (reconcile_escrow_job chain check_job delivered).1
      (escrow_job_from_row (record submitted_job { state = completed })) drifted
      (ap (λ r. (r, (reconcile_escrow_job chain check_job delivered).1)) reconcile_runs)

-- The job lapsed here, and its reservation was released, while the chain completed it.
abbrev given_back : EscrowReservationRow
given_back = record held { status = released }

abbrev lapsed : EscrowWorld
lapsed = record {
  db = record tables {
    jobs = record submitted_job { state = expired } ∷ [];
    reservations = given_back ∷ [];
  };
  calls = [];
}

abbrev late_drift : List EscrowDrift
late_drift = EscrowDrift.state_drift expired completed ∷ []

reconcile_late :
    (reconcile_escrow_job chain check_job lapsed).0
    ≡ ok (escrow_job_from_row (record submitted_job { state = completed }), late_drift)
unfolding reconcile_escrow_job reconcile_locked reconcile_read correct_job drift_of
    decode_escrow_job read_job_call_data_via_rpc read_again apply_reservation_outcome
reconcile_late = refl

reconcile_escrow_job-final_example :
    find?
      (is_keyed (λ (r : EscrowReservationRow). r.id) "res")
      (reconcile_escrow_job chain check_job lapsed).1.db.reservations
    ≡ some given_back
reconcile_escrow_job-final_example =
    reconcile_escrow_job-final chain check_job lapsed
      (reconcile_escrow_job chain check_job lapsed).1
      (escrow_job_from_row (record submitted_job { state = completed })) late_drift "res" given_back
      (ap (λ r. (r, (reconcile_escrow_job chain check_job lapsed).1)) reconcile_late) refl refl

Run-IsSound_example : IsSound completed_world.db
Run-IsSound_example =
    Run-IsSound chain empty completed_world ((tt, tt), tt)
      (then_step
        (then_step
          (then_step
            (then_step start
              (creates 5 "job" hire (create_escrow_job chain 5 "job" hire empty).0 refl))
            (funds_job "res" "job" (fund_escrow_job chain "res" "job" created_world).0 refl))
          (applies "ev1" submits (apply_escrow_state_change chain "ev1" submits funded_world).0
            refl))
        (applies "ev2" completes (apply_escrow_state_change chain "ev2" completes submitted_world).0
          refl))

abbrev soon : ListEscrowLivenessRisksInput
soon = record { org_id = "org"; within_hours = 500000 }

-- A submitted job that expires within the half hour is listed.
risks_listed : list_escrow_liveness_risks 6000 soon delivered.db ≡ map risk_of (submitted_job ∷ [])
unfolding list_escrow_liveness_risks order_by insert_by
risks_listed = refl

abbrev all_jobs : ListEscrowJobsInput
all_jobs = record { org_id = "org"; mode = test; limit = some 1000 }

length-list_escrow_jobs_example :
    (length (list_escrow_jobs all_jobs delivered.db) ≤ 200)
    × (length (list_escrow_jobs all_jobs delivered.db) ≤ max (Option.get_or all_jobs.limit 50) 1)
length-list_escrow_jobs_example = length-list_escrow_jobs all_jobs delivered.db
