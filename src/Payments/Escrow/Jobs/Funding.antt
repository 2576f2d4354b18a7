-- ===== src/Payments/Escrow/Jobs/Funding.antt =====
-- Funding of a job: what fundEscrowJob sends and writes.
use mathlib.Core.List.{append_assoc, append-nil}
use aops_pmoa.Prelude.{
  ℕ, ◌≤◌, ◌≡◌, refl, subst, ap, ◌∙◌, inl, inr, String, false, some, [], ◌∷◌, ◌++◌, arith, ltb, ◌==◌,
  text_comparable, any, find?, filter, update_where, ok, Bool-cases, Option-cases,
}
use aops_pmoa.Prelude.Effects.{then-eq-ok}
use aops_pmoa.Payments.Escrow.Types.{
  opened, escrow_state_comparable, EscrowJobRow, AgentWalletRow, EscrowReservationRow, SourceRow,
  execute, EscrowNetwork, EscrowWorld,
}
use aops_pmoa.Payments.Escrow.Contract.{escrow_minimum_budget_micros}
use aops_pmoa.Payments.Escrow.Rows.{
  EscrowJob, is_job, find_agent_wallet, insert_reservation, reserve_escrow_budget,
  fleet_wallet_address, first_source, is_usable_source, reservation_of,
}
use aops_pmoa.Payments.Escrow.Rows.Locked.{locked-eq-ok}
use aops_pmoa.Payments.Escrow.Reading.{send}
use aops_pmoa.Payments.Escrow.Calls.{set_budget_execution, approve_execution, fund_execution}
use aops_pmoa.Payments.Escrow.Jobs.{
  escrow_budget_micros, set_funded, record_funding, approve_and_fund, fund_on_chain, fund_locked,
  fund_escrow_job,
}
use aops_pmoa.Payments.Escrow.Jobs.Funds.{Funds}

module _ (network : EscrowNetwork) where
  reserve-eq-ok :
      (reservation_id : String) (job : EscrowJobRow) (w w' : EscrowWorld)
      → reserve_escrow_budget network.hash_quote reservation_id job w ≡ (ok tt, w')
      → (source : SourceRow) × (first_source
            (filter (is_usable_source job.org_id job.chain) w.db.sources)
          ≡ some source)
        × (any (λ (r : EscrowReservationRow). r.id == reservation_id) w.db.reservations ≡ false)
        × (w' ≡ record w {
          db = record w.db {
            reservations =
                w.db.reservations
                ++ reservation_of network.hash_quote reservation_id job source ∷ [];
          };
        })
  unfolding reserve_escrow_budget insert_reservation
  reserve-eq-ok reservation_id job w w' e =
      elim (Option-cases
        (first_source (filter (is_usable_source job.org_id job.chain) w.db.sources))) [
          | inl missing ↦ absurd (ground arith)
          | inr (source, found) ↦
              elim (Bool-cases
                (any (λ (r : EscrowReservationRow). r.id == reservation_id) w.db.reservations)) [
                  | inl taken ↦ absurd (ground arith)
                  | inr fresh ↦ (source, found, fresh, ground arith)
                ]
        ]

  record_funding-eq-ok :
      (reservation_id tx_hash : String) (job : EscrowJobRow) (w w' : EscrowWorld) (view : EscrowJob)
      → record_funding network reservation_id job tx_hash w ≡ (ok view, w')
      → (source : SourceRow) × (first_source
            (filter (is_usable_source job.org_id job.chain) w.db.sources)
          ≡ some source)
        × (any (λ (r : EscrowReservationRow). r.id == reservation_id) w.db.reservations ≡ false)
        × (w' ≡ record w {
          db = record w.db {
            reservations =
                w.db.reservations
                ++ reservation_of network.hash_quote reservation_id job source ∷ [];
            jobs = update_where (is_job job.id) (set_funded tx_hash reservation_id) w.db.jobs;
          };
        })
  unfolding record_funding
  record_funding-eq-ok reservation_id tx_hash job w w' view e =
      let (t, u, held, rest) =
        then-eq-ok (reserve_escrow_budget network.hash_quote reservation_id job) _ w e in
      let (source, chosen, fresh, made) = reserve-eq-ok reservation_id job w u held in
      (
        source,
        chosen,
        fresh,
        elim (Option-cases (
            find? (is_job job.id)
              (update_where (is_job job.id) (set_funded tx_hash reservation_id) u.db.jobs))) [
                | inl missing ↦ absurd (ground arith)
                | inr (row, there) ↦ ground arith
              ],
      )

  approve_and_fund-eq-ok :
      (reservation_id : String) (job : EscrowJobRow) (job_id : ℕ) (client : String)
      (w w' : EscrowWorld) (view : EscrowJob)
      → approve_and_fund network reservation_id job job_id job.budget_usdc client w ≡ (ok view, w')
      → (tx_hash : String) × (record_funding network reservation_id job tx_hash (record w {
        calls =
            w.calls
            ++ execute (approve_execution job client job.budget_usdc)
              ∷ execute (fund_execution job client job_id job.budget_usdc)
              ∷ [];
      })
          ≡ (ok view, w'))
        × (network.send
              (fund_execution job client job_id job.budget_usdc)
              (w.calls ++ execute (approve_execution job client job.budget_usdc) ∷ [])
            ≡ ok tx_hash)
  unfolding approve_and_fund
  approve_and_fund-eq-ok reservation_id job job_id client w w' view e =
      let (approved, u, first, rest) =
        then-eq-ok (send network (approve_execution job client job.budget_usdc)) _ w e in
      let (tx_hash, v, second, last) =
        then-eq-ok (send network (fund_execution job client job_id job.budget_usdc)) _ u rest in
      let at : v ≡ record w {
        calls =
            (w.calls ++ execute (approve_execution job client job.budget_usdc) ∷ [])
            ++ execute (fund_execution job client job_id job.budget_usdc) ∷ [];
      } =
        ground arith in
      (
        tx_hash,
        subst (λ z. record_funding network reservation_id job tx_hash z ≡ (ok view, w'))
            (at
              ∙ ap (λ calls. record w { calls = calls })
                  (append_assoc w.calls
                    (execute (approve_execution job client job.budget_usdc) ∷ [])
                    (execute (fund_execution job client job_id job.budget_usdc) ∷ [])))
            last,
        ground arith,
      )

  pub fund_on_chain-eq-ok :
      (reservation_id : String) (job : EscrowJobRow) (job_id : ℕ) (client : String)
      (w w' : EscrowWorld) (view : EscrowJob)
      → fund_on_chain network reservation_id job job_id job.budget_usdc client w ≡ (ok view, w')
      → Funds network reservation_id job job_id client w w'
  unfolding fund_on_chain
  fund_on_chain-eq-ok reservation_id job job_id client w w' view e =
      elim (Option-cases (
        fleet_wallet_address network.lower job.org_id job.provider_address job.mode job.chain
          w.db)) [
            | inl outside ↦
                let (tx_hash, last, answered) =
                  approve_and_fund-eq-ok reservation_id job job_id client w w' view
                    (rw outside at e) in
                let (source, chosen, fresh, made) =
                  record_funding-eq-ok reservation_id tx_hash job _ w' view last in
                record {
                  tx_hash = tx_hash;
                  source = source;
                  chosen = chosen;
                  fresh = fresh;
                  reserved = ground arith;
                  marked = ground arith;
                  answered = rw (outside, append-nil w.calls) answered;
                  earned = ground arith;
                  sent = rw (outside, made) refl;
                }
            | inr (wallet, held) ↦
                let (hash, u, first, rest) =
                  then-eq-ok (send network (set_budget_execution job wallet job_id job.budget_usdc))
                    _ w (rw held at e) in
                let (tx_hash, last, answered) =
                  approve_and_fund-eq-ok reservation_id job job_id client u w' view rest in
                let (source, chosen, fresh, made) =
                  record_funding-eq-ok reservation_id tx_hash job _ w' view last in
                let at : u ≡ record w {
                  calls =
                      w.calls
                      ++ execute (set_budget_execution job wallet job_id job.budget_usdc) ∷ [];
                } =
                  ground arith in
                record {
                  tx_hash = tx_hash;
                  source = source;
                  chosen = ground arith;
                  fresh = ground arith;
                  reserved = ground arith;
                  marked = ground arith;
                  answered = rw held (
                      subst
                        (λ (z : EscrowWorld).
                          network.send (fund_execution job client job_id job.budget_usdc)
                            (z.calls ++ execute (approve_execution job client job.budget_usdc) ∷ [])
                          ≡ ok tx_hash)
                        at answered);
                  earned = ground arith;
                  sent = rw (held, made, at) (append_assoc w.calls _ _);
                }
          ]

  -- A funding that succeeds found an open job of a budget of at least 0.01 USDC. It sends the approval of
  -- exactly the budget and then the guarded call of exactly the budget, after the call that sets it
  -- where the wallet of the provider is held, and nothing else; one reservation of the budget is
  -- added under a fresh id, and the job is funded with it and the hash of the guarded call.
  pub fund_escrow_job-eq-ok :
      (reservation_id id : String) (w w' : EscrowWorld) (view : EscrowJob)
      → fund_escrow_job network reservation_id id w ≡ (ok view, w')
      → (job : EscrowJobRow) × (find? (is_job id) w.db.jobs ≡ some job)
        × (job.state ≡ opened)
        × (10000 ≤ job.budget_usdc)
        × ((job_id : ℕ) × (job.onchain_job_id ≡ some job_id)
            × ((wallet : AgentWalletRow) × (find_agent_wallet job.client_agent_id job.mode job.chain
                    w.db
                  ≡ some wallet)
                × Funds network reservation_id job job_id wallet.address w w'))
  unfolding fund_escrow_job fund_locked escrow_budget_micros
  fund_escrow_job-eq-ok reservation_id id w w' view e =
      let (job, found, rest) = locked-eq-ok id (fund_locked network reservation_id) w w' view e in
      elim (Bool-cases (job.state == opened)) [
        | inr at ↦ absurd (ground arith)
        | inl at ↦ elim (Bool-cases (ltb job.budget_usdc escrow_minimum_budget_micros)) [
          | inl low ↦ absurd (ground arith)
          | inr enough ↦ elim (Option-cases job.onchain_job_id) [
            | inl unknown ↦ absurd (ground arith)
            | inr (job_id, known) ↦
                elim (Option-cases
                  (find_agent_wallet job.client_agent_id job.mode job.chain w.db)) [
                    | inl nobody ↦ absurd (ground arith)
                    | inr (wallet, owned) ↦ (
                      job,
                      found,
                      (escrow_state_comparable.same_iff job.state opened).0 at,
                      ground arith,
                      (
                        job_id,
                        known,
                        (
                          wallet,
                          owned,
                          fund_on_chain-eq-ok reservation_id job job_id wallet.address w w' view
                              (ground arith),
                        ),
                      ),
                    )
                  ]
          ]
        ]
      ]
