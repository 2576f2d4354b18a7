-- ===== src/Payments/Escrow/Lifecycle/Transitions.antt =====
-- Transitions of a job: what applyEscrowStateChange sends and writes.
use mathlib.Core.List.{append-nil}
use aops_pmoa.Prelude.{
  ℕ, ◌≡◌, ◌⊎◌, refl, inl, inr, String, true, Option, none, some, List, [], ◌∷◌, ◌++◌, arith, ◌==◌,
  find?, update_where, includes, ok, Result-cases, Bool-cases, Option-cases,
}
use aops_pmoa.Prelude.Effects.{then-eq-ok}
use aops_pmoa.Payments.Escrow.Types.{
  expired, escrow_state_comparable, EscrowJobRow, EscrowCall, execute, EscrowNetwork, EscrowWorld,
}
use aops_pmoa.Payments.Escrow.Rows.{
  EscrowJob, is_job, fleet_wallet_address, outcome_of, settle_reservation,
  apply_reservation_outcome,
}
use aops_pmoa.Payments.Escrow.Rows.Locked.{locked-eq-ok}
use aops_pmoa.Payments.Escrow.Lifecycle.{
  escrow_transitions, EscrowCallOf, escrow_calls, ApplyEscrowStateChangeInput, actor_address,
  transition_execution, set_state, record_change, send_escrow_call, send_escrow_transition,
  change_locked, change_state,
}

module _ (network : EscrowNetwork) where
  -- The call of a transition: none for an expiry, else that of the party which may make it, from its
  -- wallet.
  abbrev pub Sends :
      EscrowJobRow
      → (job_id : ℕ) → ApplyEscrowStateChangeInput
      → EscrowWorld
      → Option String
      → List EscrowCall
      → Type 0
  Sends job job_id input w tx_hash calls =
      ((input.next ≡ expired) × (tx_hash ≡ none) × (calls ≡ []))
      ⊎ ((call : EscrowCallOf) × (escrow_calls input.next ≡ some call)
          × ((wallet : String) × (fleet_wallet_address network.lower job.org_id
                  (actor_address call.role job) job.mode job.chain w.db
                ≡ some wallet)
              × ((hash : String) × (tx_hash ≡ some hash)
                  × (network.send
                        (transition_execution call job wallet job_id input.deliverable_hash) w.calls
                      ≡ ok hash))
              × (calls
                  ≡ execute (transition_execution call job wallet job_id input.deliverable_hash)
                    ∷ [])))

  send_escrow_transition-eq-ok :
      (job : EscrowJobRow) (job_id : ℕ) (input : ApplyEscrowStateChangeInput) (w w' : EscrowWorld)
      (tx_hash : Option String)
      → send_escrow_transition network job job_id input w ≡ (ok tx_hash, w')
      → (calls : List EscrowCall) × Sends job job_id input w tx_hash calls
        × (w' ≡ record w { calls = w.calls ++ calls })
  unfolding send_escrow_transition send_escrow_call
  send_escrow_transition-eq-ok job job_id input w w' tx_hash e =
      elim (Bool-cases (input.next == expired)) [
        | inl lapses ↦ (
          [],
          inl ((escrow_state_comparable.same_iff input.next expired).0 lapses, ground arith, refl),
          ground (arith, append-nil w.calls),
        )
        | inr other ↦ elim (Option-cases (escrow_calls input.next)) [
          | inl silent ↦ absurd (ground arith)
          | inr (call, known) ↦
              elim (Option-cases (
                fleet_wallet_address network.lower job.org_id (actor_address call.role job) job.mode
                  job.chain w.db)) [
                    | inl outside ↦ absurd (ground arith)
                    | inr (wallet, held) ↦
                        elim (Result-cases (
                          network.send
                            (transition_execution call job wallet job_id input.deliverable_hash)
                            w.calls)) [
                              | inr failed ↦ absurd (ground arith)
                              | inl (hash, sent) ↦ (
                                execute (
                                      transition_execution call job wallet job_id
                                        input.deliverable_hash)
                                    ∷ [],
                                inr (call, known, (wallet, held, (hash, ground arith, sent), refl)),
                                ground arith,
                              )
                            ]
                  ]
        ]
      ]

  record_change-eq-ok :
      (input : ApplyEscrowStateChangeInput) (job : EscrowJobRow) (tx_hash : Option String)
      (w w' : EscrowWorld) (view : EscrowJob)
      → record_change network input job tx_hash w ≡ (ok view, w')
      → (w'.calls ≡ w.calls)
        × (w'.db
            ≡ settle_reservation job job.reservation_id (outcome_of input.next) (record w.db {
              jobs =
                  update_where
                    (is_job job.id)
                    (set_state input.next tx_hash input.deliverable_hash)
                    w.db.jobs;
            }))
  unfolding record_change apply_reservation_outcome
  record_change-eq-ok input job tx_hash w w' view e =
      elim (Option-cases (
        find? (is_job job.id) (
          update_where (is_job job.id) (set_state input.next tx_hash input.deliverable_hash)
            w.db.jobs))) [ inl missing ↦ absurd (ground arith) | inr (row, there) ↦ ground arith ]

  pub change_state-parts :
      (input : ApplyEscrowStateChangeInput) (w w' : EscrowWorld) (view : EscrowJob)
      → change_state network input w ≡ (ok view, w')
      → (job : EscrowJobRow) × (find? (is_job input.escrow_job_id) w.db.jobs ≡ some job)
        × (includes (escrow_transitions job.state) input.next ≡ true)
        × ((job_id : ℕ) × (job.onchain_job_id ≡ some job_id)
            × ((tx_hash : Option String) × ((calls : List EscrowCall) × Sends job job_id input w
                    tx_hash calls
                  × (w'.calls ≡ w.calls ++ calls))
                × (w'.db
                    ≡ settle_reservation job job.reservation_id
                        (outcome_of input.next)
                        (record w.db {
                          jobs =
                              update_where
                                (is_job job.id)
                                (set_state input.next tx_hash input.deliverable_hash)
                                w.db.jobs;
                        }))))
  unfolding change_state change_locked
  change_state-parts input w w' view e =
      let (job, found, rest) =
        locked-eq-ok input.escrow_job_id (change_locked network input) w w' view e in
      elim (Bool-cases (includes (escrow_transitions job.state) input.next)) [
        | inr barred ↦ absurd (ground arith)
        | inl allowed ↦ elim (Option-cases job.onchain_job_id) [
          | inl unknown ↦ absurd (ground arith)
          | inr (job_id, known) ↦
              let (tx_hash, u, sent, last) =
                then-eq-ok (send_escrow_transition network job job_id input)
                  (record_change network input job) w (ground arith) in
              let (calls, sends, at) =
                send_escrow_transition-eq-ok job job_id input w u tx_hash sent in
              let (kept, made) = record_change-eq-ok input job tx_hash u w' view last in
              (
                job,
                found,
                allowed,
                (job_id, known, (tx_hash, (calls, sends, ground arith), rw at at made)),
              )
        ]
      ]
