-- ===== src/Payments/Escrow/Lifecycle/Driven.antt =====
-- What applyEscrowStateChange sends and writes is what its transition owes.
use mathlib.Core.List.{append-nil}
use aops_pmoa.Prelude.{
  ℕ, ◌≡◌, refl, subst, ap, ◌∙◌, inl, inr, String, true, false, Option, none, some, List, [], ◌∷◌,
  ◌++◌, arith, ◌==◌, find?, update_where, includes, ok, text_comparable,
}
use aops_pmoa.Payments.Types.{ReservationStatus, settled, released, reservation_status_comparable}
use aops_pmoa.Payments.Escrow.Types.{
  EscrowState, opened, funded, submitted, completed, rejected, expired, escrow_state_comparable,
  EscrowJobRow, EscrowCall, execute, EscrowNetwork, EscrowWorld,
}
use aops_pmoa.Payments.Escrow.Rows.{
  EscrowJob, is_job, fleet_wallet_address, outcome_of, settle_reservation,
}
use aops_pmoa.Payments.Escrow.Lifecycle.{
  escrow_transitions, EscrowCallOf, escrow_calls, actor_address, ApplyEscrowStateChangeInput,
  transition_execution, set_state, change_state,
}
use aops_pmoa.Payments.Escrow.Lifecycle.Transitions.{Sends, change_state-parts}
use aops_pmoa.Payments.Escrow.Lifecycle.Duties.{
  Duty, Owes, submits, completes, rejects, expires, duty_call, changed, settle-eq,
}

module _ (network : EscrowNetwork) where
  -- The call that is sent from the wallet of the party, and its hash; none is sent without a duty.
  abbrev pub Called :
      EscrowJobRow
      → (job_id : ℕ) → Option Duty
      → (tx_hash : Option String) → EscrowWorld
      → EscrowWorld
      → Type 0
  Called job job_id none tx_hash w w' = (tx_hash ≡ none) × (w'.calls ≡ w.calls)
  Called job job_id (some duty) tx_hash w w' =
      (wallet : String) × (fleet_wallet_address network.lower job.org_id duty.address job.mode
          job.chain w.db
        ≡ some wallet)
      × ((hash : String) × (network.send (duty_call job wallet job_id duty) w.calls ≡ ok hash)
          × (tx_hash ≡ some hash))
      × (w'.calls ≡ w.calls ++ execute (duty_call job wallet job_id duty) ∷ [])

  -- A transition from a state, with its duty and outcome.
  abbrev pub Drives :
      ApplyEscrowStateChangeInput
      → EscrowJobRow
      → (from next : EscrowState) → EscrowWorld
      → EscrowWorld
      → Type 0
  Drives input job from next w w' =
      (duty : Option Duty) × (outcome : Option ReservationStatus) × Owes job input.deliverable_hash
        from next duty outcome
      × ((job_id : ℕ) × (job.onchain_job_id ≡ some job_id)
          × ((tx_hash : Option String) × Called job job_id duty tx_hash w w'
              × (w'.db ≡ changed job next tx_hash input.deliverable_hash outcome w.db)))

  module _ (input : ApplyEscrowStateChangeInput) (job : EscrowJobRow) (w w' : EscrowWorld)
      (job_id : ℕ) (tx_hash : Option String) where
    -- What was sent for a call of the table.
    abbrev IsSent : EscrowCallOf → Type 0
    IsSent call =
        (wallet : String) × (fleet_wallet_address network.lower job.org_id
            (actor_address call.role job) job.mode job.chain w.db
          ≡ some wallet)
        × ((hash : String) × (network.send
                (transition_execution call job wallet job_id input.deliverable_hash) w.calls
              ≡ ok hash)
            × (tx_hash ≡ some hash))
        × (w'.calls
            ≡ w.calls
              ++ execute (transition_execution call job wallet job_id input.deliverable_hash) ∷ [])

    Sends-IsSent :
        (next : EscrowState) (calls : List EscrowCall) (call : EscrowCallOf)
        → escrow_calls next ≡ some call
        → (next == expired) ≡ false
        → Sends network job job_id (record input { next = next }) w tx_hash calls
        → w'.calls ≡ w.calls ++ calls
        → IsSent call
    Sends-IsSent next calls call known other (inl (lapses, none_sent, silent)) at =
        absurd (ground (arith, escrow_state_comparable.same_iff next expired))
    Sends-IsSent next calls call known other
          (inr (call', known', (wallet, held, (hash, there, answered), sent))) at =
        let same : call' ≡ call = ground arith in
        subst IsSent same
          (wallet, held, (hash, answered, there), at ∙ ap (λ cs. w.calls ++ cs) sent)

    Sends-silent :
        (calls : List EscrowCall)
        → Sends network job job_id (record input { next = expired }) w tx_hash calls
        → w'.calls ≡ w.calls ++ calls
        → (tx_hash ≡ none) × (w'.calls ≡ w.calls)
    Sends-silent calls (inl (lapses, none_sent, silent)) at =
        (none_sent, at ∙ ap (λ cs. w.calls ++ cs) silent ∙ append-nil w.calls)
    Sends-silent calls (inr (call, known, rest)) at = absurd (ground arith)

    Drives-of :
        (from next : EscrowState) (calls : List EscrowCall)
        → includes (escrow_transitions from) next ≡ true
        → job.onchain_job_id ≡ some job_id
        → Sends network job job_id (record input { next = next }) w tx_hash calls
        → w'.calls ≡ w.calls ++ calls
        → w'.db
          ≡ settle_reservation job job.reservation_id (outcome_of next) (record w.db {
            jobs =
                update_where
                  (is_job job.id)
                  (set_state next tx_hash input.deliverable_hash)
                  w.db.jobs;
          })
        → Drives input job from next w w'
    Drives-of funded submitted calls allowed known sent at made = (
      _,
      _,
      submits,
      (
        job_id,
        known,
        (
          tx_hash,
          Sends-IsSent submitted calls _ refl refl sent at,
          made ∙ settle-eq job job.reservation_id none _,
        ),
      ),
    )
    Drives-of submitted completed calls allowed known sent at made = (
      _,
      _,
      completes,
      (
        job_id,
        known,
        (
          tx_hash,
          Sends-IsSent completed calls _ refl refl sent at,
          made ∙ settle-eq job job.reservation_id (some settled) _,
        ),
      ),
    )
    Drives-of submitted rejected calls allowed known sent at made = (
      _,
      _,
      rejects,
      (
        job_id,
        known,
        (
          tx_hash,
          Sends-IsSent rejected calls _ refl refl sent at,
          made ∙ settle-eq job job.reservation_id (some released) _,
        ),
      ),
    )
    Drives-of submitted expired calls allowed known sent at made = (
      _,
      _,
      expires,
      (
        job_id,
        known,
        (
          tx_hash,
          Sends-silent calls sent at,
          made ∙ settle-eq job job.reservation_id (some released) _,
        ),
      ),
    )
    Drives-of opened next calls allowed known sent at made = absurd (ground arith)
    Drives-of completed next calls allowed known sent at made = absurd (ground arith)
    Drives-of rejected next calls allowed known sent at made = absurd (ground arith)
    Drives-of expired next calls allowed known sent at made = absurd (ground arith)
    Drives-of funded opened calls allowed known sent at made = absurd (ground arith)
    Drives-of funded funded calls allowed known sent at made = absurd (ground arith)
    Drives-of funded completed calls allowed known sent at made = absurd (ground arith)
    Drives-of funded rejected calls allowed known sent at made = absurd (ground arith)
    Drives-of funded expired calls allowed known sent at made = absurd (ground arith)
    Drives-of submitted opened calls allowed known sent at made = absurd (ground arith)
    Drives-of submitted funded calls allowed known sent at made = absurd (ground arith)
    Drives-of submitted submitted calls allowed known sent at made = absurd (ground arith)

  -- A transition that succeeds is a submission of a funded job, or the completion, the rejection or the
  -- expiry of a submitted one. It sends the call of that transition and no other, from the wallet of
  -- the provider for a submission and of the evaluator for an end, or none for an expiry; the job takes
  -- the next state and the hash that was answered, its reservation, where it is still held, is settled
  -- on a completion and released on a rejection or an expiry, and nothing else is written.
  pub change_state-eq-ok :
      (input : ApplyEscrowStateChangeInput) (w w' : EscrowWorld) (view : EscrowJob)
      → change_state network input w ≡ (ok view, w')
      → (job : EscrowJobRow) × (find? (is_job input.escrow_job_id) w.db.jobs ≡ some job)
        × Drives input job job.state input.next w w'
  change_state-eq-ok input w w' view e =
      let (job, found, allowed, (job_id, known, (tx_hash, (calls, sent, at), made))) =
        change_state-parts network input w w' view e in
      (
        job,
        found,
        Drives-of input job w w' job_id tx_hash job.state input.next calls allowed known sent at
            made,
      )
