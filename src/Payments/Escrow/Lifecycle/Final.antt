-- ===== src/Payments/Escrow/Lifecycle/Final.antt =====
-- Jobs that are completed, rejected or expired, before fundEscrowJob and applyEscrowStateChange.
use aops_pmoa.Prelude.{
  ◌≡◌, ◌⊎◌, inl, inr, refl, String, false, some, ◌==◌, find?, includes, conflict, err,
}
use aops_pmoa.Payments.Escrow.Types.{
  EscrowState, opened, completed, rejected, expired, escrow_state_comparable, EscrowJobRow,
  EscrowNetwork, EscrowWorld,
}
use aops_pmoa.Payments.Escrow.Rows.{is_job}
use aops_pmoa.Payments.Escrow.Jobs.{fund_locked, fund_escrow_job}
use aops_pmoa.Payments.Escrow.Lifecycle.{
  escrow_transitions, ApplyEscrowStateChangeInput, change_locked, change_state,
  apply_escrow_state_change,
}

abbrev pub IsFinal : EscrowState → Type 0
IsFinal s = (s ≡ completed) ⊎ ((s ≡ rejected) ⊎ (s ≡ expired))

final-closed :
    (s next : EscrowState)
    → IsFinal s
    → (includes (escrow_transitions s) next ≡ false) × ((s == opened) ≡ false)
final-closed s next (inl e) = rw e (refl, refl)
final-closed s next (inr (inl e)) = rw e (refl, refl)
final-closed s next (inr (inr e)) = rw e (refl, refl)

-- A job that is completed, rejected or expired is not funded again, and no transition is driven on it:
-- both are refused as a conflict, with nothing sent and nothing written.
pub final-refused :
    (network : EscrowNetwork) (event_id reservation_id : String)
    (input : ApplyEscrowStateChangeInput) (w : EscrowWorld) (job : EscrowJobRow)
    → find? (is_job input.escrow_job_id) w.db.jobs ≡ some job
    → IsFinal job.state
    → (fund_escrow_job network reservation_id input.escrow_job_id w
        ≡ (err (conflict "escrow_invalid_transition"), w))
      × (apply_escrow_state_change network event_id input w
          ≡ (err (conflict "escrow_invalid_transition"), w))
unfolding fund_escrow_job fund_locked apply_escrow_state_change change_state change_locked
final-refused network event_id reservation_id input w job found final =
    let (barred, shut) = final-closed job.state input.next final in
    (rw (found, shut) refl, rw (found, barred) refl)
