-- ===== src/Payments/Escrow/Rows/Locked.antt =====
-- Transactions of escrow.ts that lock a row and go on with it.
use aops_pmoa.Prelude.{◌≡◌, inl, inr, String, some, arith, find?, ok, Option-cases}
use aops_pmoa.Prelude.Effects.{◌>>=◌, atomically, atomically-eq-ok}
use aops_pmoa.Payments.Escrow.Types.{EscrowJobRow, EscrowWorld, EscrowIo}
use aops_pmoa.Payments.Escrow.Rows.{is_job, locked_job}

-- A transaction on a locked row that succeeds found the row, and its body did on the tables.
pub locked-eq-ok :
    {A : Type 0} (id : String) (body : EscrowJobRow → EscrowIo A) (w w' : EscrowWorld) (a : A)
    → atomically (locked_job id >>= body) w ≡ (ok a, w')
    → (job : EscrowJobRow) × (find? (is_job id) w.db.jobs ≡ some job) × (body job w ≡ (ok a, w'))
locked-eq-ok id body w w' a e =
    let inside = atomically-eq-ok (locked_job id >>= body) w e in
    elim (Option-cases (find? (is_job id) w.db.jobs)) [
      | inl missing ↦ absurd (ground arith)
      | inr (job, found) ↦ (job, found, rw found at inside)
    ]
