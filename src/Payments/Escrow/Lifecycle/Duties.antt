-- ===== src/Payments/Escrow/Lifecycle/Duties.antt =====
-- The transitions that applyEscrowStateChange may drive: the call that each owes and the outcome of the
-- reservation, and the rows after it, in full.
use mathlib.Core.Option
use aops_pmoa.Prelude.{
  ℕ, ◌≡◌, refl, String, ◌&&◌, Option, none, some, List, [], ◌∷◌, ◌==◌, update_where,
  text_comparable,
}
use aops_pmoa.Payments.Types.{
  ReservationStatus, reserved, settled, released, reservation_status_comparable,
}
use aops_pmoa.Payments.Escrow.Types.{
  EscrowState, funded, submitted, completed, rejected, expired, escrow_state_comparable,
  EscrowJobRow, EscrowReservationRow, EscrowDb, ContractExecution, text, number,
}
use aops_pmoa.Payments.Escrow.Rows.{settle_reservation}

-- Who makes the call of a transition, which, and with what content.
pub record Duty : Type 0 where
  pub address : String
  pub signature : String
  pub content : String

abbrev pub zeros : String
zeros = "0x0000000000000000000000000000000000000000000000000000000000000000"

-- The provider submits, the evaluator completes or rejects, and nobody calls for an expiry; the
-- reservation is settled on a completion, and released on a rejection or an expiry.
pub data Owes (job : EscrowJobRow) (deliverable_hash : Option String)
    : EscrowState → EscrowState → Option Duty → Option ReservationStatus → Type 0 where
  submits :
      Owes job deliverable_hash funded submitted
        (some (record {
          address = job.provider_address;
          signature = "submit(uint256,bytes32,bytes)";
          content = Option.get_or deliverable_hash zeros;
        }))
        none
  completes :
      Owes job deliverable_hash submitted completed
        (some (record {
          address = job.evaluator_address;
          signature = "complete(uint256,bytes32,bytes)";
          content = zeros;
        }))
        (some settled)
  rejects :
      Owes job deliverable_hash submitted rejected
        (some (record {
          address = job.evaluator_address;
          signature = "reject(uint256,bytes32,bytes)";
          content = zeros;
        }))
        (some released)
  expires : Owes job deliverable_hash submitted expired none (some released)

abbrev pub duty_call : EscrowJobRow → (sender : String) → (job_id : ℕ) → Duty → ContractExecution
duty_call job sender job_id duty = record {
  mode = job.mode;
  chain = job.chain;
  sender_address = sender;
  abi_function_signature = duty.signature;
  abi_parameters = number job_id ∷ text duty.content ∷ text "0x" ∷ [];
  contract_address = job.escrow_address;
}

abbrev pub or_old : Option String → Option String → Option String
or_old none old = old
or_old (some new) old = some new

-- The row of the job after the transition: the hash of a submission and that of an end have a column each.
abbrev pub moved :
    EscrowState → (tx_hash deliverable_hash : Option String) → EscrowJobRow → EscrowJobRow
moved submitted tx_hash deliverable_hash j = record j {
  state = submitted;
  deliverable_hash = or_old deliverable_hash j.deliverable_hash;
  submit_tx_hash = or_old tx_hash j.submit_tx_hash;
}
moved next tx_hash deliverable_hash j = record j {
  state = next;
  deliverable_hash = or_old deliverable_hash j.deliverable_hash;
  terminal_tx_hash = or_old tx_hash j.terminal_tx_hash;
}

-- The reservation of the job, where it is still held, has the outcome.
abbrev pub resolved :
    EscrowJobRow
    → Option String
    → Option ReservationStatus
    → List EscrowReservationRow
    → List EscrowReservationRow
resolved job none outcome rows = rows
resolved job (some id) none rows = rows
resolved job (some id) (some outcome) rows =
    update_where
      (λ (r : EscrowReservationRow). r.id == id && r.org_id == job.org_id && r.status == reserved)
      (λ (r : EscrowReservationRow). record r { status = outcome }) rows

abbrev pub changed :
    EscrowJobRow
    → EscrowState
    → (tx_hash deliverable_hash : Option String) → Option ReservationStatus
    → EscrowDb
    → EscrowDb
changed job next tx_hash deliverable_hash outcome db = record db {
  jobs =
      update_where (λ (j : EscrowJobRow). j.id == job.id) (moved next tx_hash deliverable_hash)
        db.jobs;
  reservations = resolved job job.reservation_id outcome db.reservations;
}

pub settle-eq :
    (job : EscrowJobRow) (o : Option String) (outcome : Option ReservationStatus) (db : EscrowDb)
    → settle_reservation job o outcome db
      ≡ record db { reservations = resolved job o outcome db.reservations }
settle-eq job none outcome db = refl
settle-eq job (some id) none db = refl
settle-eq job (some id) (some outcome) db = refl
