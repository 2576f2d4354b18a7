-- ===== src/Payments/Escrow/Lifecycle.antt =====
-- applyEscrowStateChange of escrow.ts: the transitions that it drives, the call of each, and the
-- outcome of the reservation. Explanatory texts are left out.
pub mod Transitions
pub mod Duties
pub mod Driven
pub mod Final
use Prim.Native.String
use mathlib.Core.Option
use aops_pmoa.Prelude.{
  ℕ, String, Bool, true, false, not, Option, none, some, List, [], ◌∷◌, if◌then◌else◌, ◌==◌,
  includes, error, conflict, Result, ok, err,
}
use aops_pmoa.Prelude.Effects.{
  World, ◌>>=◌, ◌>>◌, pure, throw, query, or_throw, throw_if, atomically,
}
use aops_pmoa.Payments.Escrow.Types.{
  EscrowState, opened, funded, submitted, completed, rejected, expired, escrow_state_comparable,
  escrow_state_text, EscrowJobRow, text, number, ContractExecution, EscrowNetwork, EscrowWorld,
  EscrowIo,
}
use aops_pmoa.Payments.Escrow.Contract.{
  escrow_submit_signature, escrow_complete_signature, escrow_reject_signature, no_hook_params,
  zero_bytes32,
}
use aops_pmoa.Payments.Escrow.Rows.{
  EscrowJob, escrow_job_from_row, locked_job, update_job, fleet_wallet_address,
  apply_reservation_outcome,
}
use aops_pmoa.Payments.Escrow.Reading.{send}
use aops_pmoa.Payments.Escrow.Reputation.{on_escrow_completed, swallow}

abbrev pub escrow_transitions : EscrowState → List EscrowState
escrow_transitions funded = submitted ∷ []
escrow_transitions submitted = completed ∷ rejected ∷ expired ∷ []
escrow_transitions opened = []
escrow_transitions completed = []
escrow_transitions rejected = []
escrow_transitions expired = []

abbrev pub assert_escrow_transition : EscrowJobRow → EscrowState → EscrowIo (Unit {0})
assert_escrow_transition job next =
    throw_if (not (includes (escrow_transitions job.state) next))
      (conflict "escrow_invalid_transition")

pub data EscrowRole : Type 0 where
  provider evaluator : EscrowRole

pub record EscrowCallOf : Type 0 where
  pub role : EscrowRole
  pub verb : String
  pub signature : String
  pub not_held_code : String

abbrev pub escrow_calls : EscrowState → Option EscrowCallOf
escrow_calls submitted = some (record {
  role = provider;
  verb = "submit";
  signature = escrow_submit_signature;
  not_held_code = "escrow_provider_wallet_not_held";
})
escrow_calls completed = some (record {
  role = evaluator;
  verb = "complete";
  signature = escrow_complete_signature;
  not_held_code = "escrow_evaluator_wallet_not_held";
})
escrow_calls rejected = some (record {
  role = evaluator;
  verb = "reject";
  signature = escrow_reject_signature;
  not_held_code = "escrow_evaluator_wallet_not_held";
})
escrow_calls opened = none
escrow_calls funded = none
escrow_calls expired = none

pub record ApplyEscrowStateChangeInput : Type 0 where
  pub escrow_job_id : String
  pub next : EscrowState
  pub deliverable_hash : Option String

abbrev pub actor_address : EscrowRole → EscrowJobRow → String
actor_address provider job = job.provider_address
actor_address evaluator job = job.evaluator_address

abbrev pub payload_of : EscrowRole → Option String → String
payload_of provider deliverable_hash = Option.get_or deliverable_hash zero_bytes32
payload_of evaluator deliverable_hash = zero_bytes32

abbrev pub transition_execution :
    EscrowCallOf
    → EscrowJobRow
    → (sender : String) → (job_id : ℕ) → Option String
    → ContractExecution
transition_execution call job sender job_id deliverable_hash = record {
  mode = job.mode;
  chain = job.chain;
  sender_address = sender;
  abi_function_signature = call.signature;
  abi_parameters =
      number job_id ∷ text (payload_of call.role deliverable_hash) ∷ text no_hook_params ∷ [];
  contract_address = job.escrow_address;
}

-- `COALESCE(a, b)`
abbrev pub first_given : {A : Type 0} → Option A → Option A → Option A
first_given none b = b
first_given (some a) b = some a

abbrev pub set_state :
    EscrowState → (tx_hash deliverable_hash : Option String) → EscrowJobRow → EscrowJobRow
set_state next tx_hash deliverable_hash j = record j {
  state = next;
  deliverable_hash = first_given deliverable_hash j.deliverable_hash;
  submit_tx_hash =
      if next == submitted then first_given tx_hash j.submit_tx_hash else j.submit_tx_hash;
  terminal_tx_hash =
      if next == submitted then j.terminal_tx_hash else first_given tx_hash j.terminal_tx_hash;
}

module _ (network : EscrowNetwork) where
  unfoldable pub send_escrow_call :
      EscrowCallOf → EscrowJobRow → (job_id : ℕ) → Option String → EscrowIo (Option String)
  send_escrow_call call job job_id deliverable_hash = do
    held ← query (
        fleet_wallet_address network.lower job.org_id (actor_address call.role job) job.mode
          job.chain)
    wallet ← or_throw (conflict call.not_held_code) held
    tx_hash ← send network (transition_execution call job wallet job_id deliverable_hash)
    pure (some tx_hash)

  unfoldable pub send_escrow_transition :
      EscrowJobRow → (job_id : ℕ) → ApplyEscrowStateChangeInput → EscrowIo (Option String)
  unfolding send_escrow_call
  send_escrow_transition job job_id input =
      if input.next == expired then pure none else elim (escrow_calls input.next) [
        | none ↦
            throw (error (String.◌++◌ "escrow_no_call_for_state:" (escrow_state_text input.next)))
        | some call ↦ send_escrow_call call job job_id input.deliverable_hash
      ]

  -- The row and the reservation of a job whose transition was sent.
  unfoldable pub record_change :
      ApplyEscrowStateChangeInput → EscrowJobRow → Option String → EscrowIo EscrowJob
  record_change input job tx_hash = do
    row ← update_job job.id (set_state input.next tx_hash input.deliverable_hash)
    apply_reservation_outcome job input.next
    pure (escrow_job_from_row row)

  -- What happens to the locked row.
  unfoldable pub change_locked : ApplyEscrowStateChangeInput → EscrowJobRow → EscrowIo EscrowJob
  unfolding send_escrow_transition record_change
  change_locked input job = do
    assert_escrow_transition job input.next
    job_id ←
        or_throw (error (String.◌++◌ "escrow_onchain_job_id_missing:" job.id)) job.onchain_job_id
    tx_hash ← send_escrow_transition job job_id input
    record_change input job tx_hash

  -- The transaction.
  unfoldable pub change_state : ApplyEscrowStateChangeInput → EscrowIo EscrowJob
  unfolding change_locked
  change_state input = atomically (locked_job input.escrow_job_id >>= change_locked input)

  -- After the commit: the reputation that a completion earns, whose failure is swallowed.
  abbrev pub after_commit : (event_id : String) → EscrowState → EscrowJob → EscrowIo (Unit {0})
  after_commit event_id next result =
      if next == completed
      then swallow (on_escrow_completed network event_id result.id)
      else pure tt

  unfoldable pub apply_escrow_state_change :
      (event_id : String) → ApplyEscrowStateChangeInput → EscrowIo EscrowJob
  unfolding change_state
  apply_escrow_state_change event_id input = do
    result ← change_state input
    after_commit event_id input.next result
    pure result
