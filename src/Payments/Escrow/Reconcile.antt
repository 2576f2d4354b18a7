-- ===== src/Payments/Escrow/Reconcile.antt =====
-- reconcileEscrowJob of escrow.ts: the row is corrected from what getJob returns. The status that an
-- error names is left out.
pub mod Quiet
pub mod Mirror
pub mod Answers
pub mod Reads
pub mod Chain
use aops_pmoa.Payments.Types.{numeric_limit}
use Prim.Native.String
use aops_pmoa.Prelude.{
  ℕ, String, Bool, true, false, not, ◌&&◌, Option, none, some, List, [], ◌∷◌, ◌++◌, ltb, leb,
  nat_beq, if◌then◌else◌, ◌==◌, when, is_empty, Failure, error, Result, ok, err,
}
use aops_pmoa.Prelude.Effects.{◌>>=◌, ◌>>◌, pure, throw, query, or_throw, throw_if, atomically}
use aops_pmoa.Payments.Types.{PaymentChain}
use aops_pmoa.Payments.Permit2.Gas.{chain_text, chain_rpc_url}
use aops_pmoa.Payments.Escrow.Types.{
  EscrowState, opened, funded, submitted, completed, rejected, expired, escrow_state_comparable,
  EscrowJobRow, CallBody, DecodedJob, EscrowCall, EscrowNetwork, EscrowIo,
}
use aops_pmoa.Payments.Escrow.Contract.{get_job_max_attempts, get_job_retry_delay_ms}
use aops_pmoa.Payments.Escrow.Rows.{
  EscrowJob, escrow_job_from_row, locked_job, update_job, apply_reservation_outcome,
}
use aops_pmoa.Payments.Escrow.Reading.{read_again, message_or, result_then, when_url, lift}

-- ESCROW_STATE_BY_STATUS
abbrev pub escrow_state_by_status : ℕ → Option EscrowState
escrow_state_by_status status =
    if nat_beq status 0
    then some opened
    else if nat_beq status 1
    then some funded
    else if nat_beq status 2
    then some submitted
    else if nat_beq status 3
    then some completed
    else if nat_beq status 4
    then some rejected
    else if nat_beq status 5
    then some expired
    else none

pub record OnchainEscrowJob : Type 0 where
  pub state : EscrowState
  pub budget_micros : ℕ

unfoldable pub decode_escrow_job : Result DecodedJob → Result OnchainEscrowJob
decode_escrow_job (err e) = err e
decode_escrow_job (ok job) = elim (escrow_state_by_status job.status) [
  | none ↦ err (error "escrow_unknown_onchain_status")
  | some state ↦ ok (record { state = state; budget_micros = job.budget })
]

abbrev pub call_data_of_body : CallBody → Result String
call_data_of_body body = elim body.error [
  | some message ↦ err (message_or "eth_call_rpc_error" message)
  | none ↦ elim body.result [ none ↦ err (error "eth_call_empty_response") | some value ↦ ok value ]
]

-- A drift with the local value and that of the chain.
pub data EscrowDrift : Type 0 where
  state_drift : (here there : EscrowState) → EscrowDrift
  budget_drift : (here there : ℕ) → EscrowDrift

pub record ReconcileEscrowJobInput : Type 0 where
  pub escrow_job_id : String
  pub read_job_call_data :
      Option ((onchain_job_id : ℕ) → (escrow_address : String) → PaymentChain → Result String)

abbrev pub is_state_drifted : EscrowJobRow → OnchainEscrowJob → Bool
is_state_drifted job onchain = not (onchain.state == job.state)

-- A budget of zero on the chain is no drift.
abbrev pub is_budget_drifted : EscrowJobRow → OnchainEscrowJob → Bool
is_budget_drifted job onchain =
    ltb 0 onchain.budget_micros && not (nat_beq onchain.budget_micros job.budget_usdc)

unfoldable pub drift_of : EscrowJobRow → OnchainEscrowJob → List EscrowDrift
drift_of job onchain =
    when (is_state_drifted job onchain) (state_drift job.state onchain.state)
    ++ when (is_budget_drifted job onchain) (budget_drift job.budget_usdc onchain.budget_micros)

abbrev pub set_onchain : Bool → OnchainEscrowJob → EscrowJobRow → EscrowJobRow
set_onchain budget_drifted onchain j = record j {
  state = onchain.state;
  budget_usdc = if budget_drifted then onchain.budget_micros else j.budget_usdc;
}

unfoldable pub correct_job :
    EscrowJobRow → OnchainEscrowJob → EscrowIo (EscrowJob × List EscrowDrift)
correct_job job onchain =
    if is_empty (drift_of job onchain)
    then pure (escrow_job_from_row job, drift_of job onchain)
    else (do
      throw_if (is_budget_drifted job onchain && leb numeric_limit onchain.budget_micros)
          (error "numeric_value_out_of_range")
      row ← update_job job.id (set_onchain (is_budget_drifted job onchain) onchain)
      apply_reservation_outcome job onchain.state
      pure (escrow_job_from_row row, drift_of job onchain))

module _ (network : EscrowNetwork) where
  unfoldable pub read_job_call_data_via_rpc :
      (onchain_job_id : ℕ) → (escrow_address : String) → PaymentChain → EscrowIo String
  unfolding read_again
  read_job_call_data_via_rpc onchain_job_id escrow_address chain =
      when_url (error (String.◌++◌ "escrow_get_job_rpc_not_configured:" (chain_text chain)))
        (chain_rpc_url network.arc_rpc_url network.base_sepolia_rpc_url chain)
        (λ url.
          read_again get_job_max_attempts get_job_retry_delay_ms "escrow_get_job_unavailable:"
            (error "unknown")
            (λ calls.
              result_then (network.fetch_job url onchain_job_id escrow_address calls)
                call_data_of_body))

  abbrev pub read_job_call_data :
      ReconcileEscrowJobInput
      → (onchain_job_id : ℕ) → (escrow_address : String) → PaymentChain
      → EscrowIo String
  read_job_call_data input job_id address chain = elim input.read_job_call_data [
    | none ↦ read_job_call_data_via_rpc job_id address chain
    | some read ↦ lift (read job_id address chain)
  ]

  unfoldable pub reconcile_read : EscrowJobRow → String → EscrowIo (EscrowJob × List EscrowDrift)
  unfolding correct_job
  reconcile_read job call_data = do
    onchain ← lift (decode_escrow_job (network.decode_get_job call_data))
    correct_job job onchain

  unfoldable pub reconcile_locked :
      ReconcileEscrowJobInput → EscrowJobRow → EscrowIo (EscrowJob × List EscrowDrift)
  unfolding reconcile_read
  reconcile_locked input job = do
    job_id ←
        or_throw (error (String.◌++◌ "escrow_onchain_job_id_missing:" job.id)) job.onchain_job_id
    call_data ← read_job_call_data input job_id job.escrow_address job.chain
    reconcile_read job call_data

  unfoldable pub reconcile_escrow_job :
      ReconcileEscrowJobInput → EscrowIo (EscrowJob × List EscrowDrift)
  unfolding reconcile_locked
  reconcile_escrow_job input =
      atomically (locked_job input.escrow_job_id >>= reconcile_locked input)
