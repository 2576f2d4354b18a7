-- ===== src/Payments/Escrow/Jobs.antt =====
-- createEscrowJob and fundEscrowJob of escrow.ts. Explanatory texts are left out.
pub mod Funds
pub mod Funding
pub mod Retries
pub mod Receipts
pub mod Creation
use Prim.Native.String
use mathlib.Core.Option
use aops_pmoa.Prelude.{
  ℕ, zero, suc, ◌/◌, String, Bool, true, false, not, Option, none, some, List, [], ◌∷◌, ltb,
  nat_beq, if◌then◌else◌, ◌==◌, text_comparable, is_blank, Failure, error, conflict, bad_request,
  Result, ok, err, ◌++◌,
}
use aops_pmoa.Prelude.Effects.{
  ◌>>=◌, ◌>>◌, pure, throw, ask, query, or_throw, throw_if, atomically, when_some, execute_sql,
}
use aops_pmoa.Payments.Types.{PaymentMode, PaymentChain}
use aops_pmoa.Payments.Money.{parse_usdc_micros}
use aops_pmoa.Payments.Permit2.Gas.{chain_text, message_of, chain_rpc_url}
use aops_pmoa.Payments.Escrow.Types.{
  opened, funded, escrow_state_comparable, EscrowJobRow, EscrowDb, text, number, ContractExecution,
  EscrowCall, execute, sleep, EscrowReceiptLog, ReceiptBody, EscrowNetwork, EscrowIo,
}
use aops_pmoa.Payments.Escrow.Contract.{
  escrow_create_job_signature, escrow_set_budget_signature, escrow_fund_signature,
  approve_signature, escrow_minimum_budget_micros, no_hook, no_provider_agent_id, no_hook_params,
  receipt_max_attempts, receipt_retry_delay_ms, EscrowDeployment, escrow_deployment_for,
  parse_job_created,
}
use aops_pmoa.Payments.Escrow.Rows.{
  EscrowJob, escrow_job_from_row, locked_job, update_job, insert_job, client_wallet_address,
  fleet_wallet_address, reserve_escrow_budget,
}
use aops_pmoa.Payments.Escrow.Reading.{
  read_again, message_or, logs_of_body, result_then, when_url, lift, send,
  read_receipt_logs_via_rpc,
}
use aops_pmoa.Payments.Escrow.Calls.{
  CreateEscrowJobInput, create_execution, set_budget_execution, approve_execution, fund_execution,
  new_job,
}

unfoldable pub escrow_budget_micros : Option ℕ → Result ℕ
escrow_budget_micros none = err (bad_request "invalid_usdc_amount")
escrow_budget_micros (some micros) =
    if ltb micros escrow_minimum_budget_micros
    then err (bad_request "escrow_uneconomic_for_amount")
    else ok micros

abbrev pub set_funded : (tx_hash reservation_id : String) → EscrowJobRow → EscrowJobRow
set_funded tx_hash reservation_id j = record j {
  state = funded;
  fund_tx_hash = some tx_hash;
  reservation_id = some reservation_id;
}

module _ (network : EscrowNetwork) where
  open network use {lower}

  abbrev pub read_receipt_logs : CreateEscrowJobInput → String → EscrowIo (List EscrowReceiptLog)
  read_receipt_logs input tx_hash = elim input.read_receipt_logs [
    | none ↦ read_receipt_logs_via_rpc network tx_hash input.chain
    | some read ↦ lift (read tx_hash input.chain)
  ]

  -- The row of the job that the receipt names.
  unfoldable pub record_creation :
      (now : ℕ)
      → (id : String) → CreateEscrowJobInput
      → (budget : ℕ) → EscrowDeployment
      → (client evaluator tx_hash : String) → List EscrowReceiptLog
      → EscrowIo EscrowJob
  record_creation now id input budget deployment client evaluator tx_hash logs = do
    job_id ←
        or_throw (error (String.◌++◌ "escrow_job_id_not_in_receipt:" tx_hash))
          (parse_job_created network logs deployment.escrow_address)
    row ← execute_sql (
        insert_job (
          new_job now id input budget job_id (if lower evaluator == lower client then 2 else 3)
            evaluator tx_hash deployment))
    pure (escrow_job_from_row row)

  -- The last check, the call and its receipt.
  unfoldable pub create_on_chain :
      (now : ℕ)
      → (id : String) → CreateEscrowJobInput
      → (budget : ℕ) → EscrowDeployment
      → (client evaluator : String) → EscrowIo EscrowJob
  unfolding record_creation
  create_on_chain now id input budget deployment client evaluator = do
    throw_if (lower evaluator == lower input.provider_address)
        (conflict "escrow_provider_cannot_be_evaluator")
    tx_hash ← send network (create_execution input client evaluator deployment.escrow_address)
    logs ← read_receipt_logs input tx_hash
    record_creation now id input budget deployment client evaluator tx_hash logs

  -- The body of the transaction.
  unfoldable pub create_job :
      (now : ℕ)
      → (id : String) → CreateEscrowJobInput
      → (budget : ℕ) → EscrowDeployment
      → EscrowIo EscrowJob
  unfolding create_on_chain
  create_job now id input budget deployment = do
    client ← client_wallet_address input.client_agent_id input.mode input.chain
    throw_if (lower client == lower input.provider_address)
        (conflict "escrow_client_cannot_be_provider")
    create_on_chain now id input budget deployment client
        (Option.get_or input.evaluator_address client)

  unfoldable pub create_escrow_job :
      (now : ℕ) → (id : String) → CreateEscrowJobInput → EscrowIo EscrowJob
  unfolding create_job
  create_escrow_job now id input = do
    budget ← lift (escrow_budget_micros (parse_usdc_micros input.budget_usdc))
    deployment ← lift (escrow_deployment_for input.chain)
    atomically (create_job now id input budget deployment)

  -- The reservation and the row of a job that was funded.
  unfoldable pub record_funding :
      (reservation_id : String) → EscrowJobRow → (tx_hash : String) → EscrowIo EscrowJob
  record_funding reservation_id job tx_hash = do
    reserve_escrow_budget network.hash_quote reservation_id job
    row ← update_job job.id (set_funded tx_hash reservation_id)
    pure (escrow_job_from_row row)

  -- The approval lands first, then fund.
  unfoldable pub approve_and_fund :
      (reservation_id : String)
      → EscrowJobRow
      → (job_id budget : ℕ) → (client : String) → EscrowIo EscrowJob
  approve_and_fund reservation_id job job_id budget client = do
    send network (approve_execution job client budget)
    tx_hash ← send network (fund_execution job client job_id budget)
    record_funding reservation_id job tx_hash

  -- The budget is set where the wallet of the provider is held.
  unfoldable pub fund_on_chain :
      (reservation_id : String)
      → EscrowJobRow
      → (job_id budget : ℕ) → (client : String) → EscrowIo EscrowJob
  fund_on_chain reservation_id job job_id budget client = do
    provider_wallet ←
        query (fleet_wallet_address lower job.org_id job.provider_address job.mode job.chain)
    when_some "" provider_wallet
        (λ wallet. send network (set_budget_execution job wallet job_id budget))
    approve_and_fund reservation_id job job_id budget client

  -- What happens to the locked row.
  unfoldable pub fund_locked : (reservation_id : String) → EscrowJobRow → EscrowIo EscrowJob
  unfolding fund_on_chain
  fund_locked reservation_id job = do
    throw_if (not (job.state == opened)) (conflict "escrow_invalid_transition")
    job_id ←
        or_throw (error (String.◌++◌ "escrow_onchain_job_id_missing:" job.id)) job.onchain_job_id
    budget ← lift (escrow_budget_micros (some job.budget_usdc))
    client ← client_wallet_address job.client_agent_id job.mode job.chain
    fund_on_chain reservation_id job job_id budget client

  unfoldable pub fund_escrow_job :
      (reservation_id : String) → (escrow_job_id : String) → EscrowIo EscrowJob
  unfolding fund_locked
  fund_escrow_job reservation_id escrow_job_id =
      atomically (locked_job escrow_job_id >>= fund_locked reservation_id)
