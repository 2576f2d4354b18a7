-- ===== src/Payments/Escrow/Calls.antt =====
-- The input of createEscrowJob, the calls that it and fundEscrowJob send, and the row of a new job.
use mathlib.Core.Option
use aops_pmoa.Prelude.{ℕ, ◌/◌, String, Option, none, some, List, [], ◌∷◌, text_comparable, Result}
use aops_pmoa.Payments.Types.{PaymentMode, PaymentChain}
use aops_pmoa.Payments.Escrow.Types.{
  opened, escrow_state_comparable, EscrowJobRow, text, number, ContractExecution, EscrowReceiptLog,
}
use aops_pmoa.Payments.Escrow.Contract.{
  escrow_create_job_signature, escrow_set_budget_signature, escrow_fund_signature,
  approve_signature, no_hook, no_provider_agent_id, no_hook_params, EscrowDeployment,
}

pub record CreateEscrowJobInput : Type 0 where
  pub org_id : String
  pub client_agent_id : String
  pub provider_address : String
  pub evaluator_address : Option String
  pub mode : PaymentMode
  pub chain : PaymentChain
  pub budget_usdc : List ℕ
  pub expires_at : ℕ
  pub created_by : String
  pub description : Option String
  pub read_receipt_logs : Option (String → PaymentChain → Result (List EscrowReceiptLog))

abbrev pub create_execution :
    CreateEscrowJobInput → (client evaluator escrow : String) → ContractExecution
create_execution input client evaluator escrow = record {
  mode = input.mode;
  chain = input.chain;
  sender_address = client;
  abi_function_signature = escrow_create_job_signature;
  abi_parameters =
      text input.provider_address
      ∷ text evaluator
      ∷ number (input.expires_at / 1000)
      ∷ text (Option.get_or input.description "")
      ∷ text no_hook
      ∷ text no_provider_agent_id
      ∷ [];
  contract_address = escrow;
}

abbrev pub set_budget_execution :
    EscrowJobRow → (sender : String) → (job_id budget : ℕ) → ContractExecution
set_budget_execution job sender job_id budget = record {
  mode = job.mode;
  chain = job.chain;
  sender_address = sender;
  abi_function_signature = escrow_set_budget_signature;
  abi_parameters =
      number job_id ∷ text job.token_address ∷ number budget ∷ text no_hook_params ∷ [];
  contract_address = job.escrow_address;
}

abbrev pub approve_execution : EscrowJobRow → (sender : String) → (budget : ℕ) → ContractExecution
approve_execution job sender budget = record {
  mode = job.mode;
  chain = job.chain;
  sender_address = sender;
  abi_function_signature = approve_signature;
  abi_parameters = text job.escrow_address ∷ number budget ∷ [];
  contract_address = job.token_address;
}

abbrev pub fund_execution :
    EscrowJobRow → (sender : String) → (job_id budget : ℕ) → ContractExecution
fund_execution job sender job_id budget = record {
  mode = job.mode;
  chain = job.chain;
  sender_address = sender;
  abi_function_signature = escrow_fund_signature;
  abi_parameters =
      number job_id ∷ text job.token_address ∷ number budget ∷ text no_hook_params ∷ [];
  contract_address = job.escrow_address;
}

abbrev pub new_job :
    (now : ℕ)
    → (id : String) → CreateEscrowJobInput
    → (budget job_id escrow_mode : ℕ) → (evaluator tx_hash : String) → EscrowDeployment
    → EscrowJobRow
new_job now id input budget job_id escrow_mode evaluator tx_hash deployment = record {
  id = id;
  org_id = input.org_id;
  client_agent_id = input.client_agent_id;
  provider_address = input.provider_address;
  evaluator_address = evaluator;
  mode = input.mode;
  chain = input.chain;
  escrow_address = deployment.escrow_address;
  token_address = deployment.token_address;
  onchain_job_id = some job_id;
  budget_usdc = budget;
  reservation_id = none;
  state = opened;
  escrow_mode = escrow_mode;
  deliverable_hash = none;
  expires_at = input.expires_at;
  create_tx_hash = some tx_hash;
  fund_tx_hash = none;
  submit_tx_hash = none;
  terminal_tx_hash = none;
  created_by = input.created_by;
  created_at = now;
}
