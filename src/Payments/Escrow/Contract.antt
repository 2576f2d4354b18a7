-- ===== src/Payments/Escrow/Contract.antt =====
-- apps/api/src/engines/payments/escrow-contract.ts, and the constants of escrow.ts: signatures,
-- deployments and the id of a job from the logs of its receipt.
use Prim.Native.String
use aops_pmoa.Prelude.{
  ℕ, String, Option, none, some, List, [], ◌∷◌, if◌then◌else◌, ◌==◌, text_comparable, error, Result,
  ok, err,
}
use aops_pmoa.Payments.Types.{PaymentChain, base, arbitrum, polygon, optimism, avalanche, arc}
use aops_pmoa.Payments.Permit2.Gas.{chain_text}
use aops_pmoa.Payments.Escrow.Types.{EscrowReceiptLog, EscrowNetwork}

abbrev pub escrow_create_job_signature : String
escrow_create_job_signature = "createJob(address,address,uint48,string,address,uint256)"

abbrev pub escrow_set_budget_signature : String
escrow_set_budget_signature = "setBudget(uint256,address,uint256,bytes)"

abbrev pub escrow_fund_signature : String
escrow_fund_signature = "fund(uint256,address,uint256,bytes)"

abbrev pub escrow_submit_signature : String
escrow_submit_signature = "submit(uint256,bytes32,bytes)"

abbrev pub escrow_complete_signature : String
escrow_complete_signature = "complete(uint256,bytes32,bytes)"

abbrev pub escrow_reject_signature : String
escrow_reject_signature = "reject(uint256,bytes32,bytes)"

abbrev pub approve_signature : String
approve_signature = "approve(address,uint256)"

abbrev pub escrow_minimum_budget_micros : ℕ
escrow_minimum_budget_micros = 10000

abbrev pub no_hook : String
no_hook = "0x0000000000000000000000000000000000000000"

abbrev pub no_provider_agent_id : String
no_provider_agent_id = "0"

abbrev pub no_hook_params : String
no_hook_params = "0x"

abbrev pub zero_bytes32 : String
zero_bytes32 = "0x0000000000000000000000000000000000000000000000000000000000000000"

abbrev pub receipt_max_attempts : ℕ
receipt_max_attempts = 6

abbrev pub receipt_retry_delay_ms : ℕ
receipt_retry_delay_ms = 400

abbrev pub get_job_max_attempts : ℕ
get_job_max_attempts = 6

abbrev pub get_job_retry_delay_ms : ℕ
get_job_retry_delay_ms = 400

pub record EscrowDeployment : Type 0 where
  pub escrow_address : String
  pub token_address : String

abbrev pub escrow_deployments : PaymentChain → Option EscrowDeployment
escrow_deployments arc = some (record {
  escrow_address = "0x31C050d9D20504c4E11b2A894051d8181B14e0F5";
  token_address = "0x3600000000000000000000000000000000000000";
})
escrow_deployments base = some (record {
  escrow_address = "0x31C050d9D20504c4E11b2A894051d8181B14e0F5";
  token_address = "0x036CbD53842c5426634e7929541eC2318f3dCF7e";
})
escrow_deployments arbitrum = none
escrow_deployments polygon = none
escrow_deployments optimism = none
escrow_deployments avalanche = none

unfoldable pub escrow_deployment_for : PaymentChain → Result EscrowDeployment
escrow_deployment_for chain = elim (escrow_deployments chain) [
  | none ↦ err (error (String.◌++◌ "escrow_not_deployed_on_chain:" (chain_text chain)))
  | some deployment ↦ ok deployment
]

module _ (network : EscrowNetwork) where
  open network use {lower, decode_job_created}

  -- The first log of the escrow itself that decodes as JobCreated.
  unfoldable pub parse_job_created : List EscrowReceiptLog → (escrow_address : String) → Option ℕ
  parse_job_created [] escrow_address = none
  parse_job_created (log ∷ logs) escrow_address =
      let later = parse_job_created logs escrow_address in
      if lower log.address == lower escrow_address
      then elim (decode_job_created log) [ none ↦ later | some job_id ↦ some job_id ]
      else later
