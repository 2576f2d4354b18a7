-- ===== src/Payments/Escrow/Types.antt =====
-- Rows, calls and effects of escrow.ts, escrow-contract.ts and reputation-hook.ts. The chain and the
-- payment provider are outside of the program: `EscrowNetwork` says what they answer, given all that
-- was asked of them before. Job ids of the chain and amounts are whole numbers; times are whole
-- milliseconds.
use aops_pmoa.Prelude.{
  ℕ, ◌≡◌, ◌↔◌, String, Bool, true, Option, List, arith, Comparable, nat_beq, Result,
}
use aops_pmoa.Prelude.Effects.{World, Io}
use aops_pmoa.Payments.Types.{PaymentMode, PaymentChain, PaymentRail, ReservationStatus}

pub data EscrowState : Type 0 where
  opened funded submitted completed rejected expired : EscrowState

pub record EscrowJobRow : Type 0 where
  pub id : String
  pub org_id : String
  pub client_agent_id : String
  pub provider_address : String
  pub evaluator_address : String
  pub mode : PaymentMode
  pub chain : PaymentChain
  pub escrow_address : String
  pub token_address : String
  pub onchain_job_id : Option ℕ
  pub budget_usdc : ℕ
  pub reservation_id : Option String
  pub state : EscrowState
  pub escrow_mode : ℕ
  pub deliverable_hash : Option String
  pub expires_at : ℕ
  pub create_tx_hash : Option String
  pub fund_tx_hash : Option String
  pub submit_tx_hash : Option String
  pub terminal_tx_hash : Option String
  pub created_by : String
  pub created_at : ℕ

-- agent_chain_wallets
pub record AgentWalletRow : Type 0 where
  pub org_id : String
  pub agent_id : String
  pub mode : PaymentMode
  pub chain : PaymentChain
  pub is_active : Bool
  pub address : String

-- payment_sources; the rail as it is ordered by its text.
pub record SourceRow : Type 0 where
  pub id : String
  pub org_id : String
  pub chain : PaymentChain
  pub is_active : Bool
  pub rail : PaymentRail
  pub rail_order : ℕ
  pub created_at : ℕ

pub record EscrowQuote : Type 0 where
  pub escrow_job_id : String
  pub chain : PaymentChain
  pub escrow_address : String
  pub token_address : String
  pub onchain_job_id : Option ℕ
  pub budget_usdc : ℕ
  pub provider_address : String
  pub evaluator_address : String
  pub escrow_mode : ℕ

-- payment_reservations, as escrow writes them. The reason code of a job is `escrow_job:` and its id.
pub record EscrowReservationRow : Type 0 where
  pub id : String
  pub org_id : String
  pub agent_id : String
  pub source_id : String
  pub amount_usdc : ℕ
  pub rail : PaymentRail
  pub status : ReservationStatus
  pub reason_job_id : String
  pub quote_hash : String
  pub quote : EscrowQuote
  pub expires_at : ℕ

pub record ReputationEventRow : Type 0 where
  pub id : String
  pub org_id : String
  pub agent_id : String
  pub escrow_job_id : String
  pub score : ℕ
  pub feedback_tx_hash : Option String

-- agent_onchain_identities
pub record IdentityRow : Type 0 where
  pub agent_id : String
  pub mode : PaymentMode
  pub chain : PaymentChain
  pub is_registered : Bool
  pub token_id : Option String

-- agents, of which the lists read the name.
pub record AgentNameRow : Type 0 where
  pub id : String
  pub name : String

pub record EscrowDb : Type 0 where
  pub jobs : List EscrowJobRow
  pub wallets : List AgentWalletRow
  pub sources : List SourceRow
  pub reservations : List EscrowReservationRow
  pub reputation : List ReputationEventRow
  pub identities : List IdentityRow
  pub agent_names : List AgentNameRow

-- A parameter of a contract call; the source writes the numbers in decimal.
pub data AbiParameter : Type 0 where
  text : String → AbiParameter
  number : ℕ → AbiParameter

-- executePermit2Transaction; the random reference ids are left out.
pub record ContractExecution : Type 0 where
  pub mode : PaymentMode
  pub chain : PaymentChain
  pub sender_address : String
  pub abi_function_signature : String
  pub abi_parameters : List AbiParameter
  pub contract_address : String

pub data EscrowCall : Type 0 where
  execute : ContractExecution → EscrowCall
  sleep : (ms : ℕ) → EscrowCall

pub record EscrowReceiptLog : Type 0 where
  pub address : String
  pub topics : List String
  pub payload : String

-- The body of a response of eth_getTransactionReceipt: an error with its message, if any, and a
-- result, which is absent (also as null) or an object with the logs, if any.
pub record ReceiptBody : Type 0 where
  pub error : Option (Option String)
  pub result : Option (Option (List EscrowReceiptLog))

-- The body of a response of eth_call.
pub record CallBody : Type 0 where
  pub error : Option (Option String)
  pub result : Option String

-- What getJob returns, decoded: the ordinal of the status, and the budget.
pub record DecodedJob : Type 0 where
  pub status : ℕ
  pub budget : ℕ

abbrev pub escrow_state_text : EscrowState → String
escrow_state_text opened = "open"
escrow_state_text funded = "funded"
escrow_state_text submitted = "submitted"
escrow_state_text completed = "completed"
escrow_state_text rejected = "rejected"
escrow_state_text expired = "expired"

-- The environment of the process, the answers of the provider and of the chain, the decoder of
-- viem, the hash, and the order-insensitive form of a text (`toLowerCase`, `lower`).
pub record EscrowNetwork : Type 0 where
  pub arc_rpc_url : Option String
  pub base_sepolia_rpc_url : Option String
  pub send : ContractExecution → List EscrowCall → Result String
  pub fetch_receipt : (rpc_url tx_hash : String) → List EscrowCall → Result ReceiptBody
  pub fetch_job :
      (rpc_url : String)
      → (onchain_job_id : ℕ) → (escrow_address : String) → List EscrowCall
      → Result CallBody
  pub decode_job_created : EscrowReceiptLog → Option ℕ
  pub decode_get_job : String → Result DecodedJob
  pub hash_quote : EscrowQuote → String
  pub lower : String → String

abbrev pub EscrowWorld : Type 0
EscrowWorld = World EscrowDb EscrowCall

abbrev pub EscrowIo : Type 0 → Type 0
EscrowIo = Io EscrowDb EscrowCall

abbrev escrow_state_index : EscrowState → ℕ
escrow_state_index opened = 0
escrow_state_index funded = 1
escrow_state_index submitted = 2
escrow_state_index completed = 3
escrow_state_index rejected = 4
escrow_state_index expired = 5

pub escrow_state_iff :
    (a b : EscrowState) → (nat_beq (escrow_state_index a) (escrow_state_index b) ≡ true) ↔ (a ≡ b)
escrow_state_iff a b = ground arith

instance abbrev pub escrow_state_comparable : Comparable EscrowState
escrow_state_comparable = record {
  same = λ a b. nat_beq (escrow_state_index a) (escrow_state_index b);
  same_iff = escrow_state_iff;
}
