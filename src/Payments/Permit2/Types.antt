-- ===== src/Payments/Permit2/Types.antt =====
-- Rows, calls and effects of apps/api/src/engines/payments/permit2.ts and delegation-ceiling.ts. The
-- chain and the payment provider are outside of the program: `Network` says what they answer, given
-- all that was asked of them before. What was sent stays sent when a transaction is rolled back.
use aops_pmoa.Prelude.{
  ℕ, ◌≡◌, ◌↔◌, String, Bool, true, false, Option, none, some, List, [], ◌∷◌, ◌++◌, arith,
  Comparable, nat_beq, Failure, Result, ok, err,
}
use aops_pmoa.Payments.Types.{
  PaymentMode, PaymentChain, base, arbitrum, polygon, optimism, avalanche, arc,
}

pub data DelegationStatus : Type 0 where
  pending active exhausted expired revoked : DelegationStatus

pub data PayerKind : Type 0 where
  user agent treasury : PayerKind

pub record AgentDelegationRow : Type 0 where
  pub id : String
  pub org_id : String
  pub payer_agent_id : Option String
  pub payer_address : String
  pub payee_agent_id : Option String
  pub payee_address : String
  pub mode : PaymentMode
  pub chain : PaymentChain
  pub token_address : String
  pub ceiling_usdc : ℕ
  pub drawn_usdc : ℕ
  pub expires_at : ℕ
  pub permit_nonce : ℕ
  pub signature : Option String
  pub status : DelegationStatus
  pub approved_by : String
  pub payer_kind : PayerKind

pub data DrawdownStatus : Type 0 where
  submitted confirmed : DrawdownStatus

pub record DrawdownRow : Type 0 where
  pub id : String
  pub delegation_id : String
  pub amount_usdc : ℕ
  pub status : DrawdownStatus
  pub tx_hash : Option String

-- circle_chain_wallets by organisation, agent_chain_wallets by agent: the owner is either.
pub record WalletRow : Type 0 where
  pub owner_id : String
  pub mode : PaymentMode
  pub chain : PaymentChain
  pub is_active : Bool
  pub address : String
  pub circle_wallet_id : String

pub record OrgCeilingRow : Type 0 where
  pub org_id : String
  pub mode : PaymentMode
  pub chain : PaymentChain
  pub ceiling_usdc : ℕ

pub record DelegationsDb : Type 0 where
  pub delegations : List AgentDelegationRow
  pub drawdowns : List DrawdownRow
  pub org_wallets : List WalletRow
  pub agent_wallets : List WalletRow
  pub org_ceilings : List OrgCeilingRow

pub record PermitSingle : Type 0 where
  pub token : String
  pub amount : ℕ
  pub expiration : ℕ
  pub nonce : ℕ
  pub spender : String
  pub sig_deadline : ℕ

-- The typed data that an owner signs: the parts of it that vary.
pub record TypedData : Type 0 where
  pub chain_id : ℕ
  pub message : PermitSingle

-- A contract call, by its function signature and parameters.
pub data ContractCall : Type 0 where
  approve : (amount : ℕ) → (contract_address : String) → ContractCall
  permit : (owner : String) → PermitSingle → (signature : String) → ContractCall
  transfer_from : (payer payee : String) → (amount : ℕ) → (token : String) → ContractCall
  lockdown : (token spender : String) → ContractCall

-- What is sent to the provider, and each wait. The random reference ids are left out.
pub data Call : Type 0 where
  execute : PaymentMode → PaymentChain → (sender_address : String) → ContractCall → Call
  sign : PaymentMode → PaymentChain → (owner_address : String) → TypedData → Call
  transfer_native_gas :
      PaymentMode
      → PaymentChain
      → (source_wallet_id destination_address : String) → (amount_wei : ℕ) → Call
  transfer_wallet :
      PaymentMode
      → PaymentChain
      → (source_address destination_address : String) → (amount_micros : ℕ) → Call
  sleep : (ms : ℕ) → Call

pub record World : Type 0 where
  pub db : DelegationsDb
  pub calls : List Call

-- The environment of the process, and the answers: `send` answers a transaction hash, a signature or
-- nothing; the readers ask the chain.
pub record Network : Type 0 where
  pub arc_rpc_url : Option String
  pub base_sepolia_rpc_url : Option String
  pub usdc_token_address : PaymentMode → PaymentChain → String
  pub gas_balance_wei : String → PaymentChain → List Call → Result ℕ
  pub balance_micros : String → PaymentChain → PaymentMode → List Call → Result ℕ
  pub allowance_nonce : (owner token spender : String) → PaymentChain → List Call → Result ℕ
  pub send : Call → List Call → Result String

abbrev pub Io : Type 0 → Type 0
Io A = World → Result A × World

abbrev pub and_then : {A B : Type 0} → Result A × World → (A → Io B) → Result B × World
and_then (ok a, w) f = f a w
and_then (err e, w) f = (err e, w)

infixl 5 ◌>>=◌ ◌>>◌
abbrev pub ◌>>=◌ : {A B : Type 0} → Io A → (A → Io B) → Io B
◌>>=◌ m f w = and_then (m w) f

abbrev pub ◌>>◌ : {A B : Type 0} → Io A → Io B → Io B
m >> k = m >>= λ _. k

module _ {A : Type 0} where
  abbrev pub pure : A → Io A
  pure a w = (ok a, w)

  abbrev pub throw : Failure → Io A
  throw e w = (err e, w)

  abbrev pub query : (DelegationsDb → A) → Io A
  query f w = (ok (f w.db), w)

  -- What the chain answers now.
  abbrev pub ask : (List Call → Result A) → Io A
  ask f w = (f w.calls, w)

  abbrev pub roll_back : DelegationsDb → Result A × World → Result A × World
  roll_back db (ok a, w) = (ok a, w)
  roll_back db (err e, w) = (err e, record w { db = db })

  -- withTransaction: BEGIN, the body, COMMIT or ROLLBACK.
  abbrev pub with_transaction : Io A → Io A
  with_transaction body w = roll_back w.db (body w)

  -- `value ?? throw`
  abbrev pub or_throw : Failure → Option A → Io A
  or_throw e none w = (err e, w)
  or_throw e (some a) w = (ok a, w)

abbrev pub throw_if : Bool → Failure → Io (Unit {0})
throw_if true e w = (err e, w)
throw_if false e w = (ok tt, w)

abbrev pub update : (DelegationsDb → DelegationsDb) → Io (Unit {0})
update f w = (ok tt, record w { db = f w.db })

abbrev pub send : Network → Call → Io String
send network call w = (network.send call w.calls, record w { calls = w.calls ++ call ∷ [] })

abbrev delegation_status_index : DelegationStatus → ℕ
delegation_status_index pending = 0
delegation_status_index active = 1
delegation_status_index exhausted = 2
delegation_status_index expired = 3
delegation_status_index revoked = 4

abbrev payer_kind_index : PayerKind → ℕ
payer_kind_index user = 0
payer_kind_index agent = 1
payer_kind_index treasury = 2

abbrev chain_index : PaymentChain → ℕ
chain_index base = 0
chain_index arbitrum = 1
chain_index polygon = 2
chain_index optimism = 3
chain_index avalanche = 4
chain_index arc = 5

pub delegation_status_iff :
    (a b : DelegationStatus)
    → (nat_beq (delegation_status_index a) (delegation_status_index b) ≡ true) ↔ (a ≡ b)
delegation_status_iff a b = ground arith

pub payer_kind_iff :
    (a b : PayerKind) → (nat_beq (payer_kind_index a) (payer_kind_index b) ≡ true) ↔ (a ≡ b)
payer_kind_iff a b = ground arith

pub chain_iff : (a b : PaymentChain) → (nat_beq (chain_index a) (chain_index b) ≡ true) ↔ (a ≡ b)
chain_iff a b = ground arith

instance abbrev pub delegation_status_comparable : Comparable DelegationStatus
delegation_status_comparable = record {
  same = λ a b. nat_beq (delegation_status_index a) (delegation_status_index b);
  same_iff = delegation_status_iff;
}

instance abbrev pub payer_kind_comparable : Comparable PayerKind
payer_kind_comparable = record {
  same = λ a b. nat_beq (payer_kind_index a) (payer_kind_index b);
  same_iff = payer_kind_iff;
}

instance abbrev pub chain_comparable : Comparable PaymentChain
chain_comparable = record {
  same = λ a b. nat_beq (chain_index a) (chain_index b);
  same_iff = chain_iff;
}
