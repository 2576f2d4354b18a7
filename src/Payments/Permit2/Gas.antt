-- ===== src/Payments/Permit2/Gas.antt =====
-- permit2.ts on reading the nonce of Permit2, on who submits a permit, and on the gas that the
-- submitter needs. The loops of the source run a fixed number of rounds, counted down here.
use Prim.Native.String
use aops_pmoa.Prelude.{
  ℕ, ◌-◌, zero, suc, String, Bool, true, false, not, ◌&&◌, Option, none, some, List, [], ◌∷◌, ◌++◌,
  leb, nat_beq, if◌then◌else◌, ◌==◌, text_comparable, find?, holds, is_some, Failure,
  identity_error, error, Result, ok, err,
}
use aops_pmoa.Payments.Types.{
  PaymentMode, PaymentChain, base, arbitrum, polygon, optimism, avalanche, arc, test,
  mode_comparable,
}
use aops_pmoa.Payments.Permit2.Types.{
  chain_comparable, WalletRow, DelegationsDb, Call, sleep, transfer_native_gas, transfer_wallet,
  Network, Io, ◌>>=◌, ◌>>◌, pure, throw_if, query, ask, or_throw, send,
}

abbrev pub nonce_read_max_attempts : ℕ
nonce_read_max_attempts = 6

abbrev pub nonce_read_retry_delay_ms : ℕ
nonce_read_retry_delay_ms = 400

abbrev pub submitter_gas_floor_micros : ℕ
submitter_gas_floor_micros = 100000

abbrev pub base_submitter_eth_floor_wei : ℕ
base_submitter_eth_floor_wei = 50000000000000

abbrev pub base_gas_poll_attempts : ℕ
base_gas_poll_attempts = 8

abbrev pub base_gas_poll_delay_ms : ℕ
base_gas_poll_delay_ms = 2000

-- The text of a chain.
abbrev pub chain_text : PaymentChain → String
chain_text base = "base"
chain_text arbitrum = "arbitrum"
chain_text polygon = "polygon"
chain_text optimism = "optimism"
chain_text avalanche = "avalanche"
chain_text arc = "arc"

-- `error instanceof Error ? error.message : 'unknown'`, of the errors that the read throws.
abbrev pub message_of : Failure → String
message_of (identity_error code status) = code
message_of (error message) = message

-- A row of `WHERE owner AND mode AND chain AND status = 'active' LIMIT 1`
abbrev pub is_wallet : String → PaymentMode → PaymentChain → WalletRow → Bool
is_wallet owner mode chain w =
    w.owner_id == owner && w.mode == mode && w.chain == chain && w.is_active

abbrev pub org_wallet : String → PaymentMode → PaymentChain → DelegationsDb → Option WalletRow
org_wallet org_id mode chain db = find? (is_wallet org_id mode chain) db.org_wallets

abbrev pub agent_wallet : String → PaymentMode → PaymentChain → DelegationsDb → Option WalletRow
agent_wallet agent_id mode chain db = find? (is_wallet agent_id mode chain) db.agent_wallets

abbrev pub wait : ℕ → Io (Unit {0})
wait ms w = (ok tt, record w { calls = w.calls ++ sleep ms ∷ [] })

-- The rounds of a loop that reads again after a failure, with a wait before each further round.
unfoldable pub retry_read :
    {A : Type 0} → (List Call → Result A) → (rounds : ℕ) → (last_error : Failure) → Io A
retry_read read zero last_error w =
    (err (error (String.◌++◌ "permit2_nonce_unavailable:" (message_of last_error))), w)
retry_read read (suc n) last_error w =
    let waited = record w { calls = w.calls ++ sleep nonce_read_retry_delay_ms ∷ [] } in
    elim (read w.calls) [
      | ok a ↦ (ok a, w)
      | err e ↦ retry_read read n e (if nat_beq n 0 then w else waited)
    ]

-- chainRpcUrl of agent-wallets.ts
abbrev pub chain_rpc_url :
    (arc_rpc_url base_sepolia_rpc_url : Option String) → PaymentChain → Option String
chain_rpc_url arc_rpc_url base_sepolia_rpc_url arc = arc_rpc_url
chain_rpc_url arc_rpc_url base_sepolia_rpc_url base = base_sepolia_rpc_url
chain_rpc_url arc_rpc_url base_sepolia_rpc_url arbitrum = none
chain_rpc_url arc_rpc_url base_sepolia_rpc_url polygon = none
chain_rpc_url arc_rpc_url base_sepolia_rpc_url optimism = none
chain_rpc_url arc_rpc_url base_sepolia_rpc_url avalanche = none

module _ (network : Network) where
  unfoldable pub read_permit2_nonce : (owner token spender : String) → PaymentChain → Io ℕ
  read_permit2_nonce owner token spender chain = do
    throw_if
        (not (
          holds (λ url. not (url == ""))
            (chain_rpc_url network.arc_rpc_url network.base_sepolia_rpc_url chain)))
        (error (String.◌++◌ "permit2_nonce_rpc_not_configured:" (chain_text chain)))
    retry_read (network.allowance_nonce owner token spender chain) nonce_read_max_attempts
        (error "unknown")

  -- `catch { return; }` around a call.
  abbrev pub attempt_send : Call → Io Bool
  attempt_send call w =
      let sent = record w { calls = w.calls ++ call ∷ [] } in
      elim (network.send call w.calls) [ ok answer ↦ (ok true, sent) | err e ↦ (ok false, sent) ]

  unfoldable pub poll_gas : String → PaymentChain → (rounds : ℕ) → Io (Unit {0})
  poll_gas address chain zero w = (ok tt, w)
  poll_gas address chain (suc n) w =
      let waited = record w { calls = w.calls ++ sleep base_gas_poll_delay_ms ∷ [] } in
      let rest = poll_gas address chain n waited in
      elim (network.gas_balance_wei address chain waited.calls) [
        | err e ↦ (err e, waited)
        | ok eth ↦ if leb base_submitter_eth_floor_wei eth then (ok tt, waited) else rest
      ]

  abbrev pub poll_if_sent : String → PaymentChain → Bool → Io (Unit {0})
  poll_if_sent address chain true = poll_gas address chain base_gas_poll_attempts
  poll_if_sent address chain false = pure tt

  -- The top-up on Base, from the wallet of the organisation.
  abbrev pub top_up_base :
      PaymentMode → PaymentChain → String → ℕ → Option WalletRow → Io (Unit {0})
  top_up_base mode chain submitter eth none = pure tt
  top_up_base mode chain submitter eth (some w) =
      if w.address == submitter
      then pure tt
      else attempt_send (
          transfer_native_gas mode chain w.circle_wallet_id submitter
            (base_submitter_eth_floor_wei - eth))
        >>= poll_if_sent submitter chain

  unfoldable pub ensure_on_base : String → PaymentMode → PaymentChain → String → Io (Unit {0})
  ensure_on_base org_id mode chain submitter = do
    eth ← ask (network.gas_balance_wei submitter chain)
    treasury ← query (org_wallet org_id mode chain)
    if leb base_submitter_eth_floor_wei eth
        then pure tt
        else top_up_base mode chain submitter eth treasury

  abbrev pub top_up_arc : PaymentMode → PaymentChain → String → ℕ → Option WalletRow → Io (Unit {0})
  top_up_arc mode chain submitter balance none = pure tt
  top_up_arc mode chain submitter balance (some w) =
      if w.address == submitter
      then pure tt
      else send network
          (transfer_wallet mode chain w.address submitter (submitter_gas_floor_micros - balance))
        >>= λ _. pure tt

  unfoldable pub ensure_on_arc : String → PaymentMode → PaymentChain → String → Io (Unit {0})
  ensure_on_arc org_id mode chain submitter = do
    balance ← ask (network.balance_micros submitter chain mode)
    treasury ← query (org_wallet org_id mode chain)
    if leb submitter_gas_floor_micros balance
        then pure tt
        else top_up_arc mode chain submitter balance treasury

  -- Nothing is done where the chain has no RPC url, on other chains, or on Base in live mode.
  unfoldable pub ensure_submitter_gas_floor :
      (org_id submitter_address : String) → PaymentChain → PaymentMode → Io (Unit {0})
  ensure_submitter_gas_floor org_id submitter chain mode =
      if not (is_some (chain_rpc_url network.arc_rpc_url network.base_sepolia_rpc_url chain))
      then pure tt
      else if chain == base
      then if mode == test then ensure_on_base org_id mode chain submitter else pure tt
      else if chain == arc
      then ensure_on_arc org_id mode chain submitter
      else pure tt

abbrev pub address_of : Option WalletRow → Option String
address_of none = none
address_of (some w) = some w.address

abbrev pub payee_wallet :
    Option String → PaymentMode → PaymentChain → DelegationsDb → Option WalletRow
payee_wallet none mode chain db = none
payee_wallet (some agent_id) mode chain db = agent_wallet agent_id mode chain db

abbrev pub or_else {ℓ} : {A : Type ℓ} → Option A → Option A → Option A
or_else none second = second
or_else (some a) second = some a

-- The payer, else the wallet of the payee's agent, else the wallet of the organisation.
unfoldable pub resolve_permit_submitter :
    (org_id : String)
    → PaymentMode
    → PaymentChain
    → (payer_address : String) → (payer_is_platform_controlled : Bool)
    → (payee_agent_id : Option String) → Io String
resolve_permit_submitter org_id mode chain payer controlled payee_agent_id =
    if controlled then pure payer else (do
      payee ← query (λ db. address_of (payee_wallet payee_agent_id mode chain db))
      org ← query (λ db. address_of (org_wallet org_id mode chain db))
      or_throw (error "permit_submitter_unavailable") (or_else payee org))
