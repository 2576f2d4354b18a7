-- ===== src/Payments/Permit2/Delegations.antt =====
-- The operations of apps/api/src/engines/payments/permit2.ts on delegations: recording a signed one,
-- drawing from it and revoking it, each in one transaction. `now` is the time of the transaction,
-- in whole microseconds; new ids are arguments.
pub mod Bounds
pub mod Recorded
pub mod Headroom
pub mod Terms
pub mod Runs
pub mod Revoked
use aops_pmoa.Prelude.{
  ℕ, ◌+◌, ◌-◌, ◌/◌, String, Bool, true, false, not, ◌&&◌, Option, none, some, List, [], ◌∷◌, ◌++◌,
  leb, ltb, nat_beq, if◌then◌else◌, ◌==◌, text_comparable, holds, is_some, any, find?, filter, map,
  update_where, error, conflict, bad_request, Result,
}
use aops_pmoa.Payments.Types.{PaymentMode, PaymentChain, mode_comparable}
use aops_pmoa.Payments.Money.{parse_usdc_micros, format_usdc}
use aops_pmoa.Payments.Permit2.Types.{
  DelegationStatus, active, exhausted, revoked, delegation_status_comparable, PayerKind, user,
  agent, treasury, payer_kind_comparable, chain_comparable, AgentDelegationRow, submitted,
  confirmed, DrawdownRow, DelegationsDb, PermitSingle, TypedData, ContractCall, approve, permit,
  transfer_from, lockdown, Call, execute, sign, World, Network, Io, ◌>>=◌, ◌>>◌, pure, throw,
  throw_if, query, ask, update, or_throw, send, with_transaction,
}
use aops_pmoa.Payments.Permit2.Ceilings.{
  PayerScope, outstanding_headroom, assert_delegation_within_ceilings,
}
use aops_pmoa.Payments.Permit2.Gas.{
  read_permit2_nonce, ensure_submitter_gas_floor, resolve_permit_submitter,
}
use aops_pmoa.Payments.Permit2.Inputs.{
  permit2_domain_chain_id, build_permit_single, parse_amount, UserSigned,
  RecordSignedDelegationInput, or_default, resolve_payer,
}
use aops_pmoa.Payments.Permit2.Rows.{
  scope_of, delegation_row, insert_delegation, DrawDownInput, has_id, with_drawn, insert_drawdown,
  locked, set_revoked, platform_controls_payer,
}

module _ (network : Network) (now : ℕ) where
  -- Only a delegation from the treasury is bounded.
  abbrev pub check_ceilings :
      RecordSignedDelegationInput → (payer token : String) → PayerKind → ℕ → Io (Unit {0})
  check_ceilings input payer token kind ceiling =
      if kind == treasury
      then assert_delegation_within_ceilings now (scope_of input payer token) ceiling (
          or_default input.read_payer_balance_micros network.balance_micros payer input.chain
            input.mode)
      else pure tt

  abbrev pub nonce_for :
      RecordSignedDelegationInput → (payer token : String) → Option UserSigned → Io ℕ
  nonce_for input payer token (some signed) = pure signed.nonce
  nonce_for input payer token none =
      read_permit2_nonce network payer token input.payee_address input.chain

  -- The signature: the user's own, or one of the platform, with the approval of the token.
  abbrev pub signature_for :
      RecordSignedDelegationInput
      → (payer token : String) → (ceiling nonce : ℕ) → Option UserSigned
      → Io String
  signature_for input payer token ceiling nonce (some signed) = pure signed.signature
  signature_for input payer token ceiling nonce none = do
    signature ← send network (
        sign input.mode input.chain payer (
          build_permit_single (permit2_domain_chain_id input.chain) token input.payee_address
            ceiling (input.expires_at / 1000000) nonce))
    headroom ← query (outstanding_headroom now (scope_of input payer token))
    ensure_submitter_gas_floor network input.org_id payer input.chain input.mode
    send network (execute input.mode input.chain payer (approve (headroom + ceiling) token))
    pure signature

  abbrev pub token_for : RecordSignedDelegationInput → String
  token_for input =
      or_default input.token_address (network.usdc_token_address input.mode input.chain)

  -- The calls that put the permit on the chain, once it is signed.
  unfoldable pub submit_permit :
      RecordSignedDelegationInput → (payer : String) → (ceiling nonce : ℕ) → String → Io (Unit {0})
  submit_permit input payer ceiling nonce signature = do
    submitter ←
        resolve_permit_submitter input.org_id input.mode input.chain payer
          (not (is_some input.user_signed)) input.payee_agent_id
    ensure_submitter_gas_floor network input.org_id submitter input.chain input.mode
    send network (
        execute input.mode input.chain submitter (
          permit payer
            (record {
              token = token_for input;
              amount = ceiling;
              expiration = input.expires_at / 1000000;
              nonce = nonce;
              spender = input.payee_address;
              sig_deadline = input.expires_at / 1000000;
            })
            signature))
    pure tt

  -- The body, once the payer is known.
  unfoldable pub record_for_payer :
      String → RecordSignedDelegationInput → String × PayerKind → Io AgentDelegationRow
  record_for_payer new_id input payer = do
    ceiling ← parse_amount input.ceiling_usdc
    check_ceilings input payer.0 (token_for input) payer.1 ceiling
    nonce ← nonce_for input payer.0 (token_for input) input.user_signed
    signature ← signature_for input payer.0 (token_for input) ceiling nonce input.user_signed
    submit_permit input payer.0 ceiling nonce signature
    insert_delegation (delegation_row new_id input payer (token_for input) ceiling nonce signature)

  unfoldable pub record_signed_delegation :
      (new_id : String) → RecordSignedDelegationInput → Io AgentDelegationRow
  record_signed_delegation new_id input =
      with_transaction (resolve_payer input >>= record_for_payer new_id input)

  -- The tests that a locked delegation passes before anything is sent.
  unfoldable pub check_draw : AgentDelegationRow → List ℕ → Io ℕ
  check_draw d amount_usdc = do
    throw_if (d.status == revoked) (conflict "delegation_revoked")
    throw_if (not (d.status == active)) (conflict "delegation_not_active")
    throw_if (leb d.expires_at now) (conflict "delegation_expired")
    amount ← parse_amount amount_usdc
    throw_if (ltb d.ceiling_usdc (d.drawn_usdc + amount)) (conflict "delegation_ceiling_exceeded")
    pure amount

  -- The transfer, and what is written after it.
  unfoldable pub transfer_drawn : (new_id : String) → AgentDelegationRow → ℕ → Io (String × List ℕ)
  transfer_drawn new_id d amount = do
    tx_hash ← send network (
        execute d.mode d.chain d.payee_address
          (transfer_from d.payer_address d.payee_address amount d.token_address))
    update (with_drawn d new_id tx_hash amount)
    pure (tx_hash, format_usdc (d.drawn_usdc + amount))

  unfoldable pub draw_locked :
      (new_id : String) → List ℕ → AgentDelegationRow → Io (String × List ℕ)
  draw_locked new_id amount_usdc d = do
    amount ← check_draw d amount_usdc
    ensure_submitter_gas_floor network d.org_id d.payee_address d.chain d.mode
    insert_drawdown new_id d.id amount
    transfer_drawn new_id d amount

  -- The transaction hash, and the amount that is drawn now.
  unfoldable pub draw_down : (new_id : String) → DrawDownInput → Io (String × List ℕ)
  draw_down new_id input =
      with_transaction (locked input.delegation_id >>= draw_locked new_id input.amount_usdc)

module _ (network : Network) where
  abbrev pub lock_down : AgentDelegationRow → Io (Unit {0})
  lock_down d =
      if platform_controls_payer d
      then (send network
            (execute d.mode d.chain d.payer_address (lockdown d.token_address d.payee_address))
          >>= λ _. pure tt)
      else pure tt

  abbrev pub revoke_locked : AgentDelegationRow → Io Bool
  revoke_locked d = if d.status == revoked then pure (platform_controls_payer d) else (do
    lock_down d
    update (λ db. record db { delegations = update_where (has_id d.id) set_revoked db.delegations })
    pure (platform_controls_payer d))

  -- Whether the allowance on the chain is revoked too.
  unfoldable pub revoke_delegation : (delegation_id : String) → Io Bool
  revoke_delegation id = with_transaction (locked id >>= revoke_locked)
