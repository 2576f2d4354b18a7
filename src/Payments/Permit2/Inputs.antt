-- ===== src/Payments/Permit2/Inputs.antt =====
-- What permit2.ts reads for a new delegation: its payer, its amount and the data that is signed.
use aops_pmoa.Prelude.{
  ℕ, String, Bool, Option, none, some, List, if◌then◌else◌, text_comparable, error, bad_request,
  Result,
}
use aops_pmoa.Payments.Types.{
  PaymentMode, PaymentChain, base, arbitrum, polygon, optimism, avalanche, arc, mode_comparable,
}
use aops_pmoa.Payments.Money.{parse_usdc_micros}
use aops_pmoa.Payments.Permit2.Types.{
  delegation_status_comparable, PayerKind, user, agent, treasury, payer_kind_comparable,
  chain_comparable, TypedData, Call, Io, ◌>>=◌, pure, throw, query, or_throw,
}
use aops_pmoa.Payments.Permit2.Gas.{address_of, org_wallet, agent_wallet}

abbrev pub permit2_address : String
permit2_address = "0x000000000022D473030F116dDEE9F6B43aC78BA3"

abbrev pub permit2_domain_chain_id : PaymentChain → ℕ
permit2_domain_chain_id arc = 5042002
permit2_domain_chain_id base = 84532
permit2_domain_chain_id arbitrum = 421614
permit2_domain_chain_id polygon = 80002
permit2_domain_chain_id optimism = 11155420
permit2_domain_chain_id avalanche = 43113

-- The typed data carries the permit; the type tree and the domain's name are constant.
unfoldable pub build_permit_single :
    (chain_id : ℕ)
    → (token_address spender_address : String) → (amount_micros expiration nonce : ℕ) → TypedData
build_permit_single chain_id token spender amount expiration nonce = record {
  chain_id = chain_id;
  message = record {
    token = token;
    amount = amount;
    expiration = expiration;
    nonce = nonce;
    spender = spender;
    sig_deadline = expiration;
  };
}

-- An amount in text: the characters of it.
abbrev pub parse_amount : List ℕ → Io ℕ
parse_amount raw = or_throw (bad_request "invalid_usdc_amount") (parse_usdc_micros raw)

pub record UserSigned : Type 0 where
  pub payer_address : String
  pub signature : String
  pub nonce : ℕ

pub record RecordSignedDelegationInput : Type 0 where
  pub org_id : String
  pub payer_agent_id : Option String
  pub payee_agent_id : Option String
  pub payer_treasury : Bool
  pub payee_address : String
  pub mode : PaymentMode
  pub chain : PaymentChain
  pub token_address : Option String
  pub ceiling_usdc : List ℕ
  pub expires_at : ℕ
  pub approved_by : String
  pub read_payer_balance_micros :
      Option (String → PaymentChain → PaymentMode → List Call → Result ℕ)
  pub user_signed : Option UserSigned

abbrev pub or_default {ℓ} : {A : Type ℓ} → Option A → A → A
or_default none a = a
or_default (some b) a = b

abbrev pub agent_payer : RecordSignedDelegationInput → Option String → Io (String × PayerKind)
agent_payer input none = throw (error "delegation_payer_required")
agent_payer input (some id) = do
  address ← query (λ db. address_of (agent_wallet id input.mode input.chain db))
  found ← or_throw (error "agent_wallet_not_found") address
  pure (found, agent)

abbrev pub treasury_payer : RecordSignedDelegationInput → Io (String × PayerKind)
treasury_payer input = do
  address ← query (λ db. address_of (org_wallet input.org_id input.mode input.chain db))
  found ← or_throw (error "org_treasury_wallet_not_found") address
  pure (found, treasury)

abbrev pub payer_from : RecordSignedDelegationInput → Option UserSigned → Io (String × PayerKind)
payer_from input (some signed) = pure (signed.payer_address, user)
payer_from input none =
    if input.payer_treasury then treasury_payer input else agent_payer input input.payer_agent_id

-- The three kinds of payer.
unfoldable pub resolve_payer : RecordSignedDelegationInput → Io (String × PayerKind)
resolve_payer input = payer_from input input.user_signed
