-- ===== src/Payments/Permit2/Signing.antt =====
-- buildUserDelegationTypedData of permit2.ts: the data that a user signs in the browser. The seconds of
-- the expiry are whole, and the nonce is handed out as a text.
pub mod Agreement
use aops_pmoa.Prelude.{ℕ, ◌/◌, String, Option, List}
use aops_pmoa.Payments.Types.{PaymentMode, PaymentChain}
use aops_pmoa.Payments.Money.{decimal}
use aops_pmoa.Payments.Permit2.Types.{TypedData, World, Network, Io, ◌>>=◌, ◌>>◌, pure}
use aops_pmoa.Payments.Permit2.Gas.{read_permit2_nonce}
use aops_pmoa.Payments.Permit2.Inputs.{
  permit2_address, permit2_domain_chain_id, build_permit_single, parse_amount, or_default,
}

pub record BuildUserDelegationTypedDataInput : Type 0 where
  pub org_id : String
  pub payer_address : String
  pub payee_address : String
  pub mode : PaymentMode
  pub chain : PaymentChain
  pub token_address : Option String
  pub ceiling_usdc : List ℕ
  pub expires_at : ℕ

pub record UserDelegationTypedData : Type 0 where
  pub typed_data : TypedData
  pub nonce : List ℕ
  pub token_address : String
  pub permit2_address : String

module _ (network : Network) where
  abbrev pub token_of : BuildUserDelegationTypedDataInput → String
  token_of input =
      or_default input.token_address (network.usdc_token_address input.mode input.chain)

  abbrev pub typed_data_of : BuildUserDelegationTypedDataInput → (ceiling nonce : ℕ) → TypedData
  typed_data_of input ceiling nonce =
      build_permit_single (permit2_domain_chain_id input.chain) (token_of input) input.payee_address
        ceiling (input.expires_at / 1000000) nonce

  unfoldable pub build_user_delegation_typed_data :
      BuildUserDelegationTypedDataInput → Io UserDelegationTypedData
  build_user_delegation_typed_data input = do
    ceiling ← parse_amount input.ceiling_usdc
    nonce ←
        read_permit2_nonce network input.payer_address (token_of input) input.payee_address
          input.chain
    pure (record {
      typed_data = typed_data_of input ceiling nonce;
      nonce = decimal nonce;
      token_address = token_of input;
      permit2_address = permit2_address;
    })
