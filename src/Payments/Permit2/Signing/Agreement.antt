-- ===== src/Payments/Permit2/Signing/Agreement.antt =====
-- What a user signs, and what recordSignedDelegation of permit2.ts submits for the user.
use aops_pmoa.Prelude.{
  ℕ, ◌/◌, ◌≡◌, refl, sym, ap, ◌∙◌, String, false, not, Option, none, some, List, [], ◌∷◌, ◌++◌,
  arith, is_some, ok,
}
use aops_pmoa.Payments.Money.{parse_usdc_micros, decimal, decimal_value}
use aops_pmoa.Payments.Money.RoundTrip.{decimal_value-decimal}
use aops_pmoa.Payments.Permit2.Types.{
  PayerKind, user, PermitSingle, AgentDelegationRow, permit, Call, execute, World, Network, ◌>>=◌,
}
use aops_pmoa.Payments.Permit2.Gas.{
  read_permit2_nonce, ensure_submitter_gas_floor, resolve_permit_submitter,
}
use aops_pmoa.Payments.Permit2.Inputs.{
  build_permit_single, parse_amount, RecordSignedDelegationInput, resolve_payer,
}
use aops_pmoa.Payments.Permit2.Rows.{delegation_row, insert_delegation}
use aops_pmoa.Payments.Permit2.Delegations.{
  token_for, submit_permit, record_for_payer, record_signed_delegation,
}
use aops_pmoa.Payments.Permit2.Effects.{then-eq-ok}
use aops_pmoa.Payments.Permit2.Delegations.Bounds.{with_transaction-eq-ok}
use aops_pmoa.Payments.Permit2.Delegations.Recorded.{parse_amount-eq-ok}
use aops_pmoa.Payments.Permit2.Signing.{
  BuildUserDelegationTypedDataInput, UserDelegationTypedData, token_of, typed_data_of,
  build_user_delegation_typed_data,
}

insert_delegation-calls :
    (d : AgentDelegationRow) (w w' : World) (row : AgentDelegationRow)
    → insert_delegation d w ≡ (ok row, w')
    → w'.calls ≡ w.calls
unfolding insert_delegation
insert_delegation-calls d w w' row e = ground arith

module _ (network : Network) (now : ℕ) where
  -- The recording of what a user signed, for the same delegation as the data was built for.
  abbrev pub signed_input :
      BuildUserDelegationTypedDataInput
      → (payee_agent_id : Option String) → (approved_by signature : String) → (nonce : ℕ)
      → RecordSignedDelegationInput
  signed_input built payee_agent_id approved_by signature nonce = record {
    org_id = built.org_id;
    payer_agent_id = none;
    payee_agent_id = payee_agent_id;
    payer_treasury = false;
    payee_address = built.payee_address;
    mode = built.mode;
    chain = built.chain;
    token_address = built.token_address;
    ceiling_usdc = built.ceiling_usdc;
    expires_at = built.expires_at;
    approved_by = approved_by;
    read_payer_balance_micros = none;
    user_signed =
        some (record { payer_address = built.payer_address; signature = signature; nonce = nonce });
  }

  -- The tuple of the permit that is submitted.
  abbrev permit_of : RecordSignedDelegationInput → (ceiling nonce : ℕ) → PermitSingle
  permit_of input ceiling nonce = record {
    token = token_for network now input;
    amount = ceiling;
    expiration = input.expires_at / 1000000;
    nonce = nonce;
    spender = input.payee_address;
    sig_deadline = input.expires_at / 1000000;
  }

  -- The message that is signed is the tuple.
  message-eq :
      (built : BuildUserDelegationTypedDataInput) (payee_agent_id : Option String)
      (approved_by signature : String) (ceiling nonce : ℕ)
      → permit_of (signed_input built payee_agent_id approved_by signature nonce) ceiling nonce
        ≡ (typed_data_of network built ceiling nonce).message
  unfolding build_permit_single
  message-eq built payee_agent_id approved_by signature ceiling nonce = refl

  submit_permit-calls :
      (input : RecordSignedDelegationInput) (payer : String) (ceiling nonce : ℕ)
      (signature : String) (w w' : World)
      → submit_permit network now input payer ceiling nonce signature w ≡ (ok tt, w')
      → (before : List Call) × (submitter : String) × (w'.calls
          ≡ before
            ++ execute input.mode input.chain submitter
                (permit payer (permit_of input ceiling nonce) signature)
              ∷ [])
  unfolding submit_permit
  submit_permit-calls input payer ceiling nonce signature w w' e =
      let (submitter, u, resolved, e1) =
        then-eq-ok
          (resolve_permit_submitter input.org_id input.mode input.chain payer
            (not (is_some input.user_signed)) input.payee_agent_id)
          _ w e in
      let (t, v, funded, e2) =
        then-eq-ok
          (ensure_submitter_gas_floor network input.org_id submitter input.chain input.mode) _ u
          e1 in
      (v.calls, submitter, ground arith)

  -- The last call of a recording for a user is the permit that the user signed.
  record_signed-calls :
      (built : BuildUserDelegationTypedDataInput) (payee_agent_id : Option String)
      (approved_by signature : String) (nonce : ℕ) (new_id : String) (w w' : World)
      (row : AgentDelegationRow)
      → record_signed_delegation network now new_id
          (signed_input built payee_agent_id approved_by signature nonce)
          w
        ≡ (ok row, w')
      → (ceiling : ℕ) × (parse_usdc_micros built.ceiling_usdc ≡ some ceiling)
        × ((before : List Call) × (submitter : String) × (w'.calls
              ≡ before
                ++ execute built.mode built.chain submitter (
                    permit built.payer_address
                      (typed_data_of network built ceiling nonce).message
                      signature)
                  ∷ []))
  unfolding record_signed_delegation resolve_payer record_for_payer
  record_signed-calls built payee_agent_id approved_by signature nonce new_id w w' row e =
      let input = signed_input built payee_agent_id approved_by signature nonce in
      let payer : String × PayerKind = (built.payer_address, user) in
      let body =
        with_transaction-eq-ok (resolve_payer input >>= record_for_payer network now new_id input) w
          e in
      let (ceiling, u, read, rest) = then-eq-ok (parse_amount built.ceiling_usdc) _ w body in
      let (parsed, same) =
        parse_amount-eq-ok network now input built.ceiling_usdc w u ceiling read in
      let (t, v, submitted, inserted) =
        then-eq-ok (submit_permit network now input built.payer_address ceiling nonce signature) _ u
          rest in
      let (before, submitter, called) =
        submit_permit-calls input built.payer_address ceiling nonce signature u v submitted in
      (
        ceiling,
        parsed,
        (
          before,
          submitter,
          insert_delegation-calls
                (delegation_row new_id input payer (token_for network now input) ceiling nonce
                  signature)
                v w' row inserted
              ∙ called
              ∙ ap
                  (λ m.
                    before
                    ++ execute built.mode built.chain submitter
                        (permit built.payer_address m signature)
                      ∷ [])
                  (message-eq built payee_agent_id approved_by signature ceiling nonce),
        ),
      )

  build-eq-ok :
      (built : BuildUserDelegationTypedDataInput) (w w' : World) (payload : UserDelegationTypedData)
      → build_user_delegation_typed_data network built w ≡ (ok payload, w')
      → (ceiling : ℕ) × (nonce : ℕ) × (parse_usdc_micros built.ceiling_usdc ≡ some ceiling)
        × (payload.typed_data ≡ typed_data_of network built ceiling nonce)
        × (payload.nonce ≡ decimal nonce)
  unfolding build_user_delegation_typed_data
  build-eq-ok built w w' payload e =
      let input = signed_input built none "" "" 0 in
      let (ceiling, u, read, rest) = then-eq-ok (parse_amount built.ceiling_usdc) _ w e in
      let (parsed, same) =
        parse_amount-eq-ok network now input built.ceiling_usdc w u ceiling read in
      let (nonce, v, asked, given) =
        then-eq-ok
          (read_permit2_nonce network built.payer_address (token_of network built)
            built.payee_address built.chain)
          _ u rest in
      (ceiling, nonce, parsed, ground arith, ground arith)

  -- Where data was built for a user to sign, and the signature is recorded with the nonce of that data,
  -- for the same delegation and whatever happened in between: the last call of the recording submits
  -- exactly the message of that data, with the signature.
  pub signed-eq-submitted :
      (built : BuildUserDelegationTypedDataInput) (payee_agent_id : Option String)
      (approved_by signature : String) (nonce : ℕ) (new_id : String) (w0 w1 w w' : World)
      (payload : UserDelegationTypedData) (row : AgentDelegationRow)
      → build_user_delegation_typed_data network built w0 ≡ (ok payload, w1)
      → payload.nonce ≡ decimal nonce
      → record_signed_delegation network now new_id
          (signed_input built payee_agent_id approved_by signature nonce)
          w
        ≡ (ok row, w')
      → (before : List Call) × (submitter : String) × (w'.calls
          ≡ before
            ++ execute built.mode built.chain submitter
                (permit built.payer_address payload.typed_data.message signature)
              ∷ [])
  signed-eq-submitted built payee_agent_id approved_by signature nonce new_id w0 w1 w w' payload row
        b n e =
      let (ceiling, read, parsed, made, text) = build-eq-ok built w0 w1 payload b in
      let (ceiling', parsed', (before, submitter, called)) =
        record_signed-calls built payee_agent_id approved_by signature nonce new_id w w' row e in
      let same_nonce : read ≡ nonce =
        sym (decimal_value-decimal read)
        ∙ ap (decimal_value 0) (sym text ∙ n)
        ∙ decimal_value-decimal nonce in
      let same_ceiling : ceiling ≡ ceiling' = ground arith in
      let message : payload.typed_data ≡ typed_data_of network built ceiling' nonce =
        made
        ∙ ap (λ c. typed_data_of network built c read) same_ceiling
        ∙ ap (typed_data_of network built ceiling') same_nonce in
      (
        before,
        submitter,
        called
            ∙ ap
                (λ t.
                  before
                  ++ execute built.mode built.chain submitter
                      (permit built.payer_address t.message signature)
                    ∷ [])
                (sym message),
      )
