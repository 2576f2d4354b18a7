-- ===== src/Payments/Permit2/Delegations/Recorded.antt =====
-- What the recording of a signed delegation does when it succeeds.
use aops_pmoa.Prelude.{
  ℕ, ◌/◌, ◌<◌, ◌≡◌, refl, sym, ap, ◌∙◌, String, Bool, false, not, Option, none, some, List, [], ◌∷◌,
  ◌++◌, arith, ◌==◌, text_comparable, any, Result, ok, is_some,
}
use aops_pmoa.Payments.Types.{mode_comparable}
use aops_pmoa.Payments.Money.{parse_usdc_micros}
use aops_pmoa.Payments.Permit2.Types.{
  PayerKind, treasury, payer_kind_comparable, delegation_status_comparable, chain_comparable,
  AgentDelegationRow, DelegationsDb, Call, sign, World, Network, ◌>>=◌,
}
use aops_pmoa.Payments.Permit2.Ceilings.{PayerScope, assert_delegation_within_ceilings}
use aops_pmoa.Payments.Permit2.Gas.{ensure_submitter_gas_floor, resolve_permit_submitter}
use aops_pmoa.Payments.Permit2.Effects.{
  then-eq-ok, Keeps, then-Keeps, Keeps-eq, if-Keeps, read_permit2_nonce-Keeps,
  ensure_submitter_gas_floor-Keeps, resolve_permit_submitter-Keeps,
}
use aops_pmoa.Payments.Permit2.Inputs.{
  permit2_domain_chain_id, build_permit_single, parse_amount, UserSigned,
  RecordSignedDelegationInput, or_default, resolve_payer,
}
use aops_pmoa.Payments.Permit2.Rows.{scope_of, delegation_row, insert_delegation}
use aops_pmoa.Payments.Permit2.Delegations.{
  check_ceilings, nonce_for, signature_for, token_for, submit_permit, record_for_payer,
  record_signed_delegation,
}
use aops_pmoa.Payments.Permit2.Delegations.Bounds.{with_transaction-eq-ok}

abbrev pub appended : AgentDelegationRow → DelegationsDb → DelegationsDb
appended row db = record db { delegations = db.delegations ++ row ∷ [] }

abbrev pub has_row : String → DelegationsDb → Bool
has_row id db = any (λ (e : AgentDelegationRow). e.id == id) db.delegations

appended-same :
    (row row' : AgentDelegationRow) (db db' final : DelegationsDb)
    → row ≡ row'
    → db ≡ db'
    → final ≡ appended row' db
    → final ≡ appended row db'
appended-same row row' db db' final e k h = rw (e, sym k) h

pub insert_delegation-eq-ok :
    (d : AgentDelegationRow) (w w' : World) (row : AgentDelegationRow)
    → insert_delegation d w ≡ (ok row, w')
    → (row ≡ d) × (w'.db ≡ appended d w.db) × (has_row d.id w.db ≡ false) × (0 < d.ceiling_usdc)
unfolding insert_delegation
insert_delegation-eq-ok d w w' row e = ground arith

resolve_payer-Keeps : (input : RecordSignedDelegationInput) → Keeps (resolve_payer input)
unfolding resolve_payer
resolve_payer-Keeps input w = ground arith

assert-Keeps :
    (now : ℕ) (scope : PayerScope) (ceiling : ℕ) (read : List Call → Result ℕ)
    → Keeps (assert_delegation_within_ceilings now scope ceiling read)
unfolding assert_delegation_within_ceilings
assert-Keeps now scope ceiling read w = ground arith

module _ (network : Network) (now : ℕ) (input : RecordSignedDelegationInput) where
  check_ceilings-Keeps :
      (payer token : String) (kind : PayerKind) (ceiling : ℕ)
      → Keeps (check_ceilings network now input payer token kind ceiling)
  check_ceilings-Keeps payer token kind ceiling =
      if-Keeps (kind == treasury) _ _
        (assert-Keeps now (scope_of input payer token) ceiling (
          or_default input.read_payer_balance_micros network.balance_micros payer input.chain
            input.mode))
        (λ w. refl)

  nonce_for-Keeps :
      (payer token : String) (signed : Option UserSigned)
      → Keeps (nonce_for network now input payer token signed)
  nonce_for-Keeps payer token none w =
      read_permit2_nonce-Keeps network payer token input.payee_address input.chain w
  nonce_for-Keeps payer token (some signed) w = refl

  signature_for-Keeps :
      (payer token : String) (ceiling nonce : ℕ) (signed : Option UserSigned)
      → Keeps (signature_for network now input payer token ceiling nonce signed)
  signature_for-Keeps payer token ceiling nonce (some signed) w = refl
  signature_for-Keeps payer token ceiling nonce none w = ground (
    arith,
    ensure_submitter_gas_floor-Keeps network input.org_id payer input.chain input.mode (record w {
      calls =
          w.calls
          ++ sign input.mode input.chain payer (
              build_permit_single (permit2_domain_chain_id input.chain) token input.payee_address
                ceiling (input.expires_at / 1000000) nonce)
            ∷ [];
    }),
  )

  submit_permit-Keeps :
      (payer : String) (ceiling nonce : ℕ) (signature : String)
      → Keeps (submit_permit network now input payer ceiling nonce signature)
  unfolding submit_permit
  submit_permit-Keeps payer ceiling nonce signature =
      then-Keeps
        (resolve_permit_submitter input.org_id input.mode input.chain payer
          (not (is_some input.user_signed)) input.payee_agent_id)
        _
        (resolve_permit_submitter-Keeps input.org_id input.mode input.chain payer
          (not (is_some input.user_signed)) input.payee_agent_id)
        (λ submitter.
          then-Keeps
            (ensure_submitter_gas_floor network input.org_id submitter input.chain input.mode) _
            (ensure_submitter_gas_floor-Keeps network input.org_id submitter input.chain input.mode)
            (λ t w. ground arith))

  -- What a recording writes for a payer: one new row, of a positive ceiling that was read from the
  -- input, once the ceilings were checked.
  abbrev pub Records : (new_id : String) → (w w' : World) → AgentDelegationRow → Type 0
  Records new_id w w' row =
      (payer : String × PayerKind) × (ceiling : ℕ) × (nonce : ℕ) × (signature : String) × (row
        ≡ delegation_row new_id input payer (token_for network now input) ceiling nonce signature)
      × (parse_usdc_micros input.ceiling_usdc ≡ some ceiling)
      × (0 < ceiling)
      × (w'.db ≡ appended row w.db)
      × (has_row new_id w.db ≡ false)
      × ((u : World) × (v : World) × (u.db ≡ w.db)
          × (check_ceilings network now input payer.0 (token_for network now input) payer.1 ceiling
                u
              ≡ (ok tt, v)))

  pub parse_amount-eq-ok :
      (raw : List ℕ) (w w' : World) (amount : ℕ)
      → parse_amount raw w ≡ (ok amount, w')
      → (parse_usdc_micros raw ≡ some amount) × (w' ≡ w)
  parse_amount-eq-ok raw w w' amount e = ground arith

  record_for_payer-eq-ok :
      (new_id : String) (payer : String × PayerKind) (w w' : World) (row : AgentDelegationRow)
      → record_for_payer network now new_id input payer w ≡ (ok row, w')
      → Records new_id w w' row
  unfolding record_for_payer
  record_for_payer-eq-ok new_id payer w w' row e =
      let token : String = token_for network now input in
      let (ceiling, w1, read, e1) = then-eq-ok (parse_amount input.ceiling_usdc) _ w e in
      let (parsed, same) = parse_amount-eq-ok input.ceiling_usdc w w1 ceiling read in
      let checks = check_ceilings network now input payer.0 token payer.1 ceiling in
      let (t, w2, checked, e2) = then-eq-ok checks _ w1 e1 in
      let nonces = nonce_for network now input payer.0 token input.user_signed in
      let (nonce, w3, numbered, e3) = then-eq-ok nonces _ w2 e2 in
      let signs = signature_for network now input payer.0 token ceiling nonce input.user_signed in
      let (signature, w4, signed, e4) = then-eq-ok signs _ w3 e3 in
      let submits = submit_permit network now input payer.0 ceiling nonce signature in
      let (s, w5, submitted, e5) = then-eq-ok submits _ w4 e4 in
      let row' = delegation_row new_id input payer token ceiling nonce signature in
      let (made, written, fresh, positive) = insert_delegation-eq-ok row' w5 w' row e5 in
      let kept : w5.db ≡ w.db =
        Keeps-eq submits (submit_permit-Keeps payer.0 ceiling nonce signature) submitted
        ∙ Keeps-eq signs (signature_for-Keeps payer.0 token ceiling nonce input.user_signed) signed
        ∙ Keeps-eq nonces (nonce_for-Keeps payer.0 token input.user_signed) numbered
        ∙ Keeps-eq checks (check_ceilings-Keeps payer.0 token payer.1 ceiling) checked
        ∙ ap (λ y. y.db) same in
      (
        payer,
        ceiling,
        nonce,
        signature,
        made,
        parsed,
        positive,
        appended-same row row' w5.db w.db w'.db made kept written,
        sym (ap (has_row new_id) kept) ∙ fresh,
        (w1, w2, ap (λ y. y.db) same, checked),
      )

  pub record_signed_delegation-eq-ok :
      (new_id : String) (w w' : World) (row : AgentDelegationRow)
      → record_signed_delegation network now new_id input w ≡ (ok row, w')
      → Records new_id w w' row
  unfolding record_signed_delegation
  record_signed_delegation-eq-ok new_id w w' row e =
      let body =
        with_transaction-eq-ok (resolve_payer input >>= record_for_payer network now new_id input) w
          e in
      let (payer, u, resolved, rest) =
        then-eq-ok (resolve_payer input) (record_for_payer network now new_id input) w body in
      let kept : u.db ≡ w.db =
        Keeps-eq (resolve_payer input) (resolve_payer-Keeps input) resolved in
      let (p, c, n, s, made, parsed, positive, written, fresh, (x, y, same, checked)) =
        record_for_payer-eq-ok new_id payer u w' row rest in
      (
        p,
        c,
        n,
        s,
        made,
        parsed,
        positive,
        written ∙ ap (appended row) kept,
        sym (ap (has_row new_id) kept) ∙ fresh,
        (x, y, same ∙ kept, checked),
      )
