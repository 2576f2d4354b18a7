-- ===== src/Payments/Permit2/Delegations/Headroom.antt =====
-- The headroom of the treasury after a new delegation.
use aops_pmoa.Prelude.{
  ℕ, ◌+◌, ◌≤◌, ◌≡◌, sym, ap, ◌∙◌, inl, inr, String, Bool, false, Option, List, [], ◌∷◌, ◌++◌, arith,
  ltb, text_comparable, holds, Result, ok, Result-cases,
}
use aops_pmoa.Payments.Types.{mode_comparable}
use aops_pmoa.Payments.Permit2.Types.{
  PayerKind, treasury, payer_kind_comparable, delegation_status_comparable, chain_comparable,
  AgentDelegationRow, DelegationsDb, Call, World, Network,
}
use aops_pmoa.Payments.Permit2.Ceilings.{
  PayerScope, is_live, headroom_of, outstanding_headroom, org_ceiling,
  assert_delegation_within_ceilings,
}
use aops_pmoa.Payments.Permit2.Inputs.{RecordSignedDelegationInput, or_default}
use aops_pmoa.Payments.Permit2.Rows.{scope_of}
use aops_pmoa.Payments.Permit2.Delegations.{check_ceilings, token_for, record_signed_delegation}
use aops_pmoa.Payments.Permit2.Delegations.Recorded.{appended, record_signed_delegation-eq-ok}

headroom_of-append :
    (is_counted : AgentDelegationRow → Bool) (ds : List AgentDelegationRow) (d : AgentDelegationRow)
    → headroom_of is_counted (ds ++ d ∷ []) ≤ headroom_of is_counted ds + d.ceiling_usdc
unfolding headroom_of
headroom_of-append is_counted [] d = ground arith
headroom_of-append is_counted (e ∷ ds) d = ground (arith, headroom_of-append is_counted ds d)

-- The bounds that hold when the check of a new ceiling succeeds.
abbrev pub IsCovered : (List Call → Result ℕ) → (cap : Option ℕ) → (total : ℕ) → Type 0
IsCovered read cap total =
    (holds (λ c. ltb c total) cap ≡ false)
    × ((calls : List Call) × (balance : ℕ) × (read calls ≡ ok balance) × (total ≤ balance))

assert-eq-ok :
    (now : ℕ) (scope : PayerScope) (ceiling : ℕ) (read : List Call → Result ℕ) (w w' : World)
    → assert_delegation_within_ceilings now scope ceiling read w ≡ (ok tt, w')
    → IsCovered read
        (org_ceiling scope.org_id scope.mode scope.chain w.db)
        (outstanding_headroom now scope w.db + ceiling)
unfolding assert_delegation_within_ceilings
assert-eq-ok now scope ceiling read w w' e = elim (Result-cases (read w.calls)) [
  | inl (balance, answered) ↦ (ground arith, (w.calls, balance, answered, ground arith))
  | inr (failure, failed) ↦ absurd (ground arith)
]

IsCovered-less :
    (read : List Call → Result ℕ) (cap : Option ℕ) (total less : ℕ)
    → less ≤ total
    → IsCovered read cap total
    → IsCovered read cap less
IsCovered-less read cap total less h (within, (calls, balance, answered, enough)) =
    (ground arith, (calls, balance, answered, ground arith))

module _ (network : Network) (now : ℕ) (input : RecordSignedDelegationInput) where
  abbrev pub scope_after : AgentDelegationRow → PayerScope
  scope_after row = scope_of input row.payer_address (token_for network now input)

  -- The balance of the payer, as the input or the provider reads it.
  abbrev pub payer_balance : AgentDelegationRow → List Call → Result ℕ
  payer_balance row =
      or_default input.read_payer_balance_micros network.balance_micros row.payer_address
        input.chain input.mode

  abbrev IsCoveredAt : (payer : String) → DelegationsDb → (more : ℕ) → Type 0
  IsCoveredAt payer db more =
      IsCovered
        (or_default input.read_payer_balance_micros network.balance_micros payer input.chain
          input.mode)
        (org_ceiling input.org_id input.mode input.chain db)
        (outstanding_headroom now (scope_of input payer (token_for network now input)) db + more)

  checked-IsCovered :
      (payer : String) (kind : PayerKind) (ceiling : ℕ) (u v : World)
      → kind ≡ treasury
      → check_ceilings network now input payer (token_for network now input) kind ceiling u
        ≡ (ok tt, v)
      → IsCoveredAt payer u.db ceiling
  checked-IsCovered payer kind ceiling u v k e =
      assert-eq-ok now (scope_of input payer (token_for network now input)) ceiling
        (or_default input.read_payer_balance_micros network.balance_micros payer input.chain
          input.mode)
        u v (rw k at e)

  IsCovered-after :
      (row : AgentDelegationRow) (payer : String) (ceiling : ℕ) (before db final : DelegationsDb)
      → row.payer_address ≡ payer
      → row.ceiling_usdc ≡ ceiling
      → before ≡ db
      → final ≡ appended row db
      → IsCoveredAt payer before ceiling
      → IsCovered
          (payer_balance row)
          (org_ceiling input.org_id input.mode input.chain db)
          (outstanding_headroom now (scope_after row) final)
  IsCovered-after row payer ceiling before db final p c same written h =
      let there : IsCoveredAt row.payer_address db row.ceiling_usdc = rw (p, c, sym same) h in
      rw written (
        IsCovered-less (payer_balance row) (org_ceiling input.org_id input.mode input.chain db)
          (outstanding_headroom now (scope_after row) db + row.ceiling_usdc)
          (outstanding_headroom now (scope_after row) (appended row db))
          (headroom_of-append (is_live now (scope_after row)) db.delegations row) there)

  -- After a delegation from the treasury is recorded, all that is still to be drawn from the
  -- treasury's live delegations, the new one included, is within the ceiling of the organisation, if
  -- it set one, and within a balance that was read.
  pub treasury-IsCovered :
      (new_id : String) (w w' : World) (row : AgentDelegationRow)
      → record_signed_delegation network now new_id input w ≡ (ok row, w')
      → row.payer_kind ≡ treasury
      → IsCovered
          (payer_balance row)
          (org_ceiling input.org_id input.mode input.chain w.db)
          (outstanding_headroom now (scope_after row) w'.db)
  treasury-IsCovered new_id w w' row e from_treasury =
      let (
        payer,
        ceiling,
        nonce,
        signature,
        made,
        parsed,
        positive,
        written,
        fresh,
        (u, v, same, checked),
      ) =
        record_signed_delegation-eq-ok network now input new_id w w' row e in
      let kind : payer.1 ≡ treasury = sym (ap (λ r. r.payer_kind) made) ∙ from_treasury in
      let address : row.payer_address ≡ payer.0 = ap (λ r. r.payer_address) made in
      let amount : row.ceiling_usdc ≡ ceiling = ap (λ r. r.ceiling_usdc) made in
      let covered = checked-IsCovered payer.0 payer.1 ceiling u v kind checked in
      IsCovered-after row payer.0 ceiling u.db w.db w'.db address amount same written covered
