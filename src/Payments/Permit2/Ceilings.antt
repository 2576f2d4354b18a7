-- ===== src/Payments/Permit2/Ceilings.antt =====
-- apps/api/src/engines/payments/delegation-ceiling.ts: the headroom of a payer's live delegations
-- and the two bounds on a new one. Amounts are whole millionths.
use aops_pmoa.Prelude.{
  ℕ, ◌+◌, ◌-◌, String, Bool, ◌&&◌, Option, none, some, List, [], ◌∷◌, ltb, if◌then◌else◌, ◌==◌,
  text_comparable, holds, find?, conflict, Result,
}
use aops_pmoa.Payments.Types.{PaymentMode, PaymentChain, mode_comparable}
use aops_pmoa.Payments.Permit2.Types.{
  active, delegation_status_comparable, chain_comparable, AgentDelegationRow, OrgCeilingRow,
  DelegationsDb, Call, Io, ◌>>=◌, ◌>>◌, throw_if, query, ask,
}

pub record PayerScope : Type 0 where
  pub org_id : String
  pub payer_address : String
  pub mode : PaymentMode
  pub chain : PaymentChain
  pub token_address : String

-- The WHERE clause of the sum.
abbrev pub is_live : ℕ → PayerScope → AgentDelegationRow → Bool
is_live now scope d =
    d.org_id == scope.org_id
    && d.payer_address == scope.payer_address
    && d.mode == scope.mode
    && d.chain == scope.chain
    && d.token_address == scope.token_address
    && d.status == active
    && ltb now d.expires_at

-- SUM(ceiling_usdc - drawn_usdc). The table checks that no delegation is drawn above its ceiling.
unfoldable pub headroom_of : (AgentDelegationRow → Bool) → List AgentDelegationRow → ℕ
headroom_of is_counted [] = 0
headroom_of is_counted (d ∷ ds) =
    let rest = headroom_of is_counted ds in
    if is_counted d then (d.ceiling_usdc - d.drawn_usdc) + rest else rest

abbrev pub outstanding_headroom : ℕ → PayerScope → DelegationsDb → ℕ
outstanding_headroom now scope db = headroom_of (is_live now scope) db.delegations

abbrev pub is_ceiling_of : String → PaymentMode → PaymentChain → OrgCeilingRow → Bool
is_ceiling_of org_id mode chain c = c.org_id == org_id && c.mode == mode && c.chain == chain

abbrev pub ceiling_amount : Option OrgCeilingRow → Option ℕ
ceiling_amount none = none
ceiling_amount (some c) = some c.ceiling_usdc

unfoldable pub org_ceiling : String → PaymentMode → PaymentChain → DelegationsDb → Option ℕ
org_ceiling org_id mode chain db =
    ceiling_amount (find? (is_ceiling_of org_id mode chain) db.org_ceilings)

-- The balance is read only after the bound of the organisation holds.
unfoldable pub assert_delegation_within_ceilings :
    ℕ → PayerScope → (new_ceiling : ℕ) → (read_balance : List Call → Result ℕ) → Io (Unit {0})
assert_delegation_within_ceilings now scope new_ceiling read_balance = do
  outstanding ← query (outstanding_headroom now scope)
  configured ← query (org_ceiling scope.org_id scope.mode scope.chain)
  throw_if (holds (λ cap. ltb cap (outstanding + new_ceiling)) configured)
      (conflict "org_delegation_ceiling_exceeded")
  balance ← ask read_balance
  throw_if (ltb balance (outstanding + new_ceiling)) (conflict "treasury_insufficient_for_ceiling")
