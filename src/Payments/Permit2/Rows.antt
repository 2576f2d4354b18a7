-- ===== src/Payments/Permit2/Rows.antt =====
-- The rows that permit2.ts writes: new delegations and drawdowns, with the checks of their tables,
-- and the updates of a drawdown and a revocation.
use aops_pmoa.Payments.Types.{numeric_limit}
use aops_pmoa.Prelude.{
  ℕ, ◌+◌, String, Bool, not, ◌&&◌, none, some, List, [], ◌∷◌, ◌++◌, leb, nat_beq, if◌then◌else◌,
  ◌==◌, text_comparable, holds, any, find?, update_where, error,
}
use aops_pmoa.Payments.Types.{mode_comparable}
use aops_pmoa.Payments.Permit2.Types.{
  DelegationStatus, active, exhausted, revoked, PayerKind, user, agent, payer_kind_comparable,
  chain_comparable, AgentDelegationRow, submitted, confirmed, DrawdownRow, DelegationsDb, Io, ◌>>=◌,
  ◌>>◌, pure, throw_if, query, update, or_throw,
}
use aops_pmoa.Payments.Permit2.Ceilings.{PayerScope}
use aops_pmoa.Payments.Permit2.Inputs.{RecordSignedDelegationInput}

-- INSERT, with the checks of the table: the ids and permits are distinct, the ceiling is positive
-- and fits numeric(20, 6).
abbrev pub has_permit : AgentDelegationRow → AgentDelegationRow → Bool
has_permit d e =
    holds (λ a. holds (λ b. a == b) d.payer_agent_id) e.payer_agent_id
    && e.payee_address == d.payee_address
    && e.mode == d.mode
    && e.chain == d.chain
    && nat_beq e.permit_nonce d.permit_nonce

unfoldable pub insert_delegation : AgentDelegationRow → Io AgentDelegationRow
insert_delegation d = do
  throw_if (leb numeric_limit d.ceiling_usdc) (error "numeric_value_out_of_range")
  throw_if (nat_beq d.ceiling_usdc 0) (error "check_violation")
  taken ← query (λ db. any (λ (e : AgentDelegationRow). e.id == d.id) db.delegations)
  doubled ← query (λ db. any (has_permit d) db.delegations)
  throw_if taken (error "unique_violation")
  throw_if doubled (error "unique_violation")
  update (λ db. record db { delegations = db.delegations ++ d ∷ [] })
  pure d

abbrev pub scope_of : RecordSignedDelegationInput → (payer token : String) → PayerScope
scope_of input payer token = record {
  org_id = input.org_id;
  payer_address = payer;
  mode = input.mode;
  chain = input.chain;
  token_address = token;
}

abbrev pub delegation_row :
    String
    → RecordSignedDelegationInput
    → (payer : String × PayerKind) → (token : String) → (ceiling nonce : ℕ) → (signature : String)
    → AgentDelegationRow
delegation_row new_id input (payer, kind) token ceiling nonce signature = record {
  id = new_id;
  org_id = input.org_id;
  payer_agent_id = if kind == agent then input.payer_agent_id else none;
  payer_address = payer;
  payee_agent_id = input.payee_agent_id;
  payee_address = input.payee_address;
  mode = input.mode;
  chain = input.chain;
  token_address = token;
  ceiling_usdc = ceiling;
  drawn_usdc = 0;
  expires_at = input.expires_at;
  permit_nonce = nonce;
  signature = some signature;
  status = active;
  approved_by = input.approved_by;
  payer_kind = kind;
}

pub record DrawDownInput : Type 0 where
  pub delegation_id : String
  pub amount_usdc : List ℕ

abbrev pub has_id : String → AgentDelegationRow → Bool
has_id id d = d.id == id

abbrev pub set_drawn : ℕ → DelegationStatus → AgentDelegationRow → AgentDelegationRow
set_drawn drawn status d = record d { drawn_usdc = drawn; status = status }

abbrev pub confirm : String → DrawdownRow → DrawdownRow
confirm tx_hash w = record w { tx_hash = some tx_hash; status = confirmed }

-- INSERT of the drawdown, whose table refuses an amount of zero.
unfoldable pub insert_drawdown : (new_id delegation_id : String) → ℕ → Io (Unit {0})
insert_drawdown new_id delegation_id amount = do
  throw_if (nat_beq amount 0) (error "check_violation")
  taken ← query (λ db. any (λ (w : DrawdownRow). w.id == new_id) db.drawdowns)
  throw_if taken (error "unique_violation")
  update (λ db. record db {
    drawdowns =
        db.drawdowns
        ++ record {
          id = new_id;
          delegation_id = delegation_id;
          amount_usdc = amount;
          status = submitted;
          tx_hash = none;
        }
          ∷ [];
  })

-- The UPDATEs after the transfer.
abbrev pub with_drawn :
    AgentDelegationRow → (new_id tx_hash : String) → ℕ → DelegationsDb → DelegationsDb
with_drawn d new_id tx_hash amount db = record db {
  drawdowns = update_where (λ (w : DrawdownRow). w.id == new_id) (confirm tx_hash) db.drawdowns;
  delegations =
      update_where (has_id d.id)
        (set_drawn (d.drawn_usdc + amount)
          (if leb d.ceiling_usdc (d.drawn_usdc + amount) then exhausted else active))
        db.delegations;
}

-- SELECT … FOR UPDATE of the delegation.
abbrev pub locked : String → Io AgentDelegationRow
locked id =
    query (λ db. find? (has_id id) db.delegations) >>= or_throw (error "agent_delegation_not_found")

abbrev pub set_revoked : AgentDelegationRow → AgentDelegationRow
set_revoked d = record d { status = revoked }

abbrev pub platform_controls_payer : AgentDelegationRow → Bool
platform_controls_payer d = not (d.payer_kind == user)
