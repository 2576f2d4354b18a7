-- ===== src/Payments/Trust.antt =====
-- apps/api/src/engines/payments/trust.ts: the evidence on an external agent, its promotion to the
-- delegation rail, and the revocation of trust. A promotion and a revocation run a transaction of
-- their own on the allowlist, around transactions of permit2.ts that commit by themselves. `lower` is
-- the function of the database.
pub mod Promotion
pub mod Revocation
mod Tests
use aops_pmoa.Prelude.{
  ℕ, ◌+◌, suc, String, Bool, true, false, not, ◌&&◌, Option, none, some, List, [], ◌∷◌, ◌++◌, ltb,
  nat_beq, if◌then◌else◌, ◌==◌, text_comparable, holds, any, find?, filter, update_where, error,
  conflict, Result, ok, err, Comparable, ◌≡◌, ◌↔◌, arith,
}
use aops_pmoa.Payments.Types.{PaymentMode, PaymentChain, mode_comparable}
use aops_pmoa.Payments.Money.{format_usdc}
use aops_pmoa.Payments.Permit2.Types.{
  DelegationStatus, active, delegation_status_comparable, chain_comparable, AgentDelegationRow,
  World, Network,
}
use aops_pmoa.Payments.Permit2.Inputs.{RecordSignedDelegationInput}
use aops_pmoa.Payments.Escrow.Types.{
  EscrowState, opened, funded, submitted, completed, rejected, expired, EscrowJobRow,
}
use aops_pmoa.Payments.Permit2.Delegations.{record_signed_delegation, revoke_delegation}

pub record AllowlistRow : Type 0 where
  pub id : String
  pub org_id : String
  pub chain : PaymentChain
  pub address : String
  pub label : String
  pub source : String
  pub is_active : Bool
  pub created_by : String
  pub approved_by : Option String

-- The world of permit2.ts with the two further tables.
pub record TrustWorld : Type 0 where
  pub world : World
  pub jobs : List EscrowJobRow
  pub allowlist : List AllowlistRow

pub record TrustEvidenceInput : Type 0 where
  pub org_id : String
  pub chain : PaymentChain
  pub mode : PaymentMode
  pub address : String

-- `settledUsdc` is the text of `settled_micros`.
pub record TrustEvidence : Type 0 where
  pub completed_count : ℕ
  pub rejected_count : ℕ
  pub expired_count : ℕ
  pub settled_micros : ℕ
  pub trusted : Bool
  pub jobs : List EscrowJobRow

pub record TrustExternalAgentInput : Type 0 where
  pub org_id : String
  pub chain : PaymentChain
  pub mode : PaymentMode
  pub address : String
  pub label : String
  pub ceiling_usdc : List ℕ
  pub expires_at : ℕ
  pub approved_by : String

abbrev pub set_inactive : AllowlistRow → AllowlistRow
set_inactive a = record a { is_active = false }

-- ORDER BY created_at DESC
unfoldable pub insert_newest : EscrowJobRow → List EscrowJobRow → List EscrowJobRow
insert_newest j [] = j ∷ []
insert_newest j (k ∷ ks) =
    let later = insert_newest j ks in
    if ltb j.created_at k.created_at then k ∷ later else j ∷ k ∷ ks

unfoldable pub newest_first : List EscrowJobRow → List EscrowJobRow
newest_first [] = []
newest_first (j ∷ js) = insert_newest j (newest_first js)

-- One round of the loop over the jobs.
abbrev pub count_job : TrustEvidence → EscrowJobRow → EscrowState → TrustEvidence
count_job e j completed = record e {
  completed_count = e.completed_count + 1;
  settled_micros = e.settled_micros + j.budget_usdc;
}
count_job e j rejected = record e { rejected_count = e.rejected_count + 1 }
count_job e j expired = record e { expired_count = e.expired_count + 1 }
count_job e j opened = e
count_job e j funded = e
count_job e j submitted = e

unfoldable pub count_jobs : TrustEvidence → List EscrowJobRow → TrustEvidence
count_jobs e [] = e
count_jobs e (j ∷ js) = count_jobs (count_job e j j.state) js

abbrev pub evidence_of : TrustExternalAgentInput → TrustEvidenceInput
evidence_of input = record {
  org_id = input.org_id;
  chain = input.chain;
  mode = input.mode;
  address = input.address;
}

abbrev pub allowlist_row : String → TrustExternalAgentInput → AllowlistRow
allowlist_row id input = record {
  id = id;
  org_id = input.org_id;
  chain = input.chain;
  address = input.address;
  label = input.label;
  source = "marketplace";
  is_active = true;
  created_by = input.approved_by;
  approved_by = some input.approved_by;
}

-- INSERT … ON CONFLICT (org_id, chain, address) DO NOTHING
abbrev pub is_same_entry : TrustExternalAgentInput → AllowlistRow → Bool
is_same_entry input a =
    a.org_id == input.org_id && a.chain == input.chain && a.address == input.address

unfoldable pub insert_allowlist :
    String → TrustExternalAgentInput → List AllowlistRow → Result (List AllowlistRow)
insert_allowlist id input rows =
    if any (is_same_entry input) rows
    then ok rows
    else if any (λ (a : AllowlistRow). a.id == id) rows
    then err (error "unique_violation")
    else ok (rows ++ allowlist_row id input ∷ [])

abbrev pub delegation_input : TrustExternalAgentInput → RecordSignedDelegationInput
delegation_input input = record {
  org_id = input.org_id;
  payer_agent_id = none;
  payee_agent_id = none;
  payer_treasury = true;
  payee_address = input.address;
  mode = input.mode;
  chain = input.chain;
  token_address = none;
  ceiling_usdc = input.ceiling_usdc;
  expires_at = input.expires_at;
  approved_by = input.approved_by;
  read_payer_balance_micros = none;
  user_signed = none;
}

module _ (lower : String → String) where
  abbrev pub is_job_of : TrustEvidenceInput → EscrowJobRow → Bool
  is_job_of input j =
      j.org_id == input.org_id
      && j.chain == input.chain
      && j.mode == input.mode
      && lower j.provider_address == lower input.address

  abbrev pub is_listed : (org_id : String) → PaymentChain → (address : String) → AllowlistRow → Bool
  is_listed org_id chain address a =
      a.org_id == org_id && a.chain == chain && lower a.address == lower address

  unfoldable pub query_trust_evidence : TrustEvidenceInput → TrustWorld → TrustEvidence
  query_trust_evidence input w =
      let jobs = newest_first (filter (is_job_of input) w.jobs) in
      count_jobs
        (record {
          completed_count = 0;
          rejected_count = 0;
          expired_count = 0;
          settled_micros = 0;
          trusted =
              any
                (λ (a : AllowlistRow).
                  is_listed input.org_id input.chain input.address a && a.is_active)
                w.allowlist;
          jobs = jobs;
        })
        jobs

  module _ (network : Network) (now : ℕ) where
    -- The delegation commits by itself; the entry of the allowlist only if it succeeds.
    abbrev pub finish_trust :
        (allowlist_id : String)
        → List AllowlistRow
        → TrustWorld
        → Result AgentDelegationRow × World
        → Result (String × String) × TrustWorld
    finish_trust id rows w (ok d, v) = (ok (id, d.id), record w { world = v; allowlist = rows })
    finish_trust id rows w (err e, v) = (err e, record w { world = v })

    abbrev pub open_delegation :
        (allowlist_id delegation_id : String)
        → TrustExternalAgentInput
        → TrustWorld
        → Result (List AllowlistRow)
        → Result (String × String) × TrustWorld
    open_delegation id delegation_id input w (err e) = (err e, w)
    open_delegation id delegation_id input w (ok rows) =
        finish_trust id rows w
          (record_signed_delegation network now delegation_id (delegation_input input) w.world)

    unfoldable pub trust_external_agent :
        (allowlist_id delegation_id : String)
        → TrustExternalAgentInput
        → TrustWorld
        → Result (String × String) × TrustWorld
    trust_external_agent id delegation_id input w =
        let evidence = query_trust_evidence (evidence_of input) w in
        if nat_beq evidence.completed_count 0
        then (err (conflict "trust_requires_escrow_history"), w)
        else if evidence.trusted
        then (err (conflict "agent_already_trusted"), w)
        else open_delegation id delegation_id input w (insert_allowlist id input w.allowlist)

  -- The active delegations that name the address as payee.
  abbrev pub is_granted : TrustEvidenceInput → AgentDelegationRow → Bool
  is_granted input d =
      d.org_id == input.org_id
      && d.chain == input.chain
      && d.mode == input.mode
      && lower d.payee_address == lower input.address
      && d.status == active

module _ (network : Network) where
  abbrev pub and_all :
      (World → Result (Unit {0}) × World) → Result Bool × World → Result (Unit {0}) × World
  and_all rest (ok b, v) = rest v
  and_all rest (err e, v) = (err e, v)

  -- The loop; each round commits by itself.
  unfoldable pub revoke_all : List AgentDelegationRow → World → Result (Unit {0}) × World
  revoke_all [] w = (ok tt, w)
  revoke_all (d ∷ ds) w = and_all (revoke_all ds) (revoke_delegation network d.id w)

  abbrev pub finish_revoke :
      List AllowlistRow → TrustWorld → Result (Unit {0}) × World → Result (Unit {0}) × TrustWorld
  finish_revoke rows w (ok t, v) = (ok tt, record w { world = v; allowlist = rows })
  finish_revoke rows w (err e, v) = (err e, record w { world = v })

  abbrev pub revoke_entry :
      (lower : String → String)
      → TrustEvidenceInput
      → TrustWorld
      → Option AllowlistRow
      → Result (Unit {0}) × TrustWorld
  revoke_entry lower input w none = (err (conflict "agent_not_trusted"), w)
  revoke_entry lower input w (some a) =
      if a.is_active
      then finish_revoke
          (update_where (λ (b : AllowlistRow). b.id == a.id) set_inactive w.allowlist) w
          (revoke_all (filter (is_granted lower input) w.world.db.delegations) w.world)
      else (err (conflict "agent_not_trusted"), w)

  unfoldable pub revoke_trust :
      (lower : String → String) → TrustEvidenceInput → TrustWorld → Result (Unit {0}) × TrustWorld
  revoke_trust lower input w =
      revoke_entry lower input w
        (find? (is_listed lower input.org_id input.chain input.address) w.allowlist)
