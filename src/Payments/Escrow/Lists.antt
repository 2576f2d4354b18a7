-- ===== src/Payments/Escrow/Lists.antt =====
-- The lists of escrow.ts: jobs whose evaluation window is closing, and the jobs of an organisation.
pub mod Risks
use mathlib.Core.Option
use aops_pmoa.Prelude.{
  ℕ, ◌+◌, ◌*◌, ◌/◌, zero, suc, String, Bool, ◌&&◌, Option, List, [], ◌∷◌, map, min, max, leb,
  if◌then◌else◌, ◌==◌, text_comparable, filter, find?,
}
use aops_pmoa.Prelude.Sort.{order_by}
use aops_pmoa.Payments.Types.{PaymentMode, PaymentChain, mode_comparable}
use aops_pmoa.Payments.Escrow.Types.{
  submitted, escrow_state_comparable, EscrowJobRow, AgentNameRow, EscrowDb,
}
use aops_pmoa.Payments.Escrow.Rows.{EscrowJob, escrow_job_from_row}

-- LIMIT
abbrev pub first_rows : {R : Type 0} → ℕ → List R → List R
first_rows zero rs = []
first_rows (suc n) [] = []
first_rows (suc n) (r ∷ rs) = r ∷ first_rows n rs

pub record EscrowLivenessRisk : Type 0 where
  pub escrow_job_id : String
  pub onchain_job_id : Option ℕ
  pub chain : PaymentChain
  pub provider_address : String
  pub evaluator_address : String
  pub escrow_mode : ℕ
  pub budget_usdc : ℕ
  pub expires_at : ℕ

abbrev pub risk_of : EscrowJobRow → EscrowLivenessRisk
risk_of row = record {
  escrow_job_id = row.id;
  onchain_job_id = row.onchain_job_id;
  chain = row.chain;
  provider_address = row.provider_address;
  evaluator_address = row.evaluator_address;
  escrow_mode = row.escrow_mode;
  budget_usdc = row.budget_usdc;
  expires_at = row.expires_at;
}

pub record ListEscrowLivenessRisksInput : Type 0 where
  pub org_id : String
  pub within_hours : ℕ

-- `withinHours * 3600`, the seconds of the interval, in milliseconds. The hours may have a fraction, and
-- are whole millionths here.
abbrev pub window_ms : (within_hours : ℕ) → ℕ
window_ms within_hours = within_hours * 3600 * 1000 / 1000000

abbrev pub is_at_risk : (now : ℕ) → ListEscrowLivenessRisksInput → EscrowJobRow → Bool
is_at_risk now input j =
    j.state == submitted
    && leb j.expires_at (now + window_ms input.within_hours)
    && j.org_id == input.org_id

unfoldable pub list_escrow_liveness_risks :
    (now : ℕ) → ListEscrowLivenessRisksInput → EscrowDb → List EscrowLivenessRisk
unfolding order_by
list_escrow_liveness_risks now input db = map risk_of (
    order_by (λ (a b : EscrowJobRow). leb a.expires_at b.expires_at)
      (filter (is_at_risk now input) db.jobs))

pub record ListEscrowJobsInput : Type 0 where
  pub org_id : String
  pub mode : PaymentMode
  pub limit : Option ℕ

pub record EscrowJobListItem : Type 0 where
  pub job : EscrowJob
  pub client_agent_name : Option String
  pub created_at : ℕ

abbrev pub agent_name : EscrowDb → String → Option String
agent_name db id =
    Option.map (λ (a : AgentNameRow). a.name)
      (find? (λ (a : AgentNameRow). a.id == id) db.agent_names)

abbrev pub list_item : EscrowDb → EscrowJobRow → EscrowJobListItem
list_item db row = record {
  job = escrow_job_from_row row;
  client_agent_name = agent_name db row.client_agent_id;
  created_at = row.created_at;
}

unfoldable pub list_escrow_jobs : ListEscrowJobsInput → EscrowDb → List EscrowJobListItem
unfolding order_by
list_escrow_jobs input db = map (list_item db) (
    first_rows (min (max (Option.get_or input.limit 50) 1) 200) (
      order_by (λ (a b : EscrowJobRow). leb b.created_at a.created_at)
        (filter (λ (j : EscrowJobRow). j.org_id == input.org_id && j.mode == input.mode) db.jobs)))
