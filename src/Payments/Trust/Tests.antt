-- ===== src/Payments/Trust/Tests.antt =====
-- A promotion and a revocation of trust on a small world, and the theorems at them. The address had
-- an entry that was revoked, so the promotion opens a delegation and leaves the address untrusted.
use aops_pmoa.Prelude.{
  ◌<◌, ◌≡◌, refl, String, true, false, not, none, some, [], ◌∷◌, ◌++◌, any, find?, update_where, ok,
  codes, trim, ◌==◌, text_comparable,
}
use aops_pmoa.Payments.Types.{test, arc}
use aops_pmoa.Payments.Money.{span_digits, decimal_value, after_whole, parse_usdc_micros}
use aops_pmoa.Payments.Permit2.Types.{
  active, treasury, AgentDelegationRow, approve, permit, lockdown, execute, sign, Network,
}
use aops_pmoa.Payments.Permit2.Ceilings.{
  headroom_of, org_ceiling, assert_delegation_within_ceilings,
}
use aops_pmoa.Payments.Permit2.Gas.{
  retry_read, read_permit2_nonce, ensure_on_arc, ensure_submitter_gas_floor,
  resolve_permit_submitter,
}
use aops_pmoa.Payments.Permit2.Inputs.{build_permit_single, resolve_payer}
use aops_pmoa.Payments.Permit2.Rows.{insert_delegation, set_revoked}
use aops_pmoa.Payments.Permit2.Delegations.{
  submit_permit, record_for_payer, record_signed_delegation, revoke_delegation,
}
use aops_pmoa.Payments.Escrow.Types.{completed, EscrowJobRow}
use aops_pmoa.Payments.Trust.{
  AllowlistRow, TrustWorld, TrustExternalAgentInput, evidence_of, count_jobs, insert_newest,
  newest_first, query_trust_evidence, is_same_entry, insert_allowlist, trust_external_agent,
  set_inactive, is_listed, is_granted, revoke_all, revoke_trust,
}
use aops_pmoa.Payments.Trust.Promotion.{Promotes, trust_external_agent-eq-ok}
use aops_pmoa.Payments.Trust.Revocation.{revoke_trust-eq-ok}

abbrev chain : Network
chain = record {
  arc_rpc_url = some "http://arc";
  base_sepolia_rpc_url = none;
  usdc_token_address = λ mode c. "usdc";
  gas_balance_wei = λ address c calls. ok 0;
  balance_micros = λ address c mode calls. ok 5000000;
  allowance_nonce = λ owner token spender c calls. ok 7;
  send = λ call calls. ok "0xab";
}

abbrev same_text : String → String
same_text s = s

abbrev seller : TrustExternalAgentInput
seller = record {
  org_id = "org";
  chain = arc;
  mode = test;
  address = "seller";
  label = "Seller";
  ceiling_usdc = codes "2";
  expires_at = 9000000;
  approved_by = "ann";
}

abbrev old_entry : AllowlistRow
old_entry = record {
  id = "payto_1";
  org_id = "org";
  chain = arc;
  address = "seller";
  label = "Seller";
  source = "marketplace";
  is_active = false;
  created_by = "ann";
  approved_by = some "ann";
}

abbrev job : EscrowJobRow
job = record {
  id = "job_1";
  org_id = "org";
  client_agent_id = "agent";
  provider_address = "seller";
  evaluator_address = "0xc";
  mode = test;
  chain = arc;
  escrow_address = "escrow";
  token_address = "usdc";
  onchain_job_id = some 7;
  budget_usdc = 500;
  reservation_id = none;
  state = completed;
  escrow_mode = 2;
  deliverable_hash = none;
  expires_at = 9;
  create_tx_hash = none;
  fund_tx_hash = none;
  submit_tx_hash = none;
  terminal_tx_hash = none;
  created_by = "ann";
  created_at = 3;
}

abbrev before : TrustWorld
before = record {
  world = record {
    db = record {
      delegations = [];
      drawdowns = [];
      org_wallets =
          record {
            owner_id = "org";
            mode = test;
            chain = arc;
            is_active = true;
            address = "vault";
            circle_wallet_id = "w1";
          }
          ∷ [];
      agent_wallets = [];
      org_ceilings = [];
    };
    calls = [];
  };
  jobs = job ∷ [];
  allowlist = old_entry ∷ [];
}

abbrev grant : AgentDelegationRow
grant = record {
  id = "dele_1";
  org_id = "org";
  payer_agent_id = none;
  payer_address = "vault";
  payee_agent_id = none;
  payee_address = "seller";
  mode = test;
  chain = arc;
  token_address = "usdc";
  ceiling_usdc = 2000000;
  drawn_usdc = 0;
  expires_at = 9000000;
  permit_nonce = 7;
  signature = some "0xab";
  status = active;
  approved_by = "ann";
  payer_kind = treasury;
}

abbrev promoted : TrustWorld
promoted = record before {
  world = record {
    db = record before.world.db { delegations = grant ∷ [] };
    calls =
        sign test arc "vault" (build_permit_single 5042002 "usdc" "seller" 2000000 9 7)
        ∷ execute test arc "vault" (approve 2000000 "usdc")
        ∷ execute test arc "vault" (
            permit "vault" (build_permit_single 5042002 "usdc" "seller" 2000000 9 7).message "0xab")
        ∷ [];
  };
}

promotes_seller :
    trust_external_agent same_text chain 1000 "payto_2" "dele_1" seller before
    ≡ (ok ("payto_2", "dele_1"), promoted)
unfolding trust_external_agent query_trust_evidence count_jobs newest_first insert_newest
    insert_allowlist record_signed_delegation resolve_payer record_for_payer parse_usdc_micros
    span_digits trim after_whole assert_delegation_within_ceilings org_ceiling headroom_of
    decimal_value read_permit2_nonce retry_read ensure_submitter_gas_floor ensure_on_arc
    submit_permit resolve_permit_submitter insert_delegation build_permit_single
promotes_seller = refl

trust_external_agent-eq-ok_example :
    (0 < (query_trust_evidence same_text (evidence_of seller) before).completed_count)
    × ((query_trust_evidence same_text (evidence_of seller) before).trusted ≡ false)
    × Promotes same_text chain 1000 seller before promoted ("payto_2", "dele_1")
    × ((query_trust_evidence same_text (evidence_of seller) promoted).trusted
        ≡ not (any (is_same_entry seller) before.allowlist))
trust_external_agent-eq-ok_example =
    trust_external_agent-eq-ok same_text chain 1000 "payto_2" "dele_1" seller before promoted
      ("payto_2", "dele_1") promotes_seller

abbrev listed : TrustWorld
listed = record promoted { allowlist = record old_entry { is_active = true } ∷ [] }

abbrev withdrawn : TrustWorld
withdrawn = record before {
  world = record {
    db = record before.world.db { delegations = set_revoked grant ∷ [] };
    calls = promoted.world.calls ++ execute test arc "vault" (lockdown "usdc" "seller") ∷ [];
  };
}

withdraws_seller : revoke_trust chain same_text (evidence_of seller) listed ≡ (ok tt, withdrawn)
unfolding revoke_trust revoke_all revoke_delegation
withdraws_seller = refl

revoke_trust-eq-ok_example :
    (any (is_granted same_text (evidence_of seller)) withdrawn.world.db.delegations ≡ false)
    × (withdrawn.jobs ≡ listed.jobs)
    × ((a : AllowlistRow) × (find? (is_listed same_text "org" arc "seller") listed.allowlist
          ≡ some a)
        × (a.is_active ≡ true)
        × (withdrawn.allowlist
            ≡ update_where (λ (b : AllowlistRow). b.id == a.id) set_inactive listed.allowlist))
revoke_trust-eq-ok_example =
    revoke_trust-eq-ok chain same_text (evidence_of seller) listed withdrawn (refl, tt)
      withdraws_seller
