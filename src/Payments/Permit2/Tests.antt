-- ===== src/Payments/Permit2/Tests.antt =====
-- Runs of the operations on delegations over a small network, and the theorems at them.
use aops_pmoa.Prelude.{
  String, List, ℕ, ◌≤◌, ◌≡◌, ◌++◌, refl, true, none, some, [], ◌∷◌, find?, arith, ok, err, conflict,
  codes, trim,
}
use aops_pmoa.Payments.Types.{test, arc}
use aops_pmoa.Payments.Money.{
  span_digits, decimal_value, fraction_value, after_whole, parse_usdc_micros, decimal, format_usdc,
}
use aops_pmoa.Payments.Permit2.Types.{
  active, confirmed, user, treasury, Call, AgentDelegationRow, approve, permit, transfer_from,
  lockdown, execute, sign, World, Network,
}
use aops_pmoa.Payments.Permit2.Ceilings.{
  headroom_of, outstanding_headroom, org_ceiling, assert_delegation_within_ceilings,
}
use aops_pmoa.Payments.Permit2.Gas.{
  retry_read, read_permit2_nonce, ensure_on_arc, ensure_submitter_gas_floor,
  resolve_permit_submitter,
}
use aops_pmoa.Payments.Permit2.Inputs.{
  permit2_address, build_permit_single, RecordSignedDelegationInput, resolve_payer,
}
use aops_pmoa.Payments.Permit2.Rows.{
  insert_delegation, DrawDownInput, has_id, insert_drawdown, set_drawn, set_revoked,
}
use aops_pmoa.Payments.Permit2.Signing.{
  BuildUserDelegationTypedDataInput, UserDelegationTypedData, build_user_delegation_typed_data,
}
use aops_pmoa.Payments.Permit2.Signing.Agreement.{signed_input, signed-eq-submitted}
use aops_pmoa.Payments.Permit2.Delegations.{
  submit_permit, record_for_payer, record_signed_delegation, check_draw, transfer_drawn,
  draw_locked, draw_down, revoke_delegation,
}
use aops_pmoa.Payments.Permit2.Delegations.Bounds.{Draws, draw_down-eq-ok}
use aops_pmoa.Payments.Permit2.Delegations.Headroom.{
  IsCovered, payer_balance, scope_after, treasury-IsCovered,
}
use aops_pmoa.Payments.Permit2.Delegations.Terms.{Keeps, IsSound}
use aops_pmoa.Payments.Permit2.Delegations.Revoked.{revoked-draw_down}
use aops_pmoa.Payments.Permit2.Delegations.Runs.{draws, Run, start, next, Run-delegation}

abbrev chain : Network
chain = record {
  arc_rpc_url = some "http://arc";
  base_sepolia_rpc_url = none;
  usdc_token_address = λ mode c. "usdc";
  gas_balance_wei = λ address c calls. ok 0;
  balance_micros = λ address c mode calls. ok 5000000;
  allowance_nonce = λ owner token spender c calls. ok 7;
  send = λ call calls. ok "0xab";
}

abbrev input : RecordSignedDelegationInput
input = record {
  org_id = "org";
  payer_agent_id = none;
  payee_agent_id = none;
  payer_treasury = true;
  payee_address = "seller";
  mode = test;
  chain = arc;
  token_address = none;
  ceiling_usdc = codes "2";
  expires_at = 9000000;
  approved_by = "ann";
  read_payer_balance_micros = none;
  user_signed = none;
}

abbrev empty : World
empty = record {
  db = record {
    delegations = [];
    drawdowns = [];
    org_wallets =
        record {
          owner_id = "org";
          mode = test;
          chain = arc;
          is_active = true;
          address = "vault";
          circle_wallet_id = "w1";
        }
        ∷ [];
    agent_wallets = [];
    org_ceilings = record { org_id = "org"; mode = test; chain = arc; ceiling_usdc = 3000000 } ∷ [];
  };
  calls = [];
}

abbrev given : AgentDelegationRow
given = record {
  id = "dele_1";
  org_id = "org";
  payer_agent_id = none;
  payer_address = "vault";
  payee_agent_id = none;
  payee_address = "seller";
  mode = test;
  chain = arc;
  token_address = "usdc";
  ceiling_usdc = 2000000;
  drawn_usdc = 0;
  expires_at = 9000000;
  permit_nonce = 7;
  signature = some "0xab";
  status = active;
  approved_by = "ann";
  payer_kind = treasury;
}

-- The calls of the recording: the signature, the approval of the total headroom, and the permit.
abbrev recorded : World
recorded = record {
  db = record empty.db { delegations = given ∷ [] };
  calls =
      sign test arc "vault" (build_permit_single 5042002 "usdc" "seller" 2000000 9 7)
      ∷ execute test arc "vault" (approve 2000000 "usdc")
      ∷ execute test arc "vault"
          (permit "vault" (build_permit_single 5042002 "usdc" "seller" 2000000 9 7).message "0xab")
      ∷ [];
}

records_given : record_signed_delegation chain 1000 "dele_1" input empty ≡ (ok given, recorded)
unfolding record_signed_delegation resolve_payer record_for_payer parse_usdc_micros span_digits trim
    after_whole assert_delegation_within_ceilings org_ceiling headroom_of decimal_value
    read_permit2_nonce retry_read ensure_submitter_gas_floor ensure_on_arc submit_permit
    resolve_permit_submitter insert_delegation build_permit_single
records_given = refl

treasury-IsCovered_example :
    IsCovered
      (payer_balance chain 1000 input given)
      (org_ceiling "org" test arc empty.db)
      (outstanding_headroom 1000 (scope_after chain 1000 input given) recorded.db)
treasury-IsCovered_example =
    treasury-IsCovered chain 1000 input "dele_1" empty recorded given records_given refl

abbrev draw : DrawDownInput
draw = record { delegation_id = "dele_1"; amount_usdc = codes "1.5" }

abbrev drawn : World
drawn = record {
  db = record recorded.db {
    delegations = set_drawn 1500000 active given ∷ [];
    drawdowns =
        record {
          id = "draw_1";
          delegation_id = "dele_1";
          amount_usdc = 1500000;
          status = confirmed;
          tx_hash = some "0xab";
        }
        ∷ [];
  };
  calls =
      recorded.calls
      ++ execute test arc "seller" (transfer_from "vault" "seller" 1500000 "usdc") ∷ [];
}

draws_given : draw_down chain 2000 "draw_1" draw recorded ≡ (ok ("0xab", codes "1.500000"), drawn)
unfolding draw_down draw_locked check_draw parse_usdc_micros span_digits trim after_whole
    fraction_value decimal_value ensure_submitter_gas_floor ensure_on_arc insert_drawdown
    transfer_drawn format_usdc decimal
draws_given = refl

draw_down-eq-ok_example :
    (d : AgentDelegationRow) × (find? (has_id "dele_1") recorded.db.delegations ≡ some d)
    × ((amount : ℕ) × (parse_usdc_micros (codes "1.5") ≡ some amount)
        × Draws chain 2000 d amount recorded drawn ("0xab", codes "1.500000"))
draw_down-eq-ok_example =
    draw_down-eq-ok chain 2000 "draw_1" draw recorded drawn ("0xab", codes "1.500000") draws_given

recorded-IsSound : IsSound recorded.db.delegations
recorded-IsSound = ((refl, tt), (omega arith, tt))

one_draw : Run chain recorded drawn
one_draw = next start (draws 2000 "draw_1" draw (ok ("0xab", codes "1.500000")) draws_given)

Run-delegation_example :
    (d' : AgentDelegationRow) × (find? (has_id "dele_1") drawn.db.delegations ≡ some d')
    × Keeps given d'
    × (d'.drawn_usdc ≤ d'.ceiling_usdc)
Run-delegation_example =
    Run-delegation chain recorded drawn "dele_1" given recorded-IsSound one_draw refl

abbrev locked_down : World
locked_down = record {
  db = record empty.db { delegations = set_revoked given ∷ [] };
  calls = recorded.calls ++ execute test arc "vault" (lockdown "usdc" "seller") ∷ [];
}

revokes_given : revoke_delegation chain "dele_1" recorded ≡ (ok true, locked_down)
unfolding revoke_delegation
revokes_given = refl

revoked-draw_down_example :
    draw_down chain 3000 "draw_2" draw locked_down
    ≡ (err (conflict "delegation_revoked"), locked_down)
revoked-draw_down_example =
    revoked-draw_down chain recorded locked_down locked_down true 3000 "draw_2" draw
      recorded-IsSound revokes_given start

abbrev asked : BuildUserDelegationTypedDataInput
asked = record {
  org_id = "org";
  payer_address = "wallet";
  payee_address = "seller";
  mode = test;
  chain = arc;
  token_address = none;
  ceiling_usdc = codes "2";
  expires_at = 9000000;
}

abbrev to_sign : UserDelegationTypedData
to_sign = record {
  typed_data = build_permit_single 5042002 "usdc" "seller" 2000000 9 7;
  nonce = codes "7";
  token_address = "usdc";
  permit2_address = permit2_address;
}

builds_asked : build_user_delegation_typed_data chain asked empty ≡ (ok to_sign, empty)
unfolding build_user_delegation_typed_data parse_usdc_micros span_digits trim after_whole
    decimal_value read_permit2_nonce retry_read decimal
builds_asked = refl

seven : to_sign.nonce ≡ decimal 7
unfolding decimal
seven = refl

abbrev user_row : AgentDelegationRow
user_row = record given { payer_address = "wallet"; payer_kind = user; signature = some "0xcd" }

abbrev user_recorded : World
user_recorded = record {
  db = record empty.db { delegations = user_row ∷ [] };
  calls =
      execute test arc "vault"
        (permit "wallet" (build_permit_single 5042002 "usdc" "seller" 2000000 9 7).message "0xcd")
      ∷ [];
}

records_user :
    record_signed_delegation chain 1000 "dele_1"
      (signed_input chain 1000 asked none "ann" "0xcd" 7)
      empty
    ≡ (ok user_row, user_recorded)
unfolding record_signed_delegation resolve_payer record_for_payer parse_usdc_micros span_digits trim
    after_whole decimal_value read_permit2_nonce retry_read ensure_submitter_gas_floor ensure_on_arc
    submit_permit resolve_permit_submitter insert_delegation build_permit_single
records_user = refl

signed-eq-submitted_example :
    (before : List Call) × (submitter : String) × (user_recorded.calls
      ≡ before
        ++ execute test arc submitter (permit "wallet" to_sign.typed_data.message "0xcd") ∷ [])
signed-eq-submitted_example =
    signed-eq-submitted chain 1000 asked none "ann" "0xcd" 7 "dele_1" empty empty empty
      user_recorded to_sign user_row builds_asked seven records_user
