-- ===== src/Payments/Escrow/Sample.antt =====
-- A small network and tables, and the states of a job in them.
use aops_pmoa.Prelude.{
  true, none, some, [], ◌∷◌, is_empty, ok, err, error, codes, text_comparable, if◌then◌else◌,
}
use aops_pmoa.Payments.Types.{test, arc, gateway_arc, reservation_status_comparable}
use aops_pmoa.Payments.Escrow.Types.{
  opened, submitted, completed, escrow_state_comparable, EscrowJobRow, AgentWalletRow, SourceRow,
  EscrowReservationRow, EscrowDb, EscrowReceiptLog, EscrowNetwork, EscrowWorld,
}
use aops_pmoa.Payments.Escrow.Rows.{reservation_of}
use aops_pmoa.Payments.Escrow.Calls.{CreateEscrowJobInput}
use aops_pmoa.Payments.Escrow.Jobs.{create_escrow_job, set_funded, fund_escrow_job}
use aops_pmoa.Payments.Escrow.Lifecycle.{
  ApplyEscrowStateChangeInput, set_state, apply_escrow_state_change,
}

abbrev pub created_log : EscrowReceiptLog
created_log = record {
  address = "0x31C050d9D20504c4E11b2A894051d8181B14e0F5";
  topics = [];
  payload = "0x07";
}

-- A network on which the receipt is there at the second read, and job 7 is completed.
abbrev pub chain : EscrowNetwork
chain = record {
  arc_rpc_url = some "http://arc";
  base_sepolia_rpc_url = none;
  send = λ e calls. ok "0xab";
  fetch_receipt = λ url tx calls.
      if is_empty calls
      then err (error "timeout")
      else ok (record { error = none; result = some (some (created_log ∷ [])) });
  fetch_job = λ url job_id address calls. ok (record { error = none; result = some "0x0c" });
  decode_job_created = λ log. some 7;
  decode_get_job = λ text. ok (record { status = 3; budget = 20000 });
  hash_quote = λ quote. "hash";
  lower = λ text. text;
}

abbrev pub client_wallet : AgentWalletRow
client_wallet = record {
  org_id = "org";
  agent_id = "client";
  mode = test;
  chain = arc;
  is_active = true;
  address = "0xc";
}

abbrev pub provider_wallet : AgentWalletRow
provider_wallet = record client_wallet { agent_id = "provider"; address = "0xp" }

abbrev pub source : SourceRow
source = record {
  id = "src";
  org_id = "org";
  chain = arc;
  is_active = true;
  rail = gateway_arc;
  rail_order = 1;
  created_at = 0;
}

abbrev pub tables : EscrowDb
tables = record {
  jobs = [];
  wallets = client_wallet ∷ provider_wallet ∷ [];
  sources = source ∷ [];
  reservations = [];
  reputation = [];
  identities = [];
  agent_names = [];
}

abbrev pub hire : CreateEscrowJobInput
hire = record {
  org_id = "org";
  client_agent_id = "client";
  provider_address = "0xp";
  evaluator_address = none;
  mode = test;
  chain = arc;
  budget_usdc = codes "0.02";
  expires_at = 9000;
  created_by = "ann";
  description = none;
  read_receipt_logs = none;
}

abbrev pub open_job : EscrowJobRow
open_job = record {
  id = "job";
  org_id = "org";
  client_agent_id = "client";
  provider_address = "0xp";
  evaluator_address = "0xc";
  mode = test;
  chain = arc;
  escrow_address = "0x31C050d9D20504c4E11b2A894051d8181B14e0F5";
  token_address = "0x3600000000000000000000000000000000000000";
  onchain_job_id = some 7;
  budget_usdc = 20000;
  reservation_id = none;
  state = opened;
  escrow_mode = 2;
  deliverable_hash = none;
  expires_at = 9000;
  create_tx_hash = some "0xab";
  fund_tx_hash = none;
  submit_tx_hash = none;
  terminal_tx_hash = none;
  created_by = "ann";
  created_at = 5;
}

abbrev pub empty : EscrowWorld
empty = record { db = tables; calls = [] }

abbrev pub listed : EscrowWorld
listed = record { db = record tables { jobs = open_job ∷ [] }; calls = [] }

abbrev pub funded_job : EscrowJobRow
funded_job = set_funded "0xab" "res" open_job

abbrev pub held : EscrowReservationRow
held = reservation_of chain.hash_quote "res" open_job source

abbrev pub paid : EscrowWorld
paid = record {
  db = record tables { jobs = funded_job ∷ []; reservations = held ∷ [] };
  calls = [];
}

abbrev pub submits : ApplyEscrowStateChangeInput
submits = record { escrow_job_id = "job"; next = submitted; deliverable_hash = some "0xd" }

abbrev pub completes : ApplyEscrowStateChangeInput
completes = record { escrow_job_id = "job"; next = completed; deliverable_hash = none }

abbrev pub submitted_job : EscrowJobRow
submitted_job = set_state submitted (some "0xab") (some "0xd") funded_job

abbrev pub delivered : EscrowWorld
delivered = record {
  db = record tables { jobs = submitted_job ∷ []; reservations = held ∷ [] };
  calls = [];
}

-- The states of a job through a whole run: it is opened, funded, submitted and completed.
abbrev pub created_world : EscrowWorld
created_world = (create_escrow_job chain 5 "job" hire empty).1

abbrev pub funded_world : EscrowWorld
funded_world = (fund_escrow_job chain "res" "job" created_world).1

abbrev pub submitted_world : EscrowWorld
submitted_world = (apply_escrow_state_change chain "ev1" submits funded_world).1

abbrev pub completed_world : EscrowWorld
completed_world = (apply_escrow_state_change chain "ev2" completes submitted_world).1
