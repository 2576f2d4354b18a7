-- ===== src/Payments/Escrow/Rows.antt =====
-- What escrow.ts reads and writes in its tables: rows, their views and the statements of SQL.
pub mod Locked
use aops_pmoa.Payments.Types.{numeric_limit}
use Prim.Native.Nat.{Ordering}
use Prim.Native.String.{compare}
use Prim.Native.String
use mathlib.Core.Option
use aops_pmoa.Prelude.{
  ℕ, String, Bool, true, false, not, ◌&&◌, ◌||◌, Option, none, some, List, [], ◌∷◌, ◌++◌, ltb, leb,
  nat_beq, if◌then◌else◌, ◌==◌, text_comparable, holds, any, filter, find?, update_where, error,
  Result, ok, err,
}
use aops_pmoa.Prelude.Effects.{◌>>=◌, ◌>>◌, query, update, or_throw, execute_sql}
use aops_pmoa.Payments.Types.{
  PaymentMode, PaymentChain, mode_comparable, ReservationStatus, reserved, settled, released,
  reservation_status_comparable,
}
use aops_pmoa.Payments.Permit2.Gas.{chain_text}
use aops_pmoa.Payments.Permit2.Types.{chain_comparable}
use aops_pmoa.Payments.Escrow.Types.{
  EscrowState, opened, funded, submitted, completed, escrow_state_comparable, EscrowJobRow,
  AgentWalletRow, SourceRow, EscrowQuote, EscrowReservationRow, EscrowDb, EscrowIo,
}

pub record EscrowJob : Type 0 where
  pub id : String
  pub org_id : String
  pub client_agent_id : String
  pub provider_address : String
  pub evaluator_address : String
  pub mode : PaymentMode
  pub chain : PaymentChain
  pub escrow_address : String
  pub token_address : String
  pub onchain_job_id : Option ℕ
  pub budget_usdc : ℕ
  pub reservation_id : Option String
  pub state : EscrowState
  pub escrow_mode : ℕ
  pub deliverable_hash : Option String
  pub expires_at : ℕ
  pub create_tx_hash : Option String
  pub fund_tx_hash : Option String
  pub submit_tx_hash : Option String
  pub terminal_tx_hash : Option String

abbrev pub escrow_job_from_row : EscrowJobRow → EscrowJob
escrow_job_from_row row = record {
  id = row.id;
  org_id = row.org_id;
  client_agent_id = row.client_agent_id;
  provider_address = row.provider_address;
  evaluator_address = row.evaluator_address;
  mode = row.mode;
  chain = row.chain;
  escrow_address = row.escrow_address;
  token_address = row.token_address;
  onchain_job_id = row.onchain_job_id;
  budget_usdc = row.budget_usdc;
  reservation_id = row.reservation_id;
  state = row.state;
  escrow_mode = row.escrow_mode;
  deliverable_hash = row.deliverable_hash;
  expires_at = row.expires_at;
  create_tx_hash = row.create_tx_hash;
  fund_tx_hash = row.fund_tx_hash;
  submit_tx_hash = row.submit_tx_hash;
  terminal_tx_hash = row.terminal_tx_hash;
}

abbrev pub is_job : String → EscrowJobRow → Bool
is_job id j = j.id == id

-- SELECT * FROM escrow_jobs WHERE id = $1 FOR UPDATE
abbrev pub locked_job : String → EscrowIo EscrowJobRow
locked_job id =
    query (λ (db : EscrowDb). find? (is_job id) db.jobs) >>= or_throw (error "escrow_job_not_found")

-- UPDATE escrow_jobs SET … WHERE id = $1 RETURNING *
abbrev pub update_job : String → (EscrowJobRow → EscrowJobRow) → EscrowIo EscrowJobRow
update_job id change = do
  update (λ (db : EscrowDb). record db { jobs = update_where (is_job id) change db.jobs })
  found ← query (λ (db : EscrowDb). find? (is_job id) db.jobs)
  or_throw (error "escrow_job_update_failed") found

-- UNIQUE (chain, escrow_address, onchain_job_id), where absent ids differ.
abbrev pub is_same_onchain_job : EscrowJobRow → EscrowJobRow → Bool
is_same_onchain_job row j =
    j.chain == row.chain
    && j.escrow_address == row.escrow_address
    && holds (λ i. holds (λ k. nat_beq i k) j.onchain_job_id) row.onchain_job_id

-- INSERT INTO escrow_jobs, with the checks of the table
unfoldable pub insert_job : EscrowJobRow → EscrowDb → Result (EscrowJobRow × EscrowDb)
insert_job row db =
    if leb numeric_limit row.budget_usdc
    then err (error "numeric_value_out_of_range")
    else if nat_beq row.budget_usdc 0
    then err (error "check_violation")
    else if any (λ (j : EscrowJobRow). is_job row.id j || is_same_onchain_job row j) db.jobs
    then err (error "unique_violation")
    else ok (row, record db { jobs = db.jobs ++ row ∷ [] })

abbrev pub is_wallet_of : String → PaymentMode → PaymentChain → AgentWalletRow → Bool
is_wallet_of agent_id mode chain a =
    a.agent_id == agent_id && a.mode == mode && a.chain == chain && a.is_active

-- findAgentWallet
unfoldable pub find_agent_wallet :
    String → PaymentMode → PaymentChain → EscrowDb → Option AgentWalletRow
find_agent_wallet agent_id mode chain db = find? (is_wallet_of agent_id mode chain) db.wallets

abbrev pub client_wallet_address : String → PaymentMode → PaymentChain → EscrowIo String
client_wallet_address agent_id mode chain =
    query (λ (db : EscrowDb).
      Option.map (λ (a : AgentWalletRow). a.address) (find_agent_wallet agent_id mode chain db))
    >>= or_throw (error (String.◌++◌ "escrow_client_wallet_not_found:" agent_id))

abbrev pub is_fleet_wallet :
    (lower : String → String)
    → (org_id address : String) → PaymentMode
    → PaymentChain
    → AgentWalletRow
    → Bool
is_fleet_wallet lower org_id address mode chain a =
    a.org_id == org_id
    && lower a.address == lower address
    && a.mode == mode
    && a.chain == chain
    && a.is_active

-- LIMIT 1 without an order: the first in the table
unfoldable pub fleet_wallet_address :
    (lower : String → String)
    → (org_id address : String) → PaymentMode
    → PaymentChain
    → EscrowDb
    → Option String
fleet_wallet_address lower org_id address mode chain db =
    Option.map (λ (a : AgentWalletRow). a.address)
      (find? (is_fleet_wallet lower org_id address mode chain) db.wallets)

-- ORDER BY rail ASC, created_at DESC
abbrev pub is_source_before : SourceRow → SourceRow → Bool
is_source_before a b =
    ltb a.rail_order b.rail_order
    || nat_beq a.rail_order b.rail_order && leb b.created_at a.created_at

unfoldable pub first_source : List SourceRow → Option SourceRow
first_source [] = none
first_source (a ∷ sources) = elim (first_source sources) [
  | none ↦ some a
  | some b ↦ if is_source_before a b then some a else some b
]

abbrev pub is_usable_source : String → PaymentChain → SourceRow → Bool
is_usable_source org_id chain a = a.org_id == org_id && a.chain == chain && a.is_active

abbrev pub quote_of : EscrowJobRow → EscrowQuote
quote_of job = record {
  escrow_job_id = job.id;
  chain = job.chain;
  escrow_address = job.escrow_address;
  token_address = job.token_address;
  onchain_job_id = job.onchain_job_id;
  budget_usdc = job.budget_usdc;
  provider_address = job.provider_address;
  evaluator_address = job.evaluator_address;
  escrow_mode = job.escrow_mode;
}

abbrev pub reservation_of :
    (hash_quote : EscrowQuote → String) → String → EscrowJobRow → SourceRow → EscrowReservationRow
reservation_of hash_quote reservation_id job source = record {
  id = reservation_id;
  org_id = job.org_id;
  agent_id = job.client_agent_id;
  source_id = source.id;
  amount_usdc = job.budget_usdc;
  rail = source.rail;
  status = reserved;
  reason_job_id = job.id;
  quote_hash = hash_quote (quote_of job);
  quote = quote_of job;
  expires_at = job.expires_at;
}

-- INSERT INTO payment_reservations; the id is the primary key.
unfoldable pub insert_reservation : EscrowReservationRow → EscrowDb → Result (Unit {0} × EscrowDb)
insert_reservation row db =
    if any (λ (r : EscrowReservationRow). r.id == row.id) db.reservations
    then err (error "unique_violation")
    else ok (tt, record db { reservations = db.reservations ++ row ∷ [] })

unfoldable pub reserve_escrow_budget :
    (hash_quote : EscrowQuote → String)
    → (reservation_id : String) → EscrowJobRow
    → EscrowIo (Unit {0})
unfolding first_source
reserve_escrow_budget hash_quote reservation_id job = do
  first ←
      query (λ (db : EscrowDb).
        first_source (filter (is_usable_source job.org_id job.chain) db.sources))
  source ←
      or_throw (error (String.◌++◌ "escrow_payment_source_not_found:" (chain_text job.chain))) first
  execute_sql (insert_reservation (reservation_of hash_quote reservation_id job source))

abbrev pub is_reserved_for : EscrowJobRow → String → EscrowReservationRow → Bool
is_reserved_for job reservation_id r =
    r.id == reservation_id && r.org_id == job.org_id && r.status == reserved

-- completed settles, rejected and expired release; the others have no outcome.
abbrev pub outcome_of : EscrowState → Option ReservationStatus
outcome_of completed = some settled
outcome_of EscrowState.rejected = some released
outcome_of EscrowState.expired = some released
outcome_of opened = none
outcome_of funded = none
outcome_of submitted = none

abbrev pub set_outcome : ReservationStatus → EscrowReservationRow → EscrowReservationRow
set_outcome status r = record r { status = status }

abbrev pub settle_reservation :
    EscrowJobRow → Option String → Option ReservationStatus → EscrowDb → EscrowDb
settle_reservation job none outcome db = db
settle_reservation job (some reservation_id) none db = db
settle_reservation job (some reservation_id) (some outcome) db = record db {
  reservations =
      update_where (is_reserved_for job reservation_id) (set_outcome outcome) db.reservations;
}

unfoldable pub apply_reservation_outcome : EscrowJobRow → EscrowState → EscrowIo (Unit {0})
apply_reservation_outcome job next =
    update (settle_reservation job job.reservation_id (outcome_of next))
