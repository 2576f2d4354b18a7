-- ===== src/Payments/Escrow/Reputation.antt =====
-- apps/api/src/engines/payments/reputation-hook.ts: the record that a completed job earns, and the
-- feedback on chain. Each statement commits by itself.
pub mod Earned
use Prim.Native.String
use mathlib.Core.Option
use aops_pmoa.Prelude.{
  ℕ, String, Bool, true, false, not, ◌&&◌, Option, none, some, List, [], ◌∷◌, ◌++◌, if◌then◌else◌,
  ◌==◌, text_comparable, any, find?, update_where, error, Result, ok, err,
}
use aops_pmoa.Prelude.Effects.{
  World, ◌>>=◌, ◌>>◌, pure, query, update, or_throw, throw_if, when_some, execute_sql,
}
use aops_pmoa.Payments.Types.{PaymentMode, PaymentChain, mode_comparable}
use aops_pmoa.Payments.Permit2.Types.{chain_comparable}
use aops_pmoa.Payments.Escrow.Types.{
  completed, escrow_state_comparable, escrow_state_text, EscrowJobRow, AgentWalletRow,
  ReputationEventRow, IdentityRow, EscrowDb, text, number, ContractExecution, EscrowNetwork,
  EscrowIo,
}
use aops_pmoa.Payments.Escrow.Contract.{zero_bytes32}
use aops_pmoa.Payments.Escrow.Rows.{is_job, find_agent_wallet, is_fleet_wallet}
use aops_pmoa.Payments.Escrow.Reading.{send}

abbrev pub reputation_registry_address : String
reputation_registry_address = "0x8004B663056A597Dffe9eCcC1965A193B7388713"

abbrev pub reputation_give_feedback_signature : String
reputation_give_feedback_signature =
    "giveFeedback(uint256,int128,uint8,string,string,string,string,bytes32)"

abbrev pub completion_score : ℕ
completion_score = 100

pub record WriteFeedbackInput : Type 0 where
  pub mode : PaymentMode
  pub chain : PaymentChain
  pub sender_address : String
  pub agent_token_id : String
  pub score : ℕ

abbrev pub give_feedback_execution : WriteFeedbackInput → ContractExecution
give_feedback_execution input = record {
  mode = input.mode;
  chain = input.chain;
  sender_address = input.sender_address;
  abi_function_signature = reputation_give_feedback_signature;
  abi_parameters =
      text input.agent_token_id
      ∷ number input.score
      ∷ text "0"
      ∷ text "escrow_completion"
      ∷ text ""
      ∷ text ""
      ∷ text ""
      ∷ text zero_bytes32
      ∷ [];
  contract_address = reputation_registry_address;
}

-- The registry of the provider: giveFeedback, sent as a contract execution.
abbrev pub write_feedback : EscrowNetwork → WriteFeedbackInput → EscrowIo String
write_feedback network input = send network (give_feedback_execution input)

pub record WriteReputationInput : Type 0 where
  pub org_id : String
  pub agent_id : String
  pub escrow_job_id : Option String
  pub score : ℕ

abbrev pub event_row : String → WriteReputationInput → String → ReputationEventRow
event_row id input escrow_job_id = record {
  id = id;
  org_id = input.org_id;
  agent_id = input.agent_id;
  escrow_job_id = escrow_job_id;
  score = input.score;
  feedback_tx_hash = none;
}

-- The column is NOT NULL and refers to a job; a second event of a job is no row.
unfoldable pub insert_event :
    String
    → WriteReputationInput
    → Option String
    → EscrowDb
    → Result (Option ReputationEventRow × EscrowDb)
insert_event id input none db = err (error "not_null_violation")
insert_event id input (some escrow_job_id) db =
    if not (any (is_job escrow_job_id) db.jobs)
    then err (error "foreign_key_violation")
    else if any (λ (v : ReputationEventRow). v.escrow_job_id == escrow_job_id) db.reputation
    then ok (none, db)
    else if any (λ (v : ReputationEventRow). v.id == id) db.reputation
    then err (error "unique_violation")
    else ok (
      some (event_row id input escrow_job_id),
      record db { reputation = db.reputation ++ event_row id input escrow_job_id ∷ [] },
    )

abbrev pub write_reputation : String → WriteReputationInput → EscrowIo (Option ReputationEventRow)
write_reputation id input = execute_sql (insert_event id input input.escrow_job_id)

unfoldable pub resolve_provider_agent_id :
    (lower : String → String)
    → (org_id address : String) → PaymentMode
    → PaymentChain
    → EscrowDb
    → Option String
resolve_provider_agent_id lower org_id address mode chain db =
    Option.map (λ (a : AgentWalletRow). a.agent_id)
      (find? (is_fleet_wallet lower org_id address mode chain) db.wallets)

abbrev pub is_identity_of : String → PaymentMode → PaymentChain → IdentityRow → Bool
is_identity_of agent_id mode chain i =
    i.agent_id == agent_id && i.mode == mode && i.chain == chain && i.is_registered

unfoldable pub token_id_of : String → PaymentMode → PaymentChain → EscrowDb → Option String
token_id_of agent_id mode chain db =
    Option.bind (find? (is_identity_of agent_id mode chain) db.identities)
      (λ (i : IdentityRow). i.token_id)

abbrev pub set_feedback : String → ReputationEventRow → ReputationEventRow
set_feedback tx_hash v = record v { feedback_tx_hash = some tx_hash }

-- `try { body } catch {}`: what the body did up to its failure stays.
abbrev pub swallow_result : {W : Type 0} → Result (Unit {0}) × W → Result (Unit {0}) × W
swallow_result (r, w) = (ok tt, w)

abbrev pub swallow : EscrowIo (Unit {0}) → EscrowIo (Unit {0})
swallow body w = swallow_result (body w)

module _ (network : EscrowNetwork) where
  -- The broadcast of an event that was just written.
  unfoldable pub broadcast : EscrowJobRow → (agent_id event_id : String) → EscrowIo (Unit {0})
  broadcast job agent_id event_id = do
    token ← query (token_id_of agent_id job.mode job.chain)
    when_some tt token (λ token_id. (do
      client_wallet ← query (find_agent_wallet job.client_agent_id job.mode job.chain)
      when_some tt client_wallet (λ (wallet : AgentWalletRow). (do
        tx_hash ← write_feedback network (record {
          mode = job.mode;
          chain = job.chain;
          sender_address = wallet.address;
          agent_token_id = token_id;
          score = completion_score;
        })
        update (λ (db : EscrowDb). record db {
          reputation =
              update_where (λ (v : ReputationEventRow). v.id == event_id) (set_feedback tx_hash)
                db.reputation;
        })))))

  unfoldable pub record_completion :
      (event_id : String) → EscrowJobRow → (agent_id : String) → EscrowIo (Unit {0})
  unfolding broadcast
  record_completion event_id job agent_id = do
    event ← write_reputation event_id (record {
      org_id = job.org_id;
      agent_id = agent_id;
      escrow_job_id = some job.id;
      score = completion_score;
    })
    when_some tt event (λ (v : ReputationEventRow). swallow (broadcast job agent_id v.id))

  unfoldable pub on_escrow_completed : (event_id : String) → (job_id : String) → EscrowIo (Unit {0})
  unfolding record_completion
  on_escrow_completed event_id job_id = do
    found ← query (λ (db : EscrowDb). find? (is_job job_id) db.jobs)
    job ← or_throw (error "escrow_job_not_found") found
    throw_if (not (job.state == completed)) (
        error (String.◌++◌ "reputation_write_refused:not_completed:" (escrow_state_text job.state)))
    agent ←
        query (
          resolve_provider_agent_id network.lower job.org_id job.provider_address job.mode
            job.chain)
    when_some tt agent (record_completion event_id job)
