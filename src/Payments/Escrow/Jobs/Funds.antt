-- ===== src/Payments/Escrow/Jobs/Funds.antt =====
-- What a funding is to send and write, in full.
use aops_pmoa.Prelude.{
  ℕ, ◌≡◌, String, false, Option, none, some, List, [], ◌∷◌, ◌++◌, ◌==◌, text_comparable, any,
  filter, update_where, ok,
}
use aops_pmoa.Payments.Escrow.Types.{
  funded, text, number, escrow_state_comparable, EscrowJobRow, EscrowReservationRow, SourceRow,
  EscrowCall, execute, ContractExecution, EscrowNetwork, EscrowWorld,
}
use aops_pmoa.Payments.Types.{reserved}
use aops_pmoa.Payments.Escrow.Rows.{fleet_wallet_address, first_source, is_usable_source, quote_of}

module _ (network : EscrowNetwork) where
  -- The calls that a funding is to send, in full. A call of the escrow, on the job's chain:
  abbrev pub escrow_call :
      EscrowJobRow → (sender signature : String) → (job_id : ℕ) → ContractExecution
  escrow_call job sender signature job_id = record {
    mode = job.mode;
    chain = job.chain;
    sender_address = sender;
    abi_function_signature = signature;
    abi_parameters =
        number job_id ∷ text job.token_address ∷ number job.budget_usdc ∷ text "0x" ∷ [];
    contract_address = job.escrow_address;
  }

  -- The approval of the token: the escrow may take the budget, and no more.
  abbrev pub approval_call : EscrowJobRow → (sender : String) → EscrowCall
  approval_call job sender = execute (record {
    mode = job.mode;
    chain = job.chain;
    sender_address = sender;
    abi_function_signature = "approve(address,uint256)";
    abi_parameters = text job.escrow_address ∷ number job.budget_usdc ∷ [];
    contract_address = job.token_address;
  })

  -- The budget is set from the wallet of the provider, where that is held.
  abbrev pub budget_calls : EscrowJobRow → (job_id : ℕ) → Option String → List EscrowCall
  budget_calls job job_id none = []
  budget_calls job job_id (some wallet) =
      execute (escrow_call job wallet "setBudget(uint256,address,uint256,bytes)" job_id) ∷ []

  abbrev pub funding_calls : EscrowJobRow → (client : String) → (job_id : ℕ) → List EscrowCall
  funding_calls job client job_id =
      approval_call job client
      ∷ execute (escrow_call job client "fund(uint256,address,uint256,bytes)" job_id)
      ∷ []

  pub record Funds (reservation_id : String) (job : EscrowJobRow) (job_id : ℕ) (client : String)
      (w w' : EscrowWorld) : Type 0 where
    pub tx_hash : String
    pub source : SourceRow
    pub chosen :
        first_source (filter (is_usable_source job.org_id job.chain) w.db.sources) ≡ some source
    pub fresh : any (λ (r : EscrowReservationRow). r.id == reservation_id) w.db.reservations ≡ false
    pub reserved :
        w'.db.reservations
        ≡ w.db.reservations
          ++ record {
            id = reservation_id;
            org_id = job.org_id;
            agent_id = job.client_agent_id;
            source_id = source.id;
            amount_usdc = job.budget_usdc;
            rail = source.rail;
            status = reserved;
            reason_job_id = job.id;
            quote_hash = network.hash_quote (quote_of job);
            quote = quote_of job;
            expires_at = job.expires_at;
          }
            ∷ []
    pub marked :
        w'.db.jobs
        ≡ update_where
            (λ (j : EscrowJobRow). j.id == job.id)
            (λ (j : EscrowJobRow). record j {
              state = funded;
              fund_tx_hash = some tx_hash;
              reservation_id = some reservation_id;
            })
            w.db.jobs
    pub answered :
        network.send (escrow_call job client "fund(uint256,address,uint256,bytes)" job_id) (
          (w.calls
            ++ budget_calls job job_id (
                fleet_wallet_address network.lower job.org_id job.provider_address job.mode
                  job.chain w.db))
          ++ approval_call job client ∷ [])
        ≡ ok tx_hash
    pub earned : w'.db.reputation ≡ w.db.reputation
    pub sent :
        w'.calls
        ≡ w.calls
          ++ (budget_calls job job_id (
                fleet_wallet_address network.lower job.org_id job.provider_address job.mode
                  job.chain w.db)
              ++ funding_calls job client job_id)
