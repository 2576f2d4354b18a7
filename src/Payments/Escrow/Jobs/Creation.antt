-- ===== src/Payments/Escrow/Jobs/Creation.antt =====
-- Creation of a job: what createEscrowJob requires and writes.
use aops_pmoa.Payments.Types.{numeric_limit}
use mathlib.Core.Option
use aops_pmoa.Prelude.{
  ℕ, ◌≤◌, ◌≡◌, refl, inl, inr, String, Bool, false, ◌||◌, Option, none, some, List, [], ◌∷◌, ◌++◌,
  arith, leb, nat_beq, if◌then◌else◌, ◌==◌, text_comparable, any, ok, Result-cases, Bool-cases,
  Option-cases,
}
use aops_pmoa.Prelude.Effects.{◌>>=◌, same_db, then-eq-ok, atomically-eq-ok}
use aops_pmoa.Payments.Types.{PaymentChain}
use aops_pmoa.Payments.Money.{parse_usdc_micros}
use aops_pmoa.Payments.Escrow.Types.{
  EscrowJobRow, AgentWalletRow, EscrowDb, execute, EscrowReceiptLog, EscrowNetwork, EscrowWorld,
}
use aops_pmoa.Payments.Escrow.Contract.{
  escrow_minimum_budget_micros, EscrowDeployment, escrow_deployments, escrow_deployment_for,
  parse_job_created,
}
use aops_pmoa.Payments.Escrow.Rows.{
  EscrowJob, is_job, is_same_onchain_job, insert_job, find_agent_wallet,
}
use aops_pmoa.Payments.Escrow.Calls.{CreateEscrowJobInput, create_execution, new_job}
use aops_pmoa.Payments.Escrow.Jobs.{
  escrow_budget_micros, read_receipt_logs, record_creation, create_on_chain, create_job,
  create_escrow_job,
}
use aops_pmoa.Payments.Escrow.Jobs.Receipts.{read_receipt_logs-db}

insert_job-eq-ok :
    (row made : EscrowJobRow) (db db' : EscrowDb)
    → insert_job row db ≡ ok (made, db')
    → (made ≡ row)
      × (db' ≡ record db { jobs = db.jobs ++ row ∷ [] })
      × (any (λ (j : EscrowJobRow). is_job row.id j || is_same_onchain_job row j) db.jobs ≡ false)
unfolding insert_job
insert_job-eq-ok row made db db' e = elim (Bool-cases (leb numeric_limit row.budget_usdc)) [
  | inl large ↦ absurd (ground arith)
  | inr fits ↦ elim (Bool-cases (nat_beq row.budget_usdc 0)) [
    | inl empty ↦ absurd (ground arith)
    | inr positive ↦
        elim (Bool-cases
          (any (λ (j : EscrowJobRow). is_job row.id j || is_same_onchain_job row j) db.jobs)) [
            | inl taken ↦ absurd (ground arith)
            | inr fresh ↦ (ground arith, ground arith, fresh)
          ]
  ]
]

any-either :
    {A : Type 0} (p q : A → Bool) (xs : List A)
    → any (λ a. p a || q a) xs ≡ false
    → any p xs ≡ false
any-either p q [] h = refl
any-either p q (x ∷ xs) h = ground (arith, any-either p q xs)

module _ (network : EscrowNetwork) where
  -- The row of a job that was created, with what it required of its parties.
  pub record Creates (now : ℕ) (id : String) (input : CreateEscrowJobInput) (w w' : EscrowWorld)
      : Type 0 where
    pub budget : ℕ
    pub deployment : EscrowDeployment
    pub wallet : AgentWalletRow
    pub job_id : ℕ
    pub tx_hash : String
    pub parsed : parse_usdc_micros input.budget_usdc ≡ some budget
    pub enough : escrow_minimum_budget_micros ≤ budget
    pub deployed : escrow_deployments input.chain ≡ some deployment
    pub owned : find_agent_wallet input.client_agent_id input.mode input.chain w.db ≡ some wallet
    pub not_client : (network.lower wallet.address == network.lower input.provider_address) ≡ false
    pub not_evaluator :
        (network.lower (Option.get_or input.evaluator_address wallet.address)
          == network.lower input.provider_address)
        ≡ false
    pub fresh : any (is_job id) w.db.jobs ≡ false
    pub rows : w'.db ≡ record w.db {
      jobs =
          w.db.jobs
          ++ new_job now id input budget job_id
              (if network.lower (Option.get_or input.evaluator_address wallet.address)
                  == network.lower wallet.address
                then 2
                else 3)
              (Option.get_or input.evaluator_address wallet.address)
              tx_hash
              deployment
            ∷ [];
    }

  -- The row that a creation adds to the tables.
  abbrev pub created_row :
      (now : ℕ)
      → (id : String) → CreateEscrowJobInput
      → (budget : ℕ) → EscrowDeployment
      → (client evaluator tx_hash : String) → (job_id : ℕ) → EscrowJobRow
  created_row now id input budget deployment client evaluator tx_hash job_id =
      new_job now id input budget job_id
        (if network.lower evaluator == network.lower client then 2 else 3) evaluator tx_hash
        deployment

  record_creation-eq-ok :
      (now : ℕ) (id : String) (input : CreateEscrowJobInput) (budget : ℕ)
      (deployment : EscrowDeployment) (client evaluator tx_hash : String)
      (logs : List EscrowReceiptLog) (w w' : EscrowWorld) (view : EscrowJob)
      → record_creation network now id input budget deployment client evaluator tx_hash logs w
        ≡ (ok view, w')
      → (job_id : ℕ) × (w'.db ≡ record w.db {
        jobs =
            w.db.jobs
            ++ created_row now id input budget deployment client evaluator tx_hash job_id ∷ [];
      })
        × (any (is_job id) w.db.jobs ≡ false)
  unfolding record_creation
  record_creation-eq-ok now id input budget deployment client evaluator tx_hash logs w w' view e =
      elim (Option-cases (parse_job_created network logs deployment.escrow_address)) [
        | inl unknown ↦ absurd (ground arith)
        | inr (job_id, known) ↦
            let row : EscrowJobRow =
              created_row now id input budget deployment client evaluator tx_hash job_id in
            elim (Result-cases (insert_job row w.db)) [
              | inr (failure, refused) ↦ absurd (ground arith)
              | inl ((made, db'), inserted) ↦
                  let (same, written, fresh) = insert_job-eq-ok row made w.db db' inserted in
                  (
                    job_id,
                    ground arith,
                    any-either (is_job row.id) (is_same_onchain_job row) w.db.jobs fresh,
                  )
            ]
      ]

  receipt_creation-eq-ok :
      (now : ℕ) (id : String) (input : CreateEscrowJobInput) (budget : ℕ)
      (deployment : EscrowDeployment) (client evaluator tx_hash : String) (w w' : EscrowWorld)
      (view : EscrowJob)
      → (read_receipt_logs network input tx_hash
            >>= record_creation network now id input budget deployment client evaluator tx_hash)
          w
        ≡ (ok view, w')
      → (job_id : ℕ) × (w'.db ≡ record w.db {
        jobs =
            w.db.jobs
            ++ created_row now id input budget deployment client evaluator tx_hash job_id ∷ [];
      })
        × (any (is_job id) w.db.jobs ≡ false)
  receipt_creation-eq-ok now id input budget deployment client evaluator tx_hash w w' view e =
      let (logs, v, read, last) =
        then-eq-ok (read_receipt_logs network input tx_hash)
          (record_creation network now id input budget deployment client evaluator tx_hash) w e in
      let kept : v.db ≡ w.db =
        same_db (read_receipt_logs network input tx_hash)
          (read_receipt_logs-db network input tx_hash w) read in
      rw kept at (
        record_creation-eq-ok now id input budget deployment client evaluator tx_hash logs v w' view
          last)

  create_on_chain-eq-ok :
      (now : ℕ) (id : String) (input : CreateEscrowJobInput) (budget : ℕ)
      (deployment : EscrowDeployment) (client evaluator : String) (w w' : EscrowWorld)
      (view : EscrowJob)
      → create_on_chain network now id input budget deployment client evaluator w ≡ (ok view, w')
      → ((network.lower evaluator == network.lower input.provider_address) ≡ false)
        × ((tx_hash : String) × ((job_id : ℕ) × (w'.db ≡ record w.db {
          jobs =
              w.db.jobs
              ++ created_row now id input budget deployment client evaluator tx_hash job_id ∷ [];
        })
              × (any (is_job id) w.db.jobs ≡ false)))
  unfolding create_on_chain
  create_on_chain-eq-ok now id input budget deployment client evaluator w w' view e =
      elim (Bool-cases (network.lower evaluator == network.lower input.provider_address)) [
        | inl same ↦ absurd (ground arith)
        | inr apart ↦
            elim (Result-cases (
              network.send (create_execution input client evaluator deployment.escrow_address)
                w.calls)) [
                  | inr (failure, failed) ↦ absurd (ground arith)
                  | inl (tx_hash, sent) ↦ (
                    apart,
                    (
                      tx_hash,
                      receipt_creation-eq-ok now id input budget deployment client evaluator tx_hash
                          (record w {
                            calls =
                                w.calls
                                ++ execute (
                                    create_execution input client evaluator
                                      deployment.escrow_address)
                                  ∷ [];
                          })
                          w' view (rw (apart, sent) at e),
                    ),
                  )
                ]
      ]

  -- What a creation adds, of a budget on a deployment.
  abbrev Writes :
      (now : ℕ)
      → (id : String) → CreateEscrowJobInput
      → (budget : ℕ) → EscrowDeployment
      → EscrowWorld
      → EscrowWorld
      → Type 0
  Writes now id input budget deployment w w' =
      (wallet : AgentWalletRow) × (find_agent_wallet input.client_agent_id input.mode input.chain
          w.db
        ≡ some wallet)
      × ((network.lower wallet.address == network.lower input.provider_address) ≡ false)
      × ((network.lower (Option.get_or input.evaluator_address wallet.address)
            == network.lower input.provider_address)
          ≡ false)
      × ((tx_hash : String) × ((job_id : ℕ) × (w'.db ≡ record w.db {
        jobs =
            w.db.jobs
            ++ created_row now id input budget deployment wallet.address
                (Option.get_or input.evaluator_address wallet.address) tx_hash job_id
              ∷ [];
      })
            × (any (is_job id) w.db.jobs ≡ false)))

  create_job-eq-ok :
      (now : ℕ) (id : String) (input : CreateEscrowJobInput) (budget : ℕ)
      (deployment : EscrowDeployment) (w w' : EscrowWorld) (view : EscrowJob)
      → create_job network now id input budget deployment w ≡ (ok view, w')
      → Writes now id input budget deployment w w'
  unfolding create_job
  create_job-eq-ok now id input budget deployment w w' view e =
      elim (Option-cases (find_agent_wallet input.client_agent_id input.mode input.chain w.db)) [
        | inl nobody ↦ absurd (ground arith)
        | inr (wallet, owned) ↦
            elim (Bool-cases
              (network.lower wallet.address == network.lower input.provider_address)) [
                | inl same ↦ absurd (ground arith)
                | inr apart ↦
                    let (neutral, made) =
                      create_on_chain-eq-ok now id input budget deployment wallet.address
                        (Option.get_or input.evaluator_address wallet.address) w w' view
                        (rw (owned, apart) at e) in
                    (wallet, owned, apart, neutral, made)
              ]
      ]

  create_escrow_job-parts :
      (now : ℕ) (id : String) (input : CreateEscrowJobInput) (w w' : EscrowWorld) (view : EscrowJob)
      → create_escrow_job network now id input w ≡ (ok view, w')
      → (budget : ℕ) × (escrow_budget_micros (parse_usdc_micros input.budget_usdc) ≡ ok budget)
        × ((deployment : EscrowDeployment) × (escrow_deployment_for input.chain ≡ ok deployment)
            × (create_job network now id input budget deployment w ≡ (ok view, w')))
  unfolding create_escrow_job
  create_escrow_job-parts now id input w w' view e =
      elim (Result-cases (escrow_budget_micros (parse_usdc_micros input.budget_usdc))) [
        | inr (failure, refused) ↦ absurd (ground arith)
        | inl (budget, fair) ↦ elim (Result-cases (escrow_deployment_for input.chain)) [
          | inr (failure, refused) ↦ absurd (ground arith)
          | inl (deployment, deployed) ↦ (
            budget,
            fair,
            (
              deployment,
              deployed,
              atomically-eq-ok (create_job network now id input budget deployment) w
                  (rw (fair, deployed) at e),
            ),
          )
        ]
      ]

  budget-eq-ok :
      (o : Option ℕ) (budget : ℕ)
      → escrow_budget_micros o ≡ ok budget
      → (o ≡ some budget) × (escrow_minimum_budget_micros ≤ budget)
  unfolding escrow_budget_micros
  budget-eq-ok none budget e = absurd (ground arith)
  budget-eq-ok (some micros) budget e = ground arith

  deployment-eq-ok :
      (chain : PaymentChain) (deployment : EscrowDeployment)
      → escrow_deployment_for chain ≡ ok deployment
      → escrow_deployments chain ≡ some deployment
  unfolding escrow_deployment_for
  deployment-eq-ok chain deployment e = elim (Option-cases (escrow_deployments chain)) [
    | inl absent ↦ absurd (ground arith)
    | inr (d, present) ↦ ground arith
  ]

  pub create_escrow_job-eq-ok :
      (now : ℕ) (id : String) (input : CreateEscrowJobInput) (w w' : EscrowWorld) (view : EscrowJob)
      → create_escrow_job network now id input w ≡ (ok view, w')
      → Creates now id input w w'
  create_escrow_job-eq-ok now id input w w' view e =
      let (budget, fair, (deployment, deployed, body)) =
        create_escrow_job-parts now id input w w' view e in
      let (wallet, owned, apart, neutral, (tx_hash, (job_id, rows, fresh))) =
        create_job-eq-ok now id input budget deployment w w' view body in
      let (parsed, enough) = budget-eq-ok (parse_usdc_micros input.budget_usdc) budget fair in
      record {
        budget = budget;
        deployment = deployment;
        wallet = wallet;
        job_id = job_id;
        tx_hash = tx_hash;
        parsed = parsed;
        enough = enough;
        deployed = deployment-eq-ok input.chain deployment deployed;
        owned = owned;
        not_client = apart;
        not_evaluator = neutral;
        fresh = fresh;
        rows = rows;
      }
