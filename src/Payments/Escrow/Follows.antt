-- ===== src/Payments/Escrow/Follows.antt =====
-- The lifecycle of a job as a step relation, and what a job keeps through the operations of escrow.ts.
use aops_pmoa.Prelude.{
  ◌≡◌, refl, sym, subst, ◌∙◌, inl, inr, String, true, Option, List, [], ◌∷◌, arith, text_comparable,
  update_where, includes, All, Extends, Extends-refl, Extends-append, Bool-cases,
}
use aops_pmoa.Prelude.Keys.{HasDistinct, found-only}
use aops_pmoa.Payments.Escrow.Types.{
  EscrowState, opened, funded, submitted, completed, rejected, expired, escrow_state_comparable,
  EscrowJobRow, EscrowQuote, EscrowDb,
}
use aops_pmoa.Payments.Escrow.Rows.{is_job}
use aops_pmoa.Payments.Escrow.Jobs.{set_funded}
use aops_pmoa.Payments.Escrow.Lifecycle.{escrow_transitions, set_state}
use aops_pmoa.Payments.Escrow.Effects.{Effect, stays, adds, funds, changes}

-- The ERC-8183 lifecycle, one move at a time.
pub data Moves : EscrowState → EscrowState → Type 0 where
  fund : Moves opened funded
  submits : Moves funded submitted
  complete : Moves submitted completed
  reject : Moves submitted rejected
  expire : Moves submitted expired

pub data Reaches (s : EscrowState) : EscrowState → Type 0 where
  here : Reaches s s
  next : {t u : EscrowState} → Reaches s t → Moves t u → Reaches s u

pub Reaches-trans : {s t u : EscrowState} → Reaches s t → Reaches t u → Reaches s u
Reaches-trans r here = r
Reaches-trans r (next q m) = next (Reaches-trans r q) m

-- The transitions of the source are the moves, the funding aside.
pub transitions-Moves : (s t : EscrowState) → includes (escrow_transitions s) t ≡ true → Moves s t
transitions-Moves opened t h = absurd (ground arith)
transitions-Moves completed t h = absurd (ground arith)
transitions-Moves rejected t h = absurd (ground arith)
transitions-Moves expired t h = absurd (ground arith)
transitions-Moves funded submitted h = submits
transitions-Moves funded opened h = absurd (ground arith)
transitions-Moves funded funded h = absurd (ground arith)
transitions-Moves funded completed h = absurd (ground arith)
transitions-Moves funded rejected h = absurd (ground arith)
transitions-Moves funded expired h = absurd (ground arith)
transitions-Moves submitted completed h = complete
transitions-Moves submitted rejected h = reject
transitions-Moves submitted expired h = expire
transitions-Moves submitted opened h = absurd (ground arith)
transitions-Moves submitted funded h = absurd (ground arith)
transitions-Moves submitted submitted h = absurd (ground arith)

-- What a job keeps: its parties, its place on the chain, its budget and its mode; its state moves
-- along the lifecycle.
pub record Follows (j j' : EscrowJobRow) : Type 0 where
  pub id : j'.id ≡ j.id
  pub org_id : j'.org_id ≡ j.org_id
  pub provider_address : j'.provider_address ≡ j.provider_address
  pub evaluator_address : j'.evaluator_address ≡ j.evaluator_address
  pub onchain_job_id : j'.onchain_job_id ≡ j.onchain_job_id
  pub budget_usdc : j'.budget_usdc ≡ j.budget_usdc
  pub escrow_mode : j'.escrow_mode ≡ j.escrow_mode
  pub state : Reaches j.state j'.state

pub Follows-refl : (j : EscrowJobRow) → Follows j j
Follows-refl j = record {
  id = refl;
  org_id = refl;
  provider_address = refl;
  evaluator_address = refl;
  onchain_job_id = refl;
  budget_usdc = refl;
  escrow_mode = refl;
  state = here;
}

pub Follows-trans : (x y z : EscrowJobRow) → Follows x y → Follows y z → Follows x z
Follows-trans x y z p q = record {
  id = q.id ∙ p.id;
  org_id = q.org_id ∙ p.org_id;
  provider_address = q.provider_address ∙ p.provider_address;
  evaluator_address = q.evaluator_address ∙ p.evaluator_address;
  onchain_job_id = q.onchain_job_id ∙ p.onchain_job_id;
  budget_usdc = q.budget_usdc ∙ p.budget_usdc;
  escrow_mode = q.escrow_mode ∙ p.escrow_mode;
  state = Reaches-trans p.state q.state;
}

-- An update of the rows that are the job.
pub update-Extends :
    (job : EscrowJobRow) (change : EscrowJobRow → EscrowJobRow) (js : List EscrowJobRow)
    → All (λ j. is_job job.id j ≡ true → j ≡ job) js
    → Follows job (change job)
    → Extends Follows js (update_where (is_job job.id) change js)
update-Extends job change [] only f = tt
update-Extends job change (j ∷ js) (first, only) f = elim (Bool-cases (is_job job.id j)) [
  | inl hit ↦
      rw hit
        (subst (λ z. Follows z (change z)) (sym (first hit)) f, update-Extends job change js only f)
  | inr miss ↦ rw miss (Follows-refl j, update-Extends job change js only f)
]

pub funded-Follows :
    (j : EscrowJobRow) (tx_hash id : String)
    → j.state ≡ opened
    → Follows j (set_funded tx_hash id j)
funded-Follows j tx_hash id at = record {
  id = refl;
  org_id = refl;
  provider_address = refl;
  evaluator_address = refl;
  onchain_job_id = refl;
  budget_usdc = refl;
  escrow_mode = refl;
  state = rw at (next here fund);
}

pub changed-Follows :
    (j : EscrowJobRow) (to : EscrowState) (tx_hash deliverable_hash : Option String)
    → includes (escrow_transitions j.state) to ≡ true
    → Follows j (set_state to tx_hash deliverable_hash j)
changed-Follows j to tx_hash deliverable_hash allowed = record {
  id = refl;
  org_id = refl;
  provider_address = refl;
  evaluator_address = refl;
  onchain_job_id = refl;
  budget_usdc = refl;
  escrow_mode = refl;
  state = next here (transitions-Moves j.state to allowed);
}

pub Effect-Extends :
    (hash_quote : EscrowQuote → String) (db db' : EscrowDb)
    → Effect hash_quote db db'
    → HasDistinct (λ (j : EscrowJobRow). j.id) db.jobs
    → Extends Follows db.jobs db'.jobs
Effect-Extends hash_quote db db' (stays (jobs, rows)) distinct =
    rw jobs (Extends-refl Follows Follows-refl db.jobs)
Effect-Extends hash_quote db db' (adds row fresh at unheld jobs rows) distinct =
    rw jobs (Extends-append Follows Follows-refl db.jobs (row ∷ []))
Effect-Extends hash_quote db db' (funds job source id tx_hash found at fresh jobs rows) distinct =
    rw jobs (
      update-Extends job (set_funded tx_hash id) db.jobs
        (found-only (λ (j : EscrowJobRow). j.id) job.id db.jobs distinct found)
        (funded-Follows job tx_hash id at))
Effect-Extends hash_quote db db' (changes job to tx_hash deliverable_hash found allowed jobs rows)
      distinct =
    rw jobs (
      update-Extends job (set_state to tx_hash deliverable_hash) db.jobs
        (found-only (λ (j : EscrowJobRow). j.id) job.id db.jobs distinct found)
        (changed-Follows job to tx_hash deliverable_hash allowed))

-- Nothing follows completion.
pub not-Moves : {t u : EscrowState} → Moves t u → t ≡ completed → ⊥
not-Moves fund e = absurd (ground arith)
not-Moves submits e = absurd (ground arith)
not-Moves complete e = absurd (ground arith)
not-Moves reject e = absurd (ground arith)
not-Moves expire e = absurd (ground arith)

pub completed-Reaches : {s t : EscrowState} → s ≡ completed → Reaches s t → t ≡ completed
completed-Reaches e here = e
completed-Reaches e (next r m) = absurd (not-Moves m (completed-Reaches e r))
