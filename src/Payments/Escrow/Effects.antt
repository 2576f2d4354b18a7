-- ===== src/Payments/Escrow/Effects.antt =====
-- What createEscrowJob, fundEscrowJob and applyEscrowStateChange do to the tables of jobs and of
-- reservations, whatever they answer.
use aops_pmoa.Prelude.{
  ℕ, ◌≡◌, refl, sym, subst, ap, ◌∙◌, inl, inr, String, true, false, Option, none, some, List, [],
  ◌∷◌, ◌++◌, arith, ◌==◌, text_comparable, any, find?, find?-test, update_where, includes, Failure,
  Result, ok, err, Result-cases, Bool-cases,
}
use aops_pmoa.Prelude.Effects.{◌>>=◌, ◌>>◌, and_then, pure, atomically-err}
use aops_pmoa.Payments.Types.{ReservationStatus}
use aops_pmoa.Payments.Money.{parse_usdc_micros}
use aops_pmoa.Payments.Escrow.Types.{
  EscrowState, opened, completed, escrow_state_comparable, EscrowJobRow, EscrowReservationRow,
  EscrowQuote, SourceRow, EscrowDb, EscrowCall, EscrowNetwork, EscrowWorld,
}
use aops_pmoa.Payments.Escrow.Contract.{escrow_deployment_for}
use aops_pmoa.Payments.Escrow.Rows.{
  EscrowJob, is_job, locked_job, reservation_of, outcome_of, settle_reservation,
}
use aops_pmoa.Payments.Escrow.Calls.{CreateEscrowJobInput}
use aops_pmoa.Payments.Escrow.Jobs.{
  escrow_budget_micros, set_funded, create_job, create_escrow_job, fund_locked, fund_escrow_job,
}
use aops_pmoa.Payments.Escrow.Jobs.Creation.{Creates, create_escrow_job-eq-ok}
use aops_pmoa.Payments.Escrow.Jobs.Funding.{fund_escrow_job-eq-ok}
use aops_pmoa.Payments.Escrow.Lifecycle.{
  escrow_transitions, ApplyEscrowStateChangeInput, set_state, change_locked, change_state,
  after_commit, apply_escrow_state_change,
}
use aops_pmoa.Payments.Escrow.Reputation.Earned.{Earns, on_escrow_completed-Earns}
use aops_pmoa.Payments.Escrow.Lifecycle.Transitions.{change_state-parts}

-- The two tables stay.
abbrev pub Stays : EscrowDb → EscrowDb → Type 0
Stays db db' = (db'.jobs ≡ db.jobs) × (db'.reservations ≡ db.reservations)

pub data Effect (hash_quote : EscrowQuote → String) (db db' : EscrowDb) : Type 0 where
  stays : Stays db db' → Effect hash_quote db db'
  adds :
      (row : EscrowJobRow)
      → any (is_job row.id) db.jobs ≡ false
      → row.state ≡ opened
      → row.reservation_id ≡ none
      → db'.jobs ≡ db.jobs ++ row ∷ []
      → db'.reservations ≡ db.reservations
      → Effect hash_quote db db'
  funds :
      (job : EscrowJobRow) (source : SourceRow) (reservation_id tx_hash : String)
      → find? (is_job job.id) db.jobs ≡ some job
      → job.state ≡ opened
      → any (λ (r : EscrowReservationRow). r.id == reservation_id) db.reservations ≡ false
      → db'.jobs ≡ update_where (is_job job.id) (set_funded tx_hash reservation_id) db.jobs
      → db'.reservations
        ≡ db.reservations ++ reservation_of hash_quote reservation_id job source ∷ []
      → Effect hash_quote db db'
  changes :
      (job : EscrowJobRow) (next : EscrowState) (tx_hash deliverable_hash : Option String)
      → find? (is_job job.id) db.jobs ≡ some job
      → includes (escrow_transitions job.state) next ≡ true
      → db'.jobs ≡ update_where (is_job job.id) (set_state next tx_hash deliverable_hash) db.jobs
      → db'.reservations
        ≡ (settle_reservation job job.reservation_id (outcome_of next) db).reservations
      → Effect hash_quote db db'

settle-jobs :
    (job : EscrowJobRow) (id : Option String) (outcome : Option ReservationStatus) (db : EscrowDb)
    → (settle_reservation job id outcome db).jobs ≡ db.jobs
settle-jobs job none outcome db = refl
settle-jobs job (some id) none db = refl
settle-jobs job (some id) (some outcome) db = refl

settle-reservations :
    (job : EscrowJobRow) (id : Option String) (outcome : Option ReservationStatus) (db : EscrowDb)
    (js : List EscrowJobRow)
    → (settle_reservation job id outcome (record db { jobs = js })).reservations
      ≡ (settle_reservation job id outcome db).reservations
settle-reservations job none outcome db js = refl
settle-reservations job (some id) none db js = refl
settle-reservations job (some id) (some outcome) db js = refl

and_pure-db :
    {A : Type 0} (view : EscrowJob) (p : Result A × EscrowWorld)
    → (and_then p (λ t. pure {Db = EscrowDb} {Call = EscrowCall} view)).1.db ≡ p.1.db
and_pure-db view (ok a, w) = refl
and_pure-db view (err e, w) = refl

found-id :
    (id : String) (js : List EscrowJobRow) (j : EscrowJobRow)
    → find? (is_job id) js ≡ some j
    → j.id ≡ id
found-id id js j e = (text_comparable.same_iff j.id id).0 (find?-test (is_job id) js e)

settle-reputation :
    (job : EscrowJobRow) (id : Option String) (outcome : Option ReservationStatus) (db : EscrowDb)
    → (settle_reservation job id outcome db).reputation ≡ db.reputation
settle-reputation job none outcome db = refl
settle-reputation job (some id) none db = refl
settle-reputation job (some id) (some outcome) db = refl

-- The effect, with the events of reputation as they were.
abbrev pub Affects : (hash_quote : EscrowQuote → String) → EscrowDb → EscrowDb → Type 0
Affects hash_quote db db' = Effect hash_quote db db' × (db'.reputation ≡ db.reputation)

same-Affects :
    (hash_quote : EscrowQuote → String) (db db' : EscrowDb) → db' ≡ db → Affects hash_quote db db'
same-Affects hash_quote db db' e =
    (stays (ap (λ db. db.jobs) e, ap (λ db. db.reservations) e), ap (λ db. db.reputation) e)

module _ (network : EscrowNetwork) where
  create_escrow_job-err :
      (now : ℕ) (id : String) (input : CreateEscrowJobInput) (w w' : EscrowWorld) (e : Failure)
      → create_escrow_job network now id input w ≡ (err e, w')
      → w'.db ≡ w.db
  unfolding create_escrow_job
  create_escrow_job-err now id input w w' e h =
      elim (Result-cases (escrow_budget_micros (parse_usdc_micros input.budget_usdc))) [
        | inr (failure, refused) ↦ ground arith
        | inl (budget, parsed) ↦ elim (Result-cases (escrow_deployment_for input.chain)) [
          | inr (failure, refused) ↦ ground arith
          | inl (deployment, deployed) ↦
              atomically-err (create_job network now id input budget deployment) w
                (rw (parsed, deployed) at h)
        ]
      ]

  pub create_escrow_job-Affects :
      (now : ℕ) (id : String) (input : CreateEscrowJobInput) (w w' : EscrowWorld)
      (r : Result EscrowJob)
      → create_escrow_job network now id input w ≡ (r, w')
      → Affects network.hash_quote w.db w'.db
  create_escrow_job-Affects now id input w w' (err e) h =
      same-Affects network.hash_quote w.db w'.db (create_escrow_job-err now id input w w' e h)
  create_escrow_job-Affects now id input w w' (ok view) h =
      let c : Creates network now id input w w' =
        create_escrow_job-eq-ok network now id input w w' view h in
      (
        adds _ c.fresh refl refl (ap (λ db. db.jobs) c.rows) (ap (λ db. db.reservations) c.rows),
        ap (λ db. db.reputation) c.rows,
      )

  pub fund_escrow_job-Affects :
      (reservation_id id : String) (w w' : EscrowWorld) (r : Result EscrowJob)
      → fund_escrow_job network reservation_id id w ≡ (r, w')
      → Affects network.hash_quote w.db w'.db
  unfolding fund_escrow_job
  fund_escrow_job-Affects reservation_id id w w' (err e) h =
      same-Affects network.hash_quote w.db w'.db
        (atomically-err (locked_job id >>= fund_locked network reservation_id) w h)
  fund_escrow_job-Affects reservation_id id w w' (ok view) h =
      let (job, found, at, enough, (job_id, known, (wallet, owned, f))) =
        fund_escrow_job-eq-ok network reservation_id id w w' view h in
      (
        funds job f.source reservation_id f.tx_hash (rw (found-id id w.db.jobs job found) found) at
            f.fresh f.marked f.reserved,
        f.earned,
      )

  pub change_state-Affects :
      (input : ApplyEscrowStateChangeInput) (w w' : EscrowWorld) (r : Result EscrowJob)
      → change_state network input w ≡ (r, w')
      → Affects network.hash_quote w.db w'.db
  unfolding change_state
  change_state-Affects input w w' (err e) h =
      same-Affects network.hash_quote w.db w'.db
        (atomically-err (locked_job input.escrow_job_id >>= change_locked network input) w h)
  change_state-Affects input w w' (ok view) h =
      let (job, found, allowed, (job_id, known, (tx_hash, sent, made))) =
        change_state-parts network input w w' view h in
      (
        changes job input.next tx_hash input.deliverable_hash
            (rw (found-id input.escrow_job_id w.db.jobs job found) found) allowed
            (ap (λ db. db.jobs) made ∙ settle-jobs job job.reservation_id (outcome_of input.next) _)
            (ap (λ db. db.reservations) made
              ∙ settle-reservations job job.reservation_id (outcome_of input.next) w.db _),
        ap (λ db. db.reputation) made
            ∙ settle-reputation job job.reservation_id (outcome_of input.next) _,
      )

  -- applyEscrowStateChange is its transaction, and what a completion earns after it.
  pub apply_escrow_state_change-Affects :
      (event_id : String) (input : ApplyEscrowStateChangeInput) (w w' : EscrowWorld)
      (r : Result EscrowJob)
      → apply_escrow_state_change network event_id input w ≡ (r, w')
      → (u : EscrowWorld) × Affects network.hash_quote w.db u.db × Earns u.db w'.db
  unfolding apply_escrow_state_change
  apply_escrow_state_change-Affects event_id input w w' r e =
      parts (change_state network input w) refl e
    where
      rest :
          (view : EscrowJob) (u : EscrowWorld)
          → Earns u.db (after_commit network event_id input.next view u).1.db
      rest view u = elim (Bool-cases (input.next == completed)) [
        | inl done ↦ rw done (on_escrow_completed-Earns network event_id view.id u)
        | inr other ↦ rw other (inl (refl, refl, refl))
      ]

      finish :
          (view : EscrowJob) (u : EscrowWorld)
          → and_then (after_commit network event_id input.next view u) (λ t. pure view) ≡ (r, w')
          → Earns u.db w'.db
      finish view u k =
          let at : w'.db ≡ (after_commit network event_id input.next view u).1.db =
            sym (ap (λ (q : Result EscrowJob × EscrowWorld). q.1.db) k)
            ∙ and_pure-db view (after_commit network event_id input.next view u) in
          subst (Earns u.db) (sym at) (rest view u)

      parts :
          (p : Result EscrowJob × EscrowWorld)
          → change_state network input w ≡ p
          → and_then p (λ view. after_commit network event_id input.next view >> pure view)
            ≡ (r, w')
          → (u : EscrowWorld) × Affects network.hash_quote w.db u.db × Earns u.db w'.db
      parts (err failure, u) sent k = (
        u,
        change_state-Affects input w u (err failure) sent,
        let at : w'.db ≡ u.db = sym (ap (λ (q : Result EscrowJob × EscrowWorld). q.1.db) k) in
            subst (Earns u.db) (sym at) (inl (refl, refl, refl)),
      )
      parts (ok view, u) sent k =
          (u, change_state-Affects input w u (ok view) sent, finish view u k)
