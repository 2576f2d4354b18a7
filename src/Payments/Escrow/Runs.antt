-- ===== src/Payments/Escrow/Runs.antt =====
-- Runs of createEscrowJob, fundEscrowJob and applyEscrowStateChange, in any order, each ending well or
-- in a failure: what a job keeps, and the lifecycle that its state follows.
use aops_pmoa.Prelude.{
  ℕ, ◌≡◌, sym, subst, ap, inl, inr, String, some, List, [], ◌∷◌, map, ◌==◌, text_comparable, find?,
  All, All-append, Extends, Extends-refl, Extends-trans, Extends-find?, Result,
}
use aops_pmoa.Prelude.Keys.{All-map, HasDistinct}
use aops_pmoa.Payments.Escrow.Types.{
  completed, escrow_state_comparable, EscrowJobRow, ReputationEventRow, EscrowQuote, EscrowDb,
  EscrowNetwork, EscrowWorld,
}
use aops_pmoa.Payments.Escrow.Rows.{EscrowJob, is_job}
use aops_pmoa.Payments.Escrow.Calls.{CreateEscrowJobInput}
use aops_pmoa.Payments.Escrow.Jobs.{create_escrow_job, fund_escrow_job}
use aops_pmoa.Payments.Escrow.Lifecycle.{ApplyEscrowStateChangeInput, apply_escrow_state_change}
use aops_pmoa.Payments.Escrow.Reputation.Earned.{earned_ids, Earns}
use aops_pmoa.Payments.Escrow.Effects.{
  Affects, create_escrow_job-Affects, fund_escrow_job-Affects, apply_escrow_state_change-Affects,
}
use aops_pmoa.Payments.Escrow.Booked.{IsBooked}
use aops_pmoa.Payments.Escrow.Books.{Effect-IsBooked}
use aops_pmoa.Payments.Escrow.Follows.{
  Follows, Follows-refl, Follows-trans, Effect-Extends, completed-Reaches,
}

-- The job of an event of reputation is there, and completed.
abbrev pub IsCompleted : List EscrowJobRow → String → Type 0
IsCompleted js id = (j : EscrowJobRow) × (find? (is_job id) js ≡ some j) × (j.state ≡ completed)

-- Each event of reputation is of a completed job.
abbrev pub IsEarned : EscrowDb → Type 0
IsEarned db = All (IsCompleted db.jobs) (earned_ids db)

Extends-IsCompleted :
    (js js' : List EscrowJobRow)
    → Extends Follows js js'
    → (id : String) → IsCompleted js id
    → IsCompleted js' id
Extends-IsCompleted js js' kept id (j, found, at) =
    let (j', there, f) =
      Extends-find? Follows (is_job id) (λ x y q. ap (λ i. i == id) q.id) js js' j kept found in
    (j', there, completed-Reaches at f.state)

Affects-IsEarned :
    (hash_quote : EscrowQuote → String) (db db' : EscrowDb)
    → Affects hash_quote db db'
    → HasDistinct (λ (j : EscrowJobRow). j.id) db.jobs
    → IsEarned db
    → IsEarned db'
Affects-IsEarned hash_quote db db' (effect, same) distinct h =
    let kept = Effect-Extends hash_quote db db' effect distinct in
    let ids : earned_ids db' ≡ earned_ids db =
      ap (map (λ (v : ReputationEventRow). v.escrow_job_id)) same in
    subst (All (IsCompleted db'.jobs)) (sym ids) (
      All-map (IsCompleted db.jobs) (IsCompleted db'.jobs)
        (Extends-IsCompleted db.jobs db'.jobs kept) (earned_ids db) h)

Earns-IsEarned : (db db' : EscrowDb) → Earns db db' → IsEarned db → IsEarned db'
Earns-IsEarned db db' (inl (jobs, rows, ids)) h = rw (jobs, ids) h
Earns-IsEarned db db' (inr (job, found, at, first, ids, jobs, rows)) h =
    rw (jobs, ids)
      (All-append (IsCompleted db.jobs) (earned_ids db) (job.id ∷ []) h ((job, found, at), tt))

Earns-same :
    (db db' : EscrowDb) → Earns db db' → (db'.jobs ≡ db.jobs) × (db'.reservations ≡ db.reservations)
Earns-same db db' (inl (jobs, rows, ids)) = (jobs, rows)
Earns-same db db' (inr (job, found, at, first, ids, jobs, rows)) = (jobs, rows)

-- The books hold and reputation is earned.
abbrev pub IsSound : EscrowDb → Type 0
IsSound db = IsBooked db × IsEarned db

-- From sound tables to sound tables, with every job kept on its lifecycle.
abbrev pub Preserves : EscrowDb → EscrowDb → Type 0
Preserves db db' = IsSound db' × Extends Follows db.jobs db'.jobs

Affects-Preserves :
    (hash_quote : EscrowQuote → String) (db db' : EscrowDb)
    → Affects hash_quote db db'
    → IsSound db
    → Preserves db db'
Affects-Preserves hash_quote db db' effect (booked, earned) = (
  (
    Effect-IsBooked hash_quote db db' effect.0 booked,
    Affects-IsEarned hash_quote db db' effect booked.0 earned,
  ),
  Effect-Extends hash_quote db db' effect.0 booked.0,
)

Earns-Preserves : (db db' : EscrowDb) → Earns db db' → IsSound db → Preserves db db'
Earns-Preserves db db' e (booked, earned) =
    let (jobs, rows) = Earns-same db db' e in
    (
      (rw (jobs, rows) booked, Earns-IsEarned db db' e earned),
      rw jobs (Extends-refl Follows Follows-refl db.jobs),
    )

Preserves-trans :
    (a b c : EscrowDb)
    → (IsSound a → Preserves a b)
    → (IsSound b → Preserves b c)
    → IsSound a
    → Preserves a c
Preserves-trans a b c f g h =
    let (middle, before) = f h in
    let (final, after) = g middle in
    (final, Extends-trans Follows Follows-trans a.jobs b.jobs c.jobs before after)

module _ (network : EscrowNetwork) where
  -- One operation, with whatever result.
  pub data Step (w w' : EscrowWorld) : Type 0 where
    creates :
        (now : ℕ) (id : String) (input : CreateEscrowJobInput) (r : Result EscrowJob)
        → create_escrow_job network now id input w ≡ (r, w')
        → Step w w'
    funds_job :
        (reservation_id id : String) (r : Result EscrowJob)
        → fund_escrow_job network reservation_id id w ≡ (r, w')
        → Step w w'
    applies :
        (event_id : String) (input : ApplyEscrowStateChangeInput) (r : Result EscrowJob)
        → apply_escrow_state_change network event_id input w ≡ (r, w')
        → Step w w'

  pub data Run (w : EscrowWorld) : EscrowWorld → Type 0 where
    start : Run w w
    then_step : {u v : EscrowWorld} → Run w u → Step u v → Run w v

  Step-Preserves : (w w' : EscrowWorld) → Step w w' → IsSound w.db → Preserves w.db w'.db
  Step-Preserves w w' (creates now id input r e) =
      Affects-Preserves network.hash_quote w.db w'.db
        (create_escrow_job-Affects network now id input w w' r e)
  Step-Preserves w w' (funds_job reservation_id id r e) =
      Affects-Preserves network.hash_quote w.db w'.db
        (fund_escrow_job-Affects network reservation_id id w w' r e)
  Step-Preserves w w' (applies event_id input r e) =
      let (u, affects, earns) = apply_escrow_state_change-Affects network event_id input w w' r e in
      Preserves-trans w.db u.db w'.db (Affects-Preserves network.hash_quote w.db u.db affects)
        (Earns-Preserves u.db w'.db earns)

  Run-Preserves : {w w' : EscrowWorld} → Run w w' → IsSound w.db → Preserves w.db w'.db
  Run-Preserves {w} start h = (h, Extends-refl Follows Follows-refl w.db.jobs)
  Run-Preserves {w} (then_step {u} {v} run step) h =
      Preserves-trans w.db u.db v.db (Run-Preserves run) (Step-Preserves u v step) h

  -- In any run from sound tables, the books hold at the end: ids of jobs are distinct, an open job has
  -- no reservation, and every other job has the one of its budget, which is reserved while the job is
  -- funded or submitted, settled once it is completed, and released once it is rejected or expired.
  -- Every event of reputation is of a completed job.
  pub Run-IsSound : (w w' : EscrowWorld) → IsSound w.db → Run w w' → IsSound w'.db
  Run-IsSound w w' h run = (Run-Preserves run h).0
