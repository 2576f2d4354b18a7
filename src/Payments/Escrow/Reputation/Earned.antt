-- ===== src/Payments/Escrow/Reputation/Earned.antt =====
-- What onEscrowCompleted of reputation-hook.ts does to the tables, whatever it answers.
use aops_pmoa.Prelude.{
  ◌≡◌, ◌⊎◌, refl, sym, subst, ap, ◌∙◌, inl, inr, String, false, Option, none, some, List, [], ◌∷◌,
  ◌++◌, map, arith, ◌==◌, text_comparable, any, find?, find?-test, map-update_where, ok,
  Result-cases, Bool-cases, Option-cases,
}
use aops_pmoa.Payments.Escrow.Types.{
  completed, escrow_state_comparable, EscrowJobRow, ReputationEventRow, EscrowDb, EscrowNetwork,
  EscrowWorld,
}
use aops_pmoa.Payments.Escrow.Rows.{is_job, find_agent_wallet}
use aops_pmoa.Payments.Escrow.Reputation.{
  completion_score, WriteFeedbackInput, give_feedback_execution, WriteReputationInput, event_row,
  insert_event, resolve_provider_agent_id, token_id_of, set_feedback, broadcast, record_completion,
  on_escrow_completed,
}

-- The jobs of the events of reputation.
abbrev pub earned_ids : EscrowDb → List String
earned_ids db = map (λ (v : ReputationEventRow). v.escrow_job_id) db.reputation

-- Jobs and reservations stay, and so do the jobs with an event.
abbrev pub Rests : EscrowDb → EscrowDb → Type 0
Rests db db' =
    (db'.jobs ≡ db.jobs) × (db'.reservations ≡ db.reservations) × (earned_ids db' ≡ earned_ids db)

-- Or one more job has one: a completed job without an event.
abbrev pub Earns : EscrowDb → EscrowDb → Type 0
Earns db db' =
    Rests db db'
    ⊎ ((job : EscrowJobRow) × (find? (is_job job.id) db.jobs ≡ some job)
        × (job.state ≡ completed)
        × (any (λ (v : ReputationEventRow). v.escrow_job_id == job.id) db.reputation ≡ false)
        × (earned_ids db' ≡ earned_ids db ++ job.id ∷ [])
        × (db'.jobs ≡ db.jobs)
        × (db'.reservations ≡ db.reservations))

map-append_one :
    (vs : List ReputationEventRow) (v : ReputationEventRow)
    → map (λ (v : ReputationEventRow). v.escrow_job_id) (vs ++ v ∷ [])
      ≡ map (λ (v : ReputationEventRow). v.escrow_job_id) vs ++ v.escrow_job_id ∷ []
map-append_one [] v = refl
map-append_one (x ∷ vs) v = ap (λ ids. x.escrow_job_id ∷ ids) (map-append_one vs v)

insert_event-eq-ok :
    (id job_id : String) (input : WriteReputationInput) (db db' : EscrowDb)
    (o : Option ReputationEventRow)
    → insert_event id input (some job_id) db ≡ ok (o, db')
    → ((o ≡ none) × (db' ≡ db))
      ⊎ ((o ≡ some (event_row id input job_id))
          × (any (λ (v : ReputationEventRow). v.escrow_job_id == job_id) db.reputation ≡ false)
          × (db' ≡ record db { reputation = db.reputation ++ event_row id input job_id ∷ [] }))
unfolding insert_event
insert_event-eq-ok id job_id input db db' o e = elim (Bool-cases (any (is_job job_id) db.jobs)) [
  | inr lost ↦ absurd (ground arith)
  | inl known ↦
      elim (Bool-cases
        (any (λ (v : ReputationEventRow). v.escrow_job_id == job_id) db.reputation)) [
          | inl again ↦ inl (ground arith)
          | inr first ↦
              elim (Bool-cases (any (λ (v : ReputationEventRow). v.id == id) db.reputation)) [
                | inl taken ↦ absurd (ground arith)
                | inr fresh ↦ inr (ground arith, first, ground arith)
              ]
        ]
]

module _ (network : EscrowNetwork) where
  broadcast-Rests :
      (job : EscrowJobRow) (agent_id event_id : String) (w : EscrowWorld)
      → Rests w.db (broadcast network job agent_id event_id w).1.db
  unfolding broadcast
  broadcast-Rests job agent_id event_id w =
      elim (Option-cases (token_id_of agent_id job.mode job.chain w.db)) [
        | inl absent ↦ rw absent (refl, refl, refl)
        | inr (token_id, known) ↦
            elim (Option-cases (find_agent_wallet job.client_agent_id job.mode job.chain w.db)) [
              | inl nobody ↦ rw (known, nobody) (refl, refl, refl)
              | inr (wallet, owned) ↦
                  let input : WriteFeedbackInput = record {
                    mode = job.mode;
                    chain = job.chain;
                    sender_address = wallet.address;
                    agent_token_id = token_id;
                    score = completion_score;
                  } in
                  elim (Result-cases (network.send (give_feedback_execution input) w.calls)) [
                    | inr (failure, failed) ↦ rw (known, owned, failed) (refl, refl, refl)
                    | inl (hash, sent) ↦
                        rw (known, owned, sent)
                          (
                            refl,
                            refl,
                            map-update_where (λ (v : ReputationEventRow). v.escrow_job_id)
                                (λ (v : ReputationEventRow). v.id == event_id) (set_feedback hash)
                                (λ r k. refl) w.db.reputation,
                          )
                  ]
            ]
      ]

  record_completion-Earns :
      (event_id : String) (job : EscrowJobRow) (agent_id : String) (w : EscrowWorld)
      → find? (is_job job.id) w.db.jobs ≡ some job
      → job.state ≡ completed
      → Earns w.db (record_completion network event_id job agent_id w).1.db
  unfolding record_completion
  record_completion-Earns event_id job agent_id w found at =
      let input : WriteReputationInput = record {
        org_id = job.org_id;
        agent_id = agent_id;
        escrow_job_id = some job.id;
        score = completion_score;
      } in
      elim (Result-cases (insert_event event_id input (some job.id) w.db)) [
        | inr (failure, refused) ↦ rw (refused, record_completion) (inl (refl, refl, refl))
        | inl ((o, db'), inserted) ↦
            elim (insert_event-eq-ok event_id job.id input w.db db' o inserted) [
              | inl (again, same) ↦
                  rw (inserted, again, record_completion) (inl (rw same (refl, refl, refl)))
              | inr (made, first, grown) ↦
                  let u : EscrowWorld = record w { db = db' } in
                  let (jobs, reservations, ids) = broadcast-Rests job agent_id event_id u in
                  rw (inserted, made, record_completion)
                    (inr (
                      job,
                      found,
                      at,
                      first,
                      ids
                          ∙ ap (λ db. earned_ids db) grown
                          ∙ map-append_one w.db.reputation (event_row event_id input job.id),
                      jobs ∙ ap (λ db. db.jobs) grown,
                      reservations ∙ ap (λ db. db.reservations) grown,
                    ))
            ]
      ]

  pub on_escrow_completed-Earns :
      (event_id job_id : String) (w : EscrowWorld)
      → Earns w.db (on_escrow_completed network event_id job_id w).1.db
  unfolding on_escrow_completed
  on_escrow_completed-Earns event_id job_id w =
      elim (Option-cases (find? (is_job job_id) w.db.jobs)) [
        | inl missing ↦ rw missing (inl (refl, refl, refl))
        | inr (job, found) ↦ elim (Bool-cases (job.state == completed)) [
          | inr early ↦ rw (found, early) (inl (refl, refl, refl))
          | inl done ↦
              elim (Option-cases (
                resolve_provider_agent_id network.lower job.org_id job.provider_address job.mode
                  job.chain w.db)) [
                    | inl outside ↦ rw (found, done, outside) (inl (refl, refl, refl))
                    | inr (agent_id, known) ↦
                        let named : job.id ≡ job_id =
                          (text_comparable.same_iff job.id job_id).0
                            (find?-test (is_job job_id) w.db.jobs found) in
                        rw (found, done, known)
                          (record_completion-Earns event_id job agent_id w
                            (subst (λ i. find? (is_job i) w.db.jobs ≡ some job) (sym named) found)
                            ((escrow_state_comparable.same_iff job.state completed).0 done))
                  ]
        ]
      ]
