-- ===== src/Payments/Trust/Promotion.antt =====
-- What a promotion to the delegation rail does when it succeeds.
use aops_pmoa.Prelude.{
  ℕ, ◌<◌, ◌≡◌, refl, sym, ap, ◌∙◌, inl, inr, String, Bool, true, false, not, ◌&&◌, List, [], ◌∷◌,
  ◌++◌, arith, ==_refl, text_comparable, any, Bool-cases, Result, ok, err, Result-cases,
}
use aops_pmoa.Payments.Types.{mode_comparable}
use aops_pmoa.Payments.Permit2.Types.{
  active, delegation_status_comparable, chain_comparable, AgentDelegationRow, World, Network,
}
use aops_pmoa.Payments.Permit2.Delegations.{record_signed_delegation}
use aops_pmoa.Payments.Permit2.Delegations.Recorded.{record_signed_delegation-eq-ok}
use aops_pmoa.Payments.Escrow.Types.{EscrowJobRow}
use aops_pmoa.Payments.Trust.{
  AllowlistRow, TrustWorld, TrustEvidenceInput, TrustEvidence, TrustExternalAgentInput, count_job,
  count_jobs, is_listed, query_trust_evidence, evidence_of, allowlist_row, is_same_entry,
  insert_allowlist, delegation_input, finish_trust, open_delegation, trust_external_agent,
}

count_jobs-trusted :
    (e : TrustEvidence) (js : List EscrowJobRow) → (count_jobs e js).trusted ≡ e.trusted
unfolding count_jobs
count_jobs-trusted e [] = refl
count_jobs-trusted e (j ∷ js) = count_jobs-trusted (count_job e j j.state) js ∙ ground arith

module _ (lower : String → String) where
  abbrev pub is_trusted : TrustEvidenceInput → List AllowlistRow → Bool
  is_trusted input rows =
      any
        (λ (a : AllowlistRow).
          is_listed lower input.org_id input.chain input.address a && a.is_active)
        rows

  evidence-trusted :
      (input : TrustEvidenceInput) (w : TrustWorld)
      → (query_trust_evidence lower input w).trusted ≡ is_trusted input w.allowlist
  unfolding query_trust_evidence
  evidence-trusted input w = count_jobs-trusted _ _

  is_trusted-append :
      (input : TrustEvidenceInput) (rows : List AllowlistRow) (a : AllowlistRow)
      → is_listed lower input.org_id input.chain input.address a ≡ true
      → a.is_active ≡ true
      → is_trusted input (rows ++ a ∷ []) ≡ true
  is_trusted-append input [] a h k = ground arith
  is_trusted-append input (b ∷ rows) a h k = ground (arith, is_trusted-append input rows a h k)

  -- Where nothing was trusted, an entry is trusted after the insertion exactly if there was no entry
  -- of the same address.
  insert_allowlist-trusted :
      (id : String) (input : TrustExternalAgentInput) (rows rows' : List AllowlistRow)
      → insert_allowlist id input rows ≡ ok rows'
      → is_trusted (evidence_of input) rows ≡ false
      → is_trusted (evidence_of input) rows' ≡ not (any (is_same_entry input) rows)
  unfolding insert_allowlist
  insert_allowlist-trusted id input rows rows' e h =
      let new : is_trusted (evidence_of input) (rows ++ allowlist_row id input ∷ []) ≡ true =
        is_trusted-append (evidence_of input) rows (allowlist_row id input)
          (ground (arith, ==_refl input.org_id, ==_refl input.chain, ==_refl (lower input.address)))
          refl in
      elim (Bool-cases (any (is_same_entry input) rows)) [
        | inl there ↦ let same : rows' ≡ rows = ground arith in rw (there, same) h
        | inr none_there ↦
            let same : rows' ≡ rows ++ allowlist_row id input ∷ [] = ground arith in
            rw (none_there, same) new
      ]

  module _ (network : Network) (now : ℕ) where
    -- What a promotion wrote: a new active delegation to the address, and the entries.
    abbrev pub Promotes :
        TrustExternalAgentInput → (w w' : TrustWorld) → (ids : String × String) → Type 0
    Promotes input w w' ids =
        (d : AgentDelegationRow) × (d.id ≡ ids.1)
        × (d.status ≡ active)
        × (d.payee_address ≡ input.address)
        × (w'.world.db.delegations ≡ w.world.db.delegations ++ d ∷ [])

    open_delegation-eq-ok :
        (id delegation_id : String) (input : TrustExternalAgentInput) (w w' : TrustWorld)
        (rows : List AllowlistRow) (ids : String × String)
        → open_delegation lower network now id delegation_id input w (ok rows) ≡ (ok ids, w')
        → Promotes input w w' ids × (w'.allowlist ≡ rows) × (w'.jobs ≡ w.jobs)
    open_delegation-eq-ok id delegation_id input w w' rows ids e =
        parts (record_signed_delegation network now delegation_id (delegation_input input) w.world)
          refl e
      where
        parts :
            (r : Result AgentDelegationRow × World)
            → record_signed_delegation network now delegation_id (delegation_input input) w.world
              ≡ r
            → finish_trust lower network now id rows w r ≡ (ok ids, w')
            → Promotes input w w' ids × (w'.allowlist ≡ rows) × (w'.jobs ≡ w.jobs)
        parts (ok d, v) made k =
            let (payer, ceiling, nonce, signature, row, parsed, positive, written, fresh, checked) =
              record_signed_delegation-eq-ok network now (delegation_input input) delegation_id
                w.world v d made in
            let world : w'.world ≡ v = ground arith in
            (
              (
                d,
                ground arith,
                ap (λ r. r.status) row,
                ap (λ r. r.payee_address) row,
                ap (λ u. u.db.delegations) world ∙ ap (λ db. db.delegations) written,
              ),
              ground arith,
              ground arith,
            )
        parts (err f, v) made k = absurd (ground arith)

    -- A promotion that succeeds had a completed job and no trust before, and opens an active
    -- delegation to the address. The address is trusted afterwards exactly if it had no entry of the
    -- allowlist: an entry that was revoked stays revoked.
    pub trust_external_agent-eq-ok :
        (id delegation_id : String) (input : TrustExternalAgentInput) (w w' : TrustWorld)
        (ids : String × String)
        → trust_external_agent lower network now id delegation_id input w ≡ (ok ids, w')
        → (0 < (query_trust_evidence lower (evidence_of input) w).completed_count)
          × ((query_trust_evidence lower (evidence_of input) w).trusted ≡ false)
          × Promotes input w w' ids
          × ((query_trust_evidence lower (evidence_of input) w').trusted
              ≡ not (any (is_same_entry input) w.allowlist))
    unfolding trust_external_agent
    trust_external_agent-eq-ok id delegation_id input w w' ids e =
        let untrusted : (query_trust_evidence lower (evidence_of input) w).trusted ≡ false =
          ground arith in
        let before = sym (evidence-trusted (evidence_of input) w) ∙ untrusted in
        elim (Result-cases (insert_allowlist id input w.allowlist)) [
          | inl (rows, inserted) ↦
              let (promotes, listed, jobs) =
                open_delegation-eq-ok id delegation_id input w w' rows ids (ground arith) in
              (
                ground arith,
                untrusted,
                promotes,
                evidence-trusted (evidence_of input) w'
                    ∙ ap (is_trusted (evidence_of input)) listed
                    ∙ insert_allowlist-trusted id input w.allowlist rows inserted before,
              )
          | inr (f, failed) ↦ absurd (ground arith)
        ]
