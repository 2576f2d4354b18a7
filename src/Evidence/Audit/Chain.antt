-- ===== src/Evidence/Audit/Chain.antt =====
-- The chain of hashes of each organisation, through recordings of audit events.
use aops_pmoa.Prelude.{
  ℕ, ◌+◌, ◌≡◌, ◌⊎◌, refl, sym, subst, ap, ◌∙◌, inl, inr, String, Bool, true, false, Option, none,
  some, List, [], ◌∷◌, ◌++◌, arith, ◌==◌, ==_refl, text_comparable, any, find?, find?-test,
  update_where, ok, Result-cases, Bool-cases, Option-cases,
}
use aops_pmoa.Prelude.Keys.{find?-update_where, find?-fresh}
use aops_pmoa.Evidence.CanonicalJson.{Encoding, sha256_hex}
use aops_pmoa.Evidence.Audit.Types.{RecordAuditEventInput, AuditEventRow, AuditHeadRow, AuditDb}
use aops_pmoa.Evidence.Audit.Writer.{
  Texts, link_body, audit_row, is_head_of, ensure_head, set_head, is_duplicate, append_event,
  link_event,
}

-- The last sequence and hash of an organisation; none yet without a head.
abbrev pub head_or : Option AuditHeadRow → ℕ × Option String
head_or none = (0, none)
head_or (some h) = (h.last_sequence, h.last_event_hash)

abbrev pub head_of : String → List AuditHeadRow → ℕ × Option String
head_of org_id heads = head_or (find? (is_head_of org_id) heads)

module _ {R : Type 0} where
  -- A search that an update does not concern.
  find?-other :
      (test hits : R → Bool) (change : R → R)
      → ((r : R) → hits r ≡ true → (test r ≡ false) × (test (change r) ≡ false))
      → (rs : List R) → find? test (update_where hits change rs) ≡ find? test rs
  find?-other test hits change apart [] = refl
  find?-other test hits change apart (r ∷ rs) = elim (Bool-cases (hits r)) [
    | inl hit ↦
        let (before, after) = apart r hit in
        rw (hit, before, after) (find?-other test hits change apart rs)
    | inr miss ↦ elim (Bool-cases (test r)) [
      | inl found ↦ rw (miss, found) refl
      | inr next ↦ rw (miss, next) (find?-other test hits change apart rs)
    ]
  ]

  find?-skip :
      (test : R → Bool) (rs : List R) (r : R)
      → test r ≡ false
      → find? test (rs ++ r ∷ []) ≡ find? test rs
  find?-skip test [] r h = rw h refl
  find?-skip test (x ∷ xs) r h = elim (Bool-cases (test x)) [
    | inl found ↦ rw found refl
    | inr next ↦ rw next (find?-skip test xs r h)
  ]

  find?-absent : (test : R → Bool) (rs : List R) → any test rs ≡ false → find? test rs ≡ none
  find?-absent test [] h = refl
  find?-absent test (x ∷ xs) h = elim (Bool-cases (test x)) [
    | inl found ↦ absurd (ground arith)
    | inr next ↦ rw next (find?-absent test xs (rw next at h))
  ]

-- The head that is found after the insert is the head before it.
ensured-head :
    (org_id : String) (heads : List AuditHeadRow) (head : AuditHeadRow)
    → find? (is_head_of org_id) (ensure_head org_id heads) ≡ some head
    → head_of org_id heads ≡ (head.last_sequence, head.last_event_hash)
ensured-head org_id heads head e = elim (Bool-cases (any (is_head_of org_id) heads)) [
  | inl there ↦ ap head_or (rw there at e)
  | inr absent ↦
      let new : AuditHeadRow = record {
        org_id = org_id;
        last_sequence = 0;
        last_event_hash = none;
      } in
      let fresh : find? (is_head_of org_id) (heads ++ new ∷ []) ≡ some new =
        find?-fresh (λ (h : AuditHeadRow). h.org_id) heads new absent in
      ap head_or (find?-absent (is_head_of org_id) heads absent)
      ∙ ap head_or (sym fresh ∙ rw absent at e)
]

other-head :
    (org_id other : String) (heads : List AuditHeadRow) (sequence : ℕ) (hash : String)
    → (org_id == other) ≡ false
    → head_of other
        (update_where (is_head_of org_id) (set_head sequence hash) (ensure_head org_id heads))
      ≡ head_of other heads
other-head org_id other heads sequence hash apart =
    let miss : (h : AuditHeadRow) → is_head_of org_id h ≡ true → is_head_of other h ≡ false =
      λ h hit.
        subst (λ o. (o == other) ≡ false) (sym ((text_comparable.same_iff h.org_id org_id).0 hit))
          apart in
    ap head_or (
      find?-other (is_head_of other) (is_head_of org_id) (set_head sequence hash)
        (λ h hit. (miss h hit, miss h hit)) (ensure_head org_id heads))
    ∙ elim (Bool-cases (any (is_head_of org_id) heads)) [
      | inl there ↦ rw there refl
      | inr absent ↦ rw absent (
          ap head_or (
            find?-skip (is_head_of other) heads
              (record { org_id = org_id; last_sequence = 0; last_event_hash = none }) apart))
    ]

module _ {Float : Type 0} (texts : Texts) (encoding : Encoding Float) where
  -- An event is linked behind a sequence and a hash.
  abbrev pub IsLinked : (org_id : String) → ℕ → Option String → AuditEventRow Float → Type 0
  IsLinked org_id n h e =
      (e.sequence ≡ n + 1)
      × (e.previous_hash ≡ h)
      × (sha256_hex encoding (link_body texts encoding e.canonical_body_hash org_id h (n + 1))
          ≡ ok e.event_hash)

  -- The events of the organisation, from one sequence and hash to another, each linked to the last.
  abbrev pub Chained :
      (org_id : String)
      → ℕ
      → Option String
      → List (AuditEventRow Float)
      → ℕ × Option String
      → Type 0
  Chained org_id n h [] last = (n, h) ≡ last
  Chained org_id n h (e ∷ es) last =
      (((e.org_id == org_id) ≡ false) × Chained org_id n h es last)
      ⊎ (((e.org_id == org_id) ≡ true)
          × IsLinked org_id n h e
          × Chained org_id (n + 1) (some e.event_hash) es last)

  -- The chain of each organisation leads to its head.
  abbrev pub IsChained : AuditDb Float → Type 0
  IsChained db = (org_id : String) → Chained org_id 0 none db.events (head_of org_id db.heads)

  Chained-other :
      (org_id : String) (n : ℕ) (h : Option String) (es : List (AuditEventRow Float))
      (e : AuditEventRow Float) (last : ℕ × Option String)
      → (e.org_id == org_id) ≡ false
      → Chained org_id n h es last
      → Chained org_id n h (es ++ e ∷ []) last
  Chained-other org_id n h [] e last apart c = inl (apart, c)
  Chained-other org_id n h (x ∷ es) e last apart (inl (skip, c)) =
      inl (skip, Chained-other org_id n h es e last apart c)
  Chained-other org_id n h (x ∷ es) e last apart (inr (own, link, c)) =
      inr (own, link, Chained-other org_id (n + 1) (some x.event_hash) es e last apart c)

  Chained-next :
      (org_id : String) (n m : ℕ) (h k : Option String) (es : List (AuditEventRow Float))
      (e : AuditEventRow Float)
      → (e.org_id == org_id) ≡ true
      → IsLinked org_id m k e
      → Chained org_id n h es (m, k)
      → Chained org_id n h (es ++ e ∷ []) (m + 1, some e.event_hash)
  Chained-next org_id n m h k [] e own link c =
      subst (λ (p : ℕ × Option String). Chained org_id p.0 p.1 (e ∷ []) (m + 1, some e.event_hash))
        (sym c) (inr (own, link, refl))
  Chained-next org_id n m h k (x ∷ es) e own link (inl (skip, c)) =
      inl (skip, Chained-next org_id n m h k es e own link c)
  Chained-next org_id n m h k (x ∷ es) e own link (inr (mine, first, c)) =
      inr (mine, first, Chained-next org_id (n + 1) m (some x.event_hash) k es e own link c)

  append_event-eq-ok :
      (now : ℕ) (id : String) (input : RecordAuditEventInput Float) (body_hash : String)
      (head : AuditHeadRow) (heads : List AuditHeadRow) (db db' : AuditDb Float)
      (row : AuditEventRow Float)
      → append_event texts encoding now id input body_hash head heads db ≡ ok (row, db')
      → (event_hash : String) × (sha256_hex encoding (
            link_body texts encoding body_hash input.org_id head.last_event_hash
              (head.last_sequence + 1))
          ≡ ok event_hash)
        × (row
            ≡ audit_row texts encoding now id input body_hash
                (head.last_sequence + 1)
                head.last_event_hash
                event_hash)
        × (db' ≡ record {
          events =
              db.events
              ++ audit_row texts encoding now id input body_hash
                  (head.last_sequence + 1)
                  head.last_event_hash
                  event_hash
                ∷ [];
          heads =
              update_where
                (is_head_of input.org_id)
                (set_head (head.last_sequence + 1) event_hash)
                heads;
        })
  unfolding append_event
  append_event-eq-ok now id input body_hash head heads db db' row e =
      elim (Result-cases (
        sha256_hex encoding (
          link_body texts encoding body_hash input.org_id head.last_event_hash
            (head.last_sequence + 1)))) [
              | inr (failure, refused) ↦ absurd (ground arith)
              | inl (event_hash, hashed) ↦
                  let made : AuditEventRow Float =
                    audit_row texts encoding now id input body_hash (head.last_sequence + 1)
                      head.last_event_hash event_hash in
                  elim (Bool-cases (any (is_duplicate made) db.events)) [
                    | inl taken ↦ absurd (ground arith)
                    | inr fresh ↦ (event_hash, hashed, ground arith, ground arith)
                  ]
            ]

  -- What a recording adds: one event, linked behind the head.
  abbrev pub Adds :
      RecordAuditEventInput Float → AuditEventRow Float → AuditDb Float → AuditDb Float → Type 0
  Adds input row db db' =
      (db'.events ≡ db.events ++ row ∷ [])
      × (row.org_id ≡ input.org_id)
      × (row.idempotency_key ≡ input.idempotency_key)
      × IsLinked input.org_id (head_of input.org_id db.heads).0 (head_of input.org_id db.heads).1
          row
      × (head_of input.org_id db'.heads ≡ (row.sequence, some row.event_hash))
      × ((other : String)
          → (input.org_id == other) ≡ false
          → head_of other db'.heads ≡ head_of other db.heads)

  pub link_event-eq-ok :
      (now : ℕ) (id : String) (input : RecordAuditEventInput Float) (body_hash : String)
      (db db' : AuditDb Float) (row : AuditEventRow Float)
      → link_event texts encoding now id input body_hash db ≡ ok (row, db')
      → (row.canonical_body_hash ≡ body_hash) × Adds input row db db'
  unfolding link_event
  link_event-eq-ok now id input body_hash db db' row e =
      elim (Option-cases (find? (is_head_of input.org_id) (ensure_head input.org_id db.heads))) [
        | inl missing ↦ absurd (ground arith)
        | inr (head, found) ↦
            let (event_hash, hashed, made, written) =
              append_event-eq-ok now id input body_hash head (ensure_head input.org_id db.heads) db
                db' row (rw (found, link_event) at e) in
            let at = ensured-head input.org_id db.heads head found in
            let after =
              find?-update_where (is_head_of input.org_id) (is_head_of input.org_id)
                (set_head (head.last_sequence + 1) event_hash) (λ h. refl)
                (ensure_head input.org_id db.heads) found in
            let hit : is_head_of input.org_id head ≡ true =
              find?-test (is_head_of input.org_id) (ensure_head input.org_id db.heads) found in
            rw (made, written)
              (
                refl,
                (
                  refl,
                  refl,
                  refl,
                  rw at (refl, refl, hashed),
                  ap head_or after ∙ rw hit refl,
                  λ other apart.
                      other-head input.org_id other db.heads (head.last_sequence + 1) event_hash
                        apart,
                ),
              )
      ]

  pub Adds-IsChained :
      (input : RecordAuditEventInput Float) (row : AuditEventRow Float) (db db' : AuditDb Float)
      → Adds input row db db'
      → IsChained db
      → IsChained db'
  Adds-IsChained input row db db' (grown, named, keyed, link, head, others) chained org_id =
      elim (Bool-cases (input.org_id == org_id)) [
        | inl own ↦
            let same : input.org_id ≡ org_id =
              (text_comparable.same_iff input.org_id org_id).0 own in
            let next =
              Chained-next input.org_id 0 (head_of input.org_id db.heads).0 none
                (head_of input.org_id db.heads).1 db.events row (rw named (==_refl input.org_id))
                link (chained input.org_id) in
            let ends : head_of input.org_id db'.heads
                ≡ ((head_of input.org_id db.heads).0 + 1, some row.event_hash) =
              head ∙ ap (λ n. (n, some row.event_hash)) link.0 in
            subst (λ o. Chained o 0 none db'.events (head_of o db'.heads)) same
              (rw (grown, ends) next)
        | inr apart ↦
            let skip : (row.org_id == org_id) ≡ false = rw named apart in
            rw (grown, others org_id apart)
              (Chained-other org_id 0 none db.events row (head_of org_id db.heads) skip
                (chained org_id))
      ]
