-- ===== src/Evidence/Audit/Recordings.antt =====
-- Recordings of audit events, one after another.
use aops_pmoa.Prelude.{
  ℕ, ◌≡◌, ◌⊎◌, refl, sym, ap, ◌∙◌, inl, inr, String, Bool, true, none, some, List, [], ◌∷◌, ◌++◌,
  arith, ◌==◌, ==_refl, text_comparable, find?, ok, Result-cases, Bool-cases, Option-cases,
}
use mathlib.Core.List.{append_assoc, append-nil}
use aops_pmoa.Evidence.CanonicalJson.{Encoding, sha256_hex}
use aops_pmoa.Evidence.Audit.Types.{RecordAuditEventInput, AuditEventRow, AuditDb}
use aops_pmoa.Evidence.Audit.Writer.{
  Texts, build_canonical_body, is_recorded, recorded_event, record_audit_event,
}
use aops_pmoa.Evidence.Audit.Chain.{IsChained, Adds, link_event-eq-ok, Adds-IsChained}

find?-last :
    {R : Type 0} (test : R → Bool) (rs : List R) (r : R)
    → find? test rs ≡ none
    → test r ≡ true
    → find? test (rs ++ r ∷ []) ≡ some r
find?-last test [] r h k = rw k refl
find?-last test (x ∷ xs) r h k = elim (Bool-cases (test x)) [
  | inl found ↦ absurd (ground arith)
  | inr next ↦ rw next (find?-last test xs r (rw next at h) k)
]

module _ {Float : Type 0} (texts : Texts) (encoding : Encoding Float) where
  -- The event is there already, under its key and with the same body; or it is added.
  abbrev pub Records :
      RecordAuditEventInput Float
      → (body_hash : String) → AuditEventRow Float
      → AuditDb Float
      → AuditDb Float
      → Type 0
  Records input body_hash row db db' =
      ((recorded_event texts encoding input db ≡ some row)
        × ((row.canonical_body_hash == body_hash) ≡ true)
        × (db' ≡ db))
      ⊎ ((recorded_event texts encoding input db ≡ none)
          × (row.canonical_body_hash ≡ body_hash)
          × Adds texts encoding input row db db')

  record_audit_event-eq-ok :
      (now : ℕ) (id : String) (input : RecordAuditEventInput Float) (db db' : AuditDb Float)
      (row : AuditEventRow Float)
      → record_audit_event texts encoding now id input db ≡ ok (row, db')
      → (body_hash : String) × (sha256_hex encoding (build_canonical_body texts encoding input)
          ≡ ok body_hash)
        × Records input body_hash row db db'
  unfolding record_audit_event
  record_audit_event-eq-ok now id input db db' row e =
      elim (Result-cases (sha256_hex encoding (build_canonical_body texts encoding input))) [
        | inr (failure, refused) ↦ absurd (ground arith)
        | inl (body_hash, hashed) ↦ (
          body_hash,
          hashed,
          elim (Option-cases (recorded_event texts encoding input db)) [
            | inl fresh ↦
                let (same, added) =
                  link_event-eq-ok texts encoding now id input body_hash db db' row
                    (rw (hashed, fresh, record_audit_event) at e) in
                inr (fresh, same, added)
            | inr (old, there) ↦ elim (Bool-cases (old.canonical_body_hash == body_hash)) [
              | inr differs ↦ absurd (ground arith)
              | inl same ↦ inl (ground arith)
            ]
          ],
        )
      ]

  -- One recording that succeeds; a refused one leaves the tables to its caller, which rolls back.
  pub data Step (db db' : AuditDb Float) : Type 0 where
    records :
        (now : ℕ) (id : String) (input : RecordAuditEventInput Float) (row : AuditEventRow Float)
        → record_audit_event texts encoding now id input db ≡ ok (row, db')
        → Step db db'

  pub data Run (db : AuditDb Float) : AuditDb Float → Type 0 where
    start : Run db db
    next : {u v : AuditDb Float} → Run db u → Step u v → Run db v

  -- The events so far stay, further ones stand behind them, and the chains hold.
  abbrev pub Grows : AuditDb Float → AuditDb Float → Type 0
  Grows db db' =
      (more : List (AuditEventRow Float)) × (db'.events ≡ db.events ++ more)
      × IsChained texts encoding db'

  Step-Grows : (db db' : AuditDb Float) → Step db db' → IsChained texts encoding db → Grows db db'
  Step-Grows db db' (records now id input row e) chained =
      let (body_hash, hashed, recorded) = record_audit_event-eq-ok now id input db db' row e in
      elim recorded [
        | inl (there, same, kept) ↦ ([], rw kept (sym (append-nil db.events)), rw kept chained)
        | inr (fresh, hash, added) ↦
            (row ∷ [], added.0, Adds-IsChained texts encoding input row db db' added chained)
      ]

  -- In any run of recordings from chained tables, no event is changed or removed, and the events of each
  -- organisation form one chain: their sequences count up from one, each holds the hash of the one
  -- before, its own hash covers that of its body, its organisation, predecessor and sequence, and the last is
  -- the head of the organisation.
  pub Run-Grows : (db db' : AuditDb Float) → IsChained texts encoding db → Run db db' → Grows db db'
  Run-Grows db db' chained start = ([], sym (append-nil db.events), chained)
  Run-Grows db db' chained (next {u} run step) =
      let (more, grown, middle) = Run-Grows db u chained run in
      let (last, added, final) = Step-Grows u db' step middle in
      (more ++ last, added ∙ ap (λ es. es ++ last) grown ∙ append_assoc db.events more last, final)

  -- An event that is recorded under an idempotency key is recorded once: the same input, at any later
  -- time and with any id, gives the same event again and leaves the tables as they are.
  pub record-again :
      (now later : ℕ) (id again : String) (input : RecordAuditEventInput Float) (key : String)
      (db db' : AuditDb Float) (row : AuditEventRow Float)
      → input.idempotency_key ≡ some key
      → record_audit_event texts encoding now id input db ≡ ok (row, db')
      → record_audit_event texts encoding later again input db' ≡ ok (row, db')
  unfolding record_audit_event
  record-again now later id again input key db db' row keyed e =
      let (body_hash, hashed, recorded) = record_audit_event-eq-ok now id input db db' row e in
      elim recorded [
        | inl (there, same, kept) ↦
            let there' : recorded_event texts encoding input db' ≡ some row = rw kept there in
            rw (hashed, there', same, record_audit_event) refl
        | inr (fresh, hash, (grown, named, own, link, head, others)) ↦
            let test : AuditEventRow Float → Bool = is_recorded input.org_id key in
            let absent : find? test db.events ≡ none = rw keyed at fresh in
            let hits : test row ≡ true =
              rw (named, own, keyed, ==_refl input.org_id, ==_refl key) refl in
            let there : recorded_event texts encoding input db' ≡ some row =
              rw (keyed, grown) (find?-last test db.events row absent hits) in
            let same : (row.canonical_body_hash == body_hash) ≡ true =
              rw hash (==_refl body_hash) in
            rw (hashed, there, same, record_audit_event) refl
      ]
