-- ===== src/Approvals/Quorum.antt =====
-- What an approval that succeeds has checked and writes.
use aops_pmoa.Prelude.{
  ℕ, ◌+◌, ◌<◌, ◌≡◌, refl, ap, ◌∙◌, inl, inr, String, Bool, true, false, some, [], ◌∷◌, ◌++◌, arith,
  any, find?, update_where, leb, ◌==◌, text_comparable, ok, Result-cases, Bool-cases, Option-cases,
  bind-eq-ok,
}
use aops_pmoa.Evidence.CanonicalJson.{Encoding}
use aops_pmoa.Evidence.Audit.Types.{RecordAuditEventInput}
use aops_pmoa.Evidence.Audit.Writer.{Texts, record_audit_event}
use aops_pmoa.Approvals.Types.{
  ApprovalStatus, pending, approved, is_pending, ApprovalRow, VoteRow, ApprovalActionRow,
  ActivityRow, ApprovalsDb, Ids,
}
use aops_pmoa.Approvals.Votes.{
  is_request, votes_count, is_same_vote, approve_row, insert_vote, insert_action, record_activity,
  record_audit, announce_vote, cast_vote, approve_approval,
}

is_pending-eq-true : (s : ApprovalStatus) → is_pending s ≡ true → s ≡ pending
is_pending-eq-true pending e = refl
is_pending-eq-true approved e = absurd (ground arith)
is_pending-eq-true ApprovalStatus.denied e = absurd (ground arith)
is_pending-eq-true ApprovalStatus.expired e = absurd (ground arith)
is_pending-eq-true ApprovalStatus.cancelled e = absurd (ground arith)
is_pending-eq-true ApprovalStatus.consumed e = absurd (ground arith)

module _ {Float : Type 0} (texts : Texts) (encoding : Encoding Float) (number_of : ℕ → Float) where
  -- The requests and the votes are the same.
  abbrev pub Keeps : ApprovalsDb Float → ApprovalsDb Float → Type 0
  Keeps db db' = (db'.requests ≡ db.requests) × (db'.votes ≡ db.votes)

  pub insert_action-Keeps :
      (action : ApprovalActionRow) (db db' : ApprovalsDb Float)
      → insert_action texts encoding number_of action db ≡ ok (tt, db')
      → Keeps db db'
  insert_action-Keeps action db db' e =
      elim (Bool-cases (any (λ (a : ApprovalActionRow). a.id == action.id) db.actions)) [
        | inl taken ↦ absurd (ground arith)
        | inr fresh ↦ (ground arith, ground arith)
      ]

  pub record_activity-Keeps :
      (activity : ActivityRow Float) (db db' : ApprovalsDb Float)
      → record_activity texts encoding number_of activity db ≡ ok (tt, db')
      → Keeps db db'
  record_activity-Keeps activity db db' e =
      elim (Bool-cases (any (λ (a : ActivityRow Float). a.id == activity.id) db.activities)) [
        | inl taken ↦ absurd (ground arith)
        | inr fresh ↦ (ground arith, ground arith)
      ]

  pub record_audit-Keeps :
      (now : ℕ) (id : String) (input : RecordAuditEventInput Float) (db db' : ApprovalsDb Float)
      → record_audit texts encoding number_of now id input db ≡ ok (tt, db')
      → Keeps db db'
  record_audit-Keeps now id input db db' e =
      elim (Result-cases (record_audit_event texts encoding now id input db.audit)) [
        | inl ((row, audit), there) ↦ (ground arith, ground arith)
        | inr (failure, refused) ↦ absurd (ground arith)
      ]

  announce_vote-Keeps :
      (now : ℕ) (ids : Ids) (quorum_reached : Bool) (actor_id note : String) (votes : ℕ)
      (r : ApprovalRow Float) (db db' : ApprovalsDb Float)
      → announce_vote texts encoding number_of now ids quorum_reached actor_id note votes r db
        ≡ ok (tt, db')
      → Keeps db db'
  unfolding announce_vote
  announce_vote-Keeps now ids false actor_id note votes r db db' e =
      record_activity-Keeps _ db db' e
  announce_vote-Keeps now ids true actor_id note votes r db db' e =
      let (t, middle, first, second) =
        bind-eq-ok (record_activity texts encoding number_of _)
          (λ t. record_audit texts encoding number_of now ids.audit _) db e in
      let (requests, votes) = record_activity-Keeps _ db middle first in
      let (requests', votes') = record_audit-Keeps now ids.audit _ middle db' second in
      (requests' ∙ requests, votes' ∙ votes)

  abbrev pub vote_of : Ids → (actor_id note : String) → ApprovalRow Float → VoteRow
  vote_of ids actor_id note r = record {
    id = ids.vote;
    org_id = r.org_id;
    approval_id = r.id;
    actor_id = actor_id;
    note = note;
  }

  -- One vote more, of an operator without one; and the request after it.
  abbrev pub Casts :
      (now : ℕ)
      → Ids
      → (actor_id note : String) → (votes : ℕ) → ApprovalRow Float
      → ApprovalRow Float
      → ApprovalsDb Float
      → ApprovalsDb Float
      → Type 0
  Casts now ids actor_id note votes r view db db' =
      (view ≡ approve_row now (leb r.required_approvals (votes + 1)) actor_id note r)
      × (any (is_same_vote (vote_of ids actor_id note r)) db.votes ≡ false)
      × (db'.votes ≡ db.votes ++ vote_of ids actor_id note r ∷ [])
      × (db'.requests
          ≡ update_where (is_request r.org_id r.id)
              (approve_row now (leb r.required_approvals (votes + 1)) actor_id note) db.requests)

  insert_vote-eq-ok :
      (vote : VoteRow) (db db' : ApprovalsDb Float)
      → insert_vote texts encoding number_of vote db ≡ ok (tt, db')
      → (any (is_same_vote vote) db.votes ≡ false)
        × (db' ≡ record db { votes = db.votes ++ vote ∷ [] })
  insert_vote-eq-ok vote db db' e = elim (Bool-cases (any (is_same_vote vote) db.votes)) [
    | inl taken ↦ absurd (ground arith)
    | inr fresh ↦ (fresh, ground arith)
  ]

  cast_vote-eq-ok :
      (now : ℕ) (ids : Ids) (actor_id note : String) (votes : ℕ) (r view : ApprovalRow Float)
      (db db' : ApprovalsDb Float)
      → cast_vote texts encoding number_of now ids actor_id note votes r db ≡ ok (view, db')
      → Casts now ids actor_id note votes r view db db'
  unfolding cast_vote
  cast_vote-eq-ok now ids actor_id note votes r view db db' e =
      let (t, voted, first, rest) =
        bind-eq-ok (insert_vote texts encoding number_of (vote_of ids actor_id note r)) _ db e in
      let (u, acted, second, rest') =
        bind-eq-ok (insert_action texts encoding number_of _) _ voted rest in
      let (v, announced, third, last) =
        bind-eq-ok
          (announce_vote texts encoding number_of now ids (leb r.required_approvals (votes + 1))
            actor_id note (votes + 1) _)
          _ _ rest' in
      let (fresh, inserted) = insert_vote-eq-ok (vote_of ids actor_id note r) db voted first in
      let (requests, votes') = insert_action-Keeps _ voted acted second in
      let (requests', votes'') =
        announce_vote-Keeps now ids (leb r.required_approvals (votes + 1)) actor_id note (votes + 1)
          _ _ announced third in
      let view' : view ≡ approve_row now (leb r.required_approvals (votes + 1)) actor_id note r =
        ground arith in
      let same : db' ≡ announced = ground arith in
      (
        view',
        fresh,
        ap (λ d. d.votes) same ∙ votes'' ∙ votes' ∙ ap (λ d. d.votes) inserted,
        ap (λ d. d.requests) same
            ∙ requests'
            ∙ ap
                (update_where (is_request r.org_id r.id)
                  (approve_row now (leb r.required_approvals (votes + 1)) actor_id note))
                (requests ∙ ap (λ d. d.requests) inserted),
      )

  pub approve_approval-parts :
      (now : ℕ) (ids : Ids) (actor_id org_id approval_id note : String) (view : ApprovalRow Float)
      (db db' : ApprovalsDb Float)
      → approve_approval texts encoding number_of now ids actor_id org_id approval_id note db
        ≡ ok (view, db')
      → (r : ApprovalRow Float) × (find? (is_request org_id approval_id) db.requests ≡ some r)
        × (r.status ≡ pending)
        × (now < r.expires_at)
        × ((r.requested_by == actor_id) ≡ false)
        × Casts now ids actor_id note (votes_count approval_id db.votes) r view db db'
  unfolding approve_approval
  approve_approval-parts now ids actor_id org_id approval_id note view db db' e =
      elim (Option-cases (find? (is_request org_id approval_id) db.requests)) [
        | inl missing ↦ absurd (ground arith)
        | inr (r, found) ↦
            let e' = rw (found, approve_approval) at e in
            elim (Bool-cases (is_pending r.status)) [
              | inr closed ↦ absurd (ground arith)
              | inl opened ↦ elim (Bool-cases (leb r.expires_at now)) [
                | inl late ↦ absurd (ground arith)
                | inr early ↦ elim (Bool-cases (r.requested_by == actor_id)) [
                  | inl own ↦ absurd (ground arith)
                  | inr other ↦ (
                    r,
                    found,
                    is_pending-eq-true r.status opened,
                    ground arith,
                    other,
                    cast_vote-eq-ok now ids actor_id note (votes_count approval_id db.votes) r view
                        db db' (ground arith),
                  )
                ]
              ]
            ]
      ]
