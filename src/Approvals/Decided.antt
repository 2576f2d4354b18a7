-- ===== src/Approvals/Decided.antt =====
-- What an approval that succeeds has checked and leaves behind, in full.
use aops_pmoa.Prelude.{
  ℕ, ◌+◌, ◌<◌, ◌≤◌, ◌≡◌, ◌⊎◌, ◌&&◌, length, filter, refl, inl, inr, String, Bool, false, some, List,
  [], ◌∷◌, ◌++◌, arith, any, find?, update_where, leb, ◌==◌, text_comparable, ok, Bool-cases,
}
use aops_pmoa.Evidence.CanonicalJson.{Encoding}
use aops_pmoa.Evidence.Audit.Writer.{Texts}
use aops_pmoa.Approvals.Types.{pending, approved, ApprovalRow, VoteRow, ApprovalsDb, Ids}
use aops_pmoa.Approvals.Votes.{votes_count, is_same_vote, approve_approval}
use aops_pmoa.Approvals.Quorum.{vote_of, Casts, approve_approval-parts}

module _ {Float : Type 0} (texts : Texts) (encoding : Encoding Float) (number_of : ℕ → Float) where
  abbrev is_row : ApprovalRow Float → ApprovalRow Float → Bool
  is_row r x = x.org_id == r.org_id && x.id == r.id

  -- What becomes of the request: it is approved by the vote that makes up the number that it requires,
  -- and stays as it is, the note aside, before that.
  abbrev pub Decides :
      (now : ℕ)
      → (actor_id note : String) → (votes : ℕ) → ApprovalRow Float
      → ApprovalRow Float
      → ApprovalsDb Float
      → ApprovalsDb Float
      → Type 0
  Decides now actor_id note votes r view db db' =
      ((r.required_approvals ≤ votes)
        × (view ≡ record r {
          status = approved;
          approved_by = some actor_id;
          approved_at = some now;
          note = note;
          updated_at = now;
        })
        × (db'.requests
            ≡ update_where (is_row r)
                (λ (x : ApprovalRow Float). record x {
                  status = approved;
                  approved_by = some actor_id;
                  approved_at = some now;
                  note = note;
                  updated_at = now;
                })
                db.requests))
      ⊎ ((votes < r.required_approvals)
          × (view ≡ record r { note = note; updated_at = now })
          × (db'.requests
              ≡ update_where (is_row r)
                  (λ (x : ApprovalRow Float). record x { note = note; updated_at = now })
                  db.requests))

  Casts-Decides :
      (now : ℕ) (ids : Ids) (actor_id note : String) (votes : ℕ) (r view : ApprovalRow Float)
      (db db' : ApprovalsDb Float)
      → Casts texts encoding number_of now ids actor_id note votes r view db db'
      → Decides now actor_id note (votes + 1) r view db db'
  Casts-Decides now ids actor_id note votes r view db db' (shown, fresh, cast, requests) =
      elim (Bool-cases (leb r.required_approvals (votes + 1))) [
        | inl reached ↦ inl (ground arith, rw reached at shown, rw reached at requests)
        | inr short ↦ inr (ground arith, rw short at shown, rw short at requests)
      ]

  unvoted :
      (vote : VoteRow) (votes : List VoteRow)
      → any (is_same_vote vote) votes ≡ false
      → any
          (λ (v : VoteRow). v.approval_id == vote.approval_id && v.actor_id == vote.actor_id)
          votes
        ≡ false
  unvoted vote [] h = refl
  unvoted vote (v ∷ votes) h = ground (arith, unvoted vote votes)

  -- An approval that succeeds found a pending request that has not expired, of another requester
  -- and without a vote of this operator; it adds one vote of the operator. The request is approved, by
  -- this operator and at this time, exactly when the votes with it reach the number that it requires;
  -- otherwise it takes the note and stays pending. No other request is changed.
  pub approve_approval-eq-ok :
      (now : ℕ) (ids : Ids) (actor_id org_id approval_id note : String) (view : ApprovalRow Float)
      (db db' : ApprovalsDb Float)
      → approve_approval texts encoding number_of now ids actor_id org_id approval_id note db
        ≡ ok (view, db')
      → (r : ApprovalRow Float) × (find?
            (λ (x : ApprovalRow Float). x.org_id == org_id && x.id == approval_id)
            db.requests
          ≡ some r)
        × (r.status ≡ pending)
        × (now < r.expires_at)
        × ((r.requested_by == actor_id) ≡ false)
        × (any (λ (v : VoteRow). v.approval_id == r.id && v.actor_id == actor_id) db.votes ≡ false)
        × (db'.votes
            ≡ db.votes
              ++ record {
                id = ids.vote;
                org_id = r.org_id;
                approval_id = r.id;
                actor_id = actor_id;
                note = note;
              }
                ∷ [])
        × Decides now actor_id note
            (length (filter (λ (v : VoteRow). v.approval_id == approval_id) db.votes) + 1)
            r
            view
            db
            db'
  approve_approval-eq-ok now ids actor_id org_id approval_id note view db db' e =
      let (r, found, open_yet, early, other, casts) =
        approve_approval-parts texts encoding number_of now ids actor_id org_id approval_id note
          view db db' e in
      (
        r,
        found,
        open_yet,
        early,
        other,
        unvoted (vote_of texts encoding number_of ids actor_id note r) db.votes casts.1,
        casts.2,
        Casts-Decides now ids actor_id note (votes_count approval_id db.votes) r view db db' casts,
      )
