-- ===== src/Approvals/Runs.antt =====
-- Votes and denials, one after another.
use aops_pmoa.Prelude.{
  ℕ, ◌+◌, ◌≤◌, ◌≡◌, refl, sym, ap, subst, ◌∙◌, inl, inr, String, Bool, true, false, ◌&&◌, some,
  List, [], ◌∷◌, ◌++◌, arith, any, find?, find?-test, update_where, leb, ltb, All, ◌==◌, ==_refl,
  text_comparable, ok, Bool-cases, Option-cases, bind-eq-ok,
}
use aops_pmoa.Prelude.Keys.{is_keyed, HasDistinct, HasDistinct-update_where, All-change, All-both}
use aops_pmoa.Evidence.CanonicalJson.{Encoding}
use aops_pmoa.Evidence.Audit.Writer.{Texts}
use aops_pmoa.Approvals.Types.{
  pending, approved, is_pending, ApprovalRow, VoteRow, ApprovalsDb, Ids,
}
use aops_pmoa.Approvals.Votes.{
  is_request, is_vote_on, votes_count, approve_row, deny_row, is_deniable, not_deniable,
  insert_action, record_activity, approve_approval, deny_approval, announce_denial, deny_matching,
}
use aops_pmoa.Approvals.Quorum.{
  Keeps, insert_action-Keeps, record_activity-Keeps, record_audit-Keeps, vote_of,
  approve_approval-parts,
}

votes_count-hit :
    (id : String) (vs : List VoteRow) (v : VoteRow)
    → is_vote_on id v ≡ true
    → votes_count id (vs ++ v ∷ []) ≡ votes_count id vs + 1
votes_count-hit id [] v h = rw h refl
votes_count-hit id (w ∷ vs) v h = elim (Bool-cases (is_vote_on id w)) [
  | inl own ↦ let rest = votes_count-hit id vs v h in rw own (omega (arith, rest))
  | inr other ↦ rw other (votes_count-hit id vs v h)
]

votes_count-grows :
    (id : String) (vs : List VoteRow) (v : VoteRow)
    → votes_count id vs ≤ votes_count id (vs ++ v ∷ [])
votes_count-grows id [] v = omega arith
votes_count-grows id (w ∷ vs) v = elim (Bool-cases (is_vote_on id w)) [
  | inl own ↦ let rest = votes_count-grows id vs v in rw own (omega (arith, rest))
  | inr other ↦ rw other (votes_count-grows id vs v)
]

module _ {Float : Type 0} where
  no-request :
      (org_id id : String) (r : ApprovalRow Float) (rs : List (ApprovalRow Float))
      → any (is_keyed (λ (r : ApprovalRow Float). r.id) id) rs ≡ false
      → All (λ x. is_request org_id id x ≡ true → x ≡ r) rs
  no-request org_id id r [] h = tt
  no-request org_id id r (x ∷ xs) h = ground (arith, no-request org_id id r xs)

  -- Where ids are distinct, the request that is found is the only one.
  request-only :
      (org_id id : String) (rs : List (ApprovalRow Float)) (r : ApprovalRow Float)
      → HasDistinct (λ (r : ApprovalRow Float). r.id) rs
      → find? (is_request org_id id) rs ≡ some r
      → All (λ x. is_request org_id id x ≡ true → x ≡ r) rs
  request-only org_id id [] r h e = tt
  request-only org_id id (x ∷ xs) r (alone, h) e = elim (Bool-cases (is_request org_id id x)) [
    | inl hit ↦
        let same : x ≡ r = ground arith in
        let named : x.id ≡ id = (text_comparable.same_iff x.id id).0 (ground arith) in
        (
          λ k. same,
          no-request org_id id r xs (
              subst (λ i. any (is_keyed (λ (r : ApprovalRow Float). r.id) i) xs ≡ false) named
                alone),
        )
    | inr miss ↦ (λ k. absurd (ground arith), request-only org_id id xs r h (rw miss at e))
  ]

  -- An approved request has the votes that it requires.
  abbrev pub HasQuorum : List VoteRow → ApprovalRow Float → Type 0
  HasQuorum votes r = r.status ≡ approved → r.required_approvals ≤ votes_count r.id votes

  -- Distinct ids, and a quorum behind each approval.
  abbrev pub IsQuorate : ApprovalsDb Float → Type 0
  IsQuorate db =
      HasDistinct (λ (r : ApprovalRow Float). r.id) db.requests
      × All (HasQuorum db.votes) db.requests

  approve_row-id :
      (now : ℕ) (b : Bool) (actor_id note : String) (r : ApprovalRow Float)
      → (approve_row now b actor_id note r).id ≡ r.id
  approve_row-id now true actor_id note r = refl
  approve_row-id now false actor_id note r = refl

  approve_row-HasQuorum :
      (now : ℕ) (b : Bool) (actor_id note : String) (r : ApprovalRow Float) (votes : List VoteRow)
      → r.status ≡ pending
      → (b ≡ true → r.required_approvals ≤ votes_count r.id votes)
      → HasQuorum votes (approve_row now b actor_id note r)
  approve_row-HasQuorum now true actor_id note r votes unvoted enough e = enough refl
  approve_row-HasQuorum now false actor_id note r votes unvoted enough e = absurd (ground arith)

  module _ (texts : Texts) (encoding : Encoding Float) (number_of : ℕ → Float) where
    approve-IsQuorate :
        (now : ℕ) (ids : Ids) (actor_id org_id approval_id note : String) (view : ApprovalRow Float)
        (db db' : ApprovalsDb Float)
        → approve_approval texts encoding number_of now ids actor_id org_id approval_id note db
          ≡ ok (view, db')
        → IsQuorate db
        → IsQuorate db'
    approve-IsQuorate now ids actor_id org_id approval_id note view db db' e (distinct, quorums) =
        let (r, found, unvoted, early, other, (shown, fresh, votes, requests)) =
          approve_approval-parts texts encoding number_of now ids actor_id org_id approval_id note
            view db db' e in
        let hit = find?-test (is_request org_id approval_id) db.requests found in
        let org : r.org_id ≡ org_id = (text_comparable.same_iff r.org_id org_id).0 (ground arith) in
        let named : r.id ≡ approval_id =
          (text_comparable.same_iff r.id approval_id).0 (ground arith) in
        let found' : find? (is_request r.org_id r.id) db.requests ≡ some r =
          rw (org, named) found in
        let only = request-only r.org_id r.id db.requests r distinct found' in
        let vote : VoteRow = vote_of texts encoding number_of ids actor_id note r in
        let b : Bool = leb r.required_approvals (votes_count approval_id db.votes + 1) in
        let change : ApprovalRow Float → ApprovalRow Float = approve_row now b actor_id note in
        let counted : votes_count r.id (db.votes ++ vote ∷ [])
            ≡ votes_count approval_id db.votes + 1 =
          subst (λ i. votes_count r.id (db.votes ++ vote ∷ []) ≡ votes_count i db.votes + 1) named
            (votes_count-hit r.id db.votes vote (==_refl r.id)) in
        let enough : b ≡ true → r.required_approvals ≤ votes_count r.id (db.votes ++ vote ∷ []) =
          λ k. rw counted (ground arith) in
        let all : All (HasQuorum (db.votes ++ vote ∷ []))
            (update_where (is_request r.org_id r.id) change db.requests) =
          All-change (λ x. HasQuorum db.votes x × (is_request r.org_id r.id x ≡ true → x ≡ r))
            (HasQuorum (db.votes ++ vote ∷ [])) (is_request r.org_id r.id) change
            (λ x h q.
              subst (λ z. HasQuorum (db.votes ++ vote ∷ []) (change z)) (sym (q.1 h))
                (approve_row-HasQuorum now b actor_id note r (db.votes ++ vote ∷ []) unvoted
                  enough))
            (λ x h q k.
              let more = votes_count-grows x.id db.votes vote in
              let before = q.0 k in omega (arith, more, before))
            db.requests
            (All-both (HasQuorum db.votes) (λ x. is_request r.org_id r.id x ≡ true → x ≡ r)
              db.requests quorums only) in
        rw (votes, requests)
          (
            HasDistinct-update_where (λ (x : ApprovalRow Float). x.id) (is_request r.org_id r.id)
                change (approve_row-id now b actor_id note) db.requests distinct,
            all,
          )

    announce_denial-Keeps :
        (now : ℕ) (ids : Ids) (actor_id org_id approval_id note : String) (r : ApprovalRow Float)
        (db db' : ApprovalsDb Float)
        → announce_denial texts encoding number_of now ids actor_id org_id approval_id note r db
          ≡ ok (tt, db')
        → Keeps texts encoding number_of db db'
    unfolding announce_denial
    announce_denial-Keeps now ids actor_id org_id approval_id note r db db' e =
        let (t, acted, first, rest) =
          bind-eq-ok (insert_action texts encoding number_of _) _ db e in
        let (u, listed, second, third) =
          bind-eq-ok (record_activity texts encoding number_of _) _ acted rest in
        let (requests, votes) = insert_action-Keeps texts encoding number_of _ db acted first in
        let (requests', votes') =
          record_activity-Keeps texts encoding number_of _ acted listed second in
        let (requests'', votes'') =
          record_audit-Keeps texts encoding number_of now ids.audit _ listed db' third in
        (requests'' ∙ requests' ∙ requests, votes'' ∙ votes' ∙ votes)

    not_deniable-refuses :
        (now : ℕ) (actor_id org_id approval_id : String) (db : ApprovalsDb Float)
        (a : ApprovalRow Float × ApprovalsDb Float)
        → ¬ (not_deniable texts encoding number_of now actor_id org_id approval_id db ≡ ok a)
    not_deniable-refuses now actor_id org_id approval_id db a e =
        elim (Bool-cases (
          any
            (λ (r : ApprovalRow Float).
              is_request org_id approval_id r
              && is_pending r.status
              && ltb now r.expires_at
              && r.requested_by == actor_id)
            db.requests)) [ inl own ↦ ground arith | inr other ↦ ground arith ]

    deny-eq-ok :
        (now : ℕ) (ids : Ids) (actor_id org_id approval_id note : String) (view : ApprovalRow Float)
        (db db' : ApprovalsDb Float)
        → deny_approval texts encoding number_of now ids actor_id org_id approval_id note db
          ≡ ok (view, db')
        → Keeps texts encoding number_of
            (deny_matching texts encoding number_of now actor_id org_id approval_id note db)
            db'
    unfolding deny_approval
    deny-eq-ok now ids actor_id org_id approval_id note view db db' e =
        elim (Option-cases (
          find? (is_deniable texts encoding number_of now actor_id org_id approval_id)
            db.requests)) [
              | inl missing ↦ absurd (
                  not_deniable-refuses now actor_id org_id approval_id db (view, db')
                    (rw (missing, deny_approval) at e))
              | inr (r, found) ↦
                  let marked : ApprovalsDb Float =
                    deny_matching texts encoding number_of now actor_id org_id approval_id note
                      db in
                  let (t, told, first, last) =
                    bind-eq-ok
                      (announce_denial texts encoding number_of now ids actor_id org_id approval_id
                        note (deny_row now actor_id note r))
                      _ marked (rw (found, deny_approval) at e) in
                  let (requests, votes) =
                    announce_denial-Keeps now ids actor_id org_id approval_id note
                      (deny_row now actor_id note r) marked told first in
                  let same : db' ≡ told = ground arith in
                  (ap (λ d. d.requests) same ∙ requests, ap (λ d. d.votes) same ∙ votes)
            ]

    deny-IsQuorate :
        (now : ℕ) (ids : Ids) (actor_id org_id approval_id note : String) (view : ApprovalRow Float)
        (db db' : ApprovalsDb Float)
        → deny_approval texts encoding number_of now ids actor_id org_id approval_id note db
          ≡ ok (view, db')
        → IsQuorate db
        → IsQuorate db'
    deny-IsQuorate now ids actor_id org_id approval_id note view db db' e (distinct, quorums) =
        let (requests, votes) = deny-eq-ok now ids actor_id org_id approval_id note view db db' e in
        let hits : ApprovalRow Float → Bool =
          is_deniable texts encoding number_of now actor_id org_id approval_id in
        rw (requests, votes)
          (
            HasDistinct-update_where (λ (x : ApprovalRow Float). x.id) hits
                (deny_row now actor_id note) (λ r. refl) db.requests distinct,
            All-change (HasQuorum db.votes) (HasQuorum db.votes) hits (deny_row now actor_id note)
                (λ x h q k. absurd (ground arith)) (λ x h q. q) db.requests quorums,
          )

    -- A vote or a denial that succeeds; one that fails is rolled back.
    pub data Step (db db' : ApprovalsDb Float) : Type 0 where
      approves :
          (now : ℕ) (ids : Ids) (actor_id org_id approval_id note : String)
          (view : ApprovalRow Float)
          → approve_approval texts encoding number_of now ids actor_id org_id approval_id note db
            ≡ ok (view, db')
          → Step db db'
      denies :
          (now : ℕ) (ids : Ids) (actor_id org_id approval_id note : String)
          (view : ApprovalRow Float)
          → deny_approval texts encoding number_of now ids actor_id org_id approval_id note db
            ≡ ok (view, db')
          → Step db db'

    pub data Run (db : ApprovalsDb Float) : ApprovalsDb Float → Type 0 where
      start : Run db db
      next : {u v : ApprovalsDb Float} → Run db u → Step u v → Run db v

    Step-IsQuorate : (db db' : ApprovalsDb Float) → Step db db' → IsQuorate db → IsQuorate db'
    Step-IsQuorate db db' (approves now ids actor_id org_id approval_id note view e) =
        approve-IsQuorate now ids actor_id org_id approval_id note view db db' e
    Step-IsQuorate db db' (denies now ids actor_id org_id approval_id note view e) =
        deny-IsQuorate now ids actor_id org_id approval_id note view db db' e

    -- In any run of votes and denials, from tables with distinct ids and a quorum behind each approval,
    -- an approved request has at least as many votes as it requires.
    pub Run-IsQuorate : (db db' : ApprovalsDb Float) → IsQuorate db → Run db db' → IsQuorate db'
    Run-IsQuorate db db' quorate start = quorate
    Run-IsQuorate db db' quorate (next {u} run step) =
        Step-IsQuorate u db' step (Run-IsQuorate db u quorate run)
