-- ===== src/Approvals/Votes.antt =====
-- approveApproval and denyApproval of store.ts: bodies of a transaction. The number type is a
-- parameter, and with it the number of a count.
use Prim.Native.String
use aops_pmoa.Prelude.{
  ℕ, ◌+◌, String, Bool, true, false, not, ◌&&◌, ◌||◌, none, some, List, [], ◌∷◌, ◌++◌, filter,
  find?, any, update_where, leb, ltb, if◌then◌else◌, ◌==◌, text_comparable, length, identity_error,
  conflict, error, Result, ok, err, Tx, ◌>>◌, pure, update,
}
use aops_pmoa.JsonValue.{Json, num, str, obj, end, prop}
use aops_pmoa.Evidence.CanonicalJson.{Encoding}
use aops_pmoa.Evidence.Audit.Types.{
  AuditActorType, AuditOutcome, success, pending, denied, AuditEventDomain, runtime, info,
  RecordAuditEventInput,
}
use aops_pmoa.Evidence.Audit.Writer.{Texts, record_audit_event}
use aops_pmoa.Approvals.Types.{
  ApprovalStatus, is_pending, approved, ApprovalRow, VoteRow, ApprovalActor, ApprovalActionRow,
  ActivityRow, ApprovalsDb, Ids,
}

-- WHERE org_id = $1 AND id = $2
abbrev pub is_request : {Float : Type 0} → (org_id approval_id : String) → ApprovalRow Float → Bool
is_request org_id approval_id r = r.org_id == org_id && r.id == approval_id

abbrev pub is_vote_on : String → VoteRow → Bool
is_vote_on approval_id v = v.approval_id == approval_id

abbrev pub votes_count : String → List VoteRow → ℕ
votes_count approval_id votes = length (filter (is_vote_on approval_id) votes)

-- The primary key, and UNIQUE (approval_id, actor_id).
abbrev pub is_same_vote : VoteRow → VoteRow → Bool
is_same_vote v w = w.id == v.id || w.approval_id == v.approval_id && w.actor_id == v.actor_id

abbrev pub approve_row :
    {Float : Type 0}
    → (now : ℕ) → (quorum_reached : Bool) → (actor_id note : String) → ApprovalRow Float
    → ApprovalRow Float
approve_row now true actor_id note r = record r {
  status = approved;
  approved_by = some actor_id;
  approved_at = some now;
  note = note;
  updated_at = now;
}
approve_row now false actor_id note r = record r { note = note; updated_at = now }

abbrev pub deny_row :
    {Float : Type 0} → (now : ℕ) → (actor_id note : String) → ApprovalRow Float → ApprovalRow Float
deny_row now actor_id note r = record r {
  status = ApprovalStatus.denied;
  denied_by = some actor_id;
  denied_at = some now;
  note = note;
  updated_at = now;
}

module _ {Float : Type 0} (texts : Texts) (encoding : Encoding Float) (number_of : ℕ → Float) where
  open texts use {decimal_text}

  abbrev pub insert_vote : VoteRow → Tx (ApprovalsDb Float) (Unit {0})
  insert_vote vote db =
      if any (is_same_vote vote) db.votes
      then err (conflict "already_voted")
      else ok (tt, record db { votes = db.votes ++ vote ∷ [] })

  abbrev pub insert_action : ApprovalActionRow → Tx (ApprovalsDb Float) (Unit {0})
  insert_action action db =
      if any (λ (a : ApprovalActionRow). a.id == action.id) db.actions
      then err (error "unique_violation")
      else ok (tt, record db { actions = db.actions ++ action ∷ [] })

  abbrev pub record_activity : ActivityRow Float → Tx (ApprovalsDb Float) (Unit {0})
  record_activity activity db =
      if any (λ (a : ActivityRow Float). a.id == activity.id) db.activities
      then err (error "unique_violation")
      else ok (tt, record db { activities = db.activities ++ activity ∷ [] })

  abbrev pub record_audit :
      (now : ℕ) → (id : String) → RecordAuditEventInput Float → Tx (ApprovalsDb Float) (Unit {0})
  record_audit now id input db = elim (record_audit_event texts encoding now id input db.audit) [
    | err e ↦ err e
    | ok (row, audit) ↦ ok (tt, record db { audit = audit })
  ]

  abbrev pub approval_activity :
      (id action : String)
      → AuditOutcome
      → (summary : String) → Json Float
      → ApprovalRow Float
      → ActivityRow Float
  approval_activity id action outcome summary payload r = record {
    id = id;
    org_id = r.org_id;
    agent_id = some r.agent_id;
    connection_id = some r.connection_id;
    decision_id = some r.decision_id;
    approval_id = some r.id;
    category = "approval";
    action = action;
    outcome = outcome;
    summary = summary;
    payload = payload;
  }

  abbrev pub approval_audit :
      (actor_id action : String)
      → AuditOutcome
      → Json Float
      → ApprovalRow Float
      → RecordAuditEventInput Float
  approval_audit actor_id action outcome payload r = record {
    org_id = r.org_id;
    idempotency_key = some (String.◌++◌ action (String.◌++◌ ":" r.id));
    event_type = action;
    occurred_at = none;
    actor_type = AuditActorType.user;
    actor_id = some actor_id;
    action = action;
    outcome = outcome;
    reason_code = none;
    resource = some ("approval", r.id);
    domain = some AuditEventDomain.policy;
    category = some runtime;
    severity = some info;
    tags = some ("section_3" ∷ "approval" ∷ []);
    related_agent = some r.agent_id;
    related_team = none;
    related_connection = some r.connection_id;
    related_wallet_ref = none;
    related_policy = none;
    related_wallet = none;
    request_id = none;
    source_section = some "section_3";
    source_system = some "approvals";
    source_ref = none;
    policy_ref = none;
    decision_ref = some r.decision_id;
    approval_ref = some r.id;
    external_refs = none;
    retention_class = none;
    payload = some payload;
  }

  abbrev pub vote_payload : (note : String) → (votes required : ℕ) → Json Float
  vote_payload note votes required = obj (
      prop "note" (str note) (
        prop "votes_count" (num (number_of votes))
          (prop "required_approvals" (num (number_of required)) end)))

  abbrev pub tally : (votes required : ℕ) → String
  tally votes required = String.◌++◌ " (" (
      String.◌++◌ (decimal_text votes)
        (String.◌++◌ "/" (String.◌++◌ (decimal_text required) " votes)")))

  -- What follows the UPDATE, by whether the quorum is reached.
  unfoldable pub announce_vote :
      (now : ℕ)
      → Ids
      → (quorum_reached : Bool) → (actor_id note : String) → (votes : ℕ) → ApprovalRow Float
      → Tx (ApprovalsDb Float) (Unit {0})
  announce_vote now ids true actor_id note votes r =
      record_activity (
        approval_activity ids.activity "approval.approved" success
          (String.◌++◌ "Approval granted" (tally votes r.required_approvals))
          (vote_payload note votes r.required_approvals) r)
      >> record_audit now ids.audit (
          approval_audit actor_id "approval.approved" success
            (vote_payload note votes r.required_approvals) r)
  announce_vote now ids false actor_id note votes r = record_activity (
      approval_activity ids.activity "approval.approved" pending
        (String.◌++◌ "Vote recorded"
          (String.◌++◌ (tally votes r.required_approvals) " -- quorum not yet reached"))
        (vote_payload note votes r.required_approvals) r)

  unfoldable pub cast_vote :
      (now : ℕ)
      → Ids
      → (actor_id note : String) → (votes : ℕ) → ApprovalRow Float
      → Tx (ApprovalsDb Float) (ApprovalRow Float)
  cast_vote now ids actor_id note votes r = do
    insert_vote (record {
      id = ids.vote;
      org_id = r.org_id;
      approval_id = r.id;
      actor_id = actor_id;
      note = note;
    })
    insert_action (record {
      id = ids.action;
      org_id = r.org_id;
      approval_id = r.id;
      actor_type = ApprovalActor.user;
      actor_id = actor_id;
      action = approved;
      note = note;
    })
    update (λ (db : ApprovalsDb Float). record db {
      requests =
          update_where (is_request r.org_id r.id)
            (approve_row now (leb r.required_approvals (votes + 1)) actor_id note) db.requests;
    })
    announce_vote now ids (leb r.required_approvals (votes + 1)) actor_id note (votes + 1)
        (approve_row now (leb r.required_approvals (votes + 1)) actor_id note r)
    pure (approve_row now (leb r.required_approvals (votes + 1)) actor_id note r)

  unfoldable pub approve_approval :
      (now : ℕ)
      → Ids
      → (actor_id org_id approval_id note : String) → Tx (ApprovalsDb Float) (ApprovalRow Float)
  approve_approval now ids actor_id org_id approval_id note db =
      elim (find? (is_request org_id approval_id) db.requests) [
        | none ↦ err (conflict "approval_not_pending")
        | some r ↦
            if not (is_pending r.status) || leb r.expires_at now
            then err (conflict "approval_not_pending")
            else if r.requested_by == actor_id
            then err (identity_error "self_approval_forbidden" 403)
            else cast_vote now ids actor_id note (votes_count approval_id db.votes) r db
      ]

  abbrev pub is_deniable :
      (now : ℕ) → (actor_id org_id approval_id : String) → ApprovalRow Float → Bool
  is_deniable now actor_id org_id approval_id r =
      is_request org_id approval_id r
      && is_pending r.status
      && ltb now r.expires_at
      && not (r.requested_by == actor_id)

  -- assertNotSelfApproval, and the conflict behind it.
  abbrev pub not_deniable :
      (now : ℕ)
      → (actor_id org_id approval_id : String) → ApprovalsDb Float
      → Result (ApprovalRow Float × ApprovalsDb Float)
  not_deniable now actor_id org_id approval_id db =
      if any
        (λ (r : ApprovalRow Float).
          is_request org_id approval_id r
          && is_pending r.status
          && ltb now r.expires_at
          && r.requested_by == actor_id)
        db.requests
      then err (identity_error "self_approval_forbidden" 403)
      else err (conflict "approval_not_pending")

  -- What follows the UPDATE of the request.
  unfoldable pub announce_denial :
      (now : ℕ)
      → Ids
      → (actor_id org_id approval_id note : String) → ApprovalRow Float
      → Tx (ApprovalsDb Float) (Unit {0})
  announce_denial now ids actor_id org_id approval_id note r = do
    insert_action (record {
      id = ids.action;
      org_id = org_id;
      approval_id = approval_id;
      actor_type = ApprovalActor.user;
      actor_id = actor_id;
      action = ApprovalStatus.denied;
      note = note;
    })
    record_activity (
        approval_activity ids.activity "approval.denied" denied "Approval denied"
          (obj (prop "note" (str note) end)) r)
    record_audit now ids.audit
        (approval_audit actor_id "approval.denied" denied (obj (prop "note" (str note) end)) r)

  abbrev pub deny_matching :
      (now : ℕ)
      → (actor_id org_id approval_id note : String) → ApprovalsDb Float
      → ApprovalsDb Float
  deny_matching now actor_id org_id approval_id note db = record db {
    requests =
        update_where (is_deniable now actor_id org_id approval_id) (deny_row now actor_id note)
          db.requests;
  }

  unfoldable pub deny_approval :
      (now : ℕ)
      → Ids
      → (actor_id org_id approval_id note : String) → Tx (ApprovalsDb Float) (ApprovalRow Float)
  deny_approval now ids actor_id org_id approval_id note db =
      elim (find? (is_deniable now actor_id org_id approval_id) db.requests) [
        | none ↦ not_deniable now actor_id org_id approval_id db
        | some r ↦
            (announce_denial now ids actor_id org_id approval_id note (deny_row now actor_id note r)
                >> pure (deny_row now actor_id note r))
              (deny_matching now actor_id org_id approval_id note db)
      ]
