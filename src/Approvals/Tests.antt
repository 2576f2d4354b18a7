-- ===== src/Approvals/Tests.antt =====
-- The vote of an operator that completes a quorum of two.
use aops_pmoa.Prelude.{
  ℕ, ◌≡◌, ◌<◌, refl, true, false, none, some, [], ◌∷◌, codes, ◌+◌, ◌++◌, ◌&&◌, any, length, filter,
  ◌==◌, text_comparable, find?, Result, ok, err, arith,
}
use aops_pmoa.Prelude.Sort.{insert_by, order_by}
use aops_pmoa.JsonValue.{obj, end}
use aops_pmoa.Evidence.Redaction.{
  redact_audit_payload, redact_value, is_sensitive_key, normalize_key, includes_text, strip_prefix,
  is_sensitive_string, search_at_words, then_token,
}
use aops_pmoa.Evidence.CanonicalJson.{Encoding, sha256_hex, encode_canonical}
use aops_pmoa.Evidence.Audit.Writer.{
  Texts, distinct_from, normalized_tags, build_canonical_body, append_event, link_event,
  record_audit_event,
}
use aops_pmoa.Approvals.Types.{pending, ApprovalRow, VoteRow, ApprovalsDb, Ids}
use aops_pmoa.Approvals.Votes.{approve_row, announce_vote, cast_vote, approve_approval}
use aops_pmoa.Approvals.Decided.{Decides, approve_approval-eq-ok}
use aops_pmoa.Approvals.Runs.{IsQuorate, start, next, approves, Run-IsQuorate}

abbrev texts : Texts
texts = record { decimal_text = λ n. "2"; iso_text = λ n. "" }

abbrev encoding : Encoding ℕ
encoding = record {
  text_literal = codes;
  number_literal = λ n. some (codes "2");
  not_after = λ k l. true;
  sha256 = λ t. "hash";
}

abbrev request : ApprovalRow ℕ
request = record {
  id = "apv_1";
  org_id = "org";
  agent_id = "agent";
  connection_id = "conn";
  decision_id = "dec";
  status = pending;
  action_id = "payment.create";
  target_type = "payment";
  target_id = none;
  context = obj end;
  context_hash = "hash";
  requested_by = "conn";
  approved_by = none;
  approved_at = none;
  denied_by = none;
  denied_at = none;
  consumed_at = none;
  expires_at = 900;
  note = "";
  required_approvals = 2;
  created_at = 0;
  updated_at = 0;
}

abbrev first_vote : VoteRow
first_vote = record {
  id = "v1";
  org_id = "org";
  approval_id = "apv_1";
  actor_id = "ann";
  note = "";
}

abbrev tables : ApprovalsDb ℕ
tables = record {
  requests = request ∷ [];
  votes = first_vote ∷ [];
  actions = [];
  activities = [];
  audit = record { events = []; heads = [] };
}

abbrev ids : Ids
ids = record { vote = "v2"; action = "ac2"; activity = "at2"; audit = "aud2" }

abbrev tables_after : Result (ApprovalRow ℕ × ApprovalsDb ℕ) → ApprovalsDb ℕ
tables_after (err e) = tables
tables_after (ok (view, db)) = db

abbrev voted : ApprovalsDb ℕ
voted =
    tables_after (approve_approval texts encoding (λ n. n) 5 ids "bob" "org" "apv_1" "fine" tables)

vote_runs :
    approve_approval texts encoding (λ n. n) 5 ids "bob" "org" "apv_1" "fine" tables
    ≡ ok (approve_row 5 true "bob" "fine" request, voted)
unfolding approve_approval cast_vote announce_vote record_audit_event build_canonical_body
    normalized_tags distinct_from sha256_hex encode_canonical order_by insert_by link_event
    append_event redact_audit_payload redact_value is_sensitive_key normalize_key includes_text
    strip_prefix is_sensitive_string search_at_words then_token
vote_runs = refl

approve_approval-eq-ok_example :
    (r : ApprovalRow ℕ) × (find?
        (λ (x : ApprovalRow ℕ). x.org_id == "org" && x.id == "apv_1")
        tables.requests
      ≡ some r)
    × (r.status ≡ pending)
    × (5 < r.expires_at)
    × ((r.requested_by == "bob") ≡ false)
    × (any (λ (v : VoteRow). v.approval_id == r.id && v.actor_id == "bob") tables.votes ≡ false)
    × (voted.votes
        ≡ tables.votes
          ++ record {
            id = "v2";
            org_id = r.org_id;
            approval_id = r.id;
            actor_id = "bob";
            note = "fine";
          }
            ∷ [])
    × Decides texts encoding
        (λ n. n)
        5
        "bob"
        "fine"
        (length (filter (λ (v : VoteRow). v.approval_id == "apv_1") tables.votes) + 1)
        r
        (approve_row 5 true "bob" "fine" request)
        tables
        voted
approve_approval-eq-ok_example =
    approve_approval-eq-ok texts encoding (λ n. n) 5 ids "bob" "org" "apv_1" "fine"
      (approve_row 5 true "bob" "fine" request) tables voted vote_runs

tables-IsQuorate : IsQuorate tables
tables-IsQuorate = ((refl, tt), (λ k. absurd (ground arith), tt))

Run-IsQuorate_example : IsQuorate voted
Run-IsQuorate_example =
    Run-IsQuorate texts encoding (λ n. n) tables voted tables-IsQuorate
      (next start (
        approves 5 ids "bob" "org" "apv_1" "fine" (approve_row 5 true "bob" "fine" request)
          vote_runs))
