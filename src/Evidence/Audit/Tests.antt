-- ===== src/Evidence/Audit/Tests.antt =====
-- Two recordings of one organisation, with a payload that is redacted and a key.
use aops_pmoa.Prelude.{
  ℕ, zero, suc, ◌≡◌, refl, String, Bool, true, false, not, Option, none, some, List, [], ◌∷◌, codes,
  Result, ok, err,
}
use aops_pmoa.Prelude.Sort.{insert_by, order_by}
use aops_pmoa.JsonValue.{Json, str, obj, end, prop}
use aops_pmoa.Evidence.Redaction.{
  redact_audit_payload, redact_value, is_sensitive_key, normalize_key, includes_text, strip_prefix,
}
use aops_pmoa.Evidence.CanonicalJson.{Encoding, sha256_hex, encode_canonical}
use aops_pmoa.Evidence.Audit.Types.{service, success, RecordAuditEventInput, AuditEventRow, AuditDb}
use aops_pmoa.Evidence.Audit.Writer.{
  Texts, audit_row, distinct_from, normalized_tags, build_canonical_body, append_event, link_event,
  record_audit_event,
}
use aops_pmoa.Evidence.Audit.Recordings.{Grows, start, next, records, Run-Grows, record-again}

abbrev texts : Texts
texts = record {
  decimal_text = λ n. elim n [ zero ↦ "0" | suc m ↦ elim m [ zero ↦ "1" | suc k ↦ "2" ] ];
  iso_text = λ n. "2026-01-01T00:00:00.000Z";
}

-- A hash of one bit, by the number of characters.
abbrev parity : List ℕ → Bool
parity [] = true
parity (c ∷ cs) = not (parity cs)

abbrev bit_text : Bool → String
bit_text true = "a"
bit_text false = "b"

abbrev encoding : Encoding ℕ
encoding = record {
  text_literal = codes;
  number_literal = λ n. some (codes "0");
  not_after = λ k l. true;
  sha256 = λ t. bit_text (parity t);
}

abbrev input : Option String → Option (Json ℕ) → RecordAuditEventInput ℕ
input key payload = record {
  org_id = "org_1";
  idempotency_key = key;
  event_type = "wallet.created";
  occurred_at = none;
  actor_type = service;
  actor_id = none;
  action = "create";
  outcome = success;
  reason_code = none;
  resource = none;
  domain = none;
  category = none;
  severity = none;
  tags = some ("a" ∷ "" ∷ "a" ∷ []);
  related_agent = none;
  related_team = none;
  related_connection = none;
  related_wallet_ref = none;
  related_policy = none;
  related_wallet = none;
  request_id = none;
  source_section = none;
  source_system = none;
  source_ref = none;
  policy_ref = none;
  decision_ref = none;
  approval_ref = none;
  external_refs = none;
  retention_class = none;
  payload = payload;
}

abbrev empty : AuditDb ℕ
empty = record { events = []; heads = [] }

abbrev first : RecordAuditEventInput ℕ
first = input (some "k1") (some (obj (prop "token" (str "t") end)))

abbrev second : RecordAuditEventInput ℕ
second = input none none

-- The tables after a recording, and its event.
abbrev tables_after : Result (AuditEventRow ℕ × AuditDb ℕ) → AuditDb ℕ
tables_after (err e) = empty
tables_after (ok (row, db)) = db

abbrev one : AuditDb ℕ
one = tables_after (record_audit_event texts encoding 5 "aud_1" first empty)

abbrev two : AuditDb ℕ
two = tables_after (record_audit_event texts encoding 9 "aud_2" second one)

abbrev event_of : List (AuditEventRow ℕ) → RecordAuditEventInput ℕ → AuditEventRow ℕ
event_of [] input = audit_row texts encoding 0 "" input "" 0 none ""
event_of (e ∷ []) input = e
event_of (e ∷ f ∷ es) input = event_of (f ∷ es) input

one-ok :
    record_audit_event texts encoding 5 "aud_1" first empty ≡ ok (event_of one.events first, one)
unfolding record_audit_event build_canonical_body normalized_tags distinct_from sha256_hex
    encode_canonical order_by insert_by link_event append_event redact_audit_payload redact_value
    is_sensitive_key normalize_key includes_text strip_prefix
one-ok = refl

two-ok :
    record_audit_event texts encoding 9 "aud_2" second one ≡ ok (event_of two.events second, two)
unfolding record_audit_event build_canonical_body normalized_tags distinct_from sha256_hex
    encode_canonical order_by insert_by link_event append_event redact_audit_payload redact_value
    is_sensitive_key normalize_key includes_text strip_prefix
two-ok = refl

Run-Grows_example : Grows texts encoding empty two
Run-Grows_example =
    Run-Grows texts encoding empty two (λ org_id. refl)
      (next (next start (records 5 "aud_1" first (event_of one.events first) one-ok))
        (records 9 "aud_2" second (event_of two.events second) two-ok))

record-again_example :
    record_audit_event texts encoding 8 "aud_3" first one ≡ ok (event_of one.events first, one)
record-again_example =
    record-again texts encoding 5 8 "aud_1" "aud_3" first "k1" empty one (event_of one.events first)
      refl one-ok
