-- ===== src/Evidence/Audit/Writer.antt =====
-- recordAuditEvent of audit-writer.ts, a body of the transaction of its caller. The decimal text of a
-- number and the ISO text of a time are parameters.
use Prim.Native.Char.{code}
use mathlib.Core.Option
use aops_pmoa.Prelude.{
  ℕ, zero, suc, ◌+◌, String, Bool, true, false, not, ◌&&◌, ◌||◌, Option, none, some, List, [], ◌∷◌,
  ◌++◌, map, filter, find?, any, includes, update_where, holds, nat_beq, is_space, if◌then◌else◌,
  ◌==◌, text_comparable, error, Result, ok, err, Tx,
}
use aops_pmoa.JsonValue.{Json, null, str, arr, obj, Elems, nil, cons, Props, end, prop}
use aops_pmoa.Evidence.Redaction.{redact_audit_payload}
use aops_pmoa.Evidence.CanonicalJson.{Encoding, sha256_hex}
use aops_pmoa.Evidence.Audit.Types.{
  AuditEventDomain, configuration, info, standard, RedactionState, unredacted, redacted,
  RecordAuditEventInput, AuditEventRow, AuditHeadRow, AuditDb, actor_type_text, outcome_text,
  retention_text, domain_text, category_text, severity_text, redaction_text,
}

-- What the language makes of numbers and times.
pub record Texts : Type 0 where
  pub decimal_text : ℕ → String
  pub iso_text : ℕ → String

-- `text.trim()`
abbrev pub trim_text_start : String → String
trim_text_start String.[] = ""
trim_text_start (String.◌∷◌ c s) =
    let rest = trim_text_start s in if is_space (code c) then rest else String.◌∷◌ c s

abbrev pub trim_text_end : String → String
trim_text_end String.[] = ""
trim_text_end (String.◌∷◌ c s) =
    let rest = trim_text_end s in if is_space (code c) && rest == "" then "" else String.◌∷◌ c rest

abbrev pub trim_text : String → String
trim_text s = trim_text_end (trim_text_start s)

abbrev pub first_tags : ℕ → List String → List String
first_tags zero tags = []
first_tags (suc n) [] = []
first_tags (suc n) (t ∷ tags) = t ∷ first_tags n tags

-- `Array.from(new Set(tags))`: each tag at its first place.
unfoldable pub distinct_from : (seen : List String) → List String → List String
distinct_from seen [] = []
distinct_from seen (t ∷ tags) =
    let rest = distinct_from seen tags in
    let next = distinct_from (t ∷ seen) tags in if includes seen t then rest else t ∷ next

abbrev pub text_or_null : {Float : Type 0} → Option String → Json Float
text_or_null none = null
text_or_null (some s) = str s

abbrev pub text_elems : {Float : Type 0} → List String → Elems Float
text_elems [] = nil
text_elems (t ∷ ts) = cons (str t) (text_elems ts)

abbrev pub json_props : {Float : Type 0} → List (String × Json Float) → Props Float
json_props [] = end
json_props ((k, v) ∷ ps) = prop k v (json_props ps)

-- An expected failure of the chain of an organisation
abbrev pub idempotency_conflict : {A : Type 0} → Result A
idempotency_conflict = err (error "idempotency_conflict")

abbrev pub is_head_of : String → AuditHeadRow → Bool
is_head_of org_id h = h.org_id == org_id

-- INSERT … ON CONFLICT (org_id) DO NOTHING
abbrev pub ensure_head : String → List AuditHeadRow → List AuditHeadRow
ensure_head org_id heads =
    if any (is_head_of org_id) heads
    then heads
    else heads ++ record { org_id = org_id; last_sequence = 0; last_event_hash = none } ∷ []

abbrev pub set_head : (sequence : ℕ) → (event_hash : String) → AuditHeadRow → AuditHeadRow
set_head sequence event_hash h = record h {
  last_sequence = sequence;
  last_event_hash = some event_hash;
}

abbrev pub is_recorded : {Float : Type 0} → (org_id key : String) → AuditEventRow Float → Bool
is_recorded org_id key e = e.org_id == org_id && holds (λ k. k == key) e.idempotency_key

-- The unique indexes: the id, the hash, the sequence of an organisation, and its idempotency keys.
abbrev pub is_duplicate : {Float : Type 0} → AuditEventRow Float → AuditEventRow Float → Bool
is_duplicate row e =
    e.id == row.id
    || e.event_hash == row.event_hash
    || e.org_id == row.org_id && nat_beq e.sequence row.sequence
    || holds (λ key. is_recorded row.org_id key e) row.idempotency_key

module _ {Float : Type 0} (texts : Texts) (encoding : Encoding Float) where
  open texts use {decimal_text, iso_text}

  unfoldable pub normalized_tags : Option (List String) → List String
  unfolding distinct_from
  normalized_tags none = []
  normalized_tags (some tags) =
      distinct_from [] (first_tags 32 (filter (λ t. not (t == "")) (map trim_text tags)))

  abbrev pub redaction_state_of : Bool → RedactionState
  redaction_state_of true = redacted
  redaction_state_of false = unredacted

  -- `input.payload ?? {}`, redacted
  abbrev pub redacted_payload : RecordAuditEventInput Float → Json Float × Bool
  redacted_payload input = redact_audit_payload (Option.get_or input.payload (obj end))

  unfoldable pub build_canonical_body : RecordAuditEventInput Float → Json Float
  unfolding normalized_tags
  build_canonical_body input = obj (
      json_props (
        ("action", str input.action)
        ∷ ("actorId", text_or_null input.actor_id)
        ∷ ("actorType", str (actor_type_text input.actor_type))
        ∷ ("approvalRef", text_or_null input.approval_ref)
        ∷ ("decisionRef", text_or_null input.decision_ref)
        ∷ ("eventType", str input.event_type)
        ∷ ("externalRefs", Option.get_or input.external_refs (obj end))
        ∷ ("eventCategory", str (category_text (Option.get_or input.category configuration)))
        ∷ ("eventDomain", str (domain_text (Option.get_or input.domain AuditEventDomain.system)))
        ∷ ("occurredAt", text_or_null (Option.map iso_text input.occurred_at))
        ∷ ("outcome", str (outcome_text input.outcome))
        ∷ ("payload", (redacted_payload input).0)
        ∷ ("policyRef", text_or_null input.policy_ref)
        ∷ ("reasonCode", text_or_null input.reason_code)
        ∷ ("redactionState", str (redaction_text (redaction_state_of (redacted_payload input).1)))
        ∷ ("relatedAgentId", text_or_null input.related_agent)
        ∷ ("relatedConnectionId", text_or_null input.related_connection)
        ∷ ("relatedPolicyId", text_or_null input.related_policy)
        ∷ ("relatedTeamId", text_or_null input.related_team)
        ∷ ("relatedWalletId", text_or_null input.related_wallet)
        ∷ ("relatedWalletRefId", text_or_null input.related_wallet_ref)
        ∷ ("requestId", text_or_null input.request_id)
        ∷ ("resourceId", text_or_null (Option.map (λ (r : String × String). r.1) input.resource))
        ∷ ("resourceType", text_or_null (Option.map (λ (r : String × String). r.0) input.resource))
        ∷ ("retentionClass", str (retention_text (Option.get_or input.retention_class standard)))
        ∷ ("severity", str (severity_text (Option.get_or input.severity info)))
        ∷ ("sourceRef", text_or_null input.source_ref)
        ∷ ("sourceSection", text_or_null input.source_section)
        ∷ ("sourceSystem", text_or_null input.source_system)
        ∷ ("tags", arr (text_elems (normalized_tags input.tags)))
        ∷ []))

  -- The body of the hash of an event.
  abbrev pub link_body : (body_hash org_id : String) → Option String → (sequence : ℕ) → Json Float
  link_body body_hash org_id previous_hash sequence = obj (
      json_props (
        ("canonicalBodyHash", str body_hash)
        ∷ ("orgId", str org_id)
        ∷ ("previousHash", text_or_null previous_hash)
        ∷ ("sequence", str (decimal_text sequence))
        ∷ []))

  abbrev pub audit_row :
      (now : ℕ)
      → (id : String) → RecordAuditEventInput Float
      → (body_hash : String) → (sequence : ℕ) → Option String
      → (event_hash : String) → AuditEventRow Float
  audit_row now id input body_hash sequence previous_hash event_hash = record {
    id = id;
    org_id = input.org_id;
    sequence = sequence;
    idempotency_key = input.idempotency_key;
    event_type = input.event_type;
    occurred_at = Option.get_or input.occurred_at now;
    actor_type = input.actor_type;
    actor_id = input.actor_id;
    action = input.action;
    outcome = input.outcome;
    reason_code = input.reason_code;
    resource_type = Option.map (λ (r : String × String). r.0) input.resource;
    resource_id = Option.map (λ (r : String × String). r.1) input.resource;
    event_domain = Option.get_or input.domain AuditEventDomain.system;
    event_category = Option.get_or input.category configuration;
    severity = Option.get_or input.severity info;
    tags = normalized_tags input.tags;
    related_agent_id = input.related_agent;
    related_team_id = input.related_team;
    related_connection_id = input.related_connection;
    related_wallet_ref_id = input.related_wallet_ref;
    related_policy_id = input.related_policy;
    related_wallet_id = input.related_wallet;
    request_id = input.request_id;
    source_section = input.source_section;
    source_system = input.source_system;
    source_ref = input.source_ref;
    policy_ref = input.policy_ref;
    decision_ref = input.decision_ref;
    approval_ref = input.approval_ref;
    external_refs = Option.get_or input.external_refs (obj end);
    retention_class = Option.get_or input.retention_class standard;
    redaction_state = redaction_state_of (redacted_payload input).1;
    payload = (redacted_payload input).0;
    canonical_body = build_canonical_body input;
    canonical_body_hash = body_hash;
    previous_hash = previous_hash;
    event_hash = event_hash;
  }

  -- The event behind the head of its organisation.
  unfoldable pub append_event :
      (now : ℕ)
      → (id : String) → RecordAuditEventInput Float
      → (body_hash : String) → AuditHeadRow
      → List AuditHeadRow
      → AuditDb Float
      → Result (AuditEventRow Float × AuditDb Float)
  append_event now id input body_hash head heads db =
      elim (sha256_hex encoding
        (link_body body_hash input.org_id head.last_event_hash (head.last_sequence + 1))) [
          | err e ↦ err e
          | ok event_hash ↦
              let row =
                audit_row now id input body_hash (head.last_sequence + 1) head.last_event_hash
                  event_hash in
              if any (is_duplicate row) db.events
              then err (error "unique_violation")
              else ok (
                row,
                record {
                  events = db.events ++ row ∷ [];
                  heads =
                      update_where (is_head_of input.org_id)
                        (set_head (head.last_sequence + 1) event_hash) heads;
                },
              )
        ]

  unfoldable pub link_event :
      (now : ℕ)
      → (id : String) → RecordAuditEventInput Float
      → (body_hash : String) → Tx (AuditDb Float) (AuditEventRow Float)
  unfolding append_event
  link_event now id input body_hash db =
      let heads = ensure_head input.org_id db.heads in
      elim (find? (is_head_of input.org_id) heads) [
        | none ↦ err (error "audit_head_not_found")
        | some head ↦ append_event now id input body_hash head heads db
      ]

  abbrev pub recorded_event :
      RecordAuditEventInput Float → AuditDb Float → Option (AuditEventRow Float)
  recorded_event input db = elim input.idempotency_key [
    | none ↦ none
    | some key ↦ find? (is_recorded input.org_id key) db.events
  ]

  unfoldable pub record_audit_event :
      (now : ℕ)
      → (id : String) → RecordAuditEventInput Float
      → Tx (AuditDb Float) (AuditEventRow Float)
  unfolding build_canonical_body link_event
  record_audit_event now id input db = elim (sha256_hex encoding (build_canonical_body input)) [
    | err e ↦ err e
    | ok body_hash ↦ elim (recorded_event input db) [
      | none ↦ link_event now id input body_hash db
      | some e ↦ if e.canonical_body_hash == body_hash then ok (e, db) else idempotency_conflict
    ]
  ]
