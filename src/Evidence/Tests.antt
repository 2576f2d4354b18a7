-- ===== src/Evidence/Tests.antt =====
-- Redactions of small payloads, and the theorems at them.
use aops_pmoa.Prelude.{
  ℕ, ◌≡◌, ◌↔◌, refl, Bool, true, false, not, ◌||◌, ◌==◌, text_comparable, some, codes, ok, arith,
}
use aops_pmoa.JsonValue.{Json, num, str, arr, obj, nil, cons, end, prop}
use aops_pmoa.Evidence.Redaction.{
  normalize_key, strip_prefix, includes_text, is_sensitive_key, search_at_words, then_token,
  is_sensitive_string, redact_value, redact_audit_payload,
}
use aops_pmoa.Evidence.Redaction.Clean.{
  IsClean, HasNoProto, redact_audit_payload-IsClean, redact_audit_payload-again,
  redact_audit_payload-unflagged,
}
use aops_pmoa.Evidence.CanonicalJson.{Encoding, sha256_hex}
use aops_pmoa.Evidence.CanonicalJson.Order.{in_obj, same_end, same_prop, swapped, sha256_hex-Same}

abbrev payload : Json ℕ
payload = obj (
    prop "API-Key" (num 7)
      (prop "note" (str "sent Bearer  abc") (prop "items" (arr (cons (str "tea") nil)) end)))

abbrev cleaned : Json ℕ
cleaned = obj (
    prop "API-Key" (str "[REDACTED]")
      (prop "note" (str "[REDACTED]") (prop "items" (arr (cons (str "tea") nil)) end)))

redacts_payload : redact_audit_payload payload ≡ (cleaned, true)
unfolding redact_audit_payload redact_value is_sensitive_key normalize_key includes_text
    strip_prefix is_sensitive_string search_at_words then_token
redacts_payload = refl

redact_audit_payload-IsClean_example : IsClean (redact_audit_payload payload).0
redact_audit_payload-IsClean_example = redact_audit_payload-IsClean payload

redact_audit_payload-again_example :
    (redact_audit_payload (redact_audit_payload payload).0).0 ≡ (redact_audit_payload payload).0
redact_audit_payload-again_example = redact_audit_payload-again payload

abbrev order : Json ℕ
order = obj (prop "items" (arr (cons (str "tea") nil)) end)

order-HasNoProto : HasNoProto order
unfolding HasNoProto
order-HasNoProto = (refl, (tt, tt), tt)

order-unflagged : (redact_audit_payload order).1 ≡ false
unfolding redact_audit_payload redact_value is_sensitive_key normalize_key includes_text
    strip_prefix is_sensitive_string search_at_words then_token
order-unflagged = refl

redact_audit_payload-unflagged_example : (redact_audit_payload order).0 ≡ order
redact_audit_payload-unflagged_example =
    redact_audit_payload-unflagged order order-HasNoProto order-unflagged

-- Keys in two classes, that of "a" before all others.
abbrev in_class_order : Bool → Bool → Bool
in_class_order a b = a || not b

class_trans :
    (a b c : Bool)
    → in_class_order a b ≡ true
    → in_class_order b c ≡ true
    → in_class_order a c ≡ true
class_trans true b c h k = refl
class_trans false true c h k = absurd (ground arith)
class_trans false false c h k = k

class_total : (a b : Bool) → in_class_order a b ≡ false → in_class_order b a ≡ true
class_total true b h = absurd (ground arith)
class_total false true h = refl
class_total false false h = refl

abbrev encoding : Encoding ℕ
encoding = record {
  text_literal = codes;
  number_literal = λ n. some (codes "7");
  not_after = λ k l. in_class_order (k == "a") (l == "a");
  sha256 = λ t. "f00d";
}

abbrev a_first : Json ℕ
a_first = obj (prop "o" (obj (prop "a" (num 7) (prop "b" (str "x") end))) end)

abbrev b_first : Json ℕ
b_first = obj (prop "o" (obj (prop "b" (str "x") (prop "a" (num 7) end))) end)

sha256_hex-Same_example :
    (sha256_hex encoding a_first ≡ ok "f00d") ↔ (sha256_hex encoding b_first ≡ ok "f00d")
sha256_hex-Same_example =
    sha256_hex-Same encoding (λ k l m. class_trans (k == "a") (l == "a") (m == "a"))
      (λ k l. class_total (k == "a") (l == "a")) a_first b_first "f00d"
      (in_obj (same_prop "o" (in_obj (swapped "a" "b" refl)) same_end))
