-- ===== src/Evidence/Redaction.antt =====
-- apps/api/src/engines/evidence/redaction.ts: secrets are replaced in the payload of an audit event.
-- Regular expressions are written out as searches over the characters; a Date is kept like a number,
-- and stands among the numbers here.
pub mod Clean
use aops_pmoa.Prelude.{
  ℕ, ◌+◌, String, Bool, true, false, not, ◌&&◌, ◌||◌, Option, none, some, List, [], ◌∷◌, ◌++◌, leb,
  nat_beq, if◌then◌else◌, ◌==◌, text_comparable, holds, any, collect, filter, codes, is_space, map,
}
use aops_pmoa.JsonValue.{Json, null, bool, num, str, arr, obj, Elems, nil, cons, Props, end, prop}

abbrev pub redacted_text : String
redacted_text = "[REDACTED]"

abbrev pub sensitive_key_fragments : List String
sensitive_key_fragments =
    "apikey" ∷ "authorization" ∷ "bearer" ∷ "circleapikey" ∷ "cookie" ∷ "credential" ∷ "password"
    ∷ "privatekey" ∷ "providerkey" ∷ "secret" ∷ "session" ∷ "signature" ∷ "token" ∷ "xpayment" ∷ []

abbrev pub in_range : ℕ → ℕ → ℕ → Bool
in_range low high c = leb low c && leb c high

-- The ASCII letters in small, as the flag `i` compares them.
abbrev pub fold_case : ℕ → ℕ
fold_case c = if in_range 65 90 c then c + 32 else c

-- `toLowerCase`, where it can give an ASCII letter: the Kelvin sign and the dotted capital I too.
abbrev pub lower_codes : ℕ → List ℕ
lower_codes c =
    if nat_beq c 8490 then 107 ∷ [] else if nat_beq c 304 then 105 ∷ 775 ∷ [] else fold_case c ∷ []

-- [a-z0-9]
abbrev pub is_alphanumeric : ℕ → Bool
is_alphanumeric c = in_range 97 122 c || in_range 48 57 c

unfoldable pub normalize_key : String → List ℕ
normalize_key key = filter is_alphanumeric (collect lower_codes (codes key))

-- What is left behind a prefix.
unfoldable pub strip_prefix : List ℕ → List ℕ → Option (List ℕ)
strip_prefix [] cs = some cs
strip_prefix (p ∷ ps) [] = none
strip_prefix (p ∷ ps) (c ∷ cs) = if nat_beq p c then strip_prefix ps cs else none

abbrev pub starts_with : String → List ℕ → Bool
starts_with prefix cs = holds (λ rest. true) (strip_prefix (codes prefix) cs)

-- `text.includes(fragment)`
unfoldable pub includes_text : String → List ℕ → Bool
includes_text fragment [] = starts_with fragment []
includes_text fragment (c ∷ cs) = starts_with fragment (c ∷ cs) || includes_text fragment cs

unfoldable pub is_sensitive_key : String → Bool
is_sensitive_key key =
    any (λ fragment. includes_text fragment (normalize_key key)) sensitive_key_fragments

-- \w, after the case is folded
abbrev pub is_word : ℕ → Bool
is_word c = is_alphanumeric c || nat_beq c 95

-- A search for a pattern that begins with \b and a word character: it may begin after no word
-- character.
unfoldable pub search_at_words : (List ℕ → Bool) → (after_word : Bool) → List ℕ → Bool
search_at_words matches after_word [] = false
search_at_words matches after_word (c ∷ cs) =
    not after_word && matches (c ∷ cs) || search_at_words matches (is_word c) cs

-- \s*[a-z0-9._~+/=-]
unfoldable pub then_token : List ℕ → Bool
then_token [] = false
then_token (c ∷ cs) =
    is_alphanumeric c || any (nat_beq c) (codes "._~+/=-") || is_space c && then_token cs

abbrev pub after_space : List ℕ → Bool
after_space [] = false
after_space (c ∷ cs) = is_space c && then_token cs

abbrev pub starts_word : List ℕ → Bool
starts_word [] = false
starts_word (c ∷ cs) = is_word c

-- The four patterns, at one place of the text.
abbrev pub matches_bearer : List ℕ → Bool
matches_bearer cs = holds after_space (strip_prefix (codes "bearer") cs)

abbrev pub matches_key : List ℕ → Bool
matches_key cs =
    any (λ prefix. holds starts_word (strip_prefix (codes prefix) cs))
      ("sk_live_" ∷ "sk_test_" ∷ "sk_prod_" ∷ "sk_dev_" ∷ [])

abbrev pub matches_any : List ℕ → Bool
matches_any cs =
    matches_bearer cs
    || matches_key cs
    || starts_with "agentops_session=" cs
    || starts_with "x402" cs

unfoldable pub is_sensitive_string : String → Bool
is_sensitive_string value = search_at_words matches_any false (map fold_case (codes value))

module _ {Float : Type 0} where
  abbrev pub redacted_value : Json Float × Bool
  redacted_value = (str redacted_text, true)

  abbrev pub redact_text : String → Json Float × Bool
  redact_text s = if is_sensitive_string s then redacted_value else (str s, false)

  -- Assigning to the key `__proto__` sets the prototype and no entry.
  abbrev pub assign : String → Json Float → Props Float → Props Float
  assign key value rest = if key == "__proto__" then rest else prop key value rest

unfoldable mutual
  -- The value, and whether anything was replaced.
  pub redact_value : {Float : Type 0} → Json Float → Json Float × Bool
  redact_value null = (null, false)
  redact_value (bool b) = (bool b, false)
  redact_value (num n) = (num n, false)
  redact_value (str s) = redact_text s
  redact_value (arr items) = let (next, redacted) = redact_items items in (arr next, redacted)
  redact_value (obj entries) = let (next, redacted) = redact_entries entries in (obj next, redacted)

  pub redact_items : {Float : Type 0} → Elems Float → Elems Float × Bool
  redact_items nil = (nil, false)
  redact_items (cons item items) =
      let (value, first) = redact_value item in
      let (next, rest) = redact_items items in (cons value next, first || rest)

  pub redact_entries : {Float : Type 0} → Props Float → Props Float × Bool
  redact_entries end = (end, false)
  redact_entries (prop key item entries) =
      let (plain, changed) = redact_value item in
      let (next, rest) = redact_entries entries in
      if is_sensitive_key key
      then (assign key (str redacted_text) next, true)
      else (assign key plain next, changed || rest)

unfoldable pub redact_audit_payload : {Float : Type 0} → Json Float → Json Float × Bool
redact_audit_payload value = redact_value value
