-- ===== src/Evidence/CanonicalJson.antt =====
-- apps/api/src/engines/evidence/canonical-json.ts: a JSON value as one text, with the keys of each
-- object in order, and its hash. The texts of the language and the hash are parameters; values that
-- are no JSON, and objects that hold themselves, do not occur in the type.
pub mod Order
use aops_pmoa.Prelude.{
  ℕ, String, Bool, true, false, Option, none, some, List, [], ◌∷◌, ◌++◌, map, codes, error, Result,
  ok, err,
}
use aops_pmoa.Prelude.Sort.{order_by}
use aops_pmoa.JsonValue.{Json, null, bool, num, str, arr, obj, Elems, nil, cons, Props, end, prop}

-- JSON.stringify of a text and of a number (absent where it is not finite), the order of keys
-- (`left.localeCompare(right) <= 0`), and SHA-256 of a text in hexadecimal.
pub record Encoding (Float : Type 0) : Type 0 where
  pub text_literal : String → List ℕ
  pub number_literal : Float → Option (List ℕ)
  pub not_after : String → String → Bool
  pub sha256 : List ℕ → String

abbrev pub joined : List (List ℕ) → List ℕ
joined [] = []
joined (t ∷ []) = t
joined (t ∷ u ∷ ts) = t ++ (b',' ∷ joined (u ∷ ts))

abbrev pub both : {A B C : Type 0} → Result A → Result B → (A → B → C) → Result C
both (err e) r f = err e
both (ok a) (err e) f = err e
both (ok a) (ok b) f = ok (f a b)

abbrev pub entry : (String × List ℕ) → List ℕ
entry (key, t) = t

module _ {Float : Type 0} (encoding : Encoding Float) where
  open encoding use {text_literal, number_literal, not_after, sha256}

  abbrev pub entries_text : List (String × List ℕ) → List ℕ
  entries_text entries = b'{' ∷ (joined (map entry entries) ++ b'}' ∷ [])

  abbrev pub key_order : (String × List ℕ) → (String × List ℕ) → Bool
  key_order (k, t) (l, u) = not_after k l

  unfoldable mutual
    unfolding order_by

    pub encode_canonical : Json Float → Result (List ℕ)
    encode_canonical null = ok (codes "null")
    encode_canonical (bool true) = ok (codes "true")
    encode_canonical (bool false) = ok (codes "false")
    encode_canonical (num f) = elim (number_literal f) [
      | none ↦ err (error "unsupported_audit_value")
      | some t ↦ ok t
    ]
    encode_canonical (str s) = ok (text_literal s)
    encode_canonical (arr es) = elim (encode_elems es) [
      | err e ↦ err e
      | ok ts ↦ ok (b'[' ∷ (joined ts ++ b']' ∷ []))
    ]
    encode_canonical (obj ps) = elim (encode_props ps) [
      | err e ↦ err e
      | ok entries ↦ ok (entries_text (order_by key_order entries))
    ]

    pub encode_elems : Elems Float → Result (List (List ℕ))
    encode_elems nil = ok []
    encode_elems (cons v es) = both (encode_canonical v) (encode_elems es) (λ t ts. t ∷ ts)

    pub encode_props : Props Float → Result (List (String × List ℕ))
    encode_props end = ok []
    encode_props (prop k v ps) =
        both (encode_canonical v) (encode_props ps)
          (λ t entries. (k, text_literal k ++ (b':' ∷ t)) ∷ entries)

  -- `sha256Hex` of a value that is no text
  unfoldable pub sha256_hex : Json Float → Result String
  unfolding encode_canonical
  sha256_hex value = elim (encode_canonical value) [ err e ↦ err e | ok body ↦ ok (sha256 body) ]
