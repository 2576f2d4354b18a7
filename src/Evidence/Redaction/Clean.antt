-- ===== src/Evidence/Redaction/Clean.antt =====
-- What is left in a payload after the redaction.
use aops_pmoa.Prelude.{
  ◌≡◌, refl, sym, ap, ◌∙◌, inl, inr, String, Bool, true, false, ◌||◌, arith, if◌then◌else◌, ◌==◌,
  text_comparable, Bool-cases,
}
use aops_pmoa.JsonValue.{Json, null, bool, num, str, arr, obj, Elems, nil, cons, Props, end, prop}
use aops_pmoa.Evidence.Redaction.{
  redacted_text, is_sensitive_key, is_sensitive_string, strip_prefix, search_at_words, then_token,
  redact_text, assign, redact_value, redact_items, redact_entries, redact_audit_payload,
}

module _ {Float : Type 0} where
  -- No text in the value looks like a secret, what stands under a sensitive key is replaced, and no key
  -- is `__proto__`.
  unfoldable mutual
    pub IsClean : Json Float → Type 0
    IsClean null = Unit
    IsClean (bool b) = Unit
    IsClean (num n) = Unit
    IsClean (str s) = is_sensitive_string s ≡ false
    IsClean (arr items) = AreClean items
    IsClean (obj entries) = HasClean entries

    pub AreClean : Elems Float → Type 0
    AreClean nil = Unit
    AreClean (cons item items) = IsClean item × AreClean items

    pub HasClean : Props Float → Type 0
    HasClean end = Unit
    HasClean (prop key item entries) =
        ((key == "__proto__") ≡ false)
        × (if is_sensitive_key key then item ≡ str redacted_text else IsClean item)
        × HasClean entries

redacted_text-plain : is_sensitive_string redacted_text ≡ false
unfolding is_sensitive_string search_at_words strip_prefix then_token
redacted_text-plain = refl

redact_text-IsClean :
    (Float : Type 0) (s : String) → IsClean {Float = Float} (redact_text {Float = Float} s).0
unfolding IsClean
redact_text-IsClean Float s = elim (Bool-cases (is_sensitive_string s)) [
  | inl secret ↦ rw secret redacted_text-plain
  | inr plain ↦ rw plain plain
]

module _ {Float : Type 0} where
  -- An entry that is assigned is clean, whatever its key.
  assign-HasClean :
      (key : String) (item : Json Float) (entries : Props Float)
      → (if is_sensitive_key key then item ≡ str redacted_text else IsClean item)
      → HasClean entries
      → HasClean (assign key item entries)
  unfolding HasClean
  assign-HasClean key item entries h k = elim (Bool-cases (key == "__proto__")) [
    | inl hidden ↦ rw hidden k
    | inr shown ↦ rw shown (shown, h, k)
  ]

  mutual
    unfolding redact_value IsClean

    redact_value-IsClean : (v : Json Float) → IsClean (redact_value v).0
    redact_value-IsClean null = tt
    redact_value-IsClean (bool b) = tt
    redact_value-IsClean (num n) = tt
    redact_value-IsClean (str s) = redact_text-IsClean Float s
    redact_value-IsClean (arr items) = redact_items-AreClean items
    redact_value-IsClean (obj entries) = redact_entries-HasClean entries

    redact_items-AreClean : (items : Elems Float) → AreClean (redact_items items).0
    redact_items-AreClean nil = tt
    redact_items-AreClean (cons item items) =
        (redact_value-IsClean item, redact_items-AreClean items)

    redact_entries-HasClean : (entries : Props Float) → HasClean (redact_entries entries).0
    redact_entries-HasClean end = tt
    redact_entries-HasClean (prop key item entries) = elim (Bool-cases (is_sensitive_key key)) [
      | inl secret ↦ rw secret (
          assign-HasClean key (str redacted_text) (redact_entries entries).0 (rw secret refl)
            (redact_entries-HasClean entries))
      | inr plain ↦ rw plain (
          assign-HasClean key (redact_value item).0 (redact_entries entries).0
            (rw plain (redact_value-IsClean item)) (redact_entries-HasClean entries))
    ]

  mutual
    unfolding redact_value IsClean

    clean-kept : (v : Json Float) → IsClean v → (redact_value v).0 ≡ v
    clean-kept null h = refl
    clean-kept (bool b) h = refl
    clean-kept (num n) h = refl
    clean-kept (str s) h = rw h refl
    clean-kept (arr items) h = ap arr (clean_items-kept items h)
    clean-kept (obj entries) h = ap obj (clean_entries-kept entries h)

    clean_items-kept : (items : Elems Float) → AreClean items → (redact_items items).0 ≡ items
    clean_items-kept nil h = refl
    clean_items-kept (cons item items) (h, k) =
        ap (λ v. cons v (redact_items items).0) (clean-kept item h)
        ∙ ap (cons item) (clean_items-kept items k)

    clean_entries-kept :
        (entries : Props Float) → HasClean entries → (redact_entries entries).0 ≡ entries
    clean_entries-kept end h = refl
    clean_entries-kept (prop key item entries) (shown, h, k) =
        elim (Bool-cases (is_sensitive_key key)) [
          | inl secret ↦
              let replaced : item ≡ str redacted_text = rw secret at h in
              rw (secret, shown)
                (ap (λ v. prop key v (redact_entries entries).0) (sym replaced)
                  ∙ ap (prop key item) (clean_entries-kept entries k))
          | inr plain ↦
              let clean : IsClean item = rw plain at h in
              rw (plain, shown)
                (ap (λ v. prop key v (redact_entries entries).0) (clean-kept item clean)
                  ∙ ap (prop key item) (clean_entries-kept entries k))
        ]

  -- After the redaction no text of the payload looks like a secret, and under every sensitive key stands
  -- the replacement.
  pub redact_audit_payload-IsClean :
      (payload : Json Float) → IsClean (redact_audit_payload payload).0
  unfolding redact_audit_payload
  redact_audit_payload-IsClean payload = redact_value-IsClean payload

  -- Redacting a redacted payload again changes nothing.
  pub redact_audit_payload-again :
      (payload : Json Float)
      → (redact_audit_payload (redact_audit_payload payload).0).0 ≡ (redact_audit_payload payload).0
  unfolding redact_audit_payload
  redact_audit_payload-again payload =
      clean-kept (redact_value payload).0 (redact_value-IsClean payload)

  -- No object in the value has an entry under the key `__proto__`.
  unfoldable mutual
    pub HasNoProto : Json Float → Type 0
    HasNoProto null = Unit
    HasNoProto (bool b) = Unit
    HasNoProto (num n) = Unit
    HasNoProto (str s) = Unit
    HasNoProto (arr items) = HaveNoProto items
    HasNoProto (obj entries) = EntriesHaveNoProto entries

    pub HaveNoProto : Elems Float → Type 0
    HaveNoProto nil = Unit
    HaveNoProto (cons item items) = HasNoProto item × HaveNoProto items

    pub EntriesHaveNoProto : Props Float → Type 0
    EntriesHaveNoProto end = Unit
    EntriesHaveNoProto (prop key item entries) =
        ((key == "__proto__") ≡ false) × HasNoProto item × EntriesHaveNoProto entries

or_split : (a b : Bool) → (a || b) ≡ false → (a ≡ false) × (b ≡ false)
or_split a b h = ground arith

module _ {Float : Type 0} where
  redact_text-unflagged :
      (s : String)
      → (redact_text {Float = Float} s).1 ≡ false
      → (redact_text {Float = Float} s).0 ≡ str s
  redact_text-unflagged s h = ground arith

  mutual
    unfolding redact_value HasNoProto

    redact_value-unflagged :
        (v : Json Float) → HasNoProto v → (redact_value v).1 ≡ false → (redact_value v).0 ≡ v
    redact_value-unflagged null p h = refl
    redact_value-unflagged (bool b) p h = refl
    redact_value-unflagged (num n) p h = refl
    redact_value-unflagged (str s) p h = redact_text-unflagged s h
    redact_value-unflagged (arr items) p h = ap arr (redact_items-unflagged items p h)
    redact_value-unflagged (obj entries) p h = ap obj (redact_entries-unflagged entries p h)

    redact_items-unflagged :
        (items : Elems Float)
        → HaveNoProto items
        → (redact_items items).1 ≡ false
        → (redact_items items).0 ≡ items
    redact_items-unflagged nil p h = refl
    redact_items-unflagged (cons item items) (p, q) h =
        let (here, later) = or_split (redact_value item).1 (redact_items items).1 h in
        ap (λ v. cons v (redact_items items).0) (redact_value-unflagged item p here)
        ∙ ap (cons item) (redact_items-unflagged items q later)

    redact_entries-unflagged :
        (entries : Props Float)
        → EntriesHaveNoProto entries
        → (redact_entries entries).1 ≡ false
        → (redact_entries entries).0 ≡ entries
    redact_entries-unflagged end p h = refl
    redact_entries-unflagged (prop key item entries) (shown, p, q) h =
        elim (Bool-cases (is_sensitive_key key)) [
          | inl secret ↦ let clash : true ≡ false = rw secret at h in cc
          | inr plain ↦
              let flags : ((redact_value item).1 || (redact_entries entries).1) ≡ false =
                rw plain at h in
              let (here, later) = or_split (redact_value item).1 (redact_entries entries).1 flags in
              rw (plain, shown)
                (ap (λ v. prop key v (redact_entries entries).0)
                    (redact_value-unflagged item p here)
                  ∙ ap (prop key item) (redact_entries-unflagged entries q later))
        ]

  -- A payload that is not flagged as redacted is unchanged, where no object in it has the key `__proto__`.
  pub redact_audit_payload-unflagged :
      (payload : Json Float)
      → HasNoProto payload
      → (redact_audit_payload payload).1 ≡ false
      → (redact_audit_payload payload).0 ≡ payload
  unfolding redact_audit_payload
  redact_audit_payload-unflagged payload p h = redact_value-unflagged payload p h
