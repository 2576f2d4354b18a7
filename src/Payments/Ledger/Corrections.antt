-- ===== src/Payments/Ledger/Corrections.antt =====
-- What a correction does to the spending that is derived from the ledger.
use aops_pmoa.Prelude.{
  ℕ, ◌≤◌, ◌≡◌, refl, sym, ap, ◌∙◌, inl, inr, String, Bool, true, ◌&&◌, ◌||◌, Option, some, List, [],
  ◌∷◌, ◌++◌, arith, ◌==◌, ==_refl, text_comparable, holds, any, find?, Bool-cases, ok,
}
use aops_pmoa.Prelude.Int.{ℤ, magnitude, ◌+ℤ◌, -ℤ◌, int_laws}
use aops_pmoa.Payments.Types.{
  PaymentMode, settle, correction, entry_type_comparable, mode_comparable, LedgerPostingRow,
  PaymentsDb,
}
use aops_pmoa.Payments.Ledger.{
  insert_posting, correction_of, or_system, correct_posting, counts_as_spent, in_account, sum_where,
  derive_spent_usdc, spent_total,
}

any-append_one :
    (p : LedgerPostingRow → Bool) (qs : List LedgerPostingRow) (q : LedgerPostingRow)
    → any p (qs ++ q ∷ []) ≡ (any p qs || p q)
any-append_one p [] q = ground arith
any-append_one p (r ∷ qs) q = ground (arith, any-append_one p qs q)

any-found :
    (test p : LedgerPostingRow → Bool) (qs : List LedgerPostingRow) (q : LedgerPostingRow)
    → find? test qs ≡ some q
    → p q ≡ true
    → any p qs ≡ true
any-found test p [] q h k = absurd (ground arith)
any-found test p (r ∷ qs) q h k = elim (Bool-cases (test r)) [
  | inl hit ↦ let same : r ≡ q = ground arith in rw same (rw k refl)
  | inr miss ↦ ground (arith, any-found test p qs q (rw miss at h) k)
]

-- A posting that does not settle changes no other posting's share in the spending.
counts_as_spent-append :
    (qs : List LedgerPostingRow) (c p : LedgerPostingRow)
    → c.entry_type ≡ correction
    → counts_as_spent (qs ++ c ∷ []) p ≡ counts_as_spent qs p
unfolding counts_as_spent
counts_as_spent-append qs c p h = ground (
  arith,
  any-append_one
      (λ (q : LedgerPostingRow).
        holds (λ i. q.id == i) p.corrects_posting_id && q.entry_type == settle)
      qs c,
)

assoc_neg : (s a b : ℤ) → b ≡ -ℤ◌ a → s +ℤ b +ℤ a ≡ s
assoc_neg s a b h = grind (int_laws, h)

module _ (test : LedgerPostingRow → Bool) where
  sum_where-append :
      (qs : List LedgerPostingRow) (c : LedgerPostingRow)
      → test c ≡ true
      → sum_where test (qs ++ c ∷ []) ≡ sum_where test qs +ℤ c.amount_usdc
  sum_where-append [] c h = rw h (grind int_laws)
  sum_where-append (q ∷ qs) c h = elim (Bool-cases (test q)) [
    | inl hit ↦ let rest = sum_where-append qs c h in rw (hit, rest) (grind int_laws)
    | inr miss ↦ rw miss (sum_where-append qs c h)
  ]

  sum_where-same :
      (other : LedgerPostingRow → Bool)
      → ((p : LedgerPostingRow) → other p ≡ test p)
      → (qs : List LedgerPostingRow) → sum_where other qs ≡ sum_where test qs
  sum_where-same other h [] = refl
  sum_where-same other h (q ∷ qs) = rw (h q, sum_where-same other h qs) refl

module _ (org_id agent_id : String) (mode : PaymentMode) where
  abbrev is_spent : List LedgerPostingRow → LedgerPostingRow → Bool
  is_spent postings p = in_account org_id agent_id mode p && counts_as_spent postings p

  sum_where-correction :
      (qs : List LedgerPostingRow) (c : LedgerPostingRow)
      → c.entry_type ≡ correction
      → is_spent (qs ++ c ∷ []) c ≡ true
      → sum_where (is_spent (qs ++ c ∷ [])) (qs ++ c ∷ [])
        ≡ sum_where (is_spent qs) qs +ℤ c.amount_usdc
  sum_where-correction qs c kind counts =
      sum_where-append (is_spent (qs ++ c ∷ [])) qs c counts
      ∙ ap (λ s. s +ℤ c.amount_usdc)
          (sum_where-same (is_spent qs) (is_spent (qs ++ c ∷ []))
            (λ p.
              ap (λ b. in_account org_id agent_id mode p && b) (counts_as_spent-append qs c p kind))
            qs)

  -- A correction of a settlement of the account counts.
  correction-counts :
      (qs : List LedgerPostingRow) (c row : LedgerPostingRow) (posting_id : String)
      → find? (λ (p : LedgerPostingRow). p.id == posting_id) qs ≡ some row
      → row.entry_type ≡ settle
      → in_account org_id agent_id mode row ≡ true
      → c.org_id ≡ row.org_id
      → c.agent_id ≡ row.agent_id
      → c.mode ≡ row.mode
      → c.corrects_posting_id ≡ some row.id
      → is_spent qs c ≡ true
  unfolding counts_as_spent
  correction-counts qs c row posting_id found settles ours o a m target =
      let targeted =
        any-found (λ (p : LedgerPostingRow). p.id == posting_id)
          (λ (q : LedgerPostingRow). q.id == row.id && q.entry_type == settle) qs row found
          (rw (==_refl row.id, settles) refl) in
      rw (o, a, m, ours, target) (ground (arith, targeted))

correct_posting-eq-ok :
    (fixed : ℤ → ℤ) (now : ℕ) (new_id posting_id reason_code : String) (created_by : Option String)
    (db db' : PaymentsDb) (row c : LedgerPostingRow)
    → find? (λ (p : LedgerPostingRow). p.id == posting_id) db.postings ≡ some row
    → correct_posting fixed now new_id posting_id reason_code created_by db ≡ ok (c, db')
    → (c ≡ correction_of fixed now new_id row reason_code (or_system created_by))
      × (db'.postings ≡ db.postings ++ c ∷ [])
unfolding correct_posting insert_posting
correct_posting-eq-ok fixed now new_id posting_id reason_code created_by db db' row c found e =
    ground arith

-- A conversion that keeps the amount of a settlement takes it out of the sum.
correct_posting-spent_total :
    (fixed : ℤ → ℤ) (now : ℕ) (new_id posting_id reason_code : String) (created_by : Option String)
    (db db' : PaymentsDb) (row c : LedgerPostingRow) (org_id agent_id : String) (mode : PaymentMode)
    → find? (λ (p : LedgerPostingRow). p.id == posting_id) db.postings ≡ some row
    → row.entry_type ≡ settle
    → in_account org_id agent_id mode row ≡ true
    → fixed (-ℤ◌ row.amount_usdc) ≡ -ℤ◌ row.amount_usdc
    → correct_posting fixed now new_id posting_id reason_code created_by db ≡ ok (c, db')
    → spent_total org_id agent_id mode db' +ℤ row.amount_usdc ≡ spent_total org_id agent_id mode db
correct_posting-spent_total fixed now new_id posting_id reason_code created_by db db' row c org_id
      agent_id mode found settles ours exact e =
    let (made, written) =
      correct_posting-eq-ok fixed now new_id posting_id reason_code created_by db db' row c found
        e in
    let kind : c.entry_type ≡ correction = ap (λ p. p.entry_type) made in
    let counts =
      correction-counts org_id agent_id mode db.postings c row posting_id found settles ours
        (ap (λ p. p.org_id) made) (ap (λ p. p.agent_id) made) (ap (λ p. p.mode) made)
        (ap (λ p. p.corrects_posting_id) made) in
    let counts_after : is_spent org_id agent_id mode (db.postings ++ c ∷ []) c ≡ true =
      ap (λ b. in_account org_id agent_id mode c && b) (counts_as_spent-append db.postings c c kind)
      ∙ counts in
    let amount : c.amount_usdc ≡ -ℤ◌ row.amount_usdc = ap (λ p. p.amount_usdc) made ∙ exact in
    let total = sum_where-correction org_id agent_id mode db.postings c kind counts_after in
    ap (λ qs. sum_where (is_spent org_id agent_id mode qs) qs +ℤ row.amount_usdc) written
    ∙ ap (λ s. s +ℤ row.amount_usdc) total
    ∙ assoc_neg (sum_where (is_spent org_id agent_id mode db.postings) db.postings) row.amount_usdc
        c.amount_usdc amount

-- The conversion keeps amounts up to a limit, as doubles of decimals do.
abbrev pub IsExact : (fixed : ℤ → ℤ) → (limit : ℕ) → Type 0
IsExact fixed limit = (z : ℤ) → magnitude z ≤ limit → fixed z ≡ z

-- Correcting a settlement of an agent's account takes exactly its amount out of the spending that is
-- derived from the ledger, whoever asks, at any time: where the conversion of the source is exact up to
-- a limit, and neither the amount nor the sum of the account before or after is beyond it.
pub correct_posting-derive_spent :
    (fixed : ℤ → ℤ) (limit now : ℕ) (new_id posting_id reason_code : String)
    (created_by : Option String) (db db' : PaymentsDb) (row c : LedgerPostingRow)
    (org_id agent_id : String) (mode : PaymentMode)
    → IsExact fixed limit
    → find? (λ (p : LedgerPostingRow). p.id == posting_id) db.postings ≡ some row
    → row.entry_type ≡ settle
    → in_account org_id agent_id mode row ≡ true
    → magnitude (-ℤ◌ row.amount_usdc) ≤ limit
    → magnitude (spent_total org_id agent_id mode db) ≤ limit
    → magnitude (spent_total org_id agent_id mode db') ≤ limit
    → correct_posting fixed now new_id posting_id reason_code created_by db ≡ ok (c, db')
    → derive_spent_usdc fixed org_id agent_id mode db' +ℤ row.amount_usdc
      ≡ derive_spent_usdc fixed org_id agent_id mode db
unfolding derive_spent_usdc
correct_posting-derive_spent fixed limit now new_id posting_id reason_code created_by db db' row c
      org_id agent_id mode exact found settles ours small before after e =
    ap (λ s. s +ℤ row.amount_usdc) (exact (spent_total org_id agent_id mode db') after)
    ∙ correct_posting-spent_total fixed now new_id posting_id reason_code created_by db db' row c
        org_id agent_id mode found settles ours (exact (-ℤ◌ row.amount_usdc) small) e
    ∙ sym (exact (spent_total org_id agent_id mode db) before)
