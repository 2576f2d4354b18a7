-- ===== src/Payments/Purge/Limits.antt =====
-- What purgeExpiredX402Results of x402-attempt-store.ts leaves behind within its limit.
use aops_pmoa.Prelude.{
  ℕ, zero, suc, min, ◌≤◌, ◌≡◌, refl, sym, ap, ◌∙◌, subst, inl, inr, String, Bool, true, false, not,
  ◌&&◌, ◌||◌, List, [], ◌∷◌, arith, ◌==◌, ==_refl, text_comparable, any, length, filter,
  update_where, Bool-cases, ok,
}
use aops_pmoa.Payments.Types.{X402AttemptRow, PaymentsDb}
use aops_pmoa.Payments.Attempts.{scrub}
use aops_pmoa.Payments.Purge.{
  max_result_purge_batch_limit, expires_before, insert_by_expiry, order_by_expiry, take_rows,
  is_due, expired_rows, is_among, purge_expired_x402_results,
}

any-insert_by_expiry :
    (p : X402AttemptRow → Bool) (r : X402AttemptRow) (rows : List X402AttemptRow)
    → any p (insert_by_expiry r rows) ≡ (p r || any p rows)
unfolding insert_by_expiry
any-insert_by_expiry p r [] = refl
any-insert_by_expiry p r (s ∷ rows) = elim (Bool-cases (expires_before s r)) [
  | inl before ↦ rw (before, any-insert_by_expiry p r rows) (ground arith)
  | inr after ↦ rw after refl
]

any-order_by_expiry :
    (p : X402AttemptRow → Bool) (rows : List X402AttemptRow)
    → any p (order_by_expiry rows) ≡ any p rows
unfolding order_by_expiry
any-order_by_expiry p [] = refl
any-order_by_expiry p (r ∷ rows) =
    any-insert_by_expiry p r (order_by_expiry rows)
    ∙ ap (λ b. p r || b) (any-order_by_expiry p rows)

length-insert_by_expiry :
    (r : X402AttemptRow) (rows : List X402AttemptRow)
    → length (insert_by_expiry r rows) ≡ suc (length rows)
unfolding insert_by_expiry
length-insert_by_expiry r [] = refl
length-insert_by_expiry r (s ∷ rows) = elim (Bool-cases (expires_before s r)) [
  | inl before ↦ rw before (ap suc (length-insert_by_expiry r rows))
  | inr after ↦ rw after refl
]

length-order_by_expiry : (rows : List X402AttemptRow) → length (order_by_expiry rows) ≡ length rows
unfolding order_by_expiry
length-order_by_expiry [] = refl
length-order_by_expiry (r ∷ rows) =
    length-insert_by_expiry r (order_by_expiry rows) ∙ ap suc (length-order_by_expiry rows)

take_rows-all : (n : ℕ) (rows : List X402AttemptRow) → length rows ≤ n → take_rows n rows ≡ rows
unfolding take_rows
take_rows-all zero [] h = refl
take_rows-all zero (r ∷ rows) h = absurd (omega arith)
take_rows-all (suc n) [] h = refl
take_rows-all (suc n) (r ∷ rows) h = ap (λ x. r ∷ x) (take_rows-all n rows (omega arith))

module _ (locked : String → Bool) (now : ℕ) where
  -- A row that is due whose id is not among some rows.
  abbrev is_missed : List X402AttemptRow → X402AttemptRow → Bool
  is_missed found r = is_due locked now r && not (is_among found r)

  missed_more : (a b c : Bool) → (a && not c) ≡ false → (a && not (b || c)) ≡ false
  missed_more a b c h = ground arith

  missed_found : (a b c : Bool) → b ≡ true → (a && not (b || c)) ≡ false
  missed_found a b c h = ground arith

  under : (a b : Bool) → a ≡ false → (a && b) ≡ false
  under a b h = ground arith

  live_of : (a b : Bool) → b ≡ false → (a && not b) ≡ false → a ≡ false
  live_of a b h k = ground arith

  both : (a b : Bool) → a ≡ false → b ≡ false → (a || b) ≡ false
  both a b h k = ground arith

  parts : (a b : Bool) → (a || b) ≡ false → (a ≡ false) × (b ≡ false)
  parts a b h = ground arith

  is_missed-more :
      (e : X402AttemptRow) (found rows : List X402AttemptRow)
      → any (is_missed found) rows ≡ false
      → any (is_missed (e ∷ found)) rows ≡ false
  is_missed-more e found [] h = refl
  is_missed-more e found (r ∷ rows) h =
      let (here, later) = parts (is_missed found r) (any (is_missed found) rows) h in
      both _ _ (missed_more (is_due locked now r) (e.id == r.id) (is_among found r) here)
        (is_missed-more e found rows later)

  is_missed-filter :
      (rows : List X402AttemptRow) → any (is_missed (filter (is_due locked now) rows)) rows ≡ false
  is_missed-filter [] = refl
  is_missed-filter (r ∷ rows) =
      let test : X402AttemptRow → Bool = is_due locked now in
      elim (Bool-cases (is_due locked now r)) [
        | inl over ↦
            let kept : filter test (r ∷ rows) ≡ r ∷ filter test rows = rw over refl in
            subst (λ found. any (is_missed found) (r ∷ rows) ≡ false) (sym kept)
              (both _ _
                (missed_found (is_due locked now r) (r.id == r.id) (is_among (filter test rows) r)
                  (==_refl r.id))
                (is_missed-more r (filter test rows) rows (is_missed-filter rows)))
        | inr live ↦
            let dropped : filter test (r ∷ rows) ≡ filter test rows = rw live refl in
            subst (λ found. any (is_missed found) (r ∷ rows) ≡ false) (sym dropped)
              (both _ _ (under (is_due locked now r) (not (is_among (filter test rows) r)) live)
                (is_missed-filter rows))
      ]

  same_missed :
      (found over : List X402AttemptRow)
      → ((p : X402AttemptRow → Bool) → any p found ≡ any p over)
      → (rows : List X402AttemptRow) → any (is_missed found) rows ≡ any (is_missed over) rows
  same_missed found over same [] = refl
  same_missed found over same (r ∷ rows) =
      ap (λ b. is_due locked now r && not b || any (is_missed found) rows)
        (same (λ (e : X402AttemptRow). e.id == r.id))
      ∙ ap (λ b. is_missed over r || b) (same_missed found over same rows)

  scrubbed-is_expired :
      (found rows : List X402AttemptRow)
      → any (is_missed found) rows ≡ false
      → any (is_due locked now) (update_where (is_among found) (scrub now) rows) ≡ false
  scrubbed-is_expired found [] h = refl
  scrubbed-is_expired found (r ∷ rows) h =
      let (here, later) = parts (is_missed found r) (any (is_missed found) rows) h in
      let rest = scrubbed-is_expired found rows later in
      elim (Bool-cases (is_among found r)) [
        | inl hit ↦ rw hit rest
        | inr miss ↦
            rw miss (both (is_due locked now r) _ (live_of (is_due locked now r) _ miss here) rest)
      ]

  -- Where no more rows have expired than the bounded limit, those aside that another transaction has
  -- locked, a purge that succeeds leaves none expired but locked ones.
  pub purge-is_expired :
      (batch_limit count : ℕ) (db db' : PaymentsDb)
      → length (filter (is_due locked now) db.attempts)
        ≤ min batch_limit max_result_purge_batch_limit
      → purge_expired_x402_results locked now batch_limit db ≡ ok (count, db')
      → any (is_due locked now) db'.attempts ≡ false
  unfolding purge_expired_x402_results expired_rows
  purge-is_expired batch_limit count db db' few e =
      let limit : ℕ = min batch_limit max_result_purge_batch_limit in
      let over = filter (is_due locked now) db.attempts in
      let found = expired_rows locked now limit db.attempts in
      let written : db'.attempts ≡ update_where (is_among found) (scrub now) db.attempts =
        ground arith in
      let all_found : found ≡ order_by_expiry over =
        take_rows-all limit (order_by_expiry over)
          (subst (λ n. n ≤ limit) (sym (length-order_by_expiry over)) few) in
      let missed : any (is_missed (order_by_expiry over)) db.attempts ≡ false =
        same_missed (order_by_expiry over) over (λ p. any-order_by_expiry p over) db.attempts
        ∙ is_missed-filter db.attempts in
      ap (any (is_due locked now)) written
      ∙ scrubbed-is_expired found db.attempts
          (ap (λ rows. any (is_missed rows) db.attempts) all_found ∙ missed)
