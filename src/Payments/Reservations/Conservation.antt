-- ===== src/Payments/Reservations/Conservation.antt =====
-- The counters of accounts and the reservations behind them, under releaseOnProof of
-- x402-attempt-store.ts.
use aops_pmoa.Prelude.{
  ℕ, ◌+◌, ◌≡◌, refl, subst, inl, inr, String, Bool, false, ◌&&◌, some, List, [], ◌∷◌, arith, ltb,
  if◌then◌else◌, ◌==◌, ==_refl, text_comparable, any, find?, All, Bool-cases, update_where,
}
use aops_pmoa.Payments.Types.{reserved, reservation_status_comparable, ReservationRow, AccountRow}
use aops_pmoa.Payments.Reservations.{is_reservation, is_account, set_released, lower_reserved}

abbrev pub HasDistinctIds : List ReservationRow → Type 0
HasDistinctIds [] = Unit
HasDistinctIds (r ∷ rs) =
    (any (λ (q : ReservationRow). q.id == r.id) rs ≡ false) × HasDistinctIds rs

-- What an account holds in reserve, by its reservations.
abbrev pub is_held : (org_id agent_id : String) → ReservationRow → Bool
is_held org_id agent_id r = r.org_id == org_id && r.agent_id == agent_id && r.status == reserved

unfoldable pub reserved_sum : (org_id agent_id : String) → List ReservationRow → ℕ
reserved_sum org_id agent_id [] = 0
reserved_sum org_id agent_id (r ∷ rs) =
    let rest = reserved_sum org_id agent_id rs in
    if is_held org_id agent_id r then r.amount_usdc + rest else rest

-- The counter of an account agrees with its reservations.
abbrev pub IsBacked : List ReservationRow → AccountRow → Type 0
IsBacked rs a = a.reserved_usdc ≡ reserved_sum a.org_id a.agent_id rs

abbrev pub share : (org_id agent_id : String) → ReservationRow → ℕ
share org_id agent_id r = if r.org_id == org_id && r.agent_id == agent_id then r.amount_usdc else 0

module _ (now : ℕ) (row : ReservationRow) where
  abbrev release_in : List ReservationRow → List ReservationRow
  release_in = update_where (is_reservation row.id row.org_id) (set_released now)

  release_in-absent :
      (rs : List ReservationRow)
      → any (λ (q : ReservationRow). q.id == row.id) rs ≡ false
      → release_in rs ≡ rs
  release_in-absent [] h = refl
  release_in-absent (r ∷ rs) h = ground (arith, release_in-absent rs)

  reserved_sum-release :
      (org_id agent_id : String) (rs : List ReservationRow)
      → HasDistinctIds rs
      → find? (λ (q : ReservationRow). q.id == row.id) rs ≡ some row
      → row.status ≡ reserved
      → reserved_sum org_id agent_id (release_in rs) + share org_id agent_id row
        ≡ reserved_sum org_id agent_id rs
  unfolding reserved_sum
  reserved_sum-release org_id agent_id [] distinct found held = absurd (ground arith)
  reserved_sum-release org_id agent_id (r ∷ rs) (alone, distinct) found held =
      elim (Bool-cases (r.id == row.id)) [
        | inl hit ↦
            let same : r ≡ row = ground arith in
            let rest : release_in rs ≡ rs =
              release_in-absent rs
                (subst (λ x. any (λ (q : ReservationRow). q.id == x.id) rs ≡ false) same alone) in
            rw (rest, same) (ground (arith, held, ==_refl row.id, ==_refl row.org_id))
        | inr miss ↦
            let rest = reserved_sum-release org_id agent_id rs distinct (rw miss at found) held in
            ground (arith, miss, rest)
      ]

-- Each account that is lowered holds the amount, and is backed again by what the others hold.
lower-IsBacked :
    (now : ℕ) (row : ReservationRow) (rs : List ReservationRow) (a : AccountRow)
    → HasDistinctIds rs
    → find? (λ (q : ReservationRow). q.id == row.id) rs ≡ some row
    → row.status ≡ reserved
    → (is_account row.org_id row.agent_id a && ltb a.reserved_usdc row.amount_usdc) ≡ false
    → IsBacked rs a
    → IsBacked
        (update_where (is_reservation row.id row.org_id) (set_released now) rs)
        (if is_account row.org_id row.agent_id a then lower_reserved now row.amount_usdc a else a)
lower-IsBacked now row rs a distinct found held enough backed =
    let sum = reserved_sum-release now row a.org_id a.agent_id rs distinct found held in
    elim (Bool-cases (is_account row.org_id row.agent_id a)) [
      | inl ours ↦ rw ours (
          ground (
            arith,
            sum,
            text_comparable.same_iff a.org_id row.org_id,
            text_comparable.same_iff row.org_id a.org_id,
            text_comparable.same_iff a.agent_id row.agent_id,
            text_comparable.same_iff row.agent_id a.agent_id,
          ))
      | inr other ↦ rw other (
          ground (
            arith,
            sum,
            text_comparable.same_iff a.org_id row.org_id,
            text_comparable.same_iff row.org_id a.org_id,
            text_comparable.same_iff a.agent_id row.agent_id,
            text_comparable.same_iff row.agent_id a.agent_id,
          ))
    ]

pub lower-All-IsBacked :
    (now : ℕ) (row : ReservationRow) (rs : List ReservationRow) (accounts : List AccountRow)
    → HasDistinctIds rs
    → find? (λ (q : ReservationRow). q.id == row.id) rs ≡ some row
    → row.status ≡ reserved
    → any
        (λ (a : AccountRow).
          is_account row.org_id row.agent_id a && ltb a.reserved_usdc row.amount_usdc)
        accounts
      ≡ false
    → All (IsBacked rs) accounts
    → All (IsBacked (update_where (is_reservation row.id row.org_id) (set_released now) rs)) (
        update_where
          (is_account row.org_id row.agent_id)
          (lower_reserved now row.amount_usdc)
          accounts)
lower-All-IsBacked now row rs [] distinct found held enough backed = tt
lower-All-IsBacked now row rs (a ∷ accounts) distinct found held enough (b, backed) = (
  lower-IsBacked now row rs a distinct found held (ground arith) b,
  lower-All-IsBacked now row rs accounts distinct found held (ground arith) backed,
)
