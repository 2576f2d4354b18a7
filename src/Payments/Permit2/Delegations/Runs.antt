-- ===== src/Payments/Permit2/Delegations/Runs.antt =====
-- Runs of the operations of permit2.ts, in any order, at any times, each ending well or in a failure.
use aops_pmoa.Prelude.{
  ℕ, ◌+◌, ◌≤◌, ◌≡◌, ◌⊎◌, refl, ap, inl, inr, String, Bool, some, List, [], ◌∷◌, ◌++◌, arith,
  nat_beq, if◌then◌else◌, ◌==◌, text_comparable, find?, update_where, Extends-refl, Extends-trans,
  Extends-find?, find?-All, find?-test, Result, ok, err, Failure,
}
use aops_pmoa.Payments.Permit2.Types.{
  DelegationStatus, active, exhausted, revoked, payer_kind_comparable, delegation_status_comparable,
  AgentDelegationRow, World, Network, Io, ◌>>=◌, with_transaction, roll_back,
}
use aops_pmoa.Payments.Permit2.Inputs.{RecordSignedDelegationInput, resolve_payer}
use aops_pmoa.Payments.Permit2.Rows.{DrawDownInput, has_id, set_drawn, set_revoked, locked}
use aops_pmoa.Payments.Permit2.Delegations.{
  record_for_payer, record_signed_delegation, draw_locked, draw_down, revoke_locked,
  revoke_delegation,
}
use aops_pmoa.Payments.Permit2.Effects.{then-eq-ok}
use aops_pmoa.Payments.Permit2.Delegations.Bounds.{
  with_transaction-eq-ok, locked-eq-ok, draw_down-eq-ok,
}
use aops_pmoa.Payments.Permit2.Delegations.Recorded.{record_signed_delegation-eq-ok}
use aops_pmoa.Payments.Permit2.Delegations.Terms.{
  Keeps, Keeps-refl, Keeps-trans, IsWithin, IsSound, Preserves, update_where-Preserves,
  append-Preserves,
}

-- A transaction that fails leaves the tables as they were.
failed-Preserves :
    {A : Type 0} (body : Io A) (w w' : World) (e : Failure)
    → with_transaction body w ≡ (err e, w')
    → w'.db ≡ w.db
failed-Preserves {A} body w w' e h = parts (body w) h
  where
    parts : (r : Result A × World) → roll_back w.db r ≡ (err e, w') → w'.db ≡ w.db
    parts (ok a, u) k = cc
    parts (err f, u) k = ground arith

same-Preserves : (ds es : List AgentDelegationRow) → IsSound ds → es ≡ ds → Preserves ds es
same-Preserves ds es h e = rw e (h, Extends-refl Keeps Keeps-refl ds)

draw-Keeps :
    (d : AgentDelegationRow) (amount : ℕ) (s : DelegationStatus)
    → d.status ≡ active
    → (s ≡ active) ⊎ (s ≡ exhausted)
    → Keeps d (set_drawn (d.drawn_usdc + amount) s d)
draw-Keeps d amount s at h = record {
  id = refl;
  payer_address = refl;
  payee_address = refl;
  token_address = refl;
  ceiling_usdc = refl;
  expires_at = refl;
  status = rw at (ground arith);
  drawn_usdc = rw at (ground arith);
}

revoke-Keeps : (d : AgentDelegationRow) → Keeps d (set_revoked d)
revoke-Keeps d = record {
  id = refl;
  payer_address = refl;
  payee_address = refl;
  token_address = refl;
  ceiling_usdc = refl;
  expires_at = refl;
  status = ground arith;
  drawn_usdc = ground arith;
}

pub found-id :
    (id : String) (ds : List AgentDelegationRow) (d : AgentDelegationRow)
    → find? (has_id id) ds ≡ some d
    → d.id ≡ id
found-id id ds d e = (text_comparable.same_iff d.id id).0 (find?-test (has_id id) ds e)

module _ (network : Network) where
  record_signed_delegation-Preserves :
      (now : ℕ) (new_id : String) (input : RecordSignedDelegationInput) (w w' : World)
      (r : Result AgentDelegationRow)
      → record_signed_delegation network now new_id input w ≡ (r, w')
      → IsSound w.db.delegations
      → Preserves w.db.delegations w'.db.delegations
  unfolding record_signed_delegation
  record_signed_delegation-Preserves now new_id input w w' (err e) h sound =
      same-Preserves w.db.delegations w'.db.delegations sound (
        ap (λ db. db.delegations)
          (failed-Preserves (resolve_payer input >>= record_for_payer network now new_id input) w w'
            e h))
  record_signed_delegation-Preserves now new_id input w w' (ok row) h sound =
      let (payer, ceiling, nonce, signature, made, parsed, positive, written, fresh, checked) =
        record_signed_delegation-eq-ok network now input new_id w w' row h in
      let named : row.id ≡ new_id = ap (λ r. r.id) made in
      let undrawn : row.drawn_usdc ≡ 0 = ap (λ r. r.drawn_usdc) made in
      let rows : w'.db.delegations ≡ w.db.delegations ++ row ∷ [] =
        ap (λ db. db.delegations) written in
      rw rows (append-Preserves w.db.delegations row sound (rw named fresh) (omega arith))

  draw_down-Preserves :
      (now : ℕ) (new_id : String) (input : DrawDownInput) (w w' : World)
      (r : Result (String × List ℕ))
      → draw_down network now new_id input w ≡ (r, w')
      → IsSound w.db.delegations
      → Preserves w.db.delegations w'.db.delegations
  unfolding draw_down
  draw_down-Preserves now new_id input w w' (err e) h sound =
      same-Preserves w.db.delegations w'.db.delegations sound (
        ap (λ db. db.delegations)
          (failed-Preserves
            (locked input.delegation_id >>= draw_locked network now new_id input.amount_usdc) w w' e
            h))
  draw_down-Preserves now new_id input w w' (ok answer) h sound =
      let (d, found, (amount, parsed, (at, live, positive, within, total, rows, called))) =
        draw_down-eq-ok network now new_id input w w' answer h in
      let next : DelegationStatus =
        if nat_beq (d.drawn_usdc + amount) d.ceiling_usdc then exhausted else active in
      let named : d.id ≡ input.delegation_id =
        found-id input.delegation_id w.db.delegations d found in
      rw rows (
        update_where-Preserves d.id (set_drawn (d.drawn_usdc + amount) next) (λ c. refl)
          w.db.delegations d sound (rw named found) (draw-Keeps d amount next at (ground arith))
          within)

  -- A revocation that succeeds finds the delegation, and marks it unless it is revoked already.
  revoke_locked-eq-ok :
      (d : AgentDelegationRow) (w w' : World) (b : Bool)
      → revoke_locked network d w ≡ (ok b, w')
      → ((d.status ≡ revoked) × (w'.db.delegations ≡ w.db.delegations))
        ⊎ (w'.db.delegations ≡ update_where (has_id d.id) set_revoked w.db.delegations)
  revoke_locked-eq-ok d w w' b e = ground arith

  pub revoke_delegation-eq-ok :
      (id : String) (w w' : World) (b : Bool)
      → revoke_delegation network id w ≡ (ok b, w')
      → (d : AgentDelegationRow) × (find? (has_id id) w.db.delegations ≡ some d)
        × (((d.status ≡ revoked) × (w'.db.delegations ≡ w.db.delegations))
            ⊎ (w'.db.delegations ≡ update_where (has_id d.id) set_revoked w.db.delegations))
  unfolding revoke_delegation
  revoke_delegation-eq-ok id w w' b e =
      let body = with_transaction-eq-ok (locked id >>= revoke_locked network) w e in
      let (d, u, held, rest) = then-eq-ok (locked id) (revoke_locked network) w body in
      let (found, same) = locked-eq-ok id w u d held in
      (d, found, rw same at (revoke_locked-eq-ok d u w' b rest))

  pub revoke_delegation-Preserves :
      (id : String) (w w' : World) (r : Result Bool)
      → revoke_delegation network id w ≡ (r, w')
      → IsSound w.db.delegations
      → Preserves w.db.delegations w'.db.delegations
  unfolding revoke_delegation
  revoke_delegation-Preserves id w w' (err e) h sound =
      same-Preserves w.db.delegations w'.db.delegations sound (
        ap (λ db. db.delegations) (failed-Preserves (locked id >>= revoke_locked network) w w' e h))
  revoke_delegation-Preserves id w w' (ok b) h sound =
      let (d, found, done) = revoke_delegation-eq-ok id w w' b h in
      elim done [
        | inl (already, rows) ↦ same-Preserves w.db.delegations w'.db.delegations sound rows
        | inr rows ↦ rw rows (
            update_where-Preserves d.id set_revoked (λ c. refl) w.db.delegations d sound
              (rw (found-id id w.db.delegations d found) found) (revoke-Keeps d)
              (find?-All IsWithin (has_id id) w.db.delegations sound.1 found))
      ]

  -- One operation, with whatever result.
  pub data Step (w w' : World) : Type 0 where
    records :
        (now : ℕ) (new_id : String) (input : RecordSignedDelegationInput)
        (r : Result AgentDelegationRow)
        → record_signed_delegation network now new_id input w ≡ (r, w')
        → Step w w'
    draws :
        (now : ℕ) (new_id : String) (input : DrawDownInput) (r : Result (String × List ℕ))
        → draw_down network now new_id input w ≡ (r, w')
        → Step w w'
    revokes : (id : String) (r : Result Bool) → revoke_delegation network id w ≡ (r, w') → Step w w'

  pub data Run (w : World) : World → Type 0 where
    start : Run w w
    next : {u v : World} → Run w u → Step u v → Run w v

  Step-Preserves :
      (w w' : World)
      → Step w w'
      → IsSound w.db.delegations
      → Preserves w.db.delegations w'.db.delegations
  Step-Preserves w w' (records now i input r e) =
      record_signed_delegation-Preserves now i input w w' r e
  Step-Preserves w w' (draws now i input r e) = draw_down-Preserves now i input w w' r e
  Step-Preserves w w' (revokes id r e) = revoke_delegation-Preserves id w w' r e

  pub Run-Preserves :
      {w w' : World}
      → Run w w'
      → IsSound w.db.delegations
      → Preserves w.db.delegations w'.db.delegations
  Run-Preserves {w} start sound = same-Preserves w.db.delegations w.db.delegations sound refl
  Run-Preserves {w} (next {u} {v} run step) sound =
      let (middle, before) = Run-Preserves run sound in
      let (final, after) = Step-Preserves u v step middle in
      (
        final,
        Extends-trans Keeps Keeps-trans w.db.delegations u.db.delegations v.db.delegations before
            after,
      )

  -- In any run from a table of distinct ids with no delegation drawn above its ceiling, a delegation
  -- is found under its id with the same parties, ceiling and expiry. It is drawn within its ceiling;
  -- it is drawn more only from the status active, to which no other status leads.
  pub Run-delegation :
      (w w' : World) (id : String) (d : AgentDelegationRow)
      → IsSound w.db.delegations
      → Run w w'
      → find? (has_id id) w.db.delegations ≡ some d
      → (d' : AgentDelegationRow) × (find? (has_id id) w'.db.delegations ≡ some d')
        × Keeps d d'
        × (d'.drawn_usdc ≤ d'.ceiling_usdc)
  Run-delegation w w' id d sound run found =
      let (sound', kept) = Run-Preserves run sound in
      let (d', there, keeps) =
        Extends-find? Keeps (has_id id) (λ x y q. ap (λ i. i == id) q.id) w.db.delegations
          w'.db.delegations d kept found in
      (d', there, keeps, find?-All IsWithin (has_id id) w'.db.delegations sound'.1 there)
