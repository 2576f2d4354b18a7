-- ===== src/Payments/Permit2/Delegations/Bounds.antt =====
-- What a drawdown does that succeeds.
use aops_pmoa.Prelude.{
  ℕ, ◌+◌, ◌≤◌, ◌<◌, ◌≡◌, sym, ap, ◌∙◌, String, some, List, [], ◌∷◌, ◌++◌, arith, leb, nat_beq,
  if◌then◌else◌, ◌==◌, text_comparable, find?, update_where, Result, ok, err,
}
use aops_pmoa.Payments.Money.{parse_usdc_micros, format_usdc}
use aops_pmoa.Payments.Permit2.Types.{
  active, exhausted, delegation_status_comparable, AgentDelegationRow, transfer_from, Call, execute,
  World, Network, Io, ◌>>=◌, with_transaction, roll_back,
}
use aops_pmoa.Payments.Permit2.Gas.{ensure_submitter_gas_floor}
use aops_pmoa.Payments.Permit2.Effects.{then-eq-ok, Keeps-eq, ensure_submitter_gas_floor-Keeps}
use aops_pmoa.Payments.Permit2.Delegations.{check_draw, transfer_drawn, draw_locked, draw_down}
use aops_pmoa.Payments.Permit2.Rows.{DrawDownInput, has_id, set_drawn, insert_drawdown, locked}

-- A transaction that succeeds: so did its body.
pub with_transaction-eq-ok :
    {A : Type 0} (body : Io A) (w : World) {a : A} {final : World}
    → with_transaction body w ≡ (ok a, final)
    → body w ≡ (ok a, final)
with_transaction-eq-ok {A} body w {a} {final} h = parts (body w) h
  where
    parts : (r : Result A × World) → roll_back w.db r ≡ (ok a, final) → r ≡ (ok a, final)
    parts (ok b, u) k = k
    parts (err e, u) k = cc

pub locked-eq-ok :
    (id : String) (w w' : World) (d : AgentDelegationRow)
    → locked id w ≡ (ok d, w')
    → (find? (has_id id) w.db.delegations ≡ some d) × (w' ≡ w)
locked-eq-ok id w w' d e = ground arith

module _ (network : Network) (now : ℕ) where
  -- What the tests of a drawdown establish.
  check_draw-eq-ok :
      (d : AgentDelegationRow) (raw : List ℕ) (w w' : World) (amount : ℕ)
      → check_draw network now d raw w ≡ (ok amount, w')
      → (w' ≡ w)
        × (parse_usdc_micros raw ≡ some amount)
        × (d.status ≡ active)
        × (now < d.expires_at)
        × (d.drawn_usdc + amount ≤ d.ceiling_usdc)
  unfolding check_draw
  check_draw-eq-ok d raw w w' amount e = ground arith

  insert_drawdown-eq-ok :
      (new_id id : String) (amount : ℕ) (w w' : World)
      → insert_drawdown new_id id amount w ≡ (ok tt, w')
      → (w'.db.delegations ≡ w.db.delegations) × (0 < amount)
  unfolding insert_drawdown
  insert_drawdown-eq-ok new_id id amount w w' e = ground arith

  abbrev pub transfer_call : AgentDelegationRow → ℕ → Call
  transfer_call d amount =
      execute d.mode d.chain d.payee_address
        (transfer_from d.payer_address d.payee_address amount d.token_address)

  -- A drawdown of an amount from a delegation: it was active and had not expired, the amount is
  -- above zero and within the ceiling, the last call is the transfer of exactly this amount, and the
  -- delegation is drawn by it, exhausted exactly at its ceiling.
  abbrev pub Draws : AgentDelegationRow → ℕ → (w w' : World) → (answer : String × List ℕ) → Type 0
  Draws d amount w w' answer =
      (d.status ≡ active)
      × (now < d.expires_at)
      × (0 < amount)
      × (d.drawn_usdc + amount ≤ d.ceiling_usdc)
      × (answer.1 ≡ format_usdc (d.drawn_usdc + amount))
      × (w'.db.delegations
          ≡ update_where (λ (e : AgentDelegationRow). e.id == d.id)
              (λ (e : AgentDelegationRow). record e {
                drawn_usdc = d.drawn_usdc + amount;
                status =
                    if nat_beq (d.drawn_usdc + amount) d.ceiling_usdc then exhausted else active;
              })
              w.db.delegations)
      × ((before : List Call) × (w'.calls ≡ before ++ transfer_call d amount ∷ []))

  transfer_drawn-eq-ok :
      (new_id : String) (d : AgentDelegationRow) (amount : ℕ) (w w' : World)
      (answer : String × List ℕ)
      → transfer_drawn network now new_id d amount w ≡ (ok answer, w')
      → d.drawn_usdc + amount ≤ d.ceiling_usdc
      → (answer.1 ≡ format_usdc (d.drawn_usdc + amount))
        × (w'.db.delegations
            ≡ update_where
                (has_id d.id)
                (set_drawn
                  (d.drawn_usdc + amount)
                  (if nat_beq (d.drawn_usdc + amount) d.ceiling_usdc then exhausted else active))
                w.db.delegations)
        × (w'.calls ≡ w.calls ++ transfer_call d amount ∷ [])
  unfolding transfer_drawn
  transfer_drawn-eq-ok new_id d amount w w' answer e within =
      let same : leb d.ceiling_usdc (d.drawn_usdc + amount)
          ≡ nat_beq (d.drawn_usdc + amount) d.ceiling_usdc =
        ground arith in
      ground (arith, same)

  draw_locked-eq-ok :
      (new_id : String) (raw : List ℕ) (d : AgentDelegationRow) (w w' : World)
      (answer : String × List ℕ)
      → draw_locked network now new_id raw d w ≡ (ok answer, w')
      → (amount : ℕ) × (parse_usdc_micros raw ≡ some amount) × Draws d amount w w' answer
  unfolding draw_locked
  draw_locked-eq-ok new_id raw d w w' answer e =
      let (amount, u, checked, e1) = then-eq-ok (check_draw network now d raw) _ w e in
      let (same, parsed, status, expiry, within) = check_draw-eq-ok d raw w u amount checked in
      let gas : Io (Unit {0}) =
        ensure_submitter_gas_floor network d.org_id d.payee_address d.chain d.mode in
      let (t, v, funded, e2) = then-eq-ok gas _ u e1 in
      let kept : v.db ≡ u.db =
        Keeps-eq gas
          (ensure_submitter_gas_floor-Keeps network d.org_id d.payee_address d.chain d.mode)
          funded in
      let (s, x, inserted, e3) = then-eq-ok (insert_drawdown new_id d.id amount) _ v e2 in
      let (delegations, positive) = insert_drawdown-eq-ok new_id d.id amount v x inserted in
      let (hash, written, called) = transfer_drawn-eq-ok new_id d amount x w' answer e3 within in
      let rows : x.db.delegations ≡ w.db.delegations =
        delegations ∙ ap (λ db. db.delegations) kept ∙ ap (λ y. y.db.delegations) same in
      (
        amount,
        parsed,
        (status, expiry, positive, within, hash, rw rows at written, (x.calls, called)),
      )

  from_same :
      (u w w' : World) (d : AgentDelegationRow) (amount : ℕ) (answer : String × List ℕ)
      → u ≡ w
      → Draws d amount u w' answer
      → Draws d amount w w' answer
  from_same u w w' d amount answer e h = rw (sym e) h

  -- A drawdown that succeeds finds the delegation, and draws the amount of the input from it.
  pub draw_down-eq-ok :
      (new_id : String) (input : DrawDownInput) (w w' : World) (answer : String × List ℕ)
      → draw_down network now new_id input w ≡ (ok answer, w')
      → (d : AgentDelegationRow) × (find? (has_id input.delegation_id) w.db.delegations ≡ some d)
        × ((amount : ℕ) × (parse_usdc_micros input.amount_usdc ≡ some amount)
            × Draws d amount w w' answer)
  unfolding draw_down
  draw_down-eq-ok new_id input w w' answer e =
      let body =
        with_transaction-eq-ok
          (locked input.delegation_id >>= draw_locked network now new_id input.amount_usdc) w e in
      let (d, u, found, rest) =
        then-eq-ok (locked input.delegation_id) (draw_locked network now new_id input.amount_usdc) w
          body in
      let (there, same) = locked-eq-ok input.delegation_id w u d found in
      let (amount, parsed, draws) = draw_locked-eq-ok new_id input.amount_usdc d u w' answer rest in
      (d, there, (amount, parsed, from_same u w w' d amount answer same draws))
