-- ===== src/Payments/Permit2/Delegations/Revoked.antt =====
-- Delegations of permit2.ts after their revocation.
use aops_pmoa.Prelude.{
  ℕ, ◌≡◌, refl, subst, inl, inr, String, Bool, some, List, [], ◌∷◌, arith, text_comparable, find?,
  update_where, ok, err, conflict,
}
use aops_pmoa.Payments.Permit2.Types.{
  revoked, payer_kind_comparable, delegation_status_comparable, AgentDelegationRow, World, Network,
}
use aops_pmoa.Payments.Permit2.Rows.{DrawDownInput, has_id, set_revoked}
use aops_pmoa.Payments.Permit2.Delegations.{check_draw, draw_locked, draw_down, revoke_delegation}
use aops_pmoa.Payments.Permit2.Delegations.Terms.{May, IsSound}
use aops_pmoa.Payments.Permit2.Delegations.Runs.{
  found-id, revoke_delegation-eq-ok, revoke_delegation-Preserves, Run, Run-delegation,
}

module _ (network : Network) where
  revoked-found :
      (id : String) (ds : List AgentDelegationRow) (d : AgentDelegationRow)
      → find? (has_id id) ds ≡ some d
      → find? (has_id id) (update_where (has_id d.id) set_revoked ds) ≡ some (set_revoked d)
  revoked-found id [] d e = absurd (ground arith)
  revoked-found id (c ∷ ds) d e =
      ground
        (arith, found-id id (c ∷ ds) d e, text_comparable.same_iff c.id id, revoked-found id ds d)

  -- After a revocation the delegation is found revoked.
  revoke_delegation-found :
      (id : String) (w w' : World) (b : Bool)
      → revoke_delegation network id w ≡ (ok b, w')
      → (d : AgentDelegationRow) × (find? (has_id id) w'.db.delegations ≡ some d)
        × (d.status ≡ revoked)
  revoke_delegation-found id w w' b e =
      let (d, found, done) = revoke_delegation-eq-ok network id w w' b e in
      elim done [
        | inl (already, rows) ↦ (d, rw rows found, already)
        | inr rows ↦ (set_revoked d, rw rows (revoked-found id w.db.delegations d found), refl)
      ]

  draw_down-refused :
      (now : ℕ) (new_id : String) (input : DrawDownInput) (w : World) (d : AgentDelegationRow)
      → find? (has_id input.delegation_id) w.db.delegations ≡ some d
      → d.status ≡ revoked
      → draw_down network now new_id input w ≡ (err (conflict "delegation_revoked"), w)
  unfolding draw_down draw_locked check_draw
  draw_down-refused now new_id input w d found gone = ground arith

  -- From a table of distinct ids with no delegation drawn above its ceiling: after a revocation that
  -- succeeds, and any operations after it, a drawdown on that delegation of any amount at any
  -- time is refused as revoked, and sends and writes nothing.
  pub revoked-draw_down :
      (w w' w'' : World) (b : Bool) (now : ℕ) (new_id : String) (input : DrawDownInput)
      → IsSound w.db.delegations
      → revoke_delegation network input.delegation_id w ≡ (ok b, w')
      → Run network w' w''
      → draw_down network now new_id input w'' ≡ (err (conflict "delegation_revoked"), w'')
  revoked-draw_down w w' w'' b now new_id input sound e run =
      let (d, found, gone) = revoke_delegation-found input.delegation_id w w' b e in
      let (sound', kept) =
        revoke_delegation-Preserves network input.delegation_id w w' (ok b) e sound in
      let (d', there, keeps, within) =
        Run-delegation network w' w'' input.delegation_id d sound' run found in
      let still : d'.status ≡ revoked = subst (λ s. May s d'.status) gone keeps.status in
      draw_down-refused now new_id input w'' d' there still
