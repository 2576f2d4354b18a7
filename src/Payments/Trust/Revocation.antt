-- ===== src/Payments/Trust/Revocation.antt =====
-- What a revocation of trust does when it succeeds.
use aops_pmoa.Prelude.{
  ◌≡◌, refl, sym, ap, ◌∙◌, subst, inl, inr, String, Bool, true, false, not, ◌&&◌, ◌||◌, some, List,
  [], ◌∷◌, arith, if◌then◌else◌, ◌==◌, ==_refl, text_comparable, any, find?, filter, Bool-cases,
  Option-cases, update_where, Result, ok, err,
}
use aops_pmoa.Payments.Types.{mode_comparable}
use aops_pmoa.Payments.Permit2.Types.{
  delegation_status_comparable, chain_comparable, AgentDelegationRow, World, Network,
}
use aops_pmoa.Payments.Permit2.Rows.{has_id, set_revoked}
use aops_pmoa.Payments.Permit2.Delegations.{revoke_delegation}
use aops_pmoa.Payments.Permit2.Delegations.Terms.{
  HasDistinctIds, update_where-absent, update_where-HasDistinctIds,
}
use aops_pmoa.Payments.Permit2.Delegations.Runs.{found-id, revoke_delegation-eq-ok}
use aops_pmoa.Payments.Trust.{
  AllowlistRow, TrustWorld, TrustEvidenceInput, is_listed, set_inactive, is_granted, and_all,
  revoke_all, finish_revoke, revoke_trust,
}

-- An update that leaves the one row with the id as it is changes nothing.
update_where-same :
    (id : String) (change : AgentDelegationRow → AgentDelegationRow) (ds : List AgentDelegationRow)
    (d : AgentDelegationRow)
    → HasDistinctIds ds
    → find? (has_id id) ds ≡ some d
    → change d ≡ d
    → update_where (has_id id) change ds ≡ ds
update_where-same id change [] d distinct found same = refl
update_where-same id change (c ∷ ds) d (alone, distinct) found same =
    elim (Bool-cases (c.id == id)) [
      | inl hit ↦
          let first : c ≡ d = ground arith in
          let named : c.id ≡ id = (text_comparable.same_iff c.id id).0 hit in
          let rest : update_where (has_id id) change ds ≡ ds =
            update_where-absent id change ds (subst (λ i. any (has_id i) ds ≡ false) named alone) in
          rw (hit, rest) (ap (λ x. x ∷ ds) (ap change first ∙ same ∙ sym first))
      | inr miss ↦
          rw miss
            (ap (λ x. c ∷ x) (update_where-same id change ds d distinct (rw miss at found) same))
    ]

last-false : (a b c d e : Bool) → ((a && b && c && d && false) && e) ≡ false
last-false a b c d e = ground arith

or-false : (a b : Bool) → (a || b) ≡ false → (a ≡ false) × (b ≡ false)
or-false a b h = ground arith

or-both : {a b : Bool} → a ≡ false → b ≡ false → (a || b) ≡ false
or-both {a} {b} h k = ground arith

more-false : (a b c : Bool) → (a && not c) ≡ false → (a && not (b || c)) ≡ false
more-false a b c h = ground arith

found-false : (a b c : Bool) → b ≡ true → (a && not (b || c)) ≡ false
found-false a b c h = ground arith

under-false : (a b : Bool) → a ≡ false → (a && b) ≡ false
under-false a b h = ground arith

without-false : (a : Bool) → (a && true) ≡ false → a ≡ false
without-false a h = ground arith

module _ (network : Network) where
  finish_revoke-eq-ok :
      (rows : List AllowlistRow) (w w' : TrustWorld) (r : Result (Unit {0}) × World)
      → finish_revoke network rows w r ≡ (ok tt, w')
      → (r ≡ (ok tt, w'.world)) × (w'.allowlist ≡ rows) × (w'.jobs ≡ w.jobs)
  finish_revoke-eq-ok rows w w' (ok t, v) e = (ground arith, ground arith, ground arith)
  finish_revoke-eq-ok rows w w' (err f, v) e = absurd (ground arith)

  -- A revocation that succeeds marks the delegation, also where it was marked before.
  revoked-rows :
      (id : String) (w w' : World) (b : Bool)
      → HasDistinctIds w.db.delegations
      → revoke_delegation network id w ≡ (ok b, w')
      → w'.db.delegations ≡ update_where (has_id id) set_revoked w.db.delegations
  revoked-rows id w w' b distinct e =
      let (d, found, done) = revoke_delegation-eq-ok network id w w' b e in
      elim done [
        | inl (already, rows) ↦
            rows
            ∙ sym (
                update_where-same id set_revoked w.db.delegations d distinct found
                  (ap (λ s. record d { status = s }) (sym already)))
        | inr rows ↦
            subst (λ i. w'.db.delegations ≡ update_where (has_id i) set_revoked w.db.delegations)
              (found-id id w.db.delegations d found) rows
      ]

  module _ (lower : String → String) (input : TrustEvidenceInput) where
    -- A granted row that is not among the rows still to revoke.
    abbrev is_left : List AgentDelegationRow → AgentDelegationRow → Bool
    is_left ds r = is_granted lower input r && not (any (has_id r.id) ds)

    row-revoked :
        (d : AgentDelegationRow) (ds : List AgentDelegationRow) (r : AgentDelegationRow)
        → is_left (d ∷ ds) r ≡ false
        → is_left ds (if has_id d.id r then set_revoked r else r) ≡ false
    row-revoked d ds r h = elim (Bool-cases (r.id == d.id)) [
      | inl hit ↦ rw hit (
          last-false (r.org_id == input.org_id) (r.chain == input.chain) (r.mode == input.mode)
            (lower r.payee_address == lower input.address) (not (any (has_id r.id) ds)))
      | inr miss ↦
          let other : (d.id == r.id) ≡ false =
            ground
              (arith, text_comparable.same_iff r.id d.id, text_comparable.same_iff d.id r.id) in
          rw miss (rw other at h)
    ]

    is_left-revoked :
        (d : AgentDelegationRow) (ds rs : List AgentDelegationRow)
        → any (is_left (d ∷ ds)) rs ≡ false
        → any (is_left ds) (update_where (has_id d.id) set_revoked rs) ≡ false
    is_left-revoked d ds [] h = refl
    is_left-revoked d ds (r ∷ rs) h =
        let (here, later) = or-false (is_left (d ∷ ds) r) (any (is_left (d ∷ ds)) rs) h in
        or-both (row-revoked d ds r here) (is_left-revoked d ds rs later)

    revoke_all-eq-ok :
        (ds : List AgentDelegationRow) (w w' : World)
        → HasDistinctIds w.db.delegations
        → any (is_left ds) w.db.delegations ≡ false
        → revoke_all network ds w ≡ (ok tt, w')
        → any (is_left []) w'.db.delegations ≡ false
    unfolding revoke_all
    revoke_all-eq-ok [] w w' distinct h e = let same : w' ≡ w = ground arith in rw same h
    revoke_all-eq-ok (d ∷ ds) w w' distinct h e =
        parts (λ v. revoke_all-eq-ok ds v w') (revoke_delegation network d.id w) refl e
      where
        parts :
            ((v : World)
              → HasDistinctIds v.db.delegations
              → any (is_left ds) v.db.delegations ≡ false
              → revoke_all network ds v ≡ (ok tt, w')
              → any (is_left []) w'.db.delegations ≡ false)
            → (r : Result Bool × World) → revoke_delegation network d.id w ≡ r
            → and_all network (revoke_all network ds) r ≡ (ok tt, w')
            → any (is_left []) w'.db.delegations ≡ false
        parts again (ok b, v) first rest =
            let rows = revoked-rows d.id w v b distinct first in
            again v
              (subst HasDistinctIds (sym rows) (
                update_where-HasDistinctIds d.id set_revoked (λ c. refl) w.db.delegations distinct))
              (subst (λ rs. any (is_left ds) rs ≡ false) (sym rows)
                (is_left-revoked d ds w.db.delegations h))
              rest
        parts again (err f, v) first rest = absurd (ground arith)

    is_left-more :
        (d : AgentDelegationRow) (ds rs : List AgentDelegationRow)
        → any (is_left ds) rs ≡ false
        → any (is_left (d ∷ ds)) rs ≡ false
    is_left-more d ds [] h = refl
    is_left-more d ds (r ∷ rs) h =
        let (here, later) = or-false (is_left ds r) (any (is_left ds) rs) h in
        or-both (more-false (is_granted lower input r) (d.id == r.id) (any (has_id r.id) ds) here)
          (is_left-more d ds rs later)

    is_left-filter :
        (rs : List AgentDelegationRow)
        → any (is_left (filter (is_granted lower input) rs)) rs ≡ false
    is_left-filter [] = refl
    is_left-filter (r ∷ rs) =
        let test : AgentDelegationRow → Bool = is_granted lower input in
        elim (Bool-cases (is_granted lower input r)) [
          | inl granted ↦
              let kept : filter test (r ∷ rs) ≡ r ∷ filter test rs = rw granted refl in
              subst (λ ds. any (is_left ds) (r ∷ rs) ≡ false) (sym kept)
                (or-both
                  (found-false (is_granted lower input r) (r.id == r.id)
                    (any (has_id r.id) (filter test rs)) (==_refl r.id))
                  (is_left-more r (filter test rs) rs (is_left-filter rs)))
          | inr other ↦
              let dropped : filter test (r ∷ rs) ≡ filter test rs = rw other refl in
              subst (λ ds. any (is_left ds) (r ∷ rs) ≡ false) (sym dropped)
                (or-both
                  (under-false (is_granted lower input r) (not (any (has_id r.id) (filter test rs)))
                    other)
                  (is_left-filter rs))
        ]

    is_left-none :
        (rs : List AgentDelegationRow)
        → any (is_left []) rs ≡ false
        → any (is_granted lower input) rs ≡ false
    is_left-none [] h = refl
    is_left-none (r ∷ rs) h =
        let (here, later) = or-false (is_left [] r) (any (is_left []) rs) h in
        or-both (without-false (is_granted lower input r) here) (is_left-none rs later)

    -- Where delegation ids are distinct, a revocation of trust that succeeds found an active entry of the address and marks it; afterwards
    -- no active delegation to the address is left in the mode, and the history of jobs is as it was.
    pub revoke_trust-eq-ok :
        (w w' : TrustWorld)
        → HasDistinctIds w.world.db.delegations
        → revoke_trust network lower input w ≡ (ok tt, w')
        → (any (is_granted lower input) w'.world.db.delegations ≡ false)
          × (w'.jobs ≡ w.jobs)
          × ((a : AllowlistRow) × (find?
                  (is_listed lower input.org_id input.chain input.address)
                  w.allowlist
                ≡ some a)
              × (a.is_active ≡ true)
              × (w'.allowlist
                  ≡ update_where (λ (b : AllowlistRow). b.id == a.id) set_inactive w.allowlist))
    unfolding revoke_trust
    revoke_trust-eq-ok w w' distinct e =
        elim (Option-cases
          (find? (is_listed lower input.org_id input.chain input.address) w.allowlist)) [
            | inl missing ↦ absurd (ground arith)
            | inr (a, found) ↦
                let is_on : a.is_active ≡ true = ground arith in
                let rows =
                  update_where (λ (b : AllowlistRow). b.id == a.id) set_inactive w.allowlist in
                let (done, listed, jobs) =
                  finish_revoke-eq-ok rows w w'
                    (revoke_all network (filter (is_granted lower input) w.world.db.delegations)
                      w.world)
                    (ground arith) in
                (
                  is_left-none w'.world.db.delegations (
                      revoke_all-eq-ok (filter (is_granted lower input) w.world.db.delegations)
                        w.world w'.world distinct (is_left-filter w.world.db.delegations) done),
                  jobs,
                  (a, found, is_on, listed),
                )
          ]
