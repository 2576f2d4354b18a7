-- ===== src/Payments/Permit2/Delegations/Terms.antt =====
-- Delegations under the operations of permit2.ts: what an operation may do to one, and the updates and
-- insertions of their table.
use aops_pmoa.Prelude.{
  ℕ, ◌≤◌, ◌≡◌, ◌≢◌, ◌⊎◌, refl, ◌∙◌, inl, inr, String, false, some, List, [], ◌∷◌, ◌++◌, arith, ◌==◌,
  text_comparable, any, find?, All, All-append, Bool-cases, update_where, Extends, Extends-refl,
  Extends-append,
}
use aops_pmoa.Payments.Permit2.Types.{
  DelegationStatus, pending, active, exhausted, expired, revoked, delegation_status_comparable,
  AgentDelegationRow,
}
use aops_pmoa.Payments.Permit2.Rows.{has_id}

-- Where the status and the drawn amount may go.
abbrev pub May : DelegationStatus → DelegationStatus → Type 0
May pending t = (t ≡ pending) ⊎ (t ≡ revoked)
May active t = (t ≢ pending) × (t ≢ expired)
May exhausted t = (t ≡ exhausted) ⊎ (t ≡ revoked)
May expired t = (t ≡ expired) ⊎ (t ≡ revoked)
May revoked t = t ≡ revoked

abbrev pub MayDraw : DelegationStatus → ℕ → ℕ → Type 0
MayDraw pending m n = n ≡ m
MayDraw active m n = m ≤ n
MayDraw exhausted m n = n ≡ m
MayDraw expired m n = n ≡ m
MayDraw revoked m n = n ≡ m

May-refl : (s : DelegationStatus) → May s s
May-refl pending = inl refl
May-refl active = ground arith
May-refl exhausted = inl refl
May-refl expired = inl refl
May-refl revoked = refl

May-trans : (s t u : DelegationStatus) → May s t → May t u → May s u
May-trans s t u h k = ground arith

MayDraw-refl : (s : DelegationStatus) (m : ℕ) → MayDraw s m m
MayDraw-refl s m = ground arith

MayDraw-trans :
    (s t : DelegationStatus) (l m n : ℕ) → May s t → MayDraw s l m → MayDraw t m n → MayDraw s l n
MayDraw-trans s t l m n h j k = ground arith

-- What an operation may do to a delegation.
pub record Keeps (d d' : AgentDelegationRow) : Type 0 where
  pub id : d'.id ≡ d.id
  pub payer_address : d'.payer_address ≡ d.payer_address
  pub payee_address : d'.payee_address ≡ d.payee_address
  pub token_address : d'.token_address ≡ d.token_address
  pub ceiling_usdc : d'.ceiling_usdc ≡ d.ceiling_usdc
  pub expires_at : d'.expires_at ≡ d.expires_at
  pub status : May d.status d'.status
  pub drawn_usdc : MayDraw d.status d.drawn_usdc d'.drawn_usdc

pub Keeps-refl : (d : AgentDelegationRow) → Keeps d d
Keeps-refl d = record {
  id = refl;
  payer_address = refl;
  payee_address = refl;
  token_address = refl;
  ceiling_usdc = refl;
  expires_at = refl;
  status = May-refl d.status;
  drawn_usdc = MayDraw-refl d.status d.drawn_usdc;
}

pub Keeps-trans : (c d e : AgentDelegationRow) → Keeps c d → Keeps d e → Keeps c e
Keeps-trans c d e h k = record {
  id = k.id ∙ h.id;
  payer_address = k.payer_address ∙ h.payer_address;
  payee_address = k.payee_address ∙ h.payee_address;
  token_address = k.token_address ∙ h.token_address;
  ceiling_usdc = k.ceiling_usdc ∙ h.ceiling_usdc;
  expires_at = k.expires_at ∙ h.expires_at;
  status = May-trans c.status d.status e.status h.status k.status;
  drawn_usdc =
      MayDraw-trans c.status d.status c.drawn_usdc d.drawn_usdc e.drawn_usdc h.status h.drawn_usdc
        k.drawn_usdc;
}

-- The ids of a table are distinct, and no delegation is drawn above its ceiling.
abbrev pub HasDistinctIds : List AgentDelegationRow → Type 0
HasDistinctIds [] = Unit
HasDistinctIds (d ∷ ds) = (any (has_id d.id) ds ≡ false) × HasDistinctIds ds

abbrev pub IsWithin : AgentDelegationRow → Type 0
IsWithin d = d.drawn_usdc ≤ d.ceiling_usdc

abbrev pub IsSound : List AgentDelegationRow → Type 0
IsSound ds = HasDistinctIds ds × All IsWithin ds

-- An operation takes a sound table to a sound one that keeps every delegation.
abbrev pub Preserves : (ds es : List AgentDelegationRow) → Type 0
Preserves ds es = IsSound es × Extends Keeps ds es

pub update_where-absent :
    (id : String) (change : AgentDelegationRow → AgentDelegationRow) (ds : List AgentDelegationRow)
    → any (has_id id) ds ≡ false
    → update_where (has_id id) change ds ≡ ds
update_where-absent id change [] h = refl
update_where-absent id change (d ∷ ds) h = ground (arith, update_where-absent id change ds)

module _ (id : String) (change : AgentDelegationRow → AgentDelegationRow)
    (same_id : (d : AgentDelegationRow) → (change d).id ≡ d.id) where
  any-update_where :
      (other : String) (ds : List AgentDelegationRow)
      → any (has_id other) (update_where (has_id id) change ds) ≡ any (has_id other) ds
  any-update_where other [] = refl
  any-update_where other (d ∷ ds) = ground (arith, same_id d, any-update_where other ds)

  pub update_where-HasDistinctIds :
      (ds : List AgentDelegationRow)
      → HasDistinctIds ds
      → HasDistinctIds (update_where (has_id id) change ds)
  update_where-HasDistinctIds [] h = tt
  update_where-HasDistinctIds (d ∷ ds) (alone, h) =
      (ground (arith, same_id d, any-update_where d.id ds), update_where-HasDistinctIds ds h)

  -- An update of the one delegation that was found.
  update_where-found :
      (ds : List AgentDelegationRow) (d : AgentDelegationRow)
      → HasDistinctIds ds
      → All IsWithin ds
      → find? (has_id id) ds ≡ some d
      → Keeps d (change d)
      → IsWithin (change d)
      → All IsWithin (update_where (has_id id) change ds)
        × Extends Keeps ds (update_where (has_id id) change ds)
  update_where-found [] d distinct within found keeps low = absurd (ground arith)
  update_where-found (c ∷ ds) d (alone, distinct) (w, within) found keeps low =
      elim (Bool-cases (c.id == id)) [
        | inl hit ↦
            let same : c ≡ d = ground arith in
            let named : c.id ≡ id = (text_comparable.same_iff c.id id).0 hit in
            let rest : update_where (has_id id) change ds ≡ ds =
              update_where-absent id change ds (rw named at alone) in
            rw (hit, rest, same) ((low, within), (keeps, Extends-refl Keeps Keeps-refl ds))
        | inr miss ↦
            let (h, k) = update_where-found ds d distinct within (rw miss at found) keeps low in
            rw miss ((w, h), (Keeps-refl c, k))
      ]

  pub update_where-Preserves :
      (ds : List AgentDelegationRow) (d : AgentDelegationRow)
      → IsSound ds
      → find? (has_id id) ds ≡ some d
      → Keeps d (change d)
      → IsWithin (change d)
      → Preserves ds (update_where (has_id id) change ds)
  update_where-Preserves ds d (distinct, within) found keeps low =
      let (h, k) = update_where-found ds d distinct within found keeps low in
      ((update_where-HasDistinctIds ds distinct, h), k)

any-append :
    (id : String) (ds : List AgentDelegationRow) (d : AgentDelegationRow)
    → any (has_id id) ds ≡ false
    → (d.id == id) ≡ false
    → any (has_id id) (ds ++ d ∷ []) ≡ false
any-append id [] d h k = ground arith
any-append id (c ∷ ds) d h k = ground (arith, any-append id ds d)

append-HasDistinctIds :
    (ds : List AgentDelegationRow) (d : AgentDelegationRow)
    → HasDistinctIds ds
    → any (has_id d.id) ds ≡ false
    → HasDistinctIds (ds ++ d ∷ [])
append-HasDistinctIds [] d h fresh = (refl, tt)
append-HasDistinctIds (c ∷ ds) d (alone, h) fresh =
    let other : (d.id == c.id) ≡ false =
      ground (arith, text_comparable.same_iff c.id d.id, text_comparable.same_iff d.id c.id) in
    (any-append c.id ds d alone other, append-HasDistinctIds ds d h (ground arith))

pub append-Preserves :
    (ds : List AgentDelegationRow) (d : AgentDelegationRow)
    → IsSound ds
    → any (has_id d.id) ds ≡ false
    → IsWithin d
    → Preserves ds (ds ++ d ∷ [])
append-Preserves ds d (distinct, within) fresh low = (
  (append-HasDistinctIds ds d distinct fresh, All-append IsWithin ds (d ∷ []) within (low, tt)),
  Extends-append Keeps Keeps-refl ds (d ∷ []),
)
