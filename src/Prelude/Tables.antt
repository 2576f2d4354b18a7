-- ===== src/Prelude/Tables.antt =====
-- Database tables as lists of rows: the rows that an UPDATE changes, and what stays of the others.
use mathlib.Core.Path.{◌≡◌, refl, subst}
use mathlib.Core.Logic.{inl, inr}
use mathlib.Core.Bool.{Bool, true}
use mathlib.Core.Option.{some}
use mathlib.Core.List.{List, [], ◌∷◌, ◌++◌, map}
use native.Mathlib.Omega.{arith}
use aops_pmoa.Prelude.Tests.{if◌then◌else◌, Bool-cases}
use aops_pmoa.Prelude.Lists.{find?, All}

module _ {ℓ} {R : Type ℓ} where
  -- `UPDATE … SET change WHERE test`
  abbrev pub update_where : (R → Bool) → (R → R) → List R → List R
  update_where test change [] = []
  update_where test change (r ∷ rs) = (if test r then change r else r) ∷ update_where test change rs

  -- A column that the change keeps is kept.
  pub map-update_where {κ} :
      {C : Type κ} (column : R → C) (test : R → Bool) (change : R → R)
      → ((r : R) → test r ≡ true → column (change r) ≡ column r)
      → (rs : List R) → map column (update_where test change rs) ≡ map column rs
  map-update_where column test change keep [] = refl
  map-update_where column test change keep (r ∷ rs) = elim (Bool-cases (test r)) [
    | inl hit ↦ rw (hit, keep r hit, map-update_where column test change keep rs)
    | inr miss ↦ rw (miss, map-update_where column test change keep rs)
  ]

module _ {R : Type 0} where
  pub All-update_where :
      (P : R → Type 0) (test : R → Bool) (change : R → R)
      → ((r : R) → test r ≡ true → P r → P (change r))
      → (rs : List R) → All P rs
      → All P (update_where test change rs)
  All-update_where P test change keep [] h = h
  All-update_where P test change keep (r ∷ rs) (p, h) = elim (Bool-cases (test r)) [
    | inl hit ↦ rw hit (keep r hit p, All-update_where P test change keep rs h)
    | inr miss ↦ rw miss (p, All-update_where P test change keep rs h)
  ]

  -- Each row of the first table stands in the second, at its place, as the relation allows; the
  -- second may have further rows behind.
  abbrev pub Extends : (R → R → Type 0) → List R → List R → Type 0
  Extends Q [] ys = Unit
  Extends Q (x ∷ xs) [] = ⊥
  Extends Q (x ∷ xs) (y ∷ ys) = Q x y × Extends Q xs ys

  module _ (Q : R → R → Type 0) where
    pub Extends-refl : ((r : R) → Q r r) → (rs : List R) → Extends Q rs rs
    Extends-refl same [] = tt
    Extends-refl same (r ∷ rs) = (same r, Extends-refl same rs)

    pub Extends-append : ((r : R) → Q r r) → (rs more : List R) → Extends Q rs (rs ++ more)
    Extends-append same [] more = tt
    Extends-append same (r ∷ rs) more = (same r, Extends-append same rs more)

    pub Extends-trans :
        ((x y z : R) → Q x y → Q y z → Q x z)
        → (xs ys zs : List R) → Extends Q xs ys
        → Extends Q ys zs
        → Extends Q xs zs
    Extends-trans trans [] ys zs h k = tt
    Extends-trans trans (x ∷ xs) [] zs h k = absurd h
    Extends-trans trans (x ∷ xs) (y ∷ ys) [] h k = absurd k
    Extends-trans trans (x ∷ xs) (y ∷ ys) (z ∷ zs) (p, h) (q, k) =
        (trans x y z p q, Extends-trans trans xs ys zs h k)

    pub Extends-update_where :
        ((r : R) → Q r r)
        → (test : R → Bool) (change : R → R) → ((r : R) → test r ≡ true → Q r (change r))
        → (rs : List R) → Extends Q rs (update_where test change rs)
    Extends-update_where same test change step [] = tt
    Extends-update_where same test change step (r ∷ rs) = elim (Bool-cases (test r)) [
      | inl hit ↦ rw hit (step r hit, Extends-update_where same test change step rs)
      | inr miss ↦ rw miss (same r, Extends-update_where same test change step rs)
    ]

  -- A row that is found in the first table is found, as the relation allows, in the second, by a test
  -- that the relation keeps.
  pub Extends-find? :
      (Q : R → R → Type 0) (test : R → Bool)
      → ((x y : R) → Q x y → test y ≡ test x)
      → (xs ys : List R) (r : R) → Extends Q xs ys
      → find? test xs ≡ some r
      → (r' : R) × (find? test ys ≡ some r') × Q r r'
  Extends-find? Q test keep [] ys r h e = absurd (ground arith)
  Extends-find? Q test keep (x ∷ xs) [] r h e = absurd h
  Extends-find? Q test keep (x ∷ xs) (y ∷ ys) r (p, h) e = elim (Bool-cases (test x)) [
    | inl hit ↦
        let same : x ≡ r = ground arith in
        (y, ground (arith, keep x y p), subst (λ z. Q z y) same p)
    | inr miss ↦
        let (r', there, q) = Extends-find? Q test keep xs ys r h (rw miss at e) in
        (r', ground (arith, keep x y p), q)
  ]

  pub find?-All :
      (P : R → Type 0) (test : R → Bool) (rs : List R) {r : R}
      → All P rs
      → find? test rs ≡ some r
      → P r
  find?-All P test [] h e = absurd (ground arith)
  find?-All P test (x ∷ xs) {r} (p, h) e = elim (Bool-cases (test x)) [
    | inl hit ↦ let same : x ≡ r = ground arith in subst P same p
    | inr miss ↦ find?-All P test xs h (rw miss at e)
  ]

  -- A row that is found passes the test.
  pub find?-test : (test : R → Bool) (rs : List R) {r : R} → find? test rs ≡ some r → test r ≡ true
  find?-test test [] e = cc
  find?-test test (x ∷ rs) e = elim (Bool-cases (test x)) [
    | inl hit ↦ ground arith
    | inr miss ↦ find?-test test rs (rw miss at e)
  ]
