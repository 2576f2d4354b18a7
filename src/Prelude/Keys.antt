-- ===== src/Prelude/Keys.antt =====
-- Tables with a primary key: distinct keys, and the row of a key through inserts and updates.
use Prim.Native.String.{String}
use mathlib.Core.Path.{◌≡◌, refl, subst}
use mathlib.Core.Logic.{inl, inr}
use mathlib.Core.Bool.{Bool, true, false}
use mathlib.Core.Option.{some}
use mathlib.Core.List.{List, [], ◌∷◌, ◌++◌}
use native.Mathlib.Omega.{arith}
use aops_pmoa.Prelude.Tests.{if◌then◌else◌, Bool-cases, ◌==◌, text_comparable, ==_refl}
use aops_pmoa.Prelude.Lists.{find?, any, All}
use aops_pmoa.Prelude.Tables.{update_where}

module _ {R : Type 0} where
  pub All-change :
      (P Q : R → Type 0) (test : R → Bool) (change : R → R)
      → ((r : R) → test r ≡ true → P r → Q (change r))
      → ((r : R) → test r ≡ false → P r → Q r)
      → (rs : List R) → All P rs
      → All Q (update_where test change rs)
  All-change P Q test change hit_keeps miss_keeps [] h = tt
  All-change P Q test change hit_keeps miss_keeps (r ∷ rs) (p, h) =
      let rest = All-change P Q test change hit_keeps miss_keeps rs h in
      elim (Bool-cases (test r)) [
        | inl hit ↦ rw hit (hit_keeps r hit p, rest)
        | inr miss ↦ rw miss (miss_keeps r miss p, rest)
      ]

  pub All-map : (P Q : R → Type 0) → ((r : R) → P r → Q r) → (rs : List R) → All P rs → All Q rs
  All-map P Q f [] h = tt
  All-map P Q f (r ∷ rs) (p, h) = (f r p, All-map P Q f rs h)

  pub All-both : (P Q : R → Type 0) (rs : List R) → All P rs → All Q rs → All (λ r. P r × Q r) rs
  All-both P Q [] h k = tt
  All-both P Q (r ∷ rs) (p, h) (q, k) = ((p, q), All-both P Q rs h k)

  pub find?-append :
      (test : R → Bool) (xs ys : List R) {r : R}
      → find? test xs ≡ some r
      → find? test (xs ++ ys) ≡ some r
  find?-append test [] ys e = absurd (ground arith)
  find?-append test (x ∷ xs) ys e = elim (Bool-cases (test x)) [
    | inl hit ↦ ground arith
    | inr miss ↦ rw miss (find?-append test xs ys (rw miss at e))
  ]

  -- Under a change that keeps the test, the row that is found is changed where the update hits it.
  pub find?-update_where :
      (test hits : R → Bool) (change : R → R)
      → ((r : R) → test (change r) ≡ test r)
      → (rs : List R) {r : R} → find? test rs ≡ some r
      → find? test (update_where hits change rs) ≡ some (if hits r then change r else r)
  find?-update_where test hits change keep [] e = absurd (ground arith)
  find?-update_where test hits change keep (x ∷ xs) {r} e = elim (Bool-cases (test x)) [
    | inl hit ↦
        let same : x ≡ r = ground arith in
        subst
          (λ z.
            find? test (update_where hits change (x ∷ xs)) ≡ some (if hits z then change z else z))
          same
          (elim (Bool-cases (hits x)) [
            | inl changed ↦ rw changed (rw (keep x, hit) refl)
            | inr left ↦ rw left (rw hit refl)
          ])
    | inr miss ↦
        let later = find?-update_where test hits change keep xs (rw miss at e) in
        elim (Bool-cases (hits x)) [
          | inl changed ↦ rw changed (rw (keep x, miss) later)
          | inr left ↦ rw left (rw miss later)
        ]
  ]

module _ {R : Type 0} (key : R → String) where
  abbrev pub is_keyed : String → R → Bool
  is_keyed id r = key r == id

  -- The primary key of a table.
  abbrev pub HasDistinct : List R → Type 0
  HasDistinct [] = Unit
  HasDistinct (r ∷ rs) = (any (is_keyed (key r)) rs ≡ false) × HasDistinct rs

  pub find?-fresh :
      (rs : List R) (r : R)
      → any (is_keyed (key r)) rs ≡ false
      → find? (is_keyed (key r)) (rs ++ r ∷ []) ≡ some r
  find?-fresh [] r h = rw (==_refl (key r)) refl
  find?-fresh (x ∷ xs) r h = elim (Bool-cases (is_keyed (key r) x)) [
    | inl taken ↦ absurd (ground arith)
    | inr other ↦ rw other (find?-fresh xs r (rw other at h))
  ]

  any-append_one :
      (id : String) (rs : List R) (r : R)
      → any (is_keyed id) rs ≡ false
      → is_keyed id r ≡ false
      → any (is_keyed id) (rs ++ r ∷ []) ≡ false
  any-append_one id [] r h k = rw k refl
  any-append_one id (x ∷ xs) r h k = ground (arith, any-append_one id xs r)

  pub HasDistinct-append :
      (rs : List R) (r : R)
      → HasDistinct rs
      → any (is_keyed (key r)) rs ≡ false
      → HasDistinct (rs ++ r ∷ [])
  HasDistinct-append [] r h k = (refl, tt)
  HasDistinct-append (x ∷ xs) r (alone, h) k =
      let other : is_keyed (key x) r ≡ false = elim (Bool-cases (key r == key x)) [
        | inl same ↦
            let back : (key x == key r) ≡ true =
              rw ((text_comparable.same_iff (key r) (key x)).0 same) (==_refl (key x)) in
            absurd (ground arith)
        | inr differ ↦ differ
      ] in
      (any-append_one (key x) xs r alone other, HasDistinct-append xs r h (ground arith))

  module _ (hits : R → Bool) (change : R → R) (keep : (r : R) → key (change r) ≡ key r) where
    any-update_where :
        (id : String) (rs : List R)
        → any (is_keyed id) (update_where hits change rs) ≡ any (is_keyed id) rs
    any-update_where id [] = refl
    any-update_where id (x ∷ xs) = elim (Bool-cases (hits x)) [
      | inl hit ↦ rw hit (rw (keep x, any-update_where id xs) refl)
      | inr miss ↦ rw miss (rw (any-update_where id xs) refl)
    ]

    pub HasDistinct-update_where :
        (rs : List R) → HasDistinct rs → HasDistinct (update_where hits change rs)
    HasDistinct-update_where [] h = tt
    HasDistinct-update_where (x ∷ xs) (alone, h) = elim (Bool-cases (hits x)) [
      | inl hit ↦
          rw hit (rw (keep x, any-update_where (key x) xs) alone, HasDistinct-update_where xs h)
      | inr miss ↦ rw miss (rw (any-update_where (key x) xs) alone, HasDistinct-update_where xs h)
    ]

  none-All :
      (P : R → Type 0) (id : String) (rs : List R)
      → any (is_keyed id) rs ≡ false
      → All (λ r. is_keyed id r ≡ true → P r) rs
  none-All P id [] h = tt
  none-All P id (x ∷ xs) h = ground (arith, none-All P id xs)

  -- Where keys are distinct, the row that is found is the only one of its key.
  pub found-only :
      (id : String) (rs : List R) {d : R}
      → HasDistinct rs
      → find? (is_keyed id) rs ≡ some d
      → All (λ r. is_keyed id r ≡ true → r ≡ d) rs
  found-only id [] h e = tt
  found-only id (x ∷ xs) {d} (alone, h) e = elim (Bool-cases (is_keyed id x)) [
    | inl hit ↦
        let same : x ≡ d = ground arith in
        let named : key x ≡ id = (text_comparable.same_iff (key x) id).0 hit in
        (
          λ k. same,
          none-All (λ r. r ≡ d) id xs (subst (λ i. any (is_keyed i) xs ≡ false) named alone),
        )
    | inr miss ↦ (λ k. cc, found-only id xs h (rw miss at e))
  ]
