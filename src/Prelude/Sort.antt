-- ===== src/Prelude/Sort.antt =====
-- ORDER BY and `Array.prototype.sort`: a stable sort by a test that two rows are in order.
use mathlib.Core.Path.{◌≡◌, refl, ap, sym, ◌∙◌}
use mathlib.Core.Logic.{inl, inr}
use mathlib.Core.Bool.{Bool, true, false, ◌&&◌}
use mathlib.Core.List.{List, [], ◌∷◌}
use native.Mathlib.Omega.{arith}
use aops_pmoa.Prelude.Tests.{if◌then◌else◌, Bool-cases}

module _ {R : Type 0} (before : R → R → Bool) where
  -- ORDER BY: a row goes before those that it need not follow.
  unfoldable pub insert_by : R → List R → List R
  insert_by r [] = r ∷ []
  insert_by r (x ∷ xs) = let later = insert_by r xs in if before r x then r ∷ x ∷ xs else x ∷ later

  unfoldable pub order_by : List R → List R
  unfolding insert_by
  order_by [] = []
  order_by (r ∷ rs) = insert_by r (order_by rs)

  insert_by-behind :
      (r x : R) (xs : List R) → before r x ≡ false → insert_by r (x ∷ xs) ≡ x ∷ insert_by r xs
  unfolding insert_by
  insert_by-behind r x xs h = rw h refl

  module _ (trans : (a b c : R) → before a b ≡ true → before b c ≡ true → before a c ≡ true)
      (total : (a b : R) → before a b ≡ false → before b a ≡ true) where
    insert_by-first :
        (a b x : R) (xs : List R)
        → before a b ≡ true
        → before b a ≡ false
        → before b x ≡ true
        → insert_by a (insert_by b (x ∷ xs)) ≡ insert_by b (insert_by a (x ∷ xs))
    unfolding insert_by
    insert_by-first a b x xs h k l = rw (l, trans a b x h l, h, k, l) refl

    insert_by-past :
        (a b x : R) (xs : List R)
        → before a x ≡ true
        → before b x ≡ false
        → insert_by a (insert_by b (x ∷ xs)) ≡ insert_by b (insert_by a (x ∷ xs))
    unfolding insert_by
    insert_by-past a b x xs h k = elim (Bool-cases (before b a)) [
      | inl first ↦ absurd (ground (arith, trans b a x first h))
      | inr behind ↦ rw (k, h, behind, k) refl
    ]

    -- Two rows that are not equal in order can be inserted either way round.
    pub insert_by-swap :
        (a b : R)
        → before a b && before b a ≡ false
        → (xs : List R) → insert_by a (insert_by b xs) ≡ insert_by b (insert_by a xs)
    unfolding insert_by
    insert_by-swap a b apart [] = elim (Bool-cases (before a b)) [
      | inl h ↦ let k : before b a ≡ false = rw h at apart in rw (h, k) refl
      | inr h ↦ rw (h, total a b h) refl
    ]
    insert_by-swap a b apart (x ∷ xs) = elim (Bool-cases (before a x)) [
      | inl ax ↦ elim (Bool-cases (before b x)) [
        | inl bx ↦ elim (Bool-cases (before a b)) [
          | inl h ↦ insert_by-first a b x xs h (rw h at apart) bx
          | inr h ↦ sym (insert_by-first b a x xs (total a b h) h ax)
        ]
        | inr bx ↦ insert_by-past a b x xs ax bx
      ]
      | inr ax ↦ elim (Bool-cases (before b x)) [
        | inl bx ↦ sym (insert_by-past b a x xs bx ax)
        | inr bx ↦
            ap (insert_by a) (insert_by-behind b x xs bx)
            ∙ insert_by-behind a x (insert_by b xs) ax
            ∙ ap (λ ys. x ∷ ys) (insert_by-swap a b apart xs)
            ∙ sym (
                ap (insert_by b) (insert_by-behind a x xs ax)
                ∙ insert_by-behind b x (insert_by a xs) bx)
      ]
    ]
