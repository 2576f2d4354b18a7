-- ===== src/Prelude/Lists.antt =====
-- Arrays of the source as lists: searching, filtering and the predicates over their elements.
use Prim.Native.Nat.{ℕ, suc}
use mathlib.Core.Path.{◌≡◌, refl}
use mathlib.Core.Logic.{◌↔◌, ◌⊎◌, inl, inr}
use mathlib.Core.Bool.{Bool, true, false, not, ◌&&◌, ◌||◌}
use mathlib.Core.Option.{Option, none, some}
use mathlib.Core.List.{List, [], ◌∷◌, ◌++◌}
use native.Mathlib.Omega.{arith}
use aops_pmoa.Prelude.Tests.{if◌then◌else◌, Comparable, ◌==◌}

module _ {ℓ} {A : Type ℓ} where
  abbrev pub length : List A → ℕ
  length [] = 0
  length (x ∷ xs) = suc (length xs)

  -- `Array.prototype.some`, `every`, `filter` and `find`
  abbrev pub any : (A → Bool) → List A → Bool
  any p [] = false
  any p (x ∷ xs) = p x || any p xs

  abbrev pub all : (A → Bool) → List A → Bool
  all p [] = true
  all p (x ∷ xs) = p x && all p xs

  abbrev pub filter : (A → Bool) → List A → List A
  filter p [] = []
  filter p (x ∷ xs) = let rest = filter p xs in if p x then x ∷ rest else rest

  abbrev pub find? : (A → Bool) → List A → Option A
  find? p [] = none
  find? p (x ∷ xs) = if p x then some x else find? p xs

  -- `xs.length === 0`
  abbrev pub is_empty : List A → Bool
  is_empty [] = true
  is_empty (_ ∷ _) = false

  -- `if (test) items.push(item)`, as the items that it adds
  abbrev pub when : Bool → A → List A
  when true a = a ∷ []
  when false a = []

-- The items that the rounds of a loop add.
abbrev pub collect {ℓ κ} : {A : Type ℓ} {B : Type κ} → (A → List B) → List A → List B
collect f [] = []
collect f (x ∷ xs) = f x ++ collect f xs

pub is_empty-append {ℓ} :
    {A : Type ℓ} (xs ys : List A) → is_empty (xs ++ ys) ≡ (is_empty xs && is_empty ys)
is_empty-append [] ys = refl
is_empty-append (x ∷ xs) ys = refl

pub is_empty-when {ℓ} : {A : Type ℓ} (b : Bool) (a : A) → is_empty (when b a) ≡ not b
is_empty-when true a = refl
is_empty-when false a = refl

module _ {ℓ} {A : Type ℓ} ⦃e : Comparable A⦄ where
  -- `xs.includes(a)`
  abbrev pub includes : List A → A → Bool
  includes [] a = false
  includes (x ∷ xs) a = x == a || includes xs a

module _ {ℓ} {A : Type ℓ} (P : A → Type 0) where
  abbrev pub All : List A → Type 0
  All [] = Unit
  All (x ∷ xs) = P x × All xs

  -- Some element satisfies the predicate; which one is part of the evidence.
  abbrev pub Any : List A → Type 0
  Any [] = ⊥
  Any (x ∷ xs) = P x ⊎ Any xs

  pub All-append : (xs ys : List A) → All xs → All ys → All (xs ++ ys)
  All-append [] ys h k = k
  All-append (x ∷ xs) ys (p, h) k = (p, All-append xs ys h k)

  pub All-split : (xs ys : List A) → All (xs ++ ys) → All xs × All ys
  All-split [] ys h = (tt, h)
  All-split (x ∷ xs) ys (p, h) = let (here, later) = All-split xs ys h in ((p, here), later)

  pub Any-append : (xs ys : List A) → Any (xs ++ ys) ↔ (Any xs ⊎ Any ys)
  Any-append [] ys = (λ h. inr h, λ h. elim h [ inl e ↦ absurd e | inr e ↦ e ])
  Any-append (x ∷ xs) ys =
      let (to, from) = Any-append xs ys in
      (
        λ h. elim h [
          | inl p ↦ inl (inl p)
          | inr q ↦ elim (to q) [ inl r ↦ inl (inr r) | inr r ↦ inr r ]
        ],
        λ h. elim h [
          | inl q ↦ elim q [ inl p ↦ inl p | inr r ↦ inr (from (inl r)) ]
          | inr r ↦ inr (from (inr r))
        ],
      )

-- A Boolean search decides the predicate that its test decides.
module _ {ℓ} {A : Type ℓ} (P : A → Type 0) (p : A → Bool)
    (p_iff : (a : A) → (p a ≡ true) ↔ P a) where
  pub any_iff : (xs : List A) → (any p xs ≡ true) ↔ Any P xs
  any_iff [] = (λ e. cc, λ h. absurd h)
  any_iff (x ∷ xs) = ground (arith, p_iff x, any_iff xs)

  pub all_iff : (xs : List A) → (all p xs ≡ true) ↔ All P xs
  all_iff [] = (λ e. tt, λ h. refl)
  all_iff (x ∷ xs) = ground (arith, p_iff x, all_iff xs)

module _ {A : Type 0} ⦃e : Comparable A⦄ where
  pub includes_iff : (xs : List A) (a : A) → (includes xs a ≡ true) ↔ Any (λ x. x ≡ a) xs
  includes_iff [] a = (λ e. cc, λ h. absurd h)
  includes_iff (x ∷ xs) a = ground (arith, e.same_iff x a, includes_iff xs a)

-- A loop adds nothing exactly if every round adds nothing.
pub collect_iff {ℓ κ} :
    {A : Type ℓ} {B : Type κ} (P : A → Type 0) (f : A → List B)
    → ((a : A) → (is_empty (f a) ≡ true) ↔ P a)
    → (xs : List A) → (is_empty (collect f xs) ≡ true) ↔ All P xs
collect_iff P f h [] = (λ e. tt, λ k. refl)
collect_iff P f h (x ∷ xs) =
    ground (arith, h x, collect_iff P f h xs, is_empty-append (f x) (collect f xs))
