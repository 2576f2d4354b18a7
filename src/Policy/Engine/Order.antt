-- ===== src/Policy/Engine/Order.antt =====
-- How the decision of decision-engine.ts depends on the set of policies:
-- on their order, and on further ones.
use mathlib.Core.Logic.{∥∥₁_elim}
use mathlib.Core.HLevel.{hedberg}
use mathlib.Core.List.{Perm, Permᴰ}
use aops_pmoa.Prelude.{◌≡◌, ◌≤◌, sym, subst, inl, inr, Option, List, ◌++◌, All, Any, Any-append}
use aops_pmoa.JsonValue.{Floats}
use aops_pmoa.Policy.Types.{
  PolicyDecisionValue, PolicyDefaultEffect, PolicyDecisionRequest, EffectivePolicy,
}
use aops_pmoa.Policy.Engine.{decision_rank, evaluate_policy_decision}
use aops_pmoa.Policy.Engine.Spec.{SomeMatch, Governs}
use aops_pmoa.Policy.Engine.Decision.{meet, evaluate-Governs, evaluate-eq_iff}

module _ {A : Type 0} (P : A → Type 0) where
  Any-permuted : {xs ys : List A} → Permᴰ xs ys → Any P xs → Any P ys
  Any-permuted Permᴰ.nil h = h
  Any-permuted (Permᴰ.cons e p) (inl here) = inl (subst P e here)
  Any-permuted (Permᴰ.cons e p) (inr later) = inr (Any-permuted p later)
  Any-permuted (Permᴰ.swap e f) (inl here) = inr (inl (subst P e here))
  Any-permuted (Permᴰ.swap e f) (inr (inl next)) = inl (subst P f next)
  Any-permuted (Permᴰ.swap e f) (inr (inr later)) = inr (inr later)
  Any-permuted (Permᴰ.trans p q) h = Any-permuted q (Any-permuted p h)

  All-permuted : {xs ys : List A} → Permᴰ xs ys → All P xs → All P ys
  All-permuted Permᴰ.nil h = h
  All-permuted (Permᴰ.cons e p) (here, later) = (subst P e here, All-permuted p later)
  All-permuted (Permᴰ.swap e f) (first, (second, later)) =
      (subst P f second, (subst P e first, later))
  All-permuted (Permᴰ.trans p q) h = All-permuted q (All-permuted p h)

PolicyDecisionValue-discrete : Discrete PolicyDecisionValue
PolicyDecisionValue-discrete = hlevel

module _ (floats : Floats) (request : PolicyDecisionRequest floats.Float)
    (default_effect : Option PolicyDefaultEffect) where
  Governs-permuted :
      {ps qs : List EffectivePolicy} (d : PolicyDecisionValue)
      → Permᴰ ps qs
      → Governs floats request ps default_effect d
      → Governs floats request qs default_effect d
  Governs-permuted d p (inl (some_d, every_d)) =
      inl (Any-permuted _ p some_d, All-permuted _ p every_d)
  Governs-permuted d p (inr (unmatched, e)) = inr (All-permuted _ p unmatched, e)

  -- The decision does not depend on the order of the policies.
  pub evaluate_permuted :
      {ps qs : List EffectivePolicy}
      → Perm ps qs
      → (evaluate_policy_decision floats request ps default_effect).decision
        ≡ (evaluate_policy_decision floats request qs default_effect).decision
  evaluate_permuted {ps} {qs} perm = ∥∥₁_elim perm (hedberg PolicyDecisionValue-discrete _ _) λ p.
      sym (
        (evaluate-eq_iff floats request qs default_effect _).1
          (Governs-permuted _ p (evaluate-Governs floats request ps default_effect)))

  -- Once some statement matches, further policies never make the decision less strict.
  pub evaluate-append_mono :
      (ps more : List EffectivePolicy)
      → SomeMatch floats request (λ s. Unit) ps
      → decision_rank (evaluate_policy_decision floats request ps default_effect).decision
        ≤ decision_rank
            (evaluate_policy_decision floats request (ps ++ more) default_effect).decision
  evaluate-append_mono ps more matched =
      append_mono (evaluate-Governs floats request ps default_effect)
        (evaluate-Governs floats request (ps ++ more) default_effect)
    where
      append_mono :
          {c d : PolicyDecisionValue}
          → Governs floats request ps default_effect c
          → Governs floats request (ps ++ more) default_effect d
          → decision_rank c ≤ decision_rank d
      append_mono (inr (unmatched, _)) _ =
          absurd (meet floats request (λ s m p q. q) ps matched unmatched)
      append_mono (inl (some_c, _)) (inr (unmatched, _)) = absurd (
          meet floats request (λ s m p q. q) (ps ++ more) ((Any-append _ ps more).1 (inl some_c))
            unmatched)
      append_mono (inl (some_c, _)) (inl (_, every_d)) =
          meet floats request (λ s m p q. rw p at q) (ps ++ more)
            ((Any-append _ ps more).1 (inl some_c)) every_d
