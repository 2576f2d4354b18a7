-- ===== src/Policy/Engine/Decision.antt =====
-- The decision of decision-engine.ts against its specification.
use mathlib.Core.List.{foldl, flatten}
use aops_pmoa.Prelude.{
  ◌≡◌, ◌≤◌, ◌↔◌, ◌⊎◌, refl, sym, ◌∙◌, subst, inl, inr, true, Option, List, [], ◌∷◌, map, arith,
  filter, All, Any, All-split, Any-append,
}
use aops_pmoa.JsonValue.{Floats}
use aops_pmoa.Policy.Types.{
  PolicyDecisionValue, allow, PolicyDefaultEffect, PolicyStatement, PolicyDecisionRequest,
  EffectivePolicy, PolicyDecisionMatch,
}
use aops_pmoa.Policy.Engine.{
  decision_rank, stricter, decide_matched, match_of, policy_matches, matches_statement,
  matched_statements, evaluate_policy_decision,
}
use aops_pmoa.Policy.Engine.Spec.{SomeMatch, EveryMatch, Governs}

-- The ranks tell the decisions apart.
pub decision_rank_injective :
    (c d : PolicyDecisionValue) → decision_rank c ≡ decision_rank d → c ≡ d
decision_rank_injective c d h = ground arith

abbrev pub HasDecision : PolicyDecisionValue → PolicyDecisionMatch → Type 0
HasDecision d m = m.decision ≡ d

abbrev pub HasRankWithin : PolicyDecisionValue → PolicyDecisionMatch → Type 0
HasRankWithin d m = decision_rank m.decision ≤ decision_rank d

-- The fold is an upper bound of its seed and of the matches, and one of them.
foldl-stricter_bounds :
    (c : PolicyDecisionValue) (ms : List PolicyDecisionMatch)
    → (decision_rank c ≤ decision_rank (foldl stricter c ms))
      × All (HasRankWithin (foldl stricter c ms)) ms
foldl-stricter_bounds c [] = (omega arith, tt)
foldl-stricter_bounds c (m ∷ ms) = ground (arith, foldl-stricter_bounds (stricter c m) ms)

stricter_cases :
    (c : PolicyDecisionValue) (m : PolicyDecisionMatch)
    → (stricter c m ≡ c) ⊎ (m.decision ≡ stricter c m)
stricter_cases c m = ground arith

foldl-stricter_attained :
    (c : PolicyDecisionValue) (ms : List PolicyDecisionMatch)
    → (foldl stricter c ms ≡ c) ⊎ Any (HasDecision (foldl stricter c ms)) ms
foldl-stricter_attained c [] = inl refl
foldl-stricter_attained c (m ∷ ms) = elim (foldl-stricter_attained (stricter c m) ms) [
  | inr later ↦ inr (inr later)
  | inl same ↦ elim (stricter_cases c m) [
    | inl kept ↦ inl (same ∙ kept)
    | inr taken ↦ inr (inl (taken ∙ sym same))
  ]
]

-- Over a list that is not empty the fold from `allow` is the decision of some match.
decided_attained :
    (m : PolicyDecisionMatch) (ms : List PolicyDecisionMatch)
    → Any (HasDecision (foldl stricter allow (m ∷ ms))) (m ∷ ms)
decided_attained m ms =
    ground (arith, foldl-stricter_attained allow (m ∷ ms), foldl-stricter_bounds allow (m ∷ ms))

module _ (floats : Floats) (request : PolicyDecisionRequest floats.Float) where
  -- What holds of some match of a policy, or of all, in terms of its statements.
  module _ (Q : PolicyDecisionValue → Type 0) (policy : EffectivePolicy) where
    Any-of_statements :
        (ss : List PolicyStatement)
        → Any
            (λ m. Q m.decision)
            (map (match_of policy) (filter (λ s. matches_statement floats s request) ss))
        → Any (λ s. (matches_statement floats s request ≡ true) × Q s.decision) ss
    Any-of_statements [] h = h
    Any-of_statements (s ∷ ss) h = ground (arith, Any-of_statements ss)

    Any-to_statements :
        (ss : List PolicyStatement)
        → Any (λ s. (matches_statement floats s request ≡ true) × Q s.decision) ss
        → Any
            (λ m. Q m.decision)
            (map (match_of policy) (filter (λ s. matches_statement floats s request) ss))
    Any-to_statements [] h = h
    Any-to_statements (s ∷ ss) h = ground (arith, Any-to_statements ss)

    All-of_statements :
        (ss : List PolicyStatement)
        → All
            (λ m. Q m.decision)
            (map (match_of policy) (filter (λ s. matches_statement floats s request) ss))
        → All (λ s. matches_statement floats s request ≡ true → Q s.decision) ss
    All-of_statements [] h = h
    All-of_statements (s ∷ ss) h = ground (arith, All-of_statements ss)

  -- The same over all policies.
  module _ (Q : PolicyDecisionValue → Type 0) where
    Any-of_policies :
        (ps : List EffectivePolicy)
        → Any (λ m. Q m.decision) (matched_statements floats request ps)
        → SomeMatch floats request (λ s. Q s.decision) ps
    unfolding matched_statements flatten
    Any-of_policies [] h = h
    Any-of_policies (p ∷ ps) h = elim ((Any-append _ (policy_matches floats request p) _).0 h) [
      | inl here ↦ inl (Any-of_statements Q p p.statements here)
      | inr later ↦ inr (Any-of_policies ps later)
    ]

    Any-to_policies :
        (ps : List EffectivePolicy)
        → SomeMatch floats request (λ s. Q s.decision) ps
        → Any (λ m. Q m.decision) (matched_statements floats request ps)
    unfolding matched_statements flatten
    Any-to_policies [] h = h
    Any-to_policies (p ∷ ps) h = (Any-append _ (policy_matches floats request p) _).1 (elim h [
      | inl here ↦ inl (Any-to_statements Q p p.statements here)
      | inr later ↦ inr (Any-to_policies ps later)
    ])

    All-of_policies :
        (ps : List EffectivePolicy)
        → All (λ m. Q m.decision) (matched_statements floats request ps)
        → EveryMatch floats request (λ s. Q s.decision) ps
    unfolding matched_statements flatten
    All-of_policies [] h = h
    All-of_policies (p ∷ ps) h =
        let (here, later) = All-split _ (policy_matches floats request p) _ h in
        (All-of_statements Q p p.statements here, All-of_policies ps later)

  -- What some match satisfies and what every match satisfies meet in one statement.
  module _ {P Q : PolicyStatement → Type 0} {C : Type 0}
      (both : (s : PolicyStatement)
        → matches_statement floats s request ≡ true
        → P s
        → Q s
        → C) where
    meet_statements :
        (ss : List PolicyStatement)
        → Any (λ s. (matches_statement floats s request ≡ true) × P s) ss
        → All (λ s. matches_statement floats s request ≡ true → Q s) ss
        → C
    meet_statements [] h k = absurd h
    meet_statements (s ∷ ss) h k = elim h [
      | inl here ↦ both s here.0 here.1 (k.0 here.0)
      | inr later ↦ meet_statements ss later k.1
    ]

    pub meet :
        (ps : List EffectivePolicy)
        → SomeMatch floats request P ps
        → EveryMatch floats request Q ps
        → C
    meet [] h k = absurd h
    meet (p ∷ ps) h k = elim h [
      | inl here ↦ meet_statements p.statements here k.0
      | inr later ↦ meet ps later k.1
    ]

  module _ (policies : List EffectivePolicy) (default_effect : Option PolicyDefaultEffect) where
    decide-Governs :
        (ms : List PolicyDecisionMatch)
        → matched_statements floats request policies ≡ ms
        → Governs floats request policies default_effect (decide_matched ms default_effect).decision
    unfolding decide_matched
    decide-Governs [] e = inr (All-of_policies (λ d. ⊥) policies (rw e tt), refl)
    decide-Governs (m ∷ ms) e = inl (
      Any-of_policies (λ c. c ≡ foldl stricter allow (m ∷ ms)) policies
          (rw e (decided_attained m ms)),
      All-of_policies (λ c. decision_rank c ≤ decision_rank (foldl stricter allow (m ∷ ms)))
          policies (rw e (foldl-stricter_bounds allow (m ∷ ms)).1),
    )

    pub evaluate-Governs :
        Governs floats request policies default_effect
          (evaluate_policy_decision floats request policies default_effect).decision
    unfolding evaluate_policy_decision
    evaluate-Governs = decide-Governs (matched_statements floats request policies) refl

    pub Governs-unique :
        (c d : PolicyDecisionValue)
        → Governs floats request policies default_effect c
        → Governs floats request policies default_effect d
        → c ≡ d
    Governs-unique c d (inl (some_c, every_c)) (inl (some_d, every_d)) =
        decision_rank_injective c d (
          omega (
            arith,
            meet (λ s m p q. rw p at q) policies some_c every_d,
            meet (λ s m p q. rw p at q) policies some_d every_c,
          ))
    Governs-unique c d (inl (some_c, _)) (inr (unmatched, _)) =
        absurd (meet (λ s m p q. q) policies some_c unmatched)
    Governs-unique c d (inr (unmatched, _)) (inl (some_d, _)) =
        absurd (meet (λ s m p q. q) policies some_d unmatched)
    Governs-unique c d (inr (_, e)) (inr (_, f)) = e ∙ sym f

    -- The engine decides `d` exactly if `d` is the strictest decision among the statements that
    -- match, or none matches and `d` is the default effect's decision.
    pub evaluate-eq_iff :
        (d : PolicyDecisionValue)
        → ((evaluate_policy_decision floats request policies default_effect).decision ≡ d)
          ↔ Governs floats request policies default_effect d
    evaluate-eq_iff d = (
      λ e. subst (Governs floats request policies default_effect) e evaluate-Governs,
      λ h. Governs-unique _ d evaluate-Governs h,
    )
