-- ===== src/Evidence/CanonicalJson/Order.antt =====
-- JSON values that differ in the order of keys alone have one canonical text.
use aops_pmoa.Prelude.{
  ℕ, ◌≡◌, refl, ap, sym, ◌∙◌, ◌↔◌, inl, inr, String, true, false, ◌&&◌, List, ◌∷◌, ◌++◌, arith,
  Result, ok, err, Result-cases,
}
use aops_pmoa.Prelude.Sort.{insert_by, order_by, insert_by-swap}
use aops_pmoa.JsonValue.{Json, arr, obj, Elems, nil, cons, Props, end, prop}
use aops_pmoa.Evidence.CanonicalJson.{
  Encoding, both, entries_text, key_order, encode_canonical, encode_elems, encode_props, sha256_hex,
}

both-eq-ok :
    {A B C : Type 0} (r : Result A) (s : Result B) (f : A → B → C) {c : C}
    → both r s f ≡ ok c
    → (a : A) × (b : B) × (r ≡ ok a) × (s ≡ ok b) × (f a b ≡ c)
both-eq-ok (err e) s f h = absurd (ground arith)
both-eq-ok (ok a) (err e) f h = absurd (ground arith)
both-eq-ok (ok a) (ok b) f h = (a, b, refl, refl, ground arith)

module _ {Float : Type 0} (encoding : Encoding Float) where
  open encoding use {text_literal, not_after}

  abbrev key_entry : String → List ℕ → String × List ℕ
  key_entry k t = (k, text_literal k ++ (b':' ∷ t))

  abbrev with_key : String → List ℕ → List (String × List ℕ) → List (String × List ℕ)
  with_key k t entries = key_entry k t ∷ entries

  -- Equal but for the order of keys, of which none two that change places are equal in order.
  mutual
    pub data Same : Json Float → Json Float → Type 0 where
      as_is : {v : Json Float} → Same v v
      in_arr : {es fs : Elems Float} → SameElems es fs → Same (arr es) (arr fs)
      in_obj : {ps qs : Props Float} → SameProps ps qs → Same (obj ps) (obj qs)

    pub data SameElems : Elems Float → Elems Float → Type 0 where
      same_nil : SameElems nil nil
      same_cons :
          {v w : Json Float} {es fs : Elems Float}
          → Same v w
          → SameElems es fs
          → SameElems (cons v es) (cons w fs)

    pub data SameProps : Props Float → Props Float → Type 0 where
      same_end : SameProps end end
      same_prop :
          {v w : Json Float} {ps qs : Props Float} (k : String)
          → Same v w
          → SameProps ps qs
          → SameProps (prop k v ps) (prop k w qs)
      swapped :
          {v w : Json Float} {ps : Props Float} (k l : String)
          → not_after k l && not_after l k ≡ false
          → SameProps (prop k v (prop l w ps)) (prop l w (prop k v ps))
      chained :
          {ps middle rs : Props Float} → SameProps ps middle → SameProps middle rs → SameProps ps rs

  mutual
    Same-sym : (v w : Json Float) → Same v w → Same w v
    Same-sym v w as_is = as_is
    Same-sym v w (in_arr {es} {fs} same) = in_arr (SameElems-sym es fs same)
    Same-sym v w (in_obj {ps} {qs} same) = in_obj (SameProps-sym ps qs same)

    SameElems-sym : (es fs : Elems Float) → SameElems es fs → SameElems fs es
    SameElems-sym es fs same_nil = same_nil
    SameElems-sym es fs (same_cons {v = v} {w = w} {es = es'} {fs = fs'} same rest) =
        same_cons (Same-sym v w same) (SameElems-sym es' fs' rest)

    SameProps-sym : (ps qs : Props Float) → SameProps ps qs → SameProps qs ps
    SameProps-sym ps qs same_end = same_end
    SameProps-sym ps qs (same_prop {v = v} {w = w} {ps = ps'} {qs = qs'} k same rest) =
        same_prop k (Same-sym v w same) (SameProps-sym ps' qs' rest)
    SameProps-sym ps qs (swapped k l apart) = swapped l k (ground arith)
    SameProps-sym ps qs (chained {middle = qs'} first second) =
        chained (SameProps-sym qs' qs second) (SameProps-sym ps qs' first)

  module _
      (trans : (k l m : String)
        → not_after k l ≡ true
        → not_after l m ≡ true
        → not_after k m ≡ true)
      (total : (k l : String) → not_after k l ≡ false → not_after l k ≡ true) where
    encode_props-swapped :
        (k l : String) (v w : Json Float) (ps : Props Float) (entries : List (String × List ℕ))
        → not_after k l && not_after l k ≡ false
        → encode_props encoding (prop k v (prop l w ps)) ≡ ok entries
        → (others : List (String × List ℕ)) × (encode_props encoding (prop l w (prop k v ps))
            ≡ ok others)
          × (order_by (key_order encoding) entries ≡ order_by (key_order encoding) others)
    unfolding encode_canonical order_by
    encode_props-swapped k l v w ps entries apart e =
        let (t, rest, tv, inner, made) =
          both-eq-ok (encode_canonical encoding v) (encode_props encoding (prop l w ps))
            (with_key k) e in
        let (u, last, tw, tps, held) =
          both-eq-ok (encode_canonical encoding w) (encode_props encoding ps) (with_key l) inner in
        let order =
          insert_by-swap (key_order encoding) (λ a b c. trans a.0 b.0 c.0) (λ a b. total a.0 b.0)
            (key_entry k t) (key_entry l u) apart (order_by (key_order encoding) last) in
        (key_entry l u ∷ key_entry k t ∷ last, rw (tv, tw, tps) refl, rw (sym made, sym held) order)

    mutual
      unfolding encode_canonical order_by

      pub encode_canonical-Same :
          (v w : Json Float) (t : List ℕ)
          → Same v w
          → encode_canonical encoding v ≡ ok t
          → encode_canonical encoding w ≡ ok t
      encode_canonical-Same v w t as_is e = e
      encode_canonical-Same v w t (in_arr {es} {fs} same) e =
          elim (Result-cases (encode_elems encoding es)) [
            | inl (ts, there) ↦ rw (encode_elems-Same es fs ts same there) (rw there at e)
            | inr (failure, refused) ↦ absurd (ground arith)
          ]
      encode_canonical-Same v w t (in_obj {ps} {qs} same) e =
          elim (Result-cases (encode_props encoding ps)) [
            | inl (entries, there) ↦
                let (others, found, order) = encode_props-Same ps qs entries same there in
                rw found (ap (λ xs. ok (entries_text encoding xs)) (sym order) ∙ rw there at e)
            | inr (failure, refused) ↦ absurd (ground arith)
          ]

      encode_elems-Same :
          (es fs : Elems Float) (ts : List (List ℕ))
          → SameElems es fs
          → encode_elems encoding es ≡ ok ts
          → encode_elems encoding fs ≡ ok ts
      encode_elems-Same es fs ts same_nil e = e
      encode_elems-Same es fs ts (same_cons {v = v} {w = w} {es = es'} {fs = fs'} same rest) e =
          let (t, us, head, tail, made) =
            both-eq-ok (encode_canonical encoding v) (encode_elems encoding es') (λ t ts. t ∷ ts)
              e in
          rw (encode_canonical-Same v w t same head, encode_elems-Same es' fs' us rest tail)
            (ap ok made)

      encode_props-Same :
          (ps qs : Props Float) (entries : List (String × List ℕ))
          → SameProps ps qs
          → encode_props encoding ps ≡ ok entries
          → (others : List (String × List ℕ)) × (encode_props encoding qs ≡ ok others)
            × (order_by (key_order encoding) entries ≡ order_by (key_order encoding) others)
      encode_props-Same ps qs entries same_end e = (entries, e, refl)
      encode_props-Same ps qs entries (same_prop {v = v} {w = w} {ps = ps'} {qs = qs'} k same rest)
            e =
          let (t, es, head, tail, made) =
            both-eq-ok (encode_canonical encoding v) (encode_props encoding ps') (with_key k) e in
          let (others, found, order) = encode_props-Same ps' qs' es rest tail in
          (
            key_entry k t ∷ others,
            rw (encode_canonical-Same v w t same head, found) refl,
            rw (sym made) (ap (insert_by (key_order encoding) (key_entry k t)) order),
          )
      encode_props-Same ps qs entries (swapped {v = v} {w = w} {ps = rest} k l apart) e =
          encode_props-swapped k l v w rest entries apart e
      encode_props-Same ps qs entries (chained {middle = qs'} first second) e =
          let (others, found, order) = encode_props-Same ps qs' entries first e in
          let (last, there, again) = encode_props-Same qs' qs others second found in
          (last, there, order ∙ again)

    sha256_hex-along :
        (v w : Json Float) (hash : String)
        → Same v w
        → sha256_hex encoding v ≡ ok hash
        → sha256_hex encoding w ≡ ok hash
    unfolding sha256_hex
    sha256_hex-along v w hash same e = elim (Result-cases (encode_canonical encoding v)) [
      | inl (t, there) ↦
          rw (encode_canonical-Same v w t same there, sha256_hex) (rw (there, sha256_hex) at e)
      | inr (failure, refused) ↦ absurd (ground arith)
    ]

    -- The order of keys does not matter: where the order that sorts them is transitive and total, of
    -- two JSON values that are equal but for the order of keys, at any depth, one has a hash exactly when
    -- the other has it. Keys that are equal in that order keep their places.
    pub sha256_hex-Same :
        (v w : Json Float) (hash : String)
        → Same v w
        → (sha256_hex encoding v ≡ ok hash) ↔ (sha256_hex encoding w ≡ ok hash)
    sha256_hex-Same v w hash same =
        (sha256_hex-along v w hash same, sha256_hex-along w v hash (Same-sym v w same))
