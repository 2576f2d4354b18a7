-- ===== src/Prelude/Effects.antt =====
-- Bodies that read and write tables and speak to other systems: a result, the new tables and the
-- calls so far. What was sent stays sent when a transaction is rolled back.
use mathlib.Core.Path.{◌≡◌, refl, sym, ap, ◌∙◌}
use mathlib.Core.Bool.{Bool, true, false}
use mathlib.Core.Option.{Option, none, some}
use mathlib.Core.List.{List, [], ◌∷◌, ◌++◌}
use native.Mathlib.Omega.{arith}
use aops_pmoa.Prelude.Results.{Failure, Result, ok, err}

pub record World (Db Call : Type 0) : Type 0 where
  pub db : Db
  pub calls : List Call

abbrev pub Io : Type 0 → Type 0 → Type 0 → Type 0
Io Db Call A = World Db Call → Result A × World Db Call

module _ {Db Call A B : Type 0} where
  abbrev pub and_then : Result A × World Db Call → (A → Io Db Call B) → Result B × World Db Call
  and_then (ok a, w) f = f a w
  and_then (err e, w) f = (err e, w)

infixl 5 ◌>>=◌ ◌>>◌
abbrev pub ◌>>=◌ : {Db Call A B : Type 0} → Io Db Call A → (A → Io Db Call B) → Io Db Call B
◌>>=◌ m f w = and_then (m w) f

abbrev pub ◌>>◌ : {Db Call A B : Type 0} → Io Db Call A → Io Db Call B → Io Db Call B
m >> k = m >>= λ _. k

module _ {Db Call A : Type 0} where
  abbrev pub pure : A → Io Db Call A
  pure a w = (ok a, w)

  abbrev pub throw : Failure → Io Db Call A
  throw e w = (err e, w)

  abbrev pub query : (Db → A) → Io Db Call A
  query f w = (ok (f w.db), w)

  -- What another system answers, given all that was asked before.
  abbrev pub ask : (List Call → Result A) → Io Db Call A
  ask f w = (f w.calls, w)

  -- A statement of SQL that may fail.
  abbrev pub sql_result : Result (A × Db) → World Db Call → Result A × World Db Call
  sql_result (ok (a, db)) w = (ok a, record w { db = db })
  sql_result (err e) w = (err e, w)

  abbrev pub execute_sql : (Db → Result (A × Db)) → Io Db Call A
  execute_sql f w = sql_result (f w.db) w

  -- `value ?? throw`
  abbrev pub or_throw : Failure → Option A → Io Db Call A
  or_throw e none w = (err e, w)
  or_throw e (some a) w = (ok a, w)

  -- BEGIN, the body, COMMIT or ROLLBACK.
  abbrev pub undo : Db → Result A × World Db Call → Result A × World Db Call
  undo db (ok a, w) = (ok a, w)
  undo db (err e, w) = (err e, record w { db = db })

  abbrev pub atomically : Io Db Call A → Io Db Call A
  atomically body w = undo w.db (body w)

  abbrev pub when_some : {O : Type 0} → A → Option O → (O → Io Db Call A) → Io Db Call A
  when_some a none f w = (ok a, w)
  when_some a (some o) f w = f o w

module _ {Db Call : Type 0} where
  abbrev pub throw_if : Bool → Failure → Io Db Call (Unit {0})
  throw_if true e w = (err e, w)
  throw_if false e w = (ok tt, w)

  abbrev pub update : (Db → Db) → Io Db Call (Unit {0})
  update f w = (ok tt, record w { db = f w.db })

  abbrev pub tell : Call → Io Db Call (Unit {0})
  tell call w = (ok tt, record w { calls = w.calls ++ call ∷ [] })

  -- A sequence that succeeds: its first part did, and so did the rest after it.
  pub then-eq-ok :
      {A B : Type 0} (m : Io Db Call A) (f : A → Io Db Call B) (w : World Db Call) {b : B}
      {final : World Db Call}
      → (m >>= f) w ≡ (ok b, final)
      → (a : A) × (middle : World Db Call) × (m w ≡ (ok a, middle)) × (f a middle ≡ (ok b, final))
  then-eq-ok {A} {B} m f w {b} {final} h = parts (m w) refl h
    where
      parts :
          (r : Result A × World Db Call)
          → m w ≡ r
          → and_then r f ≡ (ok b, final)
          → (a : A) × (middle : World Db Call) × (m w ≡ (ok a, middle))
            × (f a middle ≡ (ok b, final))
      parts (ok a, middle) e k = (a, middle, e, k)
      parts (err failure, middle) e k = cc

  -- A transaction that succeeds is its body.
  pub atomically-eq-ok :
      {A : Type 0} (m : Io Db Call A) (w : World Db Call) {a : A} {final : World Db Call}
      → atomically m w ≡ (ok a, final)
      → m w ≡ (ok a, final)
  atomically-eq-ok {A} m w {a} {final} h = parts (m w) refl h
    where
      parts :
          (r : Result A × World Db Call)
          → m w ≡ r
          → undo w.db r ≡ (ok a, final)
          → m w ≡ (ok a, final)
      parts (ok b, middle) e k = e ∙ k
      parts (err failure, middle) e k = cc

  -- A transaction that fails leaves the tables as they were.
  pub atomically-err :
      {A : Type 0} (m : Io Db Call A) (w : World Db Call) {e : Failure} {final : World Db Call}
      → atomically m w ≡ (err e, final)
      → final.db ≡ w.db
  atomically-err {A} m w {e} {final} h = parts (m w) h
    where
      parts : (r : Result A × World Db Call) → undo w.db r ≡ (err e, final) → final.db ≡ w.db
      parts (ok b, middle) k = cc
      parts (err failure, middle) k = ground arith

  -- A part that leaves the tables alone, whatever it answers.
  pub same_db :
      {A : Type 0} (m : Io Db Call A) {w w' : World Db Call} {r : Result A}
      → (m w).1.db ≡ w.db
      → m w ≡ (r, w')
      → w'.db ≡ w.db
  same_db m {w} {w'} keep e = let at : (m w).1.db ≡ w'.db = ap (λ p. p.1.db) e in sym at ∙ keep
