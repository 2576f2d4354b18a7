-- ===== src/Prelude/Results.antt =====
-- Errors as values, and database transactions that roll back when their body throws.
use Prim.Native.Nat.{ℕ}
use Prim.Native.String.{String}
use mathlib.Core.Path.{◌≡◌, refl}
use mathlib.Core.Logic.{◌⊎◌, inl, inr}
use mathlib.Core.Bool.{Bool, true, false}

-- `IdentityError` with its code and HTTP status, or a plain `Error` with its message. The
-- explanatory text of an `IdentityError` is left out.
pub data Failure : Type 0 where
  identity_error : (code : String) → (status_code : ℕ) → Failure
  error : (message : String) → Failure

abbrev pub conflict : String → Failure
conflict code = identity_error code 409

abbrev pub bad_request : String → Failure
bad_request code = identity_error code 400

pub data Result {ℓ} (A : Type ℓ) : Type ℓ where
  ok : A → Result A
  err : Failure → Result A

pub Result-cases {ℓ} :
    {A : Type ℓ} (r : Result A) → ((a : A) × (r ≡ ok a)) ⊎ ((e : Failure) × (r ≡ err e))
Result-cases (ok a) = inl (a, refl)
Result-cases (err e) = inr (e, refl)

-- A body over a database: a result with the new database, or a thrown failure.
abbrev pub Tx : Type 0 → Type 0 → Type 0
Tx Db A = Db → Result (A × Db)

infixl 5 ◌>>=◌ ◌>>◌
abbrev pub ◌>>=◌ : {Db A B : Type 0} → Tx Db A → (A → Tx Db B) → Tx Db B
◌>>=◌ m f db = elim (m db) [ ok (a, db') ↦ f a db' | err e ↦ err e ]

abbrev pub ◌>>◌ : {Db A B : Type 0} → Tx Db A → Tx Db B → Tx Db B
m >> k = m >>= λ _. k

module _ {Db A : Type 0} where
  abbrev pub pure : A → Tx Db A
  pure a db = ok (a, db)

  abbrev pub throw : Failure → Tx Db A
  throw e db = err e

  abbrev pub query : (Db → A) → Tx Db A
  query f db = ok (f db, db)

  -- BEGIN, the body, COMMIT; on a failure ROLLBACK and the failure is thrown again.
  abbrev pub transaction : Tx Db A → Db → Result A × Db
  transaction body db = elim (body db) [ ok (a, db') ↦ (ok a, db') | err e ↦ (err e, db) ]

module _ {Db : Type 0} where
  abbrev pub update : (Db → Db) → Tx Db (Unit {0})
  update f db = ok (tt, f db)

  abbrev pub throw_if : Bool → Failure → Tx Db (Unit {0})
  throw_if true e db = err e
  throw_if false e db = ok (tt, db)

-- A sequence that succeeds: its first part did, and so did the rest after it.
pub bind-eq-ok :
    {Db A B : Type 0} (m : Tx Db A) (f : A → Tx Db B) (db : Db) {b : B} {final : Db}
    → (m >>= f) db ≡ ok (b, final)
    → (a : A) × (middle : Db) × (m db ≡ ok (a, middle)) × (f a middle ≡ ok (b, final))
bind-eq-ok {Db} {A} m f db {b} {final} h = split (m db) refl h
  where
    split :
        (r : Result (A × Db))
        → m db ≡ r
        → elim r [ ok (a, db') ↦ f a db' | err e ↦ err e ] ≡ ok (b, final)
        → (a : A) × (middle : Db) × (m db ≡ ok (a, middle)) × (f a middle ≡ ok (b, final))
    split (ok (a, middle)) e k = (a, middle, e, k)
    split (err failure) e k = cc
