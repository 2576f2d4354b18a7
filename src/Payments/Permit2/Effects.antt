-- ===== src/Payments/Permit2/Effects.antt =====
-- Effects of permit2.ts: sequences that succeed, and the parts that leave the tables alone.
use aops_pmoa.Prelude.{
  ℕ, ◌-◌, zero, suc, ◌≡◌, refl, sym, ap, ◌∙◌, inl, inr, String, Bool, true, false, Option, none,
  some, List, [], ◌∷◌, ◌++◌, arith, nat_beq, if◌then◌else◌, text_comparable, Failure, error, Result,
  ok, err, Result-cases,
}
use aops_pmoa.Payments.Types.{PaymentMode, PaymentChain, mode_comparable}
use aops_pmoa.Payments.Permit2.Types.{
  chain_comparable, WalletRow, Call, sleep, transfer_native_gas, World, Network, Io, and_then,
  ◌>>=◌, throw_if, or_throw,
}
use aops_pmoa.Payments.Permit2.Gas.{
  org_wallet, base_gas_poll_delay_ms, nonce_read_retry_delay_ms, base_gas_poll_attempts,
  base_submitter_eth_floor_wei, nonce_read_max_attempts, retry_read, read_permit2_nonce, poll_gas,
  top_up_base, ensure_on_base, top_up_arc, ensure_on_arc, ensure_submitter_gas_floor,
  resolve_permit_submitter,
}

-- A sequence that succeeds: its first part did, and so did the rest after it.
pub then-eq-ok :
    {A B : Type 0} (m : Io A) (f : A → Io B) (w : World) {b : B} {final : World}
    → (m >>= f) w ≡ (ok b, final)
    → (a : A) × (middle : World) × (m w ≡ (ok a, middle)) × (f a middle ≡ (ok b, final))
then-eq-ok {A} {B} m f w {b} {final} h = parts (m w) refl h
  where
    parts :
        (r : Result A × World)
        → m w ≡ r
        → and_then r f ≡ (ok b, final)
        → (a : A) × (middle : World) × (m w ≡ (ok a, middle)) × (f a middle ≡ (ok b, final))
    parts (ok a, middle) e k = (a, middle, e, k)
    parts (err failure, middle) e k = cc

-- The part leaves the tables alone, whatever it answers.
abbrev pub Keeps : {A : Type 0} → Io A → Type 0
Keeps m = (w : World) → (m w).1.db ≡ w.db

pub then-Keeps :
    {A B : Type 0} (m : Io A) (f : A → Io B) → Keeps m → ((a : A) → Keeps (f a)) → Keeps (m >>= f)
then-Keeps {A} {B} m f keep keep_rest w = parts (m w) (keep w)
  where
    parts : (r : Result A × World) → r.1.db ≡ w.db → (and_then r f).1.db ≡ w.db
    parts (ok a, middle) e = keep_rest a middle ∙ e
    parts (err failure, middle) e = e

pub Keeps-eq :
    {A : Type 0} (m : Io A) {w w' : World} {r : Result A} → Keeps m → m w ≡ (r, w') → w'.db ≡ w.db
Keeps-eq m {w} {w'} keep e = let at : (m w).1.db ≡ w'.db = ap (λ p. p.1.db) e in sym at ∙ keep w

pub throw_if-Keeps : (b : Bool) (e : Failure) → Keeps (throw_if b e)
throw_if-Keeps true e w = refl
throw_if-Keeps false e w = refl

pub or_throw-Keeps : {A : Type 0} (e : Failure) (o : Option A) → Keeps (or_throw e o)
or_throw-Keeps e none w = refl
or_throw-Keeps e (some a) w = refl

pub if-Keeps : {A : Type 0} (b : Bool) (m k : Io A) → Keeps m → Keeps k → Keeps (if b then m else k)
if-Keeps true m k h i = h
if-Keeps false m k h i = i

retry_read-Keeps :
    {A : Type 0} (read : List Call → Result A) (n : ℕ) (last : Failure) (w : World)
    → (retry_read read n last w).1.db ≡ w.db
unfolding retry_read
retry_read-Keeps read zero last w = refl
retry_read-Keeps read (suc n) last w =
    let waited : World = record w { calls = w.calls ++ sleep nonce_read_retry_delay_ms ∷ [] } in
    let next : World = if nat_beq n 0 then w else waited in
    let same : next.db ≡ w.db = ground arith in
    elim (Result-cases (read w.calls)) [
      | inl (a, answered) ↦ ground arith
      | inr (e, failed) ↦ ground (arith, retry_read-Keeps read n e next, same)
    ]

module _ (network : Network) where
  pub read_permit2_nonce-Keeps :
      (owner token spender : String) (chain : PaymentChain)
      → Keeps (read_permit2_nonce network owner token spender chain)
  unfolding read_permit2_nonce
  read_permit2_nonce-Keeps owner token spender chain w = ground (
    arith,
    retry_read-Keeps (network.allowance_nonce owner token spender chain) nonce_read_max_attempts
        (error "unknown") w,
  )

  poll_gas-Keeps :
      (address : String) (chain : PaymentChain) (n : ℕ) (w : World)
      → (poll_gas network address chain n w).1.db ≡ w.db
  unfolding poll_gas
  poll_gas-Keeps address chain zero w = refl
  poll_gas-Keeps address chain (suc n) w = ground (
    arith,
    poll_gas-Keeps address chain n
        (record w { calls = w.calls ++ sleep base_gas_poll_delay_ms ∷ [] }),
  )

  top_up_base-Keeps :
      (mode : PaymentMode) (chain : PaymentChain) (submitter : String) (eth : ℕ)
      (o : Option WalletRow) (w : World)
      → (top_up_base network mode chain submitter eth o w).1.db ≡ w.db
  top_up_base-Keeps mode chain submitter eth none w = refl
  top_up_base-Keeps mode chain submitter eth (some wallet) w =
      let call : Call =
        transfer_native_gas mode chain wallet.circle_wallet_id submitter
          (base_submitter_eth_floor_wei - eth) in
      ground (
        arith,
        poll_gas-Keeps submitter chain base_gas_poll_attempts
            (record w { calls = w.calls ++ call ∷ [] }),
      )

  top_up_arc-Keeps :
      (mode : PaymentMode) (chain : PaymentChain) (submitter : String) (balance : ℕ)
      (o : Option WalletRow) (w : World)
      → (top_up_arc network mode chain submitter balance o w).1.db ≡ w.db
  top_up_arc-Keeps mode chain submitter balance none w = refl
  top_up_arc-Keeps mode chain submitter balance (some wallet) w = ground arith

  ensure_on_base-Keeps :
      (org_id : String) (mode : PaymentMode) (chain : PaymentChain) (submitter : String) (w : World)
      → (ensure_on_base network org_id mode chain submitter w).1.db ≡ w.db
  unfolding ensure_on_base
  ensure_on_base-Keeps org_id mode chain submitter w =
      elim (Result-cases (network.gas_balance_wei submitter chain w.calls)) [
        | inl (eth, answered) ↦ ground (
          arith,
          top_up_base-Keeps mode chain submitter eth (org_wallet org_id mode chain w.db) w,
        )
        | inr (e, failed) ↦ ground arith
      ]

  ensure_on_arc-Keeps :
      (org_id : String) (mode : PaymentMode) (chain : PaymentChain) (submitter : String) (w : World)
      → (ensure_on_arc network org_id mode chain submitter w).1.db ≡ w.db
  unfolding ensure_on_arc
  ensure_on_arc-Keeps org_id mode chain submitter w =
      elim (Result-cases (network.balance_micros submitter chain mode w.calls)) [
        | inl (balance, answered) ↦ ground (
          arith,
          top_up_arc-Keeps mode chain submitter balance (org_wallet org_id mode chain w.db) w,
        )
        | inr (e, failed) ↦ ground arith
      ]

  pub ensure_submitter_gas_floor-Keeps :
      (org_id submitter : String) (chain : PaymentChain) (mode : PaymentMode)
      → Keeps (ensure_submitter_gas_floor network org_id submitter chain mode)
  unfolding ensure_submitter_gas_floor
  ensure_submitter_gas_floor-Keeps org_id submitter chain mode w = ground (
    arith,
    ensure_on_base-Keeps org_id mode chain submitter w,
    ensure_on_arc-Keeps org_id mode chain submitter w,
  )

pub resolve_permit_submitter-Keeps :
    (org_id : String) (mode : PaymentMode) (chain : PaymentChain) (payer : String)
    (controlled : Bool) (payee : Option String)
    → Keeps (resolve_permit_submitter org_id mode chain payer controlled payee)
unfolding resolve_permit_submitter
resolve_permit_submitter-Keeps org_id mode chain payer true payee w = refl
resolve_permit_submitter-Keeps org_id mode chain payer false payee w = ground arith
