-- ===== src/Payments/Escrow/Jobs/Retries.antt =====
-- The reads of escrow.ts that are tried again after a failure.
use aops_pmoa.Prelude.{
  ℕ, zero, suc, ◌<◌, ◌≤◌, ◌≡◌, inl, inr, String, false, some, List, [], ◌∷◌, ◌++◌, arith, nat_beq,
  ◌==◌, text_comparable, Failure, error, Result, ok, err, Result-cases,
}
use aops_pmoa.Payments.Types.{PaymentChain}
use aops_pmoa.Payments.Permit2.Gas.{chain_rpc_url}
use aops_pmoa.Payments.Escrow.Types.{
  EscrowCall, sleep, EscrowReceiptLog, EscrowNetwork, EscrowWorld,
}
use aops_pmoa.Payments.Escrow.Contract.{receipt_max_attempts, receipt_retry_delay_ms}
use aops_pmoa.Payments.Escrow.Reading.{
  read_again, result_then, logs_of_body, read_receipt_logs_via_rpc,
}

-- The calls after so many waits.
abbrev pub after_waits : (delay_ms : ℕ) → ℕ → List EscrowCall → List EscrowCall
after_waits delay_ms zero calls = calls
after_waits delay_ms (suc k) calls = after_waits delay_ms k (calls ++ sleep delay_ms ∷ [])

-- Some round up to the given one is the first that answers, and its answer is the result.
abbrev pub Answers :
    {A : Type 0}
    → (delay_ms : ℕ) → (List EscrowCall → Result A)
    → (k : ℕ) → EscrowWorld
    → Result A × EscrowWorld
    → Type 0
Answers {A} delay_ms read k w result =
    (j : ℕ) × (j ≤ k)
    × ((i : ℕ) → i < j → (e : Failure) × (read (after_waits delay_ms i w.calls) ≡ err e))
    × ((a : A) × (read (after_waits delay_ms j w.calls) ≡ ok a)
        × (result ≡ (ok a, record w { calls = after_waits delay_ms j w.calls })))

-- One failed read before the others.
failed_first :
    {A : Type 0} (delay_ms : ℕ) (read : List EscrowCall → Result A) (w : EscrowWorld) (e : Failure)
    (j : ℕ)
    → read w.calls ≡ err e
    → ((i : ℕ)
        → i < j
        → (f : Failure) × (read (after_waits delay_ms i (w.calls ++ sleep delay_ms ∷ [])) ≡ err f))
    → (i : ℕ) → i < suc j
    → (f : Failure) × (read (after_waits delay_ms i w.calls) ≡ err f)
failed_first delay_ms read w e j failed later zero h = (e, failed)
failed_first delay_ms read w e j failed later (suc i) h = later i (omega arith)

pub read_again-Answers :
    {A : Type 0} (delay_ms : ℕ) (unavailable : String) (read : List EscrowCall → Result A)
    (left k : ℕ) (last : Failure) (w : EscrowWorld) (a : A)
    → k < left
    → read (after_waits delay_ms k w.calls) ≡ ok a
    → Answers delay_ms read k w (read_again left delay_ms unavailable last read w)
unfolding read_again
read_again-Answers delay_ms unavailable read zero k last w a h e = absurd (omega arith)
read_again-Answers delay_ms unavailable read (suc left) zero last w a h e =
    (0, omega arith, (λ i h. absurd (omega arith)), (a, e, ground arith))
read_again-Answers delay_ms unavailable read (suc left) (suc k) last w a h e =
    elim (Result-cases (read w.calls)) [
      | inl (b, answered) ↦
          (0, omega arith, (λ i h. absurd (omega arith)), (b, answered, ground arith))
      | inr (failure, failed) ↦
          let more : nat_beq left 0 ≡ false = ground arith in
          let (j, below, before, (b, answered, made)) =
            read_again-Answers delay_ms unavailable read left k failure
              (record w { calls = w.calls ++ sleep delay_ms ∷ [] }) a (omega arith) e in
          (
            suc j,
            omega arith,
            failed_first delay_ms read w failure j failed before,
            (b, answered, ground arith),
          )
    ]

-- Where the chain has a URL and one of the six reads answers with logs, the logs of the first that
-- does are returned, after one wait for each read before it.
pub read_receipt_logs-Answers :
    (network : EscrowNetwork) (tx_hash url : String) (chain : PaymentChain) (k : ℕ)
    (w : EscrowWorld) (logs : List EscrowReceiptLog)
    → chain_rpc_url network.arc_rpc_url network.base_sepolia_rpc_url chain ≡ some url
    → (url == "") ≡ false
    → k < receipt_max_attempts
    → result_then
        (network.fetch_receipt url tx_hash (after_waits receipt_retry_delay_ms k w.calls))
        logs_of_body
      ≡ ok logs
    → Answers receipt_retry_delay_ms
        (λ calls. result_then (network.fetch_receipt url tx_hash calls) logs_of_body)
        k
        w
        (read_receipt_logs_via_rpc network tx_hash chain w)
unfolding read_receipt_logs_via_rpc
read_receipt_logs-Answers network tx_hash url chain k w logs configured given h e =
    rw (configured, given)
      (read_again-Answers receipt_retry_delay_ms "escrow_receipt_unavailable:"
        (λ calls. result_then (network.fetch_receipt url tx_hash calls) logs_of_body)
        receipt_max_attempts k (error "unknown") w logs h e)
