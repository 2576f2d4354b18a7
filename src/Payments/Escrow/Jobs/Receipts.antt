-- ===== src/Payments/Escrow/Jobs/Receipts.antt =====
-- The reads of a receipt: what they leave alone.
use aops_pmoa.Prelude.{
  ℕ, ◌≡◌, refl, inl, inr, zero, suc, String, List, [], ◌∷◌, ◌++◌, arith, nat_beq, if◌then◌else◌,
  ◌==◌, text_comparable, Failure, error, Result, Result-cases, Bool-cases, Option-cases,
}
use aops_pmoa.Payments.Types.{PaymentChain}
use aops_pmoa.Payments.Permit2.Gas.{chain_rpc_url}
use aops_pmoa.Payments.Escrow.Types.{EscrowCall, sleep, EscrowNetwork, EscrowWorld}
use aops_pmoa.Payments.Escrow.Contract.{receipt_max_attempts, receipt_retry_delay_ms}
use aops_pmoa.Payments.Escrow.Reading.{
  read_again, result_then, logs_of_body, read_receipt_logs_via_rpc,
}
use aops_pmoa.Payments.Escrow.Calls.{CreateEscrowJobInput}
use aops_pmoa.Payments.Escrow.Jobs.{read_receipt_logs}

-- A read that is tried again leaves the tables alone.
pub read_again-db :
    {A : Type 0} (left delay_ms : ℕ) (unavailable : String) (last : Failure)
    (read : List EscrowCall → Result A) (w : EscrowWorld)
    → (read_again left delay_ms unavailable last read w).1.db ≡ w.db
unfolding read_again
read_again-db zero delay_ms unavailable last read w = refl
read_again-db (suc left) delay_ms unavailable last read w =
    let waited : EscrowWorld =
      if nat_beq left 0 then w else record w { calls = w.calls ++ sleep delay_ms ∷ [] } in
    let same : waited.db ≡ w.db = ground arith in
    elim (Result-cases (read w.calls)) [
      | inl (a, answered) ↦ ground arith
      | inr (e, failed) ↦
          ground (arith, read_again-db left delay_ms unavailable e read waited, same)
    ]

module _ (network : EscrowNetwork) where
  via_rpc-db :
      (tx_hash : String) (chain : PaymentChain) (w : EscrowWorld)
      → (read_receipt_logs_via_rpc network tx_hash chain w).1.db ≡ w.db
  unfolding read_receipt_logs_via_rpc
  via_rpc-db tx_hash chain w =
      elim (Option-cases (chain_rpc_url network.arc_rpc_url network.base_sepolia_rpc_url chain)) [
        | inl unset ↦ ground arith
        | inr (url, set) ↦ elim (Bool-cases (url == "")) [
          | inl empty ↦ ground arith
          | inr given ↦
              rw (set, given)
                (read_again-db receipt_max_attempts receipt_retry_delay_ms
                  "escrow_receipt_unavailable:" (error "unknown")
                  (λ calls. result_then (network.fetch_receipt url tx_hash calls) logs_of_body) w)
        ]
      ]

  pub read_receipt_logs-db :
      (input : CreateEscrowJobInput) (tx_hash : String) (w : EscrowWorld)
      → (read_receipt_logs network input tx_hash w).1.db ≡ w.db
  read_receipt_logs-db input tx_hash w = elim (Option-cases input.read_receipt_logs) [
    | inr (read, given) ↦ rw given refl
    | inl default ↦ rw default (via_rpc-db tx_hash input.chain w)
  ]
