-- ===== src/Payments/Escrow/Reading.antt =====
-- The reader of receipts of escrow.ts, its loop around a read that throws, and the sending of a call.
use Prim.Native.String
use aops_pmoa.Prelude.{
  ℕ, zero, suc, String, Option, none, some, List, [], ◌∷◌, nat_beq, if◌then◌else◌, ◌==◌,
  text_comparable, Failure, error, Result, ok, err, ◌++◌,
}
use aops_pmoa.Payments.Types.{PaymentChain}
use aops_pmoa.Payments.Permit2.Gas.{chain_text, message_of, chain_rpc_url}
use aops_pmoa.Payments.Escrow.Types.{
  escrow_state_comparable, ContractExecution, EscrowCall, execute, sleep, EscrowReceiptLog,
  ReceiptBody, EscrowNetwork, EscrowIo,
}
use aops_pmoa.Payments.Escrow.Contract.{receipt_max_attempts, receipt_retry_delay_ms}

-- The loop `for (attempt = 1; …)` around a read that throws: the attempts that are left, the delay
-- after each but the last, the failure at the end and the last error.
unfoldable pub read_again :
    {A : Type 0}
    → (left : ℕ) → (delay_ms : ℕ) → (unavailable : String) → (last_error : Failure)
    → (List EscrowCall → Result A)
    → EscrowIo A
read_again zero delay_ms unavailable last_error read w =
    (err (error (String.◌++◌ unavailable (message_of last_error))), w)
read_again (suc left) delay_ms unavailable last_error read w =
    let waited =
      if nat_beq left 0 then w else record w { calls = w.calls ++ sleep delay_ms ∷ [] } in
    elim (read w.calls) [
      | ok a ↦ (ok a, w)
      | err e ↦ read_again left delay_ms unavailable e read waited
    ]

abbrev pub message_or : String → Option String → Failure
message_or fallback none = error fallback
message_or fallback (some message) = error message

-- `body.result.logs ?? []`, or what the body is refused for
abbrev pub logs_of_body : ReceiptBody → Result (List EscrowReceiptLog)
logs_of_body body = elim body.error [
  | some message ↦ err (message_or "eth_getTransactionReceipt_rpc_error" message)
  | none ↦ elim body.result [
    | none ↦ err (error "escrow_receipt_not_available")
    | some none ↦ ok []
    | some (some logs) ↦ ok logs
  ]
]

abbrev pub result_then : {A B : Type 0} → Result A → (A → Result B) → Result B
result_then (ok a) f = f a
result_then (err e) f = err e

abbrev pub when_url : {A : Type 0} → Failure → Option String → (String → EscrowIo A) → EscrowIo A
when_url not_configured none body w = (err not_configured, w)
when_url not_configured (some url) body w =
    if url == "" then (err not_configured, w) else body url w

abbrev pub lift : {A : Type 0} → Result A → EscrowIo A
lift r w = (r, w)

module _ (network : EscrowNetwork) where
  -- provider.executePermit2Transaction
  abbrev pub send : ContractExecution → EscrowIo String
  send e w = (network.send e w.calls, record w { calls = w.calls ++ execute e ∷ [] })

  unfoldable pub read_receipt_logs_via_rpc :
      String → PaymentChain → EscrowIo (List EscrowReceiptLog)
  unfolding read_again
  read_receipt_logs_via_rpc tx_hash chain =
      when_url (error (String.◌++◌ "escrow_receipt_rpc_not_configured:" (chain_text chain)))
        (chain_rpc_url network.arc_rpc_url network.base_sepolia_rpc_url chain)
        (λ url.
          read_again receipt_max_attempts receipt_retry_delay_ms "escrow_receipt_unavailable:"
            (error "unknown")
            (λ calls. result_then (network.fetch_receipt url tx_hash calls) logs_of_body))
