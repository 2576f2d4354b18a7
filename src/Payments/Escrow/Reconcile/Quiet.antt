-- ===== src/Payments/Escrow/Reconcile/Quiet.antt =====
-- The reads of reconcileEscrowJob: what they leave alone.
use aops_pmoa.Prelude.{
  ℕ, ◌≡◌, refl, ap, ◌∙◌, inl, inr, zero, suc, String, List, [], ◌∷◌, ◌++◌, nat_beq, ◌==◌,
  text_comparable, Failure, error, Result, Result-cases, Bool-cases, Option-cases,
}
use aops_pmoa.Payments.Types.{PaymentChain, reservation_status_comparable}
use aops_pmoa.Payments.Permit2.Gas.{chain_rpc_url}
use aops_pmoa.Payments.Escrow.Types.{
  escrow_state_comparable, ContractExecution, EscrowCall, execute, sleep, EscrowNetwork,
  EscrowWorld, EscrowIo,
}
use aops_pmoa.Payments.Escrow.Contract.{get_job_max_attempts, get_job_retry_delay_ms}
use aops_pmoa.Payments.Escrow.Reading.{read_again, result_then}
use aops_pmoa.Payments.Escrow.Jobs.Receipts.{read_again-db}
use aops_pmoa.Payments.Escrow.Reconcile.{
  call_data_of_body, ReconcileEscrowJobInput, read_job_call_data_via_rpc, read_job_call_data,
}

-- The transactions among the calls.
unfoldable pub executions : List EscrowCall → List ContractExecution
executions [] = []
executions (execute e ∷ calls) = e ∷ executions calls
executions (sleep ms ∷ calls) = executions calls

pub executions-sleep :
    (calls : List EscrowCall) (ms : ℕ) → executions (calls ++ sleep ms ∷ []) ≡ executions calls
unfolding executions
executions-sleep [] ms = refl
executions-sleep (execute e ∷ calls) ms = ap (λ es. e ∷ es) (executions-sleep calls ms)
executions-sleep (sleep n ∷ calls) ms = executions-sleep calls ms

-- A part that sends nothing and leaves the tables alone, whatever it answers.
abbrev pub IsQuiet : {A : Type 0} → EscrowIo A → Type 0
IsQuiet m =
    (w : EscrowWorld) → ((m w).1.db ≡ w.db) × (executions (m w).1.calls ≡ executions w.calls)

pub read_again-executions :
    {A : Type 0} (left delay_ms : ℕ) (unavailable : String) (last : Failure)
    (read : List EscrowCall → Result A) (w : EscrowWorld)
    → executions (read_again left delay_ms unavailable last read w).1.calls ≡ executions w.calls
unfolding read_again
read_again-executions zero delay_ms unavailable last read w = refl
read_again-executions (suc left) delay_ms unavailable last read w =
    elim (Result-cases (read w.calls)) [
      | inl (a, answered) ↦ rw (answered, read_again) refl
      | inr (e, failed) ↦ elim (Bool-cases (nat_beq left 0)) [
        | inl final ↦
            rw (failed, final, read_again)
              (read_again-executions left delay_ms unavailable e read w)
        | inr more ↦
            rw (failed, more, read_again)
              (read_again-executions left delay_ms unavailable e read
                  (record w { calls = w.calls ++ sleep delay_ms ∷ [] })
                ∙ executions-sleep w.calls delay_ms)
      ]
    ]

module _ (network : EscrowNetwork) where
  via_rpc-IsQuiet :
      (job_id : ℕ) (address : String) (chain : PaymentChain)
      → IsQuiet (read_job_call_data_via_rpc network job_id address chain)
  unfolding read_job_call_data_via_rpc
  via_rpc-IsQuiet job_id address chain w =
      elim (Option-cases (chain_rpc_url network.arc_rpc_url network.base_sepolia_rpc_url chain)) [
        | inl unset ↦ rw unset (refl, refl)
        | inr (url, set) ↦ elim (Bool-cases (url == "")) [
          | inl empty ↦ rw (set, empty) (refl, refl)
          | inr given ↦
              rw (set, given)
                (
                  read_again-db get_job_max_attempts get_job_retry_delay_ms
                      "escrow_get_job_unavailable:" (error "unknown")
                      (λ calls.
                        result_then (network.fetch_job url job_id address calls) call_data_of_body)
                      w,
                  read_again-executions get_job_max_attempts get_job_retry_delay_ms
                      "escrow_get_job_unavailable:" (error "unknown")
                      (λ calls.
                        result_then (network.fetch_job url job_id address calls) call_data_of_body)
                      w,
                )
        ]
      ]

  pub read-IsQuiet :
      (input : ReconcileEscrowJobInput) (job_id : ℕ) (address : String) (chain : PaymentChain)
      → IsQuiet (read_job_call_data network input job_id address chain)
  read-IsQuiet input job_id address chain w = elim (Option-cases input.read_job_call_data) [
    | inl default ↦ rw default (via_rpc-IsQuiet job_id address chain w)
    | inr (read, given) ↦ rw given (refl, refl)
  ]
