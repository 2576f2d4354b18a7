-- ===== src/Payments/Escrow/Reconcile/Reads.antt =====
-- What the reader of a job returns was answered by the injected reader, or by the node of the chain.
use aops_pmoa.Prelude.{
  ℕ, zero, suc, ◌≡◌, refl, ap, ◌∙◌, inl, inr, String, Option, none, some, List, [], ◌∷◌, arith,
  nat_beq, ◌==◌, text_comparable, if◌then◌else◌, ◌++◌, Failure, error, Result, ok, err,
  Result-cases, Bool-cases, Option-cases,
}
use aops_pmoa.Payments.Types.{PaymentChain}
use aops_pmoa.Payments.Permit2.Gas.{chain_rpc_url}
use aops_pmoa.Payments.Escrow.Types.{
  escrow_state_comparable, CallBody, EscrowCall, sleep, EscrowNetwork, EscrowWorld, EscrowIo,
}
use aops_pmoa.Payments.Escrow.Contract.{get_job_max_attempts, get_job_retry_delay_ms}
use aops_pmoa.Payments.Escrow.Reading.{read_again, when_url, result_then}
use aops_pmoa.Payments.Escrow.Reconcile.{
  call_data_of_body, ReconcileEscrowJobInput, read_job_call_data_via_rpc, read_job_call_data,
}

-- What a loop of reads returns was read.
read_again-answered :
    {A : Type 0} (left delay_ms : ℕ) (unavailable : String) (last_error : Failure)
    (read : List EscrowCall → Result A) (w w' : EscrowWorld) (a : A)
    → read_again left delay_ms unavailable last_error read w ≡ (ok a, w')
    → (calls : List EscrowCall) × (read calls ≡ ok a)
unfolding read_again
read_again-answered zero delay_ms unavailable last_error read w w' a e = absurd (ground arith)
read_again-answered (suc left) delay_ms unavailable last_error read w w' a e =
    elim (Result-cases (read w.calls)) [
      | inl (b, there) ↦ let same : b ≡ a = ground arith in (w.calls, there ∙ ap ok same)
      | inr (failure, refused) ↦
          read_again-answered left delay_ms unavailable failure read
            (if nat_beq left 0 then w else record w { calls = w.calls ++ sleep delay_ms ∷ [] }) w' a
            (rw (refused, read_again) at e)
    ]

body-answered :
    (r : Result CallBody) (call_data : String)
    → result_then r call_data_of_body ≡ ok call_data
    → (body : CallBody) × (r ≡ ok body) × (body.error ≡ none) × (body.result ≡ some call_data)
body-answered (err e) call_data h = absurd (ground arith)
body-answered (ok body) call_data h = elim (Option-cases body.error) [
  | inr (message, failed) ↦ absurd (ground arith)
  | inl fine ↦ elim (Option-cases body.result) [
    | inl nothing ↦ absurd (ground arith)
    | inr (text, there) ↦ (body, refl, fine, ground arith)
  ]
]

when_url-eq-ok :
    {A : Type 0} (not_configured : Failure) (o : Option String) (body : String → EscrowIo A)
    (w u : EscrowWorld) (a : A)
    → when_url not_configured o body w ≡ (ok a, u)
    → (url : String) × (o ≡ some url) × (body url w ≡ (ok a, u))
when_url-eq-ok not_configured none body w u a e = absurd (ground arith)
when_url-eq-ok not_configured (some url) body w u a e = elim (Bool-cases (url == "")) [
  | inl unset ↦ absurd (ground arith)
  | inr set ↦ (url, refl, rw set at e)
]

module _ (network : EscrowNetwork) where
  -- The text of the job on the chain: what the injected reader returns, or else what the node of the chain
  -- answers to one of the reads.
  abbrev pub IsRead :
      Option (ℕ → String → PaymentChain → Result String)
      → (job_id : ℕ) → (address : String) → PaymentChain
      → (call_data : String) → Type 0
  IsRead (some read) job_id address chain call_data = read job_id address chain ≡ ok call_data
  IsRead none job_id address chain call_data =
      (url : String) × (chain_rpc_url network.arc_rpc_url network.base_sepolia_rpc_url chain
        ≡ some url)
      × ((calls : List EscrowCall) × (body : CallBody) × (network.fetch_job url job_id address calls
            ≡ ok body)
          × (body.error ≡ none)
          × (body.result ≡ some call_data))

  read_job_call_data_via_rpc-IsRead :
      (job_id : ℕ) (address : String) (chain : PaymentChain) (call_data : String)
      (w u : EscrowWorld)
      → read_job_call_data_via_rpc network job_id address chain w ≡ (ok call_data, u)
      → IsRead none job_id address chain call_data
  unfolding read_job_call_data_via_rpc
  read_job_call_data_via_rpc-IsRead job_id address chain call_data w u e =
      let (url, given, asked) =
        when_url-eq-ok _ (chain_rpc_url network.arc_rpc_url network.base_sepolia_rpc_url chain) _ w
          u call_data e in
      let (calls, there) =
        read_again-answered get_job_max_attempts get_job_retry_delay_ms
          "escrow_get_job_unavailable:" (error "unknown")
          (λ calls. result_then (network.fetch_job url job_id address calls) call_data_of_body) w u
          call_data asked in
      let (body, fetched, fine, text) =
        body-answered (network.fetch_job url job_id address calls) call_data there in
      (url, given, (calls, body, fetched, fine, text))

  pub read_job_call_data-IsRead :
      (input : ReconcileEscrowJobInput)
      (reader : Option (ℕ → String → PaymentChain → Result String)) (job_id : ℕ) (address : String)
      (chain : PaymentChain) (call_data : String) (w u : EscrowWorld)
      → read_job_call_data network
          (record input { read_job_call_data = reader })
          job_id
          address
          chain
          w
        ≡ (ok call_data, u)
      → IsRead reader job_id address chain call_data
  read_job_call_data-IsRead input none job_id address chain call_data w u e =
      read_job_call_data_via_rpc-IsRead job_id address chain call_data w u e
  read_job_call_data-IsRead input (some read) job_id address chain call_data w u e = ground arith
