-- ===== src/Payments/Escrow/Reconcile/Answers.antt =====
-- The answer of the chain about a job: its status, and how it differs from the row.
use aops_pmoa.Prelude.{
  ℕ, ◌≡◌, ◌⊎◌, ◌≢◌, refl, sym, subst, inl, inr, true, false, not, ◌&&◌, Option, none, some, List,
  [], ◌∷◌, arith, ltb, nat_beq, nat_beq_iff, ◌==◌, text_comparable, Result, ok, err, Bool-cases,
  Option-cases,
}
use aops_pmoa.Payments.Types.{ReservationStatus, settled, released}
use aops_pmoa.Payments.Escrow.Types.{
  EscrowState, opened, funded, submitted, completed, rejected, expired, escrow_state_comparable,
  EscrowJobRow, DecodedJob,
}
use aops_pmoa.Payments.Escrow.Rows.{outcome_of}
use aops_pmoa.Payments.Escrow.Reconcile.{
  OnchainEscrowJob, decode_escrow_job, EscrowDrift, state_drift, budget_drift,
  escrow_state_by_status, drift_of,
}

-- The statuses of the ERC-8183 contract.
pub data StatusOf : ℕ → EscrowState → Type 0 where
  is_open : StatusOf 0 opened
  is_funded : StatusOf 1 funded
  is_submitted : StatusOf 2 submitted
  is_completed : StatusOf 3 completed
  is_rejected : StatusOf 4 rejected
  is_expired : StatusOf 5 expired

-- What becomes of the reservation in a state.
pub data Resolves : EscrowState → Option ReservationStatus → Type 0 where
  keeps_open : Resolves opened none
  keeps_funded : Resolves funded none
  keeps_submitted : Resolves submitted none
  settles : Resolves completed (some settled)
  releases_rejected : Resolves rejected (some released)
  releases_expired : Resolves expired (some released)

pub outcome_of-Resolves : (s : EscrowState) → Resolves s (outcome_of s)
outcome_of-Resolves opened = keeps_open
outcome_of-Resolves funded = keeps_funded
outcome_of-Resolves submitted = keeps_submitted
outcome_of-Resolves completed = settles
outcome_of-Resolves rejected = releases_rejected
outcome_of-Resolves expired = releases_expired

-- A state of the row and its budget against those of the chain, and what is reported.
pub data Differs (state : EscrowState) (budget : ℕ) (state' : EscrowState) (budget' : ℕ)
    : List EscrowDrift → Type 0 where
  agree :
      state ≡ state' → (budget' ≡ 0) ⊎ (budget ≡ budget') → Differs state budget state' budget' []
  in_state :
      state ≢ state'
      → (budget' ≡ 0) ⊎ (budget ≡ budget')
      → Differs state budget state' budget' (state_drift state state' ∷ [])
  in_budget :
      state ≡ state'
      → budget' ≢ 0
      → budget ≢ budget'
      → Differs state budget state' budget' (budget_drift budget budget' ∷ [])
  in_both :
      state ≢ state'
      → budget' ≢ 0
      → budget ≢ budget'
      → Differs state budget state' budget'
          (state_drift state state' ∷ budget_drift budget budget' ∷ [])

same-budget : (a b : ℕ) → (ltb 0 b && not (nat_beq b a)) ≡ false → (b ≡ 0) ⊎ (a ≡ b)
same-budget a b h = elim (Bool-cases (nat_beq b a)) [
  | inl same ↦ inr (sym ((nat_beq_iff b a).0 same))
  | inr other ↦ inl (ground arith)
]

other-budget : (a b : ℕ) → (ltb 0 b && not (nat_beq b a)) ≡ true → (b ≢ 0) × (a ≢ b)
other-budget a b h = (
  λ e. absurd (ground arith),
  λ e. let same : nat_beq b a ≡ true = (nat_beq_iff b a).1 (sym e) in absurd (ground arith),
)

pub drift_of-Differs :
    (job : EscrowJobRow) (onchain : OnchainEscrowJob)
    → Differs job.state job.budget_usdc onchain.state onchain.budget_micros (drift_of job onchain)
unfolding drift_of
drift_of-Differs job onchain = elim (Bool-cases (onchain.state == job.state)) [
  | inl same ↦
      let states : job.state ≡ onchain.state =
        sym ((escrow_state_comparable.same_iff onchain.state job.state).0 same) in
      elim (Bool-cases
        (ltb 0 onchain.budget_micros && not (nat_beq onchain.budget_micros job.budget_usdc))) [
          | inl drifted ↦
              let (given, other) = other-budget job.budget_usdc onchain.budget_micros drifted in
              rw (same, drifted) (in_budget states given other)
          | inr kept ↦
              rw (same, kept)
                (agree states (same-budget job.budget_usdc onchain.budget_micros kept))
        ]
  | inr differs ↦
      let states : job.state ≢ onchain.state = λ e.
        absurd
          (ground (arith, (escrow_state_comparable.same_iff onchain.state job.state).1 (sym e))) in
      elim (Bool-cases
        (ltb 0 onchain.budget_micros && not (nat_beq onchain.budget_micros job.budget_usdc))) [
          | inl drifted ↦
              let (given, other) = other-budget job.budget_usdc onchain.budget_micros drifted in
              rw (differs, drifted) (in_both states given other)
          | inr kept ↦
              rw (differs, kept)
                (in_state states (same-budget job.budget_usdc onchain.budget_micros kept))
        ]
]

status-of : (n k : ℕ) (s t : EscrowState) → nat_beq n k ≡ true → StatusOf k t → t ≡ s → StatusOf n s
status-of n k s t same h e =
    subst (λ u. StatusOf n u) e (subst (λ m. StatusOf m t) (sym ((nat_beq_iff n k).0 same)) h)

by_status-StatusOf : (n : ℕ) (s : EscrowState) → escrow_state_by_status n ≡ some s → StatusOf n s
by_status-StatusOf n s e = elim (Bool-cases (nat_beq n 0)) [
  | inl h ↦ status-of n 0 s opened h is_open (ground arith)
  | inr no0 ↦ elim (Bool-cases (nat_beq n 1)) [
    | inl h ↦ status-of n 1 s funded h is_funded (ground arith)
    | inr no1 ↦ elim (Bool-cases (nat_beq n 2)) [
      | inl h ↦ status-of n 2 s submitted h is_submitted (ground arith)
      | inr no2 ↦ elim (Bool-cases (nat_beq n 3)) [
        | inl h ↦ status-of n 3 s completed h is_completed (ground arith)
        | inr no3 ↦ elim (Bool-cases (nat_beq n 4)) [
          | inl h ↦ status-of n 4 s rejected h is_rejected (ground arith)
          | inr no4 ↦ elim (Bool-cases (nat_beq n 5)) [
            | inl h ↦ status-of n 5 s expired h is_expired (ground arith)
            | inr no5 ↦ absurd (ground arith)
          ]
        ]
      ]
    ]
  ]
]

pub decoded-StatusOf :
    (r : Result DecodedJob) (onchain : OnchainEscrowJob)
    → decode_escrow_job r ≡ ok onchain
    → (answer : DecodedJob) × (r ≡ ok answer)
      × StatusOf answer.status onchain.state
      × (onchain.budget_micros ≡ answer.budget)
unfolding decode_escrow_job
decoded-StatusOf (err e) onchain h = absurd (ground arith)
decoded-StatusOf (ok answer) onchain h =
    elim (Option-cases (escrow_state_by_status answer.status)) [
      | inl unknown ↦ absurd (ground arith)
      | inr (s, known) ↦ (
        answer,
        refl,
        by_status-StatusOf answer.status onchain.state (ground arith),
        ground arith,
      )
    ]
