-- ===== src/Payments/Attempts/Lifecycle.antt =====
-- The life of an attempt under the operations of x402-attempt-store.ts: the edges of its status, and
-- what an operation may do to its row.
use aops_pmoa.Prelude.{ℕ, ◌≡◌, ◌≢◌, refl, ◌∙◌, arith, text_comparable, Extends}
use aops_pmoa.Payments.Types.{
  X402AttemptStatus, reserved, submitting, settled, failed, unknown, attempt_status_comparable,
  X402AttemptRow, PaymentsDb,
}
use aops_pmoa.Payments.Attempts.{scrub}

-- One change of status.
pub data Edge : X402AttemptStatus → X402AttemptStatus → Type 0 where
  submits : Edge reserved submitting
  settles : Edge submitting settled
  fails : Edge submitting failed
  is_lost : Edge submitting unknown
  is_cancelled : Edge reserved failed

-- Any number of changes, the last one first.
pub data Leads (s : X402AttemptStatus) : X402AttemptStatus → Type 0 where
  stays : Leads s s
  then_by : {t u : X402AttemptStatus} → Leads s t → Edge t u → Leads s u

Leads-trans : {s t u : X402AttemptStatus} → Leads s t → Leads t u → Leads s u
Leads-trans p stays = p
Leads-trans p (then_by q e) = then_by (Leads-trans p q) e

-- Where an attempt in a given status may be later: a submitted one is not reserved again, and a
-- settled, failed or unknown one stays so.
abbrev pub Follows : X402AttemptStatus → X402AttemptStatus → Type 0
Follows reserved t = Unit
Follows submitting t = t ≢ reserved
Follows settled t = t ≡ settled
Follows failed t = t ≡ failed
Follows unknown t = t ≡ unknown

Follows-Edge :
    (s : X402AttemptStatus) {t u : X402AttemptStatus} → Follows s t → Edge t u → Follows s u
Follows-Edge reserved h e = tt
Follows-Edge submitting h submits = ground arith
Follows-Edge submitting h settles = ground arith
Follows-Edge submitting h fails = ground arith
Follows-Edge submitting h is_lost = ground arith
Follows-Edge submitting h is_cancelled = ground arith
Follows-Edge settled h submits = cc
Follows-Edge settled h settles = cc
Follows-Edge settled h fails = cc
Follows-Edge settled h is_lost = cc
Follows-Edge settled h is_cancelled = cc
Follows-Edge failed h submits = cc
Follows-Edge failed h settles = cc
Follows-Edge failed h fails = cc
Follows-Edge failed h is_lost = cc
Follows-Edge failed h is_cancelled = cc
Follows-Edge unknown h submits = cc
Follows-Edge unknown h settles = cc
Follows-Edge unknown h fails = cc
Follows-Edge unknown h is_lost = cc
Follows-Edge unknown h is_cancelled = cc

Follows-refl : (s : X402AttemptStatus) → Follows s s
Follows-refl reserved = tt
Follows-refl submitting = ground arith
Follows-refl settled = refl
Follows-refl failed = refl
Follows-refl unknown = refl

pub Leads-Follows : {s t : X402AttemptStatus} → Leads s t → Follows s t
Leads-Follows {s} stays = Follows-refl s
Leads-Follows {s} (then_by p e) = Follows-Edge s (Leads-Follows p) e

-- What an operation may do to a row: its status moves along edges, and what identifies the attempt
-- and its request stays.
pub record Evolves (r r' : X402AttemptRow) : Type 0 where
  pub leads : Leads r.status r'.status
  pub id : r'.id ≡ r.id
  pub org_id : r'.org_id ≡ r.org_id
  pub agent_id : r'.agent_id ≡ r.agent_id
  pub connection_id : r'.connection_id ≡ r.connection_id
  pub idempotency_key : r'.idempotency_key ≡ r.idempotency_key
  pub request_hash : r'.request_hash ≡ r.request_hash
  pub amount_usdc : r'.amount_usdc ≡ r.amount_usdc
  pub recipient : r'.recipient ≡ r.recipient

pub Evolves-refl : (r : X402AttemptRow) → Evolves r r
Evolves-refl r = record {
  leads = stays;
  id = refl;
  org_id = refl;
  agent_id = refl;
  connection_id = refl;
  idempotency_key = refl;
  request_hash = refl;
  amount_usdc = refl;
  recipient = refl;
}

pub Evolves-trans : (q r s : X402AttemptRow) → Evolves q r → Evolves r s → Evolves q s
Evolves-trans q r s h k = record {
  leads = Leads-trans h.leads k.leads;
  id = k.id ∙ h.id;
  org_id = k.org_id ∙ h.org_id;
  agent_id = k.agent_id ∙ h.agent_id;
  connection_id = k.connection_id ∙ h.connection_id;
  idempotency_key = k.idempotency_key ∙ h.idempotency_key;
  request_hash = k.request_hash ∙ h.request_hash;
  amount_usdc = k.amount_usdc ∙ h.amount_usdc;
  recipient = k.recipient ∙ h.recipient;
}

-- A row that changes its status along one edge, and no field of its request.
pub along :
    (r : X402AttemptRow) (s : X402AttemptStatus) (r' : X402AttemptRow)
    → Edge s r'.status
    → r.status ≡ s
    → (r'.id ≡ r.id)
      × (r'.org_id ≡ r.org_id)
      × (r'.agent_id ≡ r.agent_id)
      × (r'.connection_id ≡ r.connection_id)
      × (r'.idempotency_key ≡ r.idempotency_key)
      × (r'.request_hash ≡ r.request_hash)
      × (r'.amount_usdc ≡ r.amount_usdc)
      × (r'.recipient ≡ r.recipient)
    → Evolves r r'
along r s r' edge at (i, o, a, c, k, h, m, t) = record {
  leads = then_by stays (rw at edge);
  id = i;
  org_id = o;
  agent_id = a;
  connection_id = c;
  idempotency_key = k;
  request_hash = h;
  amount_usdc = m;
  recipient = t;
}

abbrev pub AttemptsEvolve : PaymentsDb → PaymentsDb → Type 0
AttemptsEvolve db db' = Extends Evolves db.attempts db'.attempts

pub scrub-Evolves : (now : ℕ) (r : X402AttemptRow) → Evolves r (scrub now r)
scrub-Evolves now r = record {
  leads = stays;
  id = refl;
  org_id = refl;
  agent_id = refl;
  connection_id = refl;
  idempotency_key = refl;
  request_hash = refl;
  amount_usdc = refl;
  recipient = refl;
}
