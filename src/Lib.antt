-- ===== src/Lib.antt =====
-- AOPS-PMOA: a verification library for the control plane of agent payments.
--
-- The program (apps/api/src/engines) decides what an agent may do, and records what it spends. A
-- request is first put to the policy engine; a payment then becomes an attempt with a reservation
-- against the agent's account, and ends in one of its terminal states; delegations bound what one
-- party may draw from another on a chain, an escrow holds the budget of a job until its work is
-- evaluated, and an external party is trusted with one once its work was reviewed; every movement
-- is a posting of a ledger; the payloads of audit events are redacted, and the events are linked
-- by their hashes; and an action that needs approval waits for the votes of operators.
--
-- Files and the code that they model:
-- Prelude (and its children): tests, equality, lists, texts, results with transactions, tables;
-- Effects has bodies that also send calls, and Keys tables with a primary key.
-- JsonValue: JSON values, which the engines take as `unknown` or `Record<string, unknown>`.
-- Policy.Types: apps/api/src/engines/policy/types.ts. Policy.Values and Policy.Engine:
-- apps/api/src/engines/policy/decision-engine.ts (objectAt, stringAt, numberAt, the three
-- condition matchers, matchesStatement, evaluatePolicyDecision).
-- Policy.Validator: apps/api/src/engines/policy/validator.ts (validatePolicyStatements and its
-- helpers).
-- Payments.Money: parseUsdcMicros and formatUsdc of apps/api/src/engines/payments/permit2.ts.
-- Payments.Types, Payments.AttemptTypes and Payments.Attempts:
-- apps/api/src/engines/payments/x402-attempt-store.ts and the types of types.ts,
-- x402-result-crypto.ts and ledger.ts (findAttempt, createAttempt, markSubmitting and the three
-- finalisations); Attempts.Lifecycle, Attempts.Evolution and Attempts.Outcomes hold their proofs,
-- and Payments.History the sequences of operations. Payments.Reservations: isProvablyDead and
-- releaseOnProof, with proofs in Reservations.Conservation and Reservations.Release.
-- Payments.Stranded: cancelStrandedReservedAttempts. Payments.Purge: purgeExpiredX402Results, with
-- proofs in Purge.Limits. Payments.Ledger: ledger.ts, with proofs in Ledger.Corrections.
-- Payments.Permit2: permit2.ts and delegation-ceiling.ts. Permit2.Types has rows, calls and
-- effects, Permit2.Ceilings the bounds, Permit2.Gas the nonce, the submitter and its gas,
-- Permit2.Inputs and Permit2.Rows what is read and written, Permit2.Delegations
-- recordSignedDelegation, drawDown and revokeDelegation, and Permit2.Signing
-- buildUserDelegationTypedData; Permit2.Effects and the children of Permit2.Delegations and
-- Permit2.Signing hold the proofs.
-- Payments.Escrow: escrow.ts, escrow-contract.ts and reputation-hook.ts. Escrow.Types has rows,
-- calls and what the chain answers, Escrow.Contract signatures and deployments, Escrow.Rows the
-- statements of SQL, Escrow.Reading the reader of receipts and the sending of a call, Escrow.Calls
-- what a creation and a funding send, Escrow.Jobs createEscrowJob and fundEscrowJob,
-- Escrow.Lifecycle applyEscrowStateChange, Escrow.Reputation onEscrowCompleted, Escrow.Reconcile
-- reconcileEscrowJob and Escrow.Lists the lists; their children, Escrow.Effects, Escrow.Booked,
-- Escrow.Books, Escrow.Follows and Escrow.Runs hold the proofs.
-- Payments.Trust: trust.ts, with proofs in Trust.Promotion and Trust.Revocation.
-- Evidence.Redaction: apps/api/src/engines/evidence/redaction.ts, with proofs in Redaction.Clean.
-- Evidence.CanonicalJson: apps/api/src/engines/evidence/canonical-json.ts, with the hash, the JSON
-- texts of strings and numbers and the order of keys as parameters; CanonicalJson.Order holds the
-- proofs.
-- Evidence.Audit.Types, .Writer: apps/api/src/engines/evidence/audit-writer.ts, with the tables
-- audit_events and audit_event_heads; Chain and Recordings hold the proofs. A recording is a body
-- of the transaction of its caller, so that a refused one leaves the tables as they were.
-- Approvals.Types, .Votes: approveApproval and denyApproval of
-- apps/api/src/engines/approvals/store.ts, with the audit writer; Approvals.Quorum,
-- Approvals.Decided and Approvals.Runs hold the proofs.
-- Policy.Tests, Approvals.Tests, Evidence.Tests, Evidence.Audit.Tests, Payments.Tests, Payments.Permit2.Tests, Payments.Escrow.Tests and
-- Payments.Trust.Tests: runs, and each theorem at an input (Payments.Escrow.Sample has the tables
-- and the network of escrow's).
--
-- How state and effects are modelled. A table is a list of rows, and a statement of SQL is its
-- effect on the tables, the checks of its table included; `now` is the time of the transaction,
-- and a random id is an argument; references to rows of other tables are taken to hold. A thrown
-- error is a value of Failure, without its explanatory text. The attempt store and the ledger are
-- bodies over PaymentsDb that give a result with the new tables, or a failure; bodies of Permit2
-- and of Escrow also send calls, which stay sent when the tables are rolled back. What the chain
-- and the provider answer is a record of functions (Network, EscrowNetwork) or an argument, as the
-- source injects it. Amounts are whole millionths of USDC: the columns are numeric(20, 6), and an
-- amount that does not fit is refused. What Number and toFixed(6) make of an amount of the ledger,
-- and the rows that another transaction has locked, are parameters.
--
-- Bounds and fuel. The only loops with a count are those of the source (six reads of a nonce,
-- eight polls of a balance, six reads of a receipt and of a job), counted down from the same
-- constants. The digits of a number are taken on fuel of the number and one, which is enough since
-- each quotient by ten falls. All else is structural.
--
-- What is not modelled: network clients, HTTP routes, encryption and hash functions, the user
-- interface and the contracts; the stores of identity and policies, and the creation and use of
-- approvals.
pub mod Prelude
pub mod JsonValue
pub mod Policy
pub mod Payments
pub mod Evidence
pub mod Approvals
