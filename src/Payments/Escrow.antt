-- ===== src/Payments/Escrow.antt =====
-- The ERC-8183 escrow of apps/api/src/engines/payments/escrow.ts, escrow-contract.ts and
-- reputation-hook.ts.
pub mod Types
pub mod Contract
pub mod Rows
pub mod Reading
pub mod Calls
pub mod Jobs
pub mod Reputation
pub mod Lifecycle
pub mod Reconcile
pub mod Effects
pub mod Booked
pub mod Books
pub mod Follows
pub mod Runs
pub mod Lists
pub mod Sample
mod Tests
