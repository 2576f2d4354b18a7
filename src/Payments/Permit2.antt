-- ===== src/Payments/Permit2.antt =====
-- Delegations of spending over Permit2: apps/api/src/engines/payments/permit2.ts and
-- delegation-ceiling.ts.
pub mod Types
pub mod Ceilings
pub mod Gas
pub mod Effects
pub mod Inputs
pub mod Rows
pub mod Delegations
pub mod Signing
mod Tests
