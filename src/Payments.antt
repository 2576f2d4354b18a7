-- ===== src/Payments.antt =====
-- The payments engine (apps/api/src/engines/payments).
pub mod Money
pub mod Types
pub mod AttemptTypes
pub mod Attempts
pub mod Ledger
pub mod Reservations
pub mod Stranded
pub mod Purge
pub mod History
pub mod Permit2
pub mod Escrow
pub mod Trust
mod Tests
