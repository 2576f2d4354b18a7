-- ===== src/Policy.antt =====
-- The policy engine (apps/api/src/engines/policy): decisions and the validation of statements.
pub mod Types
pub mod Values
pub mod Engine
pub mod Validator
mod Tests
