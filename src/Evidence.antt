-- ===== src/Evidence.antt =====
-- The evidence engine (apps/api/src/engines/evidence).
pub mod Redaction
pub mod CanonicalJson
pub mod Audit
mod Tests
