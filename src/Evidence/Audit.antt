-- ===== src/Evidence/Audit.antt =====
-- apps/api/src/engines/evidence/audit-writer.ts: an audit event is added to the chain of its
-- organisation, once for an idempotency key.
pub mod Types
pub mod Writer
pub mod Chain
pub mod Recordings
mod Tests
