-- ===== src/Approvals.antt =====
-- The requests for approval of apps/api/src/engines/approvals/store.ts and their votes.
pub mod Types
pub mod Votes
pub mod Quorum
pub mod Decided
pub mod Runs
mod Tests
