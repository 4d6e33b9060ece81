-- ===== src/Approval.antt =====
-- apps/api/src/modules/approval: sequential approval of a version of a document.
pub mod Repository
pub mod Steps
pub mod Growth
pub mod Outcome
pub mod Invariant
pub mod Halt
