-- ===== src/Verification.antt =====
-- apps/api/src/modules/verification: whether a signed document is what was signed.
pub mod Service
pub mod Growth
pub mod Verdict
pub mod Answer
pub mod Signed
