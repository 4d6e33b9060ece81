-- ===== src/Signatures.antt =====
-- apps/api/src/modules/signatures: signing keys, signatures and signature requests.
pub mod Repository
pub mod Service
pub mod Growth
pub mod Keys
pub mod Respond
