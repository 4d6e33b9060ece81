-- ===== src/Evidence.antt =====
-- apps/api/src/modules/evidence: registration, integrity and chain of custody of evidence.
pub mod Repository
pub mod Lifecycle
pub mod Integrity
pub mod Transfer
pub mod Moves
pub mod Growth
pub mod Custody
pub mod Handover
pub mod Replay
pub mod RoundTrip
pub mod Check
