-- ===== src/Cases.antt =====
-- apps/api/src/modules/cases: case files, their life cycle and their members.
pub mod Repository
pub mod Status
pub mod Members
pub mod Growth
