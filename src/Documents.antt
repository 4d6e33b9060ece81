-- ===== src/Documents.antt =====
-- apps/api/src/modules/documents: documents and the versions of their content.
pub mod Repository
pub mod Versions
pub mod Service
pub mod Growth
pub mod History
pub mod Download
pub mod RoundTrip
