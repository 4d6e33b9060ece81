-- ===== src/Grants.antt =====
-- apps/api/src/modules/permissions and apps/api/src/modules/sharing: grants of one action on one
-- resource to one user, and shares of documents, which are grants that expire.
pub mod Service
pub mod Growth
pub mod Effect
