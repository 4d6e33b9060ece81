-- ===== src/Users.antt =====
-- apps/api/src/modules/users: accounts, invitations, roles and departments.
pub mod Repository
pub mod Departments
pub mod Invitations
pub mod Management
pub mod Growth
pub mod Authority
pub mod Subtree
pub mod Activation
pub mod Escalation
