-- ===== src/Db.antt =====
-- The state that a request works on: the tables of apps/api/migrations, the object store, the
-- clock, and the count of UUIDs drawn so far. Tables are lists, newest row first; `updated_at`
-- and other columns that the modelled code never reads are left out.
mod Enums
mod Codes
mod Rows
mod Accounts
pub use Enums.*
pub use Codes.*
pub use Rows.*
pub use Accounts.*
use secure_document_manageme.Prelude.{ℕ, String, List, []}
use secure_document_manageme.Ledger.{Bytes}

-- What a ROLLBACK restores.
pub record Db : Type 0 where
  pub users : List Account
  pub roles : List Role
  pub user_roles : List UserRole
  pub user_invitations : List UserInvitation
  pub departments : List Department
  pub auth_sessions : List AuthSession
  pub login_attempts : List LoginAttempt
  pub mfa_credentials : List MfaCredential
  pub cases : List Case
  pub case_number_counters : List (Counter ℕ)
  pub case_members : List CaseMember
  pub document_types : List DocumentType
  pub documents : List Document
  pub document_versions : List DocumentVersion
  pub document_comments : List DocumentComment
  pub user_keys : List UserKey
  pub document_signatures : List DocumentSignature
  pub verification_records : List VerificationRecord
  pub evidence : List Evidence
  pub evidence_counters : List (Counter String)
  pub evidence_artifacts : List EvidenceArtifact
  pub custody_events : List CustodyRow
  pub approval_requests : List ApprovalRequest
  pub approval_steps : List ApprovalStep
  pub resource_permissions : List ResourcePermission
  pub document_shares : List DocumentShare
  pub audit_events : List AuditRow
  pub security_events : List SecurityEvent

-- A sequence is not rolled back, and neither is the object store or what was drawn.
pub record World : Type 0 where
  pub db : Db
  pub open db use *
  pub objects : List (String × Bytes)
  pub drawn : ℕ
  pub audit_sequence : ℕ
  pub now : ℕ

abbrev pub empty_db : Db
empty_db = record {
  users = [];
  roles = [];
  user_roles = [];
  user_invitations = [];
  departments = [];
  auth_sessions = [];
  login_attempts = [];
  mfa_credentials = [];
  cases = [];
  case_number_counters = [];
  case_members = [];
  document_types = [];
  documents = [];
  document_versions = [];
  document_comments = [];
  user_keys = [];
  document_signatures = [];
  verification_records = [];
  evidence = [];
  evidence_counters = [];
  evidence_artifacts = [];
  custody_events = [];
  approval_requests = [];
  approval_steps = [];
  resource_permissions = [];
  document_shares = [];
  audit_events = [];
  security_events = [];
}
