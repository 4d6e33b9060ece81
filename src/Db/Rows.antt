-- ===== src/Db/Rows.antt =====
-- The rows of the tables, with the column names of apps/api/migrations.
use secure_document_manageme.Prelude.{ℕ, String, Bool, Option}
use secure_document_manageme.Ledger.{Bytes}
use secure_document_manageme.Canonical.{Json}
use secure_document_manageme.Db.Enums.{
  CaseStatus, CasePriority, CaseRole, Permission, ResourceType, DocumentStatus, IntegrityStatus,
  EvidenceStatus, CustodyAction, CustodyStatus, ApprovalStatus, AuditResult, Severity,
}
use secure_document_manageme.Db.Codes.{
  KeyStatus, SignatureStatus, VerificationResult, VerificationSource,
}

-- A row of `case_number_counters` (by year) or `evidence_counters` (by case).
pub record Counter (K : Type 0) : Type 0 where
  pub key : K
  pub last_sequence : ℕ

pub record Case : Type 0 where
  pub id : String
  pub case_number : Bytes
  pub title : String
  pub description : Option String
  pub priority : CasePriority
  pub status : CaseStatus
  pub owner_id : String
  pub department_id : Option String
  pub opened_at : ℕ
  pub closed_at : Option ℕ
  pub archived_at : Option ℕ

pub record CaseMember : Type 0 where
  pub id : String
  pub case_id : String
  pub user_id : String
  pub case_role : CaseRole
  pub added_by : Option String
  pub joined_at : ℕ
  pub revoked_at : Option ℕ

pub record DocumentType : Type 0 where
  pub id : String
  pub code : String
  pub name : String

pub record Document : Type 0 where
  pub id : String
  pub case_id : String
  pub document_type_id : Option String
  pub title : String
  pub description : Option String
  pub owner_id : String
  pub status : DocumentStatus
  pub current_version_id : Option String

-- `version_number` is the major part: the program writes "1.0", "2.0", ….
pub record DocumentVersion : Type 0 where
  pub id : String
  pub document_id : String
  pub version_number : ℕ
  pub storage_key : String
  pub sha256_hash : Bytes
  pub file_name : String
  pub mime_type : String
  pub size_bytes : ℕ
  pub integrity_status : IntegrityStatus
  pub encryption_version : String
  pub key_id : String
  pub change_note : Option Bytes
  pub created_by : String
  pub created_at : ℕ
  pub is_signed : Bool

pub record DocumentComment : Type 0 where
  pub id : String
  pub document_id : String
  pub author_id : String
  pub body : String
  pub created_at : ℕ

-- Texts that are computed on (keys, hashes, signatures, codes) are bytes.
pub record UserKey : Type 0 where
  pub id : String
  pub user_id : String
  pub public_key : Bytes
  pub private_key_envelope : Bytes
  pub key_id : String
  pub fingerprint : Bytes
  pub status : KeyStatus
  pub created_at : ℕ
  pub revoked_at : Option ℕ

pub record DocumentSignature : Type 0 where
  pub id : String
  pub document_id : String
  pub document_version_id : String
  pub signer_id : String
  pub requested_by : Option String
  pub status : SignatureStatus
  pub reason : Option String
  pub decline_reason : Option String
  pub user_key_id : Option String
  pub signed_hash : Option Bytes
  pub signature : Option Bytes
  pub verification_code : Option Bytes
  pub signed_at : Option ℕ
  pub created_at : ℕ

pub record VerificationRecord : Type 0 where
  pub id : String
  pub document_id : String
  pub document_signature_id : String
  pub verified_by : Option String
  pub hash_check : Bool
  pub signature_check : Bool
  pub ledger_check : Bool
  pub version_check : Bool
  pub overall_result : VerificationResult
  pub source : VerificationSource
  pub ip_address : Option String
  pub created_at : ℕ

pub record Evidence : Type 0 where
  pub id : String
  pub case_id : String
  pub evidence_number : Bytes
  pub title : String
  pub description : Option String
  pub category : Option String
  pub status : EvidenceStatus
  pub current_custodian_id : String
  pub current_location : Option String
  pub created_by : String

pub record EvidenceArtifact : Type 0 where
  pub id : String
  pub evidence_id : String
  pub storage_key : String
  pub sha256_hash : Bytes
  pub file_name : String
  pub mime_type : String
  pub size_bytes : ℕ
  pub integrity_status : IntegrityStatus
  pub created_at : ℕ

-- What the hash of a custody event is computed from, and the stored row.
pub record CustodyEvent : Type 0 where
  pub evidence_id : String
  pub from_user_id : Option String
  pub to_user_id : Option String
  pub action : CustodyAction
  pub reason : Option String
  pub status : CustodyStatus
  pub integrity_verified : Bool
  pub from_location : Option String
  pub to_location : Option String
  pub previous_hash : Option Bytes
  pub created_by : String
  pub created_at : ℕ

pub record CustodyRow : Type 0 where
  pub id : String
  pub event : CustodyEvent
  pub open event use *
  pub event_hash : Bytes

pub record ApprovalRequest : Type 0 where
  pub id : String
  pub document_id : String
  pub document_version_id : String
  pub requested_by : String
  pub status : ApprovalStatus
  pub current_step : ℕ
  pub created_at : ℕ
  pub completed_at : Option ℕ

pub record ApprovalStep : Type 0 where
  pub id : String
  pub approval_request_id : String
  pub step_order : ℕ
  pub approver_id : String
  pub status : ApprovalStatus
  pub comments : Option String
  pub decided_at : Option ℕ
  pub created_at : ℕ

-- `permission` stands for `permission_id`, a key of the seeded table of permission codes.
pub record ResourcePermission : Type 0 where
  pub id : String
  pub resource_type : ResourceType
  pub resource_id : String
  pub user_id : String
  pub permission : Permission
  pub granted_by : Option String
  pub expires_at : Option ℕ
  pub revoked_at : Option ℕ
  pub created_at : ℕ

pub record DocumentShare : Type 0 where
  pub id : String
  pub document_id : String
  pub resource_permission_id : String
  pub shared_by : String
  pub shared_with : String
  pub permission_code : Permission
  pub reason : Option String
  pub expires_at : ℕ
  pub created_at : ℕ

-- What the hash of an audit event is computed from, and the stored row. `metadata` is a value of
-- type jsonb, read back as it was written.
pub record AuditEvent : Type 0 where
  pub actor_user_id : Option String
  pub action : String
  pub resource_type : String
  pub resource_id : Option String
  pub case_id : Option String
  pub result : AuditResult
  pub ip_address : Option String
  pub session_id : Option String
  pub device : Option String
  pub metadata : Json
  pub previous_hash : Option Bytes
  pub created_at : ℕ

-- `id` is a bigserial.
pub record AuditRow : Type 0 where
  pub id : ℕ
  pub event : AuditEvent
  pub open event use *
  pub event_hash : Bytes

pub record SecurityEvent : Type 0 where
  pub id : String
  pub event_type : String
  pub severity : Severity
  pub user_id : Option String
  pub resource_type : Option String
  pub resource_id : Option String
