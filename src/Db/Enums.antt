-- ===== src/Db/Enums.antt =====
-- The columns with a CHECK constraint, as enumerations: the statuses and codes of
-- packages/shared/src/constants and of apps/api/migrations, and their comparison. A constructor is
-- the lower-case spelling of the code in the database; `open_case` is OPEN, `case_resource` is
-- CASE and `hand_back` is RETURN.
use secure_document_manageme.Prelude.{ℕ, ◌≡◌, ◌↔◌, true, Equality, Bool, nat_beq, arith}

pub data CaseStatus : Type 0 where
  open_case under_investigation under_review submitted closed archived : CaseStatus

pub data CasePriority : Type 0 where
  low medium high critical : CasePriority

pub data CaseRole : Type 0 where
  owner investigator forensic prosecutor viewer : CaseRole

pub data Permission : Type 0 where
  view upload edit download share comment sign verify delete archive : Permission

pub data ResourceType : Type 0 where
  case_resource document evidence report : ResourceType

pub data DocumentStatus : Type 0 where
  draft active under_review approved signed final archived deleted : DocumentStatus

pub data IntegrityStatus : Type 0 where
  verified modified unknown : IntegrityStatus

pub data EvidenceStatus : Type 0 where
  registered sealed verified in_custody in_transit received under_analysis returned archived :
      EvidenceStatus

pub data CustodyAction : Type 0 where
  register seal transfer_request receive analyze hand_back archive : CustodyAction

pub data CustodyStatus : Type 0 where
  pending acknowledged completed rejected : CustodyStatus

pub data ApprovalStatus : Type 0 where
  pending approved rejected revision_requested : ApprovalStatus

pub data AuditResult : Type 0 where
  success failure : AuditResult

pub data Severity : Type 0 where
  low medium high critical : Severity

abbrev case_status_ordinal : CaseStatus → ℕ
case_status_ordinal CaseStatus.open_case = 0
case_status_ordinal CaseStatus.under_investigation = 1
case_status_ordinal CaseStatus.under_review = 2
case_status_ordinal CaseStatus.submitted = 3
case_status_ordinal CaseStatus.closed = 4
case_status_ordinal CaseStatus.archived = 5

abbrev pub case_status_beq : CaseStatus → CaseStatus → Bool
case_status_beq a b = nat_beq (case_status_ordinal a) (case_status_ordinal b)

pub case_status_beq_iff : (a b : CaseStatus) → (case_status_beq a b ≡ true) ↔ (a ≡ b)
case_status_beq_iff a b = ground arith

instance abbrev pub case_status_eq : Equality CaseStatus
case_status_eq = record { equals = case_status_beq; equals_iff = case_status_beq_iff }

abbrev case_priority_ordinal : CasePriority → ℕ
case_priority_ordinal CasePriority.low = 0
case_priority_ordinal CasePriority.medium = 1
case_priority_ordinal CasePriority.high = 2
case_priority_ordinal CasePriority.critical = 3

abbrev pub case_priority_beq : CasePriority → CasePriority → Bool
case_priority_beq a b = nat_beq (case_priority_ordinal a) (case_priority_ordinal b)

pub case_priority_beq_iff : (a b : CasePriority) → (case_priority_beq a b ≡ true) ↔ (a ≡ b)
case_priority_beq_iff a b = ground arith

instance abbrev pub case_priority_eq : Equality CasePriority
case_priority_eq = record { equals = case_priority_beq; equals_iff = case_priority_beq_iff }

abbrev case_role_ordinal : CaseRole → ℕ
case_role_ordinal CaseRole.owner = 0
case_role_ordinal CaseRole.investigator = 1
case_role_ordinal CaseRole.forensic = 2
case_role_ordinal CaseRole.prosecutor = 3
case_role_ordinal CaseRole.viewer = 4

abbrev pub case_role_beq : CaseRole → CaseRole → Bool
case_role_beq a b = nat_beq (case_role_ordinal a) (case_role_ordinal b)

pub case_role_beq_iff : (a b : CaseRole) → (case_role_beq a b ≡ true) ↔ (a ≡ b)
case_role_beq_iff a b = ground arith

instance abbrev pub case_role_eq : Equality CaseRole
case_role_eq = record { equals = case_role_beq; equals_iff = case_role_beq_iff }

abbrev permission_ordinal : Permission → ℕ
permission_ordinal Permission.view = 0
permission_ordinal Permission.upload = 1
permission_ordinal Permission.edit = 2
permission_ordinal Permission.download = 3
permission_ordinal Permission.share = 4
permission_ordinal Permission.comment = 5
permission_ordinal Permission.sign = 6
permission_ordinal Permission.verify = 7
permission_ordinal Permission.delete = 8
permission_ordinal Permission.archive = 9

abbrev pub permission_beq : Permission → Permission → Bool
permission_beq a b = nat_beq (permission_ordinal a) (permission_ordinal b)

pub permission_beq_iff : (a b : Permission) → (permission_beq a b ≡ true) ↔ (a ≡ b)
permission_beq_iff a b = ground arith

instance abbrev pub permission_eq : Equality Permission
permission_eq = record { equals = permission_beq; equals_iff = permission_beq_iff }

abbrev resource_type_ordinal : ResourceType → ℕ
resource_type_ordinal ResourceType.case_resource = 0
resource_type_ordinal ResourceType.document = 1
resource_type_ordinal ResourceType.evidence = 2
resource_type_ordinal ResourceType.report = 3

abbrev pub resource_type_beq : ResourceType → ResourceType → Bool
resource_type_beq a b = nat_beq (resource_type_ordinal a) (resource_type_ordinal b)

pub resource_type_beq_iff : (a b : ResourceType) → (resource_type_beq a b ≡ true) ↔ (a ≡ b)
resource_type_beq_iff a b = ground arith

instance abbrev pub resource_type_eq : Equality ResourceType
resource_type_eq = record { equals = resource_type_beq; equals_iff = resource_type_beq_iff }

abbrev document_status_ordinal : DocumentStatus → ℕ
document_status_ordinal DocumentStatus.draft = 0
document_status_ordinal DocumentStatus.active = 1
document_status_ordinal DocumentStatus.under_review = 2
document_status_ordinal DocumentStatus.approved = 3
document_status_ordinal DocumentStatus.signed = 4
document_status_ordinal DocumentStatus.final = 5
document_status_ordinal DocumentStatus.archived = 6
document_status_ordinal DocumentStatus.deleted = 7

abbrev pub document_status_beq : DocumentStatus → DocumentStatus → Bool
document_status_beq a b = nat_beq (document_status_ordinal a) (document_status_ordinal b)

pub document_status_beq_iff : (a b : DocumentStatus) → (document_status_beq a b ≡ true) ↔ (a ≡ b)
document_status_beq_iff a b = ground arith

instance abbrev pub document_status_eq : Equality DocumentStatus
document_status_eq = record { equals = document_status_beq; equals_iff = document_status_beq_iff }

abbrev integrity_status_ordinal : IntegrityStatus → ℕ
integrity_status_ordinal IntegrityStatus.verified = 0
integrity_status_ordinal IntegrityStatus.modified = 1
integrity_status_ordinal IntegrityStatus.unknown = 2

abbrev pub integrity_status_beq : IntegrityStatus → IntegrityStatus → Bool
integrity_status_beq a b = nat_beq (integrity_status_ordinal a) (integrity_status_ordinal b)

pub integrity_status_beq_iff : (a b : IntegrityStatus) → (integrity_status_beq a b ≡ true) ↔ (a ≡ b)
integrity_status_beq_iff a b = ground arith

instance abbrev pub integrity_status_eq : Equality IntegrityStatus
integrity_status_eq = record {
  equals = integrity_status_beq;
  equals_iff = integrity_status_beq_iff;
}

abbrev evidence_status_ordinal : EvidenceStatus → ℕ
evidence_status_ordinal EvidenceStatus.registered = 0
evidence_status_ordinal EvidenceStatus.sealed = 1
evidence_status_ordinal EvidenceStatus.verified = 2
evidence_status_ordinal EvidenceStatus.in_custody = 3
evidence_status_ordinal EvidenceStatus.in_transit = 4
evidence_status_ordinal EvidenceStatus.received = 5
evidence_status_ordinal EvidenceStatus.under_analysis = 6
evidence_status_ordinal EvidenceStatus.returned = 7
evidence_status_ordinal EvidenceStatus.archived = 8

abbrev pub evidence_status_beq : EvidenceStatus → EvidenceStatus → Bool
evidence_status_beq a b = nat_beq (evidence_status_ordinal a) (evidence_status_ordinal b)

pub evidence_status_beq_iff : (a b : EvidenceStatus) → (evidence_status_beq a b ≡ true) ↔ (a ≡ b)
evidence_status_beq_iff a b = ground arith

instance abbrev pub evidence_status_eq : Equality EvidenceStatus
evidence_status_eq = record { equals = evidence_status_beq; equals_iff = evidence_status_beq_iff }

abbrev custody_action_ordinal : CustodyAction → ℕ
custody_action_ordinal CustodyAction.register = 0
custody_action_ordinal CustodyAction.seal = 1
custody_action_ordinal CustodyAction.transfer_request = 2
custody_action_ordinal CustodyAction.receive = 3
custody_action_ordinal CustodyAction.analyze = 4
custody_action_ordinal CustodyAction.hand_back = 5
custody_action_ordinal CustodyAction.archive = 6

abbrev pub custody_action_beq : CustodyAction → CustodyAction → Bool
custody_action_beq a b = nat_beq (custody_action_ordinal a) (custody_action_ordinal b)

pub custody_action_beq_iff : (a b : CustodyAction) → (custody_action_beq a b ≡ true) ↔ (a ≡ b)
custody_action_beq_iff a b = ground arith

instance abbrev pub custody_action_eq : Equality CustodyAction
custody_action_eq = record { equals = custody_action_beq; equals_iff = custody_action_beq_iff }

abbrev custody_status_ordinal : CustodyStatus → ℕ
custody_status_ordinal CustodyStatus.pending = 0
custody_status_ordinal CustodyStatus.acknowledged = 1
custody_status_ordinal CustodyStatus.completed = 2
custody_status_ordinal CustodyStatus.rejected = 3

abbrev pub custody_status_beq : CustodyStatus → CustodyStatus → Bool
custody_status_beq a b = nat_beq (custody_status_ordinal a) (custody_status_ordinal b)

pub custody_status_beq_iff : (a b : CustodyStatus) → (custody_status_beq a b ≡ true) ↔ (a ≡ b)
custody_status_beq_iff a b = ground arith

instance abbrev pub custody_status_eq : Equality CustodyStatus
custody_status_eq = record { equals = custody_status_beq; equals_iff = custody_status_beq_iff }

abbrev approval_status_ordinal : ApprovalStatus → ℕ
approval_status_ordinal ApprovalStatus.pending = 0
approval_status_ordinal ApprovalStatus.approved = 1
approval_status_ordinal ApprovalStatus.rejected = 2
approval_status_ordinal ApprovalStatus.revision_requested = 3

abbrev pub approval_status_beq : ApprovalStatus → ApprovalStatus → Bool
approval_status_beq a b = nat_beq (approval_status_ordinal a) (approval_status_ordinal b)

pub approval_status_beq_iff : (a b : ApprovalStatus) → (approval_status_beq a b ≡ true) ↔ (a ≡ b)
approval_status_beq_iff a b = ground arith

instance abbrev pub approval_status_eq : Equality ApprovalStatus
approval_status_eq = record { equals = approval_status_beq; equals_iff = approval_status_beq_iff }

abbrev audit_result_ordinal : AuditResult → ℕ
audit_result_ordinal AuditResult.success = 0
audit_result_ordinal AuditResult.failure = 1

abbrev pub audit_result_beq : AuditResult → AuditResult → Bool
audit_result_beq a b = nat_beq (audit_result_ordinal a) (audit_result_ordinal b)

pub audit_result_beq_iff : (a b : AuditResult) → (audit_result_beq a b ≡ true) ↔ (a ≡ b)
audit_result_beq_iff a b = ground arith

instance abbrev pub audit_result_eq : Equality AuditResult
audit_result_eq = record { equals = audit_result_beq; equals_iff = audit_result_beq_iff }

abbrev severity_ordinal : Severity → ℕ
severity_ordinal Severity.low = 0
severity_ordinal Severity.medium = 1
severity_ordinal Severity.high = 2
severity_ordinal Severity.critical = 3

abbrev pub severity_beq : Severity → Severity → Bool
severity_beq a b = nat_beq (severity_ordinal a) (severity_ordinal b)

pub severity_beq_iff : (a b : Severity) → (severity_beq a b ≡ true) ↔ (a ≡ b)
severity_beq_iff a b = ground arith

instance abbrev pub severity_eq : Equality Severity
severity_eq = record { equals = severity_beq; equals_iff = severity_beq_iff }
