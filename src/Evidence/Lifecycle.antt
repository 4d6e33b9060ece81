-- ===== src/Evidence/Lifecycle.antt =====
-- apps/api/src/modules/evidence/evidence.service.js: the transition table, registration, and the
-- operations that move an item along without a second person.
use Prim.Native.String.{◌++◌ as str_append}
use secure_document_manageme.Prelude.{
  ℕ, String, true, not, Option, none, some, List, [], ◌∷◌, ◌==◌, string_eq, contains,
}
use secure_document_manageme.Ledger.{Bytes}
use secure_document_manageme.Canonical.{str, text}
use secure_document_manageme.Db.{
  Evidence, EvidenceStatus, evidence_status_eq, EvidenceArtifact, CustodyAction, CustodyStatus,
}
use secure_document_manageme.Service.{
  Service, Platform, User, HttpError, http_error, ◌>>=◌, ◌>>◌, or_throw, throw_if, gets, pure,
  with_transaction, new_uuid,
}
use secure_document_manageme.Entries.{or_null, audit_entry, custody_entry, object}
use secure_document_manageme.AuditLedger
use secure_document_manageme.CustodyLedger
use secure_document_manageme.Crypto.{hash_sha256, encrypt}
use secure_document_manageme.Storage
use secure_document_manageme.Evidence.Repository.{
  next_evidence_number, find_evidence_by_id, insert_evidence, insert_artifact,
  update_evidence_state,
}

-- An uploaded file, as middleware/upload.js leaves it.
pub record Upload : Type 0 where
  pub buffer : Bytes
  pub originalname : String
  pub mimetype : String
  pub size : ℕ

abbrev pub evidence_not_found : HttpError
evidence_not_found = http_error 404 "NOT_FOUND"

-- ALLOWED_TRANSITIONS
abbrev pub allowed_transitions : EvidenceStatus → List EvidenceStatus
allowed_transitions EvidenceStatus.registered = EvidenceStatus.sealed ∷ []
allowed_transitions EvidenceStatus.sealed = EvidenceStatus.in_custody ∷ []
allowed_transitions EvidenceStatus.verified = EvidenceStatus.in_custody ∷ []
allowed_transitions EvidenceStatus.in_custody =
    EvidenceStatus.in_transit ∷ EvidenceStatus.returned ∷ []
allowed_transitions EvidenceStatus.in_transit =
    EvidenceStatus.received ∷ EvidenceStatus.in_custody ∷ []
allowed_transitions EvidenceStatus.received = EvidenceStatus.under_analysis ∷ []
allowed_transitions EvidenceStatus.under_analysis = EvidenceStatus.in_custody ∷ []
allowed_transitions EvidenceStatus.returned = EvidenceStatus.archived ∷ []
allowed_transitions EvidenceStatus.archived = []

abbrev pub assert_legal_transition : EvidenceStatus → EvidenceStatus → Service (Unit {0})
assert_legal_transition from to =
    throw_if (not (contains (allowed_transitions from) to)) (http_error 409 "ILLEGAL_TRANSITION")

abbrev pub assert_is_current_custodian : Evidence → User → Service (Unit {0})
assert_is_current_custodian row actor =
    throw_if (not (row.current_custodian_id == actor.id)) (http_error 403 "NOT_CUSTODIAN")

-- `evidence/${caseId}/${randomUUID()}.enc`
abbrev pub evidence_key : String → String → String
evidence_key case_id uuid =
    str_append "evidence/" (str_append case_id (str_append "/" (str_append uuid ".enc")))

module _ (p : Platform) where
  -- The first part of an upload: hash, encrypt and store; returns the hash and the storage key.
  unfoldable pub store_upload : String → Upload → Service (Bytes × String)
  unfolding hash_sha256 encrypt Storage.put
  store_upload case_id file = do
    n ← gets (λ w. w.drawn)
    uuid ← new_uuid p
    let storage_key = evidence_key case_id uuid
    Storage.put storage_key (encrypt p file.buffer p.master_key n)
    pure (hash_sha256 p file.buffer, storage_key)

  unfoldable pub register_evidence :
      User
      → String
      → String
      → Option String
      → Option String
      → Option String
      → Upload
      → Service (Evidence × EvidenceArtifact)
  unfolding store_upload next_evidence_number insert_evidence insert_artifact
      CustodyLedger.append_event AuditLedger.append_event with_transaction
  register_evidence actor case_id title description category location file = do
    stored ← store_upload case_id file
    with_transaction (do
      number ← next_evidence_number case_id
      row ← insert_evidence p case_id number title description category actor.id location actor.id
      artifact ←
          insert_artifact p row.id stored.1 stored.0 file.originalname file.mimetype file.size
      CustodyLedger.append_event p
          (record (custody_entry row.id actor.id CustodyAction.register CustodyStatus.completed) {
            from_user_id = none;
            integrity_verified = true;
            to_location = or_null location;
          })
      AuditLedger.append_event p
          (record (audit_entry actor.id "EVIDENCE_REGISTERED" "EVIDENCE" row.id (some case_id)) {
            metadata = object (
                ("evidenceNumber", str number)
                ∷ ("title", text title)
                ∷ ("sha256Hash", str stored.0)
                ∷ []);
          })
      pure (row, artifact))

  unfoldable pub add_artifact : User → String → Upload → Service EvidenceArtifact
  unfolding find_evidence_by_id store_upload insert_artifact AuditLedger.append_event
      with_transaction
  add_artifact actor evidence_id file = do
    row ← or_throw (← gets (find_evidence_by_id evidence_id)) evidence_not_found
    assert_is_current_custodian row actor
    stored ← store_upload row.case_id file
    with_transaction (do
      artifact ←
          insert_artifact p evidence_id stored.1 stored.0 file.originalname file.mimetype file.size
      AuditLedger.append_event p
          (record (audit_entry actor.id "EVIDENCE_ARTIFACT_ADDED" "EVIDENCE" evidence_id
            (some row.case_id)) {
              metadata =
                  object (("fileName", text file.originalname) ∷ ("sha256Hash", str stored.0) ∷ []);
            })
      pure artifact)

  -- The transaction that seal, analysis, return and archive share: the new status, an event on the
  -- item's custody chain, an event on the audit ledger.
  unfoldable pub move_evidence :
      User
      → String
      → Evidence
      → EvidenceStatus
      → CustodyAction
      → CustodyStatus
      → String
      → Service (Option Evidence)
  unfolding update_evidence_state CustodyLedger.append_event AuditLedger.append_event
      with_transaction
  move_evidence actor evidence_id row status action outcome audit_action = with_transaction (do
    updated ← update_evidence_state evidence_id status none none
    CustodyLedger.append_event p (custody_entry evidence_id actor.id action outcome)
    AuditLedger.append_event p
        (audit_entry actor.id audit_action "EVIDENCE" evidence_id (some row.case_id))
    pure updated)

  unfoldable pub seal_evidence : User → String → Service (Option Evidence)
  unfolding find_evidence_by_id move_evidence
  seal_evidence actor evidence_id = do
    row ← or_throw (← gets (find_evidence_by_id evidence_id)) evidence_not_found
    assert_is_current_custodian row actor
    assert_legal_transition row.status EvidenceStatus.sealed
    move_evidence actor evidence_id row EvidenceStatus.sealed CustodyAction.seal
        CustodyStatus.completed "EVIDENCE_SEALED"

  unfoldable pub start_analysis : User → String → Service (Option Evidence)
  unfolding find_evidence_by_id move_evidence
  start_analysis actor evidence_id = do
    row ← or_throw (← gets (find_evidence_by_id evidence_id)) evidence_not_found
    assert_is_current_custodian row actor
    assert_legal_transition row.status EvidenceStatus.under_analysis
    move_evidence actor evidence_id row EvidenceStatus.under_analysis CustodyAction.analyze
        CustodyStatus.pending "EVIDENCE_ANALYSIS_STARTED"

  unfoldable pub complete_analysis : User → String → Service (Option Evidence)
  unfolding find_evidence_by_id move_evidence
  complete_analysis actor evidence_id = do
    row ← or_throw (← gets (find_evidence_by_id evidence_id)) evidence_not_found
    assert_is_current_custodian row actor
    assert_legal_transition row.status EvidenceStatus.in_custody
    move_evidence actor evidence_id row EvidenceStatus.in_custody CustodyAction.analyze
        CustodyStatus.completed "EVIDENCE_ANALYSIS_COMPLETED"

  unfoldable pub return_evidence : User → String → Service (Option Evidence)
  unfolding find_evidence_by_id move_evidence
  return_evidence actor evidence_id = do
    row ← or_throw (← gets (find_evidence_by_id evidence_id)) evidence_not_found
    assert_is_current_custodian row actor
    assert_legal_transition row.status EvidenceStatus.returned
    move_evidence actor evidence_id row EvidenceStatus.returned CustodyAction.hand_back
        CustodyStatus.completed "EVIDENCE_RETURNED"

  -- Archiving does not ask for the current custodian.
  unfoldable pub archive_evidence : User → String → Service (Option Evidence)
  unfolding find_evidence_by_id move_evidence
  archive_evidence actor evidence_id = do
    row ← or_throw (← gets (find_evidence_by_id evidence_id)) evidence_not_found
    assert_legal_transition row.status EvidenceStatus.archived
    move_evidence actor evidence_id row EvidenceStatus.archived CustodyAction.archive
        CustodyStatus.completed "EVIDENCE_ARCHIVED"
