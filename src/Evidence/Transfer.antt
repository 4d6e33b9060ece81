-- ===== src/Evidence/Transfer.antt =====
-- apps/api/src/modules/evidence/evidence.service.js: the hand-over of an item from one custodian to
-- another.
use secure_document_manageme.Prelude.{
  String, true, not, Option, none, some, [], ◌∷◌, ◌==◌, string_eq, option_eq, if◌then◌else◌,
}
use secure_document_manageme.Canonical.{text}
use secure_document_manageme.Db.{
  Evidence, EvidenceStatus, CustodyRow, CustodyAction, CustodyStatus, Severity, failure,
}
use secure_document_manageme.Service.{
  Service, Platform, User, http_error, throw, ◌>>=◌, ◌>>◌, or_throw, throw_if, gets, pure,
  with_transaction,
}
use secure_document_manageme.Entries.{
  or_null, audit_entry, custody_entry, object, raise_security_event,
}
use secure_document_manageme.AuditLedger
use secure_document_manageme.AuditLedger.{text_or_null}
use secure_document_manageme.CustodyLedger
use secure_document_manageme.PermissionEngine.{is_case_member}
use secure_document_manageme.Evidence.Repository.{
  find_evidence_by_id, list_artifacts_for_evidence, update_evidence_state,
  find_latest_pending_transfer,
}
use secure_document_manageme.Evidence.Lifecycle.{
  evidence_not_found, assert_legal_transition, assert_is_current_custodian,
}
use secure_document_manageme.Evidence.Integrity.{all_matches, check_artifacts, record_integrity}

abbrev or_default : Option String → String → String
or_default none d = d
or_default (some s) d = if s == "" then d else s

unfoldable pub load_pending_transfer : String → String → User → Service (Evidence × CustodyRow)
unfolding find_evidence_by_id find_latest_pending_transfer
load_pending_transfer evidence_id transfer_id actor = do
  row ← or_throw (← gets (find_evidence_by_id evidence_id)) evidence_not_found
  transfer ←
      or_throw (← gets (find_latest_pending_transfer evidence_id)) (http_error 404 "NOT_FOUND")
  throw_if (not (transfer.id == transfer_id)) (http_error 404 "NOT_FOUND")
  throw_if (not (transfer.to_user_id == some actor.id)) (http_error 403 "NOT_RECIPIENT")
  pure (row, transfer)

module _ (p : Platform) where
  -- Returns the id of the custody event, which is the transfer's id.
  unfoldable pub request_transfer :
      User → String → String → Option String → Option String → Service String
  unfolding find_evidence_by_id is_case_member update_evidence_state CustodyLedger.append_event
      AuditLedger.append_event with_transaction
  request_transfer actor evidence_id to_user_id reason to_location = do
    row ← or_throw (← gets (find_evidence_by_id evidence_id)) evidence_not_found
    assert_is_current_custodian row actor
    assert_legal_transition row.status EvidenceStatus.in_transit
    throw_if (to_user_id == actor.id) (http_error 400 "INVALID_RECIPIENT")
    eligible ← gets (is_case_member to_user_id row.case_id)
    throw_if (not eligible) (http_error 400 "INELIGIBLE_CUSTODIAN")
    with_transaction (do
      update_evidence_state evidence_id EvidenceStatus.in_transit none none
      event ←
          CustodyLedger.append_event p
            (record (custody_entry evidence_id actor.id CustodyAction.transfer_request
              CustodyStatus.pending) {
                to_user_id = some to_user_id;
                reason = or_null reason;
                from_location = row.current_location;
                to_location = or_null to_location;
              })
      AuditLedger.append_event p
          (record (audit_entry actor.id "EVIDENCE_TRANSFER_REQUESTED" "EVIDENCE" evidence_id
            (some row.case_id)) {
              metadata = object (
                  ("toUserId", text to_user_id)
                  ∷ ("reason", text_or_null (or_null reason))
                  ∷ ("custodyEventId", text event.id)
                  ∷ []);
            })
      pure event.id)

  -- All artifacts match: the recipient becomes the custodian.
  unfoldable pub complete_transfer :
      User → String → String → Evidence → CustodyRow → Service (Option Evidence)
  unfolding find_evidence_by_id update_evidence_state CustodyLedger.append_event
      AuditLedger.append_event
  complete_transfer actor evidence_id transfer_id row transfer = do
    update_evidence_state evidence_id EvidenceStatus.received (some actor.id) transfer.to_location
    CustodyLedger.append_event p
        (record (custody_entry evidence_id actor.id CustodyAction.receive CustodyStatus.completed) {
          from_user_id = transfer.from_user_id;
          integrity_verified = true;
          from_location = transfer.from_location;
          to_location = transfer.to_location;
        })
    AuditLedger.append_event p
        (record (audit_entry actor.id "EVIDENCE_TRANSFER" "EVIDENCE" evidence_id
          (some row.case_id)) {
            metadata = object (
                ("transferId", text transfer_id)
                ∷ ("fromUserId", text_or_null transfer.from_user_id)
                ∷ []);
          })
    gets (find_evidence_by_id evidence_id)

  -- Some artifact does not match: the refusal is recorded, and the item stays where it is.
  unfoldable pub block_transfer :
      User → String → String → Evidence → CustodyRow → Service (Unit {0})
  unfolding raise_security_event CustodyLedger.append_event AuditLedger.append_event
  block_transfer actor evidence_id transfer_id row transfer = do
    CustodyLedger.append_event p
        (record (custody_entry evidence_id actor.id CustodyAction.receive CustodyStatus.rejected) {
          from_user_id = transfer.from_user_id;
          reason = some "Integrity check failed on receipt.";
          from_location = transfer.from_location;
          to_location = transfer.to_location;
        })
    raise_security_event p "CUSTODY_VIOLATION" Severity.critical (some actor.id) (some "EVIDENCE")
        (some evidence_id)
    AuditLedger.append_event p
        (record (audit_entry actor.id "EVIDENCE_TRANSFER" "EVIDENCE" evidence_id
          (some row.case_id)) {
            result = failure;
            metadata =
                object
                  (("transferId", text transfer_id) ∷ ("reason", text "CUSTODY_VIOLATION") ∷ []);
          })
    pure tt

  unfoldable pub accept_transfer : User → String → String → Service (Option Evidence)
  unfolding load_pending_transfer list_artifacts_for_evidence check_artifacts record_integrity
      complete_transfer block_transfer with_transaction
  accept_transfer actor evidence_id transfer_id = do
    loaded ← load_pending_transfer evidence_id transfer_id actor
    artifacts ← gets (list_artifacts_for_evidence evidence_id)
    results ← check_artifacts p artifacts
    (if all_matches results
        then with_transaction (
            record_integrity results
            >> complete_transfer actor evidence_id transfer_id loaded.0 loaded.1)
        else (with_transaction (
              record_integrity results
              >> block_transfer actor evidence_id transfer_id loaded.0 loaded.1)
            >> throw (http_error 409 "CUSTODY_VIOLATION")))

  unfoldable pub reject_transfer :
      User → String → String → Option String → Service (Option Evidence)
  unfolding load_pending_transfer find_evidence_by_id update_evidence_state
      CustodyLedger.append_event AuditLedger.append_event with_transaction
  reject_transfer actor evidence_id transfer_id reason = do
    loaded ← load_pending_transfer evidence_id transfer_id actor
    let row = loaded.0
    let transfer = loaded.1
    with_transaction (do
      update_evidence_state evidence_id EvidenceStatus.in_custody transfer.from_user_id
          transfer.from_location
      CustodyLedger.append_event p
          (record (custody_entry evidence_id actor.id CustodyAction.receive
            CustodyStatus.rejected) {
              from_user_id = transfer.from_user_id;
              reason = some (or_default reason "Declined by recipient.");
              from_location = transfer.from_location;
              to_location = transfer.to_location;
            })
      AuditLedger.append_event p
          (record (audit_entry actor.id "EVIDENCE_TRANSFER_REJECTED" "EVIDENCE" evidence_id
            (some row.case_id)) {
              metadata = object (
                  ("transferId", text transfer_id)
                  ∷ ("reason", text_or_null (or_null reason))
                  ∷ []);
            })
      gets (find_evidence_by_id evidence_id))
