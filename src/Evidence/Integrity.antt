-- ===== src/Evidence/Integrity.antt =====
-- apps/api/src/modules/evidence/evidence.service.js: every check and every read re-hashes what is
-- stored.
use secure_document_manageme.Prelude.{
  ℕ, String, Bool, true, false, not, ◌&&◌, Option, none, some, List, [], ◌∷◌, ◌==◌, string_eq,
  list_eq, nat_eq, length, if◌then◌else◌,
}
use secure_document_manageme.Ledger.{Bytes}
use secure_document_manageme.Canonical.{bool, num, arr, Items, nil, cons, text}
use secure_document_manageme.Db.{
  Evidence, EvidenceStatus, evidence_status_eq, EvidenceArtifact, IntegrityStatus, Severity,
  failure,
}
use secure_document_manageme.Service.{
  Service, Platform, User, Result, http_error, throw, ◌>>=◌, ◌>>◌, or_throw, throw_if, gets, pure,
  with_transaction,
}
use secure_document_manageme.Entries.{audit_entry, object, raise_security_event}
use secure_document_manageme.AuditLedger
use secure_document_manageme.Crypto.{hash_sha256, decrypt}
use secure_document_manageme.Storage
use secure_document_manageme.Evidence.Repository.{
  find_evidence_by_id, list_artifacts_for_evidence, find_artifact_by_id, update_evidence_state,
  update_artifact_integrity_status,
}
use secure_document_manageme.Evidence.Lifecycle.{evidence_not_found}

-- An entry of `results`.
pub record CheckResult : Type 0 where
  pub artifact_id : String
  pub file_name : String
  pub matches : Bool

pub record VerifyReport : Type 0 where
  pub all_match : Bool
  pub advanced_to_in_custody : Bool
  pub artifacts : List CheckResult

abbrev pub all_matches : List CheckResult → Bool
all_matches [] = true
all_matches (r ∷ rs) = r.matches && all_matches rs

abbrev results_json : List CheckResult → Items
results_json [] = nil
results_json (r ∷ rs) =
    cons
      (object (
        ("artifactId", text r.artifact_id)
        ∷ ("fileName", text r.file_name)
        ∷ ("matches", bool r.matches)
        ∷ []))
      (results_json rs)

abbrev pub from_result : {A : Type 0} → Result A → Service A
from_result r w = (r, w)

abbrev pub integrity_of : Bool → IntegrityStatus
integrity_of true = IntegrityStatus.verified
integrity_of false = IntegrityStatus.modified

-- `Promise.all(results.map(… updateArtifactIntegrityStatus …))`
unfoldable pub record_integrity : List CheckResult → Service (Unit {0})
unfolding update_artifact_integrity_status
record_integrity [] = pure tt
record_integrity (r ∷ rs) =
    update_artifact_integrity_status r.artifact_id (integrity_of r.matches) >> record_integrity rs

module _ (p : Platform) where
  -- One stored object: fetched, decrypted and hashed again.
  unfoldable pub stored_plaintext : String → Service Bytes
  unfolding Storage.get decrypt
  stored_plaintext key = do cipher ← Storage.get key; from_result (decrypt p cipher p.master_key)

  unfoldable pub check_artifacts : List EvidenceArtifact → Service (List CheckResult)
  unfolding stored_plaintext hash_sha256
  check_artifacts [] = pure []
  check_artifacts (a ∷ rest) = do
    plaintext ← stored_plaintext a.storage_key
    results ← check_artifacts rest
    pure (
        record {
          artifact_id = a.id;
          file_name = a.file_name;
          matches = hash_sha256 p plaintext == a.sha256_hash;
        }
        ∷ results)

  abbrev is_sealed : EvidenceStatus → Bool
  is_sealed s = s == EvidenceStatus.sealed

  -- The audit event of a clean check, or the security event and the audit event of a failed one.
  unfoldable pub report_check :
      User → String → Evidence → List CheckResult → Bool → ℕ → Service (Unit {0})
  unfolding raise_security_event AuditLedger.append_event
  report_check actor evidence_id row results will_advance n =
      if all_matches results
      then (AuditLedger.append_event p
            (record (audit_entry actor.id "EVIDENCE_VERIFIED" "EVIDENCE" evidence_id
              (some row.case_id)) {
                metadata =
                    object
                      (("artifactCount", num n) ∷ ("advancedToInCustody", bool will_advance) ∷ []);
              })
          >> pure tt)
      else (raise_security_event p "INTEGRITY_FAILURE" Severity.critical (some actor.id)
            (some "EVIDENCE") (some evidence_id)
          >> (AuditLedger.append_event p
                (record (audit_entry actor.id "EVIDENCE_VERIFIED" "EVIDENCE" evidence_id
                  (some row.case_id)) {
                    result = failure;
                    metadata = object (("artifactResults", arr (results_json results)) ∷ []);
                  })
              >> pure tt))

  unfoldable pub verify_evidence : User → String → Service VerifyReport
  unfolding find_evidence_by_id list_artifacts_for_evidence check_artifacts record_integrity
      update_evidence_state report_check with_transaction
  verify_evidence actor evidence_id = do
    row ← or_throw (← gets (find_evidence_by_id evidence_id)) evidence_not_found
    artifacts ← gets (list_artifacts_for_evidence evidence_id)
    throw_if (nat_eq.equals (length artifacts) 0) (http_error 409 "CONFLICT")
    results ← check_artifacts artifacts
    let will_advance = all_matches results && is_sealed row.status
    with_transaction (do
      record_integrity results
      (if will_advance
          then (update_evidence_state evidence_id EvidenceStatus.in_custody none none >> pure tt)
          else pure tt)
      report_check actor evidence_id row results will_advance (length artifacts))
    pure (record {
      all_match = all_matches results;
      advanced_to_in_custody = will_advance;
      artifacts = results;
    })

  -- The plaintext, or a failure that has been recorded.
  unfoldable pub download_artifact :
      User → String → String → Option String → Service (Bytes × String × String)
  unfolding find_evidence_by_id find_artifact_by_id stored_plaintext hash_sha256
      raise_security_event update_artifact_integrity_status AuditLedger.append_event
      with_transaction
  download_artifact actor evidence_id artifact_id ip_address = do
    row ← or_throw (← gets (find_evidence_by_id evidence_id)) evidence_not_found
    artifact ← or_throw (← gets (find_artifact_by_id artifact_id)) (http_error 404 "NOT_FOUND")
    throw_if (not (artifact.evidence_id == evidence_id)) (http_error 404 "NOT_FOUND")
    plaintext ← stored_plaintext artifact.storage_key
    (if hash_sha256 p plaintext == artifact.sha256_hash
        then (with_transaction (
              update_artifact_integrity_status artifact.id IntegrityStatus.verified
              >> AuditLedger.append_event p
                  (record (audit_entry actor.id "EVIDENCE_ACCESS" "EVIDENCE" evidence_id
                    (some row.case_id)) {
                      ip_address = ip_address;
                      metadata = object (("artifactId", text artifact_id) ∷ []);
                    }))
            >> pure (plaintext, artifact.file_name, artifact.mime_type))
        else (with_transaction (
              update_artifact_integrity_status artifact.id IntegrityStatus.modified
              >> (raise_security_event p "INTEGRITY_FAILURE" Severity.critical (some actor.id)
                    (some "EVIDENCE") (some evidence_id)
                  >> AuditLedger.append_event p
                      (record (audit_entry actor.id "EVIDENCE_ACCESS" "EVIDENCE" evidence_id
                        (some row.case_id)) {
                          result = failure;
                          ip_address = ip_address;
                          metadata = object (
                              ("artifactId", text artifact_id)
                              ∷ ("reason", text "INTEGRITY_FAILURE")
                              ∷ []);
                        })))
            >> throw (http_error 409 "INTEGRITY_FAILURE")))
