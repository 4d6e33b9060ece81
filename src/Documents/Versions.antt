-- ===== src/Documents/Versions.antt =====
-- apps/api/src/modules/documents/documents.service.js: uploads, restoration and downloads.
use Prim.Native.String.{◌++◌ as str_append}
use secure_document_manageme.Prelude.{
  ℕ, String, not, Option, none, some, List, [], ◌∷◌, ◌++◌, ◌+◌, ◌==◌, string_eq, list_eq, nat_eq,
  if◌then◌else◌,
}
use secure_document_manageme.Ledger.{Bytes}
use secure_document_manageme.Canonical.{Json, codes, str, text}
use secure_document_manageme.Canonical.Print.{print_nat}
use secure_document_manageme.Db.{
  Document, DocumentStatus, document_status_eq, DocumentVersion, IntegrityStatus, Severity, failure,
}
use secure_document_manageme.Service.{
  Service, Platform, User, HttpError, http_error, internal_error, ◌>>=◌, ◌>>◌, or_throw, throw,
  throw_if, gets, pure, with_transaction, new_uuid,
}
use secure_document_manageme.Entries.{audit_entry, object, raise_security_event}
use secure_document_manageme.AuditLedger
use secure_document_manageme.AuditLedger.{text_or_null}
use secure_document_manageme.Crypto.{hash_sha256, encrypt}
use secure_document_manageme.Storage
use secure_document_manageme.Evidence.Lifecycle.{Upload}
use secure_document_manageme.Evidence.Integrity.{stored_plaintext}
use secure_document_manageme.Documents.Repository.{
  NewVersion, Duplicate, insert_document, find_document_by_id, update_document_current_version,
  insert_document_version, find_version_by_id, find_latest_version_for_document,
  update_version_integrity_status, find_versions_by_hash_in_case,
}

abbrev pub document_not_found : HttpError
document_not_found = http_error 404 "NOT_FOUND"

abbrev pub version_not_found : HttpError
version_not_found = http_error 404 "NOT_FOUND"

-- `documents/${caseId}/${randomUUID()}.enc`
abbrev pub document_key : String → String → String
document_key case_id uuid =
    str_append "documents/" (str_append case_id (str_append "/" (str_append uuid ".enc")))

-- `${n}.0`
abbrev pub version_text : ℕ → Bytes
unfolding print_nat
version_text n = print_nat n ++ codes ".0"

-- `changeNote || null`
abbrev note_or_null : Option String → Option String
note_or_null none = none
note_or_null (some s) = if s == "" then none else some s

abbrev note_codes : Option String → Option Bytes
note_codes none = none
note_codes (some s) = some (codes s)

-- `versionId || document.current_version_id`
abbrev pub version_or_current : Option String → Document → Option String
version_or_current none d = d.current_version_id
version_or_current (some s) d = if s == "" then d.current_version_id else some s

abbrev pub created_metadata : ℕ → Bytes → Option String → Upload → Json
created_metadata number hash change_note file = object (
    ("versionNumber", str (version_text number))
    ∷ ("fileName", text file.originalname)
    ∷ ("sha256Hash", str hash)
    ∷ ("changeNote", text_or_null (note_or_null change_note))
    ∷ [])

abbrev pub restored_metadata : String → ℕ → DocumentVersion → Json
restored_metadata version_id number target = object (
    ("restoredFromVersionId", text version_id)
    ∷ ("restoredFromVersionNumber", str (version_text target.version_number))
    ∷ ("newVersionNumber", str (version_text number))
    ∷ [])

module _ (p : Platform) where
  -- The file encrypted and stored, before the transaction; returns the storage key.
  unfoldable pub store_document : String → Upload → Service String
  unfolding encrypt Storage.put
  store_document case_id file = do
    n ← gets (λ w. w.drawn)
    uuid ← new_uuid p
    let storage_key = document_key case_id uuid
    Storage.put storage_key (encrypt p file.buffer p.master_key n)
    pure storage_key

  -- The version that an uploaded file becomes.
  abbrev pub uploaded : User → String → ℕ → String → Option String → Upload → NewVersion
  uploaded actor document_id version_number storage_key change_note file = record {
    document_id = document_id;
    version_number = version_number;
    storage_key = storage_key;
    sha256_hash = p.sha256 file.buffer;
    file_name = file.originalname;
    mime_type = file.mimetype;
    size_bytes = file.size;
    encryption_version = "1";
    key_id = p.encryption_key_id;
    change_note = note_codes change_note;
    created_by = actor.id;
  }

  unfoldable pub upload_new_document :
      User
      → String
      → Option String
      → String
      → Option String
      → Upload
      → Service (Document × DocumentVersion × List Duplicate)
  unfolding hash_sha256 find_versions_by_hash_in_case store_document insert_document
      insert_document_version update_document_current_version AuditLedger.append_event
      with_transaction
  upload_new_document actor case_id document_type_id title description file = do
    let hash = hash_sha256 p file.buffer
    duplicates ← gets (find_versions_by_hash_in_case case_id hash none)
    storage_key ← store_document case_id file
    with_transaction (do
      doc ←
          insert_document p case_id document_type_id title description actor.id
            DocumentStatus.active
      ver ← insert_document_version p (uploaded actor doc.id 1 storage_key none file)
      update_document_current_version doc.id ver.id
      AuditLedger.append_event p
          (record (audit_entry actor.id "DOCUMENT_UPLOAD" "DOCUMENT" doc.id (some case_id)) {
            metadata = object (
                ("title", text title)
                ∷ ("fileName", text file.originalname)
                ∷ ("sha256Hash", str hash)
                ∷ ("versionNumber", text "1.0")
                ∷ []);
          })
      pure (record doc { current_version_id = some ver.id }, ver, duplicates))

  -- The transaction of a new version and of a restoration: the row, the document's pointer to it,
  -- and an audit event.
  unfoldable pub add_version :
      User → Document → NewVersion → String → Json → Service DocumentVersion
  unfolding insert_document_version update_document_current_version AuditLedger.append_event
      with_transaction
  add_version actor document row action metadata = with_transaction (do
    ver ← insert_document_version p row
    update_document_current_version row.document_id ver.id
    AuditLedger.append_event p
        (record (audit_entry actor.id action "DOCUMENT" row.document_id (some document.case_id)) {
          metadata = metadata;
        })
    pure ver)

  -- `latest.version_number` of no version at all is a TypeError.
  unfoldable pub upload_new_version :
      User → String → Upload → Option String → Service (DocumentVersion × List Duplicate)
  unfolding find_document_by_id hash_sha256 find_versions_by_hash_in_case store_document
      find_latest_version_for_document add_version
  upload_new_version actor document_id file change_note = do
    document ← or_throw (← gets (find_document_by_id document_id)) document_not_found
    throw_if (document.status == DocumentStatus.deleted) (http_error 409 "CONFLICT")
    let hash = hash_sha256 p file.buffer
    duplicates ← gets (find_versions_by_hash_in_case document.case_id hash (some document_id))
    storage_key ← store_document document.case_id file
    latest ← or_throw (← gets (find_latest_version_for_document document_id)) internal_error
    let number = latest.version_number + 1
    version ←
        add_version actor document (uploaded actor document_id number storage_key change_note file)
          "VERSION_CREATED" (created_metadata number hash change_note file)
    pure (version, duplicates)

  -- The version that a restoration of `target` inserts.
  abbrev pub restored : User → String → ℕ → DocumentVersion → NewVersion
  restored actor document_id version_number target = record {
    document_id = document_id;
    version_number = version_number;
    storage_key = target.storage_key;
    sha256_hash = target.sha256_hash;
    file_name = target.file_name;
    mime_type = target.mime_type;
    size_bytes = target.size_bytes;
    encryption_version = target.encryption_version;
    key_id = target.key_id;
    change_note = some (codes "Restored from version " ++ version_text target.version_number);
    created_by = actor.id;
  }

  unfoldable pub restore_version : User → String → String → Service DocumentVersion
  unfolding find_document_by_id find_version_by_id find_latest_version_for_document add_version
  restore_version actor document_id version_id = do
    document ← or_throw (← gets (find_document_by_id document_id)) document_not_found
    target ← or_throw (← gets (find_version_by_id version_id)) version_not_found
    throw_if (not (target.document_id == document_id)) version_not_found
    latest ← or_throw (← gets (find_latest_version_for_document document_id)) internal_error
    let number = latest.version_number + 1
    add_version actor document (restored actor document_id number target) "VERSION_RESTORED"
        (restored_metadata version_id number target)

  abbrev access_metadata : DocumentVersion → List (String × Json) → Json
  access_metadata v more =
      object
        (("versionId", text v.id) ∷ ("versionNumber", str (version_text v.version_number)) ∷ more)

  -- The plaintext, or a failure that has been recorded.
  unfoldable pub download_version :
      User → String → Option String → Option String → Service (Bytes × String × String)
  unfolding find_document_by_id find_version_by_id stored_plaintext hash_sha256 raise_security_event
      update_version_integrity_status AuditLedger.append_event with_transaction
  download_version actor document_id version_id ip_address = do
    document ← or_throw (← gets (find_document_by_id document_id)) document_not_found
    wanted ← or_throw (version_or_current version_id document) version_not_found
    version ← or_throw (← gets (find_version_by_id wanted)) version_not_found
    throw_if (not (version.document_id == document_id)) version_not_found
    plaintext ← stored_plaintext p version.storage_key
    (if hash_sha256 p plaintext == version.sha256_hash
        then (with_transaction (
              update_version_integrity_status version.id IntegrityStatus.verified
              >> AuditLedger.append_event p
                  (record (audit_entry actor.id "DOCUMENT_ACCESS" "DOCUMENT" document_id
                    (some document.case_id)) {
                      ip_address = ip_address;
                      metadata = access_metadata version [];
                    }))
            >> pure (plaintext, version.file_name, version.mime_type))
        else (with_transaction (
              update_version_integrity_status version.id IntegrityStatus.modified
              >> (raise_security_event p "INTEGRITY_FAILURE" Severity.critical (some actor.id)
                    (some "DOCUMENT") (some document_id)
                  >> AuditLedger.append_event p
                      (record (audit_entry actor.id "DOCUMENT_ACCESS" "DOCUMENT" document_id
                        (some document.case_id)) {
                          result = failure;
                          ip_address = ip_address;
                          metadata =
                              access_metadata version (("reason", text "INTEGRITY_FAILURE") ∷ []);
                        })))
            >> throw (http_error 409 "INTEGRITY_FAILURE")))
