-- ===== src/Documents/Download.antt =====
-- What a download of a version returns, and what it records when the content has changed.
use secure_document_manageme.Prelude.{
  String, ◌≡◌, refl, ◌⊎◌, inl, inr, false, Option, some, ◌∷◌, ◌==◌, ==_iff, string_eq, list_eq,
  nat_eq, Bool-cases, Option-cases, find?, find?-sound, find?-update_where,
}
use secure_document_manageme.Ledger.{Bytes}
use secure_document_manageme.Db.{
  World, Document, DocumentVersion, IntegrityStatus, SecurityEvent, Severity,
}
use secure_document_manageme.Service.{
  Platform, User, HttpError, http_error, Result, ok, err, with_transaction,
}
use secure_document_manageme.Entries.{raise_security_event}
use secure_document_manageme.AuditLedger
use secure_document_manageme.Crypto.{hash_sha256}
use secure_document_manageme.Evidence.Custody.{Opens, stored_cases}
use secure_document_manageme.Documents.Repository.{
  find_document_by_id, find_version_by_id, update_version_integrity_status,
}
use secure_document_manageme.Documents.Versions.{version_or_current, download_version}

-- The version with the column that a download sets.
abbrev pub marked : IntegrityStatus → DocumentVersion → DocumentVersion
marked status v = record v { integrity_status = status }

marked_under :
    (wanted id : String) (status : IntegrityStatus) (w : World) (v : DocumentVersion)
    → id ≡ wanted
    → find? (λ x. x.id == wanted) w.document_versions ≡ some v
    → find_version_by_id wanted (update_version_integrity_status id status w).1
      ≡ some (marked status v)
unfolding find_version_by_id update_version_integrity_status
marked_under wanted id status w v same found = rw same (
    find?-update_where (λ x. x.id == wanted) (marked status) (λ a k. k) w.document_versions v found)

marked-found :
    (wanted : String) (status : IntegrityStatus) (w : World) (v : DocumentVersion)
    → find? (λ x. x.id == wanted) w.document_versions ≡ some v
    → find_version_by_id wanted (update_version_integrity_status v.id status w).1
      ≡ some (marked status v)
marked-found wanted status w v found =
    marked_under wanted v.id status w v
      ((==_iff v.id wanted).0 (find?-sound (λ x. x.id == wanted) w.document_versions v found)) found

module _ (p : Platform) (actor : User) (id : String) (version_id ip : Option String) where
  -- The document and the version of it that is asked for, by its id or as the current one, and what
  -- its stored object opens to.
  pub record Asked (w : World) (v : DocumentVersion) (plaintext : Bytes) : Type 0 where
    pub wanted : String
    pub row : Document
    pub found : find_document_by_id id w ≡ some row
    pub chosen : version_or_current version_id row ≡ some wanted
    pub listed : find_version_by_id wanted w ≡ some v
    pub owned : v.document_id ≡ id
    pub opens : Opens p w v.storage_key plaintext

  pub record Returned (w w' : World) (plaintext : Bytes) (name type : String) : Type 0 where
    pub version : DocumentVersion
    pub asked : Asked w version plaintext
    pub hashed : hash_sha256 p plaintext ≡ version.sha256_hash
    pub named : name ≡ version.file_name
    pub typed : type ≡ version.mime_type
    pub verified :
        find_version_by_id asked.wanted w' ≡ some (marked IntegrityStatus.verified version)

  pub record Refused (w w' : World) (e : HttpError) : Type 0 where
    pub version : DocumentVersion
    pub plaintext : Bytes
    pub asked : Asked w version plaintext
    pub changed : (hash_sha256 p plaintext == version.sha256_hash) ≡ false
    pub answer : e ≡ http_error 409 "INTEGRITY_FAILURE"
    pub flagged :
        find_version_by_id asked.wanted w' ≡ some (marked IntegrityStatus.modified version)
    pub alarm : SecurityEvent
    pub alarmed : w'.security_events ≡ alarm ∷ w.security_events
    pub kind : alarm.event_type ≡ "INTEGRITY_FAILURE"
    pub severity : alarm.severity ≡ Severity.critical

  abbrev pub DownloadOutcome : World → Result (Bytes × String × String) × World → Type 0
  DownloadOutcome w (ok (plaintext, name, type), w') = Returned w w' plaintext name type
  DownloadOutcome w (err e, w') = (w' ≡ w) ⊎ Refused w w' e

  -- A download of a version, asked for by its id or as the current one, either returns bytes to which
  -- the stored object opens and which hash to the recorded hash, and marks the version as verified; or
  -- finds another hash, marks the version as modified, raises a critical security event and answers
  -- 409; or answers with an error and leaves the state as it was.
  pub download_version-DownloadOutcome :
      (w : World) → DownloadOutcome w (download_version p actor id version_id ip w)
  unfolding download_version find_document_by_id find_version_by_id raise_security_event
      update_version_integrity_status with_transaction AuditLedger.append_event
  download_version-DownloadOutcome w = elim (Option-cases (find? (λ d. d.id == id) w.documents)) [
    | inl gone ↦ rw gone (inl refl)
    | inr (row, found) ↦ elim (Option-cases (version_or_current version_id row)) [
      | inl unset ↦ rw (found, unset) (inl refl)
      | inr (wanted, chosen) ↦
          elim (Option-cases (find? (λ v. v.id == wanted) w.document_versions)) [
            | inl gone ↦ rw (found, chosen, gone) (inl refl)
            | inr (v, listed) ↦ elim (Bool-cases (v.document_id == id)) [
              | inr foreign ↦ rw (found, chosen, listed, foreign) (inl refl)
              | inl owned ↦ elim (stored_cases p v.storage_key w) [
                | inl (e, failed) ↦ rw (found, chosen, listed, owned, failed) (inl refl)
                | inr (b, opens, read) ↦
                    let asked : Asked w v b = record {
                      wanted = wanted;
                      row = row;
                      found = found;
                      chosen = chosen;
                      listed = listed;
                      owned = (==_iff v.document_id id).0 owned;
                      opens = opens;
                    } in
                    elim (Bool-cases (hash_sha256 p b == v.sha256_hash)) [
                      | inl same ↦
                          rw (found, chosen, listed, owned, read)
                            (rw same (record {
                              version = v;
                              asked = asked;
                              hashed = (==_iff (hash_sha256 p b) v.sha256_hash).0 same;
                              named = refl;
                              typed = refl;
                              verified = marked-found wanted IntegrityStatus.verified w v listed;
                            }))
                      | inr changed ↦
                          rw (found, chosen, listed, owned, read)
                            (rw changed (
                              inr (record {
                                version = v;
                                plaintext = b;
                                asked = asked;
                                changed = changed;
                                answer = refl;
                                flagged = marked-found wanted IntegrityStatus.modified w v listed;
                                alarm = _;
                                alarmed = refl;
                                kind = refl;
                                severity = refl;
                              })))
                    ]
              ]
            ]
          ]
    ]
  ]
