-- ===== src/Documents/RoundTrip.antt =====
-- What is uploaded can be downloaded again.
use secure_document_manageme.Prelude.{
  ℕ, suc, String, ◌≡◌, refl, Option, none, some, List, length, find?, ◌==◌, true, ==_refl,
  string_eq, list_eq, nat_eq,
}
use secure_document_manageme.Ledger.{Bytes}
use secure_document_manageme.Db.{World, Document, DocumentVersion, Case, Account}
use secure_document_manageme.Service.{Platform, User, Result, ok, err, with_transaction}
use secure_document_manageme.Crypto.{aes_iv_bytes, aes_auth_tag_bytes, hash_sha256}
use secure_document_manageme.Crypto.Envelope.{decrypt-encrypt}
use secure_document_manageme.Storage
use secure_document_manageme.AuditLedger
use secure_document_manageme.Evidence.Lifecycle.{Upload}
use secure_document_manageme.Evidence.Integrity.{stored_plaintext}
use secure_document_manageme.Documents.Repository.{
  Duplicate, type_exists, check_document_keys, insert_document, find_document_by_id,
  update_document_current_version, insert_document_version, find_version_by_id,
  update_version_integrity_status,
}
use secure_document_manageme.Documents.Versions.{
  document_key, store_document, upload_new_document, download_version,
}

-- An upload that returned a document whose current version a reader can download as the file.
abbrev pub IsReadable :
    Platform
    → User
    → Option String
    → Upload
    → Result (Document × DocumentVersion × List Duplicate) × World
    → Type 0
IsReadable p reader ip file (err e, w) = ⊥
IsReadable p reader ip file (ok (doc, version, duplicates), w) =
    (download_version p reader doc.id none ip w).0
    ≡ ok (file.buffer, file.originalname, file.mimetype)

-- With an IV of 12 bytes, a tag of 16, and an AES that opens what it has sealed under the same key
-- and IV: uploading a new document into a case that exists, by a user who exists and with no document
-- type or one that exists, returns a document, and a download of its current version right after it
-- returns the bytes, the name and the type of the file.
pub upload_new_document-IsReadable :
    (p : Platform)
    → ((n : ℕ) → length (p.random_iv n) ≡ aes_iv_bytes)
    → ((k iv m : Bytes) → length (p.aes_seal k iv m).0 ≡ aes_auth_tag_bytes)
    → ((k iv m : Bytes) → p.aes_open k iv (p.aes_seal k iv m).0 (p.aes_seal k iv m).1 ≡ some m)
    → (actor reader : User) (case_id : String) (document_type_id : Option String) (title : String)
      (description ip : Option String) (file : Upload) (w : World) (c : Case) (owner : Account)
    → find? (λ c. c.id == case_id) w.cases ≡ some c
    → find? (λ u. u.id == actor.id) w.users ≡ some owner
    → type_exists document_type_id w.document_types ≡ true
    → IsReadable p reader ip file
        (upload_new_document p actor case_id document_type_id title description file w)
unfolding upload_new_document store_document Storage.put Storage.get insert_document
    check_document_keys insert_document_version update_document_current_version find_document_by_id
    find_version_by_id update_version_integrity_status stored_plaintext hash_sha256 download_version
    with_transaction AuditLedger.append_event
upload_new_document-IsReadable p iv12 tag16 opens actor reader case_id document_type_id title
      description ip file w c owner in_case owned typed =
    let doc_id : String = p.uuid (suc w.drawn) in
    let version_id : String = p.uuid (suc (suc w.drawn)) in
    let key : String = document_key case_id (p.uuid w.drawn) in
    rw (in_case, owned, typed, ==_refl doc_id)
      (rw (==_refl doc_id) (
        rw (==_refl version_id) (
          rw (==_refl doc_id) (
            rw (==_refl key) (
              rw (decrypt-encrypt p iv12 tag16 opens file.buffer p.master_key w.drawn)
                (rw (==_refl (p.sha256 file.buffer)) refl))))))
