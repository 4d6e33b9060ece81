-- ===== src/Evidence/RoundTrip.antt =====
-- What is registered can be downloaded again.
use secure_document_manageme.Prelude.{
  ℕ, suc, String, ◌≡◌, refl, Option, some, find?, length, ◌==◌, ==_refl, string_eq, list_eq, nat_eq,
}
use secure_document_manageme.Ledger.{Bytes}
use secure_document_manageme.Db.{World, Case, Evidence, EvidenceArtifact}
use secure_document_manageme.Service.{Platform, User, Result, ok, err, with_transaction}
use secure_document_manageme.Crypto.{aes_iv_bytes, aes_auth_tag_bytes, hash_sha256}
use secure_document_manageme.Crypto.Envelope.{decrypt-encrypt}
use secure_document_manageme.Storage
use secure_document_manageme.AuditLedger
use secure_document_manageme.CustodyLedger
use secure_document_manageme.Evidence.Repository.{
  next_evidence_number, insert_evidence, insert_artifact, find_evidence_by_id, find_artifact_by_id,
  update_artifact_integrity_status,
}
use secure_document_manageme.Evidence.Lifecycle.{
  Upload, evidence_key, store_upload, register_evidence,
}
use secure_document_manageme.Evidence.Integrity.{stored_plaintext, download_artifact}

-- A registration that returned an item and an artifact which a reader can download as the file.
abbrev pub IsReadable :
    Platform → User → Option String → Upload → Result (Evidence × EvidenceArtifact) × World → Type 0
IsReadable p reader ip file (err e, w) = ⊥
IsReadable p reader ip file (ok (row, artifact), w) =
    (download_artifact p reader row.id artifact.id ip w).0
    ≡ ok (file.buffer, file.originalname, file.mimetype)

-- With an IV of 12 bytes, a tag of 16, and an AES that opens what it has sealed under the same key
-- and IV: registering evidence in a case that exists returns an item and an artifact, and a download
-- of that artifact right after it returns the bytes, the name and the type of the file.
pub register_evidence-IsReadable :
    (p : Platform)
    → ((n : ℕ) → length (p.random_iv n) ≡ aes_iv_bytes)
    → ((k iv m : Bytes) → length (p.aes_seal k iv m).0 ≡ aes_auth_tag_bytes)
    → ((k iv m : Bytes) → p.aes_open k iv (p.aes_seal k iv m).0 (p.aes_seal k iv m).1 ≡ some m)
    → (actor reader : User) (case_id title : String)
      (description category location ip : Option String) (file : Upload) (w : World) (c : Case)
    → find? (λ c. c.id == case_id) w.cases ≡ some c
    → IsReadable p reader ip file
        (register_evidence p actor case_id title description category location file w)
unfolding register_evidence store_upload Storage.put Storage.get next_evidence_number
    insert_evidence insert_artifact find_evidence_by_id find_artifact_by_id
    update_artifact_integrity_status stored_plaintext hash_sha256 download_artifact with_transaction
    AuditLedger.append_event CustodyLedger.append_event
register_evidence-IsReadable p iv12 tag16 opens actor reader case_id title description category
      location ip file w c found =
    let row_id : String = p.uuid (suc w.drawn) in
    let artifact_id : String = p.uuid (suc (suc w.drawn)) in
    let key : String = evidence_key case_id (p.uuid w.drawn) in
    rw found (
      rw (==_refl row_id) (
        rw (==_refl artifact_id) (
          rw (==_refl row_id) (
            rw (==_refl key) (
              rw (decrypt-encrypt p iv12 tag16 opens file.buffer p.master_key w.drawn)
                (rw (==_refl (p.sha256 file.buffer)) refl))))))
