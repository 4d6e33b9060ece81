-- ===== src/Signatures/Respond.antt =====
-- Answers to a signature request.
use secure_document_manageme.Prelude.{String, ◌≡◌, some, string_eq, option_eq}
use secure_document_manageme.Ledger.{Bytes}
use secure_document_manageme.Db.{
  World, Document, DocumentVersion, UserKey, DocumentSignature, SignatureStatus,
  signature_status_eq,
}
use secure_document_manageme.Service.{Platform, User, Result, ok, err}
use secure_document_manageme.AuditLedger
use secure_document_manageme.Crypto.{decrypt}
use secure_document_manageme.Crypto.Rsa.{Rsa, sign_rsa}
use secure_document_manageme.Documents.Repository.{find_document_by_id, find_version_by_id}
use secure_document_manageme.Signatures.Repository.{
  fulfil, find_signature_by_id, find_active_user_key,
}
use secure_document_manageme.Signatures.Service.{Signing}

module _ (p : Platform) (r : Rsa) (actor : User) where
  -- What a signature of a version is made from.
  pub record IsSigning (w : World) (v : DocumentVersion) (s : Signing) : Type 0 where
    pub key : UserKey
    pub active : find_active_user_key actor.id w ≡ some key
    pub private_key_pem : Bytes
    pub unlocked : decrypt p key.private_key_envelope p.master_key ≡ ok private_key_pem
    pub signs : sign_rsa r v.sha256_hash private_key_pem ≡ ok s.signature
    pub key_id : s.key_id ≡ key.id
    pub version_id : s.version_id ≡ v.id
    pub hash : s.hash ≡ v.sha256_hash

  -- A request that the actor may answer.
  pub record IsAsked (id : String) (w : World) (row : DocumentSignature) : Type 0 where
    pub found : find_signature_by_id id w ≡ some row
    pub waiting : row.status ≡ SignatureStatus.pending
    pub signer : row.signer_id ≡ actor.id

  -- What a request that was fulfilled has found, and the row that it leaves.
  pub record Fulfilled (id : String) (w : World) (s : DocumentSignature) : Type 0 where
    pub row : DocumentSignature
    pub asked : IsAsked id w row
    pub document : Document
    pub about : find_document_by_id row.document_id w ≡ some document
    pub current : document.current_version_id ≡ some row.document_version_id
    pub version : DocumentVersion
    pub listed : find_version_by_id row.document_version_id w ≡ some version
    pub signing : Signing
    pub signed : IsSigning w version signing
    pub result : s ≡ fulfil signing.key_id signing.hash signing.signature signing.code w.now row

  abbrev pub FulfillOutcome : String → World → Result DocumentSignature × World → Type 0
  FulfillOutcome id w (ok s, w') = Fulfilled id w s × (find_signature_by_id id w' ≡ some s)
  FulfillOutcome id w (err e, w') = w'.db ≡ w.db
