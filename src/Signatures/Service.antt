-- ===== src/Signatures/Service.antt =====
-- apps/api/src/modules/signatures/signatures.service.js.
use secure_document_manageme.Prelude.{
  String, Bool, not, ◌||◌, Option, none, some, [], ◌∷◌, ◌==◌, string_eq, option_eq, if◌then◌else◌,
}
use secure_document_manageme.Ledger.{Bytes}
use secure_document_manageme.Canonical.{str, text}
use secure_document_manageme.Db.{
  Document, DocumentStatus, document_status_eq, DocumentVersion, UserKey, KeyStatus,
  DocumentSignature, SignatureStatus, signature_status_eq,
}
use secure_document_manageme.Service.{
  Service, Platform, User, http_error, internal_error, ◌>>=◌, ◌>>◌, or_throw, throw_if, gets, pure,
  with_transaction,
}
use secure_document_manageme.Entries.{or_null, audit_entry, object}
use secure_document_manageme.AuditLedger
use secure_document_manageme.AuditLedger.{text_or_null}
use secure_document_manageme.Crypto.{hash_sha256, encrypt, decrypt}
use secure_document_manageme.Crypto.Rsa.{
  Rsa, generate_rsa_key_pair, sign_rsa, generate_verification_code,
}
use secure_document_manageme.PermissionEngine.{is_case_member}
use secure_document_manageme.Evidence.Integrity.{from_result}
use secure_document_manageme.Documents.Repository.{
  find_document_by_id, find_version_by_id, mark_version_signed, update_document_status,
}
use secure_document_manageme.Documents.Versions.{document_not_found}
use secure_document_manageme.Signatures.Repository.{
  revoke_active_user_key, insert_user_key, find_active_user_key, insert_signature,
  find_signature_by_id, fulfill_signature, decline_signature,
}

-- What `toPublicKey` lets out: not the private key.
pub record PublicKey : Type 0 where
  pub id : String
  pub public_key : Bytes
  pub fingerprint : Bytes
  pub status : KeyStatus

abbrev pub to_public_key : UserKey → PublicKey
to_public_key k = record {
  id = k.id;
  public_key = k.public_key;
  fingerprint = k.fingerprint;
  status = k.status;
}

-- The document and its current version; that the version exists is the foreign key's business.
unfoldable pub load_document_and_current_version :
    String → Service (Document × Option DocumentVersion)
unfolding find_document_by_id find_version_by_id
load_document_and_current_version document_id = do
  document ← or_throw (← gets (find_document_by_id document_id)) document_not_found
  current ← or_throw document.current_version_id (http_error 409 "CONFLICT")
  version ← gets (find_version_by_id current)
  pure (document, version)

unfoldable pub load_pending_or_throw : String → User → Service DocumentSignature
unfolding find_signature_by_id
load_pending_or_throw signature_id actor = do
  row ← or_throw (← gets (find_signature_by_id signature_id)) (http_error 404 "NOT_FOUND")
  throw_if (not (row.status == SignatureStatus.pending)) (http_error 409 "CONFLICT")
  throw_if (not (row.signer_id == actor.id)) (http_error 403 "NOT_SIGNER")
  pure row

-- The status that a document has once its current version is signed.
abbrev pub is_past_signing : DocumentStatus → Bool
is_past_signing s = s == DocumentStatus.archived || s == DocumentStatus.deleted

unfoldable pub mark_signed : String → DocumentStatus → String → Service (Unit {0})
unfolding mark_version_signed update_document_status
mark_signed document_id status version_id = do
  mark_version_signed version_id
  (if is_past_signing status
      then pure tt
      else (update_document_status document_id DocumentStatus.signed >> pure tt))

-- What signing a version computes.
pub record Signing : Type 0 where
  pub key_id : String
  pub version_id : String
  pub hash : Bytes
  pub signature : Bytes
  pub code : Bytes

module _ (p : Platform) (r : Rsa) where
  unfoldable pub generate_or_rotate_key : User → Service PublicKey
  unfolding generate_rsa_key_pair hash_sha256 encrypt revoke_active_user_key insert_user_key
      AuditLedger.append_event with_transaction
  generate_or_rotate_key actor = do
    pair ← generate_rsa_key_pair r
    n ← gets (λ w. w.drawn)
    let fingerprint = hash_sha256 p pair.0
    let envelope = encrypt p pair.1 p.master_key n
    with_transaction (do
      revoke_active_user_key actor.id
      key ← insert_user_key p actor.id pair.0 envelope p.encryption_key_id fingerprint
      AuditLedger.append_event p
          (record (audit_entry actor.id "SIGNING_KEY_GENERATED" "USER" actor.id none) {
            metadata = object (("fingerprint", str fingerprint) ∷ []);
          })
      pure (to_public_key key))

  -- The first part of both signing transactions: the hash of the version under the signer's own key.
  unfoldable pub sign_version : User → Option DocumentVersion → Service Signing
  unfolding find_active_user_key decrypt sign_rsa generate_verification_code
  sign_version actor loaded = do
    key ← or_throw (← gets (find_active_user_key actor.id)) (http_error 400 "NO_SIGNING_KEY")
    private_key_pem ← from_result (decrypt p key.private_key_envelope p.master_key)
    version ← or_throw loaded internal_error
    signature ← from_result (sign_rsa r version.sha256_hash private_key_pem)
    code ← generate_verification_code r
    pure (record {
      key_id = key.id;
      version_id = version.id;
      hash = version.sha256_hash;
      signature = signature;
      code = code;
    })

  unfoldable pub self_sign : User → String → Option String → Service DocumentSignature
  unfolding load_document_and_current_version sign_version insert_signature mark_signed
      AuditLedger.append_event with_transaction
  self_sign actor document_id reason = do
    loaded ← load_document_and_current_version document_id
    let document = loaded.0
    with_transaction (do
      s ← sign_version actor loaded.1
      now ← gets (λ w. w.now)
      row ← insert_signature p (record {
        document_id = document_id;
        document_version_id = s.version_id;
        signer_id = actor.id;
        requested_by = none;
        status = SignatureStatus.signed;
        reason = or_null reason;
        user_key_id = some s.key_id;
        signed_hash = some s.hash;
        signature = some s.signature;
        verification_code = some s.code;
        signed_at = some now;
      })
      mark_signed document_id document.status s.version_id
      AuditLedger.append_event p
          (record (audit_entry actor.id "DOCUMENT_SIGNED" "DOCUMENT" document_id
            (some document.case_id)) {
              metadata = object (
                  ("documentVersionId", text s.version_id)
                  ∷ ("signatureId", text row.id)
                  ∷ ("verificationCode", str s.code)
                  ∷ []);
            })
      pure row)

  unfoldable pub request_signature :
      User → String → String → Option String → Service DocumentSignature
  unfolding load_document_and_current_version is_case_member insert_signature
      AuditLedger.append_event with_transaction
  request_signature actor document_id to_user_id reason = do
    loaded ← load_document_and_current_version document_id
    let document = loaded.0
    throw_if (to_user_id == actor.id) (http_error 400 "INVALID_SIGNER")
    eligible ← gets (is_case_member to_user_id document.case_id)
    throw_if (not eligible) (http_error 400 "INELIGIBLE_SIGNER")
    with_transaction (do
      version ← or_throw loaded.1 internal_error
      row ← insert_signature p (record {
        document_id = document_id;
        document_version_id = version.id;
        signer_id = to_user_id;
        requested_by = some actor.id;
        status = SignatureStatus.pending;
        reason = or_null reason;
        user_key_id = none;
        signed_hash = none;
        signature = none;
        verification_code = none;
        signed_at = none;
      })
      AuditLedger.append_event p
          (record (audit_entry actor.id "DOCUMENT_SIGNATURE_REQUESTED" "DOCUMENT" document_id
            (some document.case_id)) {
              metadata = object (
                  ("toUserId", text to_user_id)
                  ∷ ("signatureId", text row.id)
                  ∷ ("reason", text_or_null (or_null reason))
                  ∷ []);
            })
      pure row)

  unfoldable pub fulfill_pending : User → String → Service DocumentSignature
  unfolding load_pending_or_throw find_document_by_id find_version_by_id sign_version
      fulfill_signature mark_signed AuditLedger.append_event with_transaction
  fulfill_pending actor signature_id = do
    pending ← load_pending_or_throw signature_id actor
    document ← or_throw (← gets (find_document_by_id pending.document_id)) document_not_found
    throw_if (not (some pending.document_version_id == document.current_version_id))
        (http_error 409 "STALE_REQUEST")
    version ← gets (find_version_by_id pending.document_version_id)
    with_transaction (do
      s ← sign_version actor version
      settled ← fulfill_signature pending.id s.key_id s.hash s.signature s.code
      mark_signed document.id document.status s.version_id
      row ← or_throw settled internal_error
      AuditLedger.append_event p
          (record (audit_entry actor.id "DOCUMENT_SIGNED" "DOCUMENT" document.id
            (some document.case_id)) {
              metadata = object (
                  ("documentVersionId", text s.version_id)
                  ∷ ("signatureId", text row.id)
                  ∷ ("verificationCode", str s.code)
                  ∷ ("requestedBy", text_or_null pending.requested_by)
                  ∷ []);
            })
      pure row)

  abbrev case_of : Option Document → Option String
  case_of none = none
  case_of (some d) = some d.case_id

  unfoldable pub decline_pending : User → String → Option String → Service DocumentSignature
  unfolding load_pending_or_throw find_document_by_id decline_signature AuditLedger.append_event
      with_transaction
  decline_pending actor signature_id reason = do
    pending ← load_pending_or_throw signature_id actor
    document ← gets (find_document_by_id pending.document_id)
    with_transaction (do
      settled ← decline_signature pending.id (or_null reason)
      row ← or_throw settled internal_error
      AuditLedger.append_event p
          (record (audit_entry actor.id "DOCUMENT_SIGNATURE_DECLINED" "DOCUMENT" pending.document_id
            (case_of document)) {
              metadata =
                  object
                    (("signatureId", text row.id) ∷ ("reason", text_or_null (or_null reason)) ∷ []);
            })
      pure row)
