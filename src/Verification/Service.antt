-- ===== src/Verification/Service.antt =====
-- apps/api/src/modules/verification: verification.service.js and verification.repository.js.
use secure_document_manageme.Prelude.{
  ℕ, String, Bool, true, false, not, ◌||◌, Option, none, some, ◌∷◌, ◌==◌, string_eq, list_eq,
  nat_eq, option_eq, if◌then◌else◌,
}
use secure_document_manageme.Ledger.{Bytes}
use secure_document_manageme.Db.{
  World, Document, DocumentVersion, UserKey, DocumentSignature, SignatureStatus,
  signature_status_eq, VerificationRecord, VerificationResult, VerificationSource,
}
use secure_document_manageme.Service.{
  Service, Platform, User, Result, ok, err, internal_error, ◌>>=◌, ◌>>◌, or_throw, gets, write,
  pure, new_uuid,
}
use secure_document_manageme.AuditLedger
use secure_document_manageme.Crypto.{hash_sha256}
use secure_document_manageme.Crypto.Rsa.{Rsa, verify_rsa}
use secure_document_manageme.Evidence.Integrity.{stored_plaintext}
use secure_document_manageme.Documents.Repository.{find_document_by_id, find_version_by_id}
use secure_document_manageme.Documents.Versions.{document_not_found}
use secure_document_manageme.Signatures.Repository.{
  find_user_key_by_id, find_latest_signed_for_document, find_signature_by_verification_code,
}

pub record Checks : Type 0 where
  pub hash_check : Bool
  pub signature_check : Bool
  pub ledger_check : Bool
  pub version_check : Bool

abbrev pub overall_result : Checks → VerificationResult
overall_result c =
    if not c.hash_check || not c.signature_check || not c.ledger_check
    then VerificationResult.tampered
    else if not c.version_check
    then VerificationResult.superseded
    else VerificationResult.authentic

-- What `runFourChecks` returns.
pub record Examined : Type 0 where
  pub document : Document
  pub version : Option DocumentVersion
  pub user_key : Option UserKey
  pub checks : Checks

-- The fields beyond the public ones.
pub record PortalDetails : Type 0 where
  pub document_id : String
  pub case_id : String
  pub signer_id : String
  pub verification_code : Option Bytes

pub record Portal : Type 0 where
  pub status : VerificationResult
  pub checks : Checks
  pub document_title : String
  pub version_number : ℕ
  pub signed_at : Option ℕ
  pub signer_key_fingerprint : Option Bytes
  pub verified_at : ℕ
  pub details : Option PortalDetails

pub data PortalResponse : Type 0 where
  unsigned : String → PortalResponse
  not_found : PortalResponse
  examined : Portal → PortalResponse

abbrev fingerprint_of : Option UserKey → Option Bytes
fingerprint_of none = none
fingerprint_of (some k) = some k.fingerprint

-- `toPortalResponse`; the signer's name is left out. Of a version that is missing it reads a field,
-- which throws.
unfoldable pub to_portal_response :
    Examined → DocumentSignature → VerificationRecord → Bool → Service PortalResponse
to_portal_response e s r public_only = do
  version ← or_throw e.version internal_error
  pure (
      PortalResponse.examined (record {
        status = overall_result e.checks;
        checks = e.checks;
        document_title = e.document.title;
        version_number = version.version_number;
        signed_at = s.signed_at;
        signer_key_fingerprint = fingerprint_of e.user_key;
        verified_at = r.created_at;
        details =
            if public_only
            then none
            else some (record {
              document_id = e.document.id;
              case_id = e.document.case_id;
              signer_id = s.signer_id;
              verification_code = s.verification_code;
            });
      }))

module _ (p : Platform) where
  -- The stored bytes hash to what was signed; whatever throws on the way counts as a mismatch.
  abbrev pub hash_matches : Option Bytes → Result Bytes → Bool
  hash_matches signed_hash (err e) = false
  hash_matches signed_hash (ok plaintext) = some (hash_sha256 p plaintext) == signed_hash

  unfoldable pub hash_check_of : Option DocumentVersion → Option Bytes → World → Bool
  unfolding stored_plaintext hash_sha256
  hash_check_of none signed_hash w = false
  hash_check_of (some v) signed_hash w =
      hash_matches signed_hash (stored_plaintext p v.storage_key w).0

  unfoldable pub insert_record :
      String
      → String
      → Option String
      → Checks
      → VerificationSource
      → Option String
      → Service VerificationRecord
  insert_record document_id document_signature_id verified_by checks source ip_address = do
    id ← new_uuid p
    now ← gets (λ w. w.now)
    let row : VerificationRecord = record {
      id = id;
      document_id = document_id;
      document_signature_id = document_signature_id;
      verified_by = verified_by;
      hash_check = checks.hash_check;
      signature_check = checks.signature_check;
      ledger_check = checks.ledger_check;
      version_check = checks.version_check;
      overall_result = overall_result checks;
      source = source;
      ip_address = ip_address;
      created_at = now;
    }
    write (λ d. record d { verification_records = row ∷ d.verification_records })
    pure row

module _ (r : Rsa) where
  -- A null hash or signature makes the verification throw, which counts as a failure.
  abbrev pub signed_by : Option Bytes → Option Bytes → UserKey → Bool
  signed_by (some hash) (some signature) k = verify_rsa r hash signature k.public_key
  signed_by none signature k = false
  signed_by (some hash) none k = false

  unfoldable pub signature_check_of : Option UserKey → DocumentSignature → Bool
  unfolding verify_rsa
  signature_check_of none s = false
  signature_check_of (some k) s = signed_by s.signed_hash s.signature k

module _ (p : Platform) (r : Rsa) where
  unfoldable pub run_four_checks : DocumentSignature → Service Examined
  unfolding find_document_by_id find_version_by_id find_user_key_by_id hash_check_of
      signature_check_of AuditLedger.verify_chain
  run_four_checks s = do
    version ← gets (find_version_by_id s.document_version_id)
    loaded ← gets (find_document_by_id s.document_id)
    user_key ← gets (find_user_key_by_id s.user_key_id)
    hash_check ← gets (hash_check_of p version s.signed_hash)
    ledger ← AuditLedger.verify_chain p
    document ← or_throw loaded internal_error
    pure (record {
      document = document;
      version = version;
      user_key = user_key;
      checks = record {
        hash_check = hash_check;
        signature_check = signature_check_of r user_key s;
        ledger_check = ledger.intact;
        version_check = document.current_version_id == some s.document_version_id;
      };
    })

  unfoldable pub record_checks :
      DocumentSignature
      → Option String
      → VerificationSource
      → Option String
      → Bool
      → Service PortalResponse
  unfolding run_four_checks insert_record to_portal_response
  record_checks s verified_by source ip_address public_only = do
    e ← run_four_checks s
    row ← insert_record p s.document_id s.id verified_by e.checks source ip_address
    to_portal_response e s row public_only

  unfoldable pub report_latest :
      User → Document → Option String → Option DocumentSignature → Service PortalResponse
  unfolding record_checks
  report_latest actor document ip_address none = pure (PortalResponse.unsigned document.title)
  report_latest actor document ip_address (some s) =
      record_checks s (some actor.id) VerificationSource.internal ip_address false

  unfoldable pub verify_document_internal : User → String → Option String → Service PortalResponse
  unfolding find_document_by_id find_latest_signed_for_document report_latest
  verify_document_internal actor document_id ip_address = do
    document ← or_throw (← gets (find_document_by_id document_id)) document_not_found
    latest ← gets (find_latest_signed_for_document document_id)
    report_latest actor document ip_address latest

  unfoldable pub report_found : Option String → Option DocumentSignature → Service PortalResponse
  unfolding record_checks
  report_found ip_address none = pure PortalResponse.not_found
  report_found ip_address (some s) =
      if s.status == SignatureStatus.signed
      then record_checks s none VerificationSource.external ip_address true
      else pure PortalResponse.not_found

  -- The external path: no user, and the code as the only key.
  unfoldable pub verify_by_code : Bytes → Option String → Service PortalResponse
  unfolding find_signature_by_verification_code report_found
  verify_by_code code ip_address = do
    found ← gets (find_signature_by_verification_code code)
    report_found ip_address found
