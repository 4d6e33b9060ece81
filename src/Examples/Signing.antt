-- ===== src/Examples/Signing.antt =====
-- A document with one version, its signer with a key, and what they go through.
use secure_document_manageme.Prelude.{false, none, some, [], ◌∷◌, ◌++◌, refl, list_eq, nat_eq}
use secure_document_manageme.Ledger.{Bytes}
use secure_document_manageme.Canonical.{codes}
use secure_document_manageme.Db.{
  World, empty_db, Account, UserStatus, Document, DocumentStatus, DocumentVersion, IntegrityStatus,
  UserKey, KeyStatus, DocumentSignature, SignatureStatus,
}
use secure_document_manageme.Crypto.{decrypt, hash_sha256}
use secure_document_manageme.Crypto.Rsa.{sign_rsa, verify_rsa}
use secure_document_manageme.Documents.Repository.{find_document_by_id, find_version_by_id}
use secure_document_manageme.Signatures.Repository.{find_active_user_key, find_user_key_by_id}
use secure_document_manageme.Evidence.Lifecycle.{Upload}
use secure_document_manageme.Documents.Versions.{
  upload_new_document, upload_new_version, restore_version, download_version,
}
use secure_document_manageme.Documents.RoundTrip.{IsReadable, upload_new_document-IsReadable}
use secure_document_manageme.Documents.History.{
  UploadOutcome, RestoreOutcome, upload_new_version-UploadOutcome, restore_version-RestoreOutcome,
}
use secure_document_manageme.Documents.Download.{DownloadOutcome, download_version-DownloadOutcome}
use secure_document_manageme.Signatures.Service.{generate_or_rotate_key, self_sign}
use secure_document_manageme.Signatures.Keys.{
  RotationOutcome, generate_or_rotate_key-RotationOutcome,
}
use secure_document_manageme.Verification.Service.{verify_document_internal}
use secure_document_manageme.Verification.Answer.{Answer, verify_document_internal-Answer}
use secure_document_manageme.Verification.Signed.{IsConfirmed, self_sign-IsConfirmed}
use secure_document_manageme.Examples.{clear_rsa, plain, giver, taker, bytes_of, file_case}

-- A signature is the signed text itself.
abbrev sealed : Bytes → Bytes
sealed content = 1 ∷ (bytes_of 12 ++ (bytes_of 16 ++ content))

abbrev report : Document
report = record {
  id = "doc";
  case_id = "case";
  document_type_id = none;
  title = "report";
  description = none;
  owner_id = "giver";
  status = DocumentStatus.active;
  current_version_id = some "v1";
}

abbrev first_version : DocumentVersion
first_version = record {
  id = "v1";
  document_id = "doc";
  version_number = 1;
  storage_key = "key";
  sha256_hash = codes "text";
  file_name = "r.txt";
  mime_type = "text/plain";
  size_bytes = 4;
  integrity_status = IntegrityStatus.unknown;
  encryption_version = "1";
  key_id = "k0";
  change_note = none;
  created_by = "giver";
  created_at = 2;
  is_signed = false;
}

abbrev giver_key : UserKey
giver_key = record {
  id = "uk";
  user_id = "giver";
  public_key = codes "public";
  private_key_envelope = sealed (codes "private");
  key_id = "k0";
  fingerprint = codes "public";
  status = KeyStatus.active;
  created_at = 1;
  revoked_at = none;
}

abbrev asked_signature : DocumentSignature
asked_signature = record {
  id = "asked";
  document_id = "doc";
  document_version_id = "v1";
  signer_id = "giver";
  requested_by = some "taker";
  status = SignatureStatus.pending;
  reason = none;
  decline_reason = none;
  user_key_id = none;
  signed_hash = none;
  signature = none;
  verification_code = none;
  signed_at = none;
  created_at = 3;
}

abbrev giver_account : Account
giver_account = record {
  id = "giver";
  username = "giver";
  email = "giver@example.org";
  password_hash = none;
  full_name = none;
  department_id = none;
  rank = none;
  status = UserStatus.active;
  failed_login_count = 0;
  mfa_enabled = false;
  last_login_at = none;
  created_at = 1;
}

abbrev desk : World
desk = record {
  db = record empty_db {
    users = giver_account ∷ [];
    cases = file_case ∷ [];
    document_types = record { id = "type"; code = "FIR"; name = "First Information Report" } ∷ [];
    documents = report ∷ [];
    document_versions = first_version ∷ [];
    user_keys = giver_key ∷ [];
    document_signatures = asked_signature ∷ [];
  };
  objects = ("key", sealed (codes "text")) ∷ [];
  drawn = 0;
  audit_sequence = 0;
  now = 9;
}

abbrev new_file : Upload
new_file = record {
  buffer = codes "text two";
  originalname = "r2.txt";
  mimetype = "text/plain";
  size = 8;
}

upload_new_document-IsReadable_example :
    IsReadable plain taker none new_file
      (upload_new_document plain giver "case" (some "type") "second" none new_file desk)
upload_new_document-IsReadable_example =
    upload_new_document-IsReadable plain (λ n. refl) (λ k iv m. refl) (λ k iv m. refl) giver taker
      "case" (some "type") "second" none none new_file desk file_case giver_account refl refl refl

upload_new_version-UploadOutcome_example :
    UploadOutcome plain "doc" new_file desk
      (upload_new_version plain giver "doc" new_file none desk)
upload_new_version-UploadOutcome_example =
    upload_new_version-UploadOutcome plain giver "doc" new_file none desk
      (record { numbered = (refl, tt); ordered = (tt, tt) }) (refl, tt)

restore_version-RestoreOutcome_example :
    RestoreOutcome plain "doc" "v1" desk (restore_version plain giver "doc" "v1" desk)
restore_version-RestoreOutcome_example =
    restore_version-RestoreOutcome plain giver "doc" "v1" desk
      (record { numbered = (refl, tt); ordered = (tt, tt) }) (refl, tt)

download_version-DownloadOutcome_example :
    DownloadOutcome plain taker "doc" none none desk
      (download_version plain taker "doc" none none desk)
download_version-DownloadOutcome_example =
    download_version-DownloadOutcome plain taker "doc" none none desk

generate_or_rotate_key-RotationOutcome_example :
    RotationOutcome plain clear_rsa "giver" desk (generate_or_rotate_key plain clear_rsa giver desk)
generate_or_rotate_key-RotationOutcome_example =
    generate_or_rotate_key-RotationOutcome plain clear_rsa giver desk

self_sign-IsConfirmed_example :
    IsConfirmed plain clear_rsa taker "doc" none (self_sign plain clear_rsa giver "doc" none desk)
unfolding find_document_by_id find_version_by_id decrypt hash_sha256 find_active_user_key
    find_user_key_by_id sign_rsa verify_rsa
self_sign-IsConfirmed_example =
    self_sign-IsConfirmed plain clear_rsa giver taker "doc" none none desk
      (record { within = tt; ordered = tt; chained = tt })
      (record {
        row = report;
        found = refl;
        version = first_version;
        current = refl;
        listed = refl;
        plaintext = codes "text";
        opens = record { envelope = sealed (codes "text"); stored = refl; opened = refl };
        hashed = refl;
        key = giver_key;
        active = refl;
        named = refl;
        private_key_pem = codes "private";
        unlocked = refl;
        signature = codes "text";
        signs = refl;
        pair = refl;
        before = λ s h. tt;
      })

abbrev signed_desk : World
signed_desk = record desk {
  db = record (desk.db) {
    document_signatures =
        record asked_signature {
          status = SignatureStatus.signed;
          user_key_id = some "uk";
          signed_hash = some (codes "text");
          signature = some (codes "text");
          signed_at = some 4;
        }
        ∷ [];
  };
}

verify_document_internal-Answer_example :
    Answer plain clear_rsa "doc" signed_desk
      (verify_document_internal plain clear_rsa taker "doc" none signed_desk)
verify_document_internal-Answer_example =
    verify_document_internal-Answer plain clear_rsa taker "doc" none signed_desk tt
