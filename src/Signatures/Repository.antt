-- ===== src/Signatures/Repository.antt =====
-- apps/api/src/modules/signatures/signatures.repository.js.
use secure_document_manageme.Prelude.{
  ℕ, String, Bool, true, false, ◌&&◌, Option, none, some, ◌∷◌, ◌==◌, string_eq, list_eq, nat_eq,
  option_eq, ltb, find?, select, update_where, get_last?,
}
use secure_document_manageme.Prelude.Sort.{order_by}
use secure_document_manageme.Ledger.{Bytes}
use secure_document_manageme.Db.{
  World, UserKey, KeyStatus, key_status_eq, DocumentSignature, SignatureStatus, signature_status_eq,
}
use secure_document_manageme.Service.{Service, Platform, ◌>>=◌, ◌>>◌, gets, write, pure, new_uuid}

abbrev pub is_active_key : String → UserKey → Bool
is_active_key user_id k = k.user_id == user_id && k.status == KeyStatus.active

abbrev pub revoke : ℕ → UserKey → UserKey
revoke now k = record k { status = KeyStatus.revoked; revoked_at = some now }

unfoldable pub revoke_active_user_key : String → Service (Unit {0})
revoke_active_user_key user_id = do
  now ← gets (λ w. w.now)
  write
      (λ d. record d { user_keys = update_where (is_active_key user_id) (revoke now) d.user_keys })

unfoldable pub find_active_user_key : String → World → Option UserKey
find_active_user_key user_id w = find? (is_active_key user_id) w.user_keys

unfoldable pub find_user_key_by_id : Option String → World → Option UserKey
find_user_key_by_id id w = find? (λ k. some k.id == id) w.user_keys

-- The arguments of `insertSignature`; the ones that a caller leaves out are null.
pub record NewSignature : Type 0 where
  pub document_id : String
  pub document_version_id : String
  pub signer_id : String
  pub requested_by : Option String
  pub status : SignatureStatus
  pub reason : Option String
  pub user_key_id : Option String
  pub signed_hash : Option Bytes
  pub signature : Option Bytes
  pub verification_code : Option Bytes
  pub signed_at : Option ℕ

abbrev pub signature_row : String → ℕ → NewSignature → DocumentSignature
signature_row id now s = record {
  id = id;
  document_id = s.document_id;
  document_version_id = s.document_version_id;
  signer_id = s.signer_id;
  requested_by = s.requested_by;
  status = s.status;
  reason = s.reason;
  decline_reason = none;
  user_key_id = s.user_key_id;
  signed_hash = s.signed_hash;
  signature = s.signature;
  verification_code = s.verification_code;
  signed_at = s.signed_at;
  created_at = now;
}

unfoldable pub find_signature_by_id : String → World → Option DocumentSignature
find_signature_by_id id w = find? (λ s. s.id == id) w.document_signatures

-- The join with the signer's user row, which the row's foreign key provides, is left out.
unfoldable pub find_signature_by_verification_code : Bytes → World → Option DocumentSignature
find_signature_by_verification_code code w =
    find? (λ s. s.verification_code == some code) w.document_signatures

-- Ascending; in PostgreSQL a null comes after every time.
abbrev earlier : Option ℕ → Option ℕ → Bool
earlier none t = false
earlier (some t) none = true
earlier (some t) (some u) = ltb t u

abbrev pub signed_earlier : DocumentSignature → DocumentSignature → Bool
signed_earlier a b = earlier a.signed_at b.signed_at

abbrev pub is_signed_on : String → DocumentSignature → Bool
is_signed_on document_id s = s.document_id == document_id && s.status == SignatureStatus.signed

-- ORDER BY signed_at DESC LIMIT 1. Among signatures of one instant SQL leaves the choice open; here
-- it is the one written first.
unfoldable pub find_latest_signed_for_document : String → World → Option DocumentSignature
find_latest_signed_for_document document_id w =
    get_last? (order_by signed_earlier (select (is_signed_on document_id) w.document_signatures))

abbrev pub is_pending : String → DocumentSignature → Bool
is_pending id s = s.id == id && s.status == SignatureStatus.pending

abbrev pub fulfil : String → Bytes → Bytes → Bytes → ℕ → DocumentSignature → DocumentSignature
fulfil user_key_id signed_hash signature verification_code now s = record s {
  status = SignatureStatus.signed;
  user_key_id = some user_key_id;
  signed_hash = some signed_hash;
  signature = some signature;
  verification_code = some verification_code;
  signed_at = some now;
}

abbrev pub decline : Option String → DocumentSignature → DocumentSignature
decline decline_reason s = record s {
  status = SignatureStatus.declined;
  decline_reason = decline_reason;
}

abbrev pub changed :
    (DocumentSignature → DocumentSignature) → Option DocumentSignature → Option DocumentSignature
changed f none = none
changed f (some s) = some (f s)

-- UPDATE … WHERE id = … AND status = 'PENDING' RETURNING *
unfoldable pub settle_pending :
    String → (DocumentSignature → DocumentSignature) → Service (Option DocumentSignature)
settle_pending id f = do
  before ← gets (λ w. find? (is_pending id) w.document_signatures)
  write
      (λ d. record d { document_signatures = update_where (is_pending id) f d.document_signatures })
  pure (changed f before)

unfoldable pub fulfill_signature :
    String → String → Bytes → Bytes → Bytes → Service (Option DocumentSignature)
unfolding settle_pending
fulfill_signature id user_key_id signed_hash signature verification_code = do
  now ← gets (λ w. w.now)
  settle_pending id (fulfil user_key_id signed_hash signature verification_code now)

unfoldable pub decline_signature : String → Option String → Service (Option DocumentSignature)
unfolding settle_pending
decline_signature id decline_reason = settle_pending id (decline decline_reason)

module _ (p : Platform) where
  unfoldable pub insert_user_key : String → Bytes → Bytes → String → Bytes → Service UserKey
  insert_user_key user_id public_key private_key_envelope key_id fingerprint = do
    id ← new_uuid p
    now ← gets (λ w. w.now)
    let row : UserKey = record {
      id = id;
      user_id = user_id;
      public_key = public_key;
      private_key_envelope = private_key_envelope;
      key_id = key_id;
      fingerprint = fingerprint;
      status = KeyStatus.active;
      created_at = now;
      revoked_at = none;
    }
    write (λ d. record d { user_keys = row ∷ d.user_keys })
    pure row

  unfoldable pub insert_signature : NewSignature → Service DocumentSignature
  insert_signature s = do
    id ← new_uuid p
    now ← gets (λ w. w.now)
    let row : DocumentSignature = signature_row id now s
    write (λ d. record d { document_signatures = row ∷ d.document_signatures })
    pure row
