-- ===== src/Signatures/Growth.antt =====
-- What the signature requests do to the audit table.
use secure_document_manageme.Prelude.{String, refl, Option}
use secure_document_manageme.Ledger.{Bytes}
use secure_document_manageme.Db.{DocumentStatus, DocumentSignature, DocumentVersion}
use secure_document_manageme.Service.{Platform, User}
use secure_document_manageme.AuditLedger.Growth.{Appends, Appends-unaudited, appends_rules}
use secure_document_manageme.Crypto.Rsa.{Rsa, generate_rsa_key_pair, generate_verification_code}
use secure_document_manageme.Evidence.Growth.{Appends-from_result}
use secure_document_manageme.Documents.Growth.{Appends-document_status, Appends-mark_signed}
use secure_document_manageme.Signatures.Repository.{
  NewSignature, revoke_active_user_key, insert_user_key, insert_signature, settle_pending,
  fulfill_signature, decline_signature,
}
use secure_document_manageme.Signatures.Service.{
  load_document_and_current_version, load_pending_or_throw, mark_signed, generate_or_rotate_key,
  sign_version, self_sign, request_signature, fulfill_pending, decline_pending,
}

module _ (p : Platform) (r : Rsa) where
  Appends-pair : Appends p (generate_rsa_key_pair r)
  unfolding generate_rsa_key_pair
  Appends-pair = Appends-unaudited p _ (λ w. refl) (λ w. refl)

  Appends-code : Appends p (generate_verification_code r)
  unfolding generate_verification_code
  Appends-code = Appends-unaudited p _ (λ w. refl) (λ w. refl)

  Appends-revoke_key : (u : String) → Appends p (revoke_active_user_key u)
  unfolding revoke_active_user_key
  Appends-revoke_key u = Appends-unaudited p _ (λ w. refl) (λ w. refl)

  Appends-insert_key :
      (u : String) (k e : Bytes) (i : String) (f : Bytes) → Appends p (insert_user_key p u k e i f)
  unfolding insert_user_key
  Appends-insert_key u k e i f = Appends-unaudited p _ (λ w. refl) (λ w. refl)

  Appends-insert_signature : (s : NewSignature) → Appends p (insert_signature p s)
  unfolding insert_signature
  Appends-insert_signature s = Appends-unaudited p _ (λ w. refl) (λ w. refl)

  Appends-settle :
      (id : String) (f : DocumentSignature → DocumentSignature) → Appends p (settle_pending id f)
  unfolding settle_pending
  Appends-settle id f = Appends-unaudited p _ (λ w. refl) (λ w. refl)

  ruleset signature_rules = (
    appends_rules, Appends-pair, Appends-code, Appends-revoke_key, Appends-insert_key,
    Appends-insert_signature, Appends-settle, Appends-from_result, Appends-document_status,
    Appends-mark_signed,
  )

  Appends-load : (id : String) → Appends p (load_document_and_current_version id)
  unfolding load_document_and_current_version
  Appends-load id = search signature_rules depth 16

  Appends-load_pending : (id : String) (u : User) → Appends p (load_pending_or_throw id u)
  unfolding load_pending_or_throw
  Appends-load_pending id u = search signature_rules depth 16

  Appends-mark : (id : String) (s : DocumentStatus) (v : String) → Appends p (mark_signed id s v)
  unfolding mark_signed
  Appends-mark id s v = search signature_rules depth 16

  Appends-sign_version : (u : User) (v : Option DocumentVersion) → Appends p (sign_version p r u v)
  unfolding sign_version
  Appends-sign_version u v = search signature_rules depth 24

  ruleset signing_rules =
      (signature_rules, Appends-load, Appends-load_pending, Appends-mark, Appends-sign_version)

  pub Appends-rotate : (u : User) → Appends p (generate_or_rotate_key p r u)
  unfolding generate_or_rotate_key
  Appends-rotate u = search signing_rules depth 40 fits 4000

  pub Appends-self_sign :
      (u : User) (id : String) (o : Option String) → Appends p (self_sign p r u id o)
  unfolding self_sign
  Appends-self_sign u id o = search signing_rules depth 40 fits 4000

  pub Appends-request_signature :
      (u : User) (id to : String) (o : Option String) → Appends p (request_signature p r u id to o)
  unfolding request_signature
  Appends-request_signature u id to o = search signing_rules depth 40 fits 4000

  pub Appends-fulfill : (u : User) (id : String) → Appends p (fulfill_pending p r u id)
  unfolding fulfill_pending fulfill_signature
  Appends-fulfill u id = search signing_rules depth 40 fits 4000

  pub Appends-decline :
      (u : User) (id : String) (o : Option String) → Appends p (decline_pending p r u id o)
  unfolding decline_pending decline_signature
  Appends-decline u id o = search signing_rules depth 40 fits 4000
