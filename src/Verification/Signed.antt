-- ===== src/Verification/Signed.antt =====
-- A document that has just been signed verifies.
use secure_document_manageme.Prelude.{
  suc, String, List, ◌∷◌, ap, update_where, get_last?, ◌≡◌, refl, inl, inr, true, false, Option,
  none, some, ◌==◌, ==_refl, string_eq, option_eq, list_eq, nat_eq, Bool-cases, find?,
  find?-update_where, select, All, get_last?-concat,
}
use secure_document_manageme.Prelude.Sort.{order_by, order_by-newest}
use secure_document_manageme.Ledger.{Bytes}
use secure_document_manageme.Db.{
  World, Document, DocumentStatus, document_status_eq, DocumentVersion, UserKey, DocumentSignature,
  SignatureStatus, signature_status_eq, VerificationResult,
}
use secure_document_manageme.Service.{Platform, User, Result, ok, err, draw, with_transaction}
use secure_document_manageme.AuditLedger
use secure_document_manageme.AuditLedger.{AuditEntry}
use secure_document_manageme.Entries.{or_null}
use secure_document_manageme.AuditLedger.Growth.{IsIntact, appended-IsIntact}
use secure_document_manageme.AuditLedger.Verify.{IsOrdered}
use secure_document_manageme.Crypto.{decrypt, hash_sha256}
use secure_document_manageme.Crypto.Rsa.{Rsa, sign_rsa, verify_rsa, generate_verification_code}
use secure_document_manageme.Evidence.Custody.{Opens}
use secure_document_manageme.Documents.Repository.{
  find_document_by_id, find_version_by_id, mark_version_signed, update_document_status,
  set_document_status,
}
use secure_document_manageme.Signatures.Repository.{
  find_active_user_key, find_user_key_by_id, find_latest_signed_for_document, insert_signature,
  is_signed_on, signed_earlier,
}
use secure_document_manageme.Signatures.Service.{
  load_document_and_current_version, is_past_signing, mark_signed, sign_version, self_sign,
}
use secure_document_manageme.Verification.Service.{
  PortalResponse, run_four_checks, record_checks, report_latest, insert_record, to_portal_response,
  verify_document_internal,
}
use secure_document_manageme.Verification.Verdict.{IsGenuine, IsCurrent, checks-Verdict}

abbrev pub Confirms : Result PortalResponse → Type 0
Confirms (err e) = ⊥
Confirms (ok (PortalResponse.unsigned title)) = ⊥
Confirms (ok PortalResponse.not_found) = ⊥
Confirms (ok (PortalResponse.examined portal)) = portal.status ≡ VerificationResult.authentic

newest_signed :
    (id : String) (s : DocumentSignature) (xs : List DocumentSignature)
    → is_signed_on id s ≡ true
    → All (λ t. signed_earlier t s ≡ true) (select (is_signed_on id) xs)
    → get_last? (order_by signed_earlier (select (is_signed_on id) (s ∷ xs))) ≡ some s
newest_signed id s xs here h = rw here (
    rw (order_by-newest signed_earlier s (select (is_signed_on id) xs) h)
      (get_last?-concat (order_by signed_earlier (select (is_signed_on id) xs)) s))

module _ (p : Platform) (r : Rsa) where
  confirm :
      (reader : User) (id : String) (ip : Option String) (w : World) (s : DocumentSignature)
      (d : Document) (v : DocumentVersion)
      → IsOrdered p w
      → find_document_by_id id w ≡ some d
      → find_latest_signed_for_document id w ≡ some s
      → find_document_by_id s.document_id w ≡ some d
      → find_version_by_id s.document_version_id w ≡ some v
      → IsGenuine p r w s
      → IsCurrent p r s d
      → Confirms (verify_document_internal p r reader id ip w).0
  unfolding verify_document_internal report_latest record_checks insert_record to_portal_response
      run_four_checks AuditLedger.verify_chain
  confirm reader id ip w s d v ordered found latest signed listed genuine current =
      let judged = (checks-Verdict p r w s d ordered).authentic.1 (genuine, current) in
      rw (found, latest, signed, listed) judged

  -- What a signer brings to a document: a key of their own that opens and signs, and a current
  -- version whose stored object opens to a content with the recorded hash, none signed later.
  pub record IsReady (actor : User) (id : String) (w : World) : Type 0 where
    pub row : Document
    pub found : find_document_by_id id w ≡ some row
    pub version : DocumentVersion
    pub current : row.current_version_id ≡ some version.id
    pub listed : find_version_by_id version.id w ≡ some version
    pub plaintext : Bytes
    pub opens : Opens p w version.storage_key plaintext
    pub hashed : hash_sha256 p plaintext ≡ version.sha256_hash
    pub key : UserKey
    pub active : find_active_user_key actor.id w ≡ some key
    pub named : find_user_key_by_id (some key.id) w ≡ some key
    pub private_key_pem : Bytes
    pub unlocked : decrypt p key.private_key_envelope p.master_key ≡ ok private_key_pem
    pub signature : Bytes
    pub signs : sign_rsa r version.sha256_hash private_key_pem ≡ ok signature
    pub pair : verify_rsa r version.sha256_hash signature key.public_key ≡ true
    pub before :
        (s : DocumentSignature)
        → s.signed_at ≡ some w.now
        → All (λ t. signed_earlier t s ≡ true) (select (is_signed_on id) w.document_signatures)

  load-value :
      (actor : User) (id : String) (w : World) (k : IsReady actor id w)
      → load_document_and_current_version id w ≡ (ok (k.row, some k.version), w)
  unfolding load_document_and_current_version find_document_by_id find_version_by_id
  load-value actor id w k = rw k.found (
      rw k.current
        (ap (λ o. (ok (record (k.row) { current_version_id = some k.version.id }, o), w)) k.listed))

  sign-value :
      (actor : User) (id : String) (w : World) (k : IsReady actor id w)
      → sign_version p r actor (some k.version) w ≡ (
        ok (record {
          key_id = k.key.id;
          version_id = k.version.id;
          hash = k.version.sha256_hash;
          signature = k.signature;
          code = r.random_code w.drawn;
        }),
        draw w,
      )
  unfolding sign_version generate_verification_code
  sign-value actor id w k = rw k.active (rw k.unlocked (rw k.signs refl))

  -- The row that a signature of one's own inserts.
  abbrev own_row :
      User
      → String
      → Option String
      → (w : World) → UserKey
      → DocumentVersion
      → Bytes
      → DocumentSignature
  own_row actor id reason w key version signature = record {
    id = p.uuid (suc w.drawn);
    document_id = id;
    document_version_id = version.id;
    signer_id = actor.id;
    requested_by = none;
    status = SignatureStatus.signed;
    reason = or_null reason;
    decline_reason = none;
    user_key_id = some key.id;
    signed_hash = some version.sha256_hash;
    signature = some signature;
    verification_code = some (r.random_code w.drawn);
    signed_at = some w.now;
    created_at = w.now;
  }

  -- The tables after a signature, up to the audit event.
  abbrev signed_world : World → DocumentSignature → String → List Document → World
  signed_world w s version_id documents = record w {
    drawn = suc (suc w.drawn);
    db = record (w.db) {
      documents = documents;
      document_versions =
          update_where (λ v. v.id == version_id) (λ v. record v { is_signed = true })
            w.document_versions;
      document_signatures = s ∷ w.document_signatures;
    };
  }

  verifies :
      (actor reader : User) (id : String) (reason ip : Option String) (w : World)
      (k : IsReady actor id w) (e : AuditEntry) (documents : List Document) (d : Document)
      → IsIntact p w
      → find? (λ d. d.id == id) documents ≡ some d
      → d.current_version_id ≡ some k.version.id
      → Confirms
          (verify_document_internal p r reader id ip (
            AuditLedger.appended p e (
              signed_world w
                (own_row actor id reason w k.key k.version k.signature)
                k.version.id
                documents))).0
  unfolding find_document_by_id find_version_by_id find_latest_signed_for_document
      find_user_key_by_id
  verifies actor reader id reason ip w k e documents d h found current =
      let s = own_row actor id reason w k.key k.version k.signature in
      let w1 : World = signed_world w s k.version.id documents in
      let listed =
        find?-update_where (λ v. v.id == k.version.id) (λ v. record v { is_signed = true })
          (λ v same. same) w.document_versions k.version k.listed in
      let intact =
        appended-IsIntact p e w1
          (record { within = h.within; ordered = h.ordered; chained = h.chained }) in
      confirm reader id ip (AuditLedger.appended p e w1) s d
        (record (k.version) { is_signed = true }) intact.ordered found
        (newest_signed id s w.document_signatures (rw (==_refl id) refl) (k.before s refl)) found
        listed
        (record {
          content = record {
            version = record (k.version) { is_signed = true };
            found = listed;
            plaintext = k.plaintext;
            opens = record {
              envelope = k.opens.envelope;
              stored = k.opens.stored;
              opened = k.opens.opened;
            };
            hashed = ap some k.hashed;
          };
          verified = record {
            key = k.key;
            named = k.named;
            hash = k.version.sha256_hash;
            frozen = refl;
            signature = k.signature;
            present = refl;
            verified = k.pair;
          };
          chained = intact.chained;
        })
        current

  abbrev pub IsConfirmed : User → String → Option String → Result DocumentSignature × World → Type 0
  IsConfirmed reader id ip (err e, w) = ⊥
  IsConfirmed reader id ip (ok s, w) = Confirms (verify_document_internal p r reader id ip w).0

  -- On an intact audit table, with a signer who has an active key that opens and whose signatures verify
  -- under its public half, and a document whose current version's stored object hashes to the
  -- recorded hash and that nobody has signed at the same instant or later: signing returns a
  -- signature, and any reader who verifies the document right after it is told that it is authentic.
  pub self_sign-IsConfirmed :
      (actor reader : User) (id : String) (reason ip : Option String) (w : World)
      → IsIntact p w
      → IsReady actor id w
      → IsConfirmed reader id ip (self_sign p r actor id reason w)
  unfolding self_sign insert_signature mark_signed mark_version_signed update_document_status
      generate_verification_code with_transaction AuditLedger.append_event
  self_sign-IsConfirmed actor reader id reason ip w h k =
      elim (Bool-cases (is_past_signing k.row.status)) [
        | inl past ↦ rw (load-value actor id w k) (
            rw (sign-value actor id w k) (
              rw past
                (verifies actor reader id reason ip w k _ w.documents k.row h k.found k.current)))
        | inr before ↦ rw (load-value actor id w k) (
            rw (sign-value actor id w k) (
              rw before (
                verifies actor reader id reason ip w k _
                  (update_where (λ d. d.id == id) (set_document_status DocumentStatus.signed)
                    w.documents)
                  (set_document_status DocumentStatus.signed k.row) h
                  (find?-update_where (λ d. d.id == id) (set_document_status DocumentStatus.signed)
                    (λ d same. same) w.documents k.row k.found)
                  k.current)))
      ]

  -- Signing the current version of a document that is already final sets its status back to signed.
  pub self_sign_reopens :
      (actor : User) (id : String) (reason : Option String) (w : World) (k : IsReady actor id w)
      → k.row.status ≡ DocumentStatus.final
      → find_document_by_id id (self_sign p r actor id reason w).1
        ≡ some (set_document_status DocumentStatus.signed k.row)
  unfolding self_sign insert_signature mark_signed mark_version_signed update_document_status
      generate_verification_code with_transaction AuditLedger.append_event find_document_by_id
  self_sign_reopens actor id reason w k final =
      let before : is_past_signing k.row.status ≡ false = rw final refl in
      rw (load-value actor id w k) (
        rw (sign-value actor id w k) (
          rw before (
            find?-update_where (λ d. d.id == id) (set_document_status DocumentStatus.signed)
              (λ d same. same) w.documents k.row k.found)))
