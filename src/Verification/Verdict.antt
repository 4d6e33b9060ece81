-- ===== src/Verification/Verdict.antt =====
-- What the three verdicts of a verification mean.
use secure_document_manageme.Prelude.{
  String, ◌≡◌, refl, ◌↔◌, inl, inr, Bool, true, false, ◌&&◌, Option, none, some, ◌==◌, ==_iff,
  string_eq, list_eq, nat_eq, option_eq, Option-cases,
}
use secure_document_manageme.Ledger.{Bytes}
use secure_document_manageme.Ledger.Links.{Chained}
use secure_document_manageme.Db.{
  World, Document, DocumentVersion, UserKey, DocumentSignature, VerificationResult,
}
use secure_document_manageme.Service.{Platform, ok}
use secure_document_manageme.AuditLedger
use secure_document_manageme.AuditLedger.{audit_chain, by_id}
use secure_document_manageme.Ledger.{verify_rows}
use secure_document_manageme.Prelude.Sort.{order_by}
use secure_document_manageme.AuditLedger.Verify.{IsOrdered, verify_chain_iff}
use secure_document_manageme.Crypto.{hash_sha256}
use secure_document_manageme.Crypto.Rsa.{Rsa, verify_rsa}
use secure_document_manageme.Storage
use secure_document_manageme.Evidence.Integrity.{stored_plaintext}
use secure_document_manageme.Evidence.Custody.{Opens, stored_cases}
use secure_document_manageme.Documents.Repository.{find_version_by_id}
use secure_document_manageme.Signatures.Repository.{find_user_key_by_id}
use secure_document_manageme.Verification.Service.{
  Checks, overall_result, hash_check_of, signature_check_of,
}

-- The three verdicts from two facts.
abbrev verdict : Bool → Bool → VerificationResult
verdict false current = VerificationResult.tampered
verdict true false = VerificationResult.superseded
verdict true true = VerificationResult.authentic

overall-verdict :
    (h s l v : Bool)
    → overall_result
        (record { hash_check = h; signature_check = s; ledger_check = l; version_check = v })
      ≡ verdict (h && s && l) v
overall-verdict true true true true = refl
overall-verdict true true true false = refl
overall-verdict true true false v = refl
overall-verdict true false l v = refl
overall-verdict false s l v = refl

all_three : (a b c : Bool) → a && b && c ≡ true → (a ≡ true) × (b ≡ true) × (c ≡ true)
all_three true true true t = (refl, refl, refl)
all_three true true false t = cc
all_three true false c t = cc
all_three false b c t = cc

module _ (p : Platform) (r : Rsa) where
  -- The stored content is the one that was signed.
  pub record IsContent (w : World) (s : DocumentSignature) (v : Option DocumentVersion)
      : Type 0 where
    pub version : DocumentVersion
    pub found : v ≡ some version
    pub plaintext : Bytes
    pub opens : Opens p w version.storage_key plaintext
    pub hashed : some (hash_sha256 p plaintext) ≡ s.signed_hash

  -- The signature verifies under the key that the row names.
  pub record IsVerified (s : DocumentSignature) (k : Option UserKey) : Type 0 where
    pub key : UserKey
    pub named : k ≡ some key
    pub hash : Bytes
    pub frozen : s.signed_hash ≡ some hash
    pub signature : Bytes
    pub present : s.signature ≡ some signature
    pub verified : verify_rsa r hash signature key.public_key ≡ true

  Opens-read :
      (w : World) (key : String) (b : Bytes)
      → Opens p w key b
      → stored_plaintext p key w ≡ (ok b, w)
  unfolding stored_plaintext Storage.get
  Opens-read w key b o = rw (o.stored, o.opened) refl

  IsContent-from :
      (w : World) (s : DocumentSignature) (v : DocumentVersion)
      → hash_check_of p (some v) s.signed_hash w ≡ true
      → IsContent w s (some v)
  unfolding hash_check_of
  IsContent-from w s v e = elim (stored_cases p v.storage_key w) [
    | inl (error, failed) ↦ (let never : false ≡ true = rw failed at e in cc)
    | inr (b, opens, read) ↦ record {
      version = v;
      found = refl;
      plaintext = b;
      opens = opens;
      hashed = (==_iff (some (hash_sha256 p b)) s.signed_hash).0 (rw read at e);
    }
  ]

  IsContent-to :
      (w : World) (s : DocumentSignature) (v : Option DocumentVersion)
      → IsContent w s v
      → hash_check_of p v s.signed_hash w ≡ true
  unfolding hash_check_of
  IsContent-to w s v c = rw c.found (
      rw (Opens-read w c.version.storage_key c.plaintext c.opens)
        ((==_iff (some (hash_sha256 p c.plaintext)) s.signed_hash).1 c.hashed))

  hash_check_iff :
      (w : World) (s : DocumentSignature) (v : Option DocumentVersion)
      → (hash_check_of p v s.signed_hash w ≡ true) ↔ IsContent w s v
  unfolding hash_check_of
  hash_check_iff w s none = (λ e. cc, IsContent-to w s none)
  hash_check_iff w s (some v) = (IsContent-from w s v, IsContent-to w s (some v))

  IsVerified-from :
      (s : DocumentSignature) (k : UserKey)
      → signature_check_of r (some k) s ≡ true
      → IsVerified s (some k)
  unfolding signature_check_of
  IsVerified-from s k e = elim (Option-cases s.signed_hash) [
    | inl unset ↦ (let never : false ≡ true = rw unset at e in cc)
    | inr (hash, frozen) ↦ elim (Option-cases s.signature) [
      | inl unset ↦ (let never : false ≡ true = rw (frozen, unset) at e in cc)
      | inr (signature, present) ↦ record {
        key = k;
        named = refl;
        hash = hash;
        frozen = frozen;
        signature = signature;
        present = present;
        verified = rw (frozen, present) at e;
      }
    ]
  ]

  signature_check_iff :
      (s : DocumentSignature) (k : Option UserKey)
      → (signature_check_of r k s ≡ true) ↔ IsVerified s k
  unfolding signature_check_of
  signature_check_iff s none = (λ e. cc, λ c. cc)
  signature_check_iff s (some k) = (
    IsVerified-from s k,
    λ c. let same : k ≡ c.key = cc in rw (same, c.frozen, c.present) c.verified,
  )

  -- All that a verification asks for but that the version is still the current one.
  pub record IsGenuine (w : World) (s : DocumentSignature) : Type 0 where
    pub content : IsContent w s (find_version_by_id s.document_version_id w)
    pub verified : IsVerified s (find_user_key_by_id s.user_key_id w)
    pub chained : Chained (audit_chain p) w.audit_events

  abbrev pub IsCurrent : DocumentSignature → Document → Type 0
  IsCurrent s d = d.current_version_id ≡ some s.document_version_id

  pub record Verdict (w : World) (s : DocumentSignature) (d : Document)
      (status : VerificationResult) : Type 0 where
    pub authentic : (status ≡ VerificationResult.authentic) ↔ (IsGenuine w s × IsCurrent s d)
    pub superseded : (status ≡ VerificationResult.superseded) ↔ (IsGenuine w s × ¬ IsCurrent s d)
    pub tampered : (status ≡ VerificationResult.tampered) ↔ (¬ IsGenuine w s)

  three_verdicts :
      (G C : Type 0) (g c : Bool)
      → (g ≡ true) ↔ G
      → (c ≡ true) ↔ C
      → ((verdict g c ≡ VerificationResult.authentic) ↔ (G × C))
        × ((verdict g c ≡ VerificationResult.superseded) ↔ (G × ¬ C))
        × ((verdict g c ≡ VerificationResult.tampered) ↔ (¬ G))
  three_verdicts G C true true (a, b) (d, e) = (
    (λ u. (a refl, d refl), λ u. refl),
    (λ u. cc, λ (x, y). absurd (y (d refl))),
    (λ u. cc, λ n. absurd (n (a refl))),
  )
  three_verdicts G C true false (a, b) (d, e) = (
    (λ u. cc, λ (x, y). (let never = e y in cc)),
    (λ u. (a refl, λ y. let never = e y in cc), λ u. refl),
    (λ u. cc, λ n. absurd (n (a refl))),
  )
  three_verdicts G C false c (a, b) (d, e) = (
    (λ u. cc, λ (x, y). (let never = b x in cc)),
    (λ u. cc, λ (x, y). (let never = b x in cc)),
    (λ u x. let never = b x in cc, λ n. refl),
  )

  -- The bits of the four checks, and the verdict that they lead to.
  abbrev pub checks_of : World → DocumentSignature → Document → Checks
  checks_of w s d = record {
    hash_check = hash_check_of p (find_version_by_id s.document_version_id w) s.signed_hash w;
    signature_check = signature_check_of r (find_user_key_by_id s.user_key_id w) s;
    ledger_check = (verify_rows (audit_chain p) (order_by by_id w.audit_events)).intact;
    version_check = d.current_version_id == some s.document_version_id;
  }

  IsGenuine-iff :
      (w : World) (s : DocumentSignature) (d : Document)
      → IsOrdered p w
      → ((checks_of w s d).hash_check
            && (checks_of w s d).signature_check
            && (checks_of w s d).ledger_check
          ≡ true)
        ↔ IsGenuine w s
  unfolding AuditLedger.verify_chain
  IsGenuine-iff w s d ordered =
      let (a, b) = hash_check_iff w s (find_version_by_id s.document_version_id w) in
      let (c, e) = signature_check_iff s (find_user_key_by_id s.user_key_id w) in
      let (f, g) = verify_chain_iff p w ordered in
      (
        λ t.
            let (x, y, z) = all_three _ _ _ t in
            record { content = a x; verified = c y; chained = f z },
        λ h. rw (b h.content, e h.verified) (g h.chained),
      )

  pub checks-Verdict :
      (w : World) (s : DocumentSignature) (d : Document)
      → IsOrdered p w
      → Verdict w s d (overall_result (checks_of w s d))
  checks-Verdict w s d ordered =
      let c = checks_of w s d in
      let (a, b, t) =
        three_verdicts (IsGenuine w s) (IsCurrent s d)
          (c.hash_check && c.signature_check && c.ledger_check) c.version_check
          (IsGenuine-iff w s d ordered)
          (==_iff d.current_version_id (some s.document_version_id)) in
      rw (overall-verdict c.hash_check c.signature_check c.ledger_check c.version_check)
        (record { authentic = a; superseded = b; tampered = t })
