-- ===== src/Verification/Answer.antt =====
-- What a verification answers and records.
use secure_document_manageme.Prelude.{
  String, ◌≡◌, refl, ◌⊎◌, inl, inr, Option, none, some, ◌∷◌, string_eq, list_eq, nat_eq, option_eq,
  Option-cases,
}
use secure_document_manageme.Db.{
  World, Document, DocumentSignature, VerificationRecord, VerificationResult,
}
use secure_document_manageme.Service.{Platform, User, Result, ok, err}
use secure_document_manageme.AuditLedger
use secure_document_manageme.AuditLedger.{audit_chain, by_id}
use secure_document_manageme.AuditLedger.Verify.{IsOrdered}
use secure_document_manageme.Crypto.Rsa.{Rsa}
use secure_document_manageme.Documents.Repository.{find_document_by_id, find_version_by_id}
use secure_document_manageme.Signatures.Repository.{find_latest_signed_for_document}
use secure_document_manageme.Verification.Service.{
  PortalResponse, run_four_checks, record_checks, report_latest, insert_record, to_portal_response,
  verify_document_internal,
}
use secure_document_manageme.Verification.Verdict.{Verdict, checks-Verdict}

module _ (p : Platform) (r : Rsa) where
  -- The verdict, the signature and the document that a verification recorded.
  pub record Recorded (w w' : World) (s : DocumentSignature) (status : VerificationResult)
      : Type 0 where
    pub document : Document
    pub found : find_document_by_id s.document_id w ≡ some document
    pub verdict : Verdict p r w s document status
    pub row : VerificationRecord
    pub written : w'.verification_records ≡ row ∷ w.verification_records
    pub result : row.overall_result ≡ status
    pub about : row.document_signature_id ≡ s.id

  -- A row that a foreign key provides is missing.
  abbrev pub IsDangling : World → DocumentSignature → Type 0
  IsDangling w s =
      (find_document_by_id s.document_id w ≡ none)
      ⊎ (find_version_by_id s.document_version_id w ≡ none)

  abbrev pub Answer : String → World → Result PortalResponse × World → Type 0
  Answer id w (err e, w') =
      (find_document_by_id id w ≡ none)
      ⊎ ((s : DocumentSignature) × (find_latest_signed_for_document id w ≡ some s) × IsDangling w s)
  Answer id w (ok (PortalResponse.unsigned title), w') =
      (find_latest_signed_for_document id w ≡ none) × (w' ≡ w)
  Answer id w (ok PortalResponse.not_found, w') = ⊥
  Answer id w (ok (PortalResponse.examined portal), w') =
      (s : DocumentSignature) × (find_latest_signed_for_document id w ≡ some s)
      × Recorded w w' s portal.status

  -- On an audit table with ordered ids, a verification of a document by its reader takes the latest
  -- signature and records one of three verdicts: authentic exactly when the stored content hashes to
  -- what was signed, the signature verifies under the key that it names, the audit chain is intact
  -- and the signed version is the current one; superseded exactly when only the last of these fails;
  -- tampered exactly when one of the others does. It answers with an error only for a document that
  -- does not exist or a row that a foreign key should provide.
  pub verify_document_internal-Answer :
      (actor : User) (id : String) (ip : Option String) (w : World)
      → IsOrdered p w
      → Answer id w (verify_document_internal p r actor id ip w)
  unfolding verify_document_internal report_latest record_checks insert_record to_portal_response
      run_four_checks AuditLedger.verify_chain
  verify_document_internal-Answer actor id ip w ordered =
      elim (Option-cases (find_document_by_id id w)) [
        | inl gone ↦ rw gone (inl gone)
        | inr (row, found) ↦ elim (Option-cases (find_latest_signed_for_document id w)) [
          | inl unsigned ↦ rw (found, unsigned) (unsigned, refl)
          | inr (s, latest) ↦ elim (Option-cases (find_document_by_id s.document_id w)) [
            | inl gone ↦ rw (found, latest, gone) (inr (s, latest, inl gone))
            | inr (d, signed) ↦ elim (Option-cases (find_version_by_id s.document_version_id w)) [
              | inl gone ↦ rw (found, latest, signed, gone) (inr (s, latest, inr gone))
              | inr (v, listed) ↦
                  let judged = checks-Verdict p r w s d ordered in
                  rw (found, latest, signed, listed)
                    (
                      s,
                      latest,
                      record {
                        document = d;
                        found = signed;
                        verdict = judged;
                        row = _;
                        written = refl;
                        result = rw listed refl;
                        about = refl;
                      },
                    )
            ]
          ]
        ]
      ]
