-- ===== src/Verification/Growth.antt =====
-- What a verification does to the audit table.
use secure_document_manageme.Prelude.{String, refl, Bool, Option, none, some}
use secure_document_manageme.Ledger.{Bytes}
use secure_document_manageme.Db.{
  Document, DocumentSignature, VerificationRecord, VerificationSource,
}
use secure_document_manageme.Service.{Platform, User}
use secure_document_manageme.AuditLedger
use secure_document_manageme.AuditLedger.Growth.{Appends, Appends-unaudited, appends_rules}
use secure_document_manageme.Crypto.Rsa.{Rsa}
use secure_document_manageme.Verification.Service.{
  Checks, Examined, insert_record, to_portal_response, run_four_checks, record_checks,
  report_latest, report_found, verify_document_internal, verify_by_code,
}

module _ (p : Platform) (r : Rsa) where
  Appends-insert_record :
      (d s : String) (u : Option String) (c : Checks) (o : VerificationSource) (ip : Option String)
      → Appends p (insert_record p d s u c o ip)
  unfolding insert_record
  Appends-insert_record d s u c o ip = Appends-unaudited p _ (λ w. refl) (λ w. refl)

  Appends-chain : Appends p (AuditLedger.verify_chain p)
  unfolding AuditLedger.verify_chain
  Appends-chain = Appends-unaudited p _ (λ w. refl) (λ w. refl)

  ruleset verification_rules = (appends_rules, Appends-insert_record, Appends-chain)

  Appends-portal :
      (e : Examined) (s : DocumentSignature) (v : VerificationRecord) (b : Bool)
      → Appends p (to_portal_response e s v b)
  unfolding to_portal_response
  Appends-portal e s v b = search verification_rules depth 16

  Appends-checks : (s : DocumentSignature) → Appends p (run_four_checks p r s)
  unfolding run_four_checks
  Appends-checks s = search verification_rules depth 24

  Appends-record :
      (s : DocumentSignature) (u : Option String) (o : VerificationSource) (ip : Option String)
      (b : Bool)
      → Appends p (record_checks p r s u o ip b)
  unfolding record_checks
  Appends-record s u o ip b = search (verification_rules, Appends-portal, Appends-checks) depth 24

  ruleset report_rules = (verification_rules, Appends-record)

  Appends-latest :
      (u : User) (d : Document) (ip : Option String) (s : Option DocumentSignature)
      → Appends p (report_latest p r u d ip s)
  unfolding report_latest
  Appends-latest u d ip none = search report_rules
  Appends-latest u d ip (some s) = search report_rules

  Appends-found :
      (ip : Option String) (s : Option DocumentSignature) → Appends p (report_found p r ip s)
  unfolding report_found
  Appends-found ip none = search report_rules
  Appends-found ip (some s) = search report_rules

  pub Appends-verify_document :
      (u : User) (id : String) (ip : Option String)
      → Appends p (verify_document_internal p r u id ip)
  unfolding verify_document_internal
  Appends-verify_document u id ip = search (report_rules, Appends-latest) depth 24

  pub Appends-verify_code : (c : Bytes) (ip : Option String) → Appends p (verify_by_code p r c ip)
  unfolding verify_by_code
  Appends-verify_code c ip = search (report_rules, Appends-found) depth 24
