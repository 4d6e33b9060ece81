-- ===== src/Examples/Ledgers.antt =====
-- The ledger theorems on the example state.
use mathlib.Core.List.{Memᴰ}
use secure_document_manageme.Prelude.{some, ◌≡◌, refl, ◌↔◌, true, false, none, [], ◌∷◌, map}
use secure_document_manageme.Canonical.{codes}
use secure_document_manageme.Db.{World, CaseRole, CustodyAction, CustodyStatus, AuditRow}
use secure_document_manageme.Entries.{audit_entry, custody_entry}
use secure_document_manageme.AuditLedger
use secure_document_manageme.AuditLedger.{audit_chain}
use secure_document_manageme.AuditLedger.Growth.{Grows}
use secure_document_manageme.AuditLedger.Verify.{
  verify_chain_iff, verify_chain_unique, verify_chain_truncated,
}
use secure_document_manageme.AuditLedger.Verify
use secure_document_manageme.CustodyLedger
use secure_document_manageme.CustodyLedger.{rows_of, custody_chain}
use secure_document_manageme.CustodyLedger.Growth.{
  IsIntact, appended-IsIntact_self, custody_verify_iff,
}
use secure_document_manageme.CustodyLedger.Growth
use secure_document_manageme.CustodyLedger.Ties.{verify_chain_tie}
use secure_document_manageme.Ledger.Links.{Chained}
use secure_document_manageme.Evidence.Lifecycle.{Upload, register_evidence}
use secure_document_manageme.Evidence.RoundTrip.{IsReadable, register_evidence-IsReadable}
use secure_document_manageme.App.{Request, serve, serve-Grows}
use secure_document_manageme.Examples.{
  plain, clear_rsa, clear_identity, giver, taker, transfer, scene, file_case,
}

serve-Grows_example : Grows plain scene (
    serve plain clear_rsa clear_identity
      ((10, Request.enrol "giver" "case" "third" CaseRole.viewer)
        ∷ (11, Request.accept taker "item" "transfer")
        ∷ [])
      scene)
serve-Grows_example =
    serve-Grows plain clear_rsa clear_identity
      ((10, Request.enrol "giver" "case" "third" CaseRole.viewer)
        ∷ (11, Request.accept taker "item" "transfer")
        ∷ [])
      scene

abbrev logged : World
logged = AuditLedger.appended plain (audit_entry "giver" "CASE_UPDATED" "CASE" "case" none) scene

verify_chain_iff_example :
    AuditLedger.Verify.Reports (AuditLedger.verify_chain plain logged).0 true
    ↔ Chained (audit_chain plain) logged.audit_events
verify_chain_iff_example = verify_chain_iff plain logged (tt, tt)

same_event :
    (r s : AuditRow) → Memᴰ r logged.audit_events → Memᴰ s logged.audit_events → r.event ≡ s.event
same_event r s (Memᴰ.head e) (Memᴰ.head f) = cc
same_event r s (Memᴰ.tail m) n = elim m [ ]
same_event r s (Memᴰ.head e) (Memᴰ.tail n) = elim n [ ]

logged-verifies : AuditLedger.Verify.Reports (AuditLedger.verify_chain plain logged).0 true
unfolding AuditLedger.previous_hash
logged-verifies = (verify_chain_iff plain logged (tt, tt)).1 (refl, refl, tt)

verify_chain_unique_example :
    map (λ r. r.event) logged.audit_events ≡ map (λ r. r.event) logged.audit_events
verify_chain_unique_example =
    verify_chain_unique plain logged logged (λ r s m n e. same_event r s m n) (tt, tt) (tt, tt)
      logged-verifies logged-verifies refl

verify_chain_truncated_example :
    AuditLedger.Verify.Reports
      (AuditLedger.verify_chain plain
        (record logged { db = record (logged.db) { audit_events = [] } })).0
      true
verify_chain_truncated_example =
    verify_chain_truncated plain logged logged.audit_events [] (tt, tt) refl logged-verifies

custody_verify_iff_example :
    CustodyLedger.Growth.Reports (CustodyLedger.verify_chain plain "item" scene).0 true
    ↔ Chained (custody_chain plain) (rows_of "item" scene.custody_events)
custody_verify_iff_example = custody_verify_iff plain "item" scene (tt, tt)

abbrev same_millisecond : World
same_millisecond = record scene { now = 2 }

verify_chain_tie_example :
    CustodyLedger.Growth.Reports
      (CustodyLedger.verify_chain plain "item" (
        CustodyLedger.appended plain
          (custody_entry "item" "giver" CustodyAction.archive CustodyStatus.completed)
          same_millisecond)).0
      false
verify_chain_tie_example =
    verify_chain_tie plain
      (custody_entry "item" "giver" CustodyAction.archive CustodyStatus.completed) same_millisecond
      transfer refl refl refl refl

abbrev upload : Upload
upload = record { buffer = codes "png"; originalname = "a.png"; mimetype = "image/png"; size = 3 }

register_evidence-IsReadable_example :
    IsReadable plain taker none upload
      (register_evidence plain giver "case" "gun" none none (some "safe") upload scene)
register_evidence-IsReadable_example =
    register_evidence-IsReadable plain (λ n. refl) (λ k iv m. refl) (λ k iv m. refl) giver taker
      "case" "gun" none none (some "safe") none upload scene file_case refl
