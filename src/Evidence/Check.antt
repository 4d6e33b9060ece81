-- ===== src/Evidence/Check.antt =====
-- The integrity check of an item, and the advance that a clean one makes of a sealed item.
use secure_document_manageme.Prelude.{
  String, ◌≡◌, refl, inl, inr, Bool, true, ◌&&◌, none, some, ◌==◌, nat_eq, Bool-cases, Option-cases,
  length, All, if◌then◌else◌,
}
use secure_document_manageme.Db.{World, Evidence, EvidenceStatus, evidence_status_eq}
use secure_document_manageme.Service.{Platform, User, Result, ok, err, with_transaction}
use secure_document_manageme.Entries.{raise_security_event}
use secure_document_manageme.AuditLedger
use secure_document_manageme.Evidence.Repository.{
  find_evidence_by_id, list_artifacts_for_evidence, update_evidence_state,
}
use secure_document_manageme.Evidence.Integrity.{
  VerifyReport, all_matches, report_check, verify_evidence,
}
use secure_document_manageme.Evidence.Moves.{found_in, find?-set_state}
use secure_document_manageme.Evidence.Custody.{IsSound, check_cases}
use secure_document_manageme.Evidence.Handover.{record_integrity-result}

abbrev pub advanced : Bool → Evidence → Evidence
advanced a row = if a then record row { status = EvidenceStatus.in_custody } else row

module _ (p : Platform) (actor : User) (id : String) where
  -- What a check that returns its report has found, and what it leaves.
  pub record Checked (w w' : World) (r : VerifyReport) : Type 0 where
    pub row : Evidence
    pub found : found_in id w ≡ some row
    pub sound : r.all_match ≡ true → All (IsSound p w) (list_artifacts_for_evidence id w)
    pub advance : r.advanced_to_in_custody ≡ (r.all_match && row.status == EvidenceStatus.sealed)
    pub stored : found_in id w' ≡ some (advanced r.advanced_to_in_custody row)

  abbrev pub Report : World → Result VerifyReport × World → Type 0
  Report w (ok r, w') = Checked w w' r
  Report w (err e, w') = w' ≡ w

  -- Every run of `verifyEvidence` either leaves the state as it was, or reports: a report that all
  -- artifacts match means that the stored object of each opens to a content with its recorded hash,
  -- and the item passes from sealed into custody exactly when it was sealed and all match, and is
  -- otherwise as it was.
  pub verify_evidence-Report : (w : World) → Report w (verify_evidence p actor id w)
  unfolding verify_evidence report_check with_transaction update_evidence_state find_evidence_by_id
      raise_security_event AuditLedger.append_event
  verify_evidence-Report w = elim (Option-cases (found_in id w)) [
    | inl gone ↦ rw gone refl
    | inr (row, found) ↦
        elim (Bool-cases (nat_eq.equals (length (list_artifacts_for_evidence id w)) 0)) [
          | inl empty ↦ rw (found, empty) refl
          | inr some_artifact ↦ elim (check_cases p (list_artifacts_for_evidence id w) w) [
            | inl (e, failed) ↦ rw (found, some_artifact, failed) refl
            | inr (rs, sound, checked) ↦
                let (xs, marked) = record_integrity-result rs w in
                let moved =
                  find?-set_state id EvidenceStatus.in_custody none none w.evidence row found in
                elim (Bool-cases (all_matches rs)) [
                  | inr dirty ↦
                      rw (found, some_artifact, checked, marked)
                        (rw dirty (
                          rw dirty (record {
                            row = row;
                            found = found;
                            sound = λ m. cc;
                            advance = rw dirty refl;
                            stored = rw dirty found;
                          })))
                  | inl clean ↦ elim (Bool-cases (row.status == EvidenceStatus.sealed)) [
                    | inl shut ↦
                        rw (found, some_artifact, checked, marked)
                          (rw (clean, shut)
                            (rw (clean, shut)
                              (record {
                                row = row;
                                found = found;
                                sound = λ m. sound clean;
                                advance = rw (clean, shut) refl;
                                stored = rw clean moved;
                              })))
                    | inr open_item ↦
                        rw (found, some_artifact, checked, marked)
                          (rw (clean, open_item)
                            (rw (clean, open_item)
                              (record {
                                row = row;
                                found = found;
                                sound = λ m. sound clean;
                                advance = rw (clean, open_item) refl;
                                stored = rw clean found;
                              })))
                  ]
                ]
          ]
        ]
  ]
