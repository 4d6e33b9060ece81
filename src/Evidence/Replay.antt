-- ===== src/Evidence/Replay.antt =====
-- What acceptTransfer does not ask for.
use secure_document_manageme.Prelude.{
  String, ◌≡◌, refl, inl, inr, true, some, List, ◌==◌, string_eq, Bool-cases,
}
use secure_document_manageme.Db.{World, Evidence, EvidenceStatus, CustodyRow}
use secure_document_manageme.Service.{Platform, User, ok, with_transaction}
use secure_document_manageme.Entries.{raise_security_event}
use secure_document_manageme.AuditLedger
use secure_document_manageme.CustodyLedger
use secure_document_manageme.Evidence.Repository.{
  list_artifacts_for_evidence, find_latest_pending_transfer, set_evidence_state,
  update_evidence_state, find_evidence_by_id,
}
use secure_document_manageme.Evidence.Integrity.{CheckResult, all_matches, check_artifacts}
use secure_document_manageme.Evidence.Transfer.{complete_transfer, block_transfer, accept_transfer}
use secure_document_manageme.Evidence.Custody.{check_cases}
use secure_document_manageme.Evidence.Moves.{find?-set_state}
use secure_document_manageme.Evidence.Handover.{
  Pending, Pending-loads, load_cases, record_integrity-result,
}

module _ (p : Platform) (actor : User) (id transfer_id : String) where
  -- Answering a transfer does not close it: whatever `acceptTransfer` returns, every item has the
  -- same latest pending transfer after it as before, the accepted one included.
  pub accept_leaves_pending :
      (other : String) (w : World)
      → find_latest_pending_transfer other (accept_transfer p actor id transfer_id w).1
        ≡ find_latest_pending_transfer other w
  unfolding accept_transfer complete_transfer block_transfer with_transaction update_evidence_state
      raise_security_event AuditLedger.append_event CustodyLedger.append_event
      find_latest_pending_transfer
  accept_leaves_pending other w = elim (load_cases id transfer_id actor w) [
    | inl (e, refused) ↦ rw refused refl
    | inr (row, t, pending, loaded) ↦ elim (check_cases p (list_artifacts_for_evidence id w) w) [
      | inl (e, failed) ↦ rw (loaded, failed) refl
      | inr (rs, sound, checked) ↦
          let (xs, marked) = record_integrity-result rs w in
          elim (Bool-cases (all_matches rs)) [
            | inl clean ↦
                rw (loaded, checked, clean, marked)
                  (elim (Bool-cases (id == other)) [
                    | inl same ↦ rw same refl
                    | inr diff ↦ rw diff refl
                  ])
            | inr dirty ↦
                rw (loaded, checked, dirty, marked)
                  (elim (Bool-cases (id == other)) [
                    | inl same ↦ rw same refl
                    | inr diff ↦ rw diff refl
                  ])
          ]
    ]
  ]

  -- Where the latest pending transfer of an item is the caller's and the check of the artifacts
  -- matches, `acceptTransfer` succeeds, whatever the status of the item: also when it has been
  -- accepted before, and when the item has been returned or archived since.
  pub accept_any_status :
      (w : World) (row : Evidence) (t : CustodyRow) (rs : List CheckResult)
      → Pending id transfer_id actor w row t
      → check_artifacts p (list_artifacts_for_evidence id w) w ≡ (ok rs, w)
      → all_matches rs ≡ true
      → (accept_transfer p actor id transfer_id w).0
        ≡ ok (some (set_evidence_state EvidenceStatus.received (some actor.id) t.to_location row))
  unfolding accept_transfer complete_transfer with_transaction update_evidence_state
      find_evidence_by_id AuditLedger.append_event CustodyLedger.append_event
  accept_any_status w row t rs pending checked clean =
      let (xs, marked) = record_integrity-result rs w in
      rw (Pending-loads id transfer_id actor w row t pending, checked, clean, marked)
        (rw
          (find?-set_state id EvidenceStatus.received (some actor.id) t.to_location w.evidence row
            pending.found)
          refl)
