-- ===== src/Evidence/Handover.antt =====
-- Taking over an item: what `acceptTransfer` has checked when it hands over, and what it leaves when
-- it refuses.
use secure_document_manageme.Prelude.{
  String, ◌≡◌, refl, ◌⊎◌, inl, inr, Option, some, List, [], ◌∷◌, ◌==◌, ==_iff, string_eq, option_eq,
  Bool-cases, Option-cases, All, suc,
}
use secure_document_manageme.Db.{
  World, Evidence, EvidenceStatus, EvidenceArtifact, CustodyRow, Severity,
}
use secure_document_manageme.Service.{
  Platform, User, HttpError, http_error, Result, ok, err, with_transaction,
}
use secure_document_manageme.Entries.{raise_security_event}
use secure_document_manageme.AuditLedger
use secure_document_manageme.CustodyLedger
use secure_document_manageme.Evidence.Repository.{
  find_evidence_by_id, list_artifacts_for_evidence, find_latest_pending_transfer,
  set_evidence_state, update_evidence_state, update_artifact_integrity_status,
}
use secure_document_manageme.Evidence.Lifecycle.{evidence_not_found}
use secure_document_manageme.Evidence.Integrity.{CheckResult, all_matches, record_integrity}
use secure_document_manageme.Evidence.Transfer.{
  load_pending_transfer, complete_transfer, block_transfer, accept_transfer,
}
use secure_document_manageme.Evidence.Custody.{IsSound, check_cases}
use secure_document_manageme.Evidence.Moves.{found_in, find?-set_state}

-- The transfer that a recipient answers.
pub record Pending (id transfer_id : String) (actor : User) (w : World) (row : Evidence)
    (t : CustodyRow) : Type 0 where
  pub found : found_in id w ≡ some row
  pub latest : find_latest_pending_transfer id w ≡ some t
  pub asked : t.id ≡ transfer_id
  pub recipient : t.to_user_id ≡ some actor.id

pub load_cases :
    (id transfer_id : String) (actor : User) (w : World)
    → ((e : HttpError) × (load_pending_transfer id transfer_id actor w ≡ (err e, w)))
      ⊎ ((row : Evidence) × (t : CustodyRow) × Pending id transfer_id actor w row t
          × (load_pending_transfer id transfer_id actor w ≡ (ok (row, t), w)))
unfolding load_pending_transfer find_evidence_by_id
load_cases id transfer_id actor w = elim (Option-cases (found_in id w)) [
  | inl gone ↦ inl (evidence_not_found, rw gone refl)
  | inr (row, found) ↦ elim (Option-cases (find_latest_pending_transfer id w)) [
    | inl gone ↦ inl (http_error 404 "NOT_FOUND", rw (found, gone) refl)
    | inr (t, latest) ↦ elim (Bool-cases (t.id == transfer_id)) [
      | inr other ↦ inl (http_error 404 "NOT_FOUND", rw (found, latest, other) refl)
      | inl asked ↦ elim (Bool-cases (t.to_user_id == some actor.id)) [
        | inr other ↦ inl (http_error 403 "NOT_RECIPIENT", rw (found, latest, asked, other) refl)
        | inl recipient ↦ inr (
          row,
          t,
          record {
            found = found;
            latest = latest;
            asked = (==_iff t.id transfer_id).0 asked;
            recipient = (==_iff t.to_user_id (some actor.id)).0 recipient;
          },
          rw (found, latest, asked, recipient) refl,
        )
      ]
    ]
  ]
]

pub Pending-loads :
    (id transfer_id : String) (actor : User) (w : World) (row : Evidence) (t : CustodyRow)
    → Pending id transfer_id actor w row t
    → load_pending_transfer id transfer_id actor w ≡ (ok (row, t), w)
unfolding load_pending_transfer find_evidence_by_id
Pending-loads id transfer_id actor w row t h =
    rw
      (
        h.found,
        h.latest,
        (==_iff t.id transfer_id).1 h.asked,
        (==_iff t.to_user_id (some actor.id)).1 h.recipient,
      )
      refl

abbrev pub with_artifacts : World → List EvidenceArtifact → World
with_artifacts w xs = record w { db = record (w.db) { evidence_artifacts = xs } }

pub record_integrity-result :
    (rs : List CheckResult) (w : World)
    → (xs : List EvidenceArtifact) × (record_integrity rs w ≡ (ok tt, with_artifacts w xs))
unfolding record_integrity update_artifact_integrity_status
record_integrity-result [] w = (w.evidence_artifacts, refl)
record_integrity-result (r ∷ rs) w = record_integrity-result rs _

module _ (p : Platform) (actor : User) (id transfer_id : String) where
  pub record Accepted (w w' : World) (r : Option Evidence) : Type 0 where
    pub row : Evidence
    pub transfer : CustodyRow
    pub pending : Pending id transfer_id actor w row transfer
    pub sound : All (IsSound p w) (list_artifacts_for_evidence id w)
    pub result :
        r
        ≡ some (set_evidence_state EvidenceStatus.received (some actor.id) transfer.to_location row)
    pub stored :
        found_in id w'
        ≡ some (set_evidence_state EvidenceStatus.received (some actor.id) transfer.to_location row)

  -- The refusal of an item that does not match its hashes, with the event that records it.
  pub record Violation (w w' : World) (e : HttpError) : Type 0 where
    pub code : e ≡ http_error 409 "CUSTODY_VIOLATION"
    pub event_id : String
    pub recorded :
        w'.security_events
        ≡ record {
          id = event_id;
          event_type = "CUSTODY_VIOLATION";
          severity = Severity.critical;
          user_id = some actor.id;
          resource_type = some "EVIDENCE";
          resource_id = some id;
        }
          ∷ w.security_events
    pub unmoved : w'.evidence ≡ w.evidence

  abbrev pub Answer : World → Result (Option Evidence) × World → Type 0
  Answer w (ok r, w') = Accepted w w' r
  Answer w (err e, w') = (w' ≡ w) ⊎ Violation w w' e

  -- Every run of `acceptTransfer` ends in one of three ways. The caller is the recipient of the
  -- latest pending transfer of the item and the stored objects of all its artifacts open to
  -- contents with the recorded hashes: then the item is stored as received, with the caller as its
  -- custodian, at the place that the request named, if any. Or the state is left as it was. Or the
  -- error is a custody violation, recorded as a critical security event, with the item left as it
  -- was.
  pub accept_transfer-Answer : (w : World) → Answer w (accept_transfer p actor id transfer_id w)
  unfolding accept_transfer complete_transfer block_transfer with_transaction update_evidence_state
      find_evidence_by_id raise_security_event AuditLedger.append_event CustodyLedger.append_event
  accept_transfer-Answer w = elim (load_cases id transfer_id actor w) [
    | inl (e, refused) ↦ rw refused (inl refl)
    | inr (row, t, pending, loaded) ↦ elim (check_cases p (list_artifacts_for_evidence id w) w) [
      | inl (e, failed) ↦ rw (loaded, failed) (inl refl)
      | inr (rs, sound, checked) ↦
          let (xs, marked) = record_integrity-result rs w in
          let moved =
            find?-set_state id EvidenceStatus.received (some actor.id) t.to_location w.evidence row
              pending.found in
          elim (Bool-cases (all_matches rs)) [
            | inl clean ↦
                rw (loaded, checked, clean, marked)
                  (record {
                    row = row;
                    transfer = t;
                    pending = pending;
                    sound = sound clean;
                    result = moved;
                    stored = moved;
                  })
            | inr dirty ↦
                rw (loaded, checked, dirty, marked)
                  (inr (record {
                    code = refl;
                    event_id = p.uuid (suc w.drawn);
                    recorded = refl;
                    unmoved = refl;
                  }))
          ]
    ]
  ]
