-- ===== src/Evidence/Growth.antt =====
-- What the evidence requests do to the audit table.
use secure_document_manageme.Prelude.{string_eq, ℕ, String, refl, Option, List, [], ◌∷◌}
use secure_document_manageme.Db.{
  Evidence, EvidenceArtifact, EvidenceStatus, IntegrityStatus, CustodyAction, CustodyStatus,
  Severity,
}
use secure_document_manageme.Service.{write, Platform, User, Result}
use secure_document_manageme.Entries.{raise_security_event}
use secure_document_manageme.AuditLedger.Growth.{
  Appends, Appends-unaudited, Appends-bind, Appends-pure, appends_rules,
}
use secure_document_manageme.CustodyLedger
use secure_document_manageme.CustodyLedger.{CustodyEntry}
use secure_document_manageme.Storage
use secure_document_manageme.Sql.{advance_counter}
use secure_document_manageme.Evidence.Repository.{
  next_evidence_number, update_evidence_state, insert_evidence, insert_artifact,
  update_artifact_integrity_status,
}
use secure_document_manageme.Evidence.Lifecycle.{
  Upload, store_upload, register_evidence, add_artifact, move_evidence, seal_evidence,
  start_analysis, complete_analysis, return_evidence, archive_evidence,
}
use secure_document_manageme.Evidence.Integrity.{
  CheckResult, integrity_of, from_result, record_integrity, stored_plaintext, check_artifacts,
  report_check, verify_evidence, download_artifact,
}
use secure_document_manageme.Evidence.Transfer.{
  request_transfer, load_pending_transfer, complete_transfer, block_transfer, accept_transfer,
  reject_transfer,
}
use secure_document_manageme.Ledger.{Bytes}

module _ (p : Platform) where
  Appends-custody : (e : CustodyEntry) → Appends p (CustodyLedger.append_event p e)
  unfolding CustodyLedger.append_event
  Appends-custody e = Appends-unaudited p _ (λ w. refl) (λ w. refl)

  Appends-update_state :
      (id : String) (s : EvidenceStatus) (c l : Option String)
      → Appends p (update_evidence_state id s c l)
  unfolding update_evidence_state
  Appends-update_state id s c l = Appends-unaudited p _ (λ w. refl) (λ w. refl)

  pub Appends-raise :
      (t : String) (v : Severity) (u r i : Option String)
      → Appends p (raise_security_event p t v u r i)
  unfolding raise_security_event
  Appends-raise t v u r i = Appends-unaudited p _ (λ w. refl) (λ w. refl)

  Appends-count :
      (c : String)
      → Appends p
          (write (λ d. record d { evidence_counters = advance_counter c d.evidence_counters }))
  Appends-count c = Appends-unaudited p _ (λ w. refl) (λ w. refl)

  Appends-next_number : (c : String) → Appends p (next_evidence_number c)
  unfolding next_evidence_number
  Appends-next_number c = search (appends_rules, Appends-count) depth 12

  Appends-insert_evidence :
      (c : String) (n : Bytes) (t : String) (d k : Option String) (u : String) (l : Option String)
      (b : String)
      → Appends p (insert_evidence p c n t d k u l b)
  unfolding insert_evidence
  Appends-insert_evidence c n t d k u l b = Appends-unaudited p _ (λ w. refl) (λ w. refl)

  Appends-insert_artifact :
      (e k : String) (h : Bytes) (f m : String) (n : ℕ) → Appends p (insert_artifact p e k h f m n)
  unfolding insert_artifact
  Appends-insert_artifact e k h f m n = Appends-unaudited p _ (λ w. refl) (λ w. refl)

  Appends-integrity :
      (id : String) (s : IntegrityStatus) → Appends p (update_artifact_integrity_status id s)
  unfolding update_artifact_integrity_status
  Appends-integrity id s = Appends-unaudited p _ (λ w. refl) (λ w. refl)

  pub Appends-put : (k : String) (v : Bytes) → Appends p (Storage.put k v)
  unfolding Storage.put
  Appends-put k v = Appends-unaudited p _ (λ w. refl) (λ w. refl)

  Appends-get : (k : String) → Appends p (Storage.get k)
  unfolding Storage.get
  Appends-get k = search appends_rules depth 8

  ruleset evidence_rules = (
    appends_rules, Appends-custody, Appends-raise, Appends-update_state, Appends-next_number,
    Appends-insert_evidence, Appends-insert_artifact, Appends-integrity, Appends-put, Appends-get,
  )

  pub Appends-from_result : {A : Type 0} (r : Result A) → Appends p (from_result r)
  Appends-from_result r = Appends-unaudited p _ (λ w. refl) (λ w. refl)

  Appends-record_integrity : (rs : List CheckResult) → Appends p (record_integrity rs)
  unfolding record_integrity
  Appends-record_integrity [] = search appends_rules
  Appends-record_integrity (r ∷ rs) =
      Appends-bind p _ _ (Appends-integrity r.artifact_id (integrity_of r.matches))
        (λ _. Appends-record_integrity rs)

  pub Appends-stored : (k : String) → Appends p (stored_plaintext p k)
  unfolding stored_plaintext
  Appends-stored k = search (appends_rules, Appends-get, Appends-from_result)

  Appends-check : (xs : List EvidenceArtifact) → Appends p (check_artifacts p xs)
  unfolding check_artifacts
  Appends-check [] = search appends_rules
  Appends-check (a ∷ rest) =
      Appends-bind p _ _ (Appends-stored a.storage_key)
        (λ b. Appends-bind p _ _ (Appends-check rest) (λ rs. Appends-pure p _))

  Appends-move :
      (u : User) (id : String) (r : Evidence) (s : EvidenceStatus) (a : CustodyAction)
      (o : CustodyStatus) (t : String)
      → Appends p (move_evidence p u id r s a o t)
  unfolding move_evidence
  Appends-move u id r s a o t = search evidence_rules depth 16

  ruleset request_rules =
      (evidence_rules, Appends-move, Appends-record_integrity, Appends-stored, Appends-check)

  pub Appends-register :
      (u : User) (c t : String) (d k l : Option String) (f : Upload)
      → Appends p (register_evidence p u c t d k l f)
  unfolding register_evidence store_upload
  Appends-register u c t d k l f = search request_rules depth 40 fits 4000

  pub Appends-add_artifact :
      (u : User) (id : String) (f : Upload) → Appends p (add_artifact p u id f)
  unfolding add_artifact store_upload
  Appends-add_artifact u id f = search request_rules depth 40 fits 4000

  pub Appends-seal : (u : User) (id : String) → Appends p (seal_evidence p u id)
  unfolding seal_evidence
  Appends-seal u id = search request_rules depth 40 fits 4000

  pub Appends-start : (u : User) (id : String) → Appends p (start_analysis p u id)
  unfolding start_analysis
  Appends-start u id = search request_rules depth 40 fits 4000

  pub Appends-complete : (u : User) (id : String) → Appends p (complete_analysis p u id)
  unfolding complete_analysis
  Appends-complete u id = search request_rules depth 40 fits 4000

  pub Appends-return : (u : User) (id : String) → Appends p (return_evidence p u id)
  unfolding return_evidence
  Appends-return u id = search request_rules depth 40 fits 4000

  pub Appends-archive : (u : User) (id : String) → Appends p (archive_evidence p u id)
  unfolding archive_evidence
  Appends-archive u id = search request_rules depth 40 fits 4000

  pub Appends-verify : (u : User) (id : String) → Appends p (verify_evidence p u id)
  unfolding verify_evidence report_check
  Appends-verify u id = search request_rules depth 40 fits 4000

  pub Appends-download :
      (u : User) (id a : String) (ip : Option String) → Appends p (download_artifact p u id a ip)
  unfolding download_artifact
  Appends-download u id a ip = search request_rules depth 40 fits 4000

  pub Appends-request :
      (u : User) (id to : String) (r l : Option String) → Appends p (request_transfer p u id to r l)
  unfolding request_transfer
  Appends-request u id to r l = search request_rules depth 40 fits 4000

  pub Appends-accept : (u : User) (id t : String) → Appends p (accept_transfer p u id t)
  unfolding accept_transfer load_pending_transfer complete_transfer block_transfer
  Appends-accept u id t = search request_rules depth 40 fits 4000

  pub Appends-reject :
      (u : User) (id t : String) (r : Option String) → Appends p (reject_transfer p u id t r)
  unfolding reject_transfer load_pending_transfer
  Appends-reject u id t r = search request_rules depth 40 fits 4000
