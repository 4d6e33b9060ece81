-- ===== src/Evidence/Repository.antt =====
-- apps/api/src/modules/evidence/evidence.repository.js.
use secure_document_manageme.Prelude.{
  ℕ, String, Bool, ◌&&◌, Option, none, some, List, [], ◌∷◌, ◌++◌, ◌==◌, string_eq, list_eq, nat_eq,
  ltb, find?, select, update_where, get_last?, if◌then◌else◌,
}
use secure_document_manageme.Prelude.Sort.{order_by}
use secure_document_manageme.Canonical.{codes}
use secure_document_manageme.Canonical.Print.{print_nat}
use secure_document_manageme.Ledger.{Bytes}
use secure_document_manageme.Sql.{
  advance_counter, last_sequence_of, pad_start, coalesce, coalesce_option,
}
use secure_document_manageme.Db.{
  World, Evidence, EvidenceStatus, EvidenceArtifact, IntegrityStatus, CustodyRow, CustodyAction,
  CustodyStatus, custody_action_eq, custody_status_eq,
}
use secure_document_manageme.Service.{
  Service, Platform, ◌>>=◌, ◌>>◌, or_throw, gets, write, pure, new_uuid, internal_error,
}

-- `replace(/^CASE-/, '')`
abbrev strip_prefix : Bytes → Bytes → Option Bytes
strip_prefix [] s = some s
strip_prefix (x ∷ xs) [] = none
strip_prefix (x ∷ xs) (y ∷ ys) = if x == y then strip_prefix xs ys else none

abbrev pub case_suffix : Bytes → Bytes
case_suffix s = elim (strip_prefix (codes "CASE-") s) [ none ↦ s | some rest ↦ rest ]

unfoldable pub next_evidence_number : String → Service Bytes
unfolding print_nat
next_evidence_number case_id = do
  row ← or_throw (← gets (λ w. find? (λ c. c.id == case_id) w.cases)) internal_error
  write (λ d. record d { evidence_counters = advance_counter case_id d.evidence_counters })
  seq ← gets (λ w. last_sequence_of case_id w.evidence_counters)
  pure (codes "EV-" ++ (case_suffix row.case_number ++ (b'-' ∷ pad_start 2 (print_nat seq))))

unfoldable pub find_evidence_by_id : String → World → Option Evidence
find_evidence_by_id id w = find? (λ e. e.id == id) w.evidence

module _ (p : Platform) where
  unfoldable pub insert_evidence :
      String
      → Bytes
      → String
      → Option String
      → Option String
      → String
      → Option String
      → String
      → Service Evidence
  insert_evidence case_id evidence_number title description category custodian_id location
        created_by =
      do
        id ← new_uuid p
        let row : Evidence = record {
          id = id;
          case_id = case_id;
          evidence_number = evidence_number;
          title = title;
          description = description;
          category = category;
          status = EvidenceStatus.registered;
          current_custodian_id = custodian_id;
          current_location = location;
          created_by = created_by;
        }
        write (λ d. record d { evidence = row ∷ d.evidence })
        pure row

  unfoldable pub insert_artifact :
      String → String → Bytes → String → String → ℕ → Service EvidenceArtifact
  insert_artifact evidence_id storage_key sha256_hash file_name mime_type size_bytes = do
    id ← new_uuid p
    now ← gets (λ w. w.now)
    let row : EvidenceArtifact = record {
      id = id;
      evidence_id = evidence_id;
      storage_key = storage_key;
      sha256_hash = sha256_hash;
      file_name = file_name;
      mime_type = mime_type;
      size_bytes = size_bytes;
      integrity_status = IntegrityStatus.unknown;
      created_at = now;
    }
    write (λ d. record d { evidence_artifacts = row ∷ d.evidence_artifacts })
    pure row

abbrev pub set_evidence_state : EvidenceStatus → Option String → Option String → Evidence → Evidence
set_evidence_state status custodian_id location e = record e {
  status = status;
  current_custodian_id = coalesce custodian_id e.current_custodian_id;
  current_location = coalesce_option location e.current_location;
}

-- The row as it stands after the UPDATE, or nothing if no row has that id.
unfoldable pub update_evidence_state :
    String → EvidenceStatus → Option String → Option String → Service (Option Evidence)
unfolding find_evidence_by_id
update_evidence_state id status custodian_id location = do
  write (λ d. record d {
    evidence =
        update_where (λ e. e.id == id) (set_evidence_state status custodian_id location) d.evidence;
  })
  gets (find_evidence_by_id id)

abbrev older_artifact : EvidenceArtifact → EvidenceArtifact → Bool
older_artifact a b = ltb a.created_at b.created_at

unfoldable pub list_artifacts_for_evidence : String → World → List EvidenceArtifact
list_artifacts_for_evidence id w =
    order_by older_artifact (select (λ a. a.evidence_id == id) w.evidence_artifacts)

unfoldable pub find_artifact_by_id : String → World → Option EvidenceArtifact
find_artifact_by_id id w = find? (λ a. a.id == id) w.evidence_artifacts

unfoldable pub update_artifact_integrity_status : String → IntegrityStatus → Service (Unit {0})
update_artifact_integrity_status id status = write (λ d. record d {
  evidence_artifacts =
      update_where (λ a. a.id == id) (λ a. record a { integrity_status = status })
        d.evidence_artifacts;
})

abbrev older_event : CustodyRow → CustodyRow → Bool
older_event a b = ltb a.created_at b.created_at

abbrev pub is_pending_transfer : String → CustodyRow → Bool
is_pending_transfer id r =
    r.evidence_id == id
    && r.action == CustodyAction.transfer_request
    && r.status == CustodyStatus.pending

-- ORDER BY created_at DESC LIMIT 1. Among events of one millisecond SQL leaves the choice open; here
-- it is the one written first.
unfoldable pub find_latest_pending_transfer : String → World → Option CustodyRow
find_latest_pending_transfer id w =
    get_last? (order_by older_event (select (is_pending_transfer id) w.custody_events))
