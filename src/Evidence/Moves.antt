-- ===== src/Evidence/Moves.antt =====
-- The operations of evidence.service.js that move an item along, against the life cycle.
use secure_document_manageme.Prelude.{
  String, ◌≡◌, ◌≢◌, refl, ◌⊎◌, inl, inr, Bool, true, false, Option, none, some, List, arith,
  if◌then◌else◌, ◌==◌, ==_iff, string_eq, Bool-cases, Option-cases, contains, find?, update_where,
  find?-update_where,
}
use secure_document_manageme.Db.{
  World, Evidence, EvidenceStatus, evidence_status_eq, CustodyAction, CustodyStatus,
}
use secure_document_manageme.Service.{
  Service, Result, ok, err, Platform, User, HttpError, http_error, pure, ◌>>=◌, ◌>>◌, or_throw,
  gets, with_transaction,
}
use secure_document_manageme.AuditLedger
use secure_document_manageme.CustodyLedger
use secure_document_manageme.Evidence.Repository.{
  find_evidence_by_id, set_evidence_state, update_evidence_state,
}
use secure_document_manageme.Evidence.Lifecycle.{
  allowed_transitions, evidence_not_found, assert_legal_transition, assert_is_current_custodian,
  move_evidence, seal_evidence, start_analysis, complete_analysis, return_evidence,
  archive_evidence,
}

-- What an UPDATE by id does to the row that is found by that id.
pub find?-set_state :
    (id : String) (s : EvidenceStatus) (c l : Option String) (rows : List Evidence) (row : Evidence)
    → find? (λ e. e.id == id) rows ≡ some row
    → find? (λ e. e.id == id) (update_where (λ e. e.id == id) (set_evidence_state s c l) rows)
      ≡ some (set_evidence_state s c l row)
find?-set_state id s c l rows row h =
    find?-update_where (λ e. e.id == id) (set_evidence_state s c l) (λ e same. same) rows row h

-- The five operations that move an item by its present state alone.
pub data Move : Type 0 where
  seal : Move
  start : Move
  complete : Move
  hand_back : Move
  archive : Move

abbrev pub target : Move → EvidenceStatus
target seal = EvidenceStatus.sealed
target start = EvidenceStatus.under_analysis
target complete = EvidenceStatus.in_custody
target hand_back = EvidenceStatus.returned
target archive = EvidenceStatus.archived

module _ (p : Platform) where
  abbrev pub move : Move → User → String → Service (Option Evidence)
  move seal = seal_evidence p
  move start = start_analysis p
  move complete = complete_analysis p
  move hand_back = return_evidence p
  move archive = archive_evidence p

  move_evidence-result :
      (actor : User) (id : String) (row : Evidence) (s : EvidenceStatus) (a : CustodyAction)
      (o : CustodyStatus) (t : String) (w : World)
      → find? (λ e. e.id == id) w.evidence ≡ some row
      → ((move_evidence p actor id row s a o t w).0 ≡ ok (some (record row { status = s })))
        × (find? (λ e. e.id == id) (move_evidence p actor id row s a o t w).1.evidence
            ≡ some (record row { status = s }))
  unfolding move_evidence with_transaction update_evidence_state find_evidence_by_id
      AuditLedger.append_event CustodyLedger.append_event
  move_evidence-result actor id row s a o t w h =
      let e = find?-set_state id s none none w.evidence row h in (rw e, e)

-- `archiveEvidence` is the only move that does not ask for the current custodian.
abbrev pub needs_custodian : Move → Bool
needs_custodian archive = false
needs_custodian _ = true

abbrev pub found_in : String → World → Option Evidence
found_in id w = find? (λ e. e.id == id) w.evidence

-- The caller may make the move: the current custodian may, and when archiving anybody may.
abbrev pub MayMove : Move → User → Evidence → Type 0
MayMove m actor row = (needs_custodian m ≡ false) ⊎ (row.current_custodian_id ≡ actor.id)

-- What a move that succeeds has found, and what it leaves.
pub record Moved (m : Move) (actor : User) (id : String) (w w' : World) (r : Option Evidence)
    : Type 0 where
  pub row : Evidence
  pub found : found_in id w ≡ some row
  pub custodian : MayMove m actor row
  pub legal : contains (allowed_transitions row.status) (target m) ≡ true
  pub result : r ≡ some (record row { status = target m })
  pub stored : found_in id w' ≡ some (record row { status = target m })

-- Why a move is refused: the first condition that fails, the ones before it being met.
pub data Refused (m : Move) (actor : User) (id : String) (w : World) : HttpError → Type 0 where
  missing : found_in id w ≡ none → Refused m actor id w evidence_not_found
  not_custodian :
      (row : Evidence)
      → found_in id w ≡ some row
      → needs_custodian m ≡ true
      → row.current_custodian_id ≢ actor.id
      → Refused m actor id w (http_error 403 "NOT_CUSTODIAN")
  illegal :
      (row : Evidence)
      → found_in id w ≡ some row
      → MayMove m actor row
      → contains (allowed_transitions row.status) (target m) ≡ false
      → Refused m actor id w (http_error 409 "ILLEGAL_TRANSITION")

abbrev pub Outcome : Move → User → String → World → Result (Option Evidence) × World → Type 0
Outcome m actor id w (ok r, w') = Moved m actor id w w' r
Outcome m actor id w (err e, w') = (w' ≡ w) × Refused m actor id w e

module _ (p : Platform) (m : Move) (actor : User) (id : String) where
  -- The shape that the five operations have.
  abbrev guarded : CustodyAction → CustodyStatus → String → Service (Option Evidence)
  guarded a o t = do
    row ← or_throw (← gets (λ w. found_in id w)) evidence_not_found
    (if needs_custodian m then assert_is_current_custodian row actor else pure tt)
    assert_legal_transition row.status (target m)
    move_evidence p actor id row (target m) a o t

  moved :
      (a : CustodyAction) (o : CustodyStatus) (t : String) (w : World) (row : Evidence)
      → found_in id w ≡ some row
      → MayMove m actor row
      → contains (allowed_transitions row.status) (target m) ≡ true
      → Outcome m actor id w (move_evidence p actor id row (target m) a o t w)
  unfolding move_evidence with_transaction update_evidence_state find_evidence_by_id
      AuditLedger.append_event CustodyLedger.append_event
  moved a o t w row h c l =
      let e = find?-set_state id (target m) none none w.evidence row h in
      record { row = row; found = h; custodian = c; legal = l; result = e; stored = e }

  legal-Outcome :
      (a : CustodyAction) (o : CustodyStatus) (t : String) (w : World) (row : Evidence)
      → found_in id w ≡ some row
      → MayMove m actor row
      → Outcome m actor id w (
          (assert_legal_transition row.status (target m)
              >> move_evidence p actor id row (target m) a o t)
            w)
  legal-Outcome a o t w row h c =
      elim (Bool-cases (contains (allowed_transitions row.status) (target m))) [
        | inl fits ↦ rw fits (moved a o t w row h c fits)
        | inr unfit ↦ rw unfit (refl, illegal row h c unfit)
      ]

  guarded-Outcome :
      (a : CustodyAction) (o : CustodyStatus) (t : String) (w : World)
      → Outcome m actor id w (guarded a o t w)
  guarded-Outcome a o t w = elim (Option-cases (found_in id w)) [
    | inl none_found ↦ rw none_found (refl, missing none_found)
    | inr (row, h) ↦ rw h (elim (Bool-cases (needs_custodian m)) [
      | inr free ↦ rw free (legal-Outcome a o t w row h (inl free))
      | inl bound ↦ rw bound (elim (Bool-cases (row.current_custodian_id == actor.id)) [
        | inl same ↦
            rw same (
              legal-Outcome a o t w row h (inr ((==_iff row.current_custodian_id actor.id).0 same)))
        | inr other ↦ rw other (
          refl,
          not_custodian row h bound (ground (arith, ==_iff row.current_custodian_id actor.id)),
        )
      ])
    ])
  ]

-- Every run of seal, start of analysis, its completion, return and archive ends in one of two
-- ways: the item exists, the caller is its current custodian (not asked for when archiving), the
-- transition table allows the step, and the item is returned and stored with the new status and
-- otherwise as it was; or the state is untouched and the error names the first of these
-- conditions that fails, the ones before it being met.
pub move-Outcome :
    (p : Platform) (m : Move) (actor : User) (id : String) (w : World)
    → Outcome m actor id w (move p m actor id w)
unfolding seal_evidence start_analysis complete_analysis return_evidence archive_evidence
    find_evidence_by_id
move-Outcome p seal actor id w =
    guarded-Outcome p seal actor id CustodyAction.seal CustodyStatus.completed "EVIDENCE_SEALED" w
move-Outcome p start actor id w =
    guarded-Outcome p start actor id CustodyAction.analyze CustodyStatus.pending
      "EVIDENCE_ANALYSIS_STARTED" w
move-Outcome p complete actor id w =
    guarded-Outcome p complete actor id CustodyAction.analyze CustodyStatus.completed
      "EVIDENCE_ANALYSIS_COMPLETED" w
move-Outcome p hand_back actor id w =
    guarded-Outcome p hand_back actor id CustodyAction.hand_back CustodyStatus.completed
      "EVIDENCE_RETURNED" w
move-Outcome p archive actor id w =
    guarded-Outcome p archive actor id CustodyAction.archive CustodyStatus.completed
      "EVIDENCE_ARCHIVED" w
