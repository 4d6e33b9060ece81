-- ===== src/Approval/Halt.antt =====
-- What a decision leaves of a chain when it is not an approval, and when there is none.
use secure_document_manageme.Prelude.{
  String, ◌≡◌, ◌≢◌, refl, inl, inr, false, Option, some, arith, ◌==◌, ==_iff, string_eq, nat_eq,
  Bool-cases, find?, find?-sound, find?-update_where, update_where,
}
use secure_document_manageme.Db.{
  World, Document, DocumentStatus, ApprovalRequest, ApprovalStep, ApprovalStatus,
  approval_status_eq,
}
use secure_document_manageme.Service.{User, Result, ok, err, Platform, with_transaction}
use secure_document_manageme.Entries.{or_null}
use secure_document_manageme.AuditLedger
use secure_document_manageme.Documents.Repository.{set_document_status, update_document_status}
use secure_document_manageme.Approval.Repository.{
  list_steps_for_request, decide, update_step_decision, set_request, update_request_status,
  find_step_by_id,
}
use secure_document_manageme.Approval.Steps.{is_last_step, settle, decide_step}
use secure_document_manageme.Approval.Outcome.{
  Actionable, Actionable-loads, load_step_cases, request_in, step_in,
}

abbrev pub document_in : String → World → Option Document
document_in id w = find? (λ d. d.id == id) w.documents

settle-result :
    (p : Platform) (r : ApprovalRequest) (d : ApprovalStatus) (w : World)
    → (w' : World) × (settle p r d w ≡ (ok tt, w')) × (w'.approval_steps ≡ w.approval_steps)
unfolding settle update_request_status update_document_status
settle-result p r d w = elim (Bool-cases (d == ApprovalStatus.approved)) [
  | inr halts ↦ rw halts (_, refl, refl)
  | inl goes ↦ elim (Bool-cases (is_last_step r (list_steps_for_request r.id w))) [
    | inl last ↦ rw (goes, last) (_, refl, refl)
    | inr more ↦ rw (goes, more) (_, refl, refl)
  ]
]

-- The state once the step is decided.
abbrev decided_in : String → ApprovalStatus → Option String → World → World
decided_in id decision comments w = record w {
  db = record (w.db) {
    approval_steps =
        update_where (λ s. s.id == id) (decide decision (or_null comments) w.now) w.approval_steps;
  };
}

module _ (p : Platform) (actor : User) (id : String) (decision : ApprovalStatus)
    (comments : Option String) where
  -- A decision that is made: the step was to be decided by the caller, and is returned as decided.
  pub record Decided (w : World) (r : Option ApprovalStep) : Type 0 where
    pub step : ApprovalStep
    pub request : ApprovalRequest
    pub actionable : Actionable id actor w step request
    pub result : r ≡ some (decide decision (or_null comments) w.now step)

  abbrev pub Verdict : World → Result (Option ApprovalStep) × World → Type 0
  Verdict w (ok r, w') = Decided w r × (step_in id w' ≡ r)
  Verdict w (err e, w') = w' ≡ w

  -- Every run of `decideStep` either leaves the state as it was, or decides a step that is the
  -- caller's, undecided, in an active chain and at its turn, and stores it with the decision.
  pub decide_step-Verdict : (w : World) → Verdict w (decide_step p actor id decision comments w)
  unfolding decide_step update_step_decision find_step_by_id with_transaction
      AuditLedger.append_event
  decide_step-Verdict w = elim (load_step_cases id actor w) [
    | inl (e, refused) ↦ rw refused refl
    | inr (step, request, h) ↦
        let e : step.id ≡ id =
          (==_iff step.id id).0 (find?-sound _ w.approval_steps step h.found) in
        let updated = decided_in step.id decision comments w in
        let stored =
          find?-update_where (λ s. s.id == step.id) (decide decision (or_null comments) w.now)
            (λ s k. k) w.approval_steps step (rw (← e) at h.found) in
        let (w', settled, same) = settle-result p request decision updated in
        rw (Actionable-loads id actor w step request h, settled)
          (
            record { step = step; request = request; actionable = h; result = stored },
            rw (same, ← e) refl,
          )
  ]

module _ (p : Platform) (actor : User) (id : String) (decision : ApprovalStatus)
    (comments : Option String) where
  -- A decision other than approval closes the chain with that decision at the step that it has
  -- reached, touches no other step, and turns the document into a draft, whatever status the
  -- document had.
  pub decide_step_halts :
      (w : World) (step : ApprovalStep) (request : ApprovalRequest) (d : Document)
      → Actionable id actor w step request
      → decision ≢ ApprovalStatus.approved
      → document_in request.document_id w ≡ some d
      → let w' = (decide_step p actor id decision comments w).1 in
        (request_in request.id w'
          ≡ some (set_request decision request.current_step (some w.now) request))
        × (document_in request.document_id w' ≡ some (record d { status = DocumentStatus.draft }))
        × (w'.approval_steps
            ≡ update_where
                (λ s. s.id == step.id)
                (decide decision (or_null comments) w.now)
                w.approval_steps)
  unfolding decide_step settle update_step_decision update_request_status update_document_status
      with_transaction AuditLedger.append_event
  decide_step_halts w step request d h other doc =
      let halts : decision == ApprovalStatus.approved ≡ false =
        ground (arith, ==_iff decision ApprovalStatus.approved) in
      let e =
        (==_iff request.id step.approval_request_id).0
          (find?-sound _ w.approval_requests request h.chain) in
      rw (Actionable-loads id actor w step request h, halts)
        (
          find?-update_where (λ r. r.id == request.id)
              (set_request decision request.current_step (some w.now)) (λ r k. k)
              w.approval_requests request (rw (← e) at h.chain),
          find?-update_where (λ r. r.id == request.document_id)
              (set_document_status DocumentStatus.draft) (λ r k. k) w.documents d doc,
          refl,
        )
