-- ===== src/Approval/Steps.antt =====
-- apps/api/src/modules/approval/approval.service.js.
use secure_document_manageme.Prelude.{
  ℕ, suc, ◌+◌, String, Bool, not, Option, none, some, List, [], ◌∷◌, ◌==◌, string_eq, nat_eq,
  contains, length, if◌then◌else◌,
}
use secure_document_manageme.Canonical.{text, arr, Items, nil, cons}
use secure_document_manageme.Db.{
  Document, DocumentStatus, document_status_eq, ApprovalRequest, ApprovalStep, ApprovalStatus,
  approval_status_eq,
}
use secure_document_manageme.Service.{
  Service, Platform, User, http_error, ◌>>=◌, ◌>>◌, or_throw, throw_if, gets, pure,
  with_transaction,
}
use secure_document_manageme.Entries.{audit_entry, object, or_null}
use secure_document_manageme.AuditLedger
use secure_document_manageme.AuditLedger.{text_or_null}
use secure_document_manageme.Documents.Repository.{find_document_by_id, update_document_status}
use secure_document_manageme.Approval.Repository.{
  insert_request, insert_step, find_request_by_id, update_request_status, find_step_by_id,
  list_steps_for_request, update_step_decision,
}

-- SUBMITTABLE_STATUSES
abbrev submittable_statuses : List DocumentStatus
submittable_statuses = DocumentStatus.draft ∷ DocumentStatus.active ∷ []

-- `[...new Set(ids)]`, with the values that the set already holds.
abbrev unique_from : List String → List String → List String
unique_from seen [] = []
unique_from seen (x ∷ xs) =
    if contains seen x then unique_from seen xs else x ∷ unique_from (x ∷ seen) xs

abbrev pub unique : List String → List String
unique xs = unique_from [] xs

abbrev ids_json : List String → Items
ids_json [] = nil
ids_json (x ∷ xs) = cons (text x) (ids_json xs)

abbrev decision_text : ApprovalStatus → String
decision_text ApprovalStatus.pending = "PENDING"
decision_text ApprovalStatus.approved = "APPROVED"
decision_text ApprovalStatus.rejected = "REJECTED"
decision_text ApprovalStatus.revision_requested = "REVISION_REQUESTED"

abbrev case_or_null : Option Document → Option String
case_or_null none = none
case_or_null (some d) = some d.case_id

-- `!request || request.status !== 'PENDING'` is false of what this returns.
abbrev pub active_request : Option ApprovalRequest → Option ApprovalRequest
active_request none = none
active_request (some r) = if r.status == ApprovalStatus.pending then some r else none

unfoldable pub load_actionable_step : String → User → Service (ApprovalStep × ApprovalRequest)
unfolding find_step_by_id find_request_by_id
load_actionable_step step_id actor = do
  step ← or_throw (← gets (find_step_by_id step_id)) (http_error 404 "NOT_FOUND")
  throw_if (not (step.approver_id == actor.id)) (http_error 403 "NOT_APPROVER")
  throw_if (not (step.status == ApprovalStatus.pending)) (http_error 409 "CONFLICT")
  request ←
      or_throw (active_request (← gets (find_request_by_id step.approval_request_id)))
        (http_error 409 "CONFLICT")
  throw_if (not (step.step_order == request.current_step)) (http_error 409 "NOT_YOUR_TURN")
  pure (step, request)

-- `request.current_step === steps.length - 1`; there is a step, the one that is being decided.
abbrev pub is_last_step : ApprovalRequest → List ApprovalStep → Bool
is_last_step request steps = request.current_step + 1 == length steps

module _ (p : Platform) where
  -- The loop over the approvers, from the order that it has reached.
  unfoldable pub insert_steps : String → ℕ → List String → Service (Unit {0})
  unfolding insert_step
  insert_steps request_id i [] = pure tt
  insert_steps request_id i (approver ∷ rest) =
      insert_step p request_id i approver >> insert_steps request_id (suc i) rest

  unfoldable pub submit_for_approval :
      User → String → List String → Service (ApprovalRequest × List ApprovalStep)
  unfolding find_document_by_id insert_request insert_steps update_document_status
      list_steps_for_request AuditLedger.append_event with_transaction
  submit_for_approval actor document_id approver_ids = do
    document ← or_throw (← gets (find_document_by_id document_id)) (http_error 404 "NOT_FOUND")
    version_id ← or_throw document.current_version_id (http_error 409 "CONFLICT")
    throw_if (not (contains submittable_statuses document.status))
        (http_error 409 "ILLEGAL_TRANSITION")
    let approvers = unique approver_ids
    throw_if (nat_eq.equals (length approvers) 0) (http_error 400 "VALIDATION_ERROR")
    throw_if (contains approvers actor.id) (http_error 400 "INVALID_APPROVER")
    with_transaction (do
      request ← insert_request p document_id version_id actor.id
      insert_steps request.id 0 approvers
      update_document_status document_id DocumentStatus.under_review
      AuditLedger.append_event p
          (record (audit_entry actor.id "APPROVAL_REQUESTED" "DOCUMENT" document_id
            (some document.case_id)) {
              metadata = object (
                  ("approvalRequestId", text request.id)
                  ∷ ("approverIds", arr (ids_json approvers))
                  ∷ []);
            })
      steps ← gets (list_steps_for_request request.id)
      pure (request, steps))

  -- What becomes of the request and of the document once the step is decided.
  unfoldable pub settle : ApprovalRequest → ApprovalStatus → Service (Unit {0})
  unfolding list_steps_for_request update_request_status update_document_status
  settle request decision = do
    now ← gets (λ w. w.now)
    steps ← gets (list_steps_for_request request.id)
    (if decision == ApprovalStatus.approved
        then (if is_last_step request steps
            then (update_request_status request.id ApprovalStatus.approved request.current_step
                  (some now)
                >> (update_document_status request.document_id DocumentStatus.approved >> pure tt))
            else update_request_status request.id ApprovalStatus.pending (request.current_step + 1)
                none)
        else (update_request_status request.id decision request.current_step (some now)
            >> (update_document_status request.document_id DocumentStatus.draft >> pure tt)))

  unfoldable pub decide_step :
      User → String → ApprovalStatus → Option String → Service (Option ApprovalStep)
  unfolding load_actionable_step find_document_by_id update_step_decision settle
      AuditLedger.append_event with_transaction
  decide_step actor step_id decision comments = do
    loaded ← load_actionable_step step_id actor
    let request = loaded.1
    document ← gets (find_document_by_id request.document_id)
    with_transaction (do
      decided ← update_step_decision loaded.0.id decision (or_null comments)
      settle request decision
      AuditLedger.append_event p
          (record (audit_entry actor.id "APPROVAL_STEP_DECIDED" "DOCUMENT" request.document_id
            (case_or_null document)) {
              metadata = object (
                  ("approvalRequestId", text request.id)
                  ∷ ("stepId", text loaded.0.id)
                  ∷ ("decision", text (decision_text decision))
                  ∷ ("comments", text_or_null (or_null comments))
                  ∷ []);
            })
      pure decided)

  unfoldable pub finalize_document : User → String → Service (Option Document)
  unfolding find_document_by_id update_document_status AuditLedger.append_event with_transaction
  finalize_document actor document_id = do
    document ← or_throw (← gets (find_document_by_id document_id)) (http_error 404 "NOT_FOUND")
    throw_if (not (document.status == DocumentStatus.signed)) (http_error 409 "ILLEGAL_TRANSITION")
    with_transaction (do
      updated ← update_document_status document_id DocumentStatus.final
      AuditLedger.append_event p
          (audit_entry actor.id "DOCUMENT_FINALIZED" "DOCUMENT" document_id (some document.case_id))
      pure updated)
