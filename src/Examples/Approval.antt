-- ===== src/Examples/Approval.antt =====
-- The approval theorems on a chain of two steps of which the first is approved.
use secure_document_manageme.Prelude.{
  String, ◌≡◌, refl, none, some, [], ◌∷◌, arith, ◌==◌, string_eq, update_where,
}
use secure_document_manageme.Db.{
  World, Document, DocumentStatus, ApprovalRequest, ApprovalStep, ApprovalStatus,
  approval_status_eq,
}
use secure_document_manageme.Approval.Repository.{decide, set_request}
use secure_document_manageme.Approval.Steps.{decide_step}
use secure_document_manageme.Approval.Outcome.{Actionable, request_in}
use secure_document_manageme.Approval.Halt.{
  Verdict, document_in, decide_step-Verdict, decide_step_halts,
}
use secure_document_manageme.Examples.{plain, taker, scene}

abbrev step_of : String → String → ApprovalStatus → ApprovalStep
step_of id approver status = record {
  id = id;
  approval_request_id = "request";
  step_order = 0;
  approver_id = approver;
  status = status;
  comments = none;
  decided_at = none;
  created_at = 1;
}

abbrev first_step : ApprovalStep
first_step = step_of "first" "giver" ApprovalStatus.approved

abbrev second_step : ApprovalStep
second_step = record (step_of "second" "taker" ApprovalStatus.pending) { step_order = 1 }

abbrev chain : ApprovalRequest
chain = record {
  id = "request";
  document_id = "document";
  document_version_id = "version";
  requested_by = "author";
  status = ApprovalStatus.pending;
  current_step = 1;
  created_at = 1;
  completed_at = none;
}

-- The document has been deleted since it was submitted.
abbrev deleted : Document
deleted = record {
  id = "document";
  case_id = "case";
  document_type_id = none;
  title = "report";
  description = none;
  owner_id = "author";
  status = DocumentStatus.deleted;
  current_version_id = some "version";
}

abbrev review : World
review = record scene {
  db = record (scene.db) {
    documents = deleted ∷ [];
    approval_requests = chain ∷ [];
    approval_steps = second_step ∷ first_step ∷ [];
  };
}

review-Actionable : Actionable "second" taker review second_step chain
review-Actionable = record {
  found = refl;
  own = refl;
  undecided = refl;
  chain = refl;
  active = refl;
  turn = refl;
}

decide_step-Verdict_example :
    Verdict plain taker "second" ApprovalStatus.rejected none review
      (decide_step plain taker "second" ApprovalStatus.rejected none review)
decide_step-Verdict_example =
    decide_step-Verdict plain taker "second" ApprovalStatus.rejected none review

decide_step_halts_example :
    (request_in "request" (decide_step plain taker "second" ApprovalStatus.rejected none review).1
      ≡ some (set_request ApprovalStatus.rejected 1 (some 9) chain))
    × (document_in "document"
          (decide_step plain taker "second" ApprovalStatus.rejected none review).1
        ≡ some (record deleted { status = DocumentStatus.draft }))
    × ((decide_step plain taker "second" ApprovalStatus.rejected none review).1.approval_steps
        ≡ update_where
            (λ s. s.id == "second")
            (decide ApprovalStatus.rejected none 9)
            (second_step ∷ first_step ∷ []))
decide_step_halts_example =
    decide_step_halts plain taker "second" ApprovalStatus.rejected none review second_step chain
      deleted review-Actionable (λ e. ground (arith, e)) refl
