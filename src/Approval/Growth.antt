-- ===== src/Approval/Growth.antt =====
-- What the approval requests do to the audit table.
use secure_document_manageme.Prelude.{ℕ, suc, String, refl, Option, List, [], ◌∷◌}
use secure_document_manageme.Db.{ApprovalStatus, ApprovalRequest}
use secure_document_manageme.Service.{Platform, User}
use secure_document_manageme.AuditLedger.Growth.{
  Appends, Appends-unaudited, Appends-bind, appends_rules,
}
use secure_document_manageme.Documents.Growth.{Appends-document_status}
use secure_document_manageme.Approval.Repository.{
  insert_request, insert_step, update_request_status, update_step_decision,
}
use secure_document_manageme.Approval.Steps.{
  load_actionable_step, insert_steps, submit_for_approval, settle, decide_step, finalize_document,
}

module _ (p : Platform) where
  Appends-insert_request : (d v u : String) → Appends p (insert_request p d v u)
  unfolding insert_request
  Appends-insert_request d v u = Appends-unaudited p _ (λ w. refl) (λ w. refl)

  Appends-insert_step : (r : String) (i : ℕ) (u : String) → Appends p (insert_step p r i u)
  unfolding insert_step
  Appends-insert_step r i u = Appends-unaudited p _ (λ w. refl) (λ w. refl)

  Appends-request_status :
      (id : String) (s : ApprovalStatus) (i : ℕ) (c : Option ℕ)
      → Appends p (update_request_status id s i c)
  unfolding update_request_status
  Appends-request_status id s i c = Appends-unaudited p _ (λ w. refl) (λ w. refl)

  Appends-decision :
      (id : String) (s : ApprovalStatus) (c : Option String)
      → Appends p (update_step_decision id s c)
  unfolding update_step_decision
  Appends-decision id s c = Appends-unaudited p _ (λ w. refl) (λ w. refl)

  ruleset approval_rules = (
    appends_rules, Appends-document_status, Appends-insert_request, Appends-request_status,
    Appends-decision,
  )

  Appends-steps : (r : String) (i : ℕ) (us : List String) → Appends p (insert_steps p r i us)
  unfolding insert_steps
  Appends-steps r i [] = search appends_rules
  Appends-steps r i (u ∷ us) =
      Appends-bind p _ _ (Appends-insert_step r i u) (λ _. Appends-steps r (suc i) us)

  pub Appends-submit :
      (u : User) (id : String) (us : List String) → Appends p (submit_for_approval p u id us)
  unfolding submit_for_approval
  Appends-submit u id us = search (approval_rules, Appends-steps) depth 30 fits 4000

  Appends-settle : (r : ApprovalRequest) (d : ApprovalStatus) → Appends p (settle p r d)
  unfolding settle
  Appends-settle r d = search approval_rules depth 30 fits 4000

  Appends-load : (id : String) (u : User) → Appends p (load_actionable_step id u)
  unfolding load_actionable_step
  Appends-load id u = search approval_rules depth 30 fits 4000

  pub Appends-decide :
      (u : User) (id : String) (d : ApprovalStatus) (c : Option String)
      → Appends p (decide_step p u id d c)
  unfolding decide_step
  Appends-decide u id d c = search (approval_rules, Appends-settle, Appends-load) depth 30 fits 4000

  pub Appends-finalize : (u : User) (id : String) → Appends p (finalize_document p u id)
  unfolding finalize_document
  Appends-finalize u id = search approval_rules depth 30
