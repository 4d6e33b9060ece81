-- ===== src/Approval/Repository.antt =====
-- apps/api/src/modules/approval/approval.repository.js.
use secure_document_manageme.Prelude.{
  ℕ, String, Bool, Option, none, some, List, ◌∷◌, ◌==◌, string_eq, nat_eq, ltb, find?, select,
  update_where,
}
use secure_document_manageme.Prelude.Sort.{order_by}
use secure_document_manageme.Db.{World, ApprovalRequest, ApprovalStep, ApprovalStatus}
use secure_document_manageme.Service.{Service, Platform, ◌>>=◌, ◌>>◌, gets, write, pure, new_uuid}

module _ (p : Platform) where
  -- `status` and `current_step` take the defaults of their columns.
  unfoldable pub insert_request : String → String → String → Service ApprovalRequest
  insert_request document_id document_version_id requested_by = do
    id ← new_uuid p
    now ← gets (λ w. w.now)
    let row : ApprovalRequest = record {
      id = id;
      document_id = document_id;
      document_version_id = document_version_id;
      requested_by = requested_by;
      status = ApprovalStatus.pending;
      current_step = 0;
      created_at = now;
      completed_at = none;
    }
    write (λ d. record d { approval_requests = row ∷ d.approval_requests })
    pure row

  unfoldable pub insert_step : String → ℕ → String → Service ApprovalStep
  insert_step approval_request_id step_order approver_id = do
    id ← new_uuid p
    now ← gets (λ w. w.now)
    let row : ApprovalStep = record {
      id = id;
      approval_request_id = approval_request_id;
      step_order = step_order;
      approver_id = approver_id;
      status = ApprovalStatus.pending;
      comments = none;
      decided_at = none;
      created_at = now;
    }
    write (λ d. record d { approval_steps = row ∷ d.approval_steps })
    pure row

unfoldable pub find_request_by_id : String → World → Option ApprovalRequest
find_request_by_id id w = find? (λ r. r.id == id) w.approval_requests

abbrev pub set_request : ApprovalStatus → ℕ → Option ℕ → ApprovalRequest → ApprovalRequest
set_request status current_step completed_at r = record r {
  status = status;
  current_step = current_step;
  completed_at = completed_at;
}

unfoldable pub update_request_status : String → ApprovalStatus → ℕ → Option ℕ → Service (Unit {0})
update_request_status id status current_step completed_at = write (λ d. record d {
  approval_requests =
      update_where (λ r. r.id == id) (set_request status current_step completed_at)
        d.approval_requests;
})

unfoldable pub find_step_by_id : String → World → Option ApprovalStep
find_step_by_id id w = find? (λ s. s.id == id) w.approval_steps

abbrev pub earlier_step : ApprovalStep → ApprovalStep → Bool
earlier_step a b = ltb a.step_order b.step_order

unfoldable pub list_steps_for_request : String → World → List ApprovalStep
list_steps_for_request id w =
    order_by earlier_step (select (λ s. s.approval_request_id == id) w.approval_steps)

abbrev pub decide : ApprovalStatus → Option String → ℕ → ApprovalStep → ApprovalStep
decide status comments now s = record s {
  status = status;
  comments = comments;
  decided_at = some now;
}

unfoldable pub update_step_decision :
    String → ApprovalStatus → Option String → Service (Option ApprovalStep)
unfolding find_step_by_id
update_step_decision id status comments = do
  now ← gets (λ w. w.now)
  write (λ d. record d {
    approval_steps = update_where (λ s. s.id == id) (decide status comments now) d.approval_steps;
  })
  gets (find_step_by_id id)
