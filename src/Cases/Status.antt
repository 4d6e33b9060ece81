-- ===== src/Cases/Status.antt =====
-- apps/api/src/modules/cases/cases.service.js: creation, update and the life cycle of a case.
pub mod Outcome
use secure_document_manageme.Prelude.{
  ℕ, String, Bool, true, false, not, ◌&&◌, Option, none, some, List, [], ◌∷◌, ◌==◌, string_eq,
  contains, any, if◌then◌else◌,
}
use secure_document_manageme.Canonical.{Json, text, str}
use secure_document_manageme.Db.{World, Case, CaseStatus, case_status_eq, CasePriority, CaseRole}
use secure_document_manageme.Service.{
  Service, Platform, HttpError, http_error, ◌>>=◌, ◌>>◌, or_throw, throw_if, gets, pure,
  with_transaction,
}
use secure_document_manageme.Roles.{top_oversight_roles}
use secure_document_manageme.Entries.{audit_entry, object, optional}
use secure_document_manageme.AuditLedger
use secure_document_manageme.Cases.Repository.{
  find_case_by_id, next_case_number, insert_case, insert_case_member, update_case_row,
  update_case_status_row,
}

abbrev pub case_not_found : HttpError
case_not_found = http_error 404 "NOT_FOUND"

abbrev status_text : CaseStatus → String
status_text CaseStatus.open_case = "OPEN"
status_text CaseStatus.under_investigation = "UNDER_INVESTIGATION"
status_text CaseStatus.under_review = "UNDER_REVIEW"
status_text CaseStatus.submitted = "SUBMITTED"
status_text CaseStatus.closed = "CLOSED"
status_text CaseStatus.archived = "ARCHIVED"

abbrev priority_text : CasePriority → String
priority_text CasePriority.low = "LOW"
priority_text CasePriority.medium = "MEDIUM"
priority_text CasePriority.high = "HIGH"
priority_text CasePriority.critical = "CRITICAL"

-- ALLOWED_TRANSITIONS
abbrev pub case_transitions : CaseStatus → List CaseStatus
case_transitions CaseStatus.open_case = CaseStatus.under_investigation ∷ []
case_transitions CaseStatus.under_investigation = CaseStatus.under_review ∷ []
case_transitions CaseStatus.under_review = CaseStatus.submitted ∷ []
case_transitions CaseStatus.submitted = CaseStatus.closed ∷ []
case_transitions CaseStatus.closed = CaseStatus.archived ∷ CaseStatus.under_investigation ∷ []
case_transitions CaseStatus.archived = []

abbrev pub is_reopen : CaseStatus → CaseStatus → Bool
is_reopen from to = from == CaseStatus.closed && to == CaseStatus.under_investigation

abbrev pub is_top_oversight : List String → Bool
is_top_oversight roles = any (λ r. contains top_oversight_roles r) roles

-- The times that a change of status sets.
abbrev pub closed_at_after : Case → CaseStatus → ℕ → Option ℕ
closed_at_after c status now =
    if status == CaseStatus.closed
    then some now
    else if is_reopen c.status status
    then none
    else c.closed_at

abbrev pub archived_at_after : Case → CaseStatus → ℕ → Option ℕ
archived_at_after c status now = if status == CaseStatus.archived then some now else c.archived_at

-- `value || default`
abbrev or_priority : Option CasePriority → CasePriority
or_priority none = CasePriority.medium
or_priority (some x) = x

abbrev text_of : Option String → Option Json
text_of none = none
text_of (some s) = some (text s)

abbrev priority_of : Option CasePriority → Option Json
priority_of none = none
priority_of (some x) = some (text (priority_text x))

module _ (p : Platform) where
  unfoldable pub create_case :
      String → String → Option String → Option CasePriority → Option String → Service Case
  unfolding next_case_number insert_case insert_case_member AuditLedger.append_event
      with_transaction
  create_case creator_user_id title description priority department_id = with_transaction (do
    case_number ← next_case_number p
    new_case ←
        insert_case p case_number title description (or_priority priority) creator_user_id
          department_id
    insert_case_member p new_case.id creator_user_id CaseRole.owner (some creator_user_id)
    AuditLedger.append_event p
        (record (audit_entry creator_user_id "CASE_CREATED" "CASE" new_case.id (some new_case.id)) {
          metadata = object (("caseNumber", str case_number) ∷ ("title", text title) ∷ []);
        })
    pure new_case)

  unfoldable pub update_case :
      String
      → String
      → Option String
      → Option String
      → Option CasePriority
      → Option String
      → Service (Option Case)
  unfolding find_case_by_id update_case_row AuditLedger.append_event with_transaction
  update_case actor_user_id id title description priority department_id = do
    or_throw (← gets (find_case_by_id id)) case_not_found
    with_transaction (do
      updated ← update_case_row id title description priority department_id
      AuditLedger.append_event p
          (record (audit_entry actor_user_id "CASE_UPDATED" "CASE" id (some id)) {
            metadata = object (
                optional (
                  ("title", text_of title)
                  ∷ ("description", text_of description)
                  ∷ ("priority", priority_of priority)
                  ∷ ("departmentId", text_of department_id)
                  ∷ []));
          })
      pure updated)

  unfoldable pub update_case_status :
      String → List String → String → CaseStatus → Service (Option Case)
  unfolding find_case_by_id update_case_status_row AuditLedger.append_event with_transaction
  update_case_status actor_user_id actor_roles id status = do
    existing ← or_throw (← gets (find_case_by_id id)) case_not_found
    throw_if (not (contains (case_transitions existing.status) status))
        (http_error 409 "ILLEGAL_TRANSITION")
    throw_if (is_reopen existing.status status && not (is_top_oversight actor_roles))
        (http_error 403 "FORBIDDEN")
    now ← gets (λ w. w.now)
    with_transaction (do
      updated ←
          update_case_status_row id status (closed_at_after existing status now)
            (archived_at_after existing status now)
      AuditLedger.append_event p
          (record (audit_entry actor_user_id "CASE_STATUS_CHANGED" "CASE" id (some id)) {
            metadata = object (
                ("from", text (status_text existing.status))
                ∷ ("to", text (status_text status))
                ∷ []);
          })
      pure updated)
