-- ===== src/Cases/Members.antt =====
-- apps/api/src/modules/cases/cases.service.js: the members of a case. A removal reads the members and
-- decides before its transaction begins, so it is two steps of the database.
pub mod Owners
use secure_document_manageme.Prelude.{
  ℕ, String, Bool, true, false, not, ◌&&◌, Option, none, some, List, [], ◌∷◌, ◌==◌, leb,
  if◌then◌else◌,
}
use secure_document_manageme.Canonical.{text}
use secure_document_manageme.Db.{World, CaseMember, CaseRole, case_role_eq}
use secure_document_manageme.Service.{
  Service, Platform, http_error, ◌>>=◌, ◌>>◌, or_throw, throw_if, gets, pure, with_transaction,
}
use secure_document_manageme.Entries.{audit_entry, object}
use secure_document_manageme.AuditLedger
use secure_document_manageme.Cases.Repository.{
  find_case_by_id, insert_case_member, find_active_case_member, count_active_members_by_role,
  revoke_case_member,
}
use secure_document_manageme.Cases.Status.{case_not_found}

abbrev case_role_text : CaseRole → String
case_role_text CaseRole.owner = "OWNER"
case_role_text CaseRole.investigator = "INVESTIGATOR"
case_role_text CaseRole.forensic = "FORENSIC"
case_role_text CaseRole.prosecutor = "PROSECUTOR"
case_role_text CaseRole.viewer = "VIEWER"

abbrev is_some : {A : Type 0} → Option A → Bool
is_some none = false
is_some (some a) = true

-- What `removeMember` asks for before it begins its transaction.
unfoldable pub check_removal : String → String → Service CaseMember
unfolding find_case_by_id find_active_case_member count_active_members_by_role
check_removal case_id user_id = do
  or_throw (← gets (find_case_by_id case_id)) case_not_found
  member ← or_throw (← gets (find_active_case_member case_id user_id)) (http_error 404 "NOT_FOUND")
  owner_count ← gets (count_active_members_by_role case_id CaseRole.owner)
  throw_if (member.case_role == CaseRole.owner && leb owner_count 1)
      (http_error 409 "CANNOT_REMOVE_LAST_OWNER")
  pure member

module _ (p : Platform) where
  unfoldable pub add_member : String → String → String → CaseRole → Service CaseMember
  unfolding find_case_by_id find_active_case_member insert_case_member AuditLedger.append_event
      with_transaction
  add_member actor_user_id case_id user_id case_role = do
    or_throw (← gets (find_case_by_id case_id)) case_not_found
    existing_member ← gets (find_active_case_member case_id user_id)
    throw_if (is_some existing_member) (http_error 409 "CONFLICT")
    with_transaction (do
      member ← insert_case_member p case_id user_id case_role (some actor_user_id)
      AuditLedger.append_event p
          (record (audit_entry actor_user_id "CASE_MEMBER_ADDED" "CASE" case_id (some case_id)) {
            metadata =
                object
                  (("userId", text user_id) ∷ ("caseRole", text (case_role_text case_role)) ∷ []);
          })
      pure member)

  -- The transaction of `removeMember`.
  unfoldable pub commit_removal : String → String → String → Service (Unit {0})
  unfolding revoke_case_member AuditLedger.append_event with_transaction
  commit_removal actor_user_id case_id user_id = with_transaction (do
    revoke_case_member case_id user_id
    AuditLedger.append_event p
        (record (audit_entry actor_user_id "CASE_MEMBER_REMOVED" "CASE" case_id (some case_id)) {
          metadata = object (("userId", text user_id) ∷ []);
        })
    pure tt)

  unfoldable pub remove_member : String → String → String → Service (Unit {0})
  unfolding check_removal commit_removal
  remove_member actor_user_id case_id user_id =
      check_removal case_id user_id >> commit_removal actor_user_id case_id user_id
