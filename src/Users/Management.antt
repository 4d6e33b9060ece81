-- ===== src/Users/Management.antt =====
-- apps/api/src/modules/users/users.service.js: the management of existing accounts and of units.
use Prim.Native.String.{◌++◌ as str_append}
use secure_document_manageme.Prelude.{
  String, not, Option, none, some, List, [], ◌∷◌, ◌==◌, string_eq, nat_eq, contains, length,
  if◌then◌else◌,
}
use secure_document_manageme.Canonical.{text, Items, nil, cons, arr}
use secure_document_manageme.Db.{Account, UserStatus, user_status_eq, Department}
use secure_document_manageme.Service.{
  Service, Platform, User, http_error, ◌>>=◌, ◌>>◌, or_throw, throw_if, gets, pure,
  with_transaction, new_uuid,
}
use secure_document_manageme.Roles.{admin_role, creates_roles_for}
use secure_document_manageme.Entries.{or_null, audit_entry, object}
use secure_document_manageme.AuditLedger
use secure_document_manageme.Users.Repository.{
  find_user_by_id, set_user_status, reset_failed_login_count, find_role_ids_by_names,
  replace_user_roles, find_role_names_for_user,
}
use secure_document_manageme.Users.Departments.{is_department_within_subtree, insert_department}
use secure_document_manageme.Users.Invitations.{creatable_by, own_department}

unfoldable pub check_within : String → Option String → Service (Unit {0})
unfolding is_department_within_subtree
check_within own none = pure tt
check_within own (some target) = do
  within ← gets (is_department_within_subtree own target)
  throw_if (not within) (http_error 403 "FORBIDDEN")

unfoldable pub assert_management_authority : User → Option String → Service (Unit {0})
unfolding own_department check_within
assert_management_authority actor target_department_id = do
  own ← own_department actor
  check_within own (or_null target_department_id)

unfoldable pub get_user : String → Service (Account × List String)
unfolding find_user_by_id find_role_names_for_user
get_user id = do
  user ← or_throw (← gets (find_user_by_id id)) (http_error 404 "NOT_FOUND")
  roles ← gets (find_role_names_for_user id)
  pure (user, roles)

abbrev status_text : UserStatus → String
status_text UserStatus.invited = "INVITED"
status_text UserStatus.active = "ACTIVE"
status_text UserStatus.inactive = "INACTIVE"
status_text UserStatus.locked = "LOCKED"

abbrev names_json : List String → Items
names_json [] = nil
names_json (s ∷ ss) = cons (text s) (names_json ss)

module _ (p : Platform) where
  unfoldable pub update_user_status : User → String → UserStatus → Service (Account × List String)
  unfolding find_user_by_id assert_management_authority set_user_status reset_failed_login_count
      get_user AuditLedger.append_event with_transaction
  update_user_status actor target_id status = do
    target ← or_throw (← gets (find_user_by_id target_id)) (http_error 404 "NOT_FOUND")
    assert_management_authority actor target.department_id
    with_transaction (do
      set_user_status target_id status
      (if status == UserStatus.active then reset_failed_login_count target_id else pure tt)
      AuditLedger.append_event p
          (record (audit_entry actor.id "USER_STATUS_CHANGED" "user" target_id none) {
            metadata = object (
                ("from", text (status_text target.status))
                ∷ ("to", text (status_text status))
                ∷ []);
          }))
    get_user target_id

  unfoldable pub update_user_roles : User → String → List String → Service (Account × List String)
  unfolding find_user_by_id assert_management_authority find_role_ids_by_names replace_user_roles
      get_user AuditLedger.append_event with_transaction
  update_user_roles actor target_id role_names = do
    target ← or_throw (← gets (find_user_by_id target_id)) (http_error 404 "NOT_FOUND")
    assert_management_authority actor target.department_id
    roles ← gets (find_role_ids_by_names role_names)
    throw_if (not (length roles == length role_names)) (http_error 400 "INVALID_ROLE")
    with_transaction (do
      replace_user_roles target_id roles
      AuditLedger.append_event p
          (record (audit_entry actor.id "USER_ROLES_CHANGED" "user" target_id none) {
            metadata = object (("roleNames", arr (names_json role_names)) ∷ []);
          }))
    get_user target_id

  -- No audit event is written.
  unfoldable pub create_department : User → String → String → Service Department
  unfolding creates_roles_for own_department insert_department
  create_department actor name unit_type = do
    throw_if (not (contains (creatable_by actor) (admin_role unit_type)))
        (http_error 403 "FORBIDDEN")
    own ← own_department actor
    uuid ← new_uuid p
    insert_department p name (str_append unit_type (str_append "-" uuid)) (some own)
        (some unit_type)
