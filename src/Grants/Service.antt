-- ===== src/Grants/Service.antt =====
-- permissions.service.js and permissions.repository.js, sharing.service.js and sharing.repository.js.
-- A permission code stands for its row in the seeded table of codes, which has every code.
use secure_document_manageme.Prelude.{
  ℕ, ◌+◌, ◌*◌, String, Bool, true, false, not, ◌||◌, Option, none, some, [], ◌∷◌, ◌==◌, string_eq,
  leb, find?, update_where, if◌then◌else◌,
}
use secure_document_manageme.Canonical.{text, str}
use secure_document_manageme.Canonical.Iso.{to_iso_string}
use secure_document_manageme.Db.{
  World, Document, Permission, ResourceType, resource_type_eq, ResourcePermission, DocumentShare,
}
use secure_document_manageme.Service.{
  Service, Platform, User, http_error, ◌>>=◌, ◌>>◌, or_throw, throw_if, gets, write, pure, new_uuid,
  with_transaction,
}
use secure_document_manageme.Entries.{audit_entry, object, or_null}
use secure_document_manageme.AuditLedger
use secure_document_manageme.AuditLedger.{text_or_null}
use secure_document_manageme.PermissionEngine.{can}
use secure_document_manageme.Cases.Status.{is_top_oversight}
use secure_document_manageme.Documents.Repository.{find_document_by_id}

abbrev resource_type_text : ResourceType → String
resource_type_text ResourceType.case_resource = "CASE"
resource_type_text ResourceType.document = "DOCUMENT"
resource_type_text ResourceType.evidence = "EVIDENCE"
resource_type_text ResourceType.report = "REPORT"

abbrev permission_text : Permission → String
permission_text Permission.view = "VIEW"
permission_text Permission.upload = "UPLOAD"
permission_text Permission.edit = "EDIT"
permission_text Permission.download = "DOWNLOAD"
permission_text Permission.share = "SHARE"
permission_text Permission.comment = "COMMENT"
permission_text Permission.sign = "SIGN"
permission_text Permission.verify = "VERIFY"
permission_text Permission.delete = "DELETE"
permission_text Permission.archive = "ARCHIVE"

-- `resourceType === 'CASE' ? resourceId : null`
abbrev case_if_case : ResourceType → String → Option String
case_if_case t id = if t == ResourceType.case_resource then some id else none

-- A time that a client sends: its text, and the instant that the database reads it as.
abbrev pub SentTime : Type 0
SentTime = String × ℕ

abbrev instant_of : Option SentTime → Option ℕ
instant_of none = none
instant_of (some t) = some t.1

abbrev sent_of : Option SentTime → Option String
sent_of none = none
sent_of (some t) = some t.0

-- Has the actor the right to manage access to this resource?
abbrev pub may_grant : User → ResourceType → String → World → Bool
may_grant actor t id w =
    if t == ResourceType.case_resource || t == ResourceType.document
    then can (some actor) Permission.share (record { kind = t; id = id }) w
    else is_top_oversight actor.roles

unfoldable pub assert_grant_authority : User → ResourceType → String → Service (Unit {0})
assert_grant_authority actor t id = do
  allowed ← gets (may_grant actor t id)
  throw_if (not allowed) (http_error 403 "FORBIDDEN")

unfoldable pub find_grant_by_id : String → World → Option ResourcePermission
find_grant_by_id id w = find? (λ g. g.id == id) w.resource_permissions

abbrev pub revoke : ℕ → ResourcePermission → ResourcePermission
revoke now g = record g { revoked_at = some now }

unfoldable pub revoke_grant_row : String → Service (Unit {0})
revoke_grant_row id = do
  now ← gets (λ w. w.now)
  write (λ d. record d {
    resource_permissions = update_where (λ g. g.id == id) (revoke now) d.resource_permissions;
  })

abbrev default_permission : Option Permission → Permission
default_permission none = Permission.view
default_permission (some x) = x

abbrev default_hours : Option ℕ → ℕ
default_hours none = 72
default_hours (some h) = h

-- `new Date(Date.now() + expiresInHours * HOUR_MS)`
abbrev pub share_expiry : ℕ → Option ℕ → ℕ
share_expiry now hours = now + default_hours hours * 3600000

-- STATUS_EXPR
pub data ShareStatus : Type 0 where
  revoked expired live : ShareStatus

abbrev pub status_of_grant : ℕ → ResourcePermission → ShareStatus
status_of_grant now g = elim g.revoked_at [
  | some at ↦ revoked
  | none ↦ elim g.expires_at [ none ↦ live | some t ↦ if leb t now then expired else live ]
]

-- The share, joined with its grant.
unfoldable pub find_share_by_id : String → World → Option (DocumentShare × ResourcePermission)
find_share_by_id id w = elim (find? (λ s. s.id == id) w.document_shares) [
  | none ↦ none
  | some s ↦ elim (find? (λ g. g.id == s.resource_permission_id) w.resource_permissions) [
    | none ↦ none
    | some g ↦ some (s, g)
  ]
]

abbrev is_revoked : ShareStatus → Bool
is_revoked revoked = true
is_revoked _ = false

abbrev case_of : Option Document → Option String
case_of none = none
case_of (some d) = some d.case_id

module _ (p : Platform) where
  unfoldable pub insert_grant :
      ResourceType
      → String
      → String
      → Permission
      → Option String
      → Option ℕ
      → Service ResourcePermission
  insert_grant t resource_id user_id permission granted_by expires_at = do
    id ← new_uuid p
    now ← gets (λ w. w.now)
    let row : ResourcePermission = record {
      id = id;
      resource_type = t;
      resource_id = resource_id;
      user_id = user_id;
      permission = permission;
      granted_by = granted_by;
      expires_at = expires_at;
      revoked_at = none;
      created_at = now;
    }
    write (λ d. record d { resource_permissions = row ∷ d.resource_permissions })
    pure row

  unfoldable pub insert_share :
      String → String → String → String → Permission → Option String → ℕ → Service DocumentShare
  insert_share document_id resource_permission_id shared_by shared_with permission_code reason
        expires_at =
      do
        id ← new_uuid p
        now ← gets (λ w. w.now)
        let row : DocumentShare = record {
          id = id;
          document_id = document_id;
          resource_permission_id = resource_permission_id;
          shared_by = shared_by;
          shared_with = shared_with;
          permission_code = permission_code;
          reason = reason;
          expires_at = expires_at;
          created_at = now;
        }
        write (λ d. record d { document_shares = row ∷ d.document_shares })
        pure row

  unfoldable pub grant_permission :
      User
      → ResourceType
      → String
      → String
      → Permission
      → Option SentTime
      → Service ResourcePermission
  unfolding assert_grant_authority insert_grant AuditLedger.append_event with_transaction
  grant_permission actor t resource_id user_id permission expires_at = do
    assert_grant_authority actor t resource_id
    with_transaction (do
      grant ← insert_grant t resource_id user_id permission (some actor.id) (instant_of expires_at)
      AuditLedger.append_event p
          (record (audit_entry actor.id "RESOURCE_PERMISSION_GRANTED" (resource_type_text t)
            resource_id (case_if_case t resource_id)) {
              metadata = object (
                  ("userId", text user_id)
                  ∷ ("permissionCode", text (permission_text permission))
                  ∷ ("expiresAt", text_or_null (or_null (sent_of expires_at)))
                  ∷ []);
            })
      pure grant)

  unfoldable pub revoke_grant : User → String → Service (Unit {0})
  unfolding find_grant_by_id assert_grant_authority revoke_grant_row AuditLedger.append_event
      with_transaction
  revoke_grant actor id = do
    grant ← or_throw (← gets (find_grant_by_id id)) (http_error 404 "NOT_FOUND")
    assert_grant_authority actor grant.resource_type grant.resource_id
    with_transaction (do
      revoke_grant_row id
      AuditLedger.append_event p
          (record (audit_entry actor.id "RESOURCE_PERMISSION_REVOKED"
            (resource_type_text grant.resource_type) grant.resource_id
            (case_if_case grant.resource_type grant.resource_id)) {
              metadata = object (("grantId", text id) ∷ ("userId", text grant.user_id) ∷ []);
            })
      pure tt)

  unfoldable pub create_share :
      User → String → String → Option Permission → Option ℕ → Option String → Service DocumentShare
  unfolding find_document_by_id insert_grant insert_share AuditLedger.append_event with_transaction
      to_iso_string
  create_share actor document_id to_user_id permission hours reason = do
    document ← or_throw (← gets (find_document_by_id document_id)) (http_error 404 "NOT_FOUND")
    throw_if (to_user_id == actor.id) (http_error 400 "INVALID_RECIPIENT")
    expires_at ← gets (λ w. share_expiry w.now hours)
    let code = default_permission permission
    with_transaction (do
      grant ←
          insert_grant ResourceType.document document_id to_user_id code (some actor.id)
            (some expires_at)
      share ← insert_share document_id grant.id actor.id to_user_id code (or_null reason) expires_at
      AuditLedger.append_event p
          (record (audit_entry actor.id "DOCUMENT_SHARED" "DOCUMENT" document_id
            (some document.case_id)) {
              metadata = object (
                  ("toUserId", text to_user_id)
                  ∷ ("permission", text (permission_text code))
                  ∷ ("expiresAt", str (to_iso_string expires_at))
                  ∷ ("shareId", text share.id)
                  ∷ []);
            })
      pure share)

  unfoldable pub revoke_share : User → String → String → Service DocumentShare
  unfolding find_share_by_id find_document_by_id revoke_grant_row AuditLedger.append_event
      with_transaction
  revoke_share actor document_id share_id = do
    found ← or_throw (← gets (find_share_by_id share_id)) (http_error 404 "NOT_FOUND")
    let share = found.0
    throw_if (not (share.document_id == document_id)) (http_error 404 "NOT_FOUND")
    now ← gets (λ w. w.now)
    throw_if (is_revoked (status_of_grant now found.1)) (http_error 409 "CONFLICT")
    document ← gets (find_document_by_id document_id)
    with_transaction (do
      revoke_grant_row share.resource_permission_id
      AuditLedger.append_event p
          (record (audit_entry actor.id "DOCUMENT_SHARE_REVOKED" "DOCUMENT" document_id
            (case_of document)) {
              metadata =
                  object (("shareId", text share_id) ∷ ("sharedWith", text share.shared_with) ∷ []);
            })
      pure share)
