-- ===== src/Users/Invitations.antt =====
-- apps/api/src/modules/users/users.service.js: who may create which account, invitations and their
-- acceptance. Mail is not modelled; it never throws.
use Prim.Native.String.{◌++◌ as str_append}
use secure_document_manageme.Prelude.{
  ℕ, String, Bool, true, false, not, ◌||◌, ◌+◌, Option, none, some, List, [], ◌∷◌, ◌==◌, string_eq,
  option_eq, ltb, contains, head?,
}
use secure_document_manageme.Ledger.{Bytes}
use secure_document_manageme.Canonical.{text}
use secure_document_manageme.Db.{
  Account, UserStatus, user_status_eq, Role, UserInvitation, InvitationStatus, invitation_status_eq,
}
use secure_document_manageme.Service.{
  Service, Platform, User, HttpError, http_error, internal_error, ◌>>=◌, ◌>>◌, or_throw, throw_if,
  gets, pure, with_transaction, new_uuid,
}
use secure_document_manageme.Roles.{Side, parse_role, creates_roles_for}
use secure_document_manageme.Entries.{or_null, audit_entry, object}
use secure_document_manageme.AuditLedger
use secure_document_manageme.AuditLedger.{text_or_null}
use secure_document_manageme.Evidence.Integrity.{from_result}
use secure_document_manageme.Tokens.{Identity, hash_opaque_token, generate_opaque_token}
use secure_document_manageme.Tokens.Duration.{parse_duration}
use secure_document_manageme.Tokens.Password.{hash_password}
use secure_document_manageme.Users.Repository.{
  find_user_by_id, find_user_by_username, find_user_by_email, find_role_by_name, insert_user,
  set_user_rank, insert_user_invitation, set_user_password_and_activate, insert_user_role,
  find_invitation_by_token_hash, mark_invitation_accepted,
}
use secure_document_manageme.Users.Departments.{find_department_by_id, insert_department}

-- A department that the invitation will create.
pub record NewUnit : Type 0 where
  pub name : String
  pub unit_type : String
  pub parent_department_id : String

pub record Authority : Type 0 where
  pub existing_department_id : Option String
  pub new_department : Option NewUnit

abbrev pub no_department : HttpError
no_department = http_error 409 "CONFLICT"

-- `(actorUser.roles || [])[0]`; no role creates nothing.
abbrev pub creatable_by : User → List String
unfolding creates_roles_for
creatable_by actor = creatable (head? actor.roles)
  where
    creatable : Option String → List String
    creatable none = []
    creatable (some role) = creates_roles_for role

-- The acting user's department, or 409.
unfoldable pub own_department : User → Service String
unfolding find_user_by_id
own_department actor = do
  row ← or_throw (← gets (find_user_by_id actor.id)) no_department
  or_throw (or_null row.department_id) no_department

-- The department that a child `_ADMIN` is created for.
unfoldable pub child_department :
    String → String → Option String → Option String → Service Authority
unfolding find_department_by_id
child_department own level department_id none = do
  wanted ← or_throw (or_null department_id) (http_error 400 "VALIDATION_ERROR")
  target ← or_throw (← gets (find_department_by_id wanted)) (http_error 403 "FORBIDDEN")
  throw_if (not (target.parent_department_id == some own) || not (target.unit_type == some level))
      (http_error 403 "FORBIDDEN")
  pure (record { existing_department_id = some wanted; new_department = none })
child_department own level department_id (some name) = pure (record {
  existing_department_id = none;
  new_department = some (record { name = name; unit_type = level; parent_department_id = own });
})

unfoldable pub authority_for :
    String → Option String → Option String → String → Side → Service Authority
unfolding child_department
authority_for own department_id new_unit_name level Side.officer =
    pure (record { existing_department_id = some own; new_department = none })
authority_for own department_id new_unit_name level Side.admin =
    child_department own level department_id (or_null new_unit_name)

-- `targetParsed.side` of a name that is no role would throw.
unfoldable pub assert_creation_authority :
    User → String → Option String → Option String → Service Authority
unfolding creates_roles_for own_department parse_role authority_for
assert_creation_authority actor target_role_name department_id new_unit_name = do
  throw_if (not (contains (creatable_by actor) target_role_name)) (http_error 403 "FORBIDDEN")
  own ← own_department actor
  target ← or_throw (parse_role target_role_name) internal_error
  authority_for own department_id new_unit_name target.level target.side

abbrev pub invitation_invalid : HttpError
invitation_invalid = http_error 410 "INVITATION_INVALID"

abbrev pub is_present : {A : Type 0} → Option A → Bool
is_present none = false
is_present (some a) = true

module _ (p : Platform) (i : Identity) where
  -- The department of the new account, created on the spot if that is what was asked for.
  unfoldable pub resolve_department : Option String → Option NewUnit → Service (Option String)
  unfolding insert_department
  resolve_department existing none = pure existing
  resolve_department existing (some unit) = do
    uuid ← new_uuid p
    dept ←
        insert_department p unit.name (str_append unit.unit_type (str_append "-" uuid))
          (some unit.parent_department_id) (some unit.unit_type)
    pure (some dept.id)

  unfoldable pub set_rank : String → Option String → Service (Unit {0})
  unfolding set_user_rank
  set_rank id none = pure tt
  set_rank id (some rank) = set_user_rank id rank

  -- The transaction of an invitation.
  unfoldable pub create_account :
      User
      → Authority
      → Role
      → String
      → String
      → String
      → Option String
      → Bytes
      → ℕ
      → Service Account
  unfolding resolve_department insert_user set_rank insert_user_invitation AuditLedger.append_event
      with_transaction
  create_account actor authority role role_name username email rank token_hash expires_at =
      with_transaction (do
        department ← resolve_department authority.existing_department_id authority.new_department
        user ← insert_user p username email department
        set_rank user.id (or_null rank)
        insert_user_invitation p email actor.id role.id department token_hash expires_at
        AuditLedger.append_event p
            (record (audit_entry actor.id "USER_INVITED" "user" user.id none) {
              metadata = object (
                  ("email", text email)
                  ∷ ("roleName", text role_name)
                  ∷ ("departmentId", text_or_null department)
                  ∷ []);
            })
        pure user)

  -- Returns the new account and the raw token, of which only the hash is stored.
  unfoldable pub invite_user :
      User
      → String
      → String
      → String
      → Option String
      → Option String
      → Option String
      → Service (Account × Bytes)
  unfolding find_role_by_name assert_creation_authority find_user_by_username find_user_by_email
      generate_opaque_token parse_duration create_account
  invite_user actor username email role_name department_id new_unit_name rank = do
    role ← or_throw (← gets (find_role_by_name role_name)) (http_error 400 "INVALID_ROLE")
    authority ← assert_creation_authority actor role_name department_id new_unit_name
    by_username ← gets (find_user_by_username username)
    by_email ← gets (find_user_by_email email)
    throw_if (is_present by_username) (http_error 409 "CONFLICT")
    throw_if (is_present by_email) (http_error 409 "CONFLICT")
    token ← generate_opaque_token p i
    ttl ← from_result (parse_duration i.invitation_ttl)
    now ← gets (λ w. w.now)
    user ← create_account actor authority role role_name username email rank token.1 (now + ttl)
    pure (user, token.0)

  unfoldable pub find_valid_invitation_or_throw : Bytes → Service UserInvitation
  unfolding hash_opaque_token find_invitation_by_token_hash
  find_valid_invitation_or_throw token = do
    invitation ←
        or_throw (← gets (find_invitation_by_token_hash (hash_opaque_token p i token)))
          invitation_invalid
    now ← gets (λ w. w.now)
    throw_if (not (invitation.status == InvitationStatus.pending) || ltb invitation.expires_at now)
        invitation_invalid
    pure invitation

  unfoldable pub activate_account : Bytes → String → String → Service (Unit {0})
  unfolding find_valid_invitation_or_throw find_user_by_email hash_password
      set_user_password_and_activate insert_user_role mark_invitation_accepted
      AuditLedger.append_event with_transaction
  activate_account token password full_name = do
    invitation ← find_valid_invitation_or_throw token
    user ← or_throw (← gets (find_user_by_email invitation.email)) invitation_invalid
    throw_if (not (user.status == UserStatus.invited)) invitation_invalid
    password_hash ← hash_password i password
    with_transaction (do
      set_user_password_and_activate user.id password_hash full_name
      insert_user_role user.id invitation.role_id
      mark_invitation_accepted invitation.id
      AuditLedger.append_event p (audit_entry user.id "USER_ACTIVATED" "user" user.id none)
      pure tt)
