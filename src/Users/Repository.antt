-- ===== src/Users/Repository.antt =====
-- apps/api/src/modules/users/users.repository.js: accounts, roles and invitations.
use secure_document_manageme.Prelude.{
  ℕ, String, Bool, false, not, ◌&&◌, ◌+◌, Option, none, some, List, [], ◌∷◌, ◌++◌, ◌==◌, string_eq,
  list_eq, nat_eq, find?, select, any, contains, update_where, if◌then◌else◌,
}
use secure_document_manageme.Ledger.{Bytes}
use secure_document_manageme.Db.{
  World, Account, UserStatus, Role, UserRole, UserInvitation, InvitationStatus,
}
use secure_document_manageme.Service.{Service, Platform, ◌>>=◌, ◌>>◌, gets, write, pure, new_uuid}

unfoldable pub find_user_by_username : String → World → Option Account
find_user_by_username username w = find? (λ u. u.username == username) w.users

unfoldable pub find_user_by_email : String → World → Option Account
find_user_by_email email w = find? (λ u. u.email == email) w.users

unfoldable pub find_user_by_id : String → World → Option Account
find_user_by_id id w = find? (λ u. u.id == id) w.users

-- UPDATE users SET … WHERE id = …
abbrev pub update_user : String → (Account → Account) → Service (Unit {0})
update_user id f = write (λ d. record d { users = update_where (λ u. u.id == id) f d.users })

abbrev pub with_status : UserStatus → Account → Account
with_status status u = record u { status = status }

unfoldable pub set_user_status : String → UserStatus → Service (Unit {0})
set_user_status id status = update_user id (with_status status)

unfoldable pub reset_failed_login_count : String → Service (Unit {0})
reset_failed_login_count id = update_user id (λ u. record u { failed_login_count = 0 })

abbrev pub one_more_failure : Account → Account
one_more_failure u = record u { failed_login_count = u.failed_login_count + 1 }

abbrev pub count_of : Option Account → ℕ
count_of none = 0
count_of (some u) = u.failed_login_count

-- Returns the new count.
unfoldable pub increment_failed_login_count : String → Service ℕ
unfolding find_user_by_id
increment_failed_login_count id = do
  update_user id one_more_failure
  gets (λ w. count_of (find_user_by_id id w))

unfoldable pub set_last_login_at : String → Service (Unit {0})
set_last_login_at id = do
  now ← gets (λ w. w.now)
  update_user id (λ u. record u { last_login_at = some now })

abbrev pub activated : Bytes → String → Account → Account
activated password_hash full_name u = record u {
  password_hash = some password_hash;
  full_name = some full_name;
  status = UserStatus.active;
}

unfoldable pub set_user_password_and_activate : String → Bytes → String → Service (Unit {0})
set_user_password_and_activate id password_hash full_name =
    update_user id (activated password_hash full_name)

unfoldable pub set_user_rank : String → String → Service (Unit {0})
set_user_rank id rank = update_user id (λ u. record u { rank = some rank })

unfoldable pub set_mfa_enabled : String → Bool → Service (Unit {0})
set_mfa_enabled id enabled = update_user id (λ u. record u { mfa_enabled = enabled })

unfoldable pub find_role_by_name : String → World → Option Role
find_role_by_name name w = find? (λ r. r.name == name) w.roles

unfoldable pub find_role_ids_by_names : List String → World → List Role
find_role_ids_by_names names w = select (λ r. contains names r.name) w.roles

abbrev names_of : List Role → List UserRole → List String
names_of roles [] = []
names_of roles (u ∷ us) = role_name (find? (λ r. r.id == u.role_id) roles) ++ names_of roles us
  where
    role_name : Option Role → List String
    role_name none = []
    role_name (some r) = r.name ∷ []

unfoldable pub find_role_names_for_user : String → World → List String
find_role_names_for_user user_id w =
    names_of w.roles (select (λ u. u.user_id == user_id) w.user_roles)

abbrev pub add_role : String → String → List UserRole → List UserRole
add_role user_id role_id rows =
    if any (λ u. u.user_id == user_id && u.role_id == role_id) rows
    then rows
    else record { user_id = user_id; role_id = role_id } ∷ rows

-- ON CONFLICT DO NOTHING
unfoldable pub insert_user_role : String → String → Service (Unit {0})
insert_user_role user_id role_id =
    write (λ d. record d { user_roles = add_role user_id role_id d.user_roles })

unfoldable pub insert_user_roles : String → List Role → Service (Unit {0})
unfolding insert_user_role
insert_user_roles user_id [] = pure tt
insert_user_roles user_id (r ∷ rs) = insert_user_role user_id r.id >> insert_user_roles user_id rs

unfoldable pub delete_user_roles : String → Service (Unit {0})
delete_user_roles user_id =
    write (λ d. record d { user_roles = select (λ u. not (u.user_id == user_id)) d.user_roles })

unfoldable pub replace_user_roles : String → List Role → Service (Unit {0})
unfolding delete_user_roles insert_user_roles
replace_user_roles user_id roles = delete_user_roles user_id >> insert_user_roles user_id roles

unfoldable pub find_invitation_by_token_hash : Bytes → World → Option UserInvitation
find_invitation_by_token_hash token_hash w = find? (λ v. v.token == token_hash) w.user_invitations

abbrev pub accepted_now : ℕ → UserInvitation → UserInvitation
accepted_now now v = record v { status = InvitationStatus.accepted; accepted_at = some now }

unfoldable pub mark_invitation_accepted : String → Service (Unit {0})
mark_invitation_accepted id = do
  now ← gets (λ w. w.now)
  write (λ d. record d {
    user_invitations = update_where (λ v. v.id == id) (accepted_now now) d.user_invitations;
  })

module _ (p : Platform) where
  unfoldable pub insert_user : String → String → Option String → Service Account
  insert_user username email department_id = do
    id ← new_uuid p
    now ← gets (λ w. w.now)
    let row : Account = record {
      id = id;
      username = username;
      email = email;
      password_hash = none;
      full_name = none;
      department_id = department_id;
      rank = none;
      status = UserStatus.invited;
      failed_login_count = 0;
      mfa_enabled = false;
      last_login_at = none;
      created_at = now;
    }
    write (λ d. record d { users = row ∷ d.users })
    pure row

  unfoldable pub insert_user_invitation :
      String → String → String → Option String → Bytes → ℕ → Service (Unit {0})
  insert_user_invitation email invited_by role_id department_id token_hash expires_at = do
    id ← new_uuid p
    now ← gets (λ w. w.now)
    let row : UserInvitation = record {
      id = id;
      email = email;
      invited_by = some invited_by;
      role_id = role_id;
      department_id = department_id;
      token = token_hash;
      status = InvitationStatus.pending;
      expires_at = expires_at;
      accepted_at = none;
      created_at = now;
    }
    write (λ d. record d { user_invitations = row ∷ d.user_invitations })
