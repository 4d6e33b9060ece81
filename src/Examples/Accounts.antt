-- ===== src/Examples/Accounts.antt =====
-- Three units below one another, an administrator of the top one, an officer who was invited, and what
-- they do.
use secure_document_manageme.Prelude.{
  ℕ, String, Bool, Bool-cases, ltb, ◌&&◌, inl, inr, true, false, Option, none, some, [], ◌∷◌, ◌++◌,
  ◌≡◌, refl, ◌↔◌, arith, ◌+◌, ◌==◌, string_eq, if◌then◌else◌,
}
use secure_document_manageme.Ledger.{Bytes}
use secure_document_manageme.Canonical.{codes}
use secure_document_manageme.Db.{
  World, empty_db, Account, UserStatus, Role, UserInvitation, InvitationStatus, AuthSession,
  Department,
}
use secure_document_manageme.Service.{User, err}
use secure_document_manageme.Tokens.{Identity}
use secure_document_manageme.Tokens.RoundTrip.{AreBytes, AcceptsOnly, hash_password-AcceptsOnly}
use secure_document_manageme.Tokens.Password.{hash_password, to_hex, default_params}
use secure_document_manageme.Users.Repository.{find_user_by_id, find_role_ids_by_names}
use secure_document_manageme.Users.Departments.{
  find_department_by_id, ancestors, is_department_within_subtree,
}
use secure_document_manageme.Users.Invitations.{assert_creation_authority, activate_account}
use secure_document_manageme.Users.Management.{update_user_roles}
use secure_document_manageme.Users.Authority.{
  AuthorityOutcome, assert_creation_authority-AuthorityOutcome,
}
use secure_document_manageme.Users.Subtree.{IsAbove, IsForest, ancestors_end, within_subtree_iff}
use secure_document_manageme.Users.Activation.{
  ActivationOutcome, activate_account-ActivationOutcome,
}
use secure_document_manageme.Users.Escalation.{has_role, Answers, update_user_roles_on_oneself}
use secure_document_manageme.Auth.Service.{login, refresh, logout, invalid_session}
use secure_document_manageme.Auth.Lockout.{LoginOutcome, login-LoginOutcome}
use secure_document_manageme.Auth.Threshold.{BoundedIn, All-BoundedIn, login-BoundedIn}
use secure_document_manageme.Auth.Sessions.{logout_ends}
use secure_document_manageme.Examples.{plain, clear_identity, bytes_of}

abbrev chief : Account
chief = record {
  id = "chief";
  username = "chief";
  email = "chief@example.org";
  password_hash =
      some (default_params ++ (to_hex (codes "salt") ++ (b'$' ∷ to_hex (codes "right"))));
  full_name = some "Chief";
  department_id = some "hq";
  rank = none;
  status = UserStatus.active;
  failed_login_count = 2;
  mfa_enabled = false;
  last_login_at = none;
  created_at = 1;
}

abbrev recruit : Account
recruit = record {
  id = "recruit";
  username = "recruit";
  email = "recruit@example.org";
  password_hash = none;
  full_name = none;
  department_id = some "range";
  rank = none;
  status = UserStatus.invited;
  failed_login_count = 0;
  mfa_enabled = false;
  last_login_at = none;
  created_at = 1;
}

abbrev officer_role_row : Role
officer_role_row = record { id = "ro"; name = "RANGE_OFFICER" }

abbrev top_role_row : Role
top_role_row = record { id = "rt"; name = "STATE_HQ_ADMIN" }

abbrev unit : String → Option String → String → Department
unit id above type = record {
  id = id;
  name = id;
  code = id;
  parent_department_id = above;
  unit_type = some type;
}

abbrev invitation : UserInvitation
invitation = record {
  id = "inv";
  email = "recruit@example.org";
  invited_by = some "chief";
  role_id = "ro";
  department_id = some "range";
  token = codes "ticket";
  status = InvitationStatus.pending;
  expires_at = 20;
  accepted_at = none;
  created_at = 2;
}

abbrev session : AuthSession
session = record {
  id = "s";
  user_id = "chief";
  refresh_token_hash = codes "token";
  issued_at = 1;
  expires_at = 20;
  revoked_at = none;
  ip_address = none;
  user_agent = none;
}

abbrev station : World
station = record {
  db = record empty_db {
    users = chief ∷ recruit ∷ [];
    roles = officer_role_row ∷ top_role_row ∷ [];
    departments =
        unit "range" (some "wing") "RANGE"
        ∷ unit "wing" (some "hq") "WING"
        ∷ unit "hq" none "STATE_HQ"
        ∷ [];
    user_invitations = invitation ∷ [];
    auth_sessions = session ∷ [];
  };
  objects = [];
  drawn = 0;
  audit_sequence = 0;
  now = 9;
}

abbrev chief_user : User
chief_user = record { id = "chief"; roles = "STATE_HQ_ADMIN" ∷ [] }

login-LoginOutcome_example :
    LoginOutcome plain clear_identity "chief" "right" none station
      (login plain clear_identity "chief" "right" none none none station)
login-LoginOutcome_example =
    login-LoginOutcome plain clear_identity "chief" "right" none none none station

logout_ends_example :
    (refresh plain clear_identity
      (some (codes "token"))
      (logout plain clear_identity (some (codes "token")) station).1).0
    ≡ err invalid_session
logout_ends_example = logout_ends plain clear_identity b't' (codes "oken") station

-- A password is a key once it is filled up to 64 bytes.
abbrev padded : Identity
padded = record clear_identity {
  scrypt = λ password salt len n r p. some (codes password ++ bytes_of 59);
}

abbrev are_bytes : Bytes → Bool
are_bytes [] = true
are_bytes (b ∷ bs) = ltb b 256 && are_bytes bs

are_bytes-AreBytes : (bs : Bytes) → are_bytes bs ≡ true → AreBytes bs
are_bytes-AreBytes [] h = tt
are_bytes-AreBytes (b ∷ bs) h = elim (Bool-cases (ltb b 256)) [
  | inl small ↦ (ground arith, are_bytes-AreBytes bs (rw small at h))
  | inr big ↦ (let never : false ≡ true = rw big at h in absurd cc)
]

hash_password-AcceptsOnly_example :
    AcceptsOnly padded
      (codes "salt")
      (codes "right" ++ bytes_of 59)
      (hash_password padded "right" station).0
hash_password-AcceptsOnly_example =
    hash_password-AcceptsOnly padded "right" (codes "right" ++ bytes_of 59) station
      (are_bytes-AreBytes (codes "salt") refl) (λ e. cc) refl
      (are_bytes-AreBytes (codes "right" ++ bytes_of 59) refl) refl

activate_account-ActivationOutcome_example :
    ActivationOutcome plain clear_identity
      (codes "ticket")
      "new"
      station
      (activate_account plain clear_identity (codes "ticket") "new" "Recruit" station)
activate_account-ActivationOutcome_example =
    activate_account-ActivationOutcome plain clear_identity (codes "ticket") "new" "Recruit" station

assert_creation_authority-AuthorityOutcome_example :
    AuthorityOutcome chief_user "WING_ADMIN"
      (some "wing")
      none
      station
      (assert_creation_authority chief_user "WING_ADMIN" (some "wing") none station)
assert_creation_authority-AuthorityOutcome_example =
    assert_creation_authority-AuthorityOutcome chief_user "WING_ADMIN" (some "wing") none station

update_user_roles_on_oneself_example :
    Answers (update_user_roles plain chief_user "chief" ("STATE_HQ_ADMIN" ∷ []) station).0 chief
    × (has_role "chief" "rt"
          (update_user_roles plain chief_user "chief" ("STATE_HQ_ADMIN" ∷ []) station).1.user_roles
        ≡ true)
unfolding find_user_by_id find_role_ids_by_names
update_user_roles_on_oneself_example =
    update_user_roles_on_oneself plain chief_user station chief "hq" top_role_row refl refl refl

login-BoundedIn_example :
    BoundedIn 3 (login plain clear_identity "chief" "wrong" none none none station).1.users
login-BoundedIn_example =
    login-BoundedIn plain clear_identity refl "chief" "wrong" none none none station
      (All-BoundedIn 3 station.users (refl, (refl, tt)))

-- How many units lie above one.
abbrev height_under : Option String → ℕ
height_under none = 0
height_under (some up) = if up == "hq" then 1 else 2

abbrev height : Department → ℕ
height d = height_under d.parent_department_id

units-IsForest : IsForest station.departments height
units-IsForest = record {
  rises = (
    λ up e. (let same : up ≡ unit "wing" (some "hq") "WING" = cc in rw same (omega arith)),
    (
      λ up e. (let same : up ≡ unit "hq" none "STATE_HQ" = cc in rw same (omega arith)),
      (λ up e. absurd cc, tt),
    ),
  );
  bounded = (omega arith, (omega arith, (omega arith, tt)));
}

ancestors_end_example :
    ancestors (3 + 5) station.departments (some (unit "range" (some "wing") "RANGE"))
    ≡ ancestors 3 station.departments (some (unit "range" (some "wing") "RANGE"))
ancestors_end_example =
    ancestors_end station.departments height units-IsForest "range"
      (unit "range" (some "wing") "RANGE") refl 5

within_subtree_iff_example :
    (is_department_within_subtree "hq" "range" station ≡ true)
    ↔ IsAbove station.departments "hq" (unit "range" (some "wing") "RANGE")
unfolding find_department_by_id
within_subtree_iff_example =
    within_subtree_iff station height units-IsForest "hq" "range"
      (unit "range" (some "wing") "RANGE") refl
