-- ===== src/Auth/Service.antt =====
-- apps/api/src/modules/auth/auth.service.js.
use secure_document_manageme.Prelude.{
  ℕ, String, Bool, true, false, not, ◌&&◌, ◌||◌, ◌+◌, Option, none, some, List, [], ◌∷◌, ◌==◌,
  string_eq, leb, ltb, if◌then◌else◌,
}
use secure_document_manageme.Ledger.{Bytes}
use secure_document_manageme.Db.{
  World, Account, UserStatus, user_status_eq, AuthSession, MfaCredential, Severity, failure,
}
use secure_document_manageme.Service.{
  Service, Platform, HttpError, http_error, throw, ◌>>=◌, ◌>>◌, or_throw, throw_if, gets, pure,
  with_transaction,
}
use secure_document_manageme.Entries.{or_null, audit_entry, raise_security_event}
use secure_document_manageme.AuditLedger
use secure_document_manageme.Evidence.Integrity.{from_result}
use secure_document_manageme.Tokens.{
  Claims, Identity, hash_opaque_token, generate_opaque_token, generate_secret, verify_token,
  sign_access_token,
}
use secure_document_manageme.Tokens.Duration.{parse_duration}
use secure_document_manageme.Tokens.Password.{verify_password}
use secure_document_manageme.Users.Repository.{
  find_user_by_username, find_user_by_id, find_role_names_for_user, set_user_status,
  reset_failed_login_count, increment_failed_login_count, set_last_login_at, set_mfa_enabled,
}
use secure_document_manageme.Auth.Repository.{
  is_absent, insert_login_attempt, insert_auth_session, find_session_by_hash,
  revoke_session_by_hash, find_latest_unverified_mfa_credential, delete_unverified_mfa_credentials,
  insert_mfa_credential, mark_mfa_credential_verified, find_verified_mfa_credential,
}

abbrev pub account_locked : HttpError
account_locked = http_error 403 "ACCOUNT_LOCKED"

abbrev pub invalid_credentials : HttpError
invalid_credentials = http_error 401 "INVALID_CREDENTIALS"

abbrev pub invalid_session : HttpError
invalid_session = http_error 401 "INVALID_SESSION"

abbrev pub unauthenticated : HttpError
unauthenticated = http_error 401 "UNAUTHENTICATED"

-- The tokens of a login, or the access token of a refresh, with what the client is told of the user.
pub record LoggedIn : Type 0 where
  pub access_token : Bytes
  pub refresh_token : Option Bytes
  pub user : Account
  pub roles : List String

abbrev pub claims_of : Account → List String → Claims
claims_of u roles = record { subject = u.id; username = u.username; roles = roles }

module _ (i : Identity) where
  abbrev pub check_credential : ℕ → String → Option MfaCredential → Bool
  check_credential now otp none = false
  check_credential now otp (some c) = verify_token i c.secret otp now

  abbrev pub check_otp : Account → Option String → World → Bool
  check_otp u none w = false
  check_otp u (some otp) w = check_credential w.now otp (find_verified_mfa_credential u.id w)

  -- The second factor, for the accounts that have one.
  unfoldable pub mfa_ok : Account → Option String → World → Bool
  unfolding find_verified_mfa_credential verify_token
  mfa_ok u otp w = if u.mfa_enabled then check_otp u (or_null otp) w else true

  unfoldable pub credentials_ok : Account → String → Option String → World → Bool
  unfolding verify_password mfa_ok
  credentials_ok u password otp w = verify_password i password u.password_hash && mfa_ok u otp w

module _ (p : Platform) (i : Identity) where
  -- A failed attempt counts; the one that reaches the threshold locks the account. Returns whether it
  -- did.
  unfoldable pub fail_login : Account → String → Option String → Option String → Service Bool
  unfolding increment_failed_login_count insert_login_attempt set_user_status raise_security_event
      AuditLedger.append_event with_transaction
  fail_login user username ip_address user_agent = with_transaction (do
    new_count ← increment_failed_login_count user.id
    insert_login_attempt p (some user.id) username ip_address false
    AuditLedger.append_event p (record (audit_entry user.id "LOGIN_FAILED" "user" user.id none) {
      result = failure;
      ip_address = ip_address;
      device = user_agent;
    })
    (if leb i.lockout_threshold new_count
        then (set_user_status user.id UserStatus.locked
            >> (raise_security_event p "MULTIPLE_FAILED_LOGIN" Severity.high (some user.id)
                  (some "user") (some user.id)
                >> pure true))
        else pure false))

  unfoldable pub open_session :
      Account → String → Option String → Option String → Bytes → ℕ → Service (List String)
  unfolding reset_failed_login_count set_last_login_at insert_auth_session insert_login_attempt
      find_role_names_for_user AuditLedger.append_event with_transaction
  open_session user username ip_address user_agent refresh_token_hash expires_at =
      with_transaction (do
        reset_failed_login_count user.id
        set_last_login_at user.id
        session ← insert_auth_session p user.id refresh_token_hash expires_at ip_address user_agent
        insert_login_attempt p (some user.id) username ip_address true
        roles ← gets (find_role_names_for_user user.id)
        AuditLedger.append_event p (record (audit_entry user.id "LOGIN" "user" user.id none) {
          ip_address = ip_address;
          session_id = some session.id;
          device = user_agent;
        })
        pure roles)

  -- The credentials are right.
  unfoldable pub admit : Account → String → Option String → Option String → Service LoggedIn
  unfolding generate_opaque_token parse_duration open_session sign_access_token
  admit user username ip_address user_agent = do
    token ← generate_opaque_token p i
    ttl ← from_result (parse_duration i.refresh_ttl)
    now ← gets (λ w. w.now)
    roles ← open_session user username ip_address user_agent token.1 (now + ttl)
    access_token ← sign_access_token i (claims_of user roles)
    pure (record {
      access_token = access_token;
      refresh_token = some token.0;
      user = user;
      roles = roles;
    })

  unfoldable pub refuse : Account → String → Option String → Option String → Service LoggedIn
  unfolding fail_login
  refuse user username ip_address user_agent = do
    locked ← fail_login user username ip_address user_agent
    throw (if locked then account_locked else invalid_credentials)

  unfoldable pub login_as :
      Account → String → String → Option String → Option String → Option String → Service LoggedIn
  unfolding insert_login_attempt credentials_ok admit refuse
  login_as user username password otp ip_address user_agent =
      if user.status == UserStatus.locked
      then (insert_login_attempt p (some user.id) username ip_address false >> throw account_locked)
      else (do
        right ← gets (credentials_ok i user password otp)
        (if right
            then admit user username ip_address user_agent
            else refuse user username ip_address user_agent))

  unfoldable pub login_found :
      Option Account
      → String
      → String
      → Option String
      → Option String
      → Option String
      → Service LoggedIn
  unfolding insert_login_attempt login_as
  login_found none username password otp ip_address user_agent =
      insert_login_attempt p none username ip_address false >> throw invalid_credentials
  login_found (some user) username password otp ip_address user_agent =
      login_as user username password otp ip_address user_agent

  unfoldable pub login :
      String → String → Option String → Option String → Option String → Service LoggedIn
  unfolding find_user_by_username login_found
  login username password otp ip_address user_agent = do
    found ← gets (find_user_by_username username)
    login_found found username password otp ip_address user_agent

  abbrev pub is_empty : Option Bytes → Bool
  is_empty none = true
  is_empty (some []) = true
  is_empty (some (b ∷ bs)) = false

  unfoldable pub refresh : Option Bytes → Service LoggedIn
  unfolding hash_opaque_token find_session_by_hash find_user_by_id find_role_names_for_user
      sign_access_token
  refresh raw_refresh_token = do
    throw_if (is_empty raw_refresh_token) unauthenticated
    raw ← or_throw raw_refresh_token unauthenticated
    session ← or_throw (← gets (find_session_by_hash (hash_opaque_token p i raw))) invalid_session
    now ← gets (λ w. w.now)
    throw_if (not (is_absent session.revoked_at) || ltb session.expires_at now) invalid_session
    user ← or_throw (← gets (find_user_by_id session.user_id)) invalid_session
    throw_if (not (user.status == UserStatus.active)) invalid_session
    roles ← gets (find_role_names_for_user user.id)
    access_token ← sign_access_token i (claims_of user roles)
    pure (record { access_token = access_token; refresh_token = none; user = user; roles = roles })

  unfoldable pub note_logout : Option AuthSession → Service (Unit {0})
  unfolding AuditLedger.append_event
  note_logout none = pure tt
  note_logout (some session) =
      AuditLedger.append_event p (audit_entry session.user_id "LOGOUT" "user" session.user_id none)
      >> pure tt

  -- Returns `loggedOut`.
  unfoldable pub logout : Option Bytes → Service Bool
  unfolding hash_opaque_token find_session_by_hash revoke_session_by_hash note_logout
      with_transaction
  logout none = pure false
  logout (some []) = pure false
  logout (some (b ∷ bs)) = do
    let hash = hash_opaque_token p i (b ∷ bs)
    session ← gets (find_session_by_hash hash)
    with_transaction (revoke_session_by_hash hash >> note_logout session)
    pure true

  -- Returns the secret; its URI and the picture of it are for the client.
  unfoldable pub enroll_mfa : String → Service Bytes
  unfolding generate_secret delete_unverified_mfa_credentials insert_mfa_credential
  enroll_mfa user_id = do
    secret ← generate_secret i
    delete_unverified_mfa_credentials user_id
    insert_mfa_credential p user_id secret
    pure secret

  unfoldable pub verify_mfa_enrollment : String → String → Service Bool
  unfolding find_latest_unverified_mfa_credential verify_token mark_mfa_credential_verified
      set_mfa_enabled AuditLedger.append_event with_transaction
  verify_mfa_enrollment user_id otp = do
    credential ←
        or_throw (← gets (find_latest_unverified_mfa_credential user_id))
          (http_error 400 "NO_PENDING_ENROLLMENT")
    now ← gets (λ w. w.now)
    throw_if (not (verify_token i credential.secret otp now)) (http_error 400 "INVALID_OTP")
    with_transaction (do
      mark_mfa_credential_verified credential.id
      set_mfa_enabled user_id true
      AuditLedger.append_event p (audit_entry user_id "MFA_ENROLLED" "user" user_id none))
    pure true
