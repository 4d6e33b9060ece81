-- ===== src/Auth/Repository.antt =====
-- apps/api/src/modules/auth/auth.repository.js.
use secure_document_manageme.Prelude.{
  ℕ, String, Bool, true, false, not, ◌&&◌, Option, none, some, ◌∷◌, ◌==◌, string_eq, list_eq,
  nat_eq, ltb, find?, select, update_where, get_last?, if◌then◌else◌,
}
use secure_document_manageme.Prelude.Sort.{order_by}
use secure_document_manageme.Ledger.{Bytes}
use secure_document_manageme.Db.{World, AuthSession, LoginAttempt, MfaCredential}
use secure_document_manageme.Service.{Service, Platform, ◌>>=◌, ◌>>◌, gets, write, pure, new_uuid}

unfoldable pub find_session_by_hash : Bytes → World → Option AuthSession
find_session_by_hash hash w = find? (λ s. s.refresh_token_hash == hash) w.auth_sessions

abbrev pub is_absent : Option ℕ → Bool
is_absent none = true
is_absent (some t) = false

abbrev pub is_open_session : Bytes → AuthSession → Bool
is_open_session hash s = s.refresh_token_hash == hash && is_absent s.revoked_at

unfoldable pub revoke_session_by_hash : Bytes → Service (Unit {0})
revoke_session_by_hash hash = do
  now ← gets (λ w. w.now)
  write (λ d. record d {
    auth_sessions =
        update_where (is_open_session hash) (λ s. record s { revoked_at = some now })
          d.auth_sessions;
  })

abbrev pub older_credential : MfaCredential → MfaCredential → Bool
older_credential a b = ltb a.created_at b.created_at

abbrev pub is_credential : String → Bool → MfaCredential → Bool
is_credential user_id verified c =
    c.user_id == user_id && (if verified then c.verified else not c.verified)

-- ORDER BY created_at DESC LIMIT 1, with the one written first among those of one instant.
abbrev latest_credential : String → Bool → World → Option MfaCredential
latest_credential user_id verified w =
    get_last?
      (order_by older_credential (select (is_credential user_id verified) w.mfa_credentials))

unfoldable pub find_latest_unverified_mfa_credential : String → World → Option MfaCredential
find_latest_unverified_mfa_credential user_id w = latest_credential user_id false w

unfoldable pub find_verified_mfa_credential : String → World → Option MfaCredential
find_verified_mfa_credential user_id w = latest_credential user_id true w

unfoldable pub delete_unverified_mfa_credentials : String → Service (Unit {0})
delete_unverified_mfa_credentials user_id = write (λ d. record d {
  mfa_credentials = select (λ c. not (is_credential user_id false c)) d.mfa_credentials;
})

unfoldable pub mark_mfa_credential_verified : String → Service (Unit {0})
mark_mfa_credential_verified id = write (λ d. record d {
  mfa_credentials =
      update_where (λ c. c.id == id) (λ c. record c { verified = true }) d.mfa_credentials;
})

module _ (p : Platform) where
  unfoldable pub insert_login_attempt :
      Option String → String → Option String → Bool → Service (Unit {0})
  insert_login_attempt user_id username_tried ip_address success = do
    id ← new_uuid p
    now ← gets (λ w. w.now)
    let row : LoginAttempt = record {
      id = id;
      user_id = user_id;
      username_tried = username_tried;
      ip_address = ip_address;
      success = success;
      created_at = now;
    }
    write (λ d. record d { login_attempts = row ∷ d.login_attempts })

  unfoldable pub insert_auth_session :
      String → Bytes → ℕ → Option String → Option String → Service AuthSession
  insert_auth_session user_id refresh_token_hash expires_at ip_address user_agent = do
    id ← new_uuid p
    now ← gets (λ w. w.now)
    let row : AuthSession = record {
      id = id;
      user_id = user_id;
      refresh_token_hash = refresh_token_hash;
      issued_at = now;
      expires_at = expires_at;
      revoked_at = none;
      ip_address = ip_address;
      user_agent = user_agent;
    }
    write (λ d. record d { auth_sessions = row ∷ d.auth_sessions })
    pure row

  unfoldable pub insert_mfa_credential : String → Bytes → Service (Unit {0})
  insert_mfa_credential user_id secret = do
    id ← new_uuid p
    now ← gets (λ w. w.now)
    let row : MfaCredential = record {
      id = id;
      user_id = user_id;
      secret = secret;
      verified = false;
      created_at = now;
    }
    write (λ d. record d { mfa_credentials = row ∷ d.mfa_credentials })
