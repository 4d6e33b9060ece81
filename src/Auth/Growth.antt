-- ===== src/Auth/Growth.antt =====
-- What the requests on sessions do to the audit table.
use secure_document_manageme.Prelude.{ℕ, String, refl, Bool, Option, none, some, [], ◌∷◌}
use secure_document_manageme.Ledger.{Bytes}
use secure_document_manageme.Db.{Account, AuthSession}
use secure_document_manageme.Service.{Platform}
use secure_document_manageme.AuditLedger.Growth.{Appends, Appends-unaudited, appends_rules}
use secure_document_manageme.Evidence.Growth.{Appends-raise, Appends-from_result}
use secure_document_manageme.Tokens.{Claims, Identity, generate_secret, sign_access_token}
use secure_document_manageme.Users.Growth.{Appends-token, Appends-update_user}
use secure_document_manageme.Users.Repository.{
  set_user_status, reset_failed_login_count, increment_failed_login_count, set_last_login_at,
  set_mfa_enabled,
}
use secure_document_manageme.Auth.Repository.{
  insert_login_attempt, insert_auth_session, revoke_session_by_hash,
  delete_unverified_mfa_credentials, insert_mfa_credential, mark_mfa_credential_verified,
}
use secure_document_manageme.Auth.Service.{
  fail_login, open_session, admit, refuse, login_as, login_found, login, refresh, note_logout,
  logout, enroll_mfa, verify_mfa_enrollment,
}

module _ (p : Platform) (i : Identity) where
  Appends-attempt :
      (u : Option String) (n : String) (ip : Option String) (b : Bool)
      → Appends p (insert_login_attempt p u n ip b)
  unfolding insert_login_attempt
  Appends-attempt u n ip b = Appends-unaudited p _ (λ w. refl) (λ w. refl)

  Appends-session :
      (u : String) (h : Bytes) (x : ℕ) (ip a : Option String)
      → Appends p (insert_auth_session p u h x ip a)
  unfolding insert_auth_session
  Appends-session u h x ip a = Appends-unaudited p _ (λ w. refl) (λ w. refl)

  Appends-revoke : (h : Bytes) → Appends p (revoke_session_by_hash h)
  unfolding revoke_session_by_hash
  Appends-revoke h = Appends-unaudited p _ (λ w. refl) (λ w. refl)

  Appends-delete : (u : String) → Appends p (delete_unverified_mfa_credentials u)
  unfolding delete_unverified_mfa_credentials
  Appends-delete u = Appends-unaudited p _ (λ w. refl) (λ w. refl)

  Appends-credential : (u : String) (s : Bytes) → Appends p (insert_mfa_credential p u s)
  unfolding insert_mfa_credential
  Appends-credential u s = Appends-unaudited p _ (λ w. refl) (λ w. refl)

  Appends-mark : (id : String) → Appends p (mark_mfa_credential_verified id)
  unfolding mark_mfa_credential_verified
  Appends-mark id = Appends-unaudited p _ (λ w. refl) (λ w. refl)

  Appends-count : (id : String) → Appends p (increment_failed_login_count id)
  unfolding increment_failed_login_count
  Appends-count id = Appends-unaudited p _ (λ w. refl) (λ w. refl)

  Appends-last_login : (id : String) → Appends p (set_last_login_at id)
  unfolding set_last_login_at
  Appends-last_login id = Appends-unaudited p _ (λ w. refl) (λ w. refl)

  Appends-secret : Appends p (generate_secret i)
  unfolding generate_secret
  Appends-secret = Appends-unaudited p _ (λ w. refl) (λ w. refl)

  Appends-sign : (c : Claims) → Appends p (sign_access_token i c)
  unfolding sign_access_token
  Appends-sign c = Appends-unaudited p _ (λ w. refl) (λ w. refl)

  ruleset session_rules = (
    appends_rules, Appends-raise, Appends-from_result, Appends-token, Appends-update_user,
    Appends-attempt, Appends-session, Appends-revoke, Appends-delete, Appends-credential,
    Appends-mark, Appends-count, Appends-last_login, Appends-secret, Appends-sign,
  )

  Appends-fail :
      (u : Account) (n : String) (ip a : Option String) → Appends p (fail_login p i u n ip a)
  unfolding fail_login set_user_status
  Appends-fail u n ip a = search session_rules depth 40 fits 4000

  Appends-open :
      (u : Account) (n : String) (ip a : Option String) (h : Bytes) (x : ℕ)
      → Appends p (open_session p i u n ip a h x)
  unfolding open_session reset_failed_login_count
  Appends-open u n ip a h x = search session_rules depth 40 fits 4000

  Appends-admit : (u : Account) (n : String) (ip a : Option String) → Appends p (admit p i u n ip a)
  unfolding admit
  Appends-admit u n ip a = search (session_rules, Appends-open) depth 24

  Appends-refuse :
      (u : Account) (n : String) (ip a : Option String) → Appends p (refuse p i u n ip a)
  unfolding refuse
  Appends-refuse u n ip a = search (session_rules, Appends-fail) depth 24

  Appends-login_as :
      (u : Account) (n s : String) (o ip a : Option String) → Appends p (login_as p i u n s o ip a)
  unfolding login_as
  Appends-login_as u n s o ip a = search (session_rules, Appends-admit, Appends-refuse) depth 24

  Appends-found :
      (u : Option Account) (n s : String) (o ip a : Option String)
      → Appends p (login_found p i u n s o ip a)
  unfolding login_found
  Appends-found none n s o ip a = search session_rules depth 12
  Appends-found (some u) n s o ip a = search (Appends-login_as)

  pub Appends-login : (n s : String) (o ip a : Option String) → Appends p (login p i n s o ip a)
  unfolding login
  Appends-login n s o ip a = search (session_rules, Appends-found) depth 12

  pub Appends-refresh : (t : Option Bytes) → Appends p (refresh p i t)
  unfolding refresh
  Appends-refresh t = search session_rules depth 40 fits 4000

  Appends-note : (s : Option AuthSession) → Appends p (note_logout p i s)
  unfolding note_logout
  Appends-note none = search session_rules
  Appends-note (some s) = search session_rules depth 12

  pub Appends-logout : (t : Option Bytes) → Appends p (logout p i t)
  unfolding logout
  Appends-logout none = search session_rules
  Appends-logout (some []) = search session_rules
  Appends-logout (some (b ∷ bs)) = search (session_rules, Appends-note) depth 24

  pub Appends-enroll : (u : String) → Appends p (enroll_mfa p i u)
  unfolding enroll_mfa
  Appends-enroll u = search session_rules depth 24

  pub Appends-verify_enrollment : (u o : String) → Appends p (verify_mfa_enrollment p i u o)
  unfolding verify_mfa_enrollment set_mfa_enabled
  Appends-verify_enrollment u o = search session_rules depth 40 fits 4000
