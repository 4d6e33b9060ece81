-- ===== src/Auth/Lockout.antt =====
-- Logins: who gets a session, and the bound on failed attempts.
use secure_document_manageme.Prelude.{
  ℕ, ◌+◌, String, ◌≡◌, refl, inl, inr, true, false, Option, some, List, ◌∷◌, ◌==◌, string_eq,
  Bool-cases, Option-cases, none, leb, find?, update_where, if◌then◌else◌,
}
use secure_document_manageme.Ledger.{Bytes}
use secure_document_manageme.Db.{World, Account, UserStatus, user_status_eq, AuthSession}
use secure_document_manageme.Service.{
  Platform, HttpError, Result, Result-cases, ok, err, with_transaction,
}
use secure_document_manageme.Entries.{raise_security_event}
use secure_document_manageme.AuditLedger
use secure_document_manageme.Tokens.{
  Identity, hash_opaque_token, generate_opaque_token, sign_access_token,
}
use secure_document_manageme.Tokens.Duration.{parse_duration}
use secure_document_manageme.Users.Repository.{
  find_user_by_username, find_user_by_id, with_status, one_more_failure, count_of, set_user_status,
  reset_failed_login_count, increment_failed_login_count, set_last_login_at,
}
use secure_document_manageme.Auth.Repository.{insert_login_attempt, insert_auth_session}
use secure_document_manageme.Auth.Credentials.{IsRight, credentials_ok_iff}
use secure_document_manageme.Auth.Service.{
  LoggedIn, account_locked, invalid_credentials, credentials_ok, fail_login, open_session, admit,
  refuse, login_as, login_found, login,
}

abbrev pub counted : String → List Account → List Account
counted id users = update_where (λ u. u.id == id) one_more_failure users

abbrev pub new_count : String → List Account → ℕ
new_count id users = count_of (find? (λ u. u.id == id) (counted id users))

-- The table of accounts after a failed attempt.
abbrev pub after_failure : ℕ → String → List Account → List Account
after_failure threshold id users =
    if leb threshold (new_count id users)
    then update_where (λ u. u.id == id) (with_status UserStatus.locked) (counted id users)
    else counted id users

module _ (p : Platform) (i : Identity) where
  -- How a failed attempt ends.
  pub record Failed (id : String) (w w' : World) (r : Result LoggedIn) : Type 0 where
    pub error : HttpError
    pub thrown : r ≡ err error
    pub sessions : w'.auth_sessions ≡ w.auth_sessions
    pub users : w'.users ≡ after_failure i.lockout_threshold id w.users

  pub refuse-Failed :
      (u : Account) (username : String) (ip agent : Option String) (w : World)
      → Failed u.id w (refuse p i u username ip agent w).1 (refuse p i u username ip agent w).0
  unfolding refuse fail_login insert_login_attempt set_user_status increment_failed_login_count
      find_user_by_id raise_security_event with_transaction AuditLedger.append_event
  refuse-Failed u username ip agent w =
      elim (Bool-cases (leb i.lockout_threshold (new_count u.id w.users))) [
        | inl reached ↦ rw reached (record {
          error = account_locked;
          thrown = refl;
          sessions = refl;
          users = rw reached refl;
        })
        | inr below ↦ rw below (record {
          error = invalid_credentials;
          thrown = refl;
          sessions = refl;
          users = rw below refl;
        })
      ]

  -- What a login that returns tokens has found and left.
  pub record Admitted (username password : String) (otp : Option String) (w w' : World)
      (answer : LoggedIn) : Type 0 where
    pub user : Account
    pub found : find_user_by_username username w ≡ some user
    pub unlocked : (user.status == UserStatus.locked) ≡ false
    pub right : IsRight i user password otp w
    pub session : AuthSession
    pub opened : w'.auth_sessions ≡ session ∷ w.auth_sessions
    pub owner : session.user_id ≡ user.id
    pub raw : Bytes
    pub handed_out : answer.refresh_token ≡ some raw
    pub stored : session.refresh_token_hash ≡ hash_opaque_token p i raw
    pub lasts :
        (ttl : ℕ) × (parse_duration i.refresh_ttl ≡ ok ttl) × (session.expires_at ≡ w.now + ttl)

  -- Why a login is turned away; the last is a configured duration that cannot be read.
  pub data IsDenied (username password : String) (otp : Option String) (w : World) : Type 0 where
    unknown_user : find_user_by_username username w ≡ none → IsDenied username password otp w
    locked_out :
        (u : Account)
        → find_user_by_username username w ≡ some u
        → (u.status == UserStatus.locked) ≡ true
        → IsDenied username password otp w
    bad_credentials :
        (u : Account)
        → find_user_by_username username w ≡ some u
        → ¬ IsRight i u password otp w
        → IsDenied username password otp w
    bad_duration :
        (e : HttpError) → parse_duration i.refresh_ttl ≡ err e → IsDenied username password otp w

  abbrev pub LoginOutcome :
      String → String → Option String → World → Result LoggedIn × World → Type 0
  LoginOutcome username password otp w (ok answer, w') = Admitted username password otp w w' answer
  LoginOutcome username password otp w (err e, w') =
      (w'.auth_sessions ≡ w.auth_sessions) × IsDenied username password otp w

  failing :
      (username password : String) (otp : Option String) (id : String) (w : World)
      (o : Result LoggedIn × World)
      → IsDenied username password otp w
      → Failed id w o.1 o.0
      → LoginOutcome username password otp w o
  failing username password otp id w (err e, w') denied f = (f.sessions, denied)
  failing username password otp id w (ok a, w') denied f = (let never = f.thrown in cc)

  -- A login opens a session, under the hash of the refresh token that it hands out and for the
  -- configured time, only for an account that is not locked, whose stored hash is one of the password
  -- under scrypt, and for which, where a second factor is enabled, a one-time code was sent that is
  -- accepted for the newest verified credential of the account. Every other login leaves the
  -- sessions as they were, and there is no such account, it is locked, the password or the code is
  -- not of that kind, or the configured time cannot be read.
  pub login-LoginOutcome :
      (username password : String) (otp ip agent : Option String) (w : World)
      → LoginOutcome username password otp w (login p i username password otp ip agent w)
  unfolding login login_found login_as insert_login_attempt admit refuse fail_login open_session
      generate_opaque_token insert_auth_session set_user_status reset_failed_login_count
      increment_failed_login_count set_last_login_at sign_access_token raise_security_event
      with_transaction AuditLedger.append_event
  login-LoginOutcome username password otp ip agent w =
      elim (Option-cases (find_user_by_username username w)) [
        | inl gone ↦ rw gone (refl, unknown_user gone)
        | inr (u, found) ↦ elim (Bool-cases (u.status == UserStatus.locked)) [
          | inl shut ↦ rw found (rw shut (refl, locked_out u found shut))
          | inr unlocked ↦ elim (Bool-cases (credentials_ok i u password otp w)) [
            | inr wrong ↦
                let unfit : ¬ IsRight i u password otp w = λ r.
                  (let right = (credentials_ok_iff i u password otp w).1 r in
                    let never : true ≡ false = rw right at wrong in absurd cc) in
                rw found (
                  rw unlocked (
                    rw wrong (
                      failing username password otp u.id w _ (bad_credentials u found unfit)
                        (refuse-Failed u username ip agent w))))
            | inl right ↦ elim (Result-cases (parse_duration i.refresh_ttl)) [
              | inl (e, bad) ↦ rw found (rw unlocked (rw right (rw bad (refl, bad_duration e bad))))
              | inr (ttl, good) ↦ rw found (
                  rw unlocked (
                    rw right (
                      rw good (record {
                        user = u;
                        found = found;
                        unlocked = unlocked;
                        right = (credentials_ok_iff i u password otp w).0 right;
                        session = _;
                        opened = refl;
                        owner = refl;
                        raw = _;
                        handed_out = refl;
                        stored = refl;
                        lasts = (ttl, good, refl);
                      }))))
            ]
          ]
        ]
      ]
