-- ===== src/Auth/Threshold.antt =====
-- The bound on failed logins.
use secure_document_manageme.Prelude.{
  ℕ, ◌+◌, String, ◌≡◌, refl, sym, ◌∙◌, inl, inr, Bool, true, false, ◌||◌, Option, some, List, arith,
  ◌==◌, ==_iff, string_eq, Bool-cases, Option-cases, ltb, leb, find?, find?-sound, find?-updated,
  find?-not_updated, update_where, All, All-found, if◌then◌else◌,
}
use secure_document_manageme.Db.{World, Account, UserStatus, user_status_eq}
use secure_document_manageme.Service.{Platform, Result, Result-cases, with_transaction}
use secure_document_manageme.AuditLedger
use secure_document_manageme.Tokens.{Identity, generate_opaque_token, sign_access_token}
use secure_document_manageme.Tokens.Duration.{parse_duration}
use secure_document_manageme.Users.Repository.{
  find_user_by_username, with_status, one_more_failure, reset_failed_login_count, set_last_login_at,
}
use secure_document_manageme.Auth.Repository.{insert_login_attempt, insert_auth_session}
use secure_document_manageme.Auth.Service.{
  LoggedIn, credentials_ok, open_session, admit, login_as, login_found, login,
}
use secure_document_manageme.Auth.Lockout.{counted, new_count, after_failure, Failed, refuse-Failed}

abbrev pub IsWithin : ℕ → Account → Type 0
IsWithin t u = (u.status == UserStatus.locked || ltb u.failed_login_count t) ≡ true

abbrev by_id : String → Account → Bool
by_id id u = u.id == id

abbrev pub BoundedIn : ℕ → List Account → Type 0
BoundedIn t users = (id : String) (u : Account) → find? (by_id id) users ≡ some u → IsWithin t u

pub All-BoundedIn : (t : ℕ) (users : List Account) → All (IsWithin t) users → BoundedIn t users
All-BoundedIn t users h id u e = All-found (IsWithin t) (by_id id) users u h e

-- The accounts but for one.
abbrev BoundedOff : ℕ → String → List Account → Type 0
BoundedOff t k users =
    (id : String) (u : Account)
    → find? (by_id id) users ≡ some u
    → (u.id == k) ≡ false
    → IsWithin t u

module _ (t : ℕ) (k : String) (f : Account → Account)
    (keeps : (u : Account) → (f u).id ≡ u.id) where
  keeps_test : (id : String) (u : Account) → by_id id (f u) ≡ by_id id u
  keeps_test id u = rw (keeps u) refl

  -- What a row of the updated table was before.
  origin :
      (users : List Account) (id : String) (u : Account)
      → find? (by_id id) (update_where (by_id k) f users) ≡ some u
      → (v : Account) × (find? (by_id id) users ≡ some v) × (u ≡ (if by_id k v then f v else v))
  origin users id u e = elim (Option-cases (find? (by_id id) users)) [
    | inl gone ↦
        let never = find?-not_updated (by_id id) (by_id k) f (keeps_test id) users gone in cc
    | inr (v, found) ↦
        let now = find?-updated (by_id id) (by_id k) f (keeps_test id) users v found in
        (v, found, cc)
  ]

  off_updated :
      (users : List Account)
      → BoundedOff t k users
      → BoundedOff t k (update_where (by_id k) f users)
  off_updated users h id u e apart =
      let (v, found, same) = origin users id u e in
      elim (Bool-cases (by_id k v)) [
        | inl hit ↦
            let moved : u ≡ f v = rw hit at same in
            let never : true ≡ false = rw (moved, keeps v, hit) at apart in cc
        | inr miss ↦ let kept : u ≡ v = rw miss at same in rw kept (h id v found miss)
      ]

  bounded_updated :
      (users : List Account)
      → BoundedOff t k users
      → ((v : Account) → find? (by_id k) users ≡ some v → IsWithin t (f v))
      → BoundedIn t (update_where (by_id k) f users)
  bounded_updated users h good id u e =
      let (v, found, same) = origin users id u e in
      elim (Bool-cases (by_id k v)) [
        | inl hit ↦
            let moved : u ≡ f v = rw hit at same in
            let here : id ≡ k =
              sym ((==_iff v.id id).0 (find?-sound (by_id id) users v found))
              ∙ (==_iff v.id k).0 hit in
            rw moved (good v (rw here at found))
        | inr miss ↦ let kept : u ≡ v = rw miss at same in rw kept (h id v found miss)
      ]

counted_count :
    (k : String) (users : List Account) (v : Account)
    → find? (by_id k) users ≡ some v
    → new_count k users ≡ v.failed_login_count + 1
counted_count k users v found =
    let hit : by_id k v ≡ true = find?-sound (by_id k) users v found in
    let now = find?-updated (by_id k) (by_id k) one_more_failure (λ u. refl) users v found in
    rw now (rw hit refl)

within_below : (b : Bool) (n t : ℕ) → leb t n ≡ false → b || ltb n t ≡ true
within_below b n t h = ground arith

within_zero : (b : Bool) (t : ℕ) → leb 1 t ≡ true → b || ltb 0 t ≡ true
within_zero b t h = ground arith

after_failure-BoundedIn :
    (t : ℕ) (k : String) (users : List Account)
    → BoundedIn t users
    → BoundedIn t (after_failure t k users)
after_failure-BoundedIn t k users h = elim (Bool-cases (leb t (new_count k users))) [
  | inl reached ↦ rw reached (
      bounded_updated t k (with_status UserStatus.locked) (λ u. refl) (counted k users)
        (off_updated t k one_more_failure (λ u. refl) users (λ id u e apart. h id u e))
        (λ v found. refl))
  | inr below ↦ rw below (
      bounded_updated t k one_more_failure (λ u. refl) users (λ id u e apart. h id u e)
        (λ v found.
          within_below (v.status == UserStatus.locked) (v.failed_login_count + 1) t
            (rw (counted_count k users v found) at below)))
]

module _ (p : Platform) (i : Identity) (positive : leb 1 i.lockout_threshold ≡ true) where
  Failed-BoundedIn :
      (id : String) (w w' : World) (r : Result LoggedIn)
      → Failed p i id w w' r
      → BoundedIn i.lockout_threshold w.users
      → BoundedIn i.lockout_threshold w'.users
  Failed-BoundedIn id w w' r f h =
      rw f.users (after_failure-BoundedIn i.lockout_threshold id w.users h)

  -- The accounts after a login.
  welcomed-BoundedIn :
      (id : String) (now : ℕ) (users : List Account)
      → BoundedIn i.lockout_threshold users
      → BoundedIn i.lockout_threshold (
          update_where
            (by_id id)
            (λ u. record u { last_login_at = some now })
            (update_where (by_id id) (λ u. record u { failed_login_count = 0 }) users))
  welcomed-BoundedIn id now users h =
      let t = i.lockout_threshold in
      let fresh =
        bounded_updated t id (λ u. record u { failed_login_count = 0 }) (λ u. refl) users
          (λ k u e apart. h k u e)
          (λ v found. within_zero (v.status == UserStatus.locked) t positive) in
      bounded_updated t id (λ u. record u { last_login_at = some now }) (λ u. refl)
        (update_where (by_id id) (λ u. record u { failed_login_count = 0 }) users)
        (λ k u e apart. fresh k u e) (λ v found. fresh id v found)

  -- With a threshold of at least one, and with every account that an id finds either locked or below the
  -- threshold in failed attempts: however a login ends, that is so again after it. No account passes
  -- the threshold without being locked.
  pub login-BoundedIn :
      (username password : String) (otp ip agent : Option String) (w : World)
      → BoundedIn i.lockout_threshold w.users
      → BoundedIn i.lockout_threshold (login p i username password otp ip agent w).1.users
  unfolding login login_found login_as insert_login_attempt admit open_session generate_opaque_token
      insert_auth_session reset_failed_login_count set_last_login_at sign_access_token
      with_transaction AuditLedger.append_event
  login-BoundedIn username password otp ip agent w h =
      elim (Option-cases (find_user_by_username username w)) [
        | inl gone ↦ rw gone h
        | inr (u, found) ↦ elim (Bool-cases (u.status == UserStatus.locked)) [
          | inl shut ↦ rw found (rw shut h)
          | inr unlocked ↦ elim (Bool-cases (credentials_ok i u password otp w)) [
            | inr wrong ↦ rw found (
                rw unlocked (
                  rw wrong
                    (Failed-BoundedIn u.id w _ _ (refuse-Failed p i u username ip agent w) h)))
            | inl right ↦ elim (Result-cases (parse_duration i.refresh_ttl)) [
              | inl (e, bad) ↦ rw found (rw unlocked (rw right (rw bad h)))
              | inr (ttl, good) ↦
                  rw found
                    (rw unlocked (rw right (rw good (welcomed-BoundedIn u.id w.now w.users h))))
            ]
          ]
        ]
      ]
