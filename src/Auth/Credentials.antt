-- ===== src/Auth/Credentials.antt =====
-- What the credentials of a login have to be, independently of the check that `login` makes.
use secure_document_manageme.Prelude.{
  ℕ, String, ◌≡◌, ◌≢◌, refl, ◌↔◌, inl, inr, true, false, Option, none, some, ◌==◌, ==_iff,
  string_eq, Bool-cases, Option-cases, All-last, All-selected, select,
}
use secure_document_manageme.Prelude.Sort.{order_by, All-order_by}
use secure_document_manageme.Ledger.{Bytes}
use secure_document_manageme.Entries.{or_null}
use secure_document_manageme.Db.{World, Account, MfaCredential}
use secure_document_manageme.Tokens.{Identity, verify_token}
use secure_document_manageme.Tokens.Password.{verify_password}
use secure_document_manageme.Tokens.Matching.{IsHashOf, verify_password_iff}
use secure_document_manageme.Auth.Repository.{
  is_credential, older_credential, find_verified_mfa_credential,
}
use secure_document_manageme.Auth.Service.{check_otp, mfa_ok, credentials_ok}

module _ (i : Identity) where
  -- A one-time code was sent, and the library accepts it for the newest verified credential of the
  -- account.
  pub record HasCode (u : Account) (otp : Option String) (w : World) : Type 0 where
    pub code : String
    pub sent : otp ≡ some code
    pub full : code ≢ ""
    pub credential : MfaCredential
    pub newest : find_verified_mfa_credential u.id w ≡ some credential
    pub owner : credential.user_id ≡ u.id
    pub verified : credential.verified ≡ true
    pub accepted : i.totp_check credential.secret code w.now ≡ some true

  -- The password is that of the stored hash, and an account with a second factor has used it.
  pub record IsRight (u : Account) (password : String) (otp : Option String) (w : World)
      : Type 0 where
    pub password_right : IsHashOf i password u.password_hash
    pub second_factor : u.mfa_enabled ≡ true → HasCode u otp w

  credential-owner :
      (id : String) (w : World) (c : MfaCredential)
      → find_verified_mfa_credential id w ≡ some c
      → (c.user_id ≡ id) × (c.verified ≡ true)
  unfolding find_verified_mfa_credential
  credential-owner id w c e =
      let rows = select (is_credential id true) w.mfa_credentials in
      let hit : (is_credential id true c) ≡ true =
        All-last (λ a. is_credential id true a ≡ true) (order_by older_credential rows) c
          (All-order_by older_credential (λ a. is_credential id true a ≡ true) rows
            (All-selected (is_credential id true) w.mfa_credentials))
          e in
      elim (Bool-cases (c.user_id == id)) [
        | inl mine ↦ ((==_iff c.user_id id).0 mine, rw mine at hit)
        | inr other ↦ (let never : false ≡ true = rw other at hit in absurd cc)
      ]

  accepted_from :
      (secret : Bytes) (code : String) (now : ℕ)
      → verify_token i secret code now ≡ true
      → i.totp_check secret code now ≡ some true
  unfolding verify_token
  accepted_from secret code now h = elim (Option-cases (i.totp_check secret code now)) [
    | inl thrown ↦ (let never : false ≡ true = rw thrown at h in absurd cc)
    | inr (b, answered) ↦ (let same : b ≡ true = rw answered at h in rw answered (rw same refl))
  ]

  HasCode-from :
      (u : Account) (otp : Option String) (w : World)
      → check_otp i u (or_null otp) w ≡ true
      → HasCode u otp w
  HasCode-from u none w h = absurd cc
  HasCode-from u (some code) w h = elim (Bool-cases (code == "")) [
    | inl empty ↦ (let never : false ≡ true = rw empty at h in absurd cc)
    | inr full ↦ elim (Option-cases (find_verified_mfa_credential u.id w)) [
      | inl none_found ↦ (let never : false ≡ true = rw (full, none_found) at h in absurd cc)
      | inr (c, newest) ↦
          let (mine, checked) = credential-owner u.id w c newest in
          record {
            code = code;
            sent = refl;
            full = λ e. (let never : true ≡ false = rw e at full in absurd cc);
            credential = c;
            newest = newest;
            owner = mine;
            verified = checked;
            accepted = accepted_from c.secret code w.now (rw (full, newest) at h);
          }
    ]
  ]

  HasCode-to :
      (u : Account) (otp : Option String) (w : World)
      → HasCode u otp w
      → check_otp i u (or_null otp) w ≡ true
  unfolding verify_token
  HasCode-to u otp w h = elim (Bool-cases (h.code == "")) [
    | inl empty ↦ absurd (h.full ((==_iff h.code "").0 empty))
    | inr full ↦ rw h.sent (rw full (rw h.newest (rw h.accepted refl)))
  ]

  IsRight-from :
      (u : Account) (password : String) (otp : Option String) (w : World)
      → credentials_ok i u password otp w ≡ true
      → IsRight u password otp w
  unfolding credentials_ok mfa_ok
  IsRight-from u password otp w h = elim (Bool-cases (verify_password i password u.password_hash)) [
    | inr wrong ↦ (let never : false ≡ true = rw wrong at h in absurd cc)
    | inl known ↦ record {
      password_right = (verify_password_iff i password u.password_hash).0 known;
      second_factor = λ enabled. HasCode-from u otp w (rw (known, enabled) at h);
    }
  ]

  IsRight-to :
      (u : Account) (password : String) (otp : Option String) (w : World)
      → IsRight u password otp w
      → credentials_ok i u password otp w ≡ true
  unfolding credentials_ok mfa_ok
  IsRight-to u password otp w h =
      rw ((verify_password_iff i password u.password_hash).1 h.password_right)
        (elim (Bool-cases u.mfa_enabled) [
          | inr plain ↦ rw plain refl
          | inl enabled ↦ rw enabled (HasCode-to u otp w (h.second_factor enabled))
        ])

-- The check of `login` accepts exactly the right credentials.
pub credentials_ok_iff :
    (i : Identity) (u : Account) (password : String) (otp : Option String) (w : World)
    → (credentials_ok i u password otp w ≡ true) ↔ IsRight i u password otp w
credentials_ok_iff i u password otp w =
    (IsRight-from i u password otp w, IsRight-to i u password otp w)
