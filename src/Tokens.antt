-- ===== src/Tokens.antt =====
-- apps/api/src/services/jwt/index.js and apps/api/src/services/mfa/index.js: tokens, durations and
-- one-time codes. Tokens.Password has the password functions of apps/api/src/services/crypto/index.js.
pub mod Duration
pub mod Password
pub mod Matching
pub mod RoundTrip
use secure_document_manageme.Prelude.{ℕ, String, Bool, false, Option, none, some, List}
use secure_document_manageme.Ledger.{Bytes}
use secure_document_manageme.Service.{
  Service, Platform, HttpError, draw, ◌>>=◌, ◌>>◌, gets, modify, pure,
}

-- The payload of an access token.
pub record Claims : Type 0 where
  pub subject : String
  pub username : String
  pub roles : List String

-- What the accounts take from outside the repository: the random tokens, secrets and salts as
-- sequences, scrypt, jsonwebtoken with the configured secret and
-- lifetime, the authenticator's check of a code at a time (nothing where it throws), and the
-- configured values. `scrypt` takes the password, the salt, the length of the key, N, r and p, and
-- returns nothing where it throws.
pub record Identity : Type 0 where
  pub random_token : ℕ → Bytes
  pub random_secret : ℕ → Bytes
  pub random_salt : ℕ → Bytes
  pub scrypt : String → Bytes → ℕ → ℕ → ℕ → ℕ → Option Bytes
  pub jwt_sign : Claims → ℕ → Bytes
  pub jwt_verify : Bytes → ℕ → Option Claims
  pub totp_check : Bytes → String → ℕ → Option Bool
  pub lockout_threshold : ℕ
  pub refresh_ttl : Bytes
  pub invitation_ttl : Bytes

abbrev verdict : Option Bool → Bool
verdict none = false
verdict (some b) = b

module _ (p : Platform) (i : Identity) where
  unfoldable pub hash_opaque_token : Bytes → Bytes
  hash_opaque_token raw = p.sha256 raw

  -- The raw token and the hash that is stored.
  unfoldable pub generate_opaque_token : Service (Bytes × Bytes)
  unfolding hash_opaque_token
  generate_opaque_token = do
    n ← gets (λ w. w.drawn)
    modify draw
    pure (i.random_token n, hash_opaque_token (i.random_token n))

module _ (i : Identity) where
  unfoldable pub generate_secret : Service Bytes
  generate_secret = do n ← gets (λ w. w.drawn); modify draw; pure (i.random_secret n)

  unfoldable pub verify_token : Bytes → String → ℕ → Bool
  verify_token secret token now = verdict (i.totp_check secret token now)

  unfoldable pub sign_access_token : Claims → Service Bytes
  sign_access_token claims = gets (λ w. i.jwt_sign claims w.now)

  -- Nothing instead of an exception.
  unfoldable pub verify_access_token : Bytes → ℕ → Option Claims
  verify_access_token token now = i.jwt_verify token now
