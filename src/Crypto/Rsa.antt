-- ===== src/Crypto/Rsa.antt =====
-- apps/api/src/services/crypto/index.js: `generateRsaKeyPair`, `signRsa` and `verifyRsa`, and the random
-- verification codes of apps/api/src/modules/signatures/signatures.service.js. RSA is node:crypto's.
use secure_document_manageme.Prelude.{ℕ, Bool, false, Option, none, some}
use secure_document_manageme.Ledger.{Bytes}
use secure_document_manageme.Service.{
  Service, Result, ok, err, internal_error, draw, ◌>>=◌, ◌>>◌, gets, modify, pure,
}

-- `generate` and `random_code` are sequences, as `Platform` has them for UUIDs; a pair is the public
-- and the private key. `sign` and `verify` return nothing where node:crypto throws; both take the
-- text that is signed first.
pub record Rsa : Type 0 where
  pub generate : ℕ → Bytes × Bytes
  pub sign : Bytes → Bytes → Option Bytes
  pub verify : Bytes → Bytes → Bytes → Option Bool
  pub random_code : ℕ → Bytes

abbrev verdict : Option Bool → Bool
verdict none = false
verdict (some b) = b

abbrev signed_or_thrown : Option Bytes → Result Bytes
signed_or_thrown none = err internal_error
signed_or_thrown (some signature) = ok signature

module _ (r : Rsa) where
  unfoldable pub generate_rsa_key_pair : Service (Bytes × Bytes)
  generate_rsa_key_pair = do n ← gets (λ w. w.drawn); modify draw; pure (r.generate n)

  unfoldable pub sign_rsa : Bytes → Bytes → Result Bytes
  sign_rsa hash_hex private_key_pem = signed_or_thrown (r.sign hash_hex private_key_pem)

  -- Whatever the verification throws counts as a signature that does not verify.
  unfoldable pub verify_rsa : Bytes → Bytes → Bytes → Bool
  verify_rsa hash_hex signature public_key_pem =
      verdict (r.verify hash_hex signature public_key_pem)

  unfoldable pub generate_verification_code : Service Bytes
  generate_verification_code = do n ← gets (λ w. w.drawn); modify draw; pure (r.random_code n)
