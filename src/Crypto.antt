-- ===== src/Crypto.antt =====
-- apps/api/src/services/crypto/index.js: `encrypt`, `decrypt` and `hashSha256`. AES-256-GCM, SHA-256
-- and the random bytes are node:crypto's, and come with the platform.
pub mod Envelope
pub mod Rsa
use secure_document_manageme.Prelude.{
  ℕ, zero, suc, ◌+◌, Bool, Option, none, some, List, [], ◌∷◌, ◌++◌, ltb, nat_beq, length, not,
  if◌then◌else◌, String,
}
use secure_document_manageme.Ledger.{Bytes}
use secure_document_manageme.Service.{Result, ok, err, HttpError, internal_error, Platform}

abbrev pub aes_iv_bytes : ℕ
aes_iv_bytes = 12

abbrev pub aes_auth_tag_bytes : ℕ
aes_auth_tag_bytes = 16

abbrev pub envelope_version : ℕ
envelope_version = 1

-- `buffer.subarray(0, n)` and `buffer.subarray(n)`
abbrev pub subarray_to : ℕ → Bytes → Bytes
subarray_to zero xs = []
subarray_to (suc n) [] = []
subarray_to (suc n) (x ∷ xs) = x ∷ subarray_to n xs

abbrev pub subarray_from : ℕ → Bytes → Bytes
subarray_from zero xs = xs
subarray_from (suc n) [] = []
subarray_from (suc n) (x ∷ xs) = subarray_from n xs

-- `envelope[0]`
abbrev version_of : Bytes → ℕ
version_of [] = 0
version_of (b ∷ bs) = b

abbrev opened : Option Bytes → Result Bytes
opened none = err internal_error
opened (some plaintext) = ok plaintext

module _ (p : Platform) where
  unfoldable pub hash_sha256 : Bytes → Bytes
  hash_sha256 buffer = p.sha256 buffer

  -- [1 byte version][12-byte IV][16-byte auth tag][ciphertext]; `n` counts the IVs drawn so far.
  unfoldable pub encrypt : Bytes → String → ℕ → Bytes
  encrypt plaintext master_key_secret n =
      let iv : Bytes = p.random_iv n in
      let (auth_tag, ciphertext) = p.aes_seal (p.aes_key master_key_secret) iv plaintext in
      envelope_version ∷ (iv ++ (auth_tag ++ ciphertext))

  -- A malformed envelope, another version or a failed authentication throws.
  unfoldable pub decrypt : Bytes → String → Result Bytes
  decrypt envelope master_key_secret =
      if ltb (length envelope) (1 + aes_iv_bytes + aes_auth_tag_bytes)
      then err internal_error
      else if not (nat_beq (version_of envelope) envelope_version)
      then err internal_error
      else let rest : Bytes = subarray_from 1 envelope in
        let iv : Bytes = subarray_to aes_iv_bytes rest in
        let auth_tag : Bytes = subarray_to aes_auth_tag_bytes (subarray_from aes_iv_bytes rest) in
        let ciphertext : Bytes = subarray_from (aes_iv_bytes + aes_auth_tag_bytes) rest in
        opened (p.aes_open (p.aes_key master_key_secret) iv auth_tag ciphertext)
