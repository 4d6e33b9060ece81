-- ===== src/Crypto/Envelope.antt =====
-- `decrypt` undoes `encrypt`.
use mathlib.Core.List.{append_assoc}
use secure_document_manageme.Prelude.{
  ℕ, zero, suc, ◌+◌, ◌≡◌, refl, some, [], ◌∷◌, ◌++◌, arith, ltb, length, String, false,
}
use secure_document_manageme.Ledger.{Bytes}
use secure_document_manageme.Service.{ok, Platform}
use secure_document_manageme.Crypto.{
  aes_iv_bytes, aes_auth_tag_bytes, subarray_to, subarray_from, encrypt, decrypt,
}

subarray_to-append : (n : ℕ) (xs ys : Bytes) → length xs ≡ n → subarray_to n (xs ++ ys) ≡ xs
subarray_to-append zero [] ys h = refl
subarray_to-append zero (x ∷ xs) ys h = absurd (omega arith)
subarray_to-append (suc n) [] ys h = absurd (omega arith)
subarray_to-append (suc n) (x ∷ xs) ys h = rw (subarray_to-append n xs ys (omega arith))

subarray_from-append : (n : ℕ) (xs ys : Bytes) → length xs ≡ n → subarray_from n (xs ++ ys) ≡ ys
subarray_from-append zero [] ys h = refl
subarray_from-append zero (x ∷ xs) ys h = absurd (omega arith)
subarray_from-append (suc n) [] ys h = absurd (omega arith)
subarray_from-append (suc n) (x ∷ xs) ys h = subarray_from-append n xs ys (omega arith)

length-append : (xs ys : Bytes) → length (xs ++ ys) ≡ length xs + length ys
length-append [] ys = omega arith
length-append (x ∷ xs) ys = omega (arith, length-append xs ys)

-- With an IV of 12 bytes, a tag of 16, and an AES that opens what it has sealed under the same key
-- and IV, `decrypt` returns the plaintext of every envelope that `encrypt` makes with the same
-- secret.
pub decrypt-encrypt :
    (p : Platform)
    → ((n : ℕ) → length (p.random_iv n) ≡ aes_iv_bytes)
    → ((k iv m : Bytes) → length (p.aes_seal k iv m).0 ≡ aes_auth_tag_bytes)
    → ((k iv m : Bytes) → p.aes_open k iv (p.aes_seal k iv m).0 (p.aes_seal k iv m).1 ≡ some m)
    → (plaintext : Bytes) (secret : String) (n : ℕ)
    → decrypt p (encrypt p plaintext secret n) secret ≡ ok plaintext
unfolding decrypt encrypt
decrypt-encrypt p iv12 tag16 opens plaintext secret n =
    let iv : Bytes = p.random_iv n in
    let tag : Bytes = (p.aes_seal (p.aes_key secret) iv plaintext).0 in
    let sealed : Bytes = (p.aes_seal (p.aes_key secret) iv plaintext).1 in
    let a : length (iv ++ (tag ++ sealed)) ≡ 28 + length sealed =
      omega (arith, length-append, iv12 n, tag16 (p.aes_key secret) iv plaintext) in
    let b = subarray_to-append 12 iv (tag ++ sealed) (iv12 n) in
    let c = subarray_from-append 12 iv (tag ++ sealed) (iv12 n) in
    let d = subarray_to-append 16 tag sealed (tag16 (p.aes_key secret) iv plaintext) in
    let e : subarray_from 28 (iv ++ (tag ++ sealed)) ≡ sealed = rw (← append_assoc iv tag sealed) (
      subarray_from-append 28 (iv ++ tag) sealed
        (omega (arith, length-append iv tag, iv12 n, tag16 (p.aes_key secret) iv plaintext))) in
    let long : ltb (suc (length (iv ++ (tag ++ sealed)))) 29 ≡ false = ground (arith, a) in
    rw (long, b, c, d, e, opens (p.aes_key secret) iv plaintext)
