-- ===== src/Tokens/RoundTrip.antt =====
-- apps/api/src/services/crypto/index.js: `verifyPassword` on what `hashPassword` has written.
use secure_document_manageme.Prelude.{
  ℕ, ◌<◌, ◌+◌, ◌*◌, ◌/◌, ◌%◌, arith, String, ◌≡◌, ◌≢◌, refl, ◌↔◌, true, false, some, [], ◌∷◌, ◌++◌,
  ◌==◌, ==_iff, ==_refl, list_eq, nat_eq, length, All,
}
use secure_document_manageme.Ledger.{Bytes}
use secure_document_manageme.Canonical.{codes}
use secure_document_manageme.Db.{World}
use secure_document_manageme.Service.{Result, ok, err}
use secure_document_manageme.Tokens.{Identity}
use secure_document_manageme.Tokens.Password.{
  hex_digit, hex_value, to_hex, from_hex, split, default_params, hash_password, verify_password,
  draw_salt, agrees,
}
use secure_document_manageme.Tokens.Matching.{filled_back, agrees_from}

hex_value-hex_digit : (n : ℕ) → n < 16 → hex_value (hex_digit n) ≡ some n
hex_value-hex_digit n h = ground arith

abbrev pub AreBytes : Bytes → Type 0
AreBytes = All (λ b. b < 256)

from_hex-to_hex : (bs : Bytes) → AreBytes bs → from_hex (to_hex bs) ≡ bs
from_hex-to_hex [] h = refl
from_hex-to_hex (b ∷ bs) (small, h) =
    let whole : (b / 16) * 16 + b % 16 ≡ b = omega arith in
    rw
      (
        hex_value-hex_digit (b / 16) (omega (arith, small)),
        hex_value-hex_digit (b % 16) (omega arith),
        from_hex-to_hex bs h,
      )
      (rw whole refl)

abbrev IsPlain : Bytes → Type 0
IsPlain = All (λ c. (c == b'$') ≡ false)

hex_digit-ne : (n : ℕ) → (hex_digit n == b'$') ≡ false
hex_digit-ne n = ground (arith, ==_iff (hex_digit n) b'$')

to_hex-IsPlain : (bs : Bytes) → IsPlain (to_hex bs)
to_hex-IsPlain [] = tt
to_hex-IsPlain (b ∷ bs) = (hex_digit-ne (b / 16), (hex_digit-ne (b % 16), to_hex-IsPlain bs))

split-last : (xs : Bytes) → IsPlain xs → split xs ≡ xs ∷ []
split-last [] h = refl
split-last (x ∷ xs) (other, h) = rw other (rw (split-last xs h) refl)

split-concat : (xs rest : Bytes) → IsPlain xs → split (xs ++ (b'$' ∷ rest)) ≡ xs ∷ split rest
split-concat [] rest h = refl
split-concat (x ∷ xs) rest (other, h) = rw other (rw (split-concat xs rest h) refl)

split-hash :
    (salt key : Bytes)
    → split (default_params ++ (to_hex salt ++ (b'$' ∷ to_hex key)))
      ≡ codes "scrypt" ∷ codes "16384" ∷ codes "8" ∷ codes "1" ∷ to_hex salt ∷ to_hex key ∷ []
split-hash salt key =
    rw
      (
        split-concat (to_hex salt) (to_hex key) (to_hex-IsPlain salt),
        split-last (to_hex key) (to_hex-IsPlain key),
      )
      refl

module _ (i : Identity) where
  -- A stored text that is accepted with exactly the passwords that scrypt maps to one key.
  abbrev pub AcceptsOnly : Bytes → Bytes → Result Bytes → Type 0
  AcceptsOnly salt key (err e) = ⊥
  AcceptsOnly salt key (ok hash) =
      (other : String)
      → (verify_password i other (some hash) ≡ true) ↔ (i.scrypt other salt 64 16384 8 1 ≡ some key)

  verify-written :
      (salt key : Bytes) (other : String)
      → AreBytes salt
      → AreBytes key
      → salt ≢ []
      → length key ≡ 64
      → verify_password i other (some (default_params ++ (to_hex salt ++ (b'$' ∷ to_hex key))))
        ≡ agrees i key (i.scrypt other salt 64 16384 8 1)
  unfolding verify_password
  verify-written salt key other small_salt small_key salted long =
      let keyed : key ≢ [] =
        λ e. (let never : 0 ≡ 64 = rw e at long in absurd (omega (arith, never))) in
      rw (split-hash salt key) (
        rw (from_hex-to_hex salt small_salt, from_hex-to_hex key small_key)
          (rw (filled_back salt salted, filled_back key keyed, long) refl))

  agrees-itself : (key : Bytes) → agrees i key (some key) ≡ true
  agrees-itself key = rw (==_refl (length key), ==_refl key) refl

-- With a salt of bytes that is not empty, where scrypt derives from the password a key of the 64
-- bytes that are asked for: `hashPassword` returns a stored text, and `verifyPassword` accepts for it
-- exactly the passwords from which scrypt derives that key with that salt and the default costs.
pub hash_password-AcceptsOnly :
    (i : Identity) (password : String) (key : Bytes) (w : World)
    → AreBytes (i.random_salt w.drawn)
    → i.random_salt w.drawn ≢ []
    → i.scrypt password (i.random_salt w.drawn) 64 16384 8 1 ≡ some key
    → AreBytes key
    → length key ≡ 64
    → AcceptsOnly i (i.random_salt w.drawn) key (hash_password i password w).0
unfolding hash_password draw_salt
hash_password-AcceptsOnly i password key w small_salt salted derived small_key long =
    let salt : Bytes = i.random_salt w.drawn in
    rw derived (λ other.
      let same = verify-written i salt key other small_salt small_key salted long in
      (
        λ accepted.
            agrees_from i other key (i.scrypt other salt 64 16384 8 1) (rw same at accepted),
        λ again. rw same (rw again (agrees-itself i key)),
      ))
