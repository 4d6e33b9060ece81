-- ===== src/Tokens/Password.antt =====
-- apps/api/src/services/crypto/index.js: `hashPassword` and `verifyPassword`.
use secure_document_manageme.Prelude.{
  ℕ, ◌+◌, ◌*◌, ◌-◌, ◌/◌, ◌%◌, ◌&&◌, ◌||◌, String, Bool, false, Option, none, some, List, [], ◌∷◌,
  ◌++◌, ltb, leb, ◌==◌, nat_eq, list_eq, length, if◌then◌else◌,
}
use secure_document_manageme.Ledger.{Bytes}
use secure_document_manageme.Canonical.{codes}
use secure_document_manageme.Service.{
  Service, internal_error, draw, ◌>>=◌, ◌>>◌, gets, modify, or_throw, pure,
}
use secure_document_manageme.Tokens.{Identity}
use secure_document_manageme.Tokens.Duration.{read_digits}

abbrev pub hex_digit : ℕ → ℕ
hex_digit n = if ltb n 10 then b'0' + n else 87 + n

-- `toString('hex')`
abbrev pub to_hex : Bytes → Bytes
to_hex [] = []
to_hex (b ∷ bs) = hex_digit (b / 16) ∷ hex_digit (b % 16) ∷ to_hex bs

abbrev pub hex_value : ℕ → Option ℕ
hex_value c =
    if leb b'0' c && leb c b'9'
    then some (c - b'0')
    else if leb b'a' c && leb c b'f'
    then some (c - 87)
    else if leb b'A' c && leb c b'F'
    then some (c - 55)
    else none

abbrev pair_onto : Option ℕ → Option ℕ → Bytes → Bytes
pair_onto (some a) (some b) rest = (a * 16 + b) ∷ rest
pair_onto (some a) none rest = []
pair_onto none b rest = []

-- `Buffer.from(text, 'hex')`: it ends where the text is not hexadecimal.
abbrev pub from_hex : Bytes → Bytes
from_hex [] = []
from_hex (c ∷ []) = []
from_hex (c ∷ d ∷ s) = pair_onto (hex_value c) (hex_value d) (from_hex s)

abbrev pub onto_first : ℕ → List Bytes → List Bytes
onto_first c [] = (c ∷ []) ∷ []
onto_first c (s ∷ rest) = (c ∷ s) ∷ rest

-- `split('$')`
abbrev pub split : Bytes → List Bytes
split [] = [] ∷ []
split (c ∷ s) = if c == b'$' then [] ∷ split s else onto_first c (split s)

abbrev whole : ℕ × Bytes → Option ℕ
whole (n, []) = some n
whole (n, c ∷ s) = none

-- `Number(text)` on decimal digits, which is all that `hashPassword` writes. The other texts that
-- `Number` reads (signs, exponents, other bases) are left out.
abbrev pub to_number : Bytes → Option ℕ
to_number s = whole (read_digits 0 s)

abbrev pub default_params : Bytes
default_params = codes "scrypt$16384$8$1$"

abbrev pub is_nothing : Bytes → Bool
is_nothing b = length b == 0

module _ (i : Identity) where
  unfoldable pub draw_salt : Service Bytes
  draw_salt = do n ← gets (λ w. w.drawn); modify draw; pure (i.random_salt n)

  unfoldable pub hash_password : String → Service Bytes
  unfolding draw_salt
  hash_password plaintext = do
    salt ← draw_salt
    key ← or_throw (i.scrypt plaintext salt 64 16384 8 1) internal_error
    pure (default_params ++ (to_hex salt ++ (b'$' ∷ to_hex key)))

  -- A derived key that could not be computed does not match.
  abbrev pub agrees : Bytes → Option Bytes → Bool
  agrees expected none = false
  agrees expected (some derived) = length derived == length expected && derived == expected

  abbrev pub derive : String → Bytes → ℕ → Option ℕ → Option ℕ → Option ℕ → Option Bytes
  derive plaintext salt len (some n) (some r) (some p) = i.scrypt plaintext salt len n r p
  derive plaintext salt len (some n) (some r) none = none
  derive plaintext salt len (some n) none p = none
  derive plaintext salt len none r p = none

  abbrev pub check_key : String → Bytes → Bytes → Option ℕ → Option ℕ → Option ℕ → Bool
  check_key plaintext salt expected n r p =
      if is_nothing salt || is_nothing expected
      then false
      else agrees expected (derive plaintext salt (length expected) n r p)

  abbrev pub check_parts : String → List Bytes → Bool
  check_parts plaintext (scheme ∷ n ∷ r ∷ p ∷ salt_hex ∷ key_hex ∷ []) =
      if scheme == codes "scrypt"
      then check_key plaintext (from_hex salt_hex) (from_hex key_hex) (to_number n) (to_number r)
          (to_number p)
      else false
  check_parts plaintext parts = false

  -- The hash of an account without a password is `String(null)`.
  abbrev stored_text : Option Bytes → Bytes
  stored_text none = codes "null"
  stored_text (some hash) = hash

  unfoldable pub verify_password : String → Option Bytes → Bool
  verify_password plaintext stored_hash = check_parts plaintext (split (stored_text stored_hash))
