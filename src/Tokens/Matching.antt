-- ===== src/Tokens/Matching.antt =====
-- apps/api/src/services/crypto/index.js: what `verifyPassword` accepts.
use secure_document_manageme.Prelude.{
  ℕ, suc, arith, String, ◌≡◌, ◌≢◌, refl, ◌↔◌, inl, inr, true, false, Option, none, some, List, [],
  ◌∷◌, ◌==◌, ==_iff, ==_refl, list_eq, nat_eq, Bool-cases, length,
}
use secure_document_manageme.Ledger.{Bytes}
use secure_document_manageme.Canonical.{codes}
use secure_document_manageme.Tokens.{Identity}
use secure_document_manageme.Tokens.Password.{
  from_hex, split, to_number, is_nothing, agrees, derive, check_key, check_parts, verify_password,
}

-- The stored text has six parts between the signs $: the scheme, three costs, the salt and the key in
-- hexadecimal, and the key is what scrypt derives from the password with that salt and those costs.
pub record IsHashOf (i : Identity) (password : String) (stored : Option Bytes) : Type 0 where
  pub content : Bytes
  pub kept : stored ≡ some content
  pub n_text : Bytes
  pub r_text : Bytes
  pub p_text : Bytes
  pub salt_hex : Bytes
  pub key_hex : Bytes
  pub parts : split content ≡ codes "scrypt" ∷ n_text ∷ r_text ∷ p_text ∷ salt_hex ∷ key_hex ∷ []
  pub n : ℕ
  pub r : ℕ
  pub p : ℕ
  pub n_read : to_number n_text ≡ some n
  pub r_read : to_number r_text ≡ some r
  pub p_read : to_number p_text ≡ some p
  pub salted : from_hex salt_hex ≢ []
  pub keyed : from_hex key_hex ≢ []
  pub derived :
      i.scrypt password (from_hex salt_hex) (length (from_hex key_hex)) n r p
      ≡ some (from_hex key_hex)

filled : (b : Bytes) → is_nothing b ≡ false → b ≢ []
filled b h e = (let never : true ≡ false = rw e at h in absurd cc)

pub filled_back : (b : Bytes) → b ≢ [] → is_nothing b ≡ false
filled_back [] h = absurd (h refl)
filled_back (x ∷ xs) h = elim (Bool-cases (is_nothing (x ∷ xs))) [
  | inl empty ↦
      let never : suc (length xs) ≡ 0 = (==_iff (length (x ∷ xs)) 0).0 empty in
      absurd (omega (arith, never))
  | inr full ↦ full
]

module _ (i : Identity) (password : String) where
  pub agrees_from :
      (expected : Bytes) (o : Option Bytes) → agrees i expected o ≡ true → o ≡ some expected
  agrees_from expected none h = absurd cc
  agrees_from expected (some key) h = elim (Bool-cases (length key == length expected)) [
    | inr longer ↦ (let never : false ≡ true = rw longer at h in absurd cc)
    | inl even ↦ let same : key ≡ expected = (==_iff key expected).0 (rw even at h) in rw same refl
  ]

  -- The costs that a derivation which gives a key has read.
  pub record Derives (salt expected : Bytes) (n r p : Option ℕ) : Type 0 where
    pub n_cost : ℕ
    pub r_cost : ℕ
    pub p_cost : ℕ
    pub n_read : n ≡ some n_cost
    pub r_read : r ≡ some r_cost
    pub p_read : p ≡ some p_cost
    pub salted : salt ≢ []
    pub keyed : expected ≢ []
    pub derived : i.scrypt password salt (length expected) n_cost r_cost p_cost ≡ some expected

  derive_from :
      (salt expected : Bytes) (n r p : Option ℕ)
      → salt ≢ []
      → expected ≢ []
      → derive i password salt (length expected) n r p ≡ some expected
      → Derives salt expected n r p
  derive_from salt expected (some n) (some r) (some p) a b h = record {
    n_cost = n;
    r_cost = r;
    p_cost = p;
    n_read = refl;
    r_read = refl;
    p_read = refl;
    salted = a;
    keyed = b;
    derived = h;
  }
  derive_from salt expected (some n) (some r) none a b h = absurd cc
  derive_from salt expected (some n) none p a b h = absurd cc
  derive_from salt expected none r p a b h = absurd cc

  check_key_from :
      (salt expected : Bytes) (n r p : Option ℕ)
      → check_key i password salt expected n r p ≡ true
      → Derives salt expected n r p
  check_key_from salt expected n r p h = elim (Bool-cases (is_nothing salt)) [
    | inl empty ↦ (let never : false ≡ true = rw empty at h in absurd cc)
    | inr full ↦ elim (Bool-cases (is_nothing expected)) [
      | inl empty ↦ (let never : false ≡ true = rw (full, empty) at h in absurd cc)
      | inr keyed ↦ derive_from salt expected n r p (filled salt full) (filled expected keyed) (
          agrees_from expected (derive i password salt (length expected) n r p)
            (rw (full, keyed) at h))
    ]
  ]

  -- The six parts of a text that is accepted.
  pub record Parts (parts : List Bytes) : Type 0 where
    pub n_text : Bytes
    pub r_text : Bytes
    pub p_text : Bytes
    pub salt_hex : Bytes
    pub key_hex : Bytes
    pub read : parts ≡ codes "scrypt" ∷ n_text ∷ r_text ∷ p_text ∷ salt_hex ∷ key_hex ∷ []
    pub derives :
        Derives
          (from_hex salt_hex)
          (from_hex key_hex)
          (to_number n_text)
          (to_number r_text)
          (to_number p_text)

  check_parts_from : (parts : List Bytes) → check_parts i password parts ≡ true → Parts parts
  check_parts_from [] h = absurd cc
  check_parts_from (a ∷ []) h = absurd cc
  check_parts_from (a ∷ b ∷ []) h = absurd cc
  check_parts_from (a ∷ b ∷ c ∷ []) h = absurd cc
  check_parts_from (a ∷ b ∷ c ∷ d ∷ []) h = absurd cc
  check_parts_from (a ∷ b ∷ c ∷ d ∷ e ∷ []) h = absurd cc
  check_parts_from (scheme ∷ n ∷ r ∷ p ∷ salt ∷ key ∷ []) h =
      elim (Bool-cases (scheme == codes "scrypt")) [
        | inr foreign ↦ (let never : false ≡ true = rw foreign at h in absurd cc)
        | inl same ↦ record {
          n_text = n;
          r_text = r;
          p_text = p;
          salt_hex = salt;
          key_hex = key;
          read =
              let known : scheme ≡ codes "scrypt" = (==_iff scheme (codes "scrypt")).0 same in
              rw known refl;
          derives =
              check_key_from (from_hex salt) (from_hex key) (to_number n) (to_number r)
                (to_number p) (rw same at h);
        }
      ]
  check_parts_from (a ∷ b ∷ c ∷ d ∷ e ∷ f ∷ g ∷ more) h = absurd cc

  verify_password_from :
      (stored : Option Bytes)
      → verify_password i password stored ≡ true
      → IsHashOf i password stored
  unfolding verify_password
  verify_password_from none h = absurd cc
  verify_password_from (some content) h =
      let got = check_parts_from (split content) h in
      record {
        content = content;
        kept = refl;
        n_text = got.n_text;
        r_text = got.r_text;
        p_text = got.p_text;
        salt_hex = got.salt_hex;
        key_hex = got.key_hex;
        parts = got.read;
        n = got.derives.n_cost;
        r = got.derives.r_cost;
        p = got.derives.p_cost;
        n_read = got.derives.n_read;
        r_read = got.derives.r_read;
        p_read = got.derives.p_read;
        salted = got.derives.salted;
        keyed = got.derives.keyed;
        derived = got.derives.derived;
      }

  verify_password_to :
      (stored : Option Bytes)
      → IsHashOf i password stored
      → verify_password i password stored ≡ true
  unfolding verify_password
  verify_password_to stored h =
      rw
        (
          h.kept,
          h.parts,
          h.n_read,
          h.r_read,
          h.p_read,
          filled_back (from_hex h.salt_hex) h.salted,
          filled_back (from_hex h.key_hex) h.keyed,
          h.derived,
          ==_refl (length (from_hex h.key_hex)),
          ==_refl (from_hex h.key_hex),
        )
        refl

-- `verifyPassword` accepts a password for a stored text exactly when the text has the six parts
-- that `hashPassword` writes and its key, which is not empty and neither is the salt, is what
-- scrypt derives from the password with the salt and the costs of the text.
pub verify_password_iff :
    (i : Identity) (password : String) (stored : Option Bytes)
    → (verify_password i password stored ≡ true) ↔ IsHashOf i password stored
verify_password_iff i password stored =
    (verify_password_from i password stored, verify_password_to i password stored)
