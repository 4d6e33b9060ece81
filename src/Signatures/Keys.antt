-- ===== src/Signatures/Keys.antt =====
-- Signing keys: a rotation leaves its user exactly one active key.
use secure_document_manageme.Prelude.{
  ℕ, suc, String, ◌≡◌, refl, ap, none, inl, inr, true, false, List, [], ◌∷◌, ◌==◌, ==_iff, ==_refl,
  string_eq, Bool-cases, select, update_where,
}
use secure_document_manageme.Db.{World, UserKey, KeyStatus, key_status_eq}
use secure_document_manageme.Service.{Platform, User, Result, ok, err, with_transaction}
use secure_document_manageme.AuditLedger
use secure_document_manageme.Crypto.{encrypt, hash_sha256}
use secure_document_manageme.Crypto.Rsa.{Rsa, generate_rsa_key_pair}
use secure_document_manageme.Signatures.Repository.{
  is_active_key, revoke, revoke_active_user_key, insert_user_key,
}
use secure_document_manageme.Signatures.Service.{PublicKey, to_public_key, generate_or_rotate_key}

revoked_now : (user : String) (now : ℕ) (k : UserKey) → is_active_key user (revoke now k) ≡ false
revoked_now user now k = elim (Bool-cases (k.user_id == user)) [
  | inl own ↦ rw own refl
  | inr foreign ↦ rw foreign refl
]

none_active :
    (user : String) (now : ℕ) (keys : List UserKey)
    → select (is_active_key user) (update_where (is_active_key user) (revoke now) keys) ≡ []
none_active user now [] = refl
none_active user now (k ∷ keys) = elim (Bool-cases (is_active_key user k)) [
  | inl active ↦ rw active (rw (revoked_now user now k) (none_active user now keys))
  | inr idle ↦ rw idle (rw idle (none_active user now keys))
]

-- An active key of one user is no key of another.
one_owner :
    (user other : String) (k : UserKey)
    → (user == other) ≡ false
    → is_active_key user k ≡ true
    → is_active_key other k ≡ false
one_owner user other k apart active = elim (Bool-cases (k.user_id == user)) [
  | inl own ↦ let same : k.user_id ≡ user = (==_iff k.user_id user).0 own in rw same (rw apart refl)
  | inr foreign ↦ (let never : false ≡ true = rw foreign at active in cc)
]

others_stay :
    (user other : String) (now : ℕ) (keys : List UserKey)
    → (user == other) ≡ false
    → select (is_active_key other) (update_where (is_active_key user) (revoke now) keys)
      ≡ select (is_active_key other) keys
others_stay user other now [] apart = refl
others_stay user other now (k ∷ keys) apart = elim (Bool-cases (is_active_key user k)) [
  | inl active ↦ rw active (
      rw (revoked_now other now k, one_owner user other k apart active)
        (others_stay user other now keys apart))
  | inr idle ↦ elim (Bool-cases (is_active_key other k)) [
    | inl kept ↦ rw idle (rw kept (ap (λ rest. k ∷ rest) (others_stay user other now keys apart)))
    | inr also_idle ↦ rw idle (rw also_idle (others_stay user other now keys apart))
  ]
]

module _ (p : Platform) (r : Rsa) where
  -- What a rotation leaves: one active key of the user, the pair that was generated, its private half
  -- sealed under the master key; and the active keys of every other user.
  pub record Rotated (user : String) (w w' : World) (k : PublicKey) : Type 0 where
    pub key : UserKey
    pub shown : k ≡ to_public_key key
    pub active : select (is_active_key user) w'.user_keys ≡ key ∷ []
    pub public_half : key.public_key ≡ (r.generate w.drawn).0
    pub sealed :
        key.private_key_envelope ≡ encrypt p (r.generate w.drawn).1 p.master_key (suc w.drawn)
    pub others :
        (other : String)
        → (user == other) ≡ false
        → select (is_active_key other) w'.user_keys ≡ select (is_active_key other) w.user_keys

  abbrev pub RotationOutcome : String → World → Result PublicKey × World → Type 0
  RotationOutcome user w (ok k, w') = Rotated user w w' k
  RotationOutcome user w (err e, w') = ⊥

  -- The row that a rotation inserts.
  abbrev new_key : String → World → UserKey
  new_key user w = record {
    id = p.uuid (suc w.drawn);
    user_id = user;
    public_key = (r.generate w.drawn).0;
    private_key_envelope = encrypt p (r.generate w.drawn).1 p.master_key (suc w.drawn);
    key_id = p.encryption_key_id;
    fingerprint = p.sha256 (r.generate w.drawn).0;
    status = KeyStatus.active;
    created_at = w.now;
    revoked_at = none;
  }

  -- A rotation always succeeds: afterwards its user has exactly one active key, which is the pair that
  -- was generated with the private half sealed under the master key, and the active keys of every
  -- other user are as they were.
  pub generate_or_rotate_key-RotationOutcome :
      (actor : User) (w : World) → RotationOutcome actor.id w (generate_or_rotate_key p r actor w)
  unfolding generate_or_rotate_key generate_rsa_key_pair revoke_active_user_key insert_user_key
      hash_sha256 with_transaction AuditLedger.append_event
  generate_or_rotate_key-RotationOutcome actor w = record {
    key = new_key actor.id w;
    shown = refl;
    active = rw (==_refl actor.id) (rw (none_active actor.id w.now w.user_keys) refl);
    public_half = refl;
    sealed = refl;
    others = λ other apart. rw apart (others_stay actor.id other w.now w.user_keys apart);
  }
