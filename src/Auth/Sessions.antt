-- ===== src/Auth/Sessions.antt =====
-- Sessions: what a refresh asks for, and what a logout ends.
use secure_document_manageme.Prelude.{
  ℕ, ◌≡◌, refl, ◌⊎◌, inl, inr, true, false, none, some, ◌∷◌, ◌==◌, string_eq, list_eq, nat_eq,
  Bool-cases, Option-cases, ltb, find?, find?-sound, find?-updated, find?-not_updated,
}
use secure_document_manageme.Ledger.{Bytes}
use secure_document_manageme.Db.{World, Account, UserStatus, user_status_eq, AuthSession}
use secure_document_manageme.Service.{Platform, Result, ok, err, with_transaction}
use secure_document_manageme.AuditLedger
use secure_document_manageme.Tokens.{Identity, hash_opaque_token}
use secure_document_manageme.Users.Repository.{find_user_by_id, find_role_names_for_user}
use secure_document_manageme.Auth.Repository.{
  is_absent, is_open_session, find_session_by_hash, revoke_session_by_hash,
}
use secure_document_manageme.Auth.Service.{
  LoggedIn, claims_of, invalid_session, refresh, note_logout, logout,
}

module _ (p : Platform) (i : Identity) where
  -- What a refresh that returns an access token has found.
  pub record Refreshed (raw : Bytes) (w : World) (answer : LoggedIn) : Type 0 where
    pub session : AuthSession
    pub found : find_session_by_hash (hash_opaque_token p i raw) w ≡ some session
    pub kept : session.revoked_at ≡ none
    pub in_time : ltb session.expires_at w.now ≡ false
    pub user : Account
    pub owner : find_user_by_id session.user_id w ≡ some user
    pub active : user.status ≡ UserStatus.active
    pub token :
        answer.access_token ≡ i.jwt_sign (claims_of user (find_role_names_for_user user.id w)) w.now
    pub no_refresh_token : answer.refresh_token ≡ none

  -- Why a refresh is turned away.
  pub data IsUnfit (raw : Bytes) (w : World) : Type 0 where
    no_session : find_session_by_hash (hash_opaque_token p i raw) w ≡ none → IsUnfit raw w
    was_revoked :
        (s : AuthSession)
        → find_session_by_hash (hash_opaque_token p i raw) w ≡ some s
        → is_absent s.revoked_at ≡ false
        → IsUnfit raw w
    has_expired :
        (s : AuthSession)
        → find_session_by_hash (hash_opaque_token p i raw) w ≡ some s
        → ltb s.expires_at w.now ≡ true
        → IsUnfit raw w
    no_owner :
        (s : AuthSession)
        → find_session_by_hash (hash_opaque_token p i raw) w ≡ some s
        → find_user_by_id s.user_id w ≡ none
        → IsUnfit raw w
    not_active :
        (s : AuthSession) (u : Account)
        → find_session_by_hash (hash_opaque_token p i raw) w ≡ some s
        → find_user_by_id s.user_id w ≡ some u
        → (u.status == UserStatus.active) ≡ false
        → IsUnfit raw w

  abbrev pub RefreshOutcome : Bytes → World → Result LoggedIn × World → Type 0
  RefreshOutcome raw w (ok answer, w') = Refreshed raw w answer × (w' ≡ w)
  RefreshOutcome raw w (err e, w') = (e ≡ invalid_session) × IsUnfit raw w × (w' ≡ w)

  -- Under the hash there is no session, or one that has been revoked.
  abbrev IsClosed : Bytes → World → Type 0
  IsClosed hash w =
      (find_session_by_hash hash w ≡ none)
      ⊎ ((s : AuthSession) × (find_session_by_hash hash w ≡ some s)
          × (is_absent s.revoked_at ≡ false))

  refused :
      (b : ℕ) (bs : Bytes) (w : World)
      → IsClosed (hash_opaque_token p i (b ∷ bs)) w
      → (refresh p i (some (b ∷ bs)) w).0 ≡ err invalid_session
  unfolding refresh
  refused b bs w (inl gone) = rw gone refl
  refused b bs w (inr (s, found, revoked)) = rw found (rw revoked refl)

  -- After the UPDATE no open session is found under the hash.
  closed : (hash : Bytes) (w : World) → IsClosed hash (revoke_session_by_hash hash w).1
  unfolding find_session_by_hash revoke_session_by_hash
  closed hash w = elim (Option-cases (find? (λ s. s.refresh_token_hash == hash) w.auth_sessions)) [
    | inl gone ↦ inl (
        find?-not_updated (λ s. s.refresh_token_hash == hash) (is_open_session hash)
          (λ s. record s { revoked_at = some w.now }) (λ s. refl) w.auth_sessions gone)
    | inr (s, found) ↦
        let after =
          find?-updated (λ s. s.refresh_token_hash == hash) (is_open_session hash)
            (λ s. record s { revoked_at = some w.now }) (λ s. refl) w.auth_sessions s found in
        let mine = find?-sound (λ s. s.refresh_token_hash == hash) w.auth_sessions s found in
        elim (Bool-cases (is_absent s.revoked_at)) [
          | inl open_one ↦
              inr (record s { revoked_at = some w.now }, rw (mine, open_one) at after, refl)
          | inr shut ↦ inr (s, rw (mine, shut) at after, shut)
        ]
  ]

  -- Once a client has logged out with a refresh token, a refresh with that token is refused.
  pub logout_ends :
      (b : ℕ) (bs : Bytes) (w : World)
      → (refresh p i (some (b ∷ bs)) (logout p i (some (b ∷ bs)) w).1).0 ≡ err invalid_session
  unfolding logout note_logout with_transaction AuditLedger.append_event find_session_by_hash
      revoke_session_by_hash
  logout_ends b bs w =
      let hash : Bytes = hash_opaque_token p i (b ∷ bs) in
      elim (Option-cases (find? (λ s. s.refresh_token_hash == hash) w.auth_sessions)) [
        | inl gone ↦ rw gone (refused b bs _ (closed hash w))
        | inr (s, found) ↦ rw found (refused b bs _ (closed hash w))
      ]
