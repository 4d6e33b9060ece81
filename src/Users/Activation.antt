-- ===== src/Users/Activation.antt =====
-- The acceptance of an invitation.
use secure_document_manageme.Prelude.{
  String, ◌≡◌, refl, inl, inr, false, some, ◌==◌, ==_iff, ==_refl, string_eq, list_eq, nat_eq,
  Bool-cases, Option-cases, none, true, ltb, find?-updated,
}
use secure_document_manageme.Ledger.{Bytes}
use secure_document_manageme.Db.{
  World, Account, UserStatus, user_status_eq, UserInvitation, InvitationStatus,
  invitation_status_eq,
}
use secure_document_manageme.Service.{Platform, Result, ok, err, with_transaction}
use secure_document_manageme.AuditLedger
use secure_document_manageme.Tokens.{Identity, hash_opaque_token}
use secure_document_manageme.Tokens.Password.{draw_salt, hash_password}
use secure_document_manageme.Users.Repository.{
  accepted_now, find_user_by_email, set_user_password_and_activate, insert_user_role,
  find_invitation_by_token_hash, mark_invitation_accepted,
}
use secure_document_manageme.Users.Invitations.{
  invitation_invalid, find_valid_invitation_or_throw, activate_account,
}

module _ (p : Platform) (i : Identity) where
  -- Under the token there is an invitation that is no longer pending.
  abbrev IsSettled : Bytes → World → Type 0
  IsSettled token w =
      (v : UserInvitation) × (find_invitation_by_token_hash (hash_opaque_token p i token) w
        ≡ some v)
      × ((v.status == InvitationStatus.pending) ≡ false)

  settled_refused :
      (token : Bytes) (password name : String) (w : World)
      → IsSettled token w
      → activate_account p i token password name w ≡ (err invitation_invalid, w)
  unfolding activate_account find_valid_invitation_or_throw
  settled_refused token password name w (v, found, settled) = rw found (rw settled refl)

  accepted-IsSettled :
      (token : Bytes) (w : World) (v : UserInvitation)
      → find_invitation_by_token_hash (hash_opaque_token p i token) w ≡ some v
      → IsSettled token (mark_invitation_accepted v.id w).1
  unfolding find_invitation_by_token_hash mark_invitation_accepted
  accepted-IsSettled token w v found =
      let hash : Bytes = hash_opaque_token p i token in
      let after =
        find?-updated (λ x. x.token == hash) (λ x. x.id == v.id) (accepted_now w.now) (λ x. refl)
          w.user_invitations v found in
      (accepted_now w.now v, rw (==_refl v.id) at after, refl)

  -- What an activation has found and left.
  pub record Activated (token : Bytes) (w w' : World) : Type 0 where
    pub invitation : UserInvitation
    pub found : find_invitation_by_token_hash (hash_opaque_token p i token) w ≡ some invitation
    pub waiting : invitation.status ≡ InvitationStatus.pending
    pub in_time : ltb invitation.expires_at w.now ≡ false
    pub user : Account
    pub invited : find_user_by_email invitation.email w ≡ some user
    pub inactive : user.status ≡ UserStatus.invited
    pub spent :
        (password name : String)
        → activate_account p i token password name w' ≡ (err invitation_invalid, w')

  -- Why an activation is turned away; the last is a key derivation that throws.
  pub data IsUnfit (token : Bytes) (password : String) (w : World) : Type 0 where
    no_invitation :
        find_invitation_by_token_hash (hash_opaque_token p i token) w ≡ none
        → IsUnfit token password w
    not_pending :
        (v : UserInvitation)
        → find_invitation_by_token_hash (hash_opaque_token p i token) w ≡ some v
        → (v.status == InvitationStatus.pending) ≡ false
        → IsUnfit token password w
    out_of_time :
        (v : UserInvitation)
        → find_invitation_by_token_hash (hash_opaque_token p i token) w ≡ some v
        → ltb v.expires_at w.now ≡ true
        → IsUnfit token password w
    no_account :
        (v : UserInvitation)
        → find_invitation_by_token_hash (hash_opaque_token p i token) w ≡ some v
        → find_user_by_email v.email w ≡ none
        → IsUnfit token password w
    not_invited :
        (v : UserInvitation) (u : Account)
        → find_invitation_by_token_hash (hash_opaque_token p i token) w ≡ some v
        → find_user_by_email v.email w ≡ some u
        → (u.status == UserStatus.invited) ≡ false
        → IsUnfit token password w
    no_key :
        i.scrypt password (i.random_salt w.drawn) 64 16384 8 1 ≡ none → IsUnfit token password w

  abbrev pub ActivationOutcome : Bytes → String → World → Result (Unit {0}) × World → Type 0
  ActivationOutcome token password w (ok u, w') = Activated token w w'
  ActivationOutcome token password w (err e, w') = (w'.db ≡ w.db) × IsUnfit token password w

  -- An activation that succeeds was made with the token of a pending invitation that has not expired, for
  -- an account that has not been activated, and the token is spent: no later activation with it, under
  -- whatever password and name, succeeds or changes anything. One that fails leaves the tables as they
  -- were, and one of these conditions does not hold, or the derivation of the key throws.
  pub activate_account-ActivationOutcome :
      (token : Bytes) (password name : String) (w : World)
      → ActivationOutcome token password w (activate_account p i token password name w)
  unfolding activate_account find_valid_invitation_or_throw hash_password draw_salt
      set_user_password_and_activate insert_user_role mark_invitation_accepted with_transaction
      AuditLedger.append_event find_invitation_by_token_hash
  activate_account-ActivationOutcome token password name w =
      elim (Option-cases (find_invitation_by_token_hash (hash_opaque_token p i token) w)) [
        | inl gone ↦ rw gone (refl, no_invitation gone)
        | inr (v, found) ↦ elim (Bool-cases (v.status == InvitationStatus.pending)) [
          | inr settled ↦ rw found (rw settled (refl, not_pending v found settled))
          | inl waiting ↦ elim (Bool-cases (ltb v.expires_at w.now)) [
            | inl late ↦ rw found (rw waiting (rw late (refl, out_of_time v found late)))
            | inr in_time ↦ elim (Option-cases (find_user_by_email v.email w)) [
              | inl gone ↦
                  rw found (rw waiting (rw in_time (rw gone (refl, no_account v found gone))))
              | inr (u, invited) ↦ elim (Bool-cases (u.status == UserStatus.invited)) [
                | inr known ↦ rw found (
                    rw waiting (
                      rw in_time
                        (rw invited (rw known (refl, not_invited v u found invited known)))))
                | inl fresh ↦
                    elim (Option-cases (i.scrypt password (i.random_salt w.drawn) 64 16384 8 1)) [
                      | inl failed ↦ rw found (
                          rw waiting
                            (rw in_time (rw invited (rw fresh (rw failed (refl, no_key failed))))))
                      | inr (key, derived) ↦
                          let settled_row = accepted-IsSettled token w v found in
                          rw found (
                            rw waiting (
                              rw in_time (
                                rw invited (
                                  rw fresh (
                                    rw derived (record {
                                      invitation = v;
                                      found = found;
                                      waiting =
                                          (==_iff v.status InvitationStatus.pending).0 waiting;
                                      in_time = in_time;
                                      user = u;
                                      invited = invited;
                                      inactive = (==_iff u.status UserStatus.invited).0 fresh;
                                      spent = λ again name'.
                                          settled_refused token again name' _
                                            (settled_row.0, settled_row.1, settled_row.2);
                                    }))))))
                    ]
              ]
            ]
          ]
        ]
      ]
