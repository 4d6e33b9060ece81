-- ===== src/Middleware/Guards.antt =====
-- What the guards let through.
use secure_document_manageme.Prelude.{
  ◌≡◌, refl, ◌⊎◌, inl, inr, true, false, Option, none, some, ◌∷◌, Bool-cases, Option-cases,
}
use secure_document_manageme.Ledger.{Bytes}
use secure_document_manageme.Db.{World, Permission, SecurityEvent}
use secure_document_manageme.Service.{Platform, User, Result, ok, err}
use secure_document_manageme.Entries.{raise_security_event}
use secure_document_manageme.PermissionEngine.{Resource, can}
use secure_document_manageme.Tokens.{Identity}
use secure_document_manageme.Auth.Service.{unauthenticated}
use secure_document_manageme.Middleware.{forbidden, authenticate, deny, require_permission}

module _ (p : Platform) (i : Identity) where
  -- A request that a permission guard refused for want of the permission.
  pub record Denied (user : User) (action : Permission) (res : Resource) (w w' : World)
      : Type 0 where
    pub refused : can (some user) action res w ≡ false
    pub alarm : SecurityEvent
    pub alarmed : w'.security_events ≡ alarm ∷ w.security_events
    pub kind : alarm.event_type ≡ "UNAUTH_ACCESS"
    pub blamed : alarm.user_id ≡ some user.id
    pub trail : w'.audit_events ≡ w.audit_events

  abbrev pub GuardOutcome :
      Option Bytes → Permission → Resource → World → Result User × World → Type 0
  GuardOutcome header action res w (ok user, w') =
      (authenticate i header w.now ≡ some user) × (can (some user) action res w ≡ true) × (w' ≡ w)
  GuardOutcome header action res w (err e, w') =
      ((authenticate i header w.now ≡ none) × (e ≡ unauthenticated) × (w' ≡ w))
      ⊎ ((user : User) × (authenticate i header w.now ≡ some user)
          × (e ≡ forbidden)
          × Denied user action res w w')

  -- A request passes the permission guard exactly for the user whose access token its header carries and
  -- with the permission that the engine grants, and then the guard changes nothing; without a valid
  -- token the answer is 401; without the permission it is 403, and a security event that names the
  -- user is kept.
  pub require_permission-GuardOutcome :
      (header : Option Bytes) (action : Permission) (res : Resource) (w : World)
      → GuardOutcome header action res w
          (require_permission p action res (authenticate i header w.now) w)
  unfolding require_permission deny raise_security_event
  require_permission-GuardOutcome header action res w =
      elim (Option-cases (authenticate i header w.now)) [
        | inl unknown ↦ rw unknown (inl (unknown, refl, refl))
        | inr (u, known) ↦ elim (Bool-cases (can (some u) action res w)) [
          | inl allowed ↦ rw known (rw allowed (known, allowed, refl))
          | inr refused ↦ rw known (
              rw refused (
                inr (
                  u,
                  known,
                  refl,
                  record {
                    refused = refused;
                    alarm = _;
                    alarmed = refl;
                    kind = refl;
                    blamed = refl;
                    trail = refl;
                  },
                )))
        ]
      ]
