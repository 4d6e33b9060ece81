-- ===== src/Grants/Effect.antt =====
-- What a share or a grant lets its recipient do, and until when.
use secure_document_manageme.Prelude.{
  ℕ, String, ◌≡◌, inl, inr, false, List, [], ◌∷◌, arith, ◌==◌, ==_iff, string_eq, Bool-cases,
  Option-cases, All, All-update_where,
}
use secure_document_manageme.Db.{
  World, Permission, permission_eq, resource_type_eq, ResourcePermission,
}
use secure_document_manageme.Service.{Platform, User, ok, with_transaction}
use secure_document_manageme.AuditLedger
use secure_document_manageme.PermissionEngine.{Resource, is_live_grant}
use secure_document_manageme.Grants.Service.{
  may_grant, assert_grant_authority, find_grant_by_id, revoke, revoke_grant_row, revoke_grant,
}

abbrev pub at_time : ℕ → World → World
at_time t w = record w { now = t }

All-units : (rows : List ResourcePermission) → All (λ r. Unit {0}) rows
All-units [] = tt
All-units (r ∷ rows) = (tt, All-units rows)

-- No grant of this id lets anybody do anything.
abbrev pub IsDead : String → World → Type 0
IsDead id w =
    (user : String) (res : Resource) (action : Permission)
    → All (λ g. g.id ≡ id → is_live_grant w.now user res action g ≡ false) w.resource_permissions

-- Where a revocation of a grant succeeds, the grant lets nobody do anything any more.
pub revoke_grant-IsDead :
    (p : Platform) (actor : User) (id : String) (w : World)
    → (revoke_grant p actor id w).0 ≡ ok tt
    → IsDead id (revoke_grant p actor id w).1
unfolding revoke_grant find_grant_by_id assert_grant_authority revoke_grant_row with_transaction
    AuditLedger.append_event
revoke_grant-IsDead p actor id w h user res action = elim (Option-cases (find_grant_by_id id w)) [
  | inl gone ↦ absurd (cc (rw gone at h))
  | inr (g, found) ↦ elim (Bool-cases (may_grant actor g.resource_type g.resource_id w)) [
    | inr barred ↦ absurd (cc (rw (found, barred) at h))
    | inl allowed ↦
        rw (found, allowed)
          (All-update_where (λ r. Unit {0}) _ (λ r. r.id == id) (revoke w.now)
            (λ r x k e. ground arith) (λ r x k e. ground (arith, ==_iff r.id id))
            w.resource_permissions (All-units w.resource_permissions))
  ]
]
