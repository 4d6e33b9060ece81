-- ===== src/Grants/Growth.antt =====
-- What the requests on grants and shares do to the audit table.
use secure_document_manageme.Prelude.{ℕ, String, refl, Option}
use secure_document_manageme.Db.{Permission, ResourceType}
use secure_document_manageme.Service.{Platform, User}
use secure_document_manageme.AuditLedger.Growth.{Appends, Appends-unaudited, appends_rules}
use secure_document_manageme.Grants.Service.{
  SentTime, assert_grant_authority, revoke_grant_row, insert_grant, insert_share, grant_permission,
  revoke_grant, create_share, revoke_share,
}

module _ (p : Platform) where
  Appends-authority :
      (u : User) (t : ResourceType) (id : String) → Appends p (assert_grant_authority u t id)
  unfolding assert_grant_authority
  Appends-authority u t id = Appends-unaudited p _ (λ w. refl) (λ w. refl)

  Appends-revoke_row : (id : String) → Appends p (revoke_grant_row id)
  unfolding revoke_grant_row
  Appends-revoke_row id = Appends-unaudited p _ (λ w. refl) (λ w. refl)

  Appends-insert_grant :
      (t : ResourceType) (r u : String) (x : Permission) (g : Option String) (e : Option ℕ)
      → Appends p (insert_grant p t r u x g e)
  unfolding insert_grant
  Appends-insert_grant t r u x g e = Appends-unaudited p _ (λ w. refl) (λ w. refl)

  Appends-insert_share :
      (d g a b : String) (x : Permission) (r : Option String) (e : ℕ)
      → Appends p (insert_share p d g a b x r e)
  unfolding insert_share
  Appends-insert_share d g a b x r e = Appends-unaudited p _ (λ w. refl) (λ w. refl)

  ruleset grant_rules = (
    appends_rules, Appends-authority, Appends-revoke_row, Appends-insert_grant,
    Appends-insert_share,
  )

  pub Appends-grant :
      (u : User) (t : ResourceType) (r k : String) (x : Permission) (e : Option SentTime)
      → Appends p (grant_permission p u t r k x e)
  unfolding grant_permission
  Appends-grant u t r k x e = search grant_rules depth 20

  pub Appends-revoke_grant : (u : User) (id : String) → Appends p (revoke_grant p u id)
  unfolding revoke_grant
  Appends-revoke_grant u id = search grant_rules depth 20

  pub Appends-share :
      (u : User) (d k : String) (x : Option Permission) (h : Option ℕ) (r : Option String)
      → Appends p (create_share p u d k x h r)
  unfolding create_share
  Appends-share u d k x h r = search grant_rules depth 20

  pub Appends-revoke_share : (u : User) (d s : String) → Appends p (revoke_share p u d s)
  unfolding revoke_share
  Appends-revoke_share u d s = search grant_rules depth 20
