-- ===== src/Users/Growth.antt =====
-- What the requests on accounts do to the audit table.
use secure_document_manageme.Prelude.{ℕ, String, refl, Option, none, some, List, [], ◌∷◌}
use secure_document_manageme.Ledger.{Bytes}
use secure_document_manageme.Db.{Account, UserStatus, Role}
use secure_document_manageme.Service.{Platform, User}
use secure_document_manageme.Roles.{Side}
use secure_document_manageme.AuditLedger.Growth.{
  Appends, Appends-unaudited, Appends-bind, appends_rules,
}
use secure_document_manageme.Evidence.Growth.{Appends-from_result}
use secure_document_manageme.Tokens.{Identity, generate_opaque_token}
use secure_document_manageme.Tokens.Password.{draw_salt, hash_password}
use secure_document_manageme.Users.Repository.{
  update_user, insert_user_role, insert_user_roles, delete_user_roles, replace_user_roles,
  set_user_status, reset_failed_login_count, set_user_password_and_activate, set_user_rank,
  mark_invitation_accepted, insert_user, insert_user_invitation,
}
use secure_document_manageme.Users.Departments.{insert_department}
use secure_document_manageme.Users.Invitations.{
  NewUnit, Authority, create_account, own_department, child_department, authority_for,
  assert_creation_authority, resolve_department, set_rank, invite_user,
  find_valid_invitation_or_throw, activate_account,
}
use secure_document_manageme.Users.Management.{
  check_within, assert_management_authority, get_user, update_user_status, update_user_roles,
  create_department,
}

module _ (p : Platform) where
  pub Appends-update_user : (id : String) (f : Account → Account) → Appends p (update_user id f)
  Appends-update_user id f = Appends-unaudited p _ (λ w. refl) (λ w. refl)

  Appends-insert_user : (u e : String) (d : Option String) → Appends p (insert_user p u e d)
  unfolding insert_user
  Appends-insert_user u e d = Appends-unaudited p _ (λ w. refl) (λ w. refl)

  Appends-insert_invitation :
      (e u r : String) (d : Option String) (t : Bytes) (x : ℕ)
      → Appends p (insert_user_invitation p e u r d t x)
  unfolding insert_user_invitation
  Appends-insert_invitation e u r d t x = Appends-unaudited p _ (λ w. refl) (λ w. refl)

  Appends-accepted : (id : String) → Appends p (mark_invitation_accepted id)
  unfolding mark_invitation_accepted
  Appends-accepted id = Appends-unaudited p _ (λ w. refl) (λ w. refl)

  Appends-insert_department :
      (n c : String) (o t : Option String) → Appends p (insert_department p n c o t)
  unfolding insert_department
  Appends-insert_department n c o t = Appends-unaudited p _ (λ w. refl) (λ w. refl)

  Appends-insert_role : (u r : String) → Appends p (insert_user_role u r)
  unfolding insert_user_role
  Appends-insert_role u r = Appends-unaudited p _ (λ w. refl) (λ w. refl)

  Appends-insert_roles : (u : String) (rs : List Role) → Appends p (insert_user_roles u rs)
  unfolding insert_user_roles
  Appends-insert_roles u [] = search appends_rules
  Appends-insert_roles u (r ∷ rs) =
      Appends-bind p _ _ (Appends-insert_role u r.id) (λ _. Appends-insert_roles u rs)

  Appends-delete_roles : (u : String) → Appends p (delete_user_roles u)
  unfolding delete_user_roles
  Appends-delete_roles u = Appends-unaudited p _ (λ w. refl) (λ w. refl)

  Appends-replace_roles : (u : String) (rs : List Role) → Appends p (replace_user_roles u rs)
  unfolding replace_user_roles
  Appends-replace_roles u rs =
      Appends-bind p _ _ (Appends-delete_roles u) (λ _. Appends-insert_roles u rs)

  Appends-own : (u : User) → Appends p (own_department u)
  unfolding own_department
  Appends-own u = search appends_rules depth 12

  Appends-child : (o l : String) (d n : Option String) → Appends p (child_department o l d n)
  unfolding child_department
  Appends-child o l d none = search appends_rules depth 20
  Appends-child o l d (some n) = search appends_rules depth 12

  Appends-authority_for :
      (o : String) (d n : Option String) (l : String) (s : Side)
      → Appends p (authority_for o d n l s)
  unfolding authority_for
  Appends-authority_for o d n l Side.officer = search appends_rules
  Appends-authority_for o d n l Side.admin = search (appends_rules, Appends-child)

  Appends-authority :
      (u : User) (t : String) (d n : Option String) → Appends p (assert_creation_authority u t d n)
  unfolding assert_creation_authority
  Appends-authority u t d n = search (appends_rules, Appends-own, Appends-authority_for) depth 20

  Appends-within : (o : String) (t : Option String) → Appends p (check_within o t)
  unfolding check_within
  Appends-within o none = search appends_rules
  Appends-within o (some t) = search appends_rules

  Appends-management : (u : User) (t : Option String) → Appends p (assert_management_authority u t)
  unfolding assert_management_authority
  Appends-management u t = search (appends_rules, Appends-own, Appends-within)

  Appends-get_user : (id : String) → Appends p (get_user id)
  unfolding get_user
  Appends-get_user id = search appends_rules depth 16

  ruleset account_rules = (
    appends_rules, Appends-update_user, Appends-insert_user, Appends-insert_invitation,
    Appends-accepted, Appends-insert_department, Appends-insert_role, Appends-replace_roles,
    Appends-own, Appends-authority, Appends-management, Appends-get_user,
  )

  pub Appends-set_status :
      (u : User) (id : String) (s : UserStatus) → Appends p (update_user_status p u id s)
  unfolding update_user_status set_user_status reset_failed_login_count
  Appends-set_status u id s = search account_rules depth 40 fits 4000

  pub Appends-set_roles :
      (u : User) (id : String) (rs : List String) → Appends p (update_user_roles p u id rs)
  unfolding update_user_roles
  Appends-set_roles u id rs = search account_rules depth 40 fits 4000

  pub Appends-create_department : (u : User) (n t : String) → Appends p (create_department p u n t)
  unfolding create_department
  Appends-create_department u n t = search account_rules depth 40 fits 4000

module _ (p : Platform) (i : Identity) where
  pub Appends-token : Appends p (generate_opaque_token p i)
  unfolding generate_opaque_token
  Appends-token = Appends-unaudited p _ (λ w. refl) (λ w. refl)

  Appends-salt : Appends p (draw_salt i)
  unfolding draw_salt
  Appends-salt = Appends-unaudited p _ (λ w. refl) (λ w. refl)

  Appends-hash : (s : String) → Appends p (hash_password i s)
  unfolding hash_password
  Appends-hash s = search (appends_rules, Appends-salt) depth 12

  Appends-resolve :
      (o : Option String) (u : Option NewUnit) → Appends p (resolve_department p i o u)
  unfolding resolve_department
  Appends-resolve o none = search appends_rules
  Appends-resolve o (some u) = search account_rules depth 16

  Appends-set_rank : (id : String) (r : Option String) → Appends p (set_rank p i id r)
  unfolding set_rank set_user_rank
  Appends-set_rank id none = search appends_rules
  Appends-set_rank id (some r) = search (Appends-update_user)

  Appends-valid : (t : Bytes) → Appends p (find_valid_invitation_or_throw p i t)
  unfolding find_valid_invitation_or_throw
  Appends-valid t = search appends_rules depth 16

  Appends-create :
      (u : User) (a : Authority) (r : Role) (o n e : String) (x : Option String) (t : Bytes) (k : ℕ)
      → Appends p (create_account p i u a r o n e x t k)
  unfolding create_account
  Appends-create u a r o n e x t k =
      search (account_rules, Appends-resolve, Appends-set_rank) depth 40 fits 4000

  pub Appends-invite :
      (u : User) (n e r : String) (d k x : Option String)
      → Appends p (invite_user p i u n e r d k x)
  unfolding invite_user
  Appends-invite u n e r d k x =
      search (appends_rules, Appends-authority, Appends-from_result, Appends-token, Appends-create)
        depth 40 fits 4000

  pub Appends-activate : (t : Bytes) (s n : String) → Appends p (activate_account p i t s n)
  unfolding activate_account set_user_password_and_activate
  Appends-activate t s n = search (account_rules, Appends-hash, Appends-valid) depth 40 fits 4000
