-- ===== src/Users/Escalation.antt =====
-- What a change of roles does not ask.
use secure_document_manageme.Prelude.{
  String, ◌≡◌, refl, inl, inr, Bool, true, not, some, List, [], ◌∷◌, ◌==◌, ==_refl, string_eq,
  nat_eq, Bool-cases, select, any, ◌&&◌,
}
use secure_document_manageme.Db.{World, Account, Role, UserRole}
use secure_document_manageme.Service.{Platform, User, Result, ok, err, with_transaction}
use secure_document_manageme.AuditLedger
use secure_document_manageme.Entries.{or_null}
use secure_document_manageme.Users.Repository.{
  find_user_by_id, find_role_ids_by_names, replace_user_roles, delete_user_roles, insert_user_roles,
  insert_user_role, add_role,
}
use secure_document_manageme.Users.Departments.{is_department_within_subtree}
use secure_document_manageme.Users.Invitations.{own_department}
use secure_document_manageme.Users.Management.{
  assert_management_authority, check_within, get_user, update_user_roles,
}

abbrev pub Answers : Result (Account × List String) → Account → Type 0
Answers (err e) row = ⊥
Answers (ok (u, roles)) row = u ≡ row

-- Whether a row of `user_roles` gives the role to the user.
abbrev pub has_role : String → String → List UserRole → Bool
has_role user_id role_id rows = any (λ u. u.user_id == user_id && u.role_id == role_id) rows

has_role-add_role :
    (user_id role_id : String) (rows : List UserRole)
    → has_role user_id role_id (add_role user_id role_id rows) ≡ true
has_role-add_role user_id role_id rows = elim (Bool-cases (has_role user_id role_id rows)) [
  | inl held ↦ rw held held
  | inr fresh ↦ rw fresh (rw (==_refl user_id) (rw (==_refl role_id) refl))
]

manages_oneself :
    (actor : User) (w : World) (row : Account) (own : String)
    → find_user_by_id actor.id w ≡ some row
    → or_null row.department_id ≡ some own
    → assert_management_authority actor row.department_id w ≡ (ok tt, w)
unfolding assert_management_authority own_department check_within is_department_within_subtree
manages_oneself actor w row own found stationed = rw found (rw stationed (rw (==_refl own) refl))

-- A user who is stationed in a unit may give themselves any one role of the table: `updateUserRoles`
-- checks the unit of the account, which is the user's own, and that the role exists, and nothing
-- about what roles the user's role may create.
pub update_user_roles_on_oneself :
    (p : Platform) (actor : User) (w : World) (row : Account) (own : String) (role : Role)
    → find_user_by_id actor.id w ≡ some row
    → or_null row.department_id ≡ some own
    → find_role_ids_by_names (role.name ∷ []) w ≡ role ∷ []
    → Answers (update_user_roles p actor actor.id (role.name ∷ []) w).0 row
      × (has_role actor.id role.id
            (update_user_roles p actor actor.id (role.name ∷ []) w).1.user_roles
          ≡ true)
unfolding update_user_roles get_user replace_user_roles delete_user_roles insert_user_roles
    insert_user_role with_transaction AuditLedger.append_event find_user_by_id
update_user_roles_on_oneself p actor w row own role found stationed named = rw found (
    rw (manages_oneself actor w row own found stationed) (
      rw named (
        rw found (
          refl,
          has_role-add_role actor.id role.id
              (select (λ u. not (u.user_id == actor.id)) w.user_roles),
        ))))
