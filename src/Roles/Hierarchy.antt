-- ===== src/Roles/Hierarchy.antt =====
-- The hierarchy that the role names encode.
use secure_document_manageme.Prelude.{
  ◌≡◌, refl, some, ℕ, suc, String, Bool, true, ◌&&◌, List, [], ◌∷◌, arith, length, ltb, contains,
  All, ◌==◌, string_eq, if◌then◌else◌,
}
use secure_document_manageme.Roles.{
  LevelInfo, Side, admin, role_levels, role_list, admin_role, officer_role, parse_role,
  creates_roles_for, level_info, child_levels_of,
}

abbrev ParsesBack : LevelInfo → Type 0
ParsesBack l =
    (parse_role (admin_role l.level)
      ≡ some (record { level = l.level; side = admin; title = l.title }))
    × (parse_role (officer_role l.level)
        ≡ some (record { level = l.level; side = Side.officer; title = l.title }))

-- Every level's two role names parse back to that level, the side that they were made for and the
-- level's title.
pub parse_role-role : All ParsesBack role_levels
unfolding parse_role level_info
parse_role-role = ground arith

roles_count : length role_list ≡ 44
unfolding role_list
roles_count = refl

command_creates :
    creates_roles_for "DISTRICT_ADMIN"
    ≡ "DISTRICT_OFFICER" ∷ "SP_OFFICE_ADMIN" ∷ "SUBDIVISION_ADMIN" ∷ []
unfolding creates_roles_for level_info child_levels_of
command_creates = refl

abbrev position : String → List String → ℕ
position r [] = 0
position r (x ∷ xs) = if x == r then 0 else suc (position r xs)

abbrev every : (String → Bool) → List String → Bool
every p [] = true
every p (x ∷ xs) = p x && every p xs

-- A role that is in the list and comes after another one there.
abbrev comes_after : String → String → Bool
comes_after r c = contains role_list c && ltb (position r role_list) (position c role_list)

-- Every role that a role may create is a role of the list and comes after its creator there: the
-- right to create goes strictly down, and no chain of creations leads back to where it began.
pub creates_descend : every (λ r. every (comes_after r) (creates_roles_for r)) role_list ≡ true
unfolding role_list creates_roles_for parse_role level_info child_levels_of
creates_descend = refl
