-- ===== src/PermissionEngine.antt =====
-- apps/api/src/services/permissions/index.js: the three-layer access check. It only reads, so each
-- of its functions is a function of the state. `now()` in its SQL is the clock's reading.
pub mod Layers
use secure_document_manageme.Prelude.{
  ℕ, String, Bool, true, false, not, ◌&&◌, ◌||◌, Option, none, some, List, [], ◌∷◌, ◌==◌, string_eq,
  option_eq, nat_eq, ltb, any, contains, find?, if◌then◌else◌,
}
use secure_document_manageme.Roles.{CeilingTier, command, role_list, ceiling_tier_for}
use secure_document_manageme.Db.{
  World, CaseMember, CaseRole, Permission, permission_eq, ResourceType, resource_type_eq,
  ResourcePermission, Document, Evidence,
}
use secure_document_manageme.Service.{User}

-- TIER_CEILINGS
abbrev pub tier_ceilings : CeilingTier → List Permission
tier_ceilings command =
    Permission.view ∷ Permission.edit ∷ Permission.upload ∷ Permission.download ∷ Permission.share
    ∷ Permission.comment ∷ Permission.sign ∷ Permission.verify ∷ Permission.delete
    ∷ Permission.archive ∷ []
tier_ceilings CeilingTier.officer =
    Permission.view ∷ Permission.edit ∷ Permission.upload ∷ Permission.download ∷ Permission.comment
    ∷ Permission.sign ∷ Permission.verify ∷ []
tier_ceilings CeilingTier.external =
    Permission.view ∷ Permission.download ∷ Permission.comment ∷ Permission.sign ∷ Permission.verify
    ∷ []
tier_ceilings CeilingTier.oversight =
    Permission.view ∷ Permission.verify ∷ Permission.download ∷ Permission.comment ∷ []

abbrev pub ceiling_or_none : Option CeilingTier → List Permission
ceiling_or_none none = []
ceiling_or_none (some t) = tier_ceilings t

-- `ROLE_ACTION_CEILING[role] || []`
unfoldable pub role_action_ceiling : String → List Permission
role_action_ceiling role =
    if contains role_list role then ceiling_or_none (ceiling_tier_for role) else []

-- CASE_ROLE_ACTIONS
abbrev pub case_role_actions : CaseRole → List Permission
case_role_actions CaseRole.owner =
    Permission.view ∷ Permission.edit ∷ Permission.upload ∷ Permission.download ∷ Permission.share
    ∷ Permission.comment ∷ Permission.sign ∷ Permission.verify ∷ Permission.archive
    ∷ Permission.delete ∷ []
case_role_actions CaseRole.investigator =
    Permission.view ∷ Permission.edit ∷ Permission.upload ∷ Permission.download ∷ Permission.share
    ∷ Permission.comment ∷ Permission.sign ∷ Permission.verify ∷ []
case_role_actions CaseRole.forensic =
    Permission.view ∷ Permission.edit ∷ Permission.upload ∷ Permission.download ∷ Permission.comment
    ∷ Permission.sign ∷ Permission.verify ∷ []
case_role_actions CaseRole.prosecutor =
    Permission.view ∷ Permission.download ∷ Permission.comment ∷ Permission.sign ∷ Permission.verify
    ∷ []
case_role_actions CaseRole.viewer = Permission.view ∷ Permission.download ∷ Permission.verify ∷ []

pub record Resource : Type 0 where
  pub kind : ResourceType
  pub id : String

-- revoked_at IS NULL
abbrev pub is_null : Option ℕ → Bool
is_null none = true
is_null (some t) = false

-- WHERE case_id = $1 AND user_id = $2 AND revoked_at IS NULL
abbrev pub is_active_member : String → String → CaseMember → Bool
is_active_member case_id user_id m =
    m.case_id == case_id && m.user_id == user_id && is_null m.revoked_at

-- expires_at IS NULL OR expires_at > now()
abbrev pub unexpired : ℕ → Option ℕ → Bool
unexpired now none = true
unexpired now (some t) = ltb now t

abbrev pub is_live_grant : ℕ → String → Resource → Permission → ResourcePermission → Bool
is_live_grant now user_id res action g =
    g.resource_type == res.kind
    && g.resource_id == res.id
    && g.user_id == user_id
    && g.permission == action
    && is_null g.revoked_at
    && unexpired now g.expires_at

abbrev case_of_document : Option Document → Option String
case_of_document none = none
case_of_document (some d) = some d.case_id

abbrev case_of_evidence : Option Evidence → Option String
case_of_evidence none = none
case_of_evidence (some e) = some e.case_id

unfoldable pub resolve_owning_case_id : ResourceType → String → World → Option String
resolve_owning_case_id ResourceType.case_resource id w = some id
resolve_owning_case_id ResourceType.document id w =
    case_of_document (find? (λ d. d.id == id) w.documents)
resolve_owning_case_id ResourceType.evidence id w =
    case_of_evidence (find? (λ e. e.id == id) w.evidence)
resolve_owning_case_id ResourceType.report id w = none

abbrev pub member_allows : Permission → Option CaseMember → Bool
member_allows action none = false
member_allows action (some m) = contains (case_role_actions m.case_role) action

unfoldable pub check_case_scope : String → String → Permission → World → Bool
check_case_scope user_id case_id action w =
    member_allows action (find? (is_active_member case_id user_id) w.case_members)

unfoldable pub check_resource_grant : String → Resource → Permission → World → Bool
check_resource_grant user_id res action w =
    any (is_live_grant w.now user_id res action) w.resource_permissions

unfoldable pub is_case_member : String → String → World → Bool
is_case_member user_id case_id w = any (is_active_member case_id user_id) w.case_members

unfoldable pub role_allows : List String → Permission → Bool
role_allows roles action = any (λ role. contains (role_action_ceiling role) action) roles

abbrev scope_allows : User → Permission → Option String → World → Bool
scope_allows u action none w = false
scope_allows u action (some c) w = check_case_scope u.id c action w

unfoldable pub can : Option User → Permission → Resource → World → Bool
can none action res w = false
can (some u) action res w =
    if res.id == ""
    then false
    else if not (role_allows u.roles action)
    then false
    else if scope_allows u action (resolve_owning_case_id res.kind res.id w) w
    then true
    else check_resource_grant u.id res action w
