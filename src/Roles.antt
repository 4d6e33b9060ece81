-- ===== src/Roles.antt =====
-- packages/shared/src/constants/roles.js: the police hierarchy. Role and level names are texts;
-- `LevelInfo` is a row of ROLE_LEVELS.
pub mod Hierarchy
use Prim.Native.String.{◌++◌ as str_append}
use secure_document_manageme.Prelude.{
  ℕ, zero, suc, ◌-◌, String, Bool, true, false, ◌&&◌, ◌||◌, Option, none, some, List, [], ◌∷◌, map,
  ◌==◌, string_eq, list_eq, nat_eq, leb, contains, find?, select, length, if◌then◌else◌,
}
use mathlib.Core.List.{flat_map}
use secure_document_manageme.Canonical.{codes}

pub data Tier : Type 0 where
  operational oversight external : Tier

pub data Side : Type 0 where
  admin officer : Side

pub data CeilingTier : Type 0 where
  command officer oversight external : CeilingTier

pub record LevelInfo : Type 0 where
  pub level : String
  pub title : String
  pub parent_levels : List String
  pub tier : Tier

abbrev level_info_of : String → String → List String → Tier → LevelInfo
level_info_of l t ps tier = record { level = l; title = t; parent_levels = ps; tier = tier }

abbrev pub role_levels : List LevelInfo
role_levels =
    level_info_of "STATE_HQ" "DGP" [] Tier.operational
    ∷ level_info_of "WING" "Addl. DGP" ("STATE_HQ" ∷ []) Tier.operational
    ∷ level_info_of "ADMINISTRATION_HQ" "Administration HQ" ("STATE_HQ" ∷ []) Tier.oversight
    ∷ level_info_of "ADMINISTRATION_IT" "Administration IT" ("ADMINISTRATION_HQ" ∷ [])
        Tier.oversight
    ∷ level_info_of "RANGE" "IG" ("STATE_HQ" ∷ []) Tier.operational
    ∷ level_info_of "DISTRICT" "SP" ("RANGE" ∷ []) Tier.operational
    ∷ level_info_of "SP_OFFICE" "Addl. SP" ("DISTRICT" ∷ []) Tier.operational
    ∷ level_info_of "SUBDIVISION" "DySP" ("DISTRICT" ∷ []) Tier.operational
    ∷ level_info_of "COMMISSIONERATE" "CP" ("STATE_HQ" ∷ []) Tier.operational
    ∷ level_info_of "BRANCH" "ACP / officer-in-charge" ("COMMISSIONERATE" ∷ []) Tier.operational
    ∷ level_info_of "SECTOR" "DCP" ("COMMISSIONERATE" ∷ []) Tier.operational
    ∷ level_info_of "ZONE" "ACP" ("SECTOR" ∷ []) Tier.operational
    ∷ level_info_of "DIVISION" "Division" ("ZONE" ∷ []) Tier.operational
    ∷ level_info_of "STATION" "PI" ("SUBDIVISION" ∷ "DIVISION" ∷ []) Tier.operational
    ∷ level_info_of "CHOKI" "PSI" ("STATION" ∷ []) Tier.operational
    ∷ level_info_of "SRPF" "SRPF" ("STATE_HQ" ∷ []) Tier.operational
    ∷ level_info_of "SRPF_GROUP" "SRPF Group" ("SRPF" ∷ []) Tier.operational
    ∷ level_info_of "GRP" "GRP Railway" ("STATE_HQ" ∷ []) Tier.operational
    ∷ level_info_of "GRP_DIVISION" "GRP Division" ("GRP" ∷ []) Tier.operational
    ∷ level_info_of "MARINE" "Marine Police" ("STATE_HQ" ∷ []) Tier.operational
    ∷ level_info_of "MARINE_OUTPOST" "Marine Outpost" ("MARINE" ∷ []) Tier.operational
    ∷ level_info_of "EXTERNAL_UNIT" "External (courts / prosecution / labs)" ("STATE_HQ" ∷ [])
        Tier.external
    ∷ []

abbrev pub admin_role : String → String
admin_role level = str_append level "_ADMIN"

abbrev pub officer_role : String → String
officer_role level = str_append level "_OFFICER"

-- Object.values(ROLES)
abbrev pub roles_of_levels : List LevelInfo → List String
roles_of_levels [] = []
roles_of_levels (l ∷ ls) = admin_role l.level ∷ officer_role l.level ∷ roles_of_levels ls

unfoldable pub role_list : List String
role_list = roles_of_levels role_levels

-- `find` by the level's code; a text is compared by its code points.
abbrev pub find_level : List ℕ → List LevelInfo → Option LevelInfo
find_level c [] = none
find_level c (l ∷ ls) = if codes l.level == c then some l else find_level c ls

unfoldable pub level_info : List ℕ → Option LevelInfo
level_info c = find_level c role_levels

abbrev pub child_levels_among : String → List LevelInfo → List String
child_levels_among level [] = []
child_levels_among level (l ∷ ls) =
    if contains l.parent_levels level
    then l.level ∷ child_levels_among level ls
    else child_levels_among level ls

unfoldable pub child_levels_of : String → List String
child_levels_of level = child_levels_among level role_levels

abbrev drop : ℕ → List ℕ → List ℕ
drop zero xs = xs
drop (suc n) [] = []
drop (suc n) (x ∷ xs) = drop n xs

abbrev take : ℕ → List ℕ → List ℕ
take zero xs = []
take (suc n) [] = []
take (suc n) (x ∷ xs) = x ∷ take n xs

-- `s.endsWith(suffix)` and `s.slice(0, -suffix.length)`
ends_with : List ℕ → List ℕ → Bool
ends_with s suffix = leb (length suffix) (length s) && drop (length s - length suffix) s == suffix

without_end : List ℕ → List ℕ → List ℕ
without_end s suffix = take (length s - length suffix) s

pub record ParsedRole : Type 0 where
  pub level : String
  pub side : Side
  pub title : String

abbrev pub parsed : Side → Option LevelInfo → Option ParsedRole
parsed side none = none
parsed side (some info) = some (record { level = info.level; side = side; title = info.title })

-- The parsed level is the matched row's own spelling, the same text as the slice.
unfoldable pub parse_role : String → Option ParsedRole
unfolding ends_with without_end
parse_role role =
    if ends_with (codes role) (codes "_ADMIN")
    then parsed admin (level_info (without_end (codes role) (codes "_ADMIN")))
    else if ends_with (codes role) (codes "_OFFICER")
    then parsed Side.officer (level_info (without_end (codes role) (codes "_OFFICER")))
    else none

abbrev pub creates_of : Option ParsedRole → List String
creates_of none = []
creates_of (some r) = elim r.side [
  | admin ↦ officer_role r.level ∷ map admin_role (child_levels_of r.level)
  | Side.officer ↦ []
]

unfoldable pub creates_roles_for : String → List String
unfolding parse_role
creates_roles_for role = creates_of (parse_role role)

abbrev pub tier_and_side : Tier → Side → CeilingTier
tier_and_side Tier.operational admin = command
tier_and_side Tier.operational Side.officer = CeilingTier.officer
tier_and_side Tier.oversight side = CeilingTier.oversight
tier_and_side Tier.external side = CeilingTier.external

abbrev pub ceiling_of : Option ParsedRole → Option CeilingTier
ceiling_of none = none
ceiling_of (some r) = elim (level_info (codes r.level)) [
  | none ↦ none
  | some info ↦ some (tier_and_side info.tier r.side)
]

unfoldable pub ceiling_tier_for : String → Option CeilingTier
unfolding parse_role level_info
ceiling_tier_for role = ceiling_of (parse_role role)

-- AUDIT_ROLES, which TOP_OVERSIGHT_ROLES is another name of.
abbrev pub top_oversight_roles : List String
top_oversight_roles =
    "STATE_HQ_ADMIN" ∷ "ADMINISTRATION_HQ_ADMIN" ∷ "ADMINISTRATION_HQ_OFFICER" ∷ []

abbrev is_case_creator_tier : Option CeilingTier → Bool
is_case_creator_tier (some command) = true
is_case_creator_tier (some CeilingTier.officer) = true
is_case_creator_tier _ = false

unfoldable pub case_creator_roles : List String
unfolding role_list ceiling_tier_for
case_creator_roles = select (λ role. is_case_creator_tier (ceiling_tier_for role)) role_list
