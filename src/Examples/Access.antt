-- ===== src/Examples/Access.antt =====
-- The theorems on cases and on permissions on the example state.
use secure_document_manageme.Prelude.{
  String, ◌≡◌, refl, ◌≤◌, ◌⊎◌, [], ◌∷◌, arith, ==_iff, string_eq,
}
use secure_document_manageme.Db.{CaseStatus, Permission, ResourceType}
use secure_document_manageme.Service.{User}
use secure_document_manageme.Roles.{ceiling_tier_for, parse_role, level_info, role_list}
use secure_document_manageme.PermissionEngine.{
  Resource, can, role_allows, role_action_ceiling, resolve_owning_case_id, check_case_scope,
  check_resource_grant,
}
use secure_document_manageme.PermissionEngine.Layers.{
  HasCeiling, HasScope, HasGrant, IsReadMostly, can_sound, can-IsReadMostly,
}
use secure_document_manageme.Cases.Repository.{
  find_case_by_id, find_active_case_member, count_active_members_by_role,
}
use secure_document_manageme.Cases.Status.{update_case_status}
use secure_document_manageme.Cases.Status.Outcome.{StatusOutcome, update_case_status-StatusOutcome}
use secure_document_manageme.Cases.Members.{check_removal, commit_removal, remove_member}
use secure_document_manageme.Cases.Members.Owners.{
  owners_in, remove_member-keeps_owner, concurrent_removals,
}
use secure_document_manageme.Examples.{plain, giver, scene, owner_row}

update_case_status-StatusOutcome_example :
    StatusOutcome giver.roles "case" CaseStatus.under_investigation scene
      (update_case_status plain "giver" giver.roles "case" CaseStatus.under_investigation scene)
update_case_status-StatusOutcome_example =
    update_case_status-StatusOutcome plain "giver" giver.roles "case" CaseStatus.under_investigation
      scene

remove_member-keeps_owner_example :
    1 ≤ owners_in "case" (remove_member plain "giver" "case" "taker" scene).1.case_members
remove_member-keeps_owner_example =
    remove_member-keeps_owner plain "giver" "case" "taker" "case" scene (omega arith) (omega arith)

concurrent_removals_example :
    owners_in "case"
      (commit_removal plain "taker" "case" "giver"
        (commit_removal plain "giver" "case" "taker" scene).1).1.case_members
    ≡ 0
unfolding check_removal find_case_by_id find_active_case_member count_active_members_by_role
concurrent_removals_example =
    concurrent_removals plain "giver" "taker" "case" "taker" "giver" scene (owner_row "m2" "taker")
      (owner_row "m1" "giver") refl refl refl refl refl
      (λ e. cc ((==_iff {A = String} "taker" "giver").1 e))

abbrev whole_case : Resource
whole_case = record { kind = ResourceType.case_resource; id = "case" }

can_sound_example :
    HasCeiling giver Permission.upload
    × (HasScope giver Permission.upload whole_case scene
        ⊎ HasGrant giver Permission.upload whole_case scene)
unfolding can role_allows role_action_ceiling resolve_owning_case_id check_case_scope
    check_resource_grant ceiling_tier_for parse_role level_info role_list
can_sound_example = can_sound giver Permission.upload whole_case scene refl

abbrev overseer : User
overseer = record { id = "giver"; roles = "ADMINISTRATION_HQ_ADMIN" ∷ [] }

can-IsReadMostly_example : IsReadMostly Permission.verify
unfolding can role_allows role_action_ceiling resolve_owning_case_id check_case_scope
    check_resource_grant ceiling_tier_for parse_role level_info role_list
can-IsReadMostly_example =
    can-IsReadMostly overseer Permission.verify whole_case scene (refl, tt) refl
