-- ===== src/Examples/Sharing.antt =====
-- The theorems on grants on a document that is shared for two hours.
use secure_document_manageme.Prelude.{refl, none, some, [], ◌∷◌, string_eq}
use secure_document_manageme.Db.{
  World, Document, DocumentStatus, Permission, ResourceType, ResourcePermission,
}
use secure_document_manageme.Service.{with_transaction}
use secure_document_manageme.AuditLedger
use secure_document_manageme.Roles.{role_list, ceiling_tier_for, parse_role, level_info}
use secure_document_manageme.PermissionEngine.{
  can, role_allows, role_action_ceiling, resolve_owning_case_id, check_case_scope,
}
use secure_document_manageme.Grants.Service.{
  revoke_grant, find_grant_by_id, assert_grant_authority, revoke_grant_row,
}
use secure_document_manageme.Grants.Effect.{IsDead, revoke_grant-IsDead}
use secure_document_manageme.Examples.{plain, giver, scene}

abbrev report : Document
report = record {
  id = "report";
  case_id = "case";
  document_type_id = none;
  title = "report";
  description = none;
  owner_id = "giver";
  status = DocumentStatus.active;
  current_version_id = none;
}

abbrev old_grant : ResourcePermission
old_grant = record {
  id = "grant";
  resource_type = ResourceType.document;
  resource_id = "report";
  user_id = "guest";
  permission = Permission.view;
  granted_by = some "giver";
  expires_at = none;
  revoked_at = none;
  created_at = 1;
}

abbrev office : World
office = record scene {
  db = record (scene.db) { documents = report ∷ []; resource_permissions = old_grant ∷ [] };
}

revoke_grant-IsDead_example : IsDead "grant" (revoke_grant plain giver "grant" office).1
unfolding revoke_grant find_grant_by_id assert_grant_authority revoke_grant_row with_transaction
    AuditLedger.append_event can role_allows role_action_ceiling role_list ceiling_tier_for
    parse_role level_info resolve_owning_case_id check_case_scope
revoke_grant-IsDead_example = revoke_grant-IsDead plain giver "grant" office refl
