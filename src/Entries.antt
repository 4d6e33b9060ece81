-- ===== src/Entries.antt =====
-- The arguments that the services hand to the two ledgers and to
-- apps/api/src/services/security-events/index.js (`raise`), with absent fields filled in.
use secure_document_manageme.Prelude.{
  String, false, Option, none, some, List, [], ◌∷◌, ◌==◌, string_eq, if◌then◌else◌,
}
use secure_document_manageme.Canonical.{Json, Fields, end, field, obj, codes}
use secure_document_manageme.Db.{success, CustodyAction, CustodyStatus, Severity}
use secure_document_manageme.Service.{Service, Platform, ◌>>=◌, ◌>>◌, write, pure, new_uuid}
use secure_document_manageme.AuditLedger.{AuditEntry, no_metadata}
use secure_document_manageme.CustodyLedger.{CustodyEntry}

-- `value || null`: the empty text counts as absent.
abbrev pub or_null : Option String → Option String
or_null none = none
or_null (some s) = if s == "" then none else some s

-- A JSON object literal.
abbrev pub fields_of : List (String × Json) → Fields
fields_of [] = end
fields_of ((k, v) ∷ kvs) = field (codes k) v (fields_of kvs)

abbrev pub object : List (String × Json) → Json
object kvs = obj (fields_of kvs)

-- The fields of an object literal that `JSON.stringify` writes: those that are not undefined.
abbrev pub optional : List (String × Option Json) → List (String × Json)
optional [] = []
optional ((k, none) ∷ kvs) = optional kvs
optional ((k, some v) ∷ kvs) = (k, v) ∷ optional kvs

-- A successful action of a user on a resource of a case, with no metadata.
abbrev pub audit_entry : String → String → String → String → Option String → AuditEntry
audit_entry actor_user_id action resource_type resource_id case_id = record {
  actor_user_id = some actor_user_id;
  action = action;
  resource_type = resource_type;
  resource_id = some resource_id;
  case_id = case_id;
  result = success;
  ip_address = none;
  session_id = none;
  device = none;
  metadata = no_metadata;
}

-- A custody event from a user to the same user.
abbrev pub custody_entry : String → String → CustodyAction → CustodyStatus → CustodyEntry
custody_entry evidence_id user_id action status = record {
  evidence_id = evidence_id;
  from_user_id = some user_id;
  to_user_id = some user_id;
  action = action;
  reason = none;
  status = status;
  integrity_verified = false;
  from_location = none;
  to_location = none;
  created_by = user_id;
}

module _ (p : Platform) where
  -- `securityEvents.raise`; the description is prose.
  unfoldable pub raise_security_event :
      String → Severity → Option String → Option String → Option String → Service String
  raise_security_event event_type severity user_id resource_type resource_id = do
    id ← new_uuid p
    write (λ d. record d {
      security_events =
          record {
            id = id;
            event_type = event_type;
            severity = severity;
            user_id = user_id;
            resource_type = resource_type;
            resource_id = resource_id;
          }
          ∷ d.security_events;
    })
    pure id
