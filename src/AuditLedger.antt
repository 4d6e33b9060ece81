-- ===== src/AuditLedger.antt =====
-- apps/api/src/services/ledger/index.js: the global audit ledger, and its verification in
-- apps/api/src/modules/audit/audit.service.js. The advisory lock makes the SELECT of the last row
-- and the INSERT one step, as they are here.
pub mod Growth
pub mod Verify
use secure_document_manageme.Prelude.{
  ℕ, suc, String, Bool, true, false, Option, none, some, List, [], ◌∷◌, ltb, get_last?,
  if◌then◌else◌,
}
use secure_document_manageme.Prelude.Sort.{order_by}
use secure_document_manageme.Canonical.{
  Json, null, num, str, obj, Fields, end, field, codes, text, sort_keys_deep,
}
use secure_document_manageme.Canonical.Print.{stringify}
use secure_document_manageme.Canonical.Iso.{to_iso_string}
use secure_document_manageme.Ledger.{Bytes, Chain, ChainReport, verify_rows}
use secure_document_manageme.Db.{World, AuditEvent, AuditRow, AuditResult, success, failure}
use secure_document_manageme.Service.{Service, Result, ok, Platform, gets}

-- `value ?? null`
abbrev pub text_or_null : Option String → Json
text_or_null none = null
text_or_null (some s) = text s

abbrev pub hash_or_null : Option Bytes → Json
hash_or_null none = null
hash_or_null (some h) = str h

abbrev result_text : AuditResult → String
result_text success = "SUCCESS"
result_text failure = "FAILURE"

-- The object literal of `computeEventHash`.
abbrev audit_json : AuditEvent → Json
audit_json e = obj (
    field (codes "actorUserId") (text_or_null e.actor_user_id) (
      field (codes "action") (text e.action) (
        field (codes "resourceType") (text e.resource_type) (
          field (codes "resourceId") (text_or_null e.resource_id) (
            field (codes "caseId") (text_or_null e.case_id) (
              field (codes "result") (text (result_text e.result)) (
                field (codes "ipAddress") (text_or_null e.ip_address) (
                  field (codes "sessionId") (text_or_null e.session_id) (
                    field (codes "device") (text_or_null e.device) (
                      field (codes "metadata") e.metadata (
                        field (codes "previousHash") (hash_or_null e.previous_hash) (
                          field (codes "createdAt") (str (to_iso_string e.created_at))
                            end))))))))))))

-- What a caller of `appendEvent` passes; an absent field is `none`, and absent metadata `{}`.
pub record AuditEntry : Type 0 where
  pub actor_user_id : Option String
  pub action : String
  pub resource_type : String
  pub resource_id : Option String
  pub case_id : Option String
  pub result : AuditResult
  pub ip_address : Option String
  pub session_id : Option String
  pub device : Option String
  pub metadata : Json

abbrev pub no_metadata : Json
no_metadata = obj end

abbrev pub by_id : AuditRow → AuditRow → Bool
by_id a b = ltb a.id b.id

abbrev pub hash_of_last : Option AuditRow → Option Bytes
hash_of_last none = none
hash_of_last (some r) = some r.event_hash

-- `{ ...event, previousHash, createdAt }`
abbrev pub stamp : AuditEntry → Option Bytes → ℕ → AuditEvent
stamp e prev at = record {
  actor_user_id = e.actor_user_id;
  action = e.action;
  resource_type = e.resource_type;
  resource_id = e.resource_id;
  case_id = e.case_id;
  result = e.result;
  ip_address = e.ip_address;
  session_id = e.session_id;
  device = e.device;
  metadata = e.metadata;
  previous_hash = prev;
  created_at = at;
}

module _ (p : Platform) where
  unfoldable pub compute_event_hash : AuditEvent → Bytes
  unfolding stringify sort_keys_deep to_iso_string
  compute_event_hash e = p.sha256 (stringify (sort_keys_deep (audit_json e)))

  abbrev pub audit_chain : Chain AuditRow AuditEvent ℕ
  audit_chain = record {
    row_id = λ r. r.id;
    previous_hash = λ r. r.event.previous_hash;
    event_hash = λ r. r.event_hash;
    content = λ r. r.event;
    compute_event_hash = compute_event_hash;
  }

  -- SELECT event_hash … ORDER BY id DESC LIMIT 1
  unfoldable pub previous_hash : World → Option Bytes
  previous_hash w = hash_of_last (get_last? (order_by by_id w.audit_events))

  abbrev pub new_row : AuditEntry → World → AuditRow
  new_row e w =
      let event = stamp e (previous_hash w) w.now in
      record { id = suc w.audit_sequence; event = event; event_hash = compute_event_hash event }

  abbrev pub appended : AuditEntry → World → World
  appended e w = record w {
    db = record (w.db) { audit_events = new_row e w ∷ w.audit_events };
    audit_sequence = suc w.audit_sequence;
  }

  unfoldable pub append_event : AuditEntry → Service AuditRow
  append_event e w = (ok (new_row e w), appended e w)

  -- audit.service.js `verifyChain`: every row, oldest id first.
  unfoldable pub verify_chain : Service (ChainReport ℕ)
  unfolding verify_rows
  verify_chain = gets (λ w. verify_rows audit_chain (order_by by_id w.audit_events))
