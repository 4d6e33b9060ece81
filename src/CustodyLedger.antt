-- ===== src/CustodyLedger.antt =====
-- apps/api/src/services/custody-ledger/index.js: one hash chain for each evidence item. The advisory
-- lock of an item makes the SELECT of its last row and the INSERT one step, as they are here.
pub mod Growth
pub mod Ties
use secure_document_manageme.Prelude.{
  ℕ, String, Bool, true, false, Option, none, some, List, [], ◌∷◌, ◌||◌, ◌&&◌, ◌==◌, nat_beq,
  nat_eq, string_eq, ltb, get_last?, select,
}
use secure_document_manageme.Prelude.Sort.{order_by}
use secure_document_manageme.Canonical.{
  Json, bool, str, obj, end, field, codes, text, key_lt, sort_keys_deep,
}
use secure_document_manageme.Canonical.Print.{stringify}
use secure_document_manageme.Canonical.Iso.{to_iso_string}
use secure_document_manageme.Ledger.{Bytes, Chain, ChainReport, verify_rows}
use secure_document_manageme.Db.{World, CustodyEvent, CustodyRow, CustodyAction, CustodyStatus}
use secure_document_manageme.Service.{Service, ok, Platform, gets, draw}
use secure_document_manageme.AuditLedger.{text_or_null, hash_or_null}

abbrev action_text : CustodyAction → String
action_text CustodyAction.register = "REGISTER"
action_text CustodyAction.seal = "SEAL"
action_text CustodyAction.transfer_request = "TRANSFER_REQUEST"
action_text CustodyAction.receive = "RECEIVE"
action_text CustodyAction.analyze = "ANALYZE"
action_text CustodyAction.hand_back = "RETURN"
action_text CustodyAction.archive = "ARCHIVE"

abbrev status_text : CustodyStatus → String
status_text CustodyStatus.pending = "PENDING"
status_text CustodyStatus.acknowledged = "ACKNOWLEDGED"
status_text CustodyStatus.completed = "COMPLETED"
status_text CustodyStatus.rejected = "REJECTED"

-- The object literal of `computeEventHash`.
abbrev custody_json : CustodyEvent → Json
custody_json e = obj (
    field (codes "evidenceId") (text e.evidence_id) (
      field (codes "fromUserId") (text_or_null e.from_user_id) (
        field (codes "toUserId") (text_or_null e.to_user_id) (
          field (codes "action") (text (action_text e.action)) (
            field (codes "reason") (text_or_null e.reason) (
              field (codes "status") (text (status_text e.status)) (
                field (codes "integrityVerified") (bool e.integrity_verified) (
                  field (codes "fromLocation") (text_or_null e.from_location) (
                    field (codes "toLocation") (text_or_null e.to_location) (
                      field (codes "previousHash") (hash_or_null e.previous_hash) (
                        field (codes "createdBy") (text e.created_by) (
                          field (codes "createdAt") (str (to_iso_string e.created_at))
                            end))))))))))))

-- What a caller of `appendEvent` passes; absent fields are `none` and `false`.
pub record CustodyEntry : Type 0 where
  pub evidence_id : String
  pub from_user_id : Option String
  pub to_user_id : Option String
  pub action : CustodyAction
  pub reason : Option String
  pub status : CustodyStatus
  pub integrity_verified : Bool
  pub from_location : Option String
  pub to_location : Option String
  pub created_by : String

-- WHERE evidence_id = $1
abbrev pub rows_of : String → List CustodyRow → List CustodyRow
rows_of e rows = select (λ r. r.evidence_id == e) rows

-- ORDER BY created_at ASC, id ASC
abbrev pub by_time : CustodyRow → CustodyRow → Bool
by_time a b =
    ltb a.created_at b.created_at
    || nat_beq a.created_at b.created_at && key_lt (codes a.id) (codes b.id)

abbrev pub hash_of_last : Option CustodyRow → Option Bytes
hash_of_last none = none
hash_of_last (some r) = some r.event_hash

abbrev pub stamp : CustodyEntry → Option Bytes → ℕ → CustodyEvent
stamp e prev at = record {
  evidence_id = e.evidence_id;
  from_user_id = e.from_user_id;
  to_user_id = e.to_user_id;
  action = e.action;
  reason = e.reason;
  status = e.status;
  integrity_verified = e.integrity_verified;
  from_location = e.from_location;
  to_location = e.to_location;
  previous_hash = prev;
  created_by = e.created_by;
  created_at = at;
}

module _ (p : Platform) where
  unfoldable pub compute_event_hash : CustodyEvent → Bytes
  unfolding stringify sort_keys_deep to_iso_string
  compute_event_hash e = p.sha256 (stringify (sort_keys_deep (custody_json e)))

  abbrev pub custody_chain : Chain CustodyRow CustodyEvent String
  custody_chain = record {
    row_id = λ r. r.id;
    previous_hash = λ r. r.event.previous_hash;
    event_hash = λ r. r.event_hash;
    content = λ r. r.event;
    compute_event_hash = compute_event_hash;
  }

  unfoldable pub previous_hash : String → World → Option Bytes
  previous_hash e w = hash_of_last (get_last? (order_by by_time (rows_of e w.custody_events)))

  abbrev pub new_row : CustodyEntry → World → CustodyRow
  new_row e w =
      let event = stamp e (previous_hash e.evidence_id w) w.now in
      record { id = p.uuid w.drawn; event = event; event_hash = compute_event_hash event }

  abbrev pub appended : CustodyEntry → World → World
  appended e w =
      let w' = draw w in
      record w' { db = record (w.db) { custody_events = new_row e w ∷ w.custody_events } }

  unfoldable pub append_event : CustodyEntry → Service CustodyRow
  append_event e w = (ok (new_row e w), appended e w)

  unfoldable pub verify_chain : String → Service (ChainReport String)
  unfolding verify_rows
  verify_chain e =
      gets (λ w. verify_rows custody_chain (order_by by_time (rows_of e w.custody_events)))
