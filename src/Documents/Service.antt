-- ===== src/Documents/Service.antt =====
-- apps/api/src/modules/documents/documents.service.js: metadata, the soft delete and comments.
use secure_document_manageme.Prelude.{String, Option, none, some, [], ◌∷◌}
use secure_document_manageme.Canonical.{Json, text}
use secure_document_manageme.Db.{Document, DocumentStatus, DocumentComment}
use secure_document_manageme.Service.{
  Service, Platform, User, ◌>>=◌, ◌>>◌, or_throw, gets, pure, with_transaction,
}
use secure_document_manageme.Entries.{audit_entry, object, optional}
use secure_document_manageme.AuditLedger
use secure_document_manageme.Documents.Repository.{
  find_document_by_id, update_document_metadata, update_document_status, insert_comment,
}
use secure_document_manageme.Documents.Versions.{document_not_found}

abbrev text_option : Option String → Option Json
text_option none = none
text_option (some s) = some (text s)

module _ (p : Platform) where
  unfoldable pub update_document :
      User → String → Option String → Option String → Option String → Service (Option Document)
  unfolding find_document_by_id update_document_metadata AuditLedger.append_event with_transaction
  update_document actor document_id title description document_type_id = do
    document ← or_throw (← gets (find_document_by_id document_id)) document_not_found
    with_transaction (do
      updated ← update_document_metadata document_id title description document_type_id
      AuditLedger.append_event p
          (record (audit_entry actor.id "DOCUMENT_UPDATED" "DOCUMENT" document_id
            (some document.case_id)) {
              metadata = object (
                  optional (
                    ("title", text_option title)
                    ∷ ("description", text_option description)
                    ∷ ("documentTypeId", text_option document_type_id)
                    ∷ []));
            })
      pure updated)

  -- Soft delete: the row and its versions stay.
  unfoldable pub delete_document : User → String → Service (Option Document)
  unfolding find_document_by_id update_document_status AuditLedger.append_event with_transaction
  delete_document actor document_id = do
    document ← or_throw (← gets (find_document_by_id document_id)) document_not_found
    with_transaction (do
      updated ← update_document_status document_id DocumentStatus.deleted
      AuditLedger.append_event p
          (audit_entry actor.id "DOCUMENT_DELETED" "DOCUMENT" document_id (some document.case_id))
      pure updated)

  unfoldable pub add_comment : User → String → String → Service DocumentComment
  unfolding find_document_by_id insert_comment AuditLedger.append_event with_transaction
  add_comment actor document_id body = do
    document ← or_throw (← gets (find_document_by_id document_id)) document_not_found
    with_transaction (do
      comment ← insert_comment p document_id actor.id body
      AuditLedger.append_event p
          (audit_entry actor.id "DOCUMENT_COMMENTED" "DOCUMENT" document_id (some document.case_id))
      pure comment)
