-- ===== src/Documents/Growth.antt =====
-- What the document requests do to the audit table.
use secure_document_manageme.Prelude.{String, refl, Option, ◌∷◌, ◌==◌, string_eq, update_where}
use secure_document_manageme.Canonical.{Json}
use secure_document_manageme.Db.{Document, DocumentStatus, IntegrityStatus}
use secure_document_manageme.Service.{Platform, User, write}
use secure_document_manageme.AuditLedger.Growth.{Appends, Appends-unaudited, appends_rules}
use secure_document_manageme.Evidence.Growth.{Appends-put, Appends-raise, Appends-stored}
use secure_document_manageme.Evidence.Lifecycle.{Upload}
use secure_document_manageme.Documents.Repository.{
  NewVersion, update_document_status, update_document_current_version, update_document_metadata,
  update_version_integrity_status, mark_version_signed, insert_document, insert_document_version,
  insert_comment, check_document_keys, find_document_by_id, set_metadata,
}
use secure_document_manageme.Documents.Versions.{
  store_document, add_version, upload_new_document, upload_new_version, restore_version,
  download_version,
}
use secure_document_manageme.Documents.Service.{update_document, delete_document, add_comment}

module _ (p : Platform) where
  pub Appends-document_status :
      (id : String) (s : DocumentStatus) → Appends p (update_document_status id s)
  unfolding update_document_status
  Appends-document_status id s = Appends-unaudited p _ (λ w. refl) (λ w. refl)

  Appends-current : (id v : String) → Appends p (update_document_current_version id v)
  unfolding update_document_current_version
  Appends-current id v = Appends-unaudited p _ (λ w. refl) (λ w. refl)

  Appends-add_row :
      (row : Document) → Appends p (write (λ d. record d { documents = row ∷ d.documents }))
  Appends-add_row row = Appends-unaudited p _ (λ w. refl) (λ w. refl)

  Appends-set_row :
      (id : String) (t d k : Option String)
      → Appends p (
          write (λ tables. record tables {
            documents = update_where (λ r. r.id == id) (set_metadata t d k) tables.documents;
          }))
  Appends-set_row id t d k = Appends-unaudited p _ (λ w. refl) (λ w. refl)

  Appends-keys :
      (c : String) (k : Option String) (o : String) → Appends p (check_document_keys c k o)
  unfolding check_document_keys
  Appends-keys c k o = search appends_rules depth 12

  Appends-metadata :
      (id : String) (t d k : Option String) → Appends p (update_document_metadata id t d k)
  unfolding update_document_metadata find_document_by_id
  Appends-metadata id t d k = search (appends_rules, Appends-set_row) depth 16

  Appends-integrity :
      (id : String) (s : IntegrityStatus) → Appends p (update_version_integrity_status id s)
  unfolding update_version_integrity_status
  Appends-integrity id s = Appends-unaudited p _ (λ w. refl) (λ w. refl)

  pub Appends-mark_signed : (id : String) → Appends p (mark_version_signed id)
  unfolding mark_version_signed
  Appends-mark_signed id = Appends-unaudited p _ (λ w. refl) (λ w. refl)

  Appends-insert_document :
      (c : String) (k : Option String) (t : String) (d : Option String) (o : String)
      (s : DocumentStatus)
      → Appends p (insert_document p c k t d o s)
  unfolding insert_document
  Appends-insert_document c k t d o s =
      search (appends_rules, Appends-add_row, Appends-keys) depth 16

  Appends-insert_version : (v : NewVersion) → Appends p (insert_document_version p v)
  unfolding insert_document_version
  Appends-insert_version v = Appends-unaudited p _ (λ w. refl) (λ w. refl)

  Appends-insert_comment : (d u b : String) → Appends p (insert_comment p d u b)
  unfolding insert_comment
  Appends-insert_comment d u b = Appends-unaudited p _ (λ w. refl) (λ w. refl)

  ruleset document_rules = (
    appends_rules, Appends-put, Appends-raise, Appends-stored, Appends-document_status,
    Appends-current, Appends-metadata, Appends-integrity, Appends-insert_document,
    Appends-insert_version, Appends-insert_comment,
  )

  Appends-store : (c : String) (f : Upload) → Appends p (store_document p c f)
  unfolding store_document
  Appends-store c f = search document_rules depth 16

  Appends-add_version :
      (u : User) (d : Document) (v : NewVersion) (a : String) (m : Json)
      → Appends p (add_version p u d v a m)
  unfolding add_version
  Appends-add_version u d v a m = search document_rules depth 20

  ruleset version_rules = (document_rules, Appends-store, Appends-add_version)

  pub Appends-upload_document :
      (u : User) (c : String) (k : Option String) (t : String) (d : Option String) (f : Upload)
      → Appends p (upload_new_document p u c k t d f)
  unfolding upload_new_document
  Appends-upload_document u c k t d f = search version_rules depth 40 fits 4000

  pub Appends-upload_version :
      (u : User) (id : String) (f : Upload) (n : Option String)
      → Appends p (upload_new_version p u id f n)
  unfolding upload_new_version
  Appends-upload_version u id f n = search version_rules depth 40 fits 4000

  pub Appends-restore : (u : User) (id v : String) → Appends p (restore_version p u id v)
  unfolding restore_version
  Appends-restore u id v = search version_rules depth 40 fits 4000

  pub Appends-download_version :
      (u : User) (id : String) (v ip : Option String) → Appends p (download_version p u id v ip)
  unfolding download_version
  Appends-download_version u id v ip = search version_rules depth 40 fits 4000

  pub Appends-update_document :
      (u : User) (id : String) (t d k : Option String) → Appends p (update_document p u id t d k)
  unfolding update_document
  Appends-update_document u id t d k = search version_rules depth 40 fits 4000

  pub Appends-delete_document : (u : User) (id : String) → Appends p (delete_document p u id)
  unfolding delete_document
  Appends-delete_document u id = search version_rules depth 40 fits 4000

  pub Appends-add_comment : (u : User) (id b : String) → Appends p (add_comment p u id b)
  unfolding add_comment
  Appends-add_comment u id b = search version_rules depth 40 fits 4000
