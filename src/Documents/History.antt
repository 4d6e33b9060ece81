-- ===== src/Documents/History.antt =====
-- The versions of a document as an append-only history.
use secure_document_manageme.Prelude.{
  suc, ◌+◌, String, ◌≡◌, refl, inl, inr, true, false, Option, some, List, [], ◌∷◌, arith, ◌==◌,
  ==_iff, ==_refl, string_eq, Bool-cases, Option-cases, none, ◌⊎◌, length, All, head?, ltb,
  get_last?, find?, find?-update_where, get_last?-concat,
}
use secure_document_manageme.Prelude.Sort.{IsDescending, order_by, order_by-newest}
use secure_document_manageme.Canonical.{Json}
use secure_document_manageme.Db.{
  World, Document, DocumentVersion, DocumentStatus, document_status_eq,
}
use secure_document_manageme.Service.{Platform, User, Result, ok, err, with_transaction}
use secure_document_manageme.AuditLedger
use secure_document_manageme.Storage
use secure_document_manageme.Crypto.{encrypt}
use secure_document_manageme.Evidence.Lifecycle.{Upload}
use secure_document_manageme.Documents.Repository.{
  NewVersion, Duplicate, history, older_version, version_row, set_current_version,
  find_document_by_id, find_version_by_id, find_latest_version_for_document,
  update_document_current_version, insert_document_version,
}
use secure_document_manageme.Documents.Versions.{
  add_version, store_document, document_key, uploaded, restored, created_metadata,
  restored_metadata, upload_new_version, restore_version,
}

-- The oldest version has number 1, and each other the number after the one below it.
abbrev pub IsNumbered : List DocumentVersion → Type 0
IsNumbered [] = Unit
IsNumbered (v ∷ vs) = (v.version_number ≡ suc (length vs)) × IsNumbered vs

-- Versions are numbered in the order in which they were written, at different times.
pub record IsHistory (id : String) (w : World) : Type 0 where
  pub numbered : IsNumbered (history id w)
  pub ordered : IsDescending older_version (history id w)

-- The clock has moved on since the last version.
abbrev pub IsLater : String → World → Type 0
IsLater id w = All (λ v. ltb v.created_at w.now ≡ true) (history id w)

newest :
    (xs : List DocumentVersion)
    → IsDescending older_version xs
    → get_last? (order_by older_version xs) ≡ head? xs
newest [] h = refl
newest (x ∷ xs) (b, h) =
    rw (order_by-newest older_version x xs b) (get_last?-concat (order_by older_version xs) x)

newest-number :
    (xs : List DocumentVersion) (v : DocumentVersion)
    → IsNumbered xs
    → head? xs ≡ some v
    → v.version_number + 1 ≡ suc (length xs)
newest-number [] v h e = cc
newest-number (x ∷ xs) v (n, h) e = ground arith

-- A version that was put on top of a document's history: it has the next number, the document
-- points to it, and the history of every other document is as it was.
pub record Added (id : String) (row : Document) (w w' : World) (v : DocumentVersion) : Type 0 where
  pub pushed : history id w' ≡ v ∷ history id w
  pub valid : IsHistory id w'
  pub found : find_document_by_id id w ≡ some row
  pub current : find_document_by_id id w' ≡ some (set_current_version v.id row)
  pub others : (other : String) → (id == other) ≡ false → history other w' ≡ history other w

-- The object store may have grown since.
abbrev stored_world : Platform → String → Upload → World → World
unfolding store_document Storage.put encrypt
stored_world p case_id file w = (store_document p case_id file w).1

module _ (p : Platform) where
  pub add_version-Added :
      (actor : User) (row : Document) (v : NewVersion) (action : String) (metadata : Json)
      (w : World)
      → IsHistory v.document_id w
      → IsLater v.document_id w
      → v.version_number ≡ suc (length (history v.document_id w))
      → find_document_by_id v.document_id w ≡ some row
      → Added v.document_id row w
          (add_version p actor row v action metadata w).1
          (version_row (p.uuid w.drawn) w.now v)
  unfolding add_version insert_document_version update_document_current_version find_document_by_id
      with_transaction AuditLedger.append_event
  add_version-Added actor row v action metadata w h later number found =
      let id : String = v.document_id in
      let ver = version_row (p.uuid w.drawn) w.now v in
      record {
        pushed = rw (==_refl id) refl;
        valid = record {
          numbered = rw (==_refl id) (number, h.numbered);
          ordered = rw (==_refl id) (later, h.ordered);
        };
        found = found;
        current =
            find?-update_where (λ d. d.id == id) (set_current_version ver.id) (λ d k. k) w.documents
              row found;
        others = λ other foreign. rw foreign refl;
      }

  -- Why a new version is refused: no such document, a deleted one, or one without any version.
  abbrev pub IsUploadRefused : String → World → Type 0
  IsUploadRefused id w =
      (find_document_by_id id w ≡ none)
      ⊎ (((row : Document) × (find_document_by_id id w ≡ some row)
            × ((row.status == DocumentStatus.deleted) ≡ true))
          ⊎ (head? (history id w) ≡ none))

  -- What an upload of a new version leaves: a version with the hash of the file, or the tables as
  -- they were, for a reason.
  abbrev pub UploadOutcome :
      String → Upload → World → Result (DocumentVersion × List Duplicate) × World → Type 0
  UploadOutcome id file w (ok (v, duplicates), w') =
      (row : Document) × Added id row w w' v × (v.sha256_hash ≡ p.sha256 file.buffer)
  UploadOutcome id file w (err e, w') = (w'.db ≡ w.db) × IsUploadRefused id w

  -- When a document's versions are numbered from 1 in the order in which they were written and the
  -- clock has moved on since the last of them: `uploadNewVersion` either puts a version with the next
  -- number and the hash of the uploaded file on top of that history, which stays numbered and
  -- ordered, with the document pointing to it and the histories of all other documents as they
  -- were; or it leaves the tables as they were, and the document does not exist, is deleted or has
  -- no version.
  pub upload_new_version-UploadOutcome :
      (actor : User) (id : String) (file : Upload) (note : Option String) (w : World)
      → IsHistory id w
      → IsLater id w
      → UploadOutcome id file w (upload_new_version p actor id file note w)
  unfolding upload_new_version store_document Storage.put find_document_by_id
      find_latest_version_for_document
  upload_new_version-UploadOutcome actor id file note w h later =
      elim (Option-cases (find? (λ d. d.id == id) w.documents)) [
        | inl gone ↦ rw gone (refl, inl gone)
        | inr (row, found) ↦ elim (Bool-cases (row.status == DocumentStatus.deleted)) [
          | inl deleted ↦ rw (found, deleted) (refl, inr (inl (row, found, deleted)))
          | inr kept ↦ elim (Option-cases (head? (history id w))) [
            | inl nothing ↦
                rw (found, kept, newest (history id w) h.ordered, nothing) (refl, inr (inr nothing))
            | inr (last, first) ↦
                rw (found, kept, newest (history id w) h.ordered, first)
                  (let added =
                      add_version-Added actor row
                        (uploaded p actor id (last.version_number + 1)
                          (document_key row.case_id (p.uuid w.drawn)) note file)
                        "VERSION_CREATED"
                        (created_metadata (last.version_number + 1) (p.sha256 file.buffer) note
                          file)
                        (stored_world p row.case_id file w)
                        (record { numbered = h.numbered; ordered = h.ordered }) later
                        (newest-number (history id w) last h.numbered first) found in
                    (
                      row,
                      record {
                        pushed = added.pushed;
                        valid = record {
                          numbered = added.valid.numbered;
                          ordered = added.valid.ordered;
                        };
                        found = found;
                        current = added.current;
                        others = added.others;
                      },
                      refl,
                    ))
          ]
        ]
      ]

  -- What a restoration leaves: a version with the stored object, the hash, the name and the type of
  -- the one asked for, which is a version of the same document; or the tables as they were.
  pub record Restored (id version_id : String) (w w' : World) (v : DocumentVersion) : Type 0 where
    pub target : DocumentVersion
    pub asked : find_version_by_id version_id w ≡ some target
    pub owned : target.document_id ≡ id
    pub before : Document
    pub added : Added id before w w' v
    pub object_kept : v.storage_key ≡ target.storage_key
    pub hash_kept : v.sha256_hash ≡ target.sha256_hash
    pub name_kept : v.file_name ≡ target.file_name
    pub type_kept : v.mime_type ≡ target.mime_type

  -- Why a restoration is refused: no such document, no such version of it, or no version at all.
  abbrev pub IsRestoreRefused : String → String → World → Type 0
  IsRestoreRefused id version_id w =
      (find_document_by_id id w ≡ none)
      ⊎ (((target : DocumentVersion)
            → find_version_by_id version_id w ≡ some target
            → (target.document_id == id) ≡ false)
          ⊎ (head? (history id w) ≡ none))

  abbrev pub RestoreOutcome : String → String → World → Result DocumentVersion × World → Type 0
  RestoreOutcome id version_id w (ok v, w') = Restored id version_id w w' v
  RestoreOutcome id version_id w (err e, w') = (w' ≡ w) × IsRestoreRefused id version_id w

  -- When a document's versions are numbered from 1 in the order in which they were written and the
  -- clock has moved on since the last of them: `restoreVersion` either puts a version with the next
  -- number on top of that history, which stays numbered and ordered, with the stored object, hash,
  -- name and type of the version asked for, which is one of the same document, the document pointing
  -- to the new one and the histories of all other documents as they were; or it leaves the whole
  -- state as it was, and the document does not exist, no version asked for belongs to it, or it has
  -- no version.
  pub restore_version-RestoreOutcome :
      (actor : User) (id version_id : String) (w : World)
      → IsHistory id w
      → IsLater id w
      → RestoreOutcome id version_id w (restore_version p actor id version_id w)
  unfolding restore_version find_document_by_id find_version_by_id find_latest_version_for_document
  restore_version-RestoreOutcome actor id version_id w h later =
      elim (Option-cases (find? (λ d. d.id == id) w.documents)) [
        | inl gone ↦ rw gone (refl, inl gone)
        | inr (row, found) ↦
            elim (Option-cases (find? (λ v. v.id == version_id) w.document_versions)) [
              | inl gone ↦ rw (found, gone) (refl, inr (inl (λ other e. absurd cc)))
              | inr (target, asked) ↦ elim (Bool-cases (target.document_id == id)) [
                | inr foreign ↦
                    rw (found, asked, foreign)
                      (
                        refl,
                        inr (inl (λ other e. (let same : other ≡ target = cc in rw same foreign))),
                      )
                | inl owned ↦ elim (Option-cases (head? (history id w))) [
                  | inl empty ↦
                      rw (found, asked, owned, newest (history id w) h.ordered, empty)
                        (refl, inr (inr empty))
                  | inr (last, first) ↦
                      let added =
                        add_version-Added actor row
                          (restored p actor id (last.version_number + 1) target) "VERSION_RESTORED"
                          (restored_metadata version_id (last.version_number + 1) target) w h later
                          (newest-number (history id w) last h.numbered first) found in
                      rw (found, asked, owned, newest (history id w) h.ordered, first)
                        (record {
                          target = target;
                          asked = asked;
                          owned = (==_iff target.document_id id).0 owned;
                          before = row;
                          added = added;
                          object_kept = refl;
                          hash_kept = refl;
                          name_kept = refl;
                          type_kept = refl;
                        })
                ]
              ]
            ]
      ]
