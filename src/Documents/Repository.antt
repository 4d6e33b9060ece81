-- ===== src/Documents/Repository.antt =====
-- apps/api/src/modules/documents/documents.repository.js.
use secure_document_manageme.Prelude.{
  ℕ, String, Bool, true, false, ◌&&◌, not, Option, none, some, List, [], ◌∷◌, ◌++◌, ◌==◌, string_eq,
  list_eq, nat_eq, find?, any, select, update_where, get_last?, ltb, if◌then◌else◌,
}
use secure_document_manageme.Prelude.Sort.{order_by}
use secure_document_manageme.Ledger.{Bytes}
use secure_document_manageme.Sql.{coalesce, coalesce_option}
use secure_document_manageme.Db.{
  World, Document, DocumentType, DocumentStatus, DocumentVersion, DocumentComment, IntegrityStatus,
}
use secure_document_manageme.Service.{
  Service, Platform, internal_error, or_throw, throw_if, ◌>>=◌, ◌>>◌, gets, write, pure, new_uuid,
}

unfoldable pub find_document_by_id : String → World → Option Document
find_document_by_id id w = find? (λ d. d.id == id) w.documents

abbrev pub set_document_status : DocumentStatus → Document → Document
set_document_status status d = record d { status = status }

unfoldable pub update_document_status : String → DocumentStatus → Service (Option Document)
unfolding find_document_by_id
update_document_status id status = do
  write (λ d. record d {
    documents = update_where (λ r. r.id == id) (set_document_status status) d.documents;
  })
  gets (find_document_by_id id)

abbrev pub set_current_version : String → Document → Document
set_current_version version_id d = record d { current_version_id = some version_id }

unfoldable pub update_document_current_version : String → String → Service (Unit {0})
update_document_current_version id version_id = write (λ d. record d {
  documents = update_where (λ r. r.id == id) (set_current_version version_id) d.documents;
})

-- The foreign key `document_type_id`, which may be null.
abbrev pub type_exists : Option String → List DocumentType → Bool
type_exists none types = true
type_exists (some id) types = any (λ t. t.id == id) types

-- The foreign keys of a row of `documents`: a violation is an error of the query, so a 500.
unfoldable pub check_document_keys : String → Option String → String → Service (Unit {0})
check_document_keys case_id document_type_id owner_id = do
  or_throw (← gets (λ w. find? (λ c. c.id == case_id) w.cases)) internal_error
  or_throw (← gets (λ w. find? (λ u. u.id == owner_id) w.users)) internal_error
  known ← gets (λ w. type_exists document_type_id w.document_types)
  throw_if (not known) internal_error

abbrev pub set_metadata : Option String → Option String → Option String → Document → Document
set_metadata title description document_type_id d = record d {
  title = coalesce title d.title;
  description = coalesce_option description d.description;
  document_type_id = coalesce_option document_type_id d.document_type_id;
}

unfoldable pub update_document_metadata :
    String → Option String → Option String → Option String → Service (Option Document)
unfolding find_document_by_id
update_document_metadata id title description document_type_id = do
  listed ← gets (λ w. any (λ d. d.id == id) w.documents)
  known ← gets (λ w. type_exists document_type_id w.document_types)
  throw_if (listed && not known) internal_error
  write (λ d. record d {
    documents =
        update_where (λ r. r.id == id) (set_metadata title description document_type_id)
          d.documents;
  })
  gets (find_document_by_id id)

unfoldable pub find_version_by_id : String → World → Option DocumentVersion
find_version_by_id id w = find? (λ v. v.id == id) w.document_versions

-- The versions of a document, the one written last first.
abbrev pub is_of : String → DocumentVersion → Bool
is_of document_id v = v.document_id == document_id

abbrev pub history : String → World → List DocumentVersion
history document_id w = select (is_of document_id) w.document_versions

abbrev pub older_version : DocumentVersion → DocumentVersion → Bool
older_version a b = ltb a.created_at b.created_at

-- ORDER BY created_at DESC LIMIT 1. Among versions of one instant SQL leaves the choice open; here
-- it is the one written first.
unfoldable pub find_latest_version_for_document : String → World → Option DocumentVersion
find_latest_version_for_document document_id w =
    get_last? (order_by older_version (history document_id w))

unfoldable pub update_version_integrity_status : String → IntegrityStatus → Service (Unit {0})
update_version_integrity_status id status = write (λ d. record d {
  document_versions =
      update_where (λ v. v.id == id) (λ v. record v { integrity_status = status })
        d.document_versions;
})

unfoldable pub mark_version_signed : String → Service (Unit {0})
mark_version_signed id = write (λ d. record d {
  document_versions =
      update_where (λ v. v.id == id) (λ v. record v { is_signed = true }) d.document_versions;
})

-- A row of the duplicate search, with the title of its document.
pub record Duplicate : Type 0 where
  pub version_id : String
  pub version_number : ℕ
  pub document_id : String
  pub document_title : String

abbrev is_excluded : Option String → String → Bool
is_excluded none id = false
is_excluded (some document_id) id = id == document_id

abbrev joined : String → Bytes → Option String → DocumentVersion → Option Document → List Duplicate
joined case_id hash exclude v none = []
joined case_id hash exclude v (some d) =
    if d.case_id == case_id && v.sha256_hash == hash && not (is_excluded exclude v.document_id)
    then record {
      version_id = v.id;
      version_number = v.version_number;
      document_id = v.document_id;
      document_title = d.title;
    }
      ∷ []
    else []

abbrev join_versions :
    String → Bytes → Option String → World → List DocumentVersion → List Duplicate
join_versions case_id hash exclude w [] = []
join_versions case_id hash exclude w (v ∷ vs) =
    joined case_id hash exclude v (find? (λ d. d.id == v.document_id) w.documents)
    ++ join_versions case_id hash exclude w vs

unfoldable pub find_versions_by_hash_in_case :
    String → Bytes → Option String → World → List Duplicate
find_versions_by_hash_in_case case_id hash exclude w =
    join_versions case_id hash exclude w w.document_versions

-- The arguments of `insertDocumentVersion`.
pub record NewVersion : Type 0 where
  pub document_id : String
  pub version_number : ℕ
  pub storage_key : String
  pub sha256_hash : Bytes
  pub file_name : String
  pub mime_type : String
  pub size_bytes : ℕ
  pub encryption_version : String
  pub key_id : String
  pub change_note : Option Bytes
  pub created_by : String

-- The columns that the INSERT leaves out take their defaults.
abbrev pub version_row : String → ℕ → NewVersion → DocumentVersion
version_row id now v = record {
  id = id;
  document_id = v.document_id;
  version_number = v.version_number;
  storage_key = v.storage_key;
  sha256_hash = v.sha256_hash;
  file_name = v.file_name;
  mime_type = v.mime_type;
  size_bytes = v.size_bytes;
  integrity_status = IntegrityStatus.unknown;
  encryption_version = v.encryption_version;
  key_id = v.key_id;
  change_note = v.change_note;
  created_by = v.created_by;
  created_at = now;
  is_signed = false;
}

module _ (p : Platform) where
  unfoldable pub insert_document :
      String → Option String → String → Option String → String → DocumentStatus → Service Document
  unfolding check_document_keys
  insert_document case_id document_type_id title description owner_id status = do
    id ← new_uuid p
    check_document_keys case_id document_type_id owner_id
    let row : Document = record {
      id = id;
      case_id = case_id;
      document_type_id = document_type_id;
      title = title;
      description = description;
      owner_id = owner_id;
      status = status;
      current_version_id = none;
    }
    write (λ d. record d { documents = row ∷ d.documents })
    pure row

  unfoldable pub insert_document_version : NewVersion → Service DocumentVersion
  insert_document_version v = do
    id ← new_uuid p
    now ← gets (λ w. w.now)
    let row : DocumentVersion = version_row id now v
    write (λ d. record d { document_versions = row ∷ d.document_versions })
    pure row

  unfoldable pub insert_comment : String → String → String → Service DocumentComment
  insert_comment document_id author_id body = do
    id ← new_uuid p
    now ← gets (λ w. w.now)
    let row : DocumentComment = record {
      id = id;
      document_id = document_id;
      author_id = author_id;
      body = body;
      created_at = now;
    }
    write (λ d. record d { document_comments = row ∷ d.document_comments })
    pure row
