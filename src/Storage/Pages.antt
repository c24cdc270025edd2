-- ===== src/Storage/Pages.antt =====
-- storage/file_document_repository.cc: the operations on pages.
use cpp_wiki.Prelude.{
  String, Bool, true, false, not, Option, none, some, List, [], ◌∷◌, ◌==◌, ◌+++◌, ℤ, pos, ltb_ℤ,
  eqb_ℤ, if◌then◌else◌, ◌⊎◌, inl, inr,
}
use cpp_wiki.Documents.{DocumentKind, wiki_page, PageMetadata}
use cpp_wiki.Knowledge.Validation.{text_lt}
use cpp_wiki.Merge.{DocumentRecord}
use cpp_wiki.Storage.{
  Store, Disk, Answer, found, failed, RepositoryError, make_error, invalid_record, read_failed,
  make_page_file_path, save_file, file_exists, slot_at, read_file_to_string,
}
use cpp_wiki.Storage.Documents.{FileDocumentRecordDto, to_document_dto, from_document_dto}
use cpp_wiki.Storage.Json.{Json}
use cpp_wiki.Storage.Lists.{is_listed, sorted_by}

pub record DocumentSummary : Type 0 where
  pub id : String
  pub kind : DocumentKind
  pub title : String
  pub workspace_id : String
  pub parent_id : Option String
  pub sort_order : ℤ
  pub created_at : String
  pub updated_at : String
  pub created_by : String
  pub updated_by : String
  pub content_version : ℤ
  pub is_corrupted : Bool
  pub load_error : Option String
  pub trashed_at : Option String

unfoldable pub document_summary_from_metadata : PageMetadata → DocumentSummary
document_summary_from_metadata metadata = record {
  id = metadata.id;
  kind = metadata.kind;
  title = metadata.title;
  workspace_id = metadata.workspace_id;
  parent_id = metadata.parent_id;
  sort_order = metadata.sort_order;
  created_at = metadata.created_at;
  updated_at = metadata.updated_at;
  created_by = metadata.created_by;
  updated_by = metadata.updated_by;
  content_version = metadata.content_version;
  is_corrupted = false;
  load_error = none;
  trashed_at = metadata.trashed_at;
}

-- What stands in the list for a page that cannot be loaded.
unfoldable pub corrupted_summary : String → String → DocumentSummary
corrupted_summary page_id message = record {
  id = page_id;
  kind = wiki_page;
  title = "(Corrupted document)";
  workspace_id = "";
  parent_id = none;
  sort_order = pos 0;
  created_at = "";
  updated_at = "";
  created_by = "";
  updated_by = "";
  content_version = pos 1;
  is_corrupted = true;
  load_error = some message;
  trashed_at = none;
}

unfoldable pub summary_before : DocumentSummary → DocumentSummary → Bool
unfolding text_lt
summary_before a b =
    if not (eqb_ℤ a.sort_order b.sort_order)
    then ltb_ℤ a.sort_order b.sort_order
    else text_lt a.title b.title

module _ (G : Type 0) (json : Json) where
  unfoldable pub serialize_document : DocumentRecord G → String
  unfolding to_document_dto
  serialize_document document = json.document.write (to_document_dto document)

  unfoldable pub checked_document :
      String → String ⊎ FileDocumentRecordDto → Answer (DocumentRecord G)
  unfolding from_document_dto
  checked_document expected_id (inl message) =
      failed (make_error invalid_record ("Failed to parse document file: " +++ message))
  checked_document expected_id (inr dto) =
      if not (dto.id == expected_id)
      then failed (make_error invalid_record "Document id does not match file name.")
      else found (from_document_dto dto)

  unfoldable pub deserialize_document : String → String → Answer (DocumentRecord G)
  unfolding checked_document
  deserialize_document content expected_id =
      checked_document expected_id (json.document.read content)

  unfoldable pub save_document : Disk → DocumentRecord G → Store → Store × Option RepositoryError
  unfolding save_file serialize_document
  save_document disk document store =
      save_file disk (make_page_file_path document.metadata.id) (serialize_document document)
        "Failed to write document file" store

  unfoldable pub parse_document : String → Option String → Answer (DocumentRecord G)
  unfolding deserialize_document
  parse_document page_id none = failed (make_error read_failed "Failed to read document file")
  parse_document page_id (some content) = deserialize_document content page_id

  unfoldable pub load_document : Disk → String → Store → Answer (DocumentRecord G)
  unfolding parse_document file_exists read_file_to_string slot_at
  load_document disk page_id store =
      let p = make_page_file_path page_id in
      if not (file_exists p store)
      then failed (make_error read_failed "Document not found")
      else parse_document page_id (read_file_to_string disk p (slot_at p store))

  unfoldable pub summary_of : String → Answer (DocumentRecord G) → DocumentSummary
  unfolding document_summary_from_metadata corrupted_summary
  summary_of page_id (failed e) = corrupted_summary page_id e.message
  summary_of page_id (found document) = document_summary_from_metadata document.metadata

  -- `all` is the storage as it is, the last argument what is left of its walk.
  unfoldable pub walk_documents : Disk → Store → Store → List DocumentSummary
  unfolding load_document summary_of is_listed
  walk_documents disk all [] = []
  walk_documents disk all ((p, slot) ∷ store) =
      let more = walk_documents disk all store in
      if is_listed "pages" p slot
      then summary_of p.stem (load_document disk p.stem all) ∷ more
      else more

  unfoldable pub list_documents : Disk → Store → List DocumentSummary
  unfolding walk_documents sorted_by summary_before
  list_documents disk store = sorted_by summary_before (walk_documents disk store store)
