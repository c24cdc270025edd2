-- ===== src/Storage/Removal.antt =====
-- storage/file_document_repository.cc: DeleteDocument, which removes a page with the values of its
-- properties, its relations, its conflicts and its revisions.
use cpp_wiki.Prelude.{
  String, Bool, true, false, not, Option, none, some, List, [], ◌∷◌, ◌==◌, if◌then◌else◌,
}
use cpp_wiki.Merge.{DocumentRecord, DocumentConflictRecord}
use cpp_wiki.Storage.{
  Store, Disk, Answer, found, failed, RepositoryErrorCode, RepositoryError, read_failed,
  make_page_file_path, remove_file,
}
use cpp_wiki.Storage.Json.{Json}
use cpp_wiki.Storage.Links.{and_then, remove_answered, delete_knowledge_for_page}
use cpp_wiki.Storage.Conflicts.{
  delete_conflict, list_conflicts, list_document_revisions, delete_document_revision,
}
use cpp_wiki.Storage.Pages.{load_document}

unfoldable pub is_read_failed : RepositoryErrorCode → Bool
is_read_failed read_failed = true
is_read_failed _ = false

-- The conflicts of a page.
unfoldable pub of_page : String → List DocumentConflictRecord → List DocumentConflictRecord
of_page page_id [] = []
of_page page_id (c ∷ cs) =
    let rest = of_page page_id cs in if c.document_id == page_id then c ∷ rest else rest

unfoldable pub conflicts_of :
    String → Answer (List DocumentConflictRecord) → Answer (List DocumentConflictRecord)
unfolding of_page
conflicts_of page_id (failed e) = failed e
conflicts_of page_id (found cs) = found (of_page page_id cs)

module _ (G : Type 0) (parses_number : String → Bool) (json : Json) where
  -- The first step of DeleteDocument, from what was loaded.
  unfoldable pub clean_knowledge :
      Disk → String → Answer (DocumentRecord G) → Store → Store × Option RepositoryError
  unfolding delete_knowledge_for_page is_read_failed
  clean_knowledge disk page_id (found document) store =
      delete_knowledge_for_page parses_number json disk document.metadata.workspace_id page_id store
  clean_knowledge disk page_id (failed e) store =
      if not (is_read_failed e.code) then (store, some e) else (store, none)

  unfoldable pub clean_conflicts : Disk → String → Store → Store × Option RepositoryError
  unfolding remove_answered conflicts_of list_conflicts delete_conflict
  clean_conflicts disk page_id store =
      remove_answered (λ c s. delete_conflict json disk c.id s)
        (conflicts_of page_id (list_conflicts json disk store)) store

  unfoldable pub clean_revisions : Disk → String → Store → Store × Option RepositoryError
  unfolding remove_answered list_document_revisions delete_document_revision
  clean_revisions disk page_id store =
      remove_answered (λ r s. delete_document_revision json disk r.id s)
        (list_document_revisions json disk page_id store) store

  unfoldable pub delete_document : Disk → String → Store → Store × Option RepositoryError
  unfolding and_then clean_knowledge load_document clean_conflicts clean_revisions remove_file
  delete_document disk page_id store =
      and_then (clean_knowledge disk page_id (load_document G json disk page_id store) store) (λ s.
        and_then (clean_conflicts disk page_id s) (λ s.
          and_then (clean_revisions disk page_id s)
            (λ s. remove_file disk (make_page_file_path page_id) s)))
