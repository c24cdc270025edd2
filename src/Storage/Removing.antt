-- ===== src/Storage/Removing.antt =====
-- A page that is deleted, with what belongs to it.
use cpp_wiki.Prelude.{
  ◌≡◌, String, Bool, true, false, not, ◌||◌, Option, none, some, ◌==◌, if◌then◌else◌,
}
use cpp_wiki.Merge.{DocumentRecord, DocumentConflictRecord}
use cpp_wiki.Knowledge.{PagePropertyValue, PageRelation}
use cpp_wiki.Storage.Documents.{DocumentRevisionRecord}
use cpp_wiki.Storage.{
  FilePath, Store, Disk, Answer, found, failed, RepositoryError, same_path, sanitized, json_file,
  make_page_file_path, make_conflict_file_path, make_revision_file_path, make_knowledge_file_path,
}
use cpp_wiki.Storage.Json.{Json}
use cpp_wiki.Storage.Links.{
  delete_page_property_value, list_page_property_values, delete_page_relation, list_page_relations,
  clean_values, clean_relations, delete_knowledge_for_page,
}
use cpp_wiki.Storage.Conflicts.{
  delete_conflict, list_conflicts, list_document_revisions, delete_document_revision,
}
use cpp_wiki.Storage.Removal.{
  is_read_failed, conflicts_of, clean_knowledge, clean_conflicts, clean_revisions,
}
use cpp_wiki.Storage.Pruning.{
  Prunes, Prunes-refl, remove_file-Prunes, and_then-Prunes, remove_answered-Prunes,
}

-- The files that the deletion of a page may remove: those of its own name, and any of the records
-- that can belong to it.
may_remove : String → FilePath → Bool
may_remove page_id q =
    q.directory == "page-property-values"
    || q.directory == "page-relations"
    || q.directory == "conflicts"
    || q.directory == "revisions"
    || same_path q (make_page_file_path page_id)

-- The files outside the directory of conflicts.
not_conflict : FilePath → Bool
not_conflict q = not (q.directory == "conflicts")

module _ (G : Type 0) (parses_number : String → Bool) (json : Json) (disk : Disk) where
  module _ (may : FilePath → Bool)
      (values : (s : String) → may (json_file "page-property-values" s) ≡ true)
      (relations : (s : String) → may (json_file "page-relations" s) ≡ true) where
    delete_value-Prunes :
        (id : String) (s : Store)
        → Prunes may s (delete_page_property_value parses_number json disk id s).0
    unfolding delete_page_property_value make_knowledge_file_path
    delete_value-Prunes id s =
        remove_file-Prunes may disk (make_knowledge_file_path "page-property-values" id) s
          (values (sanitized id))

    delete_relation-Prunes :
        (id : String) (s : Store)
        → Prunes may s (delete_page_relation parses_number json disk id s).0
    unfolding delete_page_relation make_knowledge_file_path
    delete_relation-Prunes id s =
        remove_file-Prunes may disk (make_knowledge_file_path "page-relations" id) s
          (relations (sanitized id))

    clean_values-Prunes :
        (workspace_id page_id : String) (store : Store)
        → Prunes may store (clean_values parses_number json disk workspace_id page_id store).0
    unfolding clean_values
    clean_values-Prunes workspace_id page_id store =
        remove_answered-Prunes
          (λ (r : PagePropertyValue) s. delete_page_property_value parses_number json disk r.id s)
          may (λ r s. delete_value-Prunes r.id s)
          (list_page_property_values parses_number json disk workspace_id page_id store) store

    clean_relations-Prunes :
        (workspace_id page_id : String) (store : Store)
        → Prunes may store (clean_relations parses_number json disk workspace_id page_id store).0
    unfolding clean_relations
    clean_relations-Prunes workspace_id page_id store =
        remove_answered-Prunes
          (λ (r : PageRelation) s. delete_page_relation parses_number json disk r.id s) may
          (λ r s. delete_relation-Prunes r.id s)
          (list_page_relations parses_number json disk workspace_id page_id store) store

    knowledge-Prunes :
        (workspace_id page_id : String) (store : Store)
        → Prunes may store
            (delete_knowledge_for_page parses_number json disk workspace_id page_id store).0
    unfolding delete_knowledge_for_page
    knowledge-Prunes workspace_id page_id store =
        and_then-Prunes may store (clean_values parses_number json disk workspace_id page_id store)
          (λ s. clean_relations parses_number json disk workspace_id page_id s)
          (clean_values-Prunes workspace_id page_id store)
          (λ s. clean_relations-Prunes workspace_id page_id s)

    clean_by :
        (b : Bool) (e : RepositoryError) (store : Store)
        → let after : Store × Option RepositoryError =
            if b then (store, some e) else (store, none) in
          Prunes may store after.0
    clean_by true e store = Prunes-refl may store
    clean_by false e store = Prunes-refl may store

    pub clean_knowledge-Prunes :
        (page_id : String) (loaded : Answer (DocumentRecord G)) (store : Store)
        → Prunes may store (clean_knowledge G parses_number json disk page_id loaded store).0
    unfolding clean_knowledge
    clean_knowledge-Prunes page_id (found d) store =
        knowledge-Prunes d.metadata.workspace_id page_id store
    clean_knowledge-Prunes page_id (failed e) store = clean_by (not (is_read_failed e.code)) e store

  module _ (may : FilePath → Bool)
      (conflicts : (s : String) → may (json_file "conflicts" s) ≡ true) where
    pub delete_conflict-Prunes :
        (id : String) (s : Store) → Prunes may s (delete_conflict json disk id s).0
    unfolding delete_conflict make_conflict_file_path
    delete_conflict-Prunes id s =
        remove_file-Prunes may disk (make_conflict_file_path id) s (conflicts (sanitized id))

    pub clean_conflicts-Prunes :
        (page_id : String) (store : Store)
        → Prunes may store (clean_conflicts G parses_number json disk page_id store).0
    unfolding clean_conflicts
    clean_conflicts-Prunes page_id store =
        remove_answered-Prunes (λ (c : DocumentConflictRecord) s. delete_conflict json disk c.id s)
          may (λ c s. delete_conflict-Prunes c.id s)
          (conflicts_of page_id (list_conflicts json disk store)) store

  module _ (may : FilePath → Bool)
      (revisions : (s : String) → may (json_file "revisions" s) ≡ true) where
    delete_revision-Prunes :
        (id : String) (s : Store) → Prunes may s (delete_document_revision json disk id s).0
    unfolding delete_document_revision make_revision_file_path
    delete_revision-Prunes id s =
        remove_file-Prunes may disk (make_revision_file_path id) s (revisions (sanitized id))

    pub clean_revisions-Prunes :
        (page_id : String) (store : Store)
        → Prunes may store (clean_revisions G parses_number json disk page_id store).0
    unfolding clean_revisions
    clean_revisions-Prunes page_id store =
        remove_answered-Prunes
          (λ (r : DocumentRevisionRecord) s. delete_document_revision json disk r.id s) may
          (λ r s. delete_revision-Prunes r.id s) (list_document_revisions json disk page_id store)
          store
