-- ===== src/Storage/Tests.antt =====
-- Runs of the repository of files, and the theorems at concrete inputs.
use cpp_wiki.Prelude.{
  ◌⊎◌, ℕ, Option, ◌≡◌, ◌≢◌, refl, ℕ, pos, String, true, false, none, some, List, [], ◌∷◌, is_some,
  is_empty, length, elem, All,
}
use cpp_wiki.Files.{Slot, write_file_atomically, restore_from_backup, reconcile_interrupted_write}
use cpp_wiki.Prelude.{is_blank}
use cpp_wiki.Knowledge.Validation.{first_failure, has_audit_metadata, has_duplicate_or_blank_values}
use cpp_wiki.Files.Crash.{only}
use cpp_wiki.Documents.{v1, wiki_page}
use cpp_wiki.Knowledge.{PropertyDefinition, PropertyValueKind, active, AuditMetadata}
use cpp_wiki.Knowledge as Cases
use cpp_wiki.Merge.{DocumentRecord, DocumentConflictRecord}
use cpp_wiki.Attachments.{AttachmentData, validate_attachment_metadata}
use cpp_wiki.Storage.{
  read_file_to_string, FilePath, Store, Disk, no_faults, found, failed, make_error, read_failed,
  slot_at, json_file, sanitized, file_exists, make_page_file_path, make_conflict_file_path,
  make_attachment_metadata_file_path, make_attachment_blob_file_path, make_knowledge_file_path,
}
use cpp_wiki.Storage.Samples.{
  sample_json, document_law, conflict_law, attachment_law, definition_law,
}
use cpp_wiki.Storage.Documents.{empty_snapshot}
use cpp_wiki.Storage.Pages.{
  serialize_document, save_document, load_document, list_documents, summary_before, summary_of,
}
use cpp_wiki.Storage.Conflicts.{save_conflict, load_conflict, resolve_conflict, dismiss_conflict}
use cpp_wiki.Storage.Blobs.{save_attachment}
use cpp_wiki.Storage.Knowledge.{save_property_definition, list_property_definitions}
use cpp_wiki.Storage.Removal.{delete_document}
use cpp_wiki.Storage.Lists.{RecordFiles, list_records}
use cpp_wiki.Knowledge.Validation.{text_lt}
use cpp_wiki.Knowledge.Relations.{text_lt_asym}
use cpp_wiki.Storage.Orders.{In, Ordered}
use cpp_wiki.Storage.Opening.{recovered, open_repository, swept_directories, open_repository_exact}
use cpp_wiki.Storage.Saving.{save_document_outcome}
use cpp_wiki.Storage.Resolving.{SetsState, resolve_dismiss_outcome}
use cpp_wiki.Storage.Keeping.{IsKept, save_attachment-IsKept}
use cpp_wiki.Storage.Listing.{files_in, list_documents_complete}
use cpp_wiki.Storage.Deleting.{delete_document_outcome}
use cpp_wiki.Storage.Sound.{IsGiven, IsRead, list_records_sound}
use cpp_wiki.Storage.Recording.{save_property_definition-Shows}

abbrev pub healthy : Disk
healthy = record {
  unreadable = λ p. false;
  write_faults = λ p. no_faults;
  restore_fails = λ p. false;
  remove_fault = λ p. none;
  repair_faults = λ p. (none, none);
}

-- The removal of the backup fails, when a write is otherwise done.
abbrev stuck_backup : Disk
stuck_backup = record healthy { write_faults = λ p. record no_faults { clean_fails = true } }

-- The backup cannot be put back either.
abbrev stuck_restore : Disk
stuck_restore = record stuck_backup { restore_fails = λ p. true }

abbrev page : DocumentRecord ℕ
page = record {
  metadata = record {
    id = "a/b";
    schema_version = v1;
    kind = wiki_page;
    title = "T";
    workspace_id = "w";
    parent_id = none;
    sort_order = pos 0;
    created_at = "1";
    updated_at = "1";
    created_by = "u";
    updated_by = "u";
    content_version = pos 1;
    trashed_at = none;
  };
  snapshot = empty_snapshot;
  raw_snapshot_json = "{}";
}

abbrev page_file : FilePath
page_file = json_file "pages" "a_b"

sanitized_runs : (sanitized "a/b.c-D_9" ≡ "a_b_c-D_9") × (sanitized "a_b" ≡ sanitized "a/b")
unfolding sanitized
sanitized_runs = (refl, refl)

-- A save over an old text, in which the backup cannot be removed, reports an error and puts the old text back.
failed_save_runs :
    (slot_at page_file
        (save_document ℕ sample_json stuck_backup page ((page_file, only "old") ∷ [])).0
      ≡ only "old")
    × (is_some (save_document ℕ sample_json stuck_backup page ((page_file, only "old") ∷ [])).1
        ≡ true)
    × (slot_at page_file
          (save_document ℕ sample_json stuck_restore page ((page_file, only "old") ∷ [])).0
        ≡ record {
          target = some (serialize_document ℕ sample_json page);
          temp = none;
          backup = some "old";
        })
unfolding save_document slot_at make_page_file_path write_file_atomically restore_from_backup
failed_save_runs = (refl, refl, refl)

save_document_outcome_example :
    let (after, e) = save_document ℕ sample_json healthy page [] in
    ((id : String)
      → sanitized id ≢ sanitized "a/b"
      → load_document ℕ sample_json healthy id after ≡ load_document ℕ sample_json healthy id [])
    × ((id : String)
        → load_conflict sample_json healthy id after ≡ load_conflict sample_json healthy id [])
    × (e ≡ none
        → false ≡ false
        → load_document ℕ sample_json healthy "a/b" after
          ≡ found (record page { snapshot = empty_snapshot }))
    × (is_some e ≡ true
        → file_exists (make_page_file_path "a/b") [] ≡ true
        → (false ≡ false
            → load_document ℕ sample_json healthy "a/b" after
              ≡ load_document ℕ sample_json healthy "a/b" [])
          × (((slot_at (make_page_file_path "a/b") after).target
                ≡ (slot_at (make_page_file_path "a/b") []).target)
              ⊎ ((slot_at (make_page_file_path "a/b") after).backup
                  ≡ (slot_at (make_page_file_path "a/b") []).target)))
unfolding slot_at
save_document_outcome_example =
    save_document_outcome ℕ sample_json healthy document_law page [] refl refl

abbrev pub conflict : DocumentConflictRecord
conflict = record {
  id = "c1";
  document_id = "a/b";
  workspace_id = "w";
  base_version = pos 1;
  local_snapshot = "{}";
  remote_snapshot = "{}";
  local_updated_by = "u";
  remote_updated_by = "v";
  detected_at = "1";
  resolution_state = "pending";
}

abbrev pub with_conflict : Store
with_conflict = (save_conflict sample_json healthy conflict []).0

resolve_dismiss_outcome_example :
    SetsState ℕ sample_json healthy "c1" "resolved" with_conflict
      (resolve_conflict sample_json healthy "c1" with_conflict)
    × SetsState ℕ sample_json healthy "c1" "dismissed" with_conflict
        (dismiss_conflict sample_json healthy "c1" with_conflict)
unfolding slot_at save_conflict make_conflict_file_path write_file_atomically
resolve_dismiss_outcome_example =
    resolve_dismiss_outcome ℕ sample_json healthy conflict_law "c1" with_conflict refl

abbrev attachment : AttachmentData
attachment = record {
  metadata = record {
    id = "i";
    workspace_id = "w";
    filename = "f";
    mime_type = "m";
    size_bytes = 2;
    sha256 = "s";
    created_at = "1";
    created_by = "u";
  };
  bytes = "ab";
}

save_attachment-IsKept_example :
    IsKept sample_json healthy attachment (save_attachment sample_json healthy attachment []).0
unfolding slot_at save_attachment make_attachment_metadata_file_path make_attachment_blob_file_path
    first_failure write_file_atomically validate_attachment_metadata
save_attachment-IsKept_example =
    save_attachment-IsKept sample_json attachment_law healthy attachment [] refl refl refl refl refl
      refl refl

abbrev one_page : Store
one_page = (save_document ℕ sample_json healthy page []).0

list_documents_complete_example :
    (length (list_documents ℕ sample_json healthy one_page) ≡ files_in "pages" one_page)
    × Ordered summary_before (list_documents ℕ sample_json healthy one_page)
    × ((id : String)
        → sanitized id ≡ id
        → is_empty id ≡ false
        → file_exists (make_page_file_path id) one_page ≡ true
        → In
            (summary_of ℕ sample_json id (load_document ℕ sample_json healthy id one_page))
            (list_documents ℕ sample_json healthy one_page))
list_documents_complete_example = list_documents_complete ℕ sample_json healthy one_page

delete_document_outcome_example :
    let (after, e) = delete_document ℕ (λ s. false) sample_json healthy "a/b" with_conflict in
    ((other : String)
      → sanitized other ≢ sanitized "a/b"
      → load_document ℕ sample_json healthy other after
        ≡ load_document ℕ sample_json healthy other with_conflict)
    × (e ≡ none
        → load_document ℕ sample_json healthy "a/b" after
          ≡ failed (make_error read_failed "Document not found"))
    × (e ≡ none
        → (c : DocumentConflictRecord) → sanitized c.id ≡ c.id
        → is_empty c.id ≡ false
        → c.document_id ≡ "a/b"
        → load_conflict sample_json healthy c.id with_conflict ≡ found c
        → load_conflict sample_json healthy c.id after
          ≡ failed (make_error read_failed "Conflict not found"))
delete_document_outcome_example =
    delete_document_outcome ℕ (λ s. false) sample_json healthy "a/b" with_conflict

abbrev definition : PropertyDefinition
definition = record {
  id = "p.1";
  workspace_id = "w";
  name = "n";
  group_name = none;
  value_kind = Cases.text;
  options = [];
  state = active;
  audit = record { created_at = "1"; updated_at = "1"; created_by = "u"; updated_by = "u" };
}

abbrev with_definition : Store
with_definition = (save_property_definition sample_json healthy definition []).0

save_property_definition-Shows_example :
    ((rs : List PropertyDefinition)
      → list_property_definitions sample_json healthy "w" with_definition ≡ found rs
      → In definition rs)
    × (sanitized "p.1" ≢ "p.1"
        → (workspace_id : String) (rs : List PropertyDefinition)
        → list_property_definitions sample_json healthy workspace_id with_definition ≢ found rs)
unfolding slot_at save_property_definition sanitized make_knowledge_file_path first_failure is_blank
    has_audit_metadata has_duplicate_or_blank_values write_file_atomically
save_property_definition-Shows_example =
    save_property_definition-Shows sample_json healthy definition_law definition [] refl refl refl
      refl refl

-- Files whose text is their record's id.
abbrev names : RecordFiles String
names = record {
  directory = "d";
  read = λ t. some t;
  id_of = λ t. t;
  is_invalid = λ t. false;
  parse_message = "p";
  invalid_message = "i";
}

abbrev two_files : Store
two_files = (json_file "d" "y", only "y") ∷ (json_file "d" "x", only "x") ∷ []

list_records_sound_example :
    All (IsGiven names (λ r. true)) ("x" ∷ "y" ∷ [])
    × Ordered text_lt ("x" ∷ "y" ∷ [])
    × ((id text : String)
        → is_empty id ≡ false
        → healthy.unreadable (json_file "d" id) ≡ false
        → (slot_at (json_file "d" id) two_files).target ≡ some text
        → IsRead names (λ r. true) id text ("x" ∷ "y" ∷ []))
unfolding list_records read_file_to_string text_lt
list_records_sound_example =
    list_records_sound names (λ r. true) healthy text_lt text_lt_asym two_files ("x" ∷ "y" ∷ [])
      refl

abbrev torn : Slot
torn = record { target = none; temp = some "new"; backup = some "old" }

-- The first call for the page fails after its first operation, the second one does the rest.
abbrev shaky : Disk
shaky = record healthy { repair_faults = λ p. (some 1, none) }

open_repository_runs :
    slot_at page_file (open_repository shaky ((page_file, torn) ∷ [])) ≡ only "new"
unfolding open_repository slot_at reconcile_interrupted_write
open_repository_runs = refl

open_repository_exact_example :
    let before = slot_at page_file ((page_file, torn) ∷ []) in
    let after = slot_at page_file (open_repository shaky ((page_file, torn) ∷ [])) in
    (elem "pages" swept_directories ≡ true
      → (after ≡ recovered (some 1, none) before)
        × (Path (Option ℕ) (some 1) none
            → (after ≡ reconcile_interrupted_write none before)
              × (after.temp ≡ none)
              × (after.backup ≡ none))
        × (reconcile_interrupted_write none after ≡ reconcile_interrupted_write none before))
    × (elem "pages" swept_directories ≡ false → after ≡ before)
open_repository_exact_example = open_repository_exact shaky page_file ((page_file, torn) ∷ [])
