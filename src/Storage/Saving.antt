-- ===== src/Storage/Saving.antt =====
-- What the saves of pages and conflicts leave in the storage.
use cpp_wiki.Prelude.{
  ◌≡◌, ◌≢◌, ◌⊎◌, inl, inr, refl, ap, sym, ◌∙◌, String, true, false, not, Option, none, some, arith,
  eq_iff, eq_refl, ◌==◌, is_some, if◌then◌else◌,
}
use cpp_wiki.Documents.{SchemaVersion, v1}
use cpp_wiki.Documents.Kinds.{document_kind_keys}
use cpp_wiki.Merge.{DocumentRecord, DocumentConflictRecord}
use cpp_wiki.Storage.{
  Store, Disk, Answer, found, failed, RepositoryError, make_error, read_failed, same_path, slot_at,
  file_exists, read_file_to_string, make_page_file_path, make_conflict_file_path, sanitized,
  json_file,
}
use cpp_wiki.Storage.Slots.{save_file-SavedOr}
use cpp_wiki.Storage.Json.{Json, ReadsBack}
use cpp_wiki.Storage.Documents.{empty_snapshot, to_document_dto, from_document_dto}
use cpp_wiki.Storage.Pages.{
  serialize_document, checked_document, deserialize_document, save_document, parse_document,
  load_document,
}
use cpp_wiki.Storage.Conflicts.{load_conflict, parse_conflict}

-- Files with different names are different files.
pub stems_differ : (d s t : String) → s ≢ t → same_path (json_file d s) (json_file d t) ≡ false
unfolding same_path
stems_differ d s t ne = ground (arith, eq_iff s t)

pub directories_differ :
    (d e s t : String) → (d == e) ≡ false → same_path (json_file d s) (json_file e t) ≡ false
unfolding same_path
directories_differ d e s t ne = rw ne

module _ (G : Type 0) (json : Json) (disk : Disk) where
  -- What a page loads as, by what its file holds.
  unfoldable pub load_target : String → Option String → Answer (DocumentRecord G)
  load_target id target =
      if not (is_some target)
      then failed (make_error read_failed "Document not found")
      else parse_document G json id (
          read_file_to_string disk (make_page_file_path id)
            (record { target = target; temp = none; backup = none }))

  pub load_document-target :
      (id : String) (store : Store)
      → load_document G json disk id store
        ≡ load_target id (slot_at (make_page_file_path id) store).target
  unfolding load_document load_target file_exists read_file_to_string
  load_document-target id store = refl

  pub load_document_same :
      (id : String) (a b : Store)
      → (slot_at (make_page_file_path id) a).target ≡ (slot_at (make_page_file_path id) b).target
      → load_document G json disk id a ≡ load_document G json disk id b
  load_document_same id a b h =
      load_document-target id a ∙ ap (load_target id) h ∙ sym (load_document-target id b)

  one_version : (v : SchemaVersion) → v1 ≡ v
  one_version v1 = refl

  document_from_own_dto :
      (d : DocumentRecord G)
      → from_document_dto (to_document_dto d) ≡ record d { snapshot = empty_snapshot }
  unfolding from_document_dto to_document_dto
  document_from_own_dto d =
      rw (document_kind_keys.0 d.metadata.kind, one_version d.metadata.schema_version)

  own_id : (d : DocumentRecord G) → ((to_document_dto d).id == d.metadata.id) ≡ true
  unfolding to_document_dto
  own_id d = eq_refl d.metadata.id

  load_written :
      ReadsBack json.document
      → (d : DocumentRecord G) → disk.unreadable (make_page_file_path d.metadata.id) ≡ false
      → load_target d.metadata.id (some (serialize_document G json d))
        ≡ found (record d { snapshot = empty_snapshot })
  unfolding load_target parse_document deserialize_document checked_document serialize_document
      read_file_to_string
  load_written law d readable =
      rw (readable, law (to_document_dto d), own_id d, document_from_own_dto d)

  -- Loading a conflict, by what its file holds.
  unfoldable pub load_conflict_target : String → Option String → Answer DocumentConflictRecord
  load_conflict_target id target =
      if not (is_some target)
      then failed (make_error read_failed "Conflict not found")
      else parse_conflict json id (
          read_file_to_string disk (make_conflict_file_path id)
            (record { target = target; temp = none; backup = none }))

  pub load_conflict-target :
      (id : String) (store : Store)
      → load_conflict json disk id store
        ≡ load_conflict_target id (slot_at (make_conflict_file_path id) store).target
  unfolding load_conflict load_conflict_target file_exists read_file_to_string
  load_conflict-target id store = refl

  pub load_conflict_same :
      (id : String) (a b : Store)
      → (slot_at (make_conflict_file_path id) a).target
        ≡ (slot_at (make_conflict_file_path id) b).target
      → load_conflict json disk id a ≡ load_conflict json disk id b
  load_conflict_same id a b h =
      load_conflict-target id a ∙ ap (load_conflict_target id) h ∙ sym (load_conflict-target id b)

  pub page_and_conflict :
      (page conflict : String)
      → same_path (make_conflict_file_path conflict) (make_page_file_path page) ≡ false
  unfolding make_conflict_file_path make_page_file_path
  page_and_conflict page conflict = directories_differ "conflicts" "pages" _ _ refl

  other_page :
      (a b : String)
      → sanitized a ≢ sanitized b
      → same_path (make_page_file_path a) (make_page_file_path b) ≡ false
  unfolding make_page_file_path
  other_page a b ne = stems_differ "pages" _ _ ne

  only_given : {e : Option RepositoryError} {A : Type 0} → e ≡ none → is_some e ≡ true → A
  only_given a b = cc

  -- The storage reads back what it writes, the page's file has no backup, and it can be read. However
  -- the save of a page goes, the pages whose ids do not turn into the same file name, and all
  -- conflicts, load as before. Without an error, and if the closing of the temporary file lost nothing,
  -- the page loads as it was saved, but with an empty snapshot, which is not stored. With an error a
  -- page that had a file loads as before, if its backup could be put back; and in any case what the
  -- file held is still in it or in its backup.
  pub save_document_outcome :
      ReadsBack json.document
      → (d : DocumentRecord G) (store : Store)
      → (slot_at (make_page_file_path d.metadata.id) store).backup ≡ none
      → disk.unreadable (make_page_file_path d.metadata.id) ≡ false
      → let (after, e) = save_document G json disk d store in
        ((id : String)
          → sanitized id ≢ sanitized d.metadata.id
          → load_document G json disk id after ≡ load_document G json disk id store)
        × ((id : String) → load_conflict json disk id after ≡ load_conflict json disk id store)
        × (e ≡ none
            → (disk.write_faults (make_page_file_path d.metadata.id)).close_fails ≡ false
            → load_document G json disk d.metadata.id after
              ≡ found (record d { snapshot = empty_snapshot }))
        × (is_some e ≡ true
            → file_exists (make_page_file_path d.metadata.id) store ≡ true
            → (disk.restore_fails (make_page_file_path d.metadata.id) ≡ false
                → load_document G json disk d.metadata.id after
                  ≡ load_document G json disk d.metadata.id store)
              × (((slot_at (make_page_file_path d.metadata.id) after).target
                    ≡ (slot_at (make_page_file_path d.metadata.id) store).target)
                  ⊎ ((slot_at (make_page_file_path d.metadata.id) after).backup
                      ≡ (slot_at (make_page_file_path d.metadata.id) store).target)))
  unfolding save_document file_exists
  save_document_outcome law d store clean readable =
      let p = make_page_file_path d.metadata.id in
      let text = serialize_document G json d in
      let after = (save_document G json disk d store).0 in
      let (others, no_backup, on_success, on_error, kept) =
        save_file-SavedOr disk p text "Failed to write document file" store clean in
      (
        λ id ne.
            load_document_same id after store
              (ap (λ s. s.target) (others (make_page_file_path id) (other_page id _ ne))),
        λ id.
            load_conflict_same id after store
              (ap (λ s. s.target) (others (make_conflict_file_path id) (page_and_conflict _ id))),
        λ ok whole.
            load_document-target d.metadata.id after
            ∙ ap (λ s. load_target d.metadata.id s.target) (on_success ok whole)
            ∙ load_written law d readable,
        λ bad there. (
          λ works. elim ((on_error bad works).1) [
            | inl same ↦ load_document_same d.metadata.id after store same
            | inr missing ↦ absurd (ground arith)
          ],
          elim (kept bad) [
            | inl same ↦ inl same
            | inr (inl backup) ↦ inr backup
            | inr (inr missing) ↦ absurd (ground arith)
          ],
        ),
      )
