-- ===== src/Storage/Merging.antt =====
-- storage/file_document_repository.h: the repository of files as the interface that the resolution of
-- conflicts uses, with its laws, and a resolution over it.
use cpp_wiki.Prelude.{◌≡◌, refl, ap, sym, ◌∙◌, String, true, false, Option, none, some, is_some}
use cpp_wiki.Merge.{DocumentRecord, DocumentConflictRecord, Loaded, Repository, usable}
use cpp_wiki.Merge.Outcomes.{Stores}
use cpp_wiki.Storage.{
  Store, Disk, Answer, found, failed, RepositoryError, slot_at, file_exists, make_page_file_path,
  make_conflict_file_path,
}
use cpp_wiki.Storage.Slots.{save_file-Others}
use cpp_wiki.Storage.Json.{Json, ReadsBack}
use cpp_wiki.Storage.Documents.{empty_snapshot}
use cpp_wiki.Storage.Pages.{save_document, load_document}
use cpp_wiki.Storage.Conflicts.{load_conflict, resolve_conflict, update_conflict_resolution_state}
use cpp_wiki.Storage.Saving.{
  load_target, load_document-target, load_document_same, save_document_outcome,
}
use cpp_wiki.Storage.Resolving.{page_not_conflict, save_state-failed, save_state-found}

-- The parts of a result of a load or a change that the resolution looks at.
abbrev pub loaded : {A : Type 0} → Answer A → Loaded A
loaded (found a) = record { part = some a; error = none }
loaded (failed e) = record { part = none; error = some e.message }

abbrev pub message_of : Option RepositoryError → Option String
message_of none = none
message_of (some e) = some e.message

pub no_message : (o : Option RepositoryError) → message_of o ≡ none → o ≡ none
no_message none h = refl
no_message (some e) h = cc

pub some_message :
    (o : Option RepositoryError) (m : String) → message_of o ≡ some m → is_some o ≡ true
some_message none m h = cc
some_message (some e) m h = refl

pub usable_found :
    {A : Type 0} (answer : Answer A) (a : A) → usable (loaded answer) ≡ some a → answer ≡ found a
unfolding usable
usable_found (found b) a h = cc
usable_found (failed e) a h = cc

pub found_usable :
    {A : Type 0} (answer : Answer A) (a : A) → answer ≡ found a → usable (loaded answer) ≡ some a
unfolding usable
found_usable answer a h = rw h refl

module _ (G : Type 0) (json : Json) (disk : Disk) where
  abbrev pub file_repository : Repository G Store
  file_repository = record {
    load_document = λ id s. loaded (load_document G json disk id s);
    save_document = λ d s. let (t, e) = save_document G json disk d s in (t, message_of e);
    load_conflict = λ id s. loaded (load_conflict json disk id s);
    resolve_conflict = λ id s. let (t, e) = resolve_conflict json disk id s in (t, message_of e);
  }

  -- The page's file has no backup and can be read, its backup can be put back, and the closing of its
  -- temporary file loses nothing.
  abbrev pub IsClean : String → Store → Type 0
  IsClean page store =
      ((slot_at (make_page_file_path page) store).backup ≡ none)
      × (disk.unreadable (make_page_file_path page) ≡ false)
      × ((disk.write_faults (make_page_file_path page)).close_fails ≡ false)
      × (disk.restore_fails (make_page_file_path page) ≡ false)

  target_exists :
      (id : String) (target : Option String) (d : DocumentRecord G)
      → load_target G json disk id target ≡ found d
      → is_some target ≡ true
  unfolding load_target
  target_exists id none d h = cc
  target_exists id (some text) d h = refl

  pub loaded_exists :
      (id : String) (store : Store) (d : DocumentRecord G)
      → load_document G json disk id store ≡ found d
      → file_exists (make_page_file_path id) store ≡ true
  unfolding file_exists
  loaded_exists id store d h =
      target_exists id (slot_at (make_page_file_path id) store).target d
        (sym (load_document-target G json disk id store) ∙ h)

  pub resolve_keeps :
      (id page : String) (store : Store)
      → load_document G json disk page (resolve_conflict json disk id store).0
        ≡ load_document G json disk page store
  unfolding resolve_conflict
  resolve_keeps id page store = by_load (load_conflict json disk id store) refl
    where
      by_load :
          (answer : Answer DocumentConflictRecord)
          → load_conflict json disk id store ≡ answer
          → load_document G json disk page
              (update_conflict_resolution_state json disk id "resolved" store).0
            ≡ load_document G json disk page store
      by_load (failed e) h = rw (save_state-failed G json disk "resolved" id store e h) refl
      by_load (found c) h = rw (save_state-found G json disk "resolved" id store c h) (
          load_document_same G json disk page _ store (
            ap (λ s. s.target)
              (save_file-Others disk (make_conflict_file_path c.id) _ _ store
                (make_page_file_path page) (page_not_conflict G json disk page c.id))))

  module _ (document_law : ReadsBack json.document) where
    abbrev pub file_stores : Stores file_repository
    file_stores = record {
      IsReady = IsClean;
      loaded_as = λ d. record d { snapshot = empty_snapshot };
      loaded_same = λ d. (refl, refl);
      load-save = λ d s ready h.
          let (others, conflicts, on_success, on_error) =
            save_document_outcome G json disk document_law d s ready.0 ready.1 in
          found_usable _ _ (on_success (no_message _ h) ready.2);
      failed_save = λ d s e ready h.
          let (others, conflicts, on_success, on_error) =
            save_document_outcome G json disk document_law d s ready.0 ready.1 in
          (
            λ current there.
                let before = usable_found _ _ there in
                found_usable _ _ (
                  (on_error (some_message _ e h) (loaded_exists d.metadata.id s current before)).0
                    ready.3
                  ∙ before),
            λ id. ap loaded (conflicts id),
          );
      load-resolve = λ id page s. ap loaded (resolve_keeps id page s);
    }
