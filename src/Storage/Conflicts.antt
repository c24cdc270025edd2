-- ===== src/Storage/Conflicts.antt =====
-- storage/file_document_repository.cc: the operations on conflicts and on revisions of pages, and the
-- synchronization status of a repository of files.
use cpp_wiki.Prelude.{
  ℕ, suc, ltb, String, Bool, false, not, ◌||◌, Option, none, some, List, [], ◌∷◌, ◌==◌, ◌+++◌,
  if◌then◌else◌, ◌⊎◌, inl, inr,
}
use cpp_wiki.Knowledge.Validation.{text_lt}
use cpp_wiki.Merge.{DocumentConflictRecord}
use cpp_wiki.Storage.{
  Store, Disk, Answer, found, failed, RepositoryError, make_error, invalid_record, read_failed,
  make_conflict_file_path, make_revision_file_path, save_file, remove_file, file_exists, slot_at,
  read_file_to_string,
}
use cpp_wiki.Storage.Documents.{
  DocumentRevisionRecord, FileConflictRecordDto, to_conflict_dto, from_conflict_dto,
  to_revision_dto, from_revision_dto,
}
use cpp_wiki.Storage.Json.{Json}
use cpp_wiki.Storage.Lists.{is_listed, sort_found}

unfoldable pub is_pending_conflict : DocumentConflictRecord → Bool
is_pending_conflict conflict = conflict.resolution_state == "pending"

unfoldable pub is_valid_resolution_state : String → Bool
is_valid_resolution_state state = state == "pending" || state == "resolved" || state == "dismissed"

-- By the time of detection, then by id.
unfoldable pub conflict_before : DocumentConflictRecord → DocumentConflictRecord → Bool
unfolding text_lt
conflict_before a b =
    if not (a.detected_at == b.detected_at)
    then text_lt a.detected_at b.detected_at
    else text_lt a.id b.id

-- The newest first.
unfoldable pub revision_before : DocumentRevisionRecord → DocumentRevisionRecord → Bool
unfolding text_lt
revision_before a b =
    if not (a.saved_at == b.saved_at) then text_lt b.saved_at a.saved_at else text_lt b.id a.id

-- How many entries pass the test.
unfoldable pub count_if : {R : Type 0} → (R → Bool) → List R → ℕ
count_if test [] = 0
count_if test (r ∷ rs) = let n = count_if test rs in if test r then suc n else n

pub data SyncLifecycleState : Type 0 where
  disabled configured running error : SyncLifecycleState

pub record SyncStatus : Type 0 where
  pub state : SyncLifecycleState
  pub status_text : String
  pub initial_pull_active : Bool
  pub initial_pull_completed : Bool
  pub has_conflicts : Bool
  pub conflict_count : ℕ

unfoldable pub unsupported_status : ℕ → SyncStatus
unsupported_status pending = record {
  state = disabled;
  status_text = "Sync unsupported";
  initial_pull_active = false;
  initial_pull_completed = false;
  has_conflicts = ltb 0 pending;
  conflict_count = pending;
}

unfoldable pub status_of : Answer (List DocumentConflictRecord) → SyncStatus
unfolding unsupported_status count_if is_pending_conflict
status_of (failed e) = unsupported_status 0
status_of (found conflicts) = unsupported_status (count_if is_pending_conflict conflicts)

-- The conflict that was read, with the id asked for.
unfoldable pub checked_conflict :
    String → String ⊎ FileConflictRecordDto → Answer DocumentConflictRecord
unfolding from_conflict_dto is_valid_resolution_state
checked_conflict conflict_id (inl message) =
    failed (make_error invalid_record ("Failed to parse conflict file: " +++ message))
checked_conflict conflict_id (inr dto) =
    if not (dto.id == conflict_id)
    then failed (make_error invalid_record "Conflict id does not match file name.")
    else if not (is_valid_resolution_state dto.resolution_state)
    then failed (make_error invalid_record "Conflict resolution state is invalid.")
    else found (from_conflict_dto dto)

-- A conflict that cannot be loaded is left out.
unfoldable pub add_loaded : {R : Type 0} → Answer R → List R → List R
add_loaded (found r) more = r ∷ more
add_loaded (failed e) more = more

module _ (json : Json) where
  unfoldable pub save_conflict :
      Disk → DocumentConflictRecord → Store → Store × Option RepositoryError
  unfolding save_file to_conflict_dto
  save_conflict disk conflict store =
      save_file disk (make_conflict_file_path conflict.id)
        (json.conflict.write (to_conflict_dto conflict)) "Failed to write conflict file" store

  unfoldable pub delete_conflict : Disk → String → Store → Store × Option RepositoryError
  unfolding remove_file
  delete_conflict disk conflict_id store =
      remove_file disk (make_conflict_file_path conflict_id) store

  unfoldable pub parse_conflict : String → Option String → Answer DocumentConflictRecord
  unfolding checked_conflict
  parse_conflict conflict_id none = failed (make_error read_failed "Failed to read conflict file")
  parse_conflict conflict_id (some content) =
      checked_conflict conflict_id (json.conflict.read content)

  unfoldable pub load_conflict : Disk → String → Store → Answer DocumentConflictRecord
  unfolding parse_conflict file_exists read_file_to_string slot_at
  load_conflict disk conflict_id store =
      let p = make_conflict_file_path conflict_id in
      if not (file_exists p store)
      then failed (make_error read_failed "Conflict not found")
      else parse_conflict conflict_id (read_file_to_string disk p (slot_at p store))

  -- `all` is the storage as it is, the last argument what is left of its walk.
  unfoldable pub walk_conflicts : Disk → Store → Store → List DocumentConflictRecord
  unfolding load_conflict add_loaded is_listed
  walk_conflicts disk all [] = []
  walk_conflicts disk all ((p, slot) ∷ store) =
      let more = walk_conflicts disk all store in
      if is_listed "conflicts" p slot then add_loaded (load_conflict disk p.stem all) more else more

  unfoldable pub list_conflicts : Disk → Store → Answer (List DocumentConflictRecord)
  unfolding walk_conflicts sort_found conflict_before
  list_conflicts disk store = sort_found conflict_before (found (walk_conflicts disk store store))

  unfoldable pub get_sync_status : Disk → Store → SyncStatus
  unfolding status_of list_conflicts
  get_sync_status disk store = status_of (list_conflicts disk store)

  unfoldable pub save_state :
      Disk → String → Answer DocumentConflictRecord → Store → Store × Option RepositoryError
  unfolding save_conflict
  save_state disk state (failed e) store = (store, some e)
  save_state disk state (found conflict) store =
      save_conflict disk (record conflict { resolution_state = state }) store

  unfoldable pub update_conflict_resolution_state :
      Disk → String → String → Store → Store × Option RepositoryError
  unfolding save_state load_conflict
  update_conflict_resolution_state disk conflict_id state store =
      save_state disk state (load_conflict disk conflict_id store) store

  unfoldable pub resolve_conflict : Disk → String → Store → Store × Option RepositoryError
  unfolding update_conflict_resolution_state
  resolve_conflict disk conflict_id store =
      update_conflict_resolution_state disk conflict_id "resolved" store

  unfoldable pub dismiss_conflict : Disk → String → Store → Store × Option RepositoryError
  unfolding update_conflict_resolution_state
  dismiss_conflict disk conflict_id store =
      update_conflict_resolution_state disk conflict_id "dismissed" store

  unfoldable pub save_document_revision :
      Disk → DocumentRevisionRecord → Store → Store × Option RepositoryError
  unfolding save_file to_revision_dto
  save_document_revision disk revision store =
      save_file disk (make_revision_file_path revision.id)
        (json.revision.write (to_revision_dto revision)) "Failed to write revision file" store

  unfoldable pub delete_document_revision : Disk → String → Store → Store × Option RepositoryError
  unfolding remove_file
  delete_document_revision disk revision_id store =
      remove_file disk (make_revision_file_path revision_id) store

  unfoldable pub revision_in : Option String → Option DocumentRevisionRecord
  unfolding from_revision_dto
  revision_in none = none
  revision_in (some content) = elim (json.revision.read content) [
    | inl message ↦ none
    | inr dto ↦ some (from_revision_dto dto)
  ]

  unfoldable pub add_revision :
      String
      → Option DocumentRevisionRecord
      → List DocumentRevisionRecord
      → List DocumentRevisionRecord
  add_revision document_id none more = more
  add_revision document_id (some revision) more =
      if not (revision.document_id == document_id) then more else revision ∷ more

  unfoldable pub walk_revisions : Disk → String → Store → List DocumentRevisionRecord
  unfolding add_revision revision_in is_listed read_file_to_string
  walk_revisions disk document_id [] = []
  walk_revisions disk document_id ((p, slot) ∷ store) =
      let more = walk_revisions disk document_id store in
      if is_listed "revisions" p slot
      then add_revision document_id (revision_in (read_file_to_string disk p slot)) more
      else more

  unfoldable pub list_document_revisions :
      Disk → String → Store → Answer (List DocumentRevisionRecord)
  unfolding walk_revisions sort_found revision_before
  list_document_revisions disk document_id store =
      sort_found revision_before (found (walk_revisions disk document_id store))
