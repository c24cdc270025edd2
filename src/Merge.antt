-- ===== src/Merge.antt =====
-- gui/merge/conflict_merge_resolution.{h,cc}: a conflict between two versions of a page is resolved by
-- saving one snapshot over the current page. The document repository is the interface
-- `Repository`, as LocalDocumentRepository declares it, over a state `S`; the clock, the user's name
-- and Qt's text functions are parameters.
pub mod Outcomes
pub mod Progress
mod Tests
use cpp_wiki.Prelude.{
  String, Bool, true, false, Option, none, some, is_empty, ◌||◌, value_or, ◌+++◌, ℤ, pos, max_ℤ,
  suc_ℤ, if◌then◌else◌,
}
use cpp_wiki.Documents.{v1, wiki_page, Document, PageMetadata, BlockNoteDocumentSnapshot}
use cpp_wiki.Documents.Validator.{
  Reader, ValidationResult, parse_and_validate_snapshot, blank_metadata,
}

pub data MergeResolutionStatus : Type 0 where
  applied conflict_unavailable invalid_merged_snapshot save_failed resolve_failed :
      MergeResolutionStatus

pub record MergeResolutionResult : Type 0 where
  pub status : MergeResolutionStatus
  pub message : String

pub data ConflictResolutionSide : Type 0 where
  local remote : ConflictResolutionSide

pub record DocumentRecord (G : Type 0) : Type 0 where
  pub metadata : PageMetadata
  pub snapshot : BlockNoteDocumentSnapshot G
  pub raw_snapshot_json : String

pub record DocumentConflictRecord : Type 0 where
  pub id : String
  pub document_id : String
  pub workspace_id : String
  pub base_version : ℤ
  pub local_snapshot : String
  pub remote_snapshot : String
  pub local_updated_by : String
  pub remote_updated_by : String
  pub detected_at : String
  pub resolution_state : String

-- A part that was loaded, if any, and the message of an error, if any.
pub record Loaded (A : Type 0) : Type 0 where
  pub part : Option A
  pub error : Option String

-- What this code calls of LocalDocumentRepository. Loading leaves the state alone; a change gives the message of its error, if any.
pub record Repository (G S : Type 0) : Type 0 where
  pub load_document : String → S → Loaded (DocumentRecord G)
  pub save_document : DocumentRecord G → S → S × Option String
  pub load_conflict : String → S → Loaded DocumentConflictRecord
  pub resolve_conflict : String → S → S × Option String

abbrev pub answer : MergeResolutionStatus → String → MergeResolutionResult
answer status message = record { status = status; message = message }

-- `user` is the user's name in the environment, `trimmed` the given author, trimmed.
pub effective_author_id : String → String → String
effective_author_id user trimmed =
    if is_empty trimmed then (if is_empty user then "merge-editor" else user) else trimmed

normalized_conflict_author : String → String
normalized_conflict_author author = if is_empty author then "conflict-resolution" else author

-- A part is there and there was no error.
unfoldable pub usable : {A : Type 0} → Loaded A → Option A
usable loaded = elim loaded.error [ some e ↦ none | none ↦ loaded.part ]

filled_in : String → String → String
filled_in given text = if is_empty given then text else given

module _ {G : Type 0} where
  pub blank_record : DocumentRecord G
  blank_record = record {
    metadata = blank_metadata;
    snapshot = record { id = none; schema_version = none; title = none; blocks = none };
    raw_snapshot_json = "";
  }

  pub current_or_blank : Option (DocumentRecord G) → DocumentRecord G
  unfolding blank_record
  current_or_blank none = blank_record
  current_or_blank (some current) = current

  -- The record that is saved: the current page's, or a new one, with what the resolution sets.
  pub resolved_record :
      String
      → String
      → DocumentConflictRecord
      → Document
      → BlockNoteDocumentSnapshot G
      → String
      → DocumentRecord G
      → DocumentRecord G
  unfolding filled_in
  resolved_record now author conflict document snapshot raw current =
      let m = current.metadata in
      record {
        metadata = record m {
          id = conflict.document_id;
          workspace_id = conflict.workspace_id;
          title = document.metadata.title;
          schema_version = v1;
          updated_at = now;
          updated_by = author;
          created_at = filled_in m.created_at now;
          created_by = filled_in m.created_by author;
          content_version = suc_ℤ (max_ℤ (max_ℤ m.content_version (pos 1)) conflict.base_version);
        };
        snapshot = snapshot;
        raw_snapshot_json = raw;
      }

  -- The document and the snapshot of a validation without error.
  unfoldable pub accepted : ValidationResult G → Option (Document × BlockNoteDocumentSnapshot G)
  accepted validation = elim validation.error [
    | some e ↦ none
    | none ↦ elim validation.document [
      | none ↦ none
      | some document ↦ elim validation.snapshot [
        | none ↦ none
        | some snapshot ↦ some (document, snapshot)
      ]
    ]
  ]

pub snapshot_of : ConflictResolutionSide → DocumentConflictRecord → String
snapshot_of remote conflict = conflict.remote_snapshot
snapshot_of local conflict = conflict.local_snapshot

pub author_of : ConflictResolutionSide → DocumentConflictRecord → String
unfolding normalized_conflict_author
author_of remote conflict = normalized_conflict_author conflict.remote_updated_by
author_of local conflict = normalized_conflict_author conflict.local_updated_by

action_of : ConflictResolutionSide → String
action_of remote = "Use remote"
action_of local = "Use local"

applied_message_of : ConflictResolutionSide → String
applied_message_of remote = "Applied remote version and resolved conflict."
applied_message_of local = "Applied local version and resolved conflict."

-- The messages of one resolution.
pub record Messages : Type 0 where
  pub invalid_snapshot_message : String
  pub save_failed_prefix : String
  pub applied_message : String

module _ {G S : Type 0} (reader : Reader G) (repository : Repository G S) (now : String) where
  pub after_resolve : Messages → S × Option String → S × MergeResolutionResult
  after_resolve messages (s, some e) =
      (s, answer resolve_failed "Save succeeded, but conflict could not be resolved.")
  after_resolve messages (s, none) = (s, answer applied messages.applied_message)

  pub after_save : String → Messages → S × Option String → S × MergeResolutionResult
  unfolding after_resolve
  after_save conflict_id messages (s, some e) =
      (s, answer save_failed (messages.save_failed_prefix +++ ": " +++ e))
  after_save conflict_id messages (s, none) =
      after_resolve messages (repository.resolve_conflict conflict_id s)

  pub apply_accepted :
      String
      → DocumentConflictRecord
      → String
      → String
      → Messages
      → Option (Document × BlockNoteDocumentSnapshot G)
      → S
      → S × MergeResolutionResult
  unfolding after_save resolved_record current_or_blank usable
  apply_accepted conflict_id conflict author raw messages none s =
      (s, answer invalid_merged_snapshot messages.invalid_snapshot_message)
  apply_accepted conflict_id conflict author raw messages (some (document, snapshot)) s =
      let current = current_or_blank (usable (repository.load_document conflict.document_id s)) in
      after_save conflict_id messages (
        repository.save_document (resolved_record now author conflict document snapshot raw current)
          s)

  pub apply_conflict_snapshot_resolution :
      String → DocumentConflictRecord → String → String → Messages → S → S × MergeResolutionResult
  unfolding apply_accepted accepted
  apply_conflict_snapshot_resolution conflict_id conflict author snapshot_bytes messages s =
      let validation = parse_and_validate_snapshot reader snapshot_bytes wiki_page in
      apply_accepted conflict_id conflict author validation.raw_snapshot_json messages
        (accepted validation) s

  -- `trimmed` is the trimmed author, `user` the user's name in the environment, `merged_bytes` the
  -- compact JSON of the merged document.
  pub merge_found :
      String
      → String
      → String
      → String
      → Option DocumentConflictRecord
      → S
      → S × MergeResolutionResult
  unfolding apply_conflict_snapshot_resolution effective_author_id
  merge_found conflict_id user trimmed merged_bytes none s =
      (s, answer conflict_unavailable "Cannot save: conflict record is unavailable.")
  merge_found conflict_id user trimmed merged_bytes (some conflict) s =
      apply_conflict_snapshot_resolution conflict_id conflict (effective_author_id user trimmed)
        merged_bytes
        (record {
          invalid_snapshot_message = "Cannot save: merged snapshot is invalid.";
          save_failed_prefix = "Save failed";
          applied_message = "Merge saved and conflict resolved.";
        })
        s

  pub apply_merged_conflict_resolution :
      String → String → String → String → S → S × MergeResolutionResult
  unfolding merge_found usable
  apply_merged_conflict_resolution conflict_id user trimmed merged_bytes s =
      merge_found conflict_id user trimmed merged_bytes
        (usable (repository.load_conflict conflict_id s)) s

  pub side_found :
      String
      → ConflictResolutionSide
      → Option String
      → Option DocumentConflictRecord
      → S
      → S × MergeResolutionResult
  unfolding apply_conflict_snapshot_resolution snapshot_of author_of action_of applied_message_of
  side_found conflict_id side e none s = (
    s,
    answer conflict_unavailable ("Conflict load failed: " +++ value_or e "Conflict was not found."),
  )
  side_found conflict_id side e (some conflict) s =
      apply_conflict_snapshot_resolution conflict_id conflict (author_of side conflict)
        (snapshot_of side conflict)
        (record {
          invalid_snapshot_message =
              action_of side +++ " failed: Conflict snapshot could not be parsed.";
          save_failed_prefix = action_of side +++ " failed";
          applied_message = applied_message_of side;
        })
        s

  pub apply_conflict_side_resolution :
      String → ConflictResolutionSide → S → S × MergeResolutionResult
  unfolding side_found usable
  apply_conflict_side_resolution conflict_id side s =
      let loaded = repository.load_conflict conflict_id s in
      side_found conflict_id side loaded.error (usable loaded) s
