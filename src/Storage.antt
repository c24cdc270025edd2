-- ===== src/Storage.antt =====
-- storage/file_document_repository.cc: the repository that keeps each record in a JSON file of its own.
-- This file has the names of the files, the state of the storage directory, and the reading,
-- writing and removal of one file. A text's characters are its bytes.
-- A file is a `Slot` of the module Files: its content with its siblings `.tmp` and `.backup`. What
-- the disk does during a call is given by `Disk`; a call that a crash cuts short is the matter of the
-- module Files. An exception that is thrown while a directory is walked is left out.
pub mod Codes
pub mod Dtos
pub mod Documents
pub mod ArtifactDtos
pub mod Json
pub mod Roundtrip
pub mod Lists
pub mod Slots
pub mod Orders
pub mod Listing
mod Samples
mod Tests
mod MergingTests
pub mod Opening
pub mod Recording
pub mod Sound
pub mod Deleting
pub mod Removing
pub mod Pruning
pub mod Saving
pub mod Keeping
pub mod Resolving
pub mod Merging
pub mod Settling
pub mod Knowledge
pub mod Links
pub mod Conflicts
pub mod Pages
pub mod Removal
pub mod Blobs
use Prim.Native.Char.{Char, char, code}
use Prim.Native.String as NativeString
use cpp_wiki.Prelude.{
  ℕ, String, Bool, true, false, ◌&&◌, ◌||◌, Option, none, some, List, [], ◌∷◌, ◌==◌, ◌+++◌, leb,
  eqb, if◌then◌else◌, is_some,
}
use cpp_wiki.Files.{
  Slot, Stage, opening, filling, backing_up, swapping, cleaning, returned, Event, succeeds, fails,
  fills, write_file_atomically, restore_from_backup,
}

-- `std::isalnum` in the "C" locale.
unfoldable pub is_alnum : Char → Bool
is_alnum c =
    leb 48 (code c) && leb (code c) 57
    || leb 65 (code c) && leb (code c) 90
    || leb 97 (code c) && leb (code c) 122

-- A letter, a digit, a dash (45) or an underscore (95).
unfoldable pub is_kept : Char → Bool
unfolding is_alnum
is_kept c = is_alnum c || eqb (code c) 45 || eqb (code c) 95

unfoldable pub underscore : Char
underscore = char 95 tt

unfoldable pub sanitized : String → String
unfolding is_kept underscore
sanitized NativeString.[] = ""
sanitized (NativeString.◌∷◌ c s) =
    NativeString.◌∷◌ (if is_kept c then c else underscore) (sanitized s)

-- A file `stem` + `extension` in a directory below the storage directory.
pub record FilePath : Type 0 where
  pub directory : String
  pub stem : String
  pub extension : String

abbrev pub json_file : String → String → FilePath
json_file directory stem = record { directory = directory; stem = stem; extension = ".json" }

unfoldable pub make_page_file_path : String → FilePath
unfolding sanitized
make_page_file_path page_id = json_file "pages" (sanitized page_id)

unfoldable pub make_conflict_file_path : String → FilePath
unfolding sanitized
make_conflict_file_path conflict_id = json_file "conflicts" (sanitized conflict_id)

unfoldable pub make_revision_file_path : String → FilePath
unfolding sanitized
make_revision_file_path revision_id = json_file "revisions" (sanitized revision_id)

unfoldable pub make_knowledge_file_path : String → String → FilePath
unfolding sanitized
make_knowledge_file_path directory record_id = json_file directory (sanitized record_id)

-- The ids of attachments are not changed; their validation forbids a path separator.
unfoldable pub make_attachment_metadata_file_path : String → FilePath
make_attachment_metadata_file_path attachment_id = json_file "attachments" attachment_id

unfoldable pub make_attachment_blob_file_path : String → FilePath
make_attachment_blob_file_path attachment_id = record {
  directory = "attachments";
  stem = attachment_id;
  extension = ".blob";
}

pub data RepositoryErrorCode : Type 0 where
  open_failed read_failed write_failed delete_failed invalid_record unsupported :
      RepositoryErrorCode

pub record RepositoryError : Type 0 where
  pub code : RepositoryErrorCode
  pub message : String

abbrev pub make_error : RepositoryErrorCode → String → RepositoryError
make_error code message = record { code = code; message = message }

-- The result of a load or a list: what was asked for, or the error.
pub data Answer (A : Type 0) : Type 0 where
  found : A → Answer A
  failed : RepositoryError → Answer A

-- Which operations of a WriteFileAtomically fail, and what has reached the temporary file when it is
-- closed. Whether the closing fails matters only for the text in the file: the code does not see it.
pub record WriteFaults : Type 0 where
  pub open_fails : Bool
  pub fill_fails : Bool
  pub discard_fails : Bool
  pub close_fails : Bool
  pub reached : String
  pub backup_fails : Bool
  pub swap_fails : Bool
  pub clean_fails : Bool

abbrev pub no_faults : WriteFaults
no_faults = record {
  open_fails = false;
  fill_fails = false;
  discard_fails = false;
  close_fails = false;
  reached = "";
  backup_fails = false;
  swap_fails = false;
  clean_fails = false;
}

-- What the disk does during a call: the files that cannot be read, what fails when a file is written,
-- whether putting its backup back fails, the exception of its removal, if any, and which operation of
-- its recovery throws, if any, in the first and in the second call for it.
pub record Disk : Type 0 where
  pub unreadable : FilePath → Bool
  pub write_faults : FilePath → WriteFaults
  pub restore_fails : FilePath → Bool
  pub remove_fault : FilePath → Option String
  pub repair_faults : FilePath → Option ℕ × Option ℕ

-- The files, in the order in which their directories are walked.
abbrev pub Store : Type 0
Store = List (FilePath × Slot)

unfoldable pub same_path : FilePath → FilePath → Bool
same_path p q = p.directory == q.directory && p.stem == q.stem && p.extension == q.extension

abbrev pub no_file : Slot
no_file = record { target = none; temp = none; backup = none }

unfoldable pub slot_at : FilePath → Store → Slot
unfolding same_path
slot_at p [] = no_file
slot_at p ((q, slot) ∷ store) = if same_path p q then slot else slot_at p store

unfoldable pub put_slot : FilePath → Slot → Store → Store
unfolding same_path
put_slot p new [] = (p, new) ∷ []
put_slot p new ((q, slot) ∷ store) =
    let rest = put_slot p new store in if same_path p q then (q, new) ∷ store else (q, slot) ∷ rest

-- `std::filesystem::exists`
unfoldable pub file_exists : FilePath → Store → Bool
unfolding slot_at
file_exists p store = is_some (slot_at p store).target

outcome : Bool → Event
outcome true = fails
outcome false = succeeds

-- The events of a write.
unfoldable pub events_of : WriteFaults → List Event
unfolding outcome
events_of f =
    if f.open_fails
    then fails ∷ []
    else if f.fill_fails
    then succeeds ∷ fills f.reached ∷ fails ∷ outcome f.discard_fails ∷ []
    else succeeds
      ∷ succeeds
      ∷ fills f.reached
      ∷ outcome f.close_fails
      ∷ (if f.backup_fails
          then fails ∷ []
          else succeeds
            ∷ (if f.swap_fails then fails ∷ [] else succeeds ∷ outcome f.clean_fails ∷ []))

unfoldable pub has_succeeded : Stage → Bool
has_succeeded (returned b) = b
has_succeeded _ = false

unfoldable pub write_slot : WriteFaults → String → Slot → Slot × Bool
unfolding events_of has_succeeded
write_slot faults content slot =
    let (stage, slot') = write_file_atomically (events_of faults) content slot in
    (slot', has_succeeded stage)

unfoldable pub write_file : Disk → FilePath → String → Store → Store × Bool
unfolding write_slot slot_at put_slot
write_file disk p content store =
    let (slot, success) = write_slot (disk.write_faults p) content (slot_at p store) in
    (put_slot p slot store, success)

unfoldable pub restore_file : Disk → FilePath → Store → Store
unfolding slot_at put_slot
restore_file disk p store =
    put_slot p (restore_from_backup (disk.restore_fails p) (slot_at p store)).0 store

unfoldable pub after_write :
    Disk → FilePath → String → Store × Bool → Store × Option RepositoryError
unfolding restore_file
after_write disk p message (store, true) = (store, none)
after_write disk p message (store, false) =
    (restore_file disk p store, some (make_error write_failed message))

-- Every record but an attachment is written this way; `message` is the error's.
unfoldable pub save_file :
    Disk → FilePath → String → String → Store → Store × Option RepositoryError
unfolding write_file after_write
save_file disk p content message store =
    after_write disk p message (write_file disk p content store)

abbrev pub without_target : Slot → Slot
without_target slot = record { target = none; temp = slot.temp; backup = slot.backup }

-- Removing a file: whether it is there, and the exception of its removal. Removing a file that is
-- not there is no error.
unfoldable pub removed : Bool → Option String → FilePath → Store → Store × Option RepositoryError
unfolding slot_at put_slot
removed false fault p store = (store, none)
removed true (some message) p store = (store, some (make_error delete_failed message))
removed true none p store = (put_slot p (without_target (slot_at p store)) store, none)

unfoldable pub remove_file : Disk → FilePath → Store → Store × Option RepositoryError
unfolding removed file_exists
remove_file disk p store = removed (file_exists p store) (disk.remove_fault p) p store

unfoldable pub read_file_to_string : Disk → FilePath → Slot → Option String
read_file_to_string disk p slot = if disk.unreadable p then none else slot.target
