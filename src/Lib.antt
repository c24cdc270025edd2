-- ===== src/Lib.antt =====
-- CppWiki: a desktop wiki that works offline first. Pages are trees of blocks, written by an editor as
-- JSON snapshots, read by a validator, stored in files or in a database, and shared through a server
-- that leases document locks and reports who is present. Knowledge records (properties, relations,
-- agent runs, context packs) are attached to pages.
--
-- Modules and sources:
-- - Locks: src/server/service/lock_service.{h,cc}. A record of the map and the lease; Acquire,
--   Heartbeat, Release, ForceRelease, IsLocked and GetOwner are functions that also take the reading
--   of the steady clock. The mutex makes calls atomic, but the clock is read before it is taken, so
--   a history is a list of calls with readings in any order. Locks/Exclusion and Locks/Expiry have
--   the theorems. Locks/Handler: src/server/handlers/lock_handler.cc, the service's client, and
--   src/server/dto/lock_response.h.
-- - Presence: src/server/service/presence_service.{h,cc}. Here the clock is read under the mutex, so
--   the readings of a history do not fall. Presence/History compares answers with the history.
-- - Documents: src/document/document.h, block_note_snapshot.h; Documents/Kinds the keys of kinds.
--   Documents/Validator: src/document/document_validator.{h,cc}, one function for each check of a
--   block, the conversion of a block, of its children and of a list as a mutual recursion that hands
--   on the ids seen. Documents/Validator/Shape says what is well formed without the validator,
--   Conversion, Acceptance and Results connect the two.
-- - Knowledge: src/knowledge/knowledge_record.{h,cc}. Types, Knowledge/Validation and
--   Knowledge/RunValidation the validators in their order of tests; Knowledge/Checks has a rule for
--   each way to build a test, from which Properties, Relations, Runs and Lives derive what is accepted.
-- - Files: src/storage/file_document_repository.cc, lines 92 to 256. A write is a machine whose stages
--   are the system calls, driven by events (success, failure, a part of the text written); a crash is
--   a list of events that ends early. The closing of the temporary file may lose what is still in the
--   stream's buffer, which the code does not see. Putting a backup back may fail, and each operation
--   of a recovery may throw. Files/Crash and Files/Sweep have the theorems.
-- - Storage: src/storage/file_document_repository.cc, the repository of files. Storage itself has the
--   names of files, the state (a list of files with their siblings) and the reading, writing and
--   removal of one file; `Disk` says which file cannot be read, which operations of a write, of a
--   restoration and of a recovery fail, and which removal throws. Codes, Dtos,
--   ArtifactDtos and Documents are the fields of the JSON files; Json the parameter for reflect-cpp. Lists is the loop that every List of typed records makes;
--   Knowledge, Links, Conflicts, Pages, Removal, Blobs and Opening have the operations, one function
--   for each method of FileDocumentRepository::Impl. Slots, Orders and Pruning are lemmas on one file,
--   on sorting and on removals; Saving, Resolving, Keeping, Listing, Sound, Recording, Removing,
--   Deleting and Roundtrip have the theorems, Samples a way to write records that the tests use.
--   Merging makes it the repository that Merge uses, and has the laws that Merge relies on; Settling
--   resolves a conflict over it.
-- - Attachments: src/storage/attachment.{h,cc}.
-- - Packs: src/knowledge/context_pack_{composer,resolver,render}.cc, which use the validator of
--   Knowledge and the snapshots of Documents.
-- - Merge: src/gui/merge/conflict_merge_resolution.{h,cc}, a client of the validator and of the
--   repository interface of src/storage/local_document_repository.h.
-- - Gantt: src/gui/project_board/gantt/project_board_gantt_critical_path.{h,cc}. Gantt has the tasks, the
--   edges and the sorting, Gantt/Schedule the two passes and what is critical; doubles are a type with
--   operations (`Numbers`) and laws of their comparison (`NumberLaws`), which hold of all
--   doubles. Gantt/Loop, Gantt/Counters, Gantt/Order, Gantt/Passes and Gantt/Board have the theorems.
-- - Prelude: names of the libraries passed on, and what the modules share.
--
-- Choices: whole numbers of the source are unbounded (clock readings and leases natural, versions,
-- levels and sort orders signed integers); no theorem needs a width, and none speaks of overflow. All
-- recursion is structural. Fuel is used for printing numbers, where a number's own size is enough, and
-- for the while loop of the sorting of tasks, where their count is enough. Hash maps are
-- functions of the key, or lists of entries where they are iterated over.
-- Texts are strings of characters; the order of texts is that of their first different character.
--
-- A directory is walked in the order of the list of files; the sorting of a list is an insertion sort,
-- whose result is the only ordered one where no two records stand level.
--
-- Parameters: the JSON readers of reflect-cpp and Qt (`Reader`, and `Json` with the law `ReadsBack`),
-- TextFoundry (`Engine`), the parsing of floating-point numbers, the arithmetic of doubles, the
-- document repository where a client uses it (`Pages`, `Repository` with the laws `Stores`, which are
-- proved of the repository of files), the clock, and the name of the user.
--
-- Not modelled: exceptions while a directory is walked, the merge dialog's model, the Couchbase
-- Lite repository and replication, the other HTTP handlers and authorization, the Qt windows and
-- boards but for the critical path, and the editor's front end.
pub mod Attachments
pub mod Documents
pub mod Files
pub mod Gantt
pub mod Knowledge
pub mod Locks
pub mod Merge
pub mod Packs
pub mod Prelude
pub mod Presence
pub mod Storage
