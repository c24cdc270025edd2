-- ===== src/Storage/Blobs.antt =====
-- storage/file_document_repository.cc: the operations on attachments, each a file of metadata and a
-- file of bytes.
use cpp_wiki.Prelude.{
  String, Bool, true, false, not, ◌||◌, Option, none, some, List, [], ◌∷◌, ◌==◌, ℕ, eqb,
  if◌then◌else◌, ◌⊎◌, inl, inr,
}
use Prim.Native.String as NativeString
use cpp_wiki.Attachments.{AttachmentMetadata, AttachmentData, validate_attachment_metadata}
use cpp_wiki.Storage.{
  FilePath, Store, Disk, Answer, found, failed, RepositoryError, make_error, invalid_record,
  read_failed, write_failed, make_attachment_metadata_file_path, make_attachment_blob_file_path,
  write_file, slot_at, put_slot, without_target, file_exists, read_file_to_string,
}
use cpp_wiki.Storage.Documents.{FileAttachmentDto, to_attachment_dto, from_attachment_dto}
use cpp_wiki.Storage.Json.{Json}
use cpp_wiki.Storage.Lists.{is_listed}

-- `std::filesystem::remove` on the bytes after their metadata could not be written. An exception there
-- is answered with its own message, and the bytes stay.
unfoldable pub drop_blob : Option String → FilePath → Store → Store × Option RepositoryError
drop_blob (some message) p store = (store, some (make_error write_failed message))
drop_blob none p store = (
  put_slot p (without_target (slot_at p store)) store,
  some (make_error write_failed "Failed to write attachment metadata."),
)

unfoldable pub after_metadata : Disk → String → Store × Bool → Store × Option RepositoryError
unfolding drop_blob
after_metadata disk id (store, true) = (store, none)
after_metadata disk id (store, false) =
    let p = make_attachment_blob_file_path id in drop_blob (disk.remove_fault p) p store

-- After the bytes, the metadata is written.
unfoldable pub after_blob : Disk → String → String → Store × Bool → Store × Option RepositoryError
unfolding after_metadata write_file
after_blob disk id metadata (store, false) =
    (store, some (make_error write_failed "Failed to write attachment bytes."))
after_blob disk id metadata (store, true) =
    after_metadata disk id (write_file disk (make_attachment_metadata_file_path id) metadata store)

-- How many bytes a text has of which each character is a byte.
unfoldable pub byte_count : String → ℕ
byte_count bytes = NativeString.count bytes

unfoldable pub checked_bytes : Option String → AttachmentMetadata → String → Answer AttachmentData
unfolding byte_count
checked_bytes (some message) metadata bytes = failed (make_error invalid_record message)
checked_bytes none metadata bytes =
    if not (eqb metadata.size_bytes (byte_count bytes))
    then failed (make_error invalid_record "Attachment metadata size does not match stored bytes.")
    else found (record { metadata = metadata; bytes = bytes })

unfoldable pub checked_attachment :
    String → String → String ⊎ FileAttachmentDto → String → Answer AttachmentData
unfolding checked_bytes from_attachment_dto
checked_attachment id workspace_id (inl message) bytes =
    failed (make_error invalid_record "Attachment metadata is invalid.")
checked_attachment id workspace_id (inr dto) bytes =
    let metadata = from_attachment_dto dto in
    if not (metadata.id == id) || not (metadata.workspace_id == workspace_id)
    then failed (make_error read_failed "Attachment not found.")
    else checked_bytes (validate_attachment_metadata metadata) metadata bytes

unfoldable pub add_attachment :
    Answer AttachmentData → List AttachmentMetadata → List AttachmentMetadata
add_attachment (found attachment) more = attachment.metadata ∷ more
add_attachment (failed e) more = more

module _ (json : Json) where
  unfoldable pub save_new_attachment :
      Disk → AttachmentData → Store → Store × Option RepositoryError
  unfolding after_blob write_file file_exists to_attachment_dto
  save_new_attachment disk attachment store =
      let id = attachment.metadata.id in
      if file_exists (make_attachment_metadata_file_path id) store
        || file_exists (make_attachment_blob_file_path id) store
      then (store, some (make_error write_failed "Attachment already exists."))
      else after_blob disk id (json.attachment.write (to_attachment_dto attachment.metadata))
          (write_file disk (make_attachment_blob_file_path id) attachment.bytes store)

  unfoldable pub save_validated_attachment :
      Option String → Disk → AttachmentData → Store → Store × Option RepositoryError
  unfolding save_new_attachment byte_count
  save_validated_attachment (some message) disk attachment store =
      (store, some (make_error invalid_record message))
  save_validated_attachment none disk attachment store =
      if not (eqb attachment.metadata.size_bytes (byte_count attachment.bytes))
      then (
        store,
        some
            (make_error invalid_record "Attachment metadata size does not match its byte payload."),
      )
      else save_new_attachment disk attachment store

  unfoldable pub save_attachment : Disk → AttachmentData → Store → Store × Option RepositoryError
  unfolding save_validated_attachment
  save_attachment disk attachment store =
      save_validated_attachment (validate_attachment_metadata attachment.metadata) disk attachment
        store

  unfoldable pub read_attachment :
      String → String → Option String → Option String → Answer AttachmentData
  unfolding checked_attachment
  read_attachment id workspace_id (some metadata) (some bytes) =
      checked_attachment id workspace_id (json.attachment.read metadata) bytes
  read_attachment id workspace_id _ _ = failed (make_error read_failed "Attachment not found.")

  unfoldable pub load_attachment : Disk → String → String → Store → Answer AttachmentData
  unfolding read_attachment read_file_to_string slot_at
  load_attachment disk id workspace_id store =
      let metadata_path = make_attachment_metadata_file_path id in
      let blob_path = make_attachment_blob_file_path id in
      read_attachment id workspace_id
        (read_file_to_string disk metadata_path (slot_at metadata_path store))
        (read_file_to_string disk blob_path (slot_at blob_path store))

  -- `all` is the storage as it is, the last argument what is left of its walk.
  unfoldable pub walk_attachments : Disk → String → Store → Store → List AttachmentMetadata
  unfolding add_attachment load_attachment is_listed
  walk_attachments disk workspace_id all [] = []
  walk_attachments disk workspace_id all ((p, slot) ∷ store) =
      let more = walk_attachments disk workspace_id all store in
      if is_listed "attachments" p slot
      then add_attachment (load_attachment disk p.stem workspace_id all) more
      else more

  unfoldable pub list_attachments : Disk → String → Store → List AttachmentMetadata
  unfolding walk_attachments
  list_attachments disk workspace_id store = walk_attachments disk workspace_id store store
