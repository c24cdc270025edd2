-- ===== src/Storage/Keeping.antt =====
-- An attachment that was saved can be loaded in its workspace, and is never written again.
use cpp_wiki.Prelude.{
  ◌≡◌, ◌≢◌, inr, refl, ap, ◌∙◌, String, Bool, true, false, Option, none, some, arith, eq_iff,
  eq_refl, eqb, is_some, if◌then◌else◌,
}
use cpp_wiki.Files.Crash.{only}
use cpp_wiki.Attachments.{AttachmentData, validate_attachment_metadata}
use cpp_wiki.Storage.{
  FilePath, Store, Disk, found, failed, RepositoryError, same_path, slot_at, file_exists,
  read_file_to_string, make_attachment_metadata_file_path, make_attachment_blob_file_path,
  make_error, read_failed, write_file,
}
use cpp_wiki.Storage.Slots.{write_file-Wrote}
use cpp_wiki.Storage.Json.{Json, ReadsBack}
use cpp_wiki.Storage.Documents.{to_attachment_dto, from_attachment_dto}
use cpp_wiki.Storage.Blobs.{
  drop_blob, after_metadata, after_blob, byte_count, save_new_attachment, save_validated_attachment,
  save_attachment, checked_bytes, checked_attachment, read_attachment, load_attachment,
}

-- A guard that ends in an error was passed where there is none.
passed :
    (b : Bool) (store : Store) (e : RepositoryError) (go : Store × Option RepositoryError)
    → (if b then (store, some e) else go).1 ≡ none
    → (b ≡ false) × (go.1 ≡ none) × ((if b then (store, some e) else go) ≡ go)
passed true store e go h = cc
passed false store e go h = (refl, h, refl)

drop_blob_fails :
    {A : Type 0} (fault : Option String) (p : FilePath) (store : Store)
    → (drop_blob fault p store).1 ≡ none
    → A
unfolding drop_blob
drop_blob_fails (some m) p store h = cc
drop_blob_fails none p store h = cc

after_metadata_success :
    (disk : Disk) (id : String) (store : Store) (success : Bool)
    → (after_metadata disk id (store, success)).1 ≡ none
    → (success ≡ true) × ((after_metadata disk id (store, success)).0 ≡ store)
unfolding after_metadata
after_metadata_success disk id store true h = (refl, refl)
after_metadata_success disk id store false h =
    drop_blob_fails (disk.remove_fault (make_attachment_blob_file_path id)) _ store h

after_blob_success :
    (disk : Disk) (id metadata : String) (store : Store) (success : Bool)
    → (after_blob disk id metadata (store, success)).1 ≡ none
    → let next = write_file disk (make_attachment_metadata_file_path id) metadata store in
      (success ≡ true)
      × (next.1 ≡ true)
      × ((after_blob disk id metadata (store, success)).0 ≡ next.0)
unfolding after_blob
after_blob_success disk id metadata store true h =
    let next = write_file disk (make_attachment_metadata_file_path id) metadata store in
    let done = after_metadata_success disk id next.0 next.1 h in (refl, done.0, done.1)
after_blob_success disk id metadata store false h = cc

module _ (json : Json) where
  abbrev blob_written : Disk → AttachmentData → Store → Store × Bool
  blob_written disk a store =
      write_file disk (make_attachment_blob_file_path a.metadata.id) a.bytes store

  abbrev metadata_written : Disk → AttachmentData → Store → Store × Bool
  metadata_written disk a store =
      write_file disk (make_attachment_metadata_file_path a.metadata.id)
        (json.attachment.write (to_attachment_dto a.metadata)) (blob_written disk a store).0

  -- What a save without error has passed and done.
  abbrev WasSaved : Disk → AttachmentData → Store → Store → Type 0
  WasSaved disk a store after =
      (validate_attachment_metadata a.metadata ≡ none)
      × (eqb a.metadata.size_bytes (byte_count a.bytes) ≡ true)
      × ((blob_written disk a store).1 ≡ true)
      × ((metadata_written disk a store).1 ≡ true)
      × (after ≡ (metadata_written disk a store).0)

  new_success :
      (disk : Disk) (a : AttachmentData) (store : Store)
      → (save_new_attachment json disk a store).1 ≡ none
      → ((blob_written disk a store).1 ≡ true)
        × ((metadata_written disk a store).1 ≡ true)
        × ((save_new_attachment json disk a store).0 ≡ (metadata_written disk a store).0)
  unfolding save_new_attachment
  new_success disk a store h =
      let (free, ok, same) = passed _ store _ _ h in
      let blob = blob_written disk a store in
      let (first, second, after) =
        after_blob_success disk a.metadata.id (json.attachment.write (to_attachment_dto a.metadata))
          blob.0 blob.1 ok in
      (first, second, ap (λ r. r.0) same ∙ after)

  validated_success :
      (o : Option String) (disk : Disk) (a : AttachmentData) (store : Store)
      → validate_attachment_metadata a.metadata ≡ o
      → (save_validated_attachment json o disk a store).1 ≡ none
      → WasSaved disk a store (save_validated_attachment json o disk a store).0
  unfolding save_validated_attachment
  validated_success (some m) disk a store v h = cc
  validated_success none disk a store v h =
      let (size, ok, same) = passed _ store _ _ h in
      let (first, second, after) = new_success disk a store ok in
      (v, ground arith, first, second, ap (λ r. r.0) same ∙ after)

  -- Nothing is written where the metadata are there already.
  abbrev Refused : Store → Store × Option RepositoryError → Type 0
  Refused store (after, e) = (after ≡ store) × (is_some e ≡ true)

  either-Refused :
      (b : Bool) (store : Store) (e f : RepositoryError)
      → Refused store (if b then (store, some e) else (store, some f))
  either-Refused true store e f = (refl, refl)
  either-Refused false store e f = (refl, refl)

  existing-Refused :
      (o : Option String) (disk : Disk) (a : AttachmentData) (store : Store)
      → file_exists (make_attachment_metadata_file_path a.metadata.id) store ≡ true
      → Refused store (save_validated_attachment json o disk a store)
  unfolding save_validated_attachment save_new_attachment
  existing-Refused (some m) disk a store h = (refl, refl)
  existing-Refused none disk a store h = rw h (either-Refused _ store _ _)

  other_file :
      (id : String)
      → same_path (make_attachment_blob_file_path id) (make_attachment_metadata_file_path id)
        ≡ false
  unfolding same_path make_attachment_blob_file_path make_attachment_metadata_file_path
  other_file id = ground (arith, eq_refl id)

  other_way :
      (id : String)
      → same_path (make_attachment_metadata_file_path id) (make_attachment_blob_file_path id)
        ≡ false
  unfolding same_path make_attachment_blob_file_path make_attachment_metadata_file_path
  other_way id = ground (arith, eq_refl id)

  load_both :
      (disk : Disk) (a : AttachmentData) (workspace_id : String) (after : Store)
      → slot_at (make_attachment_metadata_file_path a.metadata.id) after
        ≡ only (json.attachment.write (to_attachment_dto a.metadata))
      → slot_at (make_attachment_blob_file_path a.metadata.id) after ≡ only a.bytes
      → disk.unreadable (make_attachment_metadata_file_path a.metadata.id) ≡ false
      → disk.unreadable (make_attachment_blob_file_path a.metadata.id) ≡ false
      → load_attachment json disk a.metadata.id workspace_id after
        ≡ checked_attachment a.metadata.id workspace_id
            (json.attachment.read (json.attachment.write (to_attachment_dto a.metadata)))
            a.bytes
  unfolding load_attachment read_attachment read_file_to_string
  load_both disk a workspace_id after m b rm rb = rw (m, b, rm, rb) refl

  checked_own :
      (a : AttachmentData)
      → validate_attachment_metadata a.metadata ≡ none
      → eqb a.metadata.size_bytes (byte_count a.bytes) ≡ true
      → ((workspace_id : String)
          → workspace_id ≢ a.metadata.workspace_id
          → checked_attachment a.metadata.id workspace_id
              (inr (to_attachment_dto a.metadata))
              a.bytes
            ≡ failed (make_error read_failed "Attachment not found."))
        × (checked_attachment a.metadata.id a.metadata.workspace_id
              (inr (to_attachment_dto a.metadata))
              a.bytes
            ≡ found a)
  unfolding checked_attachment checked_bytes to_attachment_dto from_attachment_dto
  checked_own a v size = (
    λ w ne. rw (eq_refl a.metadata.id) (ground (arith, eq_iff a.metadata.workspace_id w)),
    rw (eq_refl a.metadata.id, eq_refl a.metadata.workspace_id, v, size) refl,
  )

  -- What the attachment `a` loads as, and what a later save under its id does.
  abbrev pub IsKept : Disk → AttachmentData → Store → Type 0
  IsKept disk a store =
      (load_attachment json disk a.metadata.id a.metadata.workspace_id store ≡ found a)
      × ((workspace_id : String)
          → workspace_id ≢ a.metadata.workspace_id
          → load_attachment json disk a.metadata.id workspace_id store
            ≡ failed (make_error read_failed "Attachment not found."))
      × ((later : Disk) (b : AttachmentData)
          → b.metadata.id ≡ a.metadata.id
          → ((save_attachment json later b store).0 ≡ store)
            × (is_some (save_attachment json later b store).1 ≡ true))

  kept :
      ReadsBack json.attachment
      → (disk : Disk) (a : AttachmentData) (after : Store)
      → slot_at (make_attachment_metadata_file_path a.metadata.id) after
        ≡ only (json.attachment.write (to_attachment_dto a.metadata))
      → slot_at (make_attachment_blob_file_path a.metadata.id) after ≡ only a.bytes
      → disk.unreadable (make_attachment_metadata_file_path a.metadata.id) ≡ false
      → disk.unreadable (make_attachment_blob_file_path a.metadata.id) ≡ false
      → validate_attachment_metadata a.metadata ≡ none
      → eqb a.metadata.size_bytes (byte_count a.bytes) ≡ true
      → IsKept disk a after
  unfolding save_attachment file_exists
  kept law disk a after m b rm rb v size =
      let own = checked_own a v size in
      (
        rw
            (
              load_both disk a a.metadata.workspace_id after m b rm rb,
              law (to_attachment_dto a.metadata),
            )
            own.1,
        λ w ne.
            rw (load_both disk a w after m b rm rb, law (to_attachment_dto a.metadata))
              (own.0 w ne),
        λ later c same.
            existing-Refused (validate_attachment_metadata c.metadata) later c after
              (rw (same, m) refl),
      )

  -- The storage reads back what it writes, and the two files of the attachment have no backup and can be
  -- read, and the closing of their temporary files loses nothing. After a save without error the attachment loads in its own workspace as it was saved, in
  -- any other workspace it is not found, and whatever is saved later under its id is refused and
  -- changes nothing.
  pub save_attachment-IsKept :
      ReadsBack json.attachment
      → (disk : Disk) (a : AttachmentData) (store : Store)
      → (slot_at (make_attachment_metadata_file_path a.metadata.id) store).backup ≡ none
      → (slot_at (make_attachment_blob_file_path a.metadata.id) store).backup ≡ none
      → disk.unreadable (make_attachment_metadata_file_path a.metadata.id) ≡ false
      → disk.unreadable (make_attachment_blob_file_path a.metadata.id) ≡ false
      → (disk.write_faults (make_attachment_metadata_file_path a.metadata.id)).close_fails ≡ false
      → (disk.write_faults (make_attachment_blob_file_path a.metadata.id)).close_fails ≡ false
      → (save_attachment json disk a store).1 ≡ none
      → IsKept disk a (save_attachment json disk a store).0
  unfolding save_attachment
  save_attachment-IsKept law disk a store clean_m clean_b rm rb wm wb ok =
      let mp = make_attachment_metadata_file_path a.metadata.id in
      let bp = make_attachment_blob_file_path a.metadata.id in
      let (v, size, blob_ok, metadata_ok, done) =
        validated_success (validate_attachment_metadata a.metadata) disk a store refl ok in
      let (blob_others, blob_done) = write_file-Wrote disk bp a.bytes store clean_b wb in
      let text = json.attachment.write (to_attachment_dto a.metadata) in
      let middle = (blob_written disk a store).0 in
      let (others, metadata_done) =
        write_file-Wrote disk mp text middle (rw (blob_others mp (other_way a.metadata.id)) clean_m)
          wm in
      rw done (
        kept law disk a (metadata_written disk a store).0 (metadata_done metadata_ok)
          (others bp (other_file a.metadata.id) ∙ blob_done blob_ok) rm rb v size)
