-- ===== src/Storage/Settling.antt =====
-- A conflict that is resolved over the repository of files.
use cpp_wiki.Prelude.{◌≡◌, refl, ap, sym, ◌∙◌, String, false, none, ◌<ℤ◌}
use cpp_wiki.Documents.{wiki_page}
use cpp_wiki.Documents.Validator.{Reader, parse_and_validate_snapshot}
use cpp_wiki.Merge.{
  applied, MergeResolutionResult, ConflictResolutionSide, DocumentRecord, DocumentConflictRecord,
  snapshot_of, apply_merged_conflict_resolution, apply_conflict_side_resolution,
}
use cpp_wiki.Merge.Outcomes.{Resolves, is_saved, resolution_saves}
use cpp_wiki.Merge.Progress.{IsAccepted, Succeeds, Applies, resolution-Applies}
use cpp_wiki.Storage.{
  Store, Disk, found, no_faults, slot_at, make_page_file_path, make_conflict_file_path,
}
use cpp_wiki.Storage.Slots.{save_file-Others, save_file_works}
use cpp_wiki.Storage.Json.{Json, ReadsBack}
use cpp_wiki.Storage.Pages.{save_document, load_document}
use cpp_wiki.Storage.Conflicts.{load_conflict, save_conflict, resolve_conflict}
use cpp_wiki.Storage.Saving.{load_conflict_same, load_conflict-target, page_and_conflict}
use cpp_wiki.Storage.Resolving.{loaded_id, save_state-found, resolve_dismiss_outcome}
use cpp_wiki.Storage.Merging.{
  file_repository, file_stores, IsClean, message_of, usable_found, found_usable,
}

module _ (G : Type 0) (json : Json) (disk : Disk) where
  -- The writes of the page and of the conflict meet no fault, neither file has a backup, and that of the
  -- page can be read, and a backup of it put back.
  abbrev pub IsHealthy : String → String → Store → Type 0
  IsHealthy conflict_id page store =
      (disk.write_faults (make_page_file_path page) ≡ no_faults)
      × (disk.write_faults (make_conflict_file_path conflict_id) ≡ no_faults)
      × (disk.unreadable (make_page_file_path page) ≡ false)
      × (disk.restore_fails (make_page_file_path page) ≡ false)
      × ((slot_at (make_page_file_path page) store).backup ≡ none)
      × ((slot_at (make_conflict_file_path conflict_id) store).backup ≡ none)

  -- A save of the page leaves the file of the conflict as it was.
  conflict_stays :
      (conflict_id : String) (d : DocumentRecord G) (store : Store)
      → slot_at (make_conflict_file_path conflict_id) (save_document G json disk d store).0
        ≡ slot_at (make_conflict_file_path conflict_id) store
  unfolding save_document
  conflict_stays conflict_id d store =
      save_file-Others disk (make_page_file_path d.metadata.id) _ _ store
        (make_conflict_file_path conflict_id)
        (page_and_conflict G json disk d.metadata.id conflict_id)

  same_conflict :
      (conflict_id : String) (d : DocumentRecord G) (store : Store)
      → load_conflict json disk conflict_id (save_document G json disk d store).0
        ≡ load_conflict json disk conflict_id store
  same_conflict conflict_id d store =
      load_conflict_same G json disk conflict_id _ store
        (ap (λ s. s.target) (conflict_stays conflict_id d store))

  page_saves :
      (d : DocumentRecord G) (store : Store)
      → disk.write_faults (make_page_file_path d.metadata.id) ≡ no_faults
      → (save_document G json disk d store).1 ≡ none
  unfolding save_document
  page_saves d store h = save_file_works disk (make_page_file_path d.metadata.id) _ _ store h

  conflict_saves :
      (c : DocumentConflictRecord) (store : Store)
      → disk.write_faults (make_conflict_file_path c.id) ≡ no_faults
      → (save_conflict json disk c store).1 ≡ none
  unfolding save_conflict
  conflict_saves c store h = save_file_works disk (make_conflict_file_path c.id) _ _ store h

  marking_works :
      (conflict_id : String) (c : DocumentConflictRecord) (store : Store)
      → load_conflict json disk conflict_id store ≡ found c
      → disk.write_faults (make_conflict_file_path conflict_id) ≡ no_faults
      → (resolve_conflict json disk conflict_id store).1 ≡ none
  unfolding resolve_conflict
  marking_works conflict_id c store h works =
      let target = (slot_at (make_conflict_file_path conflict_id) store).target in
      let same =
        loaded_id G json disk conflict_id target c
          (sym (load_conflict-target G json disk conflict_id store) ∙ h) in
      rw (save_state-found G json disk "resolved" conflict_id store c h) (
        conflict_saves (record c { resolution_state = "resolved" }) store
          (ap (λ i. disk.write_faults (make_conflict_file_path i)) same ∙ works))

  module _ (document_law : ReadsBack json.document) (conflict_law : ReadsBack json.conflict)
      (reader : Reader G) (now : String) where
    -- Applied: the conflict loads as resolved, and its page with the text that was chosen, in a version
    -- above the base of the conflict.
    abbrev pub Settles :
        String → DocumentConflictRecord → String → Store × MergeResolutionResult → Type 0
    Settles conflict_id conflict text after =
        (after.1.status ≡ applied)
        × (load_conflict json disk conflict_id after.0
            ≡ found (record conflict { resolution_state = "resolved" }))
        × ((d : DocumentRecord G) × (load_document G json disk conflict.document_id after.0
              ≡ found d)
            × (d.raw_snapshot_json
                ≡ (parse_and_validate_snapshot reader text wiki_page).raw_snapshot_json)
            × (conflict.base_version <ℤ d.metadata.content_version))

    settled :
        (conflict_id text : String) (conflict : DocumentConflictRecord) (store : Store)
        (after : Store × MergeResolutionResult)
        → load_conflict json disk conflict_id store ≡ found conflict
        → IsHealthy conflict_id conflict.document_id store
        → Applies reader
            (file_repository G json disk)
            now
            conflict_id
            conflict.document_id
            store
            after
        → Resolves reader
            (file_repository G json disk)
            (file_stores G json disk document_law)
            now
            conflict
            text
            store
            after
        → Settles conflict_id conflict text after
    unfolding is_saved
    settled conflict_id text conflict store after available healthy (status, (d, same, left))
          (saves, _, _) =
        let middle = (save_document G json disk d store).0 in
        let there = same_conflict conflict_id d store ∙ available in
        let clean = ap (λ s. s.backup) (conflict_stays conflict_id d store) ∙ healthy.5 in
        let (resolves, _) =
          resolve_dismiss_outcome G json disk conflict_law conflict_id middle clean in
        let (others, pages, marked) = resolves.1 conflict there in
        let (page, loads, id, raw, above, _) = saves (rw status refl) in
        (
          status,
          rw left (
              marked (marking_works conflict_id conflict middle there healthy.1)
                (ap (λ f. f.close_fails) healthy.1)),
          (page, usable_found _ _ loads, raw, above),
        )

    -- The storage reads back what it writes, the conflict loads, the text that is chosen is accepted by
    -- the validator, the writes of the page's and of the conflict's file meet no fault, neither file has
    -- a backup, and the page's can be read, and a backup of it put back. Then, over the repository of files, each way to
    -- resolve the conflict is applied: the conflict loads as resolved, and its page with the text that
    -- was chosen, in a version above the base of the conflict.
    pub file_resolution-Settles :
        (conflict_id user trimmed merged_bytes : String) (side : ConflictResolutionSide)
        (conflict : DocumentConflictRecord) (store : Store)
        → load_conflict json disk conflict_id store ≡ found conflict
        → IsHealthy conflict_id conflict.document_id store
        → IsAccepted reader (file_repository G json disk) now merged_bytes
        → IsAccepted reader (file_repository G json disk) now (snapshot_of side conflict)
        → Settles conflict_id conflict merged_bytes (
            apply_merged_conflict_resolution reader
              (file_repository G json disk)
              now
              conflict_id
              user
              trimmed
              merged_bytes
              store)
          × Settles conflict_id conflict (snapshot_of side conflict) (
              apply_conflict_side_resolution reader
                (file_repository G json disk)
                now
                conflict_id
                side
                store)
    file_resolution-Settles conflict_id user trimmed merged_bytes side conflict store available
          healthy merged sided =
        let usable_one = found_usable _ _ available in
        let page = make_page_file_path conflict.document_id in
        let works : Succeeds reader (file_repository G json disk) now conflict_id
            conflict.document_id store =
          λ d same. (
            ap message_of (
                page_saves d store
                  (ap (λ i. disk.write_faults (make_page_file_path i)) same ∙ healthy.0)),
            ap message_of (
                marking_works conflict_id conflict (save_document G json disk d store).0
                  (same_conflict conflict_id d store ∙ available) healthy.1),
          ) in
        let (merges, sides) =
          resolution-Applies reader (file_repository G json disk) now conflict_id user trimmed
            merged_bytes side conflict store usable_one merged sided works in
        let merged_after =
          apply_merged_conflict_resolution reader (file_repository G json disk) now conflict_id user
            trimmed merged_bytes store in
        let sided_after =
          apply_conflict_side_resolution reader (file_repository G json disk) now conflict_id side
            store in
        let ready : IsClean G json disk conflict.document_id store =
          (healthy.4, healthy.2, ap (λ f. f.close_fails) healthy.0, healthy.3) in
        let (merge_saves, side_saves) =
          (resolution_saves reader (file_repository G json disk)
              (file_stores G json disk document_law) now conflict_id user trimmed merged_bytes side
              store).0
            conflict ready usable_one in
        (
          settled conflict_id merged_bytes conflict store merged_after available healthy merges
              merge_saves,
          settled conflict_id (snapshot_of side conflict) conflict store sided_after available
              healthy sides side_saves,
        )
