-- ===== src/Merge/Progress.antt =====
-- When a resolution succeeds.
use cpp_wiki.Prelude.{◌≡◌, refl, String, true, none, some, Option, is_some}
use cpp_wiki.Documents.{wiki_page, Document, BlockNoteDocumentSnapshot}
use cpp_wiki.Documents.Validator.{Reader, parse_and_validate_snapshot}
use cpp_wiki.Merge.{
  applied, ConflictResolutionSide, DocumentRecord, DocumentConflictRecord, Repository, usable,
  accepted, Messages, snapshot_of, effective_author_id, author_of, MergeResolutionResult,
  resolved_record, current_or_blank, after_resolve, after_save, apply_accepted,
  apply_conflict_snapshot_resolution, apply_merged_conflict_resolution,
  apply_conflict_side_resolution,
}

module _ {G S : Type 0} (reader : Reader G) (repository : Repository G S) (now : String) where
  -- The validator gives a document and a snapshot for the text.
  abbrev pub IsAccepted : String → Type 0
  IsAccepted text = is_some (accepted (parse_and_validate_snapshot reader text wiki_page)) ≡ true

  -- The save of any record of the conflict's page, and then the marking of the conflict, succeed.
  abbrev pub Succeeds : String → String → S → Type 0
  Succeeds conflict_id page s =
      (d : DocumentRecord G)
      → d.metadata.id ≡ page
      → let saved = repository.save_document d s in
        (saved.1 ≡ none) × ((repository.resolve_conflict conflict_id saved.0).1 ≡ none)

  -- The outcome: applied, in the state that marking the conflict leaves after the save of a record of its
  -- page.
  abbrev pub Applies : String → String → S → S × MergeResolutionResult → Type 0
  Applies conflict_id page s after =
      (after.1.status ≡ applied)
      × ((d : DocumentRecord G) × (d.metadata.id ≡ page)
          × (after.0
              ≡ (repository.resolve_conflict conflict_id (repository.save_document d s).0).0))

  saved-Applies :
      (conflict_id : String) (messages : Messages) (saved : S × Option String)
      → saved.1 ≡ none
      → (repository.resolve_conflict conflict_id saved.0).1 ≡ none
      → let after = after_save reader repository now conflict_id messages saved in
        (after.1.status ≡ applied) × (after.0 ≡ (repository.resolve_conflict conflict_id saved.0).0)
  unfolding after_save
  saved-Applies conflict_id messages (t, some e) h k = cc
  saved-Applies conflict_id messages (t, none) h k =
      marked (repository.resolve_conflict conflict_id t) k
    where
      marked :
          (result : S × Option String)
          → result.1 ≡ none
          → let after = after_resolve reader repository now messages result in
            (after.1.status ≡ applied) × (after.0 ≡ result.0)
      marked (u, none) h = (refl, refl)
      marked (u, some e) h = cc

  accepted-Applies :
      (conflict_id : String) (conflict : DocumentConflictRecord) (author raw : String)
      (messages : Messages) (a : Option (Document × BlockNoteDocumentSnapshot G)) (s : S)
      → Succeeds conflict_id conflict.document_id s
      → is_some a ≡ true
      → Applies conflict_id conflict.document_id s
          (apply_accepted reader repository now conflict_id conflict author raw messages a s)
  unfolding apply_accepted resolved_record
  accepted-Applies conflict_id conflict author raw messages none s works h = cc
  accepted-Applies conflict_id conflict author raw messages (some (document, snapshot)) s works h =
      let current = current_or_blank (usable (repository.load_document conflict.document_id s)) in
      let d = resolved_record now author conflict document snapshot raw current in
      let (saves, marks) = works d refl in
      let step = saved-Applies conflict_id messages (repository.save_document d s) saves marks in
      (step.0, (d, refl, step.1))

  -- If the conflict is available, the text that is chosen is accepted by the validator and the changes of
  -- the repository that are made succeed, then each way to resolve the conflict is applied.
  pub resolution-Applies :
      (conflict_id user trimmed merged_bytes : String) (side : ConflictResolutionSide)
      (conflict : DocumentConflictRecord) (s : S)
      → usable (repository.load_conflict conflict_id s) ≡ some conflict
      → IsAccepted merged_bytes
      → IsAccepted (snapshot_of side conflict)
      → Succeeds conflict_id conflict.document_id s
      → Applies conflict_id conflict.document_id s (
          apply_merged_conflict_resolution reader repository now conflict_id user trimmed
            merged_bytes s)
        × Applies conflict_id conflict.document_id s
            (apply_conflict_side_resolution reader repository now conflict_id side s)
  unfolding apply_merged_conflict_resolution apply_conflict_side_resolution
      apply_conflict_snapshot_resolution
  resolution-Applies conflict_id user trimmed merged_bytes side conflict s available merged sided
        works =
      rw available (
        accepted-Applies conflict_id conflict (effective_author_id user trimmed) _ _
            (accepted (parse_and_validate_snapshot reader merged_bytes wiki_page)) s works merged,
        accepted-Applies conflict_id conflict (author_of side conflict) _ _
            (accepted (parse_and_validate_snapshot reader (snapshot_of side conflict) wiki_page)) s
            works sided,
      )
