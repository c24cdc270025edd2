-- ===== src/Merge/Outcomes.antt =====
-- What a resolution of a conflict leaves in the repository.
use cpp_wiki.Prelude.{
  zero, suc, ◌≤ℤ◌, ◌≡◌, refl, ap, sym, subst, ◌∙◌, String, Bool, true, false, Option, none, some,
  arith, ℤ, pos, negsuc, ◌<ℤ◌, max_ℤ, suc_ℤ,
}
use cpp_wiki.Documents.{wiki_page, Document, BlockNoteDocumentSnapshot}
use cpp_wiki.Documents.Validator.{Reader, parse_and_validate_snapshot}
use cpp_wiki.Merge.{
  MergeResolutionStatus, applied, conflict_unavailable, invalid_merged_snapshot, resolve_failed,
  MergeResolutionResult, ConflictResolutionSide, DocumentRecord, DocumentConflictRecord, Repository,
  usable, current_or_blank, resolved_record, accepted, Messages, snapshot_of, author_of,
  effective_author_id, after_resolve, after_save, apply_accepted,
  apply_conflict_snapshot_resolution, merge_found, apply_merged_conflict_resolution, side_found,
  apply_conflict_side_resolution,
}

-- What the code relies on, of a page whose storage is ready to be written: a save without error stores
-- the record, of which a load gives the metadata and the raw JSON; after a failed save the page, if it
-- loaded, and all conflicts load as before; and marking a conflict leaves the pages alone.
pub record Stores {G S : Type 0} (r : Repository G S) : Type 1 where
  pub IsReady : String → S → Type 0
  pub loaded_as : DocumentRecord G → DocumentRecord G
  pub loaded_same :
      (d : DocumentRecord G)
      → ((loaded_as d).metadata ≡ d.metadata)
        × ((loaded_as d).raw_snapshot_json ≡ d.raw_snapshot_json)
  pub load-save :
      (d : DocumentRecord G) (s : S)
      → IsReady d.metadata.id s
      → (r.save_document d s).1 ≡ none
      → usable (r.load_document d.metadata.id (r.save_document d s).0) ≡ some (loaded_as d)
  pub failed_save :
      (d : DocumentRecord G) (s : S) (e : String)
      → IsReady d.metadata.id s
      → (r.save_document d s).1 ≡ some e
      → ((current : DocumentRecord G)
          → usable (r.load_document d.metadata.id s) ≡ some current
          → usable (r.load_document d.metadata.id (r.save_document d s).0) ≡ some current)
        × ((id : String) → r.load_conflict id (r.save_document d s).0 ≡ r.load_conflict id s)
  pub load-resolve :
      (id page : String) (s : S)
      → r.load_document page (r.resolve_conflict id s).0 ≡ r.load_document page s

above_suc : (a : ℤ) → a <ℤ suc_ℤ a
above_suc (pos n) = omega arith
above_suc (negsuc zero) = omega arith
above_suc (negsuc (suc n)) = omega arith

max_above : (a b : ℤ) → (a ≤ℤ max_ℤ a b) × (b ≤ℤ max_ℤ a b)
max_above a b = (ground arith, ground arith)

max_suc_above :
    (a b : ℤ) → (a <ℤ suc_ℤ (max_ℤ (max_ℤ a (pos 1)) b)) × (b <ℤ suc_ℤ (max_ℤ (max_ℤ a (pos 1)) b))
max_suc_above a b =
    let first = max_above a (pos 1) in
    let both = max_above (max_ℤ a (pos 1)) b in
    let next = above_suc (max_ℤ (max_ℤ a (pos 1)) b) in
    (omega (arith, first.0, both.0, next), omega (arith, both.1, next))

-- A status after which the repository was not changed, and one after which the page was saved.
unfoldable pub is_saved : MergeResolutionStatus → Bool
is_saved applied = true
is_saved resolve_failed = true
is_saved _ = false

module _ {G S : Type 0} (reader : Reader G) (repository : Repository G S) (laws : Stores repository)
    (now : String) where
  -- The page, if it loaded, and all conflicts load as before.
  abbrev pub LoadsSame : String → S → S → Type 0
  LoadsSame page before after =
      ((current : DocumentRecord G)
        → usable (repository.load_document page before) ≡ some current
        → usable (repository.load_document page after) ≡ some current)
      × ((id : String) → repository.load_conflict id after ≡ repository.load_conflict id before)

  -- The page is saved as the text that was chosen, above the conflict's base and the current page,
  -- or it and the conflicts load as before; with an invalid snapshot nothing at all has changed.
  abbrev pub Resolves : DocumentConflictRecord → String → S → S × MergeResolutionResult → Type 0
  Resolves conflict text s after =
      (is_saved after.1.status ≡ true
        → (d : DocumentRecord G) × (usable (repository.load_document conflict.document_id after.0)
            ≡ some d)
          × (d.metadata.id ≡ conflict.document_id)
          × (d.raw_snapshot_json
              ≡ (parse_and_validate_snapshot reader text wiki_page).raw_snapshot_json)
          × (conflict.base_version <ℤ d.metadata.content_version)
          × ((current : DocumentRecord G)
              → usable (repository.load_document conflict.document_id s) ≡ some current
              → current.metadata.content_version <ℤ d.metadata.content_version))
      × (is_saved after.1.status ≡ false → LoadsSame conflict.document_id s after.0)
      × (after.1.status ≡ invalid_merged_snapshot → after.0 ≡ s)

  saved :
      (conflict_id : String) (messages : Messages) (d : DocumentRecord G) (s : S)
      (result : S × Option String)
      → (result.1 ≡ none
          → usable (repository.load_document d.metadata.id result.0) ≡ some (laws.loaded_as d))
      → ((e : String) → result.1 ≡ some e → LoadsSame d.metadata.id s result.0)
      → let after = after_save reader repository now conflict_id messages result in
        (is_saved after.1.status ≡ true
          → usable (repository.load_document d.metadata.id after.0) ≡ some (laws.loaded_as d))
        × (is_saved after.1.status ≡ false → LoadsSame d.metadata.id s after.0)
        × (after.1.status ≡ invalid_merged_snapshot → after.0 ≡ s)
  unfolding after_save is_saved
  saved conflict_id messages d s (t, some e) load same = (λ h. cc, λ h. same e refl, λ h. cc)
  saved conflict_id messages d s (t, none) load same =
      resolved (repository.resolve_conflict conflict_id t)
        (ap usable (laws.load-resolve conflict_id d.metadata.id t) ∙ load refl)
    where
      resolved :
          (result : S × Option String)
          → usable (repository.load_document d.metadata.id result.0) ≡ some (laws.loaded_as d)
          → let after = after_resolve reader repository now messages result in
            (is_saved after.1.status ≡ true
              → usable (repository.load_document d.metadata.id after.0) ≡ some (laws.loaded_as d))
            × (is_saved after.1.status ≡ false → LoadsSame d.metadata.id s after.0)
            × (after.1.status ≡ invalid_merged_snapshot → after.0 ≡ s)
      resolved (u, some e) h = (λ _. h, λ h'. cc, λ h'. cc)
      resolved (u, none) h = (λ _. h, λ h'. cc, λ h'. cc)

  above_current :
      (v : ℤ) (o : Option (DocumentRecord G))
      → (current_or_blank o).metadata.content_version <ℤ v
      → (current : DocumentRecord G) → o ≡ some current
      → current.metadata.content_version <ℤ v
  unfolding current_or_blank
  above_current v none h current e = cc
  above_current v (some c) h current e =
      subst (λ (o : Option (DocumentRecord G)). (current_or_blank o).metadata.content_version <ℤ v)
        e h

  accepted-Resolves :
      (conflict_id : String) (conflict : DocumentConflictRecord) (author text : String)
      (messages : Messages) (a : Option (Document × BlockNoteDocumentSnapshot G)) (s : S)
      → laws.IsReady conflict.document_id s
      → Resolves conflict text s (
          apply_accepted reader repository now conflict_id conflict author
            (parse_and_validate_snapshot reader text wiki_page).raw_snapshot_json
            messages
            a
            s)
  unfolding apply_accepted resolved_record is_saved
  accepted-Resolves conflict_id conflict author text messages none s ready =
      (λ h. cc, λ h. (λ current e. e, λ id. refl), λ h. refl)
  accepted-Resolves conflict_id conflict author text messages (some (document, snapshot)) s ready =
      let o = usable (repository.load_document conflict.document_id s) in
      let current = current_or_blank o in
      let raw = (parse_and_validate_snapshot reader text wiki_page).raw_snapshot_json in
      let d = resolved_record now author conflict document snapshot raw current in
      let above = max_suc_above current.metadata.content_version conflict.base_version in
      let (metadata, json) = laws.loaded_same d in
      let version = sym (ap (λ m. m.content_version) metadata) in
      let (kept, same, invalid) =
        saved conflict_id messages d s (repository.save_document d s) (laws.load-save d s ready)
          (λ e. laws.failed_save d s e ready) in
      (
        λ h. (
          laws.loaded_as d,
          kept h,
          ap (λ m. m.id) metadata,
          json,
          subst (λ v. conflict.base_version <ℤ v) version above.1,
          above_current (laws.loaded_as d).metadata.content_version o
              (subst (λ v. current.metadata.content_version <ℤ v) version above.0),
        ),
        same,
        invalid,
      )

  snapshot-Resolves :
      (conflict_id : String) (conflict : DocumentConflictRecord) (author text : String)
      (messages : Messages) (s : S)
      → laws.IsReady conflict.document_id s
      → Resolves conflict text s (
          apply_conflict_snapshot_resolution reader repository now conflict_id conflict author text
            messages s)
  unfolding apply_conflict_snapshot_resolution
  snapshot-Resolves conflict_id conflict author text messages s ready =
      accepted-Resolves conflict_id conflict author text messages
        (accepted (parse_and_validate_snapshot reader text wiki_page)) s ready

  found-Resolves :
      (conflict_id user trimmed merged_bytes : String) (side : ConflictResolutionSide) (s : S)
      (c : DocumentConflictRecord)
      → laws.IsReady c.document_id s
      → usable (repository.load_conflict conflict_id s) ≡ some c
      → Resolves c merged_bytes s (
          apply_merged_conflict_resolution reader repository now conflict_id user trimmed
            merged_bytes s)
        × Resolves c
            (snapshot_of side c)
            s
            (apply_conflict_side_resolution reader repository now conflict_id side s)
  unfolding apply_merged_conflict_resolution apply_conflict_side_resolution merge_found side_found
  found-Resolves conflict_id user trimmed merged_bytes side s c ready available = rw available (
    snapshot-Resolves conflict_id c (effective_author_id user trimmed) merged_bytes _ s ready,
    snapshot-Resolves conflict_id c (author_of side c) (snapshot_of side c) _ s ready,
  )

  unavailable_same :
      (conflict_id user trimmed merged_bytes : String) (side : ConflictResolutionSide) (s : S)
      → usable (repository.load_conflict conflict_id s) ≡ none
      → let merged =
          apply_merged_conflict_resolution reader repository now conflict_id user trimmed
            merged_bytes s in
        let sided = apply_conflict_side_resolution reader repository now conflict_id side s in
        (merged.0 ≡ s)
        × (sided.0 ≡ s)
        × (merged.1.status ≡ conflict_unavailable)
        × (sided.1.status ≡ conflict_unavailable)
  unfolding apply_merged_conflict_resolution apply_conflict_side_resolution merge_found side_found
  unavailable_same conflict_id user trimmed merged_bytes side s h = rw h (refl, refl, refl, refl)

  -- Over a repository with the laws `Stores`: both ways to resolve an available conflict, whose page is
  -- ready to be written, either leave the page, if it loaded, and all conflicts loading as before,
  -- with a status that says so, or save the page of the conflict (as also when the marking fails after
  -- the save): it then loads with the text that was chosen, the merged one or that of the chosen
  -- side, and with a version above the conflict's base and above the page that was there. With an
  -- invalid snapshot or an unavailable conflict nothing at all changes.
  pub resolution_saves :
      (conflict_id user trimmed merged_bytes : String) (side : ConflictResolutionSide) (s : S)
      → let merged =
          apply_merged_conflict_resolution reader repository now conflict_id user trimmed
            merged_bytes s in
        let sided = apply_conflict_side_resolution reader repository now conflict_id side s in
        ((conflict : DocumentConflictRecord)
          → laws.IsReady conflict.document_id s
          → usable (repository.load_conflict conflict_id s) ≡ some conflict
          → Resolves conflict merged_bytes s merged
            × Resolves conflict (snapshot_of side conflict) s sided)
        × (usable (repository.load_conflict conflict_id s) ≡ none
            → (merged.0 ≡ s)
              × (sided.0 ≡ s)
              × (merged.1.status ≡ conflict_unavailable)
              × (sided.1.status ≡ conflict_unavailable))
  resolution_saves conflict_id user trimmed merged_bytes side s = (
    found-Resolves conflict_id user trimmed merged_bytes side s,
    unavailable_same conflict_id user trimmed merged_bytes side s,
  )
