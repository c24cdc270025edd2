-- ===== src/Storage/Resolving.antt =====
-- A conflict that is resolved or dismissed.
use cpp_wiki.Prelude.{
  ◌≡◌, ◌≢◌, ◌⊎◌, inl, inr, refl, ap, sym, subst, ◌∙◌, String, Bool, true, false, not, Option, none,
  some, arith, eq_iff, eq_refl, ◌==◌, if◌then◌else◌,
}
use cpp_wiki.Merge.{DocumentConflictRecord}
use cpp_wiki.Storage.{
  Store, Disk, Answer, found, failed, RepositoryError, same_path, slot_at, read_file_to_string,
  make_page_file_path, make_conflict_file_path, sanitized,
}
use cpp_wiki.Storage.Slots.{save_file-SavedOr}
use cpp_wiki.Storage.Saving.{
  stems_differ, directories_differ, load_document_same, load_conflict_same, load_conflict_target,
  load_conflict-target,
}
use cpp_wiki.Storage.Json.{Json, ReadsBack}
use cpp_wiki.Storage.Documents.{FileConflictRecordDto, to_conflict_dto, from_conflict_dto}
use cpp_wiki.Storage.Pages.{load_document}
use cpp_wiki.Storage.Conflicts.{
  is_valid_resolution_state, checked_conflict, parse_conflict, load_conflict, save_conflict,
  save_state, update_conflict_resolution_state, resolve_conflict, dismiss_conflict,
}

found_injective :
    {a b : DocumentConflictRecord}
    → Path (Answer DocumentConflictRecord) (found a) (found b)
    → a ≡ b
found_injective h = cc

checked_by :
    (same valid : Bool) (id : String) (dto : FileConflictRecordDto) (c : DocumentConflictRecord)
    (e f : RepositoryError)
    → (dto.id == id) ≡ same
    → (if not same then failed e else if not valid then failed f else found (from_conflict_dto dto))
      ≡ found c
    → c.id ≡ id
unfolding from_conflict_dto
checked_by true true id dto c e f same h =
    sym (ap (λ x. x.id) (found_injective h)) ∙ (ground (arith, eq_iff dto.id id))
checked_by true false id dto c e f same h = cc
checked_by false valid id dto c e f same h = cc

checked_id :
    (id : String) (read : String ⊎ FileConflictRecordDto) (c : DocumentConflictRecord)
    → checked_conflict id read ≡ found c
    → c.id ≡ id
unfolding checked_conflict
checked_id id (inl message) c h = cc
checked_id id (inr dto) c h = checked_by (dto.id == id) _ id dto c _ _ refl h

module _ (G : Type 0) (json : Json) (disk : Disk) where
  parsed_id :
      (id : String) (content : Option String) (c : DocumentConflictRecord)
      → parse_conflict json id content ≡ found c
      → c.id ≡ id
  unfolding parse_conflict
  parsed_id id none c h = cc
  parsed_id id (some content) c h = checked_id id _ c h

  pub loaded_id :
      (id : String) (target : Option String) (c : DocumentConflictRecord)
      → load_conflict_target G json disk id target ≡ found c
      → c.id ≡ id
  unfolding load_conflict_target
  loaded_id id none c h = cc
  loaded_id id (some text) c h = parsed_id id _ c h

  readable_by :
      (b : Bool) (id text : String) (c : DocumentConflictRecord)
      → parse_conflict json id (if b then none else some text) ≡ found c
      → b ≡ false
  unfolding parse_conflict
  readable_by true id text c h = cc
  readable_by false id text c h = refl

  loaded_readable :
      (id : String) (target : Option String) (c : DocumentConflictRecord)
      → load_conflict_target G json disk id target ≡ found c
      → disk.unreadable (make_conflict_file_path id) ≡ false
  unfolding load_conflict_target read_file_to_string
  loaded_readable id none c h = cc
  loaded_readable id (some text) c h = readable_by _ id text c h

  own_id : (c : DocumentConflictRecord) → ((to_conflict_dto c).id == c.id) ≡ true
  unfolding to_conflict_dto
  own_id c = eq_refl c.id

  own_state :
      (c : DocumentConflictRecord)
      → is_valid_resolution_state c.resolution_state ≡ true
      → is_valid_resolution_state (to_conflict_dto c).resolution_state ≡ true
  unfolding to_conflict_dto
  own_state c h = h

  conflict_from_own_dto : (c : DocumentConflictRecord) → from_conflict_dto (to_conflict_dto c) ≡ c
  unfolding to_conflict_dto from_conflict_dto
  conflict_from_own_dto c = refl

  load_written :
      ReadsBack json.conflict
      → (c : DocumentConflictRecord) → disk.unreadable (make_conflict_file_path c.id) ≡ false
      → is_valid_resolution_state c.resolution_state ≡ true
      → load_conflict_target G json disk c.id (some (json.conflict.write (to_conflict_dto c)))
        ≡ found c
  unfolding load_conflict_target parse_conflict checked_conflict read_file_to_string
  load_written law c readable valid =
      rw (readable, law (to_conflict_dto c), own_id c, own_state c valid, conflict_from_own_dto c)

  other_conflict :
      (a b : String)
      → sanitized a ≢ sanitized b
      → same_path (make_conflict_file_path a) (make_conflict_file_path b) ≡ false
  unfolding make_conflict_file_path
  other_conflict a b ne = stems_differ "conflicts" _ _ ne

  pub page_not_conflict :
      (page conflict : String)
      → same_path (make_page_file_path page) (make_conflict_file_path conflict) ≡ false
  unfolding make_conflict_file_path make_page_file_path
  page_not_conflict page conflict = directories_differ "pages" "conflicts" _ _ refl

  -- What an operation that sets a conflict's state does: an error of the load is the answer, and
  -- nothing changes; otherwise no page and no conflict under another file name changes, and without an
  -- error, and if the closing of the temporary file lost nothing, the conflict is as it was, but in the
  -- new state.
  abbrev pub SetsState : String → String → Store → Store × Option RepositoryError → Type 0
  SetsState id state store (after, e) =
      ((f : RepositoryError)
        → load_conflict json disk id store ≡ failed f
        → (after ≡ store) × (e ≡ some f))
      × ((c : DocumentConflictRecord)
          → load_conflict json disk id store ≡ found c
          → ((other : String)
              → sanitized other ≢ sanitized id
              → load_conflict json disk other after ≡ load_conflict json disk other store)
            × ((page : String)
                → load_document G json disk page after ≡ load_document G json disk page store)
            × (e ≡ none
                → (disk.write_faults (make_conflict_file_path id)).close_fails ≡ false
                → load_conflict json disk id after ≡ found (record c { resolution_state = state })))

  pub save_state-failed :
      (state id : String) (store : Store) (f : RepositoryError)
      → load_conflict json disk id store ≡ failed f
      → update_conflict_resolution_state json disk id state store ≡ (store, some f)
  unfolding update_conflict_resolution_state save_state
  save_state-failed state id store f h = rw h refl

  pub save_state-found :
      (state id : String) (store : Store) (c : DocumentConflictRecord)
      → load_conflict json disk id store ≡ found c
      → update_conflict_resolution_state json disk id state store
        ≡ save_conflict json disk (record c { resolution_state = state }) store
  unfolding update_conflict_resolution_state save_state
  save_state-found state id store c h = rw h refl

  abbrev Saved : String → DocumentConflictRecord → Store → Store × Option RepositoryError → Type 0
  Saved id saved store (after, e) =
      ((other : String)
        → sanitized other ≢ sanitized id
        → load_conflict json disk other after ≡ load_conflict json disk other store)
      × ((page : String)
          → load_document G json disk page after ≡ load_document G json disk page store)
      × (e ≡ none
          → (disk.write_faults (make_conflict_file_path id)).close_fails ≡ false
          → load_conflict json disk id after ≡ found saved)

  save_conflict-Saved :
      ReadsBack json.conflict
      → (c : DocumentConflictRecord) (store : Store)
      → is_valid_resolution_state c.resolution_state ≡ true
      → (slot_at (make_conflict_file_path c.id) store).backup ≡ none
      → disk.unreadable (make_conflict_file_path c.id) ≡ false
      → Saved c.id c store (save_conflict json disk c store)
  unfolding save_conflict
  save_conflict-Saved law c store valid clean readable =
      let p = make_conflict_file_path c.id in
      let text = json.conflict.write (to_conflict_dto c) in
      let after = (save_conflict json disk c store).0 in
      let (others, no_backup, on_success, on_error, kept) =
        save_file-SavedOr disk p text "Failed to write conflict file" store clean in
      (
        λ id ne.
            load_conflict_same G json disk id after store
              (ap (λ s. s.target) (others (make_conflict_file_path id) (other_conflict id _ ne))),
        λ id.
            load_document_same G json disk id after store
              (ap (λ s. s.target) (others (make_page_file_path id) (page_not_conflict id _))),
        λ ok whole.
            load_conflict-target G json disk c.id after
            ∙ ap (λ s. load_conflict_target G json disk c.id s.target) (on_success ok whole)
            ∙ load_written law c readable valid,
      )

  update-SetsState :
      ReadsBack json.conflict
      → (id state : String) (store : Store) → is_valid_resolution_state state ≡ true
      → (slot_at (make_conflict_file_path id) store).backup ≡ none
      → SetsState id state store (update_conflict_resolution_state json disk id state store)
  update-SetsState law id state store valid clean = (
    λ f h. rw (save_state-failed state id store f h) (refl, refl),
    λ c h.
        let target = (slot_at (make_conflict_file_path id) store).target in
        let loaded = sym (load_conflict-target G json disk id store) ∙ h in
        let same = loaded_id id target c loaded in
        let readable = loaded_readable id target c loaded in
        let new = record c { resolution_state = state } in
        rw (save_state-found state id store c h) (
          subst (λ i. Saved i new store (save_conflict json disk new store)) same
            (save_conflict-Saved law new store valid
              (subst (λ i. (slot_at (make_conflict_file_path i) store).backup ≡ none) (sym same)
                clean)
              (subst (λ i. disk.unreadable (make_conflict_file_path i) ≡ false) (sym same)
                readable))),
  )

  -- The storage reads back what it writes, and the conflict's file has no backup. Resolving and
  -- dismissing a conflict that does not load give the error of the load and change nothing. If it loads,
  -- no page and no conflict under another file name loads differently afterwards, however the write
  -- goes; and if there was no error and the closing of the temporary file lost nothing, the conflict
  -- loads as it was, but resolved, or dismissed.
  pub resolve_dismiss_outcome :
      ReadsBack json.conflict
      → (id : String) (store : Store) → (slot_at (make_conflict_file_path id) store).backup ≡ none
      → SetsState id "resolved" store (resolve_conflict json disk id store)
        × SetsState id "dismissed" store (dismiss_conflict json disk id store)
  unfolding resolve_conflict dismiss_conflict is_valid_resolution_state
  resolve_dismiss_outcome law id store clean = (
    update-SetsState law id "resolved" store refl clean,
    update-SetsState law id "dismissed" store refl clean,
  )
