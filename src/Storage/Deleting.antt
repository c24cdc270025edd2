-- ===== src/Storage/Deleting.antt =====
-- A page that is deleted is gone, with its conflicts, and every other page stays.
use cpp_wiki.Prelude.{
  ◌≡◌, ◌≢◌, inl, inr, refl, ap, sym, ◌∙◌, String, Bool, true, false, not, ◌||◌, Option, none, some,
  List, [], ◌∷◌, arith, eq_refl, ◌==◌, Bool-cases, is_some, is_empty, if◌then◌else◌,
}
use cpp_wiki.Merge.{DocumentConflictRecord}
use cpp_wiki.Storage.{
  FilePath, Store, Disk, Answer, found, failed, RepositoryError, make_error, read_failed, same_path,
  slot_at, sanitized, json_file, make_page_file_path, make_conflict_file_path, remove_file,
  file_exists,
}
use cpp_wiki.Storage.Slots.{remove_file-RemovedOr, same_path_refl}
use cpp_wiki.Storage.Saving.{
  stems_differ, load_document_same, load_conflict_same, load_conflict_target, load_conflict-target,
}
use cpp_wiki.Storage.Json.{Json}
use cpp_wiki.Storage.Lists.{is_listed, sort_found, sorted_by}
use cpp_wiki.Storage.Orders.{In, sorted_in}
use cpp_wiki.Storage.Listing.{walked_first, walked_later, in_either}
use cpp_wiki.Storage.Links.{and_then, remove_answered}
use cpp_wiki.Storage.Conflicts.{
  delete_conflict, load_conflict, walk_conflicts, list_conflicts, add_loaded, conflict_before,
}
use cpp_wiki.Storage.Pages.{load_document}
use cpp_wiki.Storage.Removal.{
  of_page, conflicts_of, clean_knowledge, clean_conflicts, clean_revisions, delete_document,
}
use cpp_wiki.Storage.Pruning.{
  Prunes, remove_file-Prunes, and_then-Prunes, and_then_done, remove_each_gone,
}
use cpp_wiki.Storage.Removing.{
  clean_knowledge-Prunes, clean_conflicts-Prunes, clean_revisions-Prunes, delete_conflict-Prunes,
}

-- The files that the deletion of a page may remove: that of its own name, and those of the records
-- that can belong to it.
may_remove : String → FilePath → Bool
may_remove page_id q =
    q.directory == "page-property-values"
    || q.directory == "page-relations"
    || q.directory == "conflicts"
    || q.directory == "revisions"
    || same_path q (make_page_file_path page_id)

-- The files outside the directory of conflicts.
not_conflict : FilePath → Bool
not_conflict q = not (q.directory == "conflicts")

own_page : (id : String) → may_remove id (make_page_file_path id) ≡ true
unfolding may_remove
own_page id = rw (same_path_refl (make_page_file_path id)) (ground arith)

other_page :
    (a b : String) → sanitized a ≢ sanitized b → may_remove b (make_page_file_path a) ≡ false
unfolding may_remove make_page_file_path
other_page a b ne = stems_differ "pages" (sanitized a) (sanitized b) ne

page_of :
    (page_id : String) (c : DocumentConflictRecord) (cs : List DocumentConflictRecord)
    → In c cs
    → c.document_id ≡ page_id
    → In c (of_page page_id cs)
unfolding of_page
page_of page_id c [] h own = absurd h
page_of page_id c (d ∷ ds) (inl same) own =
    let own_d : d.document_id ≡ page_id = ap (λ x. x.document_id) (sym same) ∙ own in
    let here : (d.document_id == page_id) ≡ true = ap (λ t. t == page_id) own_d ∙ eq_refl page_id in
    rw here (inl same)
page_of page_id c (d ∷ ds) (inr later) own = in_either _ c d _ (page_of page_id c ds later own)

in_added :
    (b : Bool) (l : Answer DocumentConflictRecord) (c : DocumentConflictRecord)
    (cs : List DocumentConflictRecord)
    → In c cs
    → In c (if b then add_loaded l cs else cs)
unfolding add_loaded
in_added false l c cs h = h
in_added true (found d) c cs h = inr h
in_added true (failed e) c cs h = h

none_stored : (id : String) → is_some (slot_at (json_file "conflicts" id) []).target ≡ true → ⊥
unfolding slot_at
none_stored id h = cc

module _ (json : Json) (disk : Disk) where
  walked :
      (id : String) (c : DocumentConflictRecord) (all store : Store)
      → is_empty id ≡ false
      → load_conflict json disk id all ≡ found c
      → is_some (slot_at (json_file "conflicts" id) store).target ≡ true
      → In c (walk_conflicts json disk all store)
  unfolding walk_conflicts add_loaded
  walked id c all [] named loaded h = absurd (none_stored id h)
  walked id c all ((q, slot) ∷ store) named loaded h =
      elim (Bool-cases (same_path (json_file "conflicts" id) q)) [
        | inl e ↦
            let (listed, own) = walked_first "conflicts" id q slot store named h e in
            rw (listed, own, loaded) (inl refl)
        | inr e ↦
            in_added (is_listed "conflicts" q slot) (load_conflict json disk q.stem all) c _
              (walked id c all store named loaded (walked_later "conflicts" id q slot store h e))
      ]

  -- A conflict that loads has a file.
  loaded_there :
      (G : Type 0) (id : String) (c : DocumentConflictRecord) (target : Option String)
      → load_conflict_target G json disk id target ≡ found c
      → is_some target ≡ true
  unfolding load_conflict_target
  loaded_there G id c none h = cc
  loaded_there G id c (some t) h = refl

  removed_conflict :
      (c : DocumentConflictRecord) (s : Store)
      → (delete_conflict json disk c.id s).1 ≡ none
      → (slot_at (make_conflict_file_path c.id) (delete_conflict json disk c.id s).0).target ≡ none
  unfolding delete_conflict
  removed_conflict c s ok =
      let (others, no_backup, gone, unchanged) =
        remove_file-RemovedOr disk (make_conflict_file_path c.id) s in
      gone ok

  no_conflict_file :
      (id : String) (store : Store)
      → (slot_at (make_conflict_file_path id) store).target ≡ none
      → load_conflict json disk id store ≡ failed (make_error read_failed "Conflict not found")
  unfolding load_conflict file_exists
  no_conflict_file id store h = rw h refl

module _ (G : Type 0) (parses_number : String → Bool) (json : Json) (disk : Disk) where
  no_page_file :
      (id : String) (store : Store)
      → (slot_at (make_page_file_path id) store).target ≡ none
      → load_document G json disk id store ≡ failed (make_error read_failed "Document not found")
  unfolding load_document file_exists
  no_page_file id store h = rw h refl

  after_conflicts : String → Store → Store × Option RepositoryError
  after_conflicts page_id s =
      and_then (clean_revisions G parses_number json disk page_id s)
        (λ s. remove_file disk (make_page_file_path page_id) s)

  after_knowledge : String → Store → Store × Option RepositoryError
  unfolding after_conflicts
  after_knowledge page_id s =
      and_then (clean_conflicts G parses_number json disk page_id s)
        (λ s. after_conflicts page_id s)

  after_conflicts-Prunes :
      (page_id : String) (s : Store) → Prunes (may_remove page_id) s (after_conflicts page_id s).0
  unfolding after_conflicts may_remove
  after_conflicts-Prunes page_id s =
      and_then-Prunes (may_remove page_id) s (clean_revisions G parses_number json disk page_id s)
        (λ s. remove_file disk (make_page_file_path page_id) s)
        (clean_revisions-Prunes G parses_number json disk (may_remove page_id) (λ s. refl) page_id
          s)
        (λ s.
          remove_file-Prunes (may_remove page_id) disk (make_page_file_path page_id) s
            (own_page page_id))

  after_knowledge-Prunes :
      (page_id : String) (s : Store) → Prunes (may_remove page_id) s (after_knowledge page_id s).0
  unfolding after_knowledge may_remove
  after_knowledge-Prunes page_id s =
      and_then-Prunes (may_remove page_id) s (clean_conflicts G parses_number json disk page_id s)
        (λ s. after_conflicts page_id s)
        (clean_conflicts-Prunes G parses_number json disk (may_remove page_id) (λ s. refl) page_id
          s)
        (λ s. after_conflicts-Prunes page_id s)

  delete-Prunes :
      (page_id : String) (s : Store)
      → Prunes (may_remove page_id) s (delete_document G parses_number json disk page_id s).0
  unfolding delete_document after_knowledge after_conflicts may_remove
  delete-Prunes page_id s =
      and_then-Prunes (may_remove page_id) s
        (clean_knowledge G parses_number json disk page_id (load_document G json disk page_id s) s)
        (λ s. after_knowledge page_id s)
        (clean_knowledge-Prunes G parses_number json disk (may_remove page_id) (λ s. refl)
          (λ s. refl) page_id (load_document G json disk page_id s) s)
        (λ s. after_knowledge-Prunes page_id s)

  conflict_listed :
      (page_id : String) (c : DocumentConflictRecord) (s : Store)
      → sanitized c.id ≡ c.id
      → is_empty c.id ≡ false
      → c.document_id ≡ page_id
      → load_conflict json disk c.id s ≡ found c
      → In c (of_page page_id (sorted_by conflict_before (walk_conflicts json disk s s)))
  unfolding make_conflict_file_path
  conflict_listed page_id c s own named belongs loaded =
      let target = (slot_at (make_conflict_file_path c.id) s).target in
      let there =
        loaded_there json disk G c.id c target
          (sym (load_conflict-target G json disk c.id s) ∙ loaded) in
      let there' =
        ap (λ i. is_some (slot_at (json_file "conflicts" i) s).target) (sym own) ∙ there in
      page_of page_id c (sorted_by conflict_before (walk_conflicts json disk s s))
        (sorted_in conflict_before c (walk_conflicts json disk s s)
          (walked json disk c.id c s s named loaded there'))
        belongs

  conflicts_gone :
      (page_id : String) (c : DocumentConflictRecord) (s : Store)
      → In c (of_page page_id (sorted_by conflict_before (walk_conflicts json disk s s)))
      → (clean_conflicts G parses_number json disk page_id s).1 ≡ none
      → (slot_at
          (make_conflict_file_path c.id)
          (clean_conflicts G parses_number json disk page_id s).0).target
        ≡ none
  unfolding clean_conflicts remove_answered conflicts_of list_conflicts sort_found
  conflicts_gone page_id c s listed ok =
      remove_each_gone (λ (c : DocumentConflictRecord) s. delete_conflict json disk c.id s)
        (λ q. true)
        (λ c s. delete_conflict-Prunes G parses_number json disk (λ q. true) (λ t. refl) c.id s)
        (of_page page_id (sorted_by conflict_before (walk_conflicts json disk s s))) c
        (make_conflict_file_path c.id) s listed (λ s ok. removed_conflict json disk c s ok) ok

  -- However the disk behaves, the deletion of a page leaves every page alone whose id does not turn into
  -- the same file name. If it ends without an error, the page is not found any more, and neither is
  -- any conflict of the page that could be loaded before, where the conflict's id is its file's name.
  pub delete_document_outcome :
      (page_id : String) (store : Store)
      → let (after, e) = delete_document G parses_number json disk page_id store in
        ((other : String)
          → sanitized other ≢ sanitized page_id
          → load_document G json disk other after ≡ load_document G json disk other store)
        × (e ≡ none
            → load_document G json disk page_id after
              ≡ failed (make_error read_failed "Document not found"))
        × (e ≡ none
            → (c : DocumentConflictRecord) → sanitized c.id ≡ c.id
            → is_empty c.id ≡ false
            → c.document_id ≡ page_id
            → load_conflict json disk c.id store ≡ found c
            → load_conflict json disk c.id after
              ≡ failed (make_error read_failed "Conflict not found"))
  unfolding delete_document after_knowledge after_conflicts not_conflict make_conflict_file_path
  delete_document_outcome page_id store =
      let first =
        clean_knowledge G parses_number json disk page_id (load_document G json disk page_id store)
          store in
      let after = (delete_document G parses_number json disk page_id store).0 in
      let prunes = delete-Prunes page_id store in
      (
        λ other ne. load_document_same G json disk other after store (
            ap (λ s. s.target)
              (prunes.0 (make_page_file_path other) (other_page other page_id ne))),
        λ ok.
            let (ok1, ok2, same1) = and_then_done first (λ s. after_knowledge page_id s) ok in
            let (ok3, ok4, same2) =
              and_then_done (clean_conflicts G parses_number json disk page_id first.0)
                (λ s. after_conflicts page_id s) ok2 in
            let second = clean_conflicts G parses_number json disk page_id first.0 in
            let (ok5, ok6, same3) =
              and_then_done (clean_revisions G parses_number json disk page_id second.0)
                (λ s. remove_file disk (make_page_file_path page_id) s) ok4 in
            let third = clean_revisions G parses_number json disk page_id second.0 in
            let (others, no_backup, gone, unchanged) =
              remove_file-RemovedOr disk (make_page_file_path page_id) third.0 in
            no_page_file page_id after (rw (same1 ∙ same2 ∙ same3) (gone ok6)),
        λ ok c own named belongs loaded.
            let (ok1, ok2, same1) = and_then_done first (λ s. after_knowledge page_id s) ok in
            let second = clean_conflicts G parses_number json disk page_id first.0 in
            let (ok3, ok4, same2) = and_then_done second (λ s. after_conflicts page_id s) ok2 in
            let kept =
              clean_knowledge-Prunes G parses_number json disk not_conflict (λ s. refl) (λ s. refl)
                page_id (load_document G json disk page_id store) store in
            let loaded1 =
              load_conflict_same G json disk c.id first.0 store
                (ap (λ s. s.target) (kept.0 (make_conflict_file_path c.id) refl))
              ∙ loaded in
            let gone =
              conflicts_gone page_id c first.0
                (conflict_listed page_id c first.0 own named belongs loaded1) ok3 in
            no_conflict_file json disk c.id after (
              rw (same1 ∙ same2)
                ((after_conflicts-Prunes page_id second.0).1 (make_conflict_file_path c.id) gone)),
      )
