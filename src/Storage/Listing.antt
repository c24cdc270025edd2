-- ===== src/Storage/Listing.antt =====
-- The list of pages: every page's file stands in it, corrupted or not.
use cpp_wiki.Prelude.{
  ◌≡◌, inl, inr, refl, ap, sym, ◌∙◌, ℕ, suc, String, Bool, true, false, List, [], ◌∷◌, arith,
  eq_iff, eq_refl, Bool-cases, is_some, is_empty, if◌then◌else◌, length,
}
use cpp_wiki.Files.{Slot}
use cpp_wiki.Knowledge.Relations.{text_lt_asym}
use cpp_wiki.Storage.{
  FilePath, Store, Disk, same_path, slot_at, file_exists, make_page_file_path, json_file, sanitized,
}
use cpp_wiki.Storage.Slots.{equal_paths}
use cpp_wiki.Storage.Json.{Json}
use cpp_wiki.Storage.Lists.{is_listed}
use cpp_wiki.Storage.Orders.{In, Ordered, length-sorted_by, sorted_in, sorted_by-Ordered}
use cpp_wiki.Storage.Pages.{
  DocumentSummary, summary_before, summary_of, load_document, walk_documents, list_documents,
}

summary_before_asym :
    (a b : DocumentSummary) → summary_before a b ≡ true → summary_before b a ≡ false
unfolding summary_before
summary_before_asym a b h = ground (arith, eq_iff a.title b.title, text_lt_asym a.title b.title)

-- The JSON files of a directory.
pub files_in : String → Store → ℕ
files_in directory [] = 0
files_in directory ((p, slot) ∷ store) =
    let n = files_in directory store in if is_listed directory p slot then suc n else n

pub file-IsListed :
    (directory id : String) (q : FilePath) (slot : Slot)
    → same_path (json_file directory id) q ≡ true
    → is_some slot.target ≡ true
    → is_empty id ≡ false
    → is_listed directory q slot ≡ true
unfolding is_listed same_path
file-IsListed directory id q slot same there named = ground (
  arith,
  eq_iff directory q.directory,
  eq_iff id q.stem,
  eq_iff ".json" q.extension,
  eq_refl directory,
)

module _ (p q : FilePath) (slot : Slot) (store : Store) where
  pub slot_at_first : same_path p q ≡ true → slot_at p ((q, slot) ∷ store) ≡ slot
  unfolding slot_at
  slot_at_first e = rw e refl

  pub slot_at_later : same_path p q ≡ false → slot_at p ((q, slot) ∷ store) ≡ slot_at p store
  unfolding slot_at
  slot_at_later e = rw e refl

-- The entry of a file that is there: a file that is walked, with its own name.
pub walked_first :
    (directory id : String) (q : FilePath) (slot : Slot) (store : Store)
    → is_empty id ≡ false
    → is_some (slot_at (json_file directory id) ((q, slot) ∷ store)).target ≡ true
    → same_path (json_file directory id) q ≡ true
    → (is_listed directory q slot ≡ true) × (q.stem ≡ id)
walked_first directory id q slot store named h e = (
  file-IsListed directory id q slot e
      (ap (λ s. is_some s.target) (sym (slot_at_first (json_file directory id) q slot store e)) ∙ h)
      named,
  ap (λ p. p.stem) (sym (equal_paths (json_file directory id) q e)),
)

pub walked_later :
    (directory id : String) (q : FilePath) (slot : Slot) (store : Store)
    → is_some (slot_at (json_file directory id) ((q, slot) ∷ store)).target ≡ true
    → same_path (json_file directory id) q ≡ false
    → is_some (slot_at (json_file directory id) store).target ≡ true
walked_later directory id q slot store h e =
    ap (λ s. is_some s.target) (sym (slot_at_later (json_file directory id) q slot store e)) ∙ h

pub in_either :
    {R : Type 0} (b : Bool) (x r : R) (rs : List R) → In x rs → In x (if b then r ∷ rs else rs)
in_either true x r rs h = inr h
in_either false x r rs h = h

module _ (G : Type 0) (json : Json) (disk : Disk) where
  none_stored : (id : String) → is_some (slot_at (json_file "pages" id) []).target ≡ true → ⊥
  unfolding slot_at
  none_stored id h = cc

  length-walk_documents :
      (all store : Store) → length (walk_documents G json disk all store) ≡ files_in "pages" store
  unfolding walk_documents files_in
  length-walk_documents all [] = refl
  length-walk_documents all ((p, slot) ∷ store) = ground (arith, length-walk_documents all store)

  walked :
      (id : String) (all store : Store)
      → is_empty id ≡ false
      → is_some (slot_at (json_file "pages" id) store).target ≡ true
      → In
          (summary_of G json id (load_document G json disk id all))
          (walk_documents G json disk all store)
  unfolding walk_documents
  walked id all [] named h = absurd (none_stored id h)
  walked id all ((q, slot) ∷ store) named h =
      elim (Bool-cases (same_path (json_file "pages" id) q)) [
        | inl e ↦
            let (listed, own) = walked_first "pages" id q slot store named h e in
            rw (listed, own) (inl refl)
        | inr e ↦
            in_either (is_listed "pages" q slot) _ _ _
              (walked id all store named (walked_later "pages" id q slot store h e))
      ]

  -- The list of pages has one entry for each JSON file in the directory of pages, corrupted or not,
  -- ordered by the pages' sort order and then by their titles. For every file name that the repository
  -- makes the entry tells what loading that page gives: its metadata, or the error.
  pub list_documents_complete :
      (store : Store)
      → (length (list_documents G json disk store) ≡ files_in "pages" store)
        × Ordered summary_before (list_documents G json disk store)
        × ((id : String)
            → sanitized id ≡ id
            → is_empty id ≡ false
            → file_exists (make_page_file_path id) store ≡ true
            → In
                (summary_of G json id (load_document G json disk id store))
                (list_documents G json disk store))
  unfolding list_documents file_exists make_page_file_path
  list_documents_complete store =
      let all = walk_documents G json disk store store in
      (
        length-sorted_by summary_before all ∙ length-walk_documents store store,
        sorted_by-Ordered summary_before summary_before_asym all,
        λ id own named h. sorted_in summary_before _ all (
            walked id store store named
              (ap (λ s. is_some (slot_at (json_file "pages" s) store).target) (sym own) ∙ h)),
      )
