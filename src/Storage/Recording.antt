-- ===== src/Storage/Recording.antt =====
-- A typed record that was saved, in the List of its type.
use cpp_wiki.Prelude.{
  ◌≡◌, ◌≢◌, ap, sym, subst, ◌∙◌, String, Bool, true, false, Option, none, some, List, arith, eq_iff,
  eq_refl, ◌==◌, is_empty,
}
use cpp_wiki.Files.Crash.{only}
use cpp_wiki.Documents.Validator.Conversion.{some_injective}
use cpp_wiki.Knowledge.{PropertyDefinition}
use cpp_wiki.Knowledge.Validation.{validate_property_definition}
use cpp_wiki.Knowledge.Relations.{text_lt_asym}
use cpp_wiki.Storage.{
  FilePath, Store, Disk, found, slot_at, json_file, sanitized, make_knowledge_file_path,
}
use cpp_wiki.Storage.Slots.{save_file-SavedOr}
use cpp_wiki.Storage.Json.{Json, ReadsBack}
use cpp_wiki.Storage.Lists.{RecordFiles, list_records}
use cpp_wiki.Storage.Orders.{In}
use cpp_wiki.Storage.Sound.{list_records_sound}
use cpp_wiki.Storage.Dtos.{to_property_definition_dto, from_property_definition_dto}
use cpp_wiki.Storage.Roundtrip.{property_definition_from_own_dto}
use cpp_wiki.Storage.Knowledge.{
  record_of, read_with, save_valid, by_name, property_definition_files, save_property_definition,
  list_property_definitions,
}

by_name_asym : (n i m j : String) → by_name n i m j ≡ true → by_name m j n i ≡ false
unfolding by_name
by_name_asym n i m j h = ground (arith, eq_iff n m, eq_iff m n, text_lt_asym n m, text_lt_asym i j)

-- A save without error wrote the file.
save_valid_written :
    (disk : Disk) (o : Option String) (p : FilePath) (content message : String) (store : Store)
    → (slot_at p store).backup ≡ none
    → (disk.write_faults p).close_fails ≡ false
    → (save_valid disk o p content message store).1 ≡ none
    → slot_at p (save_valid disk o p content message store).0 ≡ only content
unfolding save_valid
save_valid_written disk (some m) p content message store clean whole ok = cc
save_valid_written disk none p content message store clean whole ok =
    let (others, no_backup, on_success, on_error, kept) =
      save_file-SavedOr disk p content message store clean in
    on_success ok whole

module _ {R : Type 0} (files : RecordFiles R) (keep : R → Bool) (goes_before : R → R → Bool)
    (asym : (a b : R) → goes_before a b ≡ true → goes_before b a ≡ false) (disk : Disk) where
  -- What the List gives for a directory in which the record `r` stands in the file named after its id.
  abbrev pub Shows : R → Store → Type 0
  Shows r store =
      (rs : List R)
      → list_records files keep goes_before disk store ≡ found rs
      → (sanitized (files.id_of r) ≡ files.id_of r) × (keep r ≡ true → In r rs)

  stored-Shows :
      (r : R) (text : String) (store : Store)
      → files.read text ≡ some r
      → slot_at (json_file files.directory (sanitized (files.id_of r))) store ≡ only text
      → disk.unreadable (json_file files.directory (sanitized (files.id_of r))) ≡ false
      → is_empty (sanitized (files.id_of r)) ≡ false
      → Shows r store
  stored-Shows r text store read stored readable named rs h =
      let (given, ordered, reads) =
        list_records_sound files keep disk goes_before asym store rs h in
      let (q, read_q, same, valid, listed) =
        reads (sanitized (files.id_of r)) text named readable (ap (λ s. s.target) stored) in
      let e : r ≡ q = some_injective (sym read ∙ read_q) in
      (
        sym (ap files.id_of e ∙ same),
        λ k. subst (λ x. In x rs) (sym e) (listed (ap keep (sym e) ∙ k)),
      )

module _ (json : Json) (disk : Disk) where
  read_own_definition :
      ReadsBack json.property_definition
      → (d : PropertyDefinition)
      → read_with json.property_definition from_property_definition_dto
          (json.property_definition.write (to_property_definition_dto d))
        ≡ some d
  unfolding read_with record_of
  read_own_definition law d =
      rw (law (to_property_definition_dto d)) (property_definition_from_own_dto d)

  -- The storage reads back what it writes, the file of the property definition has no backup and can be
  -- read, its name is not empty, and the closing of its temporary file loses nothing. After a save without error, a List of the definitions of a
  -- workspace that gives a list has the definition in it if it belongs to the workspace; and no List
  -- of any workspace gives a list, then, unless the definition's id is its file's name.
  pub save_property_definition-Shows :
      ReadsBack json.property_definition
      → (d : PropertyDefinition) (store : Store)
      → (slot_at (make_knowledge_file_path "property-definitions" d.id) store).backup ≡ none
      → disk.unreadable (make_knowledge_file_path "property-definitions" d.id) ≡ false
      → is_empty (sanitized d.id) ≡ false
      → (disk.write_faults (make_knowledge_file_path "property-definitions" d.id)).close_fails
        ≡ false
      → (save_property_definition json disk d store).1 ≡ none
      → let after = (save_property_definition json disk d store).0 in
        ((rs : List PropertyDefinition)
          → list_property_definitions json disk d.workspace_id after ≡ found rs
          → In d rs)
        × (sanitized d.id ≢ d.id
            → (workspace_id : String) (rs : List PropertyDefinition)
            → list_property_definitions json disk workspace_id after ≢ found rs)
  unfolding save_property_definition list_property_definitions property_definition_files
      make_knowledge_file_path
  save_property_definition-Shows law d store clean readable named whole ok =
      let after = (save_property_definition json disk d store).0 in
      let text = json.property_definition.write (to_property_definition_dto d) in
      let stored =
        save_valid_written disk (validate_property_definition d)
          (make_knowledge_file_path "property-definitions" d.id) text
          "Failed to write property definition file." store clean whole ok in
      let shows = λ (w : String).
        stored-Shows (property_definition_files json) (λ r. r.workspace_id == w)
          (λ a b. by_name a.name a.id b.name b.id) (λ a b. by_name_asym a.name a.id b.name b.id)
          disk d text after (read_own_definition law d) stored readable named in
      (
        λ rs h. (shows d.workspace_id rs h).1 (eq_refl d.workspace_id),
        λ ne w rs h. ne (shows w rs h).0,
      )
