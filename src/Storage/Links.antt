-- ===== src/Storage/Links.antt =====
-- storage/file_document_repository.cc: the operations on the records that refer to others (values of
-- a page's properties, relations between pages, results of agent runs), and what is removed with a
-- page.
use cpp_wiki.Prelude.{String, Bool, false, ◌&&◌, ◌||◌, Option, none, some, List, [], ◌∷◌, ◌==◌}
use cpp_wiki.Knowledge.{
  PropertyDefinition, PagePropertyValue, RelationType, PageRelation, AgentRun, ResultReference,
}
use cpp_wiki.Knowledge.Validation.{
  text_lt, validate_page_property_value, normalize_and_validate_page_relation,
}
use cpp_wiki.Knowledge.RunValidation.{validate_result_reference}
use cpp_wiki.Storage.{
  Store, Disk, Answer, found, failed, RepositoryError, make_error, invalid_record,
  make_knowledge_file_path, remove_file,
}
use cpp_wiki.Storage.Dtos.{
  to_page_property_value_dto, from_page_property_value_dto, to_page_relation_dto,
  from_page_relation_dto,
}
use cpp_wiki.Storage.ArtifactDtos.{to_result_reference_dto, from_result_reference_dto}
use cpp_wiki.Storage.Json.{Json}
use cpp_wiki.Storage.Lists.{RecordFiles, list_records, find_record}
use cpp_wiki.Storage.Knowledge.{
  read_with, save_valid, list_property_definitions, list_relation_types, list_agent_runs,
}

-- What is done next, unless there was an error.
unfoldable pub and_then :
    Store × Option RepositoryError
    → (Store → Store × Option RepositoryError)
    → Store × Option RepositoryError
and_then (store, some e) next = (store, some e)
and_then (store, none) next = next store

-- Each record of a list is removed in turn, up to the first error.
unfoldable pub remove_each :
    {R : Type 0}
    → (R → Store → Store × Option RepositoryError)
    → List R
    → Store
    → Store × Option RepositoryError
unfolding and_then
remove_each remove [] store = (store, none)
remove_each remove (r ∷ rs) store = and_then (remove r store) (λ s. remove_each remove rs s)

unfoldable pub remove_answered :
    {R : Type 0}
    → (R → Store → Store × Option RepositoryError)
    → Answer (List R)
    → Store
    → Store × Option RepositoryError
unfolding remove_each
remove_answered remove (failed e) store = (store, some e)
remove_answered remove (found rs) store = remove_each remove rs store

-- The record that a record refers to: an error of the List, or the id is unknown, or it is there.
unfoldable pub referred : {R : Type 0} → (R → String) → String → String → Answer (List R) → Answer R
unfolding find_record
referred id_of id message (failed e) = failed e
referred id_of id message (found rs) = elim (find_record id_of id rs) [
  | none ↦ failed (make_error invalid_record message)
  | some r ↦ found r
]

-- `parses_number` says whether `std::from_chars` reads a whole text as a double.
module _ (parses_number : String → Bool) (json : Json) where
  unfoldable pub page_property_value_files : RecordFiles PagePropertyValue
  unfolding read_with
  page_property_value_files = record {
    directory = "page-property-values";
    read = read_with json.page_property_value (λ d. some (from_page_property_value_dto d));
    id_of = (λ r. r.id);
    is_invalid = (λ r. false);
    parse_message = "Failed to parse page property value file.";
    invalid_message = "Page property value file id does not match its name.";
  }

  unfoldable pub save_referred_page_property_value :
      Disk → PagePropertyValue → Answer PropertyDefinition → Store → Store × Option RepositoryError
  unfolding save_valid validate_page_property_value
  save_referred_page_property_value disk r (failed e) store = (store, some e)
  save_referred_page_property_value disk r (found q) store =
      save_valid disk (validate_page_property_value parses_number r q)
        (make_knowledge_file_path "page-property-values" r.id)
        (json.page_property_value.write (to_page_property_value_dto r))
        "Failed to write page property value file." store

  unfoldable pub save_page_property_value :
      Disk → PagePropertyValue → Store → Store × Option RepositoryError
  unfolding save_referred_page_property_value referred
  save_page_property_value disk r store =
      save_referred_page_property_value disk r
        (referred (λ q. q.id) r.property_definition_id
          "Page property value refers to an unknown property definition."
          (list_property_definitions json disk r.workspace_id store))
        store

  unfoldable pub delete_page_property_value : Disk → String → Store → Store × Option RepositoryError
  unfolding remove_file
  delete_page_property_value disk id store =
      remove_file disk (make_knowledge_file_path "page-property-values" id) store

  unfoldable pub list_page_property_values :
      Disk → String → String → Store → Answer (List PagePropertyValue)
  unfolding list_records page_property_value_files text_lt
  list_page_property_values disk workspace_id page_id store =
      list_records page_property_value_files
        (λ r. r.workspace_id == workspace_id && r.page_id == page_id) (λ a b. text_lt a.id b.id)
        disk store

  unfoldable pub page_relation_files : RecordFiles PageRelation
  unfolding read_with
  page_relation_files = record {
    directory = "page-relations";
    read = read_with json.page_relation from_page_relation_dto;
    id_of = (λ r. r.id);
    is_invalid = (λ r. false);
    parse_message = "Failed to parse page relation file.";
    invalid_message = "Page relation file id does not match its name.";
  }

  -- The relation after the validation, with its message. (`none` would be a null pointer.)
  unfoldable pub save_normalized :
      Disk → Option PageRelation × Option String → Store → Store × Option RepositoryError
  unfolding save_valid
  save_normalized disk (none, message) store = (store, none)
  save_normalized disk (some r, message) store =
      save_valid disk (message) (make_knowledge_file_path "page-relations" r.id)
        (json.page_relation.write (to_page_relation_dto r)) "Failed to write page relation file."
        store

  unfoldable pub save_referred_page_relation :
      Disk → PageRelation → Answer RelationType → Store → Store × Option RepositoryError
  unfolding save_valid normalize_and_validate_page_relation save_normalized
  save_referred_page_relation disk r (failed e) store = (store, some e)
  save_referred_page_relation disk r (found q) store =
      save_normalized disk (normalize_and_validate_page_relation (some r) q) store

  unfoldable pub save_page_relation : Disk → PageRelation → Store → Store × Option RepositoryError
  unfolding save_referred_page_relation referred
  save_page_relation disk r store =
      save_referred_page_relation disk r
        (referred (λ q. q.id) r.relation_type_id "Page relation refers to an unknown relation type."
          (list_relation_types json disk r.workspace_id store))
        store

  unfoldable pub delete_page_relation : Disk → String → Store → Store × Option RepositoryError
  unfolding remove_file
  delete_page_relation disk id store =
      remove_file disk (make_knowledge_file_path "page-relations" id) store

  unfoldable pub list_page_relations : Disk → String → String → Store → Answer (List PageRelation)
  unfolding list_records page_relation_files text_lt
  list_page_relations disk workspace_id page_id store =
      list_records page_relation_files
        (λ r.
          r.workspace_id == workspace_id
          && (r.source_page_id == page_id || r.target_page_id == page_id))
        (λ a b. text_lt a.id b.id) disk store

  unfoldable pub result_reference_files : RecordFiles ResultReference
  unfolding read_with
  result_reference_files = record {
    directory = "result-references";
    read = read_with json.result_reference from_result_reference_dto;
    id_of = (λ r. r.id);
    is_invalid = (λ r. false);
    parse_message = "Failed to parse result reference file.";
    invalid_message = "Result reference file id does not match its name.";
  }

  unfoldable pub save_referred_result_reference :
      Disk → ResultReference → Answer AgentRun → Store → Store × Option RepositoryError
  unfolding save_valid validate_result_reference
  save_referred_result_reference disk r (failed e) store = (store, some e)
  save_referred_result_reference disk r (found q) store =
      save_valid disk (validate_result_reference r q)
        (make_knowledge_file_path "result-references" r.id)
        (json.result_reference.write (to_result_reference_dto r))
        "Failed to write result reference file." store

  unfoldable pub save_result_reference :
      Disk → ResultReference → Store → Store × Option RepositoryError
  unfolding save_referred_result_reference referred
  save_result_reference disk r store =
      save_referred_result_reference disk r
        (referred (λ q. q.id) r.agent_run_id "Result reference refers to an unknown agent run."
          (list_agent_runs json disk r.workspace_id store))
        store

  unfoldable pub delete_result_reference : Disk → String → Store → Store × Option RepositoryError
  unfolding remove_file
  delete_result_reference disk id store =
      remove_file disk (make_knowledge_file_path "result-references" id) store

  unfoldable pub list_result_references :
      Disk → String → String → Store → Answer (List ResultReference)
  unfolding list_records result_reference_files text_lt
  list_result_references disk workspace_id agent_run_id store =
      list_records result_reference_files
        (λ r. r.workspace_id == workspace_id && r.agent_run_id == agent_run_id)
        (λ a b. text_lt a.id b.id) disk store

  unfoldable pub clean_values : Disk → String → String → Store → Store × Option RepositoryError
  unfolding remove_answered list_page_property_values delete_page_property_value
  clean_values disk workspace_id page_id store =
      remove_answered (λ r s. delete_page_property_value disk r.id s)
        (list_page_property_values disk workspace_id page_id store) store

  unfoldable pub clean_relations : Disk → String → String → Store → Store × Option RepositoryError
  unfolding remove_answered list_page_relations delete_page_relation
  clean_relations disk workspace_id page_id store =
      remove_answered (λ r s. delete_page_relation disk r.id s)
        (list_page_relations disk workspace_id page_id store) store

  unfoldable pub delete_knowledge_for_page :
      Disk → String → String → Store → Store × Option RepositoryError
  unfolding and_then clean_values clean_relations
  delete_knowledge_for_page disk workspace_id page_id store =
      and_then (clean_values disk workspace_id page_id store)
        (λ s. clean_relations disk workspace_id page_id s)
