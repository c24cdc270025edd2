-- ===== src/Storage/Knowledge.antt =====
-- storage/file_document_repository.cc: the operations on property definitions, relation types,
-- repository artifacts, agent runs and context packs, whose records stand alone.
use cpp_wiki.Prelude.{
  String, Bool, ◌&&◌, Option, none, some, List, ◌==◌, if◌then◌else◌, is_some, ◌⊎◌, inl, inr,
}
use cpp_wiki.Knowledge.{PropertyDefinition, RelationType, RepositoryArtifact, AgentRun, ContextPack}
use cpp_wiki.Knowledge.Validation.{
  text_lt, validate_property_definition, validate_relation_type, validate_repository_artifact,
}
use cpp_wiki.Knowledge.RunValidation.{validate_agent_run, validate_context_pack}
use cpp_wiki.Storage.{
  FilePath, Store, Disk, Answer, RepositoryError, make_error, invalid_record,
  make_knowledge_file_path, save_file, remove_file,
}
use cpp_wiki.Storage.Dtos.{
  to_property_definition_dto, from_property_definition_dto, to_relation_type_dto,
  from_relation_type_dto,
}
use cpp_wiki.Storage.ArtifactDtos.{
  to_repository_artifact_dto, from_repository_artifact_dto, to_agent_run_dto, from_agent_run_dto,
  to_context_pack_dto, from_context_pack_dto,
}
use cpp_wiki.Storage.Json.{Json, Codec}
use cpp_wiki.Storage.Lists.{RecordFiles, list_records}

-- The record of what was read, if it was read.
unfoldable pub record_of : {D R : Type 0} → (D → Option R) → String ⊎ D → Option R
record_of from (inl message) = none
record_of from (inr dto) = from dto

-- The record of a JSON text, if it can be read.
unfoldable pub read_with : {D R : Type 0} → Codec D → (D → Option R) → String → Option R
unfolding record_of
read_with codec from content = record_of from (codec.read content)

-- A save once the record was validated.
unfoldable pub save_valid :
    Disk → Option String → FilePath → String → String → Store → Store × Option RepositoryError
unfolding save_file
save_valid disk (some message) p content error store =
    (store, some (make_error invalid_record message))
save_valid disk none p content error store = save_file disk p content error store

-- Ordered by a name, then by the id.
unfoldable pub by_name : String → String → String → String → Bool
unfolding text_lt
by_name name id name' id' = if name == name' then text_lt id id' else text_lt name name'

module _ (json : Json) where
  unfoldable pub property_definition_files : RecordFiles PropertyDefinition
  unfolding read_with validate_property_definition
  property_definition_files = record {
    directory = "property-definitions";
    read = read_with json.property_definition from_property_definition_dto;
    id_of = (λ r. r.id);
    is_invalid = (λ r. is_some (validate_property_definition r));
    parse_message = "Failed to parse property definition file.";
    invalid_message = "Property definition file contains an invalid record.";
  }

  unfoldable pub save_property_definition :
      Disk → PropertyDefinition → Store → Store × Option RepositoryError
  unfolding save_valid validate_property_definition
  save_property_definition disk r store =
      save_valid disk (validate_property_definition r)
        (make_knowledge_file_path "property-definitions" r.id)
        (json.property_definition.write (to_property_definition_dto r))
        "Failed to write property definition file." store

  unfoldable pub delete_property_definition : Disk → String → Store → Store × Option RepositoryError
  unfolding remove_file
  delete_property_definition disk id store =
      remove_file disk (make_knowledge_file_path "property-definitions" id) store

  unfoldable pub list_property_definitions :
      Disk → String → Store → Answer (List PropertyDefinition)
  unfolding list_records property_definition_files by_name
  list_property_definitions disk workspace_id store =
      list_records property_definition_files (λ r. r.workspace_id == workspace_id)
        (λ a b. by_name a.name a.id b.name b.id) disk store

  unfoldable pub relation_type_files : RecordFiles RelationType
  unfolding read_with validate_relation_type
  relation_type_files = record {
    directory = "relation-types";
    read = read_with json.relation_type from_relation_type_dto;
    id_of = (λ r. r.id);
    is_invalid = (λ r. is_some (validate_relation_type r));
    parse_message = "Failed to parse relation type file.";
    invalid_message = "Relation type file contains an invalid record.";
  }

  unfoldable pub save_relation_type : Disk → RelationType → Store → Store × Option RepositoryError
  unfolding save_valid validate_relation_type
  save_relation_type disk r store =
      save_valid disk (validate_relation_type r) (make_knowledge_file_path "relation-types" r.id)
        (json.relation_type.write (to_relation_type_dto r)) "Failed to write relation type file."
        store

  unfoldable pub delete_relation_type : Disk → String → Store → Store × Option RepositoryError
  unfolding remove_file
  delete_relation_type disk id store =
      remove_file disk (make_knowledge_file_path "relation-types" id) store

  unfoldable pub list_relation_types : Disk → String → Store → Answer (List RelationType)
  unfolding list_records relation_type_files by_name
  list_relation_types disk workspace_id store =
      list_records relation_type_files (λ r. r.workspace_id == workspace_id)
        (λ a b. by_name a.name a.id b.name b.id) disk store

  unfoldable pub repository_artifact_files : RecordFiles RepositoryArtifact
  unfolding read_with validate_repository_artifact
  repository_artifact_files = record {
    directory = "repository-artifacts";
    read = read_with json.repository_artifact from_repository_artifact_dto;
    id_of = (λ r. r.id);
    is_invalid = (λ r. is_some (validate_repository_artifact r));
    parse_message = "Failed to parse repository artifact file.";
    invalid_message = "Repository artifact file contains an invalid record.";
  }

  unfoldable pub save_repository_artifact :
      Disk → RepositoryArtifact → Store → Store × Option RepositoryError
  unfolding save_valid validate_repository_artifact
  save_repository_artifact disk r store =
      save_valid disk (validate_repository_artifact r)
        (make_knowledge_file_path "repository-artifacts" r.id)
        (json.repository_artifact.write (to_repository_artifact_dto r))
        "Failed to write repository artifact file." store

  unfoldable pub delete_repository_artifact : Disk → String → Store → Store × Option RepositoryError
  unfolding remove_file
  delete_repository_artifact disk id store =
      remove_file disk (make_knowledge_file_path "repository-artifacts" id) store

  unfoldable pub list_repository_artifacts :
      Disk → String → Store → Answer (List RepositoryArtifact)
  unfolding list_records repository_artifact_files text_lt
  list_repository_artifacts disk workspace_id store =
      list_records repository_artifact_files (λ r. r.workspace_id == workspace_id)
        (λ a b. text_lt a.id b.id) disk store

  unfoldable pub agent_run_files : RecordFiles AgentRun
  unfolding read_with validate_agent_run
  agent_run_files = record {
    directory = "agent-runs";
    read = read_with json.agent_run from_agent_run_dto;
    id_of = (λ r. r.id);
    is_invalid = (λ r. is_some (validate_agent_run r));
    parse_message = "Failed to parse agent run file.";
    invalid_message = "Agent run file contains an invalid record.";
  }

  unfoldable pub save_agent_run : Disk → AgentRun → Store → Store × Option RepositoryError
  unfolding save_valid validate_agent_run
  save_agent_run disk r store =
      save_valid disk (validate_agent_run r) (make_knowledge_file_path "agent-runs" r.id)
        (json.agent_run.write (to_agent_run_dto r)) "Failed to write agent run file." store

  unfoldable pub delete_agent_run : Disk → String → Store → Store × Option RepositoryError
  unfolding remove_file
  delete_agent_run disk id store = remove_file disk (make_knowledge_file_path "agent-runs" id) store

  unfoldable pub list_agent_runs : Disk → String → Store → Answer (List AgentRun)
  unfolding list_records agent_run_files text_lt
  list_agent_runs disk workspace_id store =
      list_records agent_run_files (λ r. r.workspace_id == workspace_id) (λ a b. text_lt a.id b.id)
        disk store

  unfoldable pub context_pack_files : RecordFiles ContextPack
  unfolding read_with validate_context_pack
  context_pack_files = record {
    directory = "context-packs";
    read = read_with json.context_pack from_context_pack_dto;
    id_of = (λ r. r.id);
    is_invalid = (λ r. is_some (validate_context_pack r));
    parse_message = "Failed to parse context pack file.";
    invalid_message = "Context pack file contains an invalid record.";
  }

  unfoldable pub save_context_pack : Disk → ContextPack → Store → Store × Option RepositoryError
  unfolding save_valid validate_context_pack
  save_context_pack disk r store =
      save_valid disk (validate_context_pack r) (make_knowledge_file_path "context-packs" r.id)
        (json.context_pack.write (to_context_pack_dto r)) "Failed to write context pack file." store

  unfoldable pub delete_context_pack : Disk → String → Store → Store × Option RepositoryError
  unfolding remove_file
  delete_context_pack disk id store =
      remove_file disk (make_knowledge_file_path "context-packs" id) store

  unfoldable pub list_context_packs : Disk → String → String → Store → Answer (List ContextPack)
  unfolding list_records context_pack_files text_lt
  list_context_packs disk workspace_id task_id store =
      list_records context_pack_files (λ r. r.workspace_id == workspace_id && r.task_id == task_id)
        (λ a b. text_lt a.id b.id) disk store
