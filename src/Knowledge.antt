-- ===== src/Knowledge.antt =====
-- knowledge/knowledge_record.h: the typed records of a workspace (properties of pages, relations
-- between them, agent runs and their results, context packs). Each enum is a data type with the
-- source's cases, each struct a record with the source's fields.
pub mod Validation
pub mod RunValidation
pub mod Checks
pub mod Properties
pub mod Relations
pub mod Runs
pub mod Lives
mod Tests
use cpp_wiki.Prelude.{String, Bool, Option, List}

pub data PropertyValueKind : Type 0 where
  text number date checkbox select multi_select tags relation : PropertyValueKind

pub data RecordState : Type 0 where
  active retired : RecordState

pub record AuditMetadata : Type 0 where
  pub created_at : String
  pub updated_at : String
  pub created_by : String
  pub updated_by : String

pub record PropertyDefinition : Type 0 where
  pub id : String
  pub workspace_id : String
  pub name : String
  pub group_name : Option String
  pub value_kind : PropertyValueKind
  pub options : List String
  pub state : RecordState
  pub audit : AuditMetadata

pub record PagePropertyValue : Type 0 where
  pub id : String
  pub workspace_id : String
  pub page_id : String
  pub property_definition_id : String
  pub values : List String
  pub audit : AuditMetadata

pub data RelationDirection : Type 0 where
  directed symmetric : RelationDirection

pub record RelationType : Type 0 where
  pub id : String
  pub workspace_id : String
  pub name : String
  pub inverse_name : Option String
  pub direction : RelationDirection
  pub state : RecordState
  pub audit : AuditMetadata

pub data ArtifactKind : Type 0 where
  page repository agent_run result_reference : ArtifactKind

pub record PageRelation : Type 0 where
  pub id : String
  pub workspace_id : String
  pub relation_type_id : String
  pub source_page_id : String
  pub target_page_id : String
  pub source_kind : ArtifactKind
  pub target_kind : ArtifactKind
  pub audit : AuditMetadata

pub record RepositoryArtifact : Type 0 where
  pub id : String
  pub workspace_id : String
  pub name : String
  pub remote_url : String
  pub default_branch : String
  pub state : RecordState
  pub audit : AuditMetadata

pub data AgentRunStatus : Type 0 where
  pending running succeeded failed cancelled : AgentRunStatus

pub record AgentRun : Type 0 where
  pub id : String
  pub workspace_id : String
  pub task_id : String
  pub context_pack_ref : String
  pub runtime_id : String
  pub status : AgentRunStatus
  pub started_at : String
  pub completed_at : Option String
  pub audit : AuditMetadata

pub data ResultReferenceKind : Type 0 where
  git_ref diff log external_url : ResultReferenceKind

pub record ResultReference : Type 0 where
  pub id : String
  pub workspace_id : String
  pub agent_run_id : String
  pub kind : ResultReferenceKind
  pub locator : String
  pub summary : Option String
  pub created_at : String
  pub created_by : String

pub data ContextPackState : Type 0 where
  draft approved : ContextPackState

pub record ContextPackItem : Type 0 where
  pub id : String
  pub relation_id : String
  pub artifact_kind : ArtifactKind
  pub artifact_id : String
  pub included : Bool

pub record ContextPack : Type 0 where
  pub id : String
  pub workspace_id : String
  pub task_id : String
  pub task_intent : String
  pub items : List ContextPackItem
  pub repository_guidance : Option String
  pub state : ContextPackState
  pub audit : AuditMetadata
