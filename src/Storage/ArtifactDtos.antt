-- ===== src/Storage/ArtifactDtos.antt =====
-- Artifacts, agent runs, their results and context packs of a workspace as they stand in their JSON files (ToDto and FromDto, as in the module Dtos). The number of a
-- case of an enum is read back as that case; a number that is no case's is taken as unreadable, where
-- the source carries it on. Such a number is never written.
use cpp_wiki.Prelude.{String, ℤ, Option, some, List, Bool, [], ◌∷◌}
use cpp_wiki.Storage.Codes.{
  ◌>>=◌, agent_run_status_code, agent_run_status_from_code, artifact_kind_code,
  artifact_kind_from_code, context_pack_state_code, context_pack_state_from_code, record_state_code,
  record_state_from_code, result_reference_kind_code, result_reference_kind_from_code,
}
use cpp_wiki.Knowledge.{RepositoryArtifact, AgentRun, ResultReference, ContextPackItem, ContextPack}
use cpp_wiki.Storage.Dtos.{FileAuditMetadataDto, to_audit_dto, from_audit_dto}

pub record FileRepositoryArtifactDto : Type 0 where
  pub id : String
  pub workspace_id : String
  pub name : String
  pub remote_url : String
  pub default_branch : String
  pub state : ℤ
  pub audit : FileAuditMetadataDto

unfoldable pub to_repository_artifact_dto : RepositoryArtifact → FileRepositoryArtifactDto
unfolding record_state_code to_audit_dto
to_repository_artifact_dto r = record {
  id = r.id;
  workspace_id = r.workspace_id;
  name = r.name;
  remote_url = r.remote_url;
  default_branch = r.default_branch;
  state = record_state_code r.state;
  audit = to_audit_dto r.audit;
}

unfoldable pub from_repository_artifact_dto : FileRepositoryArtifactDto → Option RepositoryArtifact
unfolding record_state_from_code from_audit_dto
from_repository_artifact_dto d = do
  state ← record_state_from_code d.state
  some (record {
    id = d.id;
    workspace_id = d.workspace_id;
    name = d.name;
    remote_url = d.remote_url;
    default_branch = d.default_branch;
    state = state;
    audit = from_audit_dto d.audit;
  })

pub record FileAgentRunDto : Type 0 where
  pub id : String
  pub workspace_id : String
  pub task_id : String
  pub context_pack_ref : String
  pub runtime_id : String
  pub status : ℤ
  pub started_at : String
  pub completed_at : Option String
  pub audit : FileAuditMetadataDto

unfoldable pub to_agent_run_dto : AgentRun → FileAgentRunDto
unfolding agent_run_status_code to_audit_dto
to_agent_run_dto r = record {
  id = r.id;
  workspace_id = r.workspace_id;
  task_id = r.task_id;
  context_pack_ref = r.context_pack_ref;
  runtime_id = r.runtime_id;
  status = agent_run_status_code r.status;
  started_at = r.started_at;
  completed_at = r.completed_at;
  audit = to_audit_dto r.audit;
}

unfoldable pub from_agent_run_dto : FileAgentRunDto → Option AgentRun
unfolding agent_run_status_from_code from_audit_dto
from_agent_run_dto d = do
  status ← agent_run_status_from_code d.status
  some (record {
    id = d.id;
    workspace_id = d.workspace_id;
    task_id = d.task_id;
    context_pack_ref = d.context_pack_ref;
    runtime_id = d.runtime_id;
    status = status;
    started_at = d.started_at;
    completed_at = d.completed_at;
    audit = from_audit_dto d.audit;
  })

pub record FileResultReferenceDto : Type 0 where
  pub id : String
  pub workspace_id : String
  pub agent_run_id : String
  pub kind : ℤ
  pub locator : String
  pub summary : Option String
  pub created_at : String
  pub created_by : String

unfoldable pub to_result_reference_dto : ResultReference → FileResultReferenceDto
unfolding result_reference_kind_code
to_result_reference_dto r = record {
  id = r.id;
  workspace_id = r.workspace_id;
  agent_run_id = r.agent_run_id;
  kind = result_reference_kind_code r.kind;
  locator = r.locator;
  summary = r.summary;
  created_at = r.created_at;
  created_by = r.created_by;
}

unfoldable pub from_result_reference_dto : FileResultReferenceDto → Option ResultReference
unfolding result_reference_kind_from_code
from_result_reference_dto d = do
  kind ← result_reference_kind_from_code d.kind
  some (record {
    id = d.id;
    workspace_id = d.workspace_id;
    agent_run_id = d.agent_run_id;
    kind = kind;
    locator = d.locator;
    summary = d.summary;
    created_at = d.created_at;
    created_by = d.created_by;
  })

pub record FileContextPackItemDto : Type 0 where
  pub id : String
  pub relation_id : String
  pub artifact_kind : ℤ
  pub artifact_id : String
  pub included : Bool

unfoldable pub to_context_pack_item_dto : ContextPackItem → FileContextPackItemDto
unfolding artifact_kind_code
to_context_pack_item_dto r = record {
  id = r.id;
  relation_id = r.relation_id;
  artifact_kind = artifact_kind_code r.artifact_kind;
  artifact_id = r.artifact_id;
  included = r.included;
}

unfoldable pub from_context_pack_item_dto : FileContextPackItemDto → Option ContextPackItem
unfolding artifact_kind_from_code
from_context_pack_item_dto d = do
  artifact_kind ← artifact_kind_from_code d.artifact_kind
  some (record {
    id = d.id;
    relation_id = d.relation_id;
    artifact_kind = artifact_kind;
    artifact_id = d.artifact_id;
    included = d.included;
  })

unfoldable pub to_context_pack_item_dtos : List ContextPackItem → List FileContextPackItemDto
unfolding to_context_pack_item_dto
to_context_pack_item_dtos [] = []
to_context_pack_item_dtos (item ∷ items) =
    to_context_pack_item_dto item ∷ to_context_pack_item_dtos items

unfoldable pub from_context_pack_item_dtos :
    List FileContextPackItemDto → Option (List ContextPackItem)
unfolding from_context_pack_item_dto
from_context_pack_item_dtos [] = some []
from_context_pack_item_dtos (dto ∷ dtos) = do
  item ← from_context_pack_item_dto dto
  items ← from_context_pack_item_dtos dtos
  some (item ∷ items)

pub record FileContextPackDto : Type 0 where
  pub id : String
  pub workspace_id : String
  pub task_id : String
  pub task_intent : String
  pub items : List FileContextPackItemDto
  pub repository_guidance : Option String
  pub state : ℤ
  pub audit : FileAuditMetadataDto

unfoldable pub to_context_pack_dto : ContextPack → FileContextPackDto
unfolding context_pack_state_code to_audit_dto to_context_pack_item_dtos
to_context_pack_dto r = record {
  id = r.id;
  workspace_id = r.workspace_id;
  task_id = r.task_id;
  task_intent = r.task_intent;
  items = to_context_pack_item_dtos r.items;
  repository_guidance = r.repository_guidance;
  state = context_pack_state_code r.state;
  audit = to_audit_dto r.audit;
}

unfoldable pub from_context_pack_dto : FileContextPackDto → Option ContextPack
unfolding context_pack_state_from_code from_audit_dto from_context_pack_item_dtos
from_context_pack_dto d = do
  items ← from_context_pack_item_dtos d.items
  state ← context_pack_state_from_code d.state
  some (record {
    id = d.id;
    workspace_id = d.workspace_id;
    task_id = d.task_id;
    task_intent = d.task_intent;
    items = items;
    repository_guidance = d.repository_guidance;
    state = state;
    audit = from_audit_dto d.audit;
  })
