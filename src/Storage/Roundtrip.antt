-- ===== src/Storage/Roundtrip.antt =====
-- Every record is read back from its own file's fields as it was.
use cpp_wiki.Prelude.{◌≡◌, refl, some, List, [], ◌∷◌}
use cpp_wiki.Knowledge.{
  PropertyValueKind, RecordState, RelationDirection, ArtifactKind, AgentRunStatus,
  ResultReferenceKind, ContextPackState, AuditMetadata, PropertyDefinition, PagePropertyValue,
  RelationType, PageRelation, RepositoryArtifact, AgentRun, ResultReference, ContextPackItem,
  ContextPack,
}
use cpp_wiki.Knowledge as Cases
use cpp_wiki.Storage.Codes.{
  agent_run_status_code, agent_run_status_from_code, artifact_kind_code, artifact_kind_from_code,
  context_pack_state_code, context_pack_state_from_code, property_value_kind_code,
  property_value_kind_from_code, record_state_code, record_state_from_code, relation_direction_code,
  relation_direction_from_code, result_reference_kind_code, result_reference_kind_from_code,
}
use cpp_wiki.Storage.Dtos.{
  to_audit_dto, from_audit_dto, to_property_definition_dto, from_property_definition_dto,
  to_page_property_value_dto, from_page_property_value_dto, to_relation_type_dto,
  from_relation_type_dto, to_page_relation_dto, from_page_relation_dto,
}
use cpp_wiki.Storage.ArtifactDtos.{
  to_repository_artifact_dto, from_repository_artifact_dto, to_agent_run_dto, from_agent_run_dto,
  to_result_reference_dto, from_result_reference_dto, to_context_pack_item_dto,
  from_context_pack_item_dto, to_context_pack_dto, from_context_pack_dto, to_context_pack_item_dtos,
  from_context_pack_item_dtos,
}

property_value_kind_from_own_code :
    (k : PropertyValueKind) → property_value_kind_from_code (property_value_kind_code k) ≡ some k
unfolding property_value_kind_from_code property_value_kind_code
property_value_kind_from_own_code Cases.text = refl
property_value_kind_from_own_code Cases.number = refl
property_value_kind_from_own_code Cases.date = refl
property_value_kind_from_own_code Cases.checkbox = refl
property_value_kind_from_own_code Cases.select = refl
property_value_kind_from_own_code Cases.multi_select = refl
property_value_kind_from_own_code Cases.tags = refl
property_value_kind_from_own_code Cases.relation = refl

record_state_from_own_code :
    (k : RecordState) → record_state_from_code (record_state_code k) ≡ some k
unfolding record_state_from_code record_state_code
record_state_from_own_code Cases.active = refl
record_state_from_own_code Cases.retired = refl

relation_direction_from_own_code :
    (k : RelationDirection) → relation_direction_from_code (relation_direction_code k) ≡ some k
unfolding relation_direction_from_code relation_direction_code
relation_direction_from_own_code Cases.directed = refl
relation_direction_from_own_code Cases.symmetric = refl

artifact_kind_from_own_code :
    (k : ArtifactKind) → artifact_kind_from_code (artifact_kind_code k) ≡ some k
unfolding artifact_kind_from_code artifact_kind_code
artifact_kind_from_own_code Cases.page = refl
artifact_kind_from_own_code Cases.repository = refl
artifact_kind_from_own_code Cases.agent_run = refl
artifact_kind_from_own_code Cases.result_reference = refl

agent_run_status_from_own_code :
    (k : AgentRunStatus) → agent_run_status_from_code (agent_run_status_code k) ≡ some k
unfolding agent_run_status_from_code agent_run_status_code
agent_run_status_from_own_code Cases.pending = refl
agent_run_status_from_own_code Cases.running = refl
agent_run_status_from_own_code Cases.succeeded = refl
agent_run_status_from_own_code Cases.failed = refl
agent_run_status_from_own_code Cases.cancelled = refl

result_reference_kind_from_own_code :
    (k : ResultReferenceKind)
    → result_reference_kind_from_code (result_reference_kind_code k) ≡ some k
unfolding result_reference_kind_from_code result_reference_kind_code
result_reference_kind_from_own_code Cases.git_ref = refl
result_reference_kind_from_own_code Cases.diff = refl
result_reference_kind_from_own_code Cases.log = refl
result_reference_kind_from_own_code Cases.external_url = refl

context_pack_state_from_own_code :
    (k : ContextPackState) → context_pack_state_from_code (context_pack_state_code k) ≡ some k
unfolding context_pack_state_from_code context_pack_state_code
context_pack_state_from_own_code Cases.draft = refl
context_pack_state_from_own_code Cases.approved = refl

pub property_definition_from_own_dto :
    (r : PropertyDefinition) → from_property_definition_dto (to_property_definition_dto r) ≡ some r
unfolding to_property_definition_dto from_property_definition_dto to_audit_dto from_audit_dto
property_definition_from_own_dto r =
    rw (property_value_kind_from_own_code r.value_kind, record_state_from_own_code r.state)

page_property_value_from_own_dto :
    (r : PagePropertyValue) → from_page_property_value_dto (to_page_property_value_dto r) ≡ r
unfolding to_page_property_value_dto from_page_property_value_dto to_audit_dto from_audit_dto
page_property_value_from_own_dto r = refl

relation_type_from_own_dto :
    (r : RelationType) → from_relation_type_dto (to_relation_type_dto r) ≡ some r
unfolding to_relation_type_dto from_relation_type_dto to_audit_dto from_audit_dto
relation_type_from_own_dto r =
    rw (relation_direction_from_own_code r.direction, record_state_from_own_code r.state)

page_relation_from_own_dto :
    (r : PageRelation) → from_page_relation_dto (to_page_relation_dto r) ≡ some r
unfolding to_page_relation_dto from_page_relation_dto to_audit_dto from_audit_dto
page_relation_from_own_dto r =
    rw (artifact_kind_from_own_code r.source_kind, artifact_kind_from_own_code r.target_kind)

repository_artifact_from_own_dto :
    (r : RepositoryArtifact) → from_repository_artifact_dto (to_repository_artifact_dto r) ≡ some r
unfolding to_repository_artifact_dto from_repository_artifact_dto to_audit_dto from_audit_dto
repository_artifact_from_own_dto r = rw (record_state_from_own_code r.state)

agent_run_from_own_dto : (r : AgentRun) → from_agent_run_dto (to_agent_run_dto r) ≡ some r
unfolding to_agent_run_dto from_agent_run_dto to_audit_dto from_audit_dto
agent_run_from_own_dto r = rw (agent_run_status_from_own_code r.status)

result_reference_from_own_dto :
    (r : ResultReference) → from_result_reference_dto (to_result_reference_dto r) ≡ some r
unfolding to_result_reference_dto from_result_reference_dto
result_reference_from_own_dto r = rw (result_reference_kind_from_own_code r.kind)

context_pack_item_from_own_dto :
    (r : ContextPackItem) → from_context_pack_item_dto (to_context_pack_item_dto r) ≡ some r
unfolding to_context_pack_item_dto from_context_pack_item_dto
context_pack_item_from_own_dto r = rw (artifact_kind_from_own_code r.artifact_kind)

items_from_own_dtos :
    (items : List ContextPackItem)
    → from_context_pack_item_dtos (to_context_pack_item_dtos items) ≡ some items
unfolding to_context_pack_item_dtos from_context_pack_item_dtos
items_from_own_dtos [] = refl
items_from_own_dtos (item ∷ items) =
    rw (context_pack_item_from_own_dto item, items_from_own_dtos items)

context_pack_from_own_dto :
    (r : ContextPack) → from_context_pack_dto (to_context_pack_dto r) ≡ some r
unfolding to_context_pack_dto from_context_pack_dto to_audit_dto from_audit_dto
context_pack_from_own_dto r =
    rw (context_pack_state_from_own_code r.state, items_from_own_dtos r.items)

-- Every record of a workspace is read back from the fields of its own file as it was: property
-- definitions, property values, relation types, page relations, artifacts, agent runs, results and
-- context packs.
pub dtos_round_trip :
    ((r : PropertyDefinition)
      → from_property_definition_dto (to_property_definition_dto r) ≡ some r)
    × ((r : PagePropertyValue) → from_page_property_value_dto (to_page_property_value_dto r) ≡ r)
    × ((r : RelationType) → from_relation_type_dto (to_relation_type_dto r) ≡ some r)
    × ((r : PageRelation) → from_page_relation_dto (to_page_relation_dto r) ≡ some r)
    × ((r : RepositoryArtifact)
        → from_repository_artifact_dto (to_repository_artifact_dto r) ≡ some r)
    × ((r : AgentRun) → from_agent_run_dto (to_agent_run_dto r) ≡ some r)
    × ((r : ResultReference) → from_result_reference_dto (to_result_reference_dto r) ≡ some r)
    × ((r : ContextPack) → from_context_pack_dto (to_context_pack_dto r) ≡ some r)
dtos_round_trip = (
  property_definition_from_own_dto, page_property_value_from_own_dto, relation_type_from_own_dto,
  page_relation_from_own_dto, repository_artifact_from_own_dto, agent_run_from_own_dto,
  result_reference_from_own_dto, context_pack_from_own_dto,
)
