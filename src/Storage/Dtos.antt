-- ===== src/Storage/Dtos.antt =====
-- The records of a workspace as they stand in their JSON files (ToDto and FromDto). The number of a
-- case of an enum is read back as that case; a number that is no case's is taken as unreadable, where
-- the source carries it on. Such a number is never written.
use cpp_wiki.Prelude.{String, ℤ, Option, some, List}
use cpp_wiki.Storage.Codes.{
  ◌>>=◌, artifact_kind_code, artifact_kind_from_code, property_value_kind_code,
  property_value_kind_from_code, record_state_code, record_state_from_code, relation_direction_code,
  relation_direction_from_code,
}
use cpp_wiki.Knowledge.{
  AuditMetadata, PropertyDefinition, PagePropertyValue, RelationType, PageRelation,
}

pub record FileAuditMetadataDto : Type 0 where
  pub created_at : String
  pub updated_at : String
  pub created_by : String
  pub updated_by : String

unfoldable pub to_audit_dto : AuditMetadata → FileAuditMetadataDto
to_audit_dto r = record {
  created_at = r.created_at;
  updated_at = r.updated_at;
  created_by = r.created_by;
  updated_by = r.updated_by;
}

unfoldable pub from_audit_dto : FileAuditMetadataDto → AuditMetadata
from_audit_dto d = record {
  created_at = d.created_at;
  updated_at = d.updated_at;
  created_by = d.created_by;
  updated_by = d.updated_by;
}

pub record FilePropertyDefinitionDto : Type 0 where
  pub id : String
  pub workspace_id : String
  pub name : String
  pub group_name : Option String
  pub value_kind : ℤ
  pub options : List String
  pub state : ℤ
  pub audit : FileAuditMetadataDto

unfoldable pub to_property_definition_dto : PropertyDefinition → FilePropertyDefinitionDto
unfolding property_value_kind_code record_state_code to_audit_dto
to_property_definition_dto r = record {
  id = r.id;
  workspace_id = r.workspace_id;
  name = r.name;
  group_name = r.group_name;
  value_kind = property_value_kind_code r.value_kind;
  options = r.options;
  state = record_state_code r.state;
  audit = to_audit_dto r.audit;
}

unfoldable pub from_property_definition_dto : FilePropertyDefinitionDto → Option PropertyDefinition
unfolding property_value_kind_from_code record_state_from_code from_audit_dto
from_property_definition_dto d = do
  value_kind ← property_value_kind_from_code d.value_kind
  state ← record_state_from_code d.state
  some (record {
    id = d.id;
    workspace_id = d.workspace_id;
    name = d.name;
    group_name = d.group_name;
    value_kind = value_kind;
    options = d.options;
    state = state;
    audit = from_audit_dto d.audit;
  })

pub record FilePagePropertyValueDto : Type 0 where
  pub id : String
  pub workspace_id : String
  pub page_id : String
  pub property_definition_id : String
  pub values : List String
  pub audit : FileAuditMetadataDto

unfoldable pub to_page_property_value_dto : PagePropertyValue → FilePagePropertyValueDto
unfolding to_audit_dto
to_page_property_value_dto r = record {
  id = r.id;
  workspace_id = r.workspace_id;
  page_id = r.page_id;
  property_definition_id = r.property_definition_id;
  values = r.values;
  audit = to_audit_dto r.audit;
}

unfoldable pub from_page_property_value_dto : FilePagePropertyValueDto → PagePropertyValue
unfolding from_audit_dto
from_page_property_value_dto d = record {
  id = d.id;
  workspace_id = d.workspace_id;
  page_id = d.page_id;
  property_definition_id = d.property_definition_id;
  values = d.values;
  audit = from_audit_dto d.audit;
}

pub record FileRelationTypeDto : Type 0 where
  pub id : String
  pub workspace_id : String
  pub name : String
  pub inverse_name : Option String
  pub direction : ℤ
  pub state : ℤ
  pub audit : FileAuditMetadataDto

unfoldable pub to_relation_type_dto : RelationType → FileRelationTypeDto
unfolding record_state_code relation_direction_code to_audit_dto
to_relation_type_dto r = record {
  id = r.id;
  workspace_id = r.workspace_id;
  name = r.name;
  inverse_name = r.inverse_name;
  direction = relation_direction_code r.direction;
  state = record_state_code r.state;
  audit = to_audit_dto r.audit;
}

unfoldable pub from_relation_type_dto : FileRelationTypeDto → Option RelationType
unfolding record_state_from_code relation_direction_from_code from_audit_dto
from_relation_type_dto d = do
  direction ← relation_direction_from_code d.direction
  state ← record_state_from_code d.state
  some (record {
    id = d.id;
    workspace_id = d.workspace_id;
    name = d.name;
    inverse_name = d.inverse_name;
    direction = direction;
    state = state;
    audit = from_audit_dto d.audit;
  })

pub record FilePageRelationDto : Type 0 where
  pub id : String
  pub workspace_id : String
  pub relation_type_id : String
  pub source_page_id : String
  pub target_page_id : String
  pub source_kind : ℤ
  pub target_kind : ℤ
  pub audit : FileAuditMetadataDto

unfoldable pub to_page_relation_dto : PageRelation → FilePageRelationDto
unfolding artifact_kind_code to_audit_dto
to_page_relation_dto r = record {
  id = r.id;
  workspace_id = r.workspace_id;
  relation_type_id = r.relation_type_id;
  source_page_id = r.source_page_id;
  target_page_id = r.target_page_id;
  source_kind = artifact_kind_code r.source_kind;
  target_kind = artifact_kind_code r.target_kind;
  audit = to_audit_dto r.audit;
}

unfoldable pub from_page_relation_dto : FilePageRelationDto → Option PageRelation
unfolding artifact_kind_from_code from_audit_dto
from_page_relation_dto d = do
  source_kind ← artifact_kind_from_code d.source_kind
  target_kind ← artifact_kind_from_code d.target_kind
  some (record {
    id = d.id;
    workspace_id = d.workspace_id;
    relation_type_id = d.relation_type_id;
    source_page_id = d.source_page_id;
    target_page_id = d.target_page_id;
    source_kind = source_kind;
    target_kind = target_kind;
    audit = from_audit_dto d.audit;
  })
