-- ===== src/Storage/Documents.antt =====
-- The records of attachments, pages, conflicts and revisions as they stand in their JSON files (ToDto
-- and FromDto). The snapshot of a page is not stored: a page that is read has an empty one, and its
-- text in `raw_snapshot_json`.
use cpp_wiki.Prelude.{String, ℕ, ℤ, pos, Option, none, some, value_or}
use cpp_wiki.Documents.{SchemaVersion, v1, BlockNoteDocumentSnapshot}
use cpp_wiki.Documents.Kinds.{to_document_kind_key, document_kind_from_key}
use cpp_wiki.Merge.{DocumentRecord, DocumentConflictRecord}
use cpp_wiki.Attachments.{AttachmentMetadata}

pub record DocumentRevisionRecord : Type 0 where
  pub id : String
  pub document_id : String
  pub workspace_id : String
  pub raw_snapshot_json : String
  pub title : String
  pub saved_at : String

pub record FileAttachmentDto : Type 0 where
  pub id : String
  pub workspace_id : String
  pub filename : String
  pub mime_type : String
  pub size_bytes : ℕ
  pub sha256 : String
  pub created_at : String
  pub created_by : String

unfoldable pub to_attachment_dto : AttachmentMetadata → FileAttachmentDto
to_attachment_dto r = record {
  id = r.id;
  workspace_id = r.workspace_id;
  filename = r.filename;
  mime_type = r.mime_type;
  size_bytes = r.size_bytes;
  sha256 = r.sha256;
  created_at = r.created_at;
  created_by = r.created_by;
}

unfoldable pub from_attachment_dto : FileAttachmentDto → AttachmentMetadata
from_attachment_dto d = record {
  id = d.id;
  workspace_id = d.workspace_id;
  filename = d.filename;
  mime_type = d.mime_type;
  size_bytes = d.size_bytes;
  sha256 = d.sha256;
  created_at = d.created_at;
  created_by = d.created_by;
}

pub record FileConflictRecordDto : Type 0 where
  pub id : String
  pub document_id : String
  pub workspace_id : String
  pub base_version : ℤ
  pub local_snapshot : String
  pub remote_snapshot : String
  pub local_updated_by : String
  pub remote_updated_by : String
  pub detected_at : String
  pub resolution_state : String

unfoldable pub to_conflict_dto : DocumentConflictRecord → FileConflictRecordDto
to_conflict_dto r = record {
  id = r.id;
  document_id = r.document_id;
  workspace_id = r.workspace_id;
  base_version = r.base_version;
  local_snapshot = r.local_snapshot;
  remote_snapshot = r.remote_snapshot;
  local_updated_by = r.local_updated_by;
  remote_updated_by = r.remote_updated_by;
  detected_at = r.detected_at;
  resolution_state = r.resolution_state;
}

unfoldable pub from_conflict_dto : FileConflictRecordDto → DocumentConflictRecord
from_conflict_dto d = record {
  id = d.id;
  document_id = d.document_id;
  workspace_id = d.workspace_id;
  base_version = d.base_version;
  local_snapshot = d.local_snapshot;
  remote_snapshot = d.remote_snapshot;
  local_updated_by = d.local_updated_by;
  remote_updated_by = d.remote_updated_by;
  detected_at = d.detected_at;
  resolution_state = d.resolution_state;
}

pub record FileDocumentRevisionDto : Type 0 where
  pub id : String
  pub document_id : String
  pub workspace_id : String
  pub raw_snapshot_json : String
  pub title : String
  pub saved_at : String

unfoldable pub to_revision_dto : DocumentRevisionRecord → FileDocumentRevisionDto
to_revision_dto r = record {
  id = r.id;
  document_id = r.document_id;
  workspace_id = r.workspace_id;
  raw_snapshot_json = r.raw_snapshot_json;
  title = r.title;
  saved_at = r.saved_at;
}

unfoldable pub from_revision_dto : FileDocumentRevisionDto → DocumentRevisionRecord
from_revision_dto d = record {
  id = d.id;
  document_id = d.document_id;
  workspace_id = d.workspace_id;
  raw_snapshot_json = d.raw_snapshot_json;
  title = d.title;
  saved_at = d.saved_at;
}

pub record FileDocumentRecordDto : Type 0 where
  pub id : String
  pub schema_version : ℤ
  pub kind : Option String
  pub title : String
  pub workspace_id : String
  pub parent_id : Option String
  pub sort_order : ℤ
  pub created_at : String
  pub updated_at : String
  pub created_by : String
  pub updated_by : String
  pub content_version : ℤ
  pub trashed_at : Option String
  pub raw_snapshot_json : String

unfoldable pub schema_version_code : SchemaVersion → ℤ
schema_version_code v1 = pos 1

unfoldable pub to_document_dto : {G : Type 0} → DocumentRecord G → FileDocumentRecordDto
unfolding schema_version_code
to_document_dto document =
    let m = document.metadata in
    record {
      id = m.id;
      schema_version = schema_version_code m.schema_version;
      kind = some (to_document_kind_key m.kind);
      title = m.title;
      workspace_id = m.workspace_id;
      parent_id = m.parent_id;
      sort_order = m.sort_order;
      created_at = m.created_at;
      updated_at = m.updated_at;
      created_by = m.created_by;
      updated_by = m.updated_by;
      content_version = m.content_version;
      trashed_at = m.trashed_at;
      raw_snapshot_json = document.raw_snapshot_json;
    }

unfoldable pub empty_snapshot : {G : Type 0} → BlockNoteDocumentSnapshot G
empty_snapshot = record { id = none; schema_version = none; title = none; blocks = none }

unfoldable pub from_document_dto : {G : Type 0} → FileDocumentRecordDto → DocumentRecord G
unfolding empty_snapshot
from_document_dto dto = record {
  metadata = record {
    id = dto.id;
    schema_version = v1;
    kind = document_kind_from_key (value_or dto.kind "");
    title = dto.title;
    workspace_id = dto.workspace_id;
    parent_id = dto.parent_id;
    sort_order = dto.sort_order;
    created_at = dto.created_at;
    updated_at = dto.updated_at;
    created_by = dto.created_by;
    updated_by = dto.updated_by;
    content_version = dto.content_version;
    trashed_at = dto.trashed_at;
  };
  snapshot = empty_snapshot;
  raw_snapshot_json = dto.raw_snapshot_json;
}
