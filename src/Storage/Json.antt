-- ===== src/Storage/Json.antt =====
-- What the repository uses of reflect-cpp: for each kind of file, the writing of its fields as a JSON
-- text, and the reading of a text, which gives the fields or an error's message.
use cpp_wiki.Prelude.{String, ◌≡◌, ◌⊎◌, inr}
use cpp_wiki.Storage.Dtos.{
  FilePropertyDefinitionDto, FilePagePropertyValueDto, FileRelationTypeDto, FilePageRelationDto,
}
use cpp_wiki.Storage.ArtifactDtos.{
  FileRepositoryArtifactDto, FileAgentRunDto, FileResultReferenceDto, FileContextPackDto,
}
use cpp_wiki.Storage.Documents.{
  FileAttachmentDto, FileConflictRecordDto, FileDocumentRevisionDto, FileDocumentRecordDto,
}

pub record Codec (D : Type 0) : Type 0 where
  pub write : D → String
  pub read : String → String ⊎ D

-- What was written is read back.
abbrev pub ReadsBack : {D : Type 0} → Codec D → Type 0
ReadsBack c = (d : _) → c.read (c.write d) ≡ inr d

pub record Json : Type 0 where
  pub property_definition : Codec FilePropertyDefinitionDto
  pub page_property_value : Codec FilePagePropertyValueDto
  pub relation_type : Codec FileRelationTypeDto
  pub page_relation : Codec FilePageRelationDto
  pub repository_artifact : Codec FileRepositoryArtifactDto
  pub agent_run : Codec FileAgentRunDto
  pub result_reference : Codec FileResultReferenceDto
  pub context_pack : Codec FileContextPackDto
  pub attachment : Codec FileAttachmentDto
  pub conflict : Codec FileConflictRecordDto
  pub revision : Codec FileDocumentRevisionDto
  pub document : Codec FileDocumentRecordDto
