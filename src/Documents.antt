-- ===== src/Documents.antt =====
-- document/document.h, document/block_note_snapshot.h and the result types of
-- document/document_validator.h: pages, their block trees, and the snapshots they are read from.
-- A list of blocks inside a block is a data type of its own, `Blocks`. Whole numbers are signed
-- integers; the theorems do not need their widths.
pub mod Kinds
pub mod Validator
use cpp_wiki.Prelude.{String, Bool, Option, List, ℤ}

pub data SchemaVersion : Type 0 where
  v1 : SchemaVersion

pub data DocumentKind : Type 0 where
  wiki_page jupyter_notebook excalidraw_canvas open_api_spec project_board task : DocumentKind

pub data BlockType : Type 0 where
  paragraph heading bullet_list_item numbered_list_item check_list_item quote toggle_list_item
        code_block table image video audio file divider page_break mermaid attachment :
      BlockType

pub record HeadingProps : Type 0 where
  pub level : ℤ

mutual
  -- The fields id, type, text_content, heading_props, checked and children of a block.
  pub data Block : Type 0 where
    block : String → BlockType → String → Option HeadingProps → Option Bool → Blocks → Block

  pub data Blocks : Type 0 where
    nil : Blocks
    cons : Block → Blocks → Blocks

pub record PageMetadata : Type 0 where
  pub id : String
  pub schema_version : SchemaVersion
  pub kind : DocumentKind
  pub title : String
  pub workspace_id : String
  pub parent_id : Option String
  pub sort_order : ℤ
  pub created_at : String
  pub updated_at : String
  pub created_by : String
  pub updated_by : String
  pub content_version : ℤ
  pub trashed_at : Option String

pub record Document : Type 0 where
  pub metadata : PageMetadata
  pub blocks : Blocks

pub record BlockNoteBlockProps : Type 0 where
  pub level : Option ℤ
  pub checked : Option Bool

-- The content of a block is a value of reflect-cpp's `rfl::Generic`, a type `G` that is not part of
-- the repository.
mutual
  -- The fields id, type, content, props, checked and children of a snapshot of a block.
  pub data BlockSnapshot (G : Type 0) : Type 0 where
    block_snapshot :
        Option String
        → Option String
        → Option G
        → Option BlockNoteBlockProps
        → Option Bool
        → ChildSnapshots G
        → BlockSnapshot G

  -- `std::optional<std::vector<BlockNoteBlockSnapshot>>`
  pub data ChildSnapshots (G : Type 0) : Type 0 where
    no_children : ChildSnapshots G
    children : BlockSnapshots G → ChildSnapshots G

  pub data BlockSnapshots (G : Type 0) : Type 0 where
    nil : BlockSnapshots G
    cons : BlockSnapshot G → BlockSnapshots G → BlockSnapshots G

pub record BlockNoteDocumentSnapshot (G : Type 0) : Type 0 where
  pub id : Option String
  pub schema_version : Option ℤ
  pub title : Option String
  pub blocks : Option (BlockSnapshots G)
