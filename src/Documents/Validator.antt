-- ===== src/Documents/Validator.antt =====
-- document/document_validator.{h,cc}: reading a snapshot into a document, or a typed error. The set
-- of ids that have been seen is a list that each call takes and hands on. reflect-cpp and Qt's JSON
-- reader are not part of the repository: `Reader` has what the validator asks of them.
pub mod Shape
pub mod Conversion
pub mod Acceptance
pub mod Results
mod Tests
use cpp_wiki.Prelude.{
  ℕ, ◌≡◌, String, Bool, true, false, not, ◌&&◌, ◌||◌, Option, none, some, List, [], ◌∷◌, ◌==◌, ltb,
  eqb_ℤ, ltb_ℤ, ℤ, pos, if◌then◌else◌, is_empty, elem, ◌+++◌, show_ℤ, value_or,
}
use cpp_wiki.Documents.{
  SchemaVersion, v1, DocumentKind, wiki_page, task, BlockType, paragraph, heading, bullet_list_item,
  numbered_list_item, check_list_item, quote, toggle_list_item, code_block, table, image, video,
  audio, file, divider, page_break, mermaid, attachment, HeadingProps, Block, block, Blocks,
  PageMetadata, Document, BlockNoteBlockProps, BlockSnapshot, block_snapshot, ChildSnapshots,
  no_children, children, BlockSnapshots, BlockNoteDocumentSnapshot,
}

pub data ValidationErrorCode : Type 0 where
  invalid_json invalid_root missing_schema_version unsupported_schema_version missing_page_id
        missing_block_id empty_block_id duplicate_block_id unsupported_block_type
        invalid_heading_level invalid_children :
      ValidationErrorCode

unfoldable pub to_string : ValidationErrorCode → String
to_string invalid_json = "invalid_json"
to_string invalid_root = "invalid_root"
to_string missing_schema_version = "missing_schema_version"
to_string unsupported_schema_version = "unsupported_schema_version"
to_string missing_page_id = "missing_page_id"
to_string missing_block_id = "missing_block_id"
to_string empty_block_id = "empty_block_id"
to_string duplicate_block_id = "duplicate_block_id"
to_string unsupported_block_type = "unsupported_block_type"
to_string invalid_heading_level = "invalid_heading_level"
to_string invalid_children = "invalid_children"

pub record ValidationError : Type 0 where
  pub code : ValidationErrorCode
  pub message : String

-- A part that was read, or the error.
pub data Result {ℓ} (A : Type ℓ) : Type ℓ where
  ok : A → Result A
  err : ValidationError → Result A

infixl 5 ◌>>=◌
abbrev pub ◌>>=◌ {ℓ κ} : {A : Type ℓ} {B : Type κ} → Result A → (A → Result B) → Result B
ok a >>= f = f a
err e >>= f = err e

abbrev pub fail {ℓ} : {A : Type ℓ} → ValidationErrorCode → String → Result A
fail code message = err (record { code = code; message = message })

abbrev pub block_types : List (String × BlockType)
block_types =
    ("paragraph", paragraph)
    ∷ ("heading", heading)
    ∷ ("bulletListItem", bullet_list_item)
    ∷ ("numberedListItem", numbered_list_item)
    ∷ ("checkListItem", check_list_item)
    ∷ ("quote", quote)
    ∷ ("toggleListItem", toggle_list_item)
    ∷ ("codeBlock", code_block)
    ∷ ("table", table)
    ∷ ("image", image)
    ∷ ("video", video)
    ∷ ("audio", audio)
    ∷ ("file", file)
    ∷ ("divider", divider)
    ∷ ("pageBreak", page_break)
    ∷ ("mermaid", mermaid)
    ∷ ("attachment", attachment)
    ∷ []

pub find_type : String → List (String × BlockType) → Option BlockType
find_type type [] = none
find_type type ((name, block_type) ∷ rest) =
    if type == name then some block_type else find_type type rest

unfoldable pub parse_block_type : String → Option BlockType
unfolding find_type
parse_block_type type = find_type type block_types

pub check_id : Option String → List String → Result String
check_id none seen = fail missing_block_id "Block is missing an id."
check_id (some id) seen =
    if is_empty id
    then fail empty_block_id "Block id must not be empty."
    else if elem id seen
    then fail duplicate_block_id ("Duplicate block id: " +++ id)
    else ok id

pub check_parsed : String → Option BlockType → Result BlockType
check_parsed type none = fail unsupported_block_type ("Unsupported block type: " +++ type)
check_parsed type (some block_type) = ok block_type

pub check_type : Option String → Result BlockType
unfolding check_parsed
check_type none = fail unsupported_block_type "Unsupported block type: <missing>"
check_type (some type) = check_parsed type (parse_block_type type)

pub props_level : Option BlockNoteBlockProps → Option ℤ
props_level none = none
props_level (some props) = props.level

props_checked : Option BlockNoteBlockProps → Bool
props_checked none = false
props_checked (some props) = value_or props.checked false

pub check_level : Option ℤ → Result (Option HeadingProps)
check_level none = fail invalid_heading_level "Heading block is missing props.level."
check_level (some level) =
    if ltb_ℤ level (pos 1) || ltb_ℤ (pos 6) level
    then fail invalid_heading_level "Heading level must be between 1 and 6."
    else ok (some (record { level = level }))

-- Only a heading has heading properties.
pub check_heading : BlockType → Option BlockNoteBlockProps → Result (Option HeadingProps)
unfolding check_level props_level
check_heading heading props = check_level (props_level props)
check_heading _ props = ok none

-- Only a check list item has a mark; its own comes before that of its properties.
pub checked_of : BlockType → Option BlockNoteBlockProps → Option Bool → Option Bool
unfolding props_checked
checked_of check_list_item props checked = some (value_or checked (props_checked props))
checked_of _ props checked = none

-- `to_object` gives an object by its lookup.
pub record Reader (G : Type 0) : Type 0 where
  pub to_text : G → Option String
  pub to_array : G → Option (List G)
  pub to_object : G → Option (String → Option G)
  pub read_document : String → Option (BlockNoteDocumentSnapshot G)
  pub read_blocks : String → Option (BlockSnapshots G)
  -- Whether an error of reflect-cpp says "Could not parse document".
  pub could_not_parse : String → Bool
  -- Whether `QJsonDocument::fromJson` gives a null document.
  pub is_null : String → Bool
  -- `QByteArray::trimmed`
  pub trimmed : String → String

module _ {G : Type 0} (reader : Reader G) where
  open reader use {to_text, to_array, to_object, read_document, read_blocks, could_not_parse}

  unfoldable pub text_field : Option G → String
  text_field none = ""
  text_field (some value) = value_or (to_text value) ""

  unfoldable pub item_text : G → String
  unfolding text_field
  item_text item = elim (to_object item) [ none ↦ "" | some object ↦ text_field (object "text") ]

  unfoldable pub items_text : List G → String
  unfolding item_text
  items_text [] = ""
  items_text (item ∷ items) = item_text item +++ items_text items

  unfoldable pub extract_inline_text : G → String
  unfolding items_text
  extract_inline_text value = elim (to_text value) [
    | some text ↦ text
    | none ↦ elim (to_array value) [ none ↦ "" | some items ↦ items_text items ]
  ]

  pub content_text : Option G → String
  content_text none = ""
  content_text (some content) = extract_inline_text content

  unfoldable mutual
    unfolding check_id check_type check_heading checked_of content_text

    pub convert_block : BlockSnapshot G → List String → Result (Block × List String)
    convert_block (block_snapshot id type content props checked inner) seen = do
      id' ← check_id id seen
      type' ← check_type type
      (blocks, seen') ← convert_children inner (id' ∷ seen)
      heading_props ← check_heading type' props
      ok (
        block id' type' (content_text content) heading_props (checked_of type' props checked)
            blocks,
        seen',
      )

    pub convert_children : ChildSnapshots G → List String → Result (Blocks × List String)
    convert_children no_children seen = ok (Blocks.nil, seen)
    convert_children (children snapshots) seen = convert_list snapshots seen

    -- The loops of ConvertChildren and ConvertBlocks.
    pub convert_list : BlockSnapshots G → List String → Result (Blocks × List String)
    convert_list BlockSnapshots.nil seen = ok (Blocks.nil, seen)
    convert_list (BlockSnapshots.cons first rest) seen = do
      (first', seen') ← convert_block first seen
      (rest', seen'') ← convert_list rest seen'
      ok (Blocks.cons first' rest', seen'')

pub record ValidationResult (G : Type 0) : Type 0 where
  pub document : Option Document
  pub snapshot : Option (BlockNoteDocumentSnapshot G)
  pub raw_snapshot_json : String
  pub error : Option ValidationError

abbrev pub failed : {G : Type 0} → ValidationError → ValidationResult G
failed e = record { document = none; snapshot = none; raw_snapshot_json = ""; error = some e }

abbrev pub make_error : {G : Type 0} → ValidationErrorCode → String → ValidationResult G
make_error code message = failed (record { code = code; message = message })

abbrev pub blank_metadata : PageMetadata
blank_metadata = record {
  id = "";
  schema_version = v1;
  kind = wiki_page;
  title = "";
  workspace_id = "";
  parent_id = none;
  sort_order = pos 0;
  created_at = "";
  updated_at = "";
  created_by = "";
  updated_by = "";
  content_version = pos 1;
  trashed_at = none;
}

module _ {G : Type 0} (reader : Reader G) where
  pub with_blocks : BlockSnapshots G → String → Result (Blocks × List String) → ValidationResult G
  with_blocks snapshots raw (err e) = failed e
  with_blocks snapshots raw (ok (blocks, seen)) = record {
    document = some (record { metadata = blank_metadata; blocks = blocks });
    snapshot =
        some (record { id = none; schema_version = none; title = none; blocks = some snapshots });
    raw_snapshot_json = raw;
    error = none;
  }

  pub convert_blocks : BlockSnapshots G → String → ValidationResult G
  unfolding with_blocks
  convert_blocks snapshots raw = with_blocks snapshots raw (convert_list reader snapshots [])

  -- `result.document->metadata.id = …; … = snapshot.title.value_or(""); result.snapshot = snapshot;`
  pub titled : BlockNoteDocumentSnapshot G → String → Option Document → Option Document
  titled snapshot id none = none
  titled snapshot id (some document) = some (record document {
    metadata = record document.metadata { id = id; title = value_or snapshot.title "" };
  })

  pub with_document : BlockNoteDocumentSnapshot G → String → ValidationResult G → ValidationResult G
  unfolding titled
  with_document snapshot id result = elim result.error [
    | some e ↦ result
    | none ↦ record result {
      document = titled snapshot id result.document;
      snapshot = some snapshot;
    }
  ]

  -- The checks of ConvertDocument, in their order.
  pub convert_identified : BlockNoteDocumentSnapshot G → String → Option String → ValidationResult G
  unfolding convert_blocks with_document
  convert_identified snapshot raw none = make_error missing_page_id "Document object is missing id."
  convert_identified snapshot raw (some id) =
      if is_empty id
      then make_error missing_page_id "Document object is missing id."
      else elim snapshot.blocks [
        | none ↦ make_error invalid_root "Document object is missing blocks."
        | some blocks ↦ with_document snapshot id (convert_blocks blocks raw)
      ]

  pub convert_versioned : BlockNoteDocumentSnapshot G → String → Option ℤ → ValidationResult G
  unfolding convert_identified
  convert_versioned snapshot raw none =
      make_error missing_schema_version "Document object is missing schema_version."
  convert_versioned snapshot raw (some version) =
      if not (eqb_ℤ version (pos 1))
      then make_error unsupported_schema_version (
          "Document schema_version "
          +++ show_ℤ version
          +++ " is not supported by this version of CppWiki. Please update the app to open this document.")
      else convert_identified snapshot raw snapshot.id

  pub convert_document : BlockNoteDocumentSnapshot G → String → ValidationResult G
  unfolding convert_versioned
  convert_document snapshot raw = convert_versioned snapshot raw snapshot.schema_version

  -- The kinds whose content is BlockNote JSON.
  pub holds_blocks : DocumentKind → Bool
  holds_blocks wiki_page = true
  holds_blocks task = true
  holds_blocks _ = false

  -- The kinds whose content is another system's JSON.
  pub check_json : String → ValidationResult G
  check_json payload =
      if reader.is_null payload && not (is_empty (reader.trimmed payload))
      then make_error invalid_json "Snapshot payload is not valid JSON."
      else record { document = none; snapshot = none; raw_snapshot_json = payload; error = none }

  pub parse_read :
      String → Option (BlockNoteDocumentSnapshot G) → Option (BlockSnapshots G) → ValidationResult G
  unfolding convert_document convert_blocks
  parse_read payload (some snapshot) list = convert_document snapshot payload
  parse_read payload none (some snapshots) = convert_blocks snapshots payload
  parse_read payload none none =
      if reader.could_not_parse payload
      then make_error invalid_json "Snapshot payload is not valid JSON."
      else make_error invalid_root "Snapshot root must be a document object or a block array."

  unfoldable pub parse_and_validate_snapshot : String → DocumentKind → ValidationResult G
  unfolding check_json parse_read holds_blocks
  parse_and_validate_snapshot payload kind =
      if not (holds_blocks kind)
      then check_json payload
      else parse_read payload (reader.read_document payload) (reader.read_blocks payload)
