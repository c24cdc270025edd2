-- ===== src/Packs.antt =====
-- knowledge/context_pack_composer.{h,cc}, context_pack_resolver.cc and context_pack_render.cc: an approved
-- context pack is resolved into the plain texts of its pages, composed, and rendered. The
-- TextFoundry engine, reflect-cpp and the document repository are parameters.
pub mod PlainText
pub mod Composing
pub mod Rendering
mod Tests
use cpp_wiki.Prelude.{
  ℕ, suc, String, Bool, true, false, not, Option, none, some, List, [], ◌∷◌, ◌==◌, ◌+++◌, eqb,
  if◌then◌else◌, is_empty, length,
}
use cpp_wiki.Documents.{
  BlockSnapshot, block_snapshot, ChildSnapshots, no_children, children, BlockSnapshots,
  BlockNoteDocumentSnapshot,
}
use cpp_wiki.Documents.Validator.{Reader}
use cpp_wiki.Knowledge.{ContextPack, ContextPackItem, ArtifactKind}
use cpp_wiki.Knowledge.Validation.{is_page}
use cpp_wiki.Knowledge.RunValidation.{validate_context_pack, is_approved}

pub record ContextPackItemContent : Type 0 where
  pub item_id : String
  pub text : String

-- A value, or the message of the error.
pub data Outcome {ℓ} (A : Type ℓ) : Type ℓ where
  value : A → Outcome A
  error : String → Outcome A

infixl 5 ◌>>=◌
abbrev pub ◌>>=◌ {ℓ κ} : {A : Type ℓ} {B : Type κ} → Outcome A → (A → Outcome B) → Outcome B
value a >>= f = f a
error e >>= f = error e

-- What the code uses of TextFoundry: compositions of type `C`, and the errors' messages.
pub record Engine (C : Type 0) : Type 0 where
  pub new_composition : String → C
  pub add_static_text : String → C → C
  -- `AddSeparator(tf::SeparatorType::Paragraph)`
  pub add_paragraph : C → C
  -- The text of `Version{1, 0}`, and `publish` with it: the published composition, or the error.
  pub version_text : String
  pub publish : C → Outcome C
  pub render : C → Outcome String

pub add_piece : String → Option String → String
add_piece text none = text
add_piece text (some piece) = text +++ piece

-- The text of one block put after `out`, on a line of its own.
pub add_line : String → String → String
add_line text out =
    if is_empty text then out else (if is_empty out then out else out +++ "\n") +++ text

module _ {G : Type 0} (reader : Reader G) where
  open reader use {to_text, to_array, to_object}

  -- The text of one inline item, if it is an object with a text.
  pub piece_of : G → Option String
  piece_of item = elim (to_object item) [
    | none ↦ none
    | some object ↦ elim (object "text") [ none ↦ none | some text_value ↦ to_text text_value ]
  ]

  -- The loop over the items, with the text so far.
  pub add_pieces : List G → String → String
  unfolding piece_of add_piece
  add_pieces [] text = text
  add_pieces (item ∷ items) text = add_pieces items (add_piece text (piece_of item))

  pub extract_inline_text : G → String
  unfolding add_pieces
  extract_inline_text content = elim (to_text content) [
    | some text ↦ text
    | none ↦ elim (to_array content) [ none ↦ "" | some items ↦ add_pieces items "" ]
  ]

  pub add_content : Option G → String → String
  unfolding extract_inline_text add_line
  add_content none out = out
  add_content (some content) out = add_line (extract_inline_text content) out

  mutual
    unfolding add_content

    pub append_block_text : BlockSnapshot G → String → String
    append_block_text (block_snapshot id type content props checked inner) out =
        append_child_texts inner (add_content content out)

    pub append_child_texts : ChildSnapshots G → String → String
    append_child_texts no_children out = out
    append_child_texts (children blocks) out = append_block_texts blocks out

    pub append_block_texts : BlockSnapshots G → String → String
    append_block_texts BlockSnapshots.nil out = out
    append_block_texts (BlockSnapshots.cons first rest) out =
        append_block_texts rest (append_block_text first out)

  pub extract_plain_text : BlockNoteDocumentSnapshot G → String
  unfolding append_block_text
  extract_plain_text snapshot = elim snapshot.blocks [
    | none ↦ ""
    | some blocks ↦ append_block_texts blocks ""
  ]

pub find_content : List ContextPackItemContent → String → Option ContextPackItemContent
find_content [] item_id = none
find_content (content ∷ contents) item_id =
    if content.item_id == item_id then some content else find_content contents item_id

pub count_included : List ContextPackItem → ℕ
count_included [] = 0
count_included (item ∷ items) =
    if item.included then suc (count_included items) else count_included items

module _ {C : Type 0} (engine : Engine C) where
  open engine use {new_composition, add_static_text, add_paragraph, publish}

  pub add_found : String → Option ContextPackItemContent → C → Outcome C
  add_found item_id none composition =
      error ("Context pack item content is missing for item " +++ item_id)
  add_found item_id (some content) composition =
      value (add_static_text content.text (add_paragraph composition))

  pub compose_items : List ContextPackItem → List ContextPackItemContent → C → Outcome C
  unfolding find_content add_found
  compose_items [] contents composition = value composition
  compose_items (item ∷ items) contents composition =
      if not item.included
      then compose_items items contents composition
      else (add_found item.id (find_content contents item.id) composition
          >>= compose_items items contents)

  pub add_guidance : Option String → C → C
  add_guidance none composition = composition
  add_guidance (some guidance) composition = add_static_text guidance (add_paragraph composition)

  pub compose_context_pack : ContextPack → List ContextPackItemContent → Outcome C
  unfolding count_included compose_items add_guidance
  compose_context_pack pack contents =
      if not (eqb (length contents) (count_included pack.items))
      then error "Context pack item content does not match its included items."
      else do
        composition ←
            compose_items pack.items contents
              (add_static_text pack.task_intent (new_composition pack.id))
        publish (add_guidance pack.repository_guidance composition)

-- What the resolver gets of the repository and of reflect-cpp: the stored text of a page (`none` when
-- it cannot be loaded), and the reading of such a text as a snapshot.
pub record Pages (G : Type 0) : Type 0 where
  pub load_document : String → Option String
  pub read_snapshot : String → Option (BlockNoteDocumentSnapshot G)

pub record ContextPackRenderResult : Type 0 where
  pub context_pack_ref : String
  pub text : String

module _ {G : Type 0} (reader : Reader G) (pages : Pages G) where
  pub resolve_read :
      ContextPackItem → Option (BlockNoteDocumentSnapshot G) → Outcome ContextPackItemContent
  unfolding extract_plain_text
  resolve_read item none = error (
      "Context pack item " +++ item.id +++ " refers to a page whose content could not be parsed: "
      +++ item.artifact_id)
  resolve_read item (some snapshot) =
      value (record { item_id = item.id; text = extract_plain_text reader snapshot })

  pub resolve_loaded : ContextPackItem → Option String → Outcome ContextPackItemContent
  unfolding resolve_read
  resolve_loaded item none = error (
      "Context pack item " +++ item.id +++ " refers to a page that could not be loaded: "
      +++ item.artifact_id)
  resolve_loaded item (some json) = resolve_read item (pages.read_snapshot json)

  -- One included item.
  pub resolve_item : ContextPackItem → Outcome ContextPackItemContent
  unfolding resolve_loaded is_page
  resolve_item item =
      if not (is_page item.artifact_kind)
      then error (
          "Context pack item " +++ item.id
          +++ " has an artifact kind that cannot be resolved into content yet.")
      else resolve_loaded item (pages.load_document item.artifact_id)

  pub resolve_items : List ContextPackItem → Outcome (List ContextPackItemContent)
  unfolding resolve_item
  resolve_items [] = value []
  resolve_items (item ∷ items) = if not item.included then resolve_items items else do
    content ← resolve_item item
    contents ← resolve_items items
    value (content ∷ contents)

  module _ {C : Type 0} (engine : Engine C) where
    pub render_resolved :
        ContextPack → List ContextPackItemContent → Outcome ContextPackRenderResult
    unfolding compose_context_pack
    render_resolved pack contents = do
      composed ← compose_context_pack engine pack contents
      rendered ← engine.render composed
      value (record { context_pack_ref = pack.id +++ "@" +++ engine.version_text; text = rendered })

    pub render_validated : ContextPack → Option String → Outcome ContextPackRenderResult
    unfolding resolve_items render_resolved
    render_validated pack (some message) = error ("Context pack is invalid: " +++ message)
    render_validated pack none =
        if not (is_approved pack.state)
        then error "Only an approved context pack can be rendered."
        else (resolve_items pack.items >>= render_resolved pack)

    pub render_approved_context_pack : ContextPack → Outcome ContextPackRenderResult
    unfolding render_validated validate_context_pack
    render_approved_context_pack pack = render_validated pack (validate_context_pack pack)
