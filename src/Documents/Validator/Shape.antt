-- ===== src/Documents/Validator/Shape.antt =====
-- Which snapshots of blocks are well formed, said apart from the validator, and what a block tree
-- that mirrors one looks like.
use cpp_wiki.Prelude.{
  ◌≡◌, ◌≢◌, ◌↔◌, refl, String, false, Option, none, some, List, [], ◌∷◌, ◌++◌, ℤ, pos, ◌≤ℤ◌, elem,
}
use cpp_wiki.Documents.{
  BlockType, paragraph, heading, bullet_list_item, numbered_list_item, check_list_item, quote,
  toggle_list_item, code_block, table, image, video, audio, file, divider, page_break, mermaid,
  attachment, HeadingProps, Block, block, Blocks, BlockNoteBlockProps, BlockSnapshot,
  block_snapshot, ChildSnapshots, no_children, children, BlockSnapshots,
}
use cpp_wiki.Documents.Validator.{Reader, props_level, checked_of, content_text}

-- The name of a block type in BlockNote JSON.
unfoldable pub type_name : BlockType → String
type_name paragraph = "paragraph"
type_name heading = "heading"
type_name bullet_list_item = "bulletListItem"
type_name numbered_list_item = "numberedListItem"
type_name check_list_item = "checkListItem"
type_name quote = "quote"
type_name toggle_list_item = "toggleListItem"
type_name code_block = "codeBlock"
type_name table = "table"
type_name image = "image"
type_name video = "video"
type_name audio = "audio"
type_name file = "file"
type_name divider = "divider"
type_name page_break = "pageBreak"
type_name mermaid = "mermaid"
type_name attachment = "attachment"

-- The heading properties of a block of type `t`: a heading has the level that its properties give,
-- from 1 to 6, and no other block has any.
abbrev pub HeadingMirrors : BlockType → Option BlockNoteBlockProps → Option HeadingProps → Type 0
HeadingMirrors heading props heading_props =
    (level : ℤ) × (props_level props ≡ some level)
    × (pos 1 ≤ℤ level)
    × (level ≤ℤ pos 6)
    × (heading_props ≡ some (record { level = level }))
HeadingMirrors _ props heading_props = heading_props ≡ none

module _ {G : Type 0} (reader : Reader G) where
  -- A block mirrors a snapshot: the snapshot has the block's id, which is not empty, the name of its
  -- type, its heading level and its check mark, its text is the inline text of the content, and the
  -- children mirror the children.
  unfoldable mutual
    pub Mirrors : BlockSnapshot G → Block → Type 0
    Mirrors (block_snapshot id type content props checked inner)
          (block id' type' text level mark blocks) =
        ((id ≡ some id') × (id' ≢ ""))
        × (type ≡ some (type_name type'))
        × (text ≡ content_text reader content)
        × HeadingMirrors type' props level
        × (mark ≡ checked_of type' props checked)
        × MirrorsInner inner blocks

    pub MirrorsInner : ChildSnapshots G → Blocks → Type 0
    MirrorsInner no_children blocks = blocks ≡ Blocks.nil
    MirrorsInner (children snapshots) blocks = MirrorsList snapshots blocks

    pub MirrorsList : BlockSnapshots G → Blocks → Type 0
    MirrorsList BlockSnapshots.nil blocks = blocks ≡ Blocks.nil
    MirrorsList (BlockSnapshots.cons first rest) Blocks.nil = ⊥
    MirrorsList (BlockSnapshots.cons first rest) (Blocks.cons first' rest') =
        Mirrors first first' × MirrorsList rest rest'

-- The ids of a block tree, in the same order.
unfoldable mutual
  pub block_ids : Block → List String
  block_ids (block id type text heading_props checked inner) = id ∷ blocks_ids inner

  pub blocks_ids : Blocks → List String
  blocks_ids Blocks.nil = []
  blocks_ids (Blocks.cons first rest) = block_ids first ++ blocks_ids rest

-- The ids put onto those seen before, and that each was new when its turn came.
abbrev pub push : List String → List String → List String
push [] seen = seen
push (id ∷ ids) seen = push ids (id ∷ seen)

abbrev pub Fresh : List String → List String → Type 0
Fresh [] seen = Unit
Fresh (id ∷ ids) seen = (elem id seen ≡ false) × Fresh ids (id ∷ seen)

pub push-append : (xs ys seen : List String) → push (xs ++ ys) seen ≡ push ys (push xs seen)
push-append [] ys seen = refl
push-append (x ∷ xs) ys seen = push-append xs ys (x ∷ seen)

pub Fresh-append :
    (xs ys seen : List String) → Fresh (xs ++ ys) seen ↔ (Fresh xs seen × Fresh ys (push xs seen))
Fresh-append [] ys seen = (λ h. (tt, h), λ h. h.1)
Fresh-append (x ∷ xs) ys seen =
    let rest = Fresh-append xs ys (x ∷ seen) in
    (λ h. ((h.0, (rest.0 h.1).0), (rest.0 h.1).1), λ h. (h.0.0, rest.1 (h.0.1, h.1)))
