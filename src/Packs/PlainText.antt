-- ===== src/Packs/PlainText.antt =====
-- The plain text of a page is the texts of its blocks, in document order, a line for each that has
-- one; and the composer reads a block's text as the validator does.
use text.Mathlib.TextLemmas.{append_assoc, append-nil, nil-append, append-ne-nil_of_right_ne-nil}
use cpp_wiki.Prelude.{
  ◌≡◌, ◌≢◌, Option-cases, All, All-append, refl, sym, ap, ◌∙◌, String, false, Option, none, some,
  List, [], ◌∷◌, ◌++◌, ◌+++◌, is_empty, Bool-cases, inl, inr, if◌then◌else◌, eq_iff,
}
use cpp_wiki.Documents.{
  BlockSnapshot, block_snapshot, ChildSnapshots, no_children, children, BlockSnapshots,
  BlockNoteDocumentSnapshot,
}
use cpp_wiki.Documents.Validator
use cpp_wiki.Documents.Validator.{Reader, items_text, item_text, text_field}
use cpp_wiki.Packs.{
  extract_inline_text, add_pieces, add_piece, piece_of, add_line, add_content, append_block_text,
  append_child_texts, append_block_texts, extract_plain_text,
}

-- A text in a list of texts, unless it is empty.
unfoldable pub line : String → List String
line text = if is_empty text then [] else text ∷ []

-- The texts joined by line breaks.
unfoldable pub after_first : List String → String
after_first [] = ""
after_first (text ∷ texts) = "\n" +++ text +++ after_first texts

unfoldable pub lines : List String → String
unfolding after_first
lines [] = ""
lines (text ∷ texts) = text +++ after_first texts

module _ {G : Type 0} (reader : Reader G) where
  pub texts_of_content : Option G → List String
  unfolding line
  texts_of_content none = []
  texts_of_content (some content) = line (extract_inline_text reader content)

  -- The texts of the blocks in document order: each block's own before its children's.
  mutual
    unfolding texts_of_content

    pub texts_of : BlockSnapshot G → List String
    texts_of (block_snapshot id type content props checked inner) =
        texts_of_content content ++ texts_of_children inner

    pub texts_of_children : ChildSnapshots G → List String
    texts_of_children no_children = []
    texts_of_children (children blocks) = texts_of_list blocks

    pub texts_of_list : BlockSnapshots G → List String
    texts_of_list BlockSnapshots.nil = []
    texts_of_list (BlockSnapshots.cons first rest) = texts_of first ++ texts_of_list rest

-- Lines added one after the other.
add_lines : List String → String → String
unfolding add_line
add_lines [] out = out
add_lines (text ∷ texts) out = add_lines texts (add_line text out)

add_lines-append :
    (xs ys : List String) (out : String)
    → add_lines (xs ++ ys) out ≡ add_lines ys (add_lines xs out)
unfolding add_lines
add_lines-append [] ys out = refl
add_lines-append (x ∷ xs) ys out = add_lines-append xs ys (add_line x out)

filled : (s : String) → s ≢ "" → is_empty s ≡ false
filled s h = elim (Bool-cases (is_empty s)) [ inl e ↦ absurd (h ((eq_iff s "").0 e)) | inr e ↦ e ]

-- Lines after a text that is not empty.
add_lines_more :
    (texts : List String) (out : String)
    → out ≢ ""
    → All (λ t. t ≢ "") texts
    → add_lines texts out ≡ out +++ after_first texts
unfolding add_lines add_line after_first
add_lines_more [] out h hs = sym (append-nil out)
add_lines_more (t ∷ texts) out h hs = rw (filled t hs.0) (
    rw (filled out h) (
      add_lines_more texts ((out +++ "\n") +++ t)
        (append-ne-nil_of_right_ne-nil (out +++ "\n") (hs.0)) hs.1
      ∙ append_assoc (out +++ "\n") t (after_first texts)
      ∙ append_assoc out "\n" (t +++ after_first texts)))

add_lines-All : (texts : List String) → All (λ t. t ≢ "") texts → add_lines texts "" ≡ lines texts
unfolding add_lines add_line lines
add_lines-All [] hs = refl
add_lines-All (t ∷ texts) hs =
    rw (filled t hs.0) (rw (nil-append t) (add_lines_more texts t hs.0 hs.1))

module _ {G : Type 0} (reader : Reader G) where
  add_content_lem :
      (content : Option G) (out : String)
      → add_content reader content out ≡ add_lines (texts_of_content reader content) out
  unfolding add_content add_line add_lines texts_of_content line
  add_content_lem none out = refl
  add_content_lem (some content) out =
      elim (Bool-cases (is_empty (extract_inline_text reader content))) [
        | inl e ↦ rw e refl
        | inr e ↦ rw e (rw e refl)
      ]

  content_All : (content : Option G) → All (λ t. t ≢ "") (texts_of_content reader content)
  unfolding texts_of_content line
  content_All none = tt
  content_All (some content) =
      let text = extract_inline_text reader content in
      elim (Bool-cases (is_empty text)) [
        | inl e ↦ rw e tt
        | inr e ↦ rw e ((λ h. cc ((eq_iff text "").1 h, e)), tt)
      ]

  mutual
    unfolding append_block_text texts_of add_lines

    block_lines :
        (b : BlockSnapshot G) (out : String)
        → (append_block_text reader b out ≡ add_lines (texts_of reader b) out)
          × All (λ t. t ≢ "") (texts_of reader b)
    block_lines (block_snapshot id type content props checked inner) out =
        let (same, all) = children_lines inner (add_content reader content out) in
        (
          same
              ∙ ap (add_lines (texts_of_children reader inner)) (add_content_lem content out)
              ∙ sym (
                  add_lines-append (texts_of_content reader content)
                    (texts_of_children reader inner) out),
          All-append (λ t. t ≢ "") (texts_of_content reader content)
              (texts_of_children reader inner) (content_All content) all,
        )

    children_lines :
        (s : ChildSnapshots G) (out : String)
        → (append_child_texts reader s out ≡ add_lines (texts_of_children reader s) out)
          × All (λ t. t ≢ "") (texts_of_children reader s)
    children_lines no_children out = (refl, tt)
    children_lines (children blocks) out = list_lines blocks out

    list_lines :
        (s : BlockSnapshots G) (out : String)
        → (append_block_texts reader s out ≡ add_lines (texts_of_list reader s) out)
          × All (λ t. t ≢ "") (texts_of_list reader s)
    list_lines BlockSnapshots.nil out = (refl, tt)
    list_lines (BlockSnapshots.cons first rest) out =
        let (same, all) = block_lines first out in
        let (same', all') = list_lines rest (append_block_text reader first out) in
        (
          same'
              ∙ ap (add_lines (texts_of_list reader rest)) same
              ∙ sym (add_lines-append (texts_of reader first) (texts_of_list reader rest) out),
          All-append (λ t. t ≢ "") (texts_of reader first) (texts_of_list reader rest) all all',
        )

  -- The plain text of a page with blocks is the texts of the blocks and their children that are not
  -- empty, in document order, joined by line breaks.
  pub extract_plain_text-lines :
      (s : BlockNoteDocumentSnapshot G) (blocks : BlockSnapshots G)
      → s.blocks ≡ some blocks
      → extract_plain_text reader s ≡ lines (texts_of_list reader blocks)
  unfolding extract_plain_text
  extract_plain_text-lines s blocks e =
      let (same, all) = list_lines blocks "" in
      rw e (same ∙ add_lines-All (texts_of_list reader blocks) all)

  add_piece_lem :
      (item : G) (text : String)
      → add_piece text (piece_of reader item) ≡ text +++ item_text reader item
  unfolding add_piece piece_of item_text text_field
  add_piece_lem item text = elim (Option-cases (reader.to_object item)) [
    | inl e ↦ rw (e, piece_of, item_text) (sym (append-nil text))
    | inr (object, e) ↦
        rw (e, piece_of, item_text)
          (elim (Option-cases (object "text")) [
            | inl e' ↦ rw e' (sym (append-nil text))
            | inr (v, e') ↦ rw e' (elim (Option-cases (reader.to_text v)) [
              | inl e'' ↦ rw e'' (sym (append-nil text))
              | inr (t, e'') ↦ rw e'' refl
            ])
          ])
  ]

  add_pieces_lem :
      (items : List G) (text : String)
      → add_pieces reader items text ≡ text +++ items_text reader items
  unfolding add_pieces items_text
  add_pieces_lem [] text = sym (append-nil text)
  add_pieces_lem (item ∷ items) text =
      add_pieces_lem items (add_piece text (piece_of reader item))
      ∙ ap (λ t. t +++ items_text reader items) (add_piece_lem item text)
      ∙ append_assoc text (item_text reader item) (items_text reader items)

  -- The composer reads the inline text of a block's content as the validator does.
  pub inline_text_same :
      (content : G)
      → extract_inline_text reader content ≡ Validator.extract_inline_text reader content
  unfolding extract_inline_text Validator.extract_inline_text
  inline_text_same content = elim (Option-cases (reader.to_text content)) [
    | inr (text, e) ↦ rw (e, extract_inline_text, Validator.extract_inline_text) refl
    | inl e ↦
        rw (e, extract_inline_text, Validator.extract_inline_text)
          (elim (Option-cases (reader.to_array content)) [
            | inl e' ↦ rw e' refl
            | inr (items, e') ↦
                rw e' (add_pieces_lem items "" ∙ nil-append (items_text reader items))
          ])
  ]
