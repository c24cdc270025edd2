-- ===== src/Documents/Validator/Tests.antt =====
-- A reader whose JSON values are texts, runs of the validator, and its theorems at concrete inputs.
use cpp_wiki.Prelude.{
  not, is_empty, ◌≡◌, ◌≢◌, ◌↔◌, ◌⊎◌, refl, String, true, false, none, some, pos, Distinct, ◌==◌,
}
use cpp_wiki.Documents.{
  heading, paragraph, block, Blocks, BlockSnapshot, block_snapshot, no_children, children,
  BlockSnapshots, BlockNoteDocumentSnapshot, wiki_page, task, Document,
}
use cpp_wiki.Documents.Validator.{
  Reader, convert_blocks, convert_document, parse_and_validate_snapshot, blank_metadata,
  convert_list, parse_block_type, extract_inline_text,
}
use cpp_wiki.Documents.Validator.Shape.{MirrorsList, blocks_ids}
use cpp_wiki.Documents.Validator.Results.{
  AcceptedAs, OneOutcome, convert_blocks_iff, convert_document_iff,
  parse_and_validate_snapshot_outcome,
}

leaf : String → BlockSnapshot String
leaf id = block_snapshot (some id) (some "paragraph") (some "text") none none no_children

-- A heading with a paragraph in it.
page_blocks : BlockSnapshots String
unfolding leaf
page_blocks =
    BlockSnapshots.cons
      (block_snapshot (some "h") (some "heading") (some "Title")
        (some (record { level = some (pos 2); checked = none })) none
        (children (BlockSnapshots.cons (leaf "p") BlockSnapshots.nil)))
      BlockSnapshots.nil

page_snapshot : BlockNoteDocumentSnapshot String
unfolding page_blocks
page_snapshot = record {
  id = some "home";
  schema_version = some (pos 1);
  title = some "Home";
  blocks = some page_blocks;
}

reader : Reader String
unfolding page_snapshot
reader = record {
  to_text = λ s. some s;
  to_array = λ s. none;
  to_object = λ s. none;
  read_document = λ s. elim (s == "page") [ true ↦ some page_snapshot | false ↦ none ];
  read_blocks = λ s. none;
  could_not_parse = λ s. true;
  is_null = λ s. not (s == "{}");
  trimmed = λ s. s;
}

tree : Blocks
tree =
    Blocks.cons
      (block "h" heading "Title" (some (record { level = pos 2 })) none
        (Blocks.cons (block "p" paragraph "text" none none Blocks.nil) Blocks.nil))
      Blocks.nil

home : Document
unfolding tree
home = record { metadata = record blank_metadata { id = "home"; title = "Home" }; blocks = tree }

validate_runs :
    ((parse_and_validate_snapshot reader "page" wiki_page).document ≡ some home)
    × ((convert_blocks reader (BlockSnapshots.cons (leaf "p") page_blocks) "[]").document ≡ none)
unfolding parse_and_validate_snapshot convert_blocks reader home page_snapshot convert_list
    parse_block_type extract_inline_text
validate_runs = (refl, refl)

convert_blocks_iff_example :
    ((convert_blocks reader page_blocks "[]").document
      ≡ some (record { metadata = blank_metadata; blocks = tree }))
    ↔ ((blank_metadata ≡ blank_metadata)
        × MirrorsList reader page_blocks tree
        × Distinct (blocks_ids tree))
convert_blocks_iff_example =
    convert_blocks_iff reader page_blocks "[]" (record { metadata = blank_metadata; blocks = tree })

convert_document_iff_example :
    ((convert_document reader page_snapshot "page").document ≡ some home)
    ↔ ((page_snapshot.schema_version ≡ some (pos 1)) × AcceptedAs reader page_snapshot home)
convert_document_iff_example = convert_document_iff reader page_snapshot "page" home

parse_and_validate_snapshot_outcome_example :
    let r = parse_and_validate_snapshot reader "page" task in
    (((task ≡ wiki_page) ⊎ (task ≡ task)) → OneOutcome reader "page" r)
    × ((task ≢ wiki_page)
        → (task ≢ task)
        → (r.document ≡ none)
          × ((r.error ≡ none)
              ↔ ((reader.is_null "page" ≡ false) ⊎ (is_empty (reader.trimmed "page") ≡ true))))
parse_and_validate_snapshot_outcome_example = parse_and_validate_snapshot_outcome reader "page" task
