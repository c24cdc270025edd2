-- ===== src/Packs/Tests.antt =====
-- An engine that writes texts, pages in a table, and the theorems at a small pack.
use cpp_wiki.Prelude.{
  ◌≡◌, ◌↔◌, refl, String, true, false, none, some, List, [], ◌∷◌, ◌==◌, ◌+++◌, Distinct, pos,
  is_blank,
}
use cpp_wiki.Documents.{
  block_snapshot, no_children, children, BlockSnapshots, BlockNoteDocumentSnapshot,
}
use cpp_wiki.Documents.Validator
use cpp_wiki.Documents.Validator.{Reader}
use cpp_wiki.Knowledge.{ContextPack, page, approved}
use cpp_wiki.Knowledge.Validation.{first_failure, has_audit_metadata, has_duplicate}
use cpp_wiki.Knowledge.RunValidation.{validate_context_pack, is_approved}
use cpp_wiki.Packs.{
  ContextPackItemContent, value, Engine, Pages, ContextPackRenderResult, extract_inline_text,
  extract_plain_text, resolve_items, compose_context_pack, render_approved_context_pack,
}
use cpp_wiki.Packs.PlainText.{lines, texts_of_list, extract_plain_text-lines, inline_text_same}
use cpp_wiki.Packs.Composing.{laid_out, texts_of, included_ids}
use cpp_wiki.Packs.Rendering.{RenderedFrom, compose_resolved, render_approved_context_pack_iff}

reader : Reader String
reader = record {
  to_text = λ s. some s;
  to_array = λ s. some (s ∷ []);
  to_object = λ s. some (λ key. elim (key == "text") [ true ↦ some s | false ↦ none ]);
  read_document = λ s. none;
  read_blocks = λ s. none;
  could_not_parse = λ s. false;
  is_null = λ s. true;
  trimmed = λ s. s;
}

abbrev blocks : BlockSnapshots String
blocks =
    BlockSnapshots.cons
      (block_snapshot (some "a") (some "paragraph") (some "one") none none (
        children (
          BlockSnapshots.cons
            (block_snapshot (some "b") (some "paragraph") (some "two") none none no_children)
            BlockSnapshots.nil)))
      (BlockSnapshots.cons (block_snapshot (some "c") (some "divider") none none none no_children)
        BlockSnapshots.nil)

abbrev snapshot : BlockNoteDocumentSnapshot String
snapshot = record {
  id = some "p";
  schema_version = some (pos 1);
  title = none;
  blocks = some blocks;
}

abbrev pages : Pages String
pages = record {
  load_document = λ id. elim (id == "p") [ true ↦ some "json" | false ↦ none ];
  read_snapshot = λ json. some snapshot;
}

abbrev engine : Engine String
engine = record {
  version_text = "1.0";
  new_composition = λ id. "";
  add_static_text = λ text c. c +++ text;
  add_paragraph = λ c. c +++ "|";
  publish = λ c. value c;
  render = λ c. value c;
}

abbrev pack : ContextPack
pack = record {
  id = "c";
  workspace_id = "w";
  task_id = "k";
  task_intent = "fix it";
  items =
      record {
        id = "i";
        relation_id = "r";
        artifact_kind = page;
        artifact_id = "p";
        included = true;
      }
      ∷ record {
        id = "j";
        relation_id = "s";
        artifact_kind = page;
        artifact_id = "q";
        included = false;
      }
      ∷ [];
  repository_guidance = some "be kind";
  state = approved;
  audit = record { created_at = "t0"; updated_at = "t1"; created_by = "ada"; updated_by = "bob" };
}

abbrev contents : List ContextPackItemContent
contents = record { item_id = "i"; text = "one\ntwo" } ∷ []

abbrev rendered : ContextPackRenderResult
rendered = record { context_pack_ref = "c@1.0"; text = "fix it|one\ntwo|be kind" }

resolves : resolve_items reader pages pack.items ≡ value contents
unfolding resolve_items reader
resolves = refl

distinct : Distinct (included_ids pack.items)
unfolding included_ids
distinct = (refl, tt)

render_runs : render_approved_context_pack reader pages engine pack ≡ value rendered
unfolding render_approved_context_pack reader first_failure is_blank has_audit_metadata
    has_duplicate
render_runs = refl

extract_plain_text-lines_example :
    extract_plain_text reader snapshot ≡ lines (texts_of_list reader blocks)
extract_plain_text-lines_example = extract_plain_text-lines reader snapshot blocks refl

inline_text_same_example :
    extract_inline_text reader "one" ≡ Validator.extract_inline_text reader "one"
inline_text_same_example = inline_text_same reader "one"

compose_resolved_example :
    compose_context_pack engine pack contents
    ≡ engine.publish (laid_out engine pack (texts_of contents))
compose_resolved_example = compose_resolved reader pages engine pack contents resolves distinct

render_approved_context_pack_iff_example :
    (render_approved_context_pack reader pages engine pack ≡ value rendered) ↔ (
      (validate_context_pack pack ≡ none)
      × (is_approved pack.state ≡ true)
      × ((contents : List ContextPackItemContent) × (resolve_items reader pages pack.items
            ≡ value contents)
          × RenderedFrom reader pages engine pack contents rendered))
render_approved_context_pack_iff_example =
    render_approved_context_pack_iff reader pages engine pack rendered distinct
