-- ===== src/Documents/Kinds.antt =====
-- document/document.h: the persistent keys of document kinds.
use cpp_wiki.Prelude.{◌≡◌, ◌≢◌, refl, String, arith, ◌==◌, eq_iff, if◌then◌else◌}
use cpp_wiki.Documents.{
  DocumentKind, wiki_page, jupyter_notebook, excalidraw_canvas, open_api_spec, project_board, task,
}

unfoldable pub to_document_kind_key : DocumentKind → String
to_document_kind_key jupyter_notebook = "jupyterNotebook"
to_document_kind_key excalidraw_canvas = "excalidrawCanvas"
to_document_kind_key open_api_spec = "openApiSpec"
to_document_kind_key project_board = "projectBoard"
to_document_kind_key task = "task"
to_document_kind_key wiki_page = "wikiPage"

unfoldable pub document_kind_from_key : String → DocumentKind
document_kind_from_key key =
    if key == "jupyterNotebook"
    then jupyter_notebook
    else if key == "excalidrawCanvas"
    then excalidraw_canvas
    else if key == "openApiSpec"
    then open_api_spec
    else if key == "projectBoard"
    then project_board
    else if key == "task"
    then task
    else wiki_page

kind_from_own_key : (k : DocumentKind) → document_kind_from_key (to_document_kind_key k) ≡ k
unfolding document_kind_from_key to_document_kind_key
kind_from_own_key jupyter_notebook = refl
kind_from_own_key _ = refl

DocumentKind-discrete : Discrete DocumentKind
DocumentKind-discrete = hlevel

known_key :
    (key : String)
    → (document_kind_from_key key ≢ wiki_page)
    → key ≡ to_document_kind_key (document_kind_from_key key)
unfolding document_kind_from_key to_document_kind_key
known_key key h = ground (
  arith,
  eq_iff key "jupyterNotebook",
  eq_iff key "excalidrawCanvas",
  eq_iff key "openApiSpec",
  eq_iff key "projectBoard",
  eq_iff key "task",
)

-- A kind is read back from its own key, and a key that is no kind's own reads as a wiki page.
pub document_kind_keys :
    ((k : DocumentKind) → document_kind_from_key (to_document_kind_key k) ≡ k)
    × ((key : String)
        → ((k : DocumentKind) → key ≢ to_document_kind_key k)
        → document_kind_from_key key ≡ wiki_page)
document_kind_keys = (
  kind_from_own_key,
  λ key other. elim (DocumentKind-discrete (document_kind_from_key key) wiki_page) [
    | yes e ↦ e
    | no n ↦ absurd (other _ (known_key key n))
  ],
)
