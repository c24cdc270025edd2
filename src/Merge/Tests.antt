-- ===== src/Merge/Tests.antt =====
-- A repository with one conflict, in which saves are stored, and a resolution over it.
use cpp_wiki.Prelude.{
  ◌≡◌, refl, String, true, Option, none, some, List, [], ◌∷◌, ◌==◌, map, pos, if◌then◌else◌,
}
use cpp_wiki.Documents.{BlockSnapshots}
use cpp_wiki.Documents.Validator.{Reader, parse_and_validate_snapshot, convert_list}
use cpp_wiki.Merge.{
  Repository, DocumentRecord, DocumentConflictRecord, remote, apply_conflict_side_resolution,
}

reader : Reader String
reader = record {
  to_text = λ s. some s;
  to_array = λ s. none;
  to_object = λ s. none;
  read_document = λ s. some (record {
    id = some "p";
    schema_version = some (pos 1);
    title = some s;
    blocks = some BlockSnapshots.nil;
  });
  read_blocks = λ s. none;
  could_not_parse = λ s. true;
  is_null = λ s. true;
  trimmed = λ s. s;
}

-- The saved pages, the latest first.
abbrev Saved : Type 0
Saved = List (DocumentRecord String)

find : String → Saved → Option (DocumentRecord String)
find id [] = none
find id (d ∷ ds) = if d.metadata.id == id then some d else find id ds

conflict : DocumentConflictRecord
conflict = record {
  id = "k";
  document_id = "p";
  workspace_id = "w";
  base_version = pos 4;
  local_snapshot = "mine";
  remote_snapshot = "theirs";
  local_updated_by = "ada";
  remote_updated_by = "";
  detected_at = "t0";
  resolution_state = "pending";
}

repository : Repository String Saved
unfolding find conflict
repository = record {
  load_document = λ id s. record { part = find id s; error = none };
  save_document = λ d s. (d ∷ s, none);
  load_conflict = λ id s. record { part = some conflict; error = none };
  resolve_conflict = λ id s. (s, none);
}

resolution_runs :
    let after = (apply_conflict_side_resolution reader repository "now" "k" remote []).0 in
    (map (λ (d : DocumentRecord String). d.metadata.content_version) after ≡ pos 5 ∷ [])
    × (map (λ (d : DocumentRecord String). d.metadata.updated_by) after
        ≡ "conflict-resolution" ∷ [])
unfolding apply_conflict_side_resolution repository reader parse_and_validate_snapshot convert_list
resolution_runs = (refl, refl)
