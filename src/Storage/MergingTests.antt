-- ===== src/Storage/MergingTests.antt =====
-- A conflict resolved over the repository of files, and the theorems at concrete inputs.
use cpp_wiki.Prelude.{◌≡◌, refl, String, true, none, some, pos}
use cpp_wiki.Documents.{BlockSnapshots}
use cpp_wiki.Documents.Validator.{Reader, parse_and_validate_snapshot, convert_list}
use cpp_wiki.Merge.{
  accepted, DocumentConflictRecord, usable, conflict_unavailable, remote, snapshot_of,
  apply_merged_conflict_resolution, apply_conflict_side_resolution,
}
use cpp_wiki.Merge.Outcomes.{Resolves, resolution_saves}
use cpp_wiki.Merge.Progress.{IsAccepted}
use cpp_wiki.Files.{write_file_atomically}
use cpp_wiki.Storage.{found, make_page_file_path, make_conflict_file_path, slot_at}
use cpp_wiki.Storage.Conflicts.{load_conflict, save_conflict}
use cpp_wiki.Storage.Samples.{sample_json, document_law, conflict_law}
use cpp_wiki.Storage.Tests.{healthy, conflict, with_conflict}
use cpp_wiki.Storage.Merging.{file_repository, file_stores, IsClean}
use cpp_wiki.Storage.Settling.{IsHealthy, Settles, file_resolution-Settles}

reader : Reader String
reader = record {
  to_text = λ s. some s;
  to_array = λ s. none;
  to_object = λ s. none;
  read_document = λ s. some (record {
    id = some "p";
    schema_version = some (pos 1);
    title = some s;
    blocks = some BlockSnapshots.nil;
  });
  read_blocks = λ s. none;
  could_not_parse = λ s. true;
  is_null = λ s. true;
  trimmed = λ s. s;
}

resolution_saves_example :
    let files = file_repository String sample_json healthy in
    let laws = file_stores String sample_json healthy document_law in
    let merged =
      apply_merged_conflict_resolution reader files "now" "c1" "ada" "" "both" with_conflict in
    let sided = apply_conflict_side_resolution reader files "now" "c1" remote with_conflict in
    ((c : DocumentConflictRecord)
      → IsClean String sample_json healthy c.document_id with_conflict
      → usable (files.load_conflict "c1" with_conflict) ≡ some c
      → Resolves reader files laws "now" c "both" with_conflict merged
        × Resolves reader files laws "now" c (snapshot_of remote c) with_conflict sided)
    × (usable (files.load_conflict "c1" with_conflict) ≡ none
        → (merged.0 ≡ with_conflict)
          × (sided.0 ≡ with_conflict)
          × (merged.1.status ≡ conflict_unavailable)
          × (sided.1.status ≡ conflict_unavailable))
resolution_saves_example =
    resolution_saves reader (file_repository String sample_json healthy)
      (file_stores String sample_json healthy document_law) "now" "c1" "ada" "" "both" remote
      with_conflict

conflict_loads : load_conflict sample_json healthy "c1" with_conflict ≡ found conflict
unfolding load_conflict save_conflict sample_json write_file_atomically make_conflict_file_path
conflict_loads = refl

files_are_healthy : IsHealthy String sample_json healthy "c1" "a/b" with_conflict
unfolding save_conflict make_conflict_file_path make_page_file_path slot_at write_file_atomically
files_are_healthy = (refl, refl, refl, refl, refl, refl)

text-IsAccepted :
    (text : String) → IsAccepted reader (file_repository String sample_json healthy) "now" text
unfolding reader parse_and_validate_snapshot accepted convert_list
text-IsAccepted text = refl

file_resolution-Settles_example :
    let files = file_repository String sample_json healthy in
    Settles String sample_json healthy document_law conflict_law reader "now" "c1" conflict "both"
      (apply_merged_conflict_resolution reader files "now" "c1" "ada" "" "both" with_conflict)
    × Settles String sample_json healthy document_law conflict_law reader "now" "c1" conflict
        (snapshot_of remote conflict)
        (apply_conflict_side_resolution reader files "now" "c1" remote with_conflict)
file_resolution-Settles_example =
    file_resolution-Settles String sample_json healthy document_law conflict_law reader "now" "c1"
      "ada" "" "both" remote conflict with_conflict conflict_loads files_are_healthy
      (text-IsAccepted "both") (text-IsAccepted (snapshot_of remote conflict))
