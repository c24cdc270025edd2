-- ===== src/Storage/Lists.antt =====
-- storage/file_document_repository.cc: the loop over the files of a directory that every List of
-- typed records makes, with its sorting at the end. A List of one type gives the directory, the
-- reading of a file, the test of its record, and the messages of its errors.
use cpp_wiki.Prelude.{
  String, Bool, not, ◌&&◌, ◌||◌, Option, none, some, List, [], ◌∷◌, ◌==◌, if◌then◌else◌, is_empty,
  is_some,
}
use cpp_wiki.Files.{Slot}
use cpp_wiki.Storage.{
  FilePath, Store, Disk, Answer, found, failed, make_error, invalid_record, read_file_to_string,
}

-- `std::ranges::sort`, for an order in which different records never stand level.
unfoldable pub insert_sorted : {R : Type 0} → (R → R → Bool) → R → List R → List R
insert_sorted goes_before r [] = r ∷ []
insert_sorted goes_before r (q ∷ qs) =
    let rest = insert_sorted goes_before r qs in if goes_before q r then q ∷ rest else r ∷ q ∷ qs

unfoldable pub sorted_by : {R : Type 0} → (R → R → Bool) → List R → List R
unfolding insert_sorted
sorted_by goes_before [] = []
sorted_by goes_before (r ∷ rs) = insert_sorted goes_before r (sorted_by goes_before rs)

-- A regular file with the extension `.json` in the directory. (A file named `.json` has none.)
unfoldable pub is_listed : String → FilePath → Slot → Bool
is_listed directory p slot =
    is_some slot.target
    && p.directory == directory
    && p.extension == ".json"
    && not (is_empty p.stem)

-- What a List of records of type `R` is made of.
pub record RecordFiles (R : Type 0) : Type 0 where
  pub directory : String
  pub read : String → Option R
  pub id_of : R → String
  pub is_invalid : R → Bool
  pub parse_message : String
  pub invalid_message : String

module _ {R : Type 0} (files : RecordFiles R) (keep : R → Bool) where
  -- The record of one file, before those of the files after it.
  unfoldable pub add_record : R → Answer (List R) → Answer (List R)
  add_record r (failed e) = failed e
  add_record r (found rs) = found (if keep r then r ∷ rs else rs)

  unfoldable pub add_file : String → Option R → Answer (List R) → Answer (List R)
  unfolding add_record
  add_file stem none more = failed (make_error invalid_record files.parse_message)
  add_file stem (some r) more =
      if not (files.id_of r == stem) || files.is_invalid r
      then failed (make_error invalid_record files.invalid_message)
      else add_record r more

  unfoldable pub add_content : String → Option String → Answer (List R) → Answer (List R)
  unfolding add_file
  add_content stem none more = more
  add_content stem (some content) more = add_file stem (files.read content) more

  unfoldable pub walk_records : Disk → Store → Answer (List R)
  unfolding is_listed add_content
  walk_records disk [] = found []
  walk_records disk ((p, slot) ∷ store) =
      let more = walk_records disk store in
      if is_listed files.directory p slot
      then add_content p.stem (read_file_to_string disk p slot) more
      else more

unfoldable pub sort_found : {R : Type 0} → (R → R → Bool) → Answer (List R) → Answer (List R)
unfolding sorted_by
sort_found goes_before (found rs) = found (sorted_by goes_before rs)
sort_found goes_before (failed e) = failed e

unfoldable pub list_records :
    {R : Type 0} → RecordFiles R → (R → Bool) → (R → R → Bool) → Disk → Store → Answer (List R)
unfolding walk_records sort_found
list_records files keep goes_before disk store =
    sort_found goes_before (walk_records files keep disk store)

-- `std::ranges::find_if` for the record with an id.
unfoldable pub find_record : {R : Type 0} → (R → String) → String → List R → Option R
find_record id_of id [] = none
find_record id_of id (r ∷ rs) =
    let rest = find_record id_of id rs in if id_of r == id then some r else rest
