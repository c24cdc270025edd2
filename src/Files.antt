-- ===== src/Files.antt =====
-- storage/file_document_repository.cc: how a record's file is replaced (WriteFileAtomically), put back
-- (RestoreFromBackup) and recovered after a crash (ReconcileInterruptedWrite, SweepInterruptedWrites).
-- A target's file and its siblings `.tmp` and `.backup` are a `Slot`. The names of records end in
-- `.json` or `.blob`, so the siblings of different targets never coincide.
pub mod Crash
pub mod Sweep
mod Tests
use cpp_wiki.Prelude.{
  ℕ, zero, suc, String, Bool, true, false, ◌&&◌, not, Option, none, some, List, [], ◌∷◌, ◌==◌,
  if◌then◌else◌, is_some,
}

-- The contents of the target and of its two siblings; `none` for a file that does not exist.
pub record Slot : Type 0 where
  pub target : Option String
  pub temp : Option String
  pub backup : Option String

-- `std::filesystem::rename` and `remove` on the files of a slot.
abbrev pub target_to_backup : Slot → Slot
target_to_backup s = record { target = none; temp = s.temp; backup = s.target }

abbrev pub temp_to_target : Slot → Slot
temp_to_target s = record { target = s.temp; temp = none; backup = s.backup }

abbrev pub backup_to_target : Slot → Slot
backup_to_target s = record { target = s.backup; temp = s.temp; backup = none }

abbrev pub set_temp : Option String → Slot → Slot
set_temp content s = record { target = s.target; temp = content; backup = s.backup }

abbrev pub remove_backup : Slot → Slot
remove_backup s = record { target = s.target; temp = s.temp; backup = none }

-- Where a call of WriteFileAtomically stands, or what it returned.
pub data Stage : Type 0 where
  opening filling discarding closing backing_up swapping cleaning : Stage
  returned : Bool → Stage

-- What happens next: the operation succeeds, it fails (an exception, or a stream that is not
-- good), or more of the content reaches the temporary file, which holds the text given.
pub data Event : Type 0 where
  succeeds fails : Event
  fills : String → Event

-- One operation of WriteFileAtomically for `content`. A crash is a run that ends before `returned`;
-- what was written before it is kept. The stream is asked whether it is good at `filling`; at `closing`,
-- when its destructor writes out what is left in its buffer, a failure leaves what has reached the
-- file, and nothing notices it. At `discarding` the temporary file of a bad stream is removed.
unfoldable pub next : String → Event → Stage → Slot → Stage × Slot
next content e (returned b) s = (returned b, s)
next content succeeds opening s = (filling, set_temp (some "") s)
next content succeeds filling s = (closing, s)
next content succeeds discarding s = (returned false, set_temp none s)
next content succeeds closing s = (backing_up, set_temp (some content) s)
next content succeeds backing_up s = (swapping, if is_some s.target then target_to_backup s else s)
next content succeeds swapping s = (cleaning, temp_to_target s)
next content succeeds cleaning s = (returned true, if is_some s.backup then remove_backup s else s)
next content fails filling s = (discarding, s)
next content fails closing s = (backing_up, s)
next content fails _ s = (returned false, s)
next content (fills part) filling s = (filling, set_temp (some part) s)
next content (fills part) closing s = (closing, set_temp (some part) s)
next content (fills part) stage s = (stage, s)

unfoldable pub write_from : String → List Event → Stage → Slot → Stage × Slot
unfolding next
write_from content [] stage s = (stage, s)
write_from content (e ∷ events) stage s =
    let (stage', s') = next content e stage s in write_from content events stage' s'

unfoldable pub write_file_atomically : List Event → String → Slot → Stage × Slot
unfolding write_from
write_file_atomically events content s = write_from content events opening s

-- With whether the renaming fails; its exception is caught.
unfoldable pub restore_from_backup : Bool → Slot → Slot × Bool
restore_from_backup fails_to_rename s =
    if not (is_some s.backup)
    then (s, false)
    else if fails_to_rename
    then (s, false)
    else (backup_to_target s, true)

-- The operations of one ReconcileInterruptedWrite, chosen from which files exist at its start.
pub data Repair : Type 0 where
  finish_swap restore_old drop_temp drop_backup : Repair

unfoldable pub perform : Repair → Slot → Slot
perform finish_swap s = temp_to_target s
perform restore_old s = backup_to_target s
perform drop_temp s = set_temp none s
perform drop_backup s = remove_backup s

when : Bool → Repair → List Repair → List Repair
when b r rest = if b then r ∷ rest else rest

unfoldable pub repairs : Slot → List Repair
unfolding when
repairs s =
    let target_exists = is_some s.target in
    let temp_exists = is_some s.temp in
    let backup_exists = is_some s.backup in
    if not temp_exists && not backup_exists
    then []
    else if not target_exists && temp_exists
    then finish_swap ∷ when backup_exists drop_backup []
    else if not target_exists && backup_exists
    then restore_old ∷ []
    else when temp_exists drop_temp (when backup_exists drop_backup [])

-- The operations in their order, up to the one that throws (counted from zero), if any: its exception
-- is caught, and the rest is left.
unfoldable pub perform_all : List Repair → Option ℕ → Slot → Slot
unfolding perform
perform_all [] fault s = s
perform_all (r ∷ rs) none s = perform_all rs none (perform r s)
perform_all (r ∷ rs) (some zero) s = s
perform_all (r ∷ rs) (some (suc n)) s = perform_all rs (some n) (perform r s)

unfoldable pub reconcile_interrupted_write : Option ℕ → Slot → Slot
unfolding repairs perform_all
reconcile_interrupted_write fault s = perform_all (repairs s) fault s

-- A directory: the slot of each target's name.
abbrev pub Directory : Type 0
Directory = String → Slot

pub reconcile_at : String → Option ℕ → Directory → Directory
unfolding reconcile_interrupted_write
reconcile_at name fault d other =
    if other == name then reconcile_interrupted_write fault (d name) else d other

-- The names that the scan has collected, one for each sibling found, in the order of the listing, each
-- with the operation of its recovery that throws, if any.
pub sweep_interrupted_writes : List (String × Option ℕ) → Directory → Directory
unfolding reconcile_at
sweep_interrupted_writes [] d = d
sweep_interrupted_writes ((name, fault) ∷ calls) d =
    sweep_interrupted_writes calls (reconcile_at name fault d)
