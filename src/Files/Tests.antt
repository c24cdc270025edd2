-- ===== src/Files/Tests.antt =====
-- Writes that are cut short, and the theorems at concrete inputs.
use cpp_wiki.Prelude.{String, ℕ, Option, List, ◌≡◌, refl, true, false, none, some, [], ◌∷◌}
use cpp_wiki.Files.{
  Event, opening, Slot, returned, succeeds, fails, fills, write_file_atomically,
  reconcile_interrupted_write, Directory, sweep_interrupted_writes,
}
use cpp_wiki.Files.Crash.{only, is_flushed, Leaves, write_crash_safe}
use cpp_wiki.Files.Sweep.{is_named, is_repaired, reconcile_resumes, sweep_exact}

-- A crash while the temporary file is filled keeps the old text, one after the backup the new one.
write_runs :
    (reconcile_interrupted_write none
        (write_file_atomically (succeeds ∷ fills "n" ∷ []) "new" (only "old")).1
      ≡ only "old")
    × (reconcile_interrupted_write none
          (write_file_atomically
            (succeeds ∷ succeeds ∷ succeeds ∷ succeeds ∷ [])
            "new"
            (only "old")).1
        ≡ only "new")
unfolding write_file_atomically reconcile_interrupted_write
write_runs = (refl, refl)

-- A write whose temporary file loses its end when it is closed returns true, and the file is torn.
lossy_write_runs :
    write_file_atomically
      (succeeds ∷ succeeds ∷ fills "ne" ∷ fails ∷ succeeds ∷ succeeds ∷ succeeds ∷ [])
      "new"
      (only "old")
    ≡ (returned true, only "ne")
unfolding write_file_atomically
lossy_write_runs = refl

-- The first write of a record, cut short while its temporary file is filled: recovery makes the part
-- that was written the record.
first_write_runs :
    reconcile_interrupted_write none
      (write_file_atomically
        (succeeds ∷ fills "ne" ∷ [])
        "new"
        (record { target = none; temp = none; backup = none })).1
    ≡ only "ne"
unfolding write_file_atomically reconcile_interrupted_write
first_write_runs = refl

abbrev failing : List Event
failing = succeeds ∷ fills "n" ∷ succeeds ∷ succeeds ∷ succeeds ∷ fails ∷ []

write_crash_safe_example :
    let after = write_file_atomically failing "new" (only "old") in
    let all = succeeds ∷ succeeds ∷ succeeds ∷ succeeds ∷ succeeds ∷ succeeds ∷ [] in
    ((text : String) × (is_flushed "new" failing opening (only "old") true ≡ true → text ≡ "new")
      × Leaves "old" text after.0 after.1)
    × (write_file_atomically all "new" (only "old") ≡ (returned true, only "new"))
write_crash_safe_example = write_crash_safe "old" "new" failing

abbrev torn : Slot
torn = record { target = none; temp = some "new"; backup = some "old" }

reconcile_resumes_example :
    (reconcile_interrupted_write none (reconcile_interrupted_write (some 1) torn)
      ≡ reconcile_interrupted_write none torn)
    × (reconcile_interrupted_write (some 1) (reconcile_interrupted_write none torn)
        ≡ reconcile_interrupted_write none torn)
reconcile_resumes_example = reconcile_resumes (some 1) torn

abbrev pages : Directory
pages name = torn

abbrev calls : List (String × Option ℕ)
calls = ("p.json", some 0) ∷ ("p.json", none) ∷ []

sweep_exact_example :
    let after = sweep_interrupted_writes calls pages "p.json" in
    (is_repaired "p.json" calls ≡ true → after ≡ reconcile_interrupted_write none torn)
    × (is_named "p.json" calls ≡ false → after ≡ torn)
    × (reconcile_interrupted_write none after ≡ reconcile_interrupted_write none torn)
sweep_exact_example = sweep_exact calls pages "p.json"
