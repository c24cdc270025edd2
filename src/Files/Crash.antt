-- ===== src/Files/Crash.antt =====
-- A crash or an error at any point of a write: what the files hold, and what recovery makes of them.
use cpp_wiki.Prelude.{
  ◌≡◌, ◌⊎◌, inl, inr, refl, String, Bool, true, false, ◌&&◌, Option, none, some, List, [], ◌∷◌,
}
use cpp_wiki.Files.{
  Slot, Stage, opening, filling, discarding, closing, backing_up, swapping, cleaning, returned,
  Event, succeeds, fails, fills, next, write_from, write_file_atomically, restore_from_backup,
  perform, perform_all, repairs, reconcile_interrupted_write,
}

abbrev pub only : String → Slot
only text = record { target = some text; temp = none; backup = none }

-- Whether the run has closed its temporary file without a loss, if it has closed it at all.
flushes : Event → Stage → Bool
flushes fails closing = false
flushes _ _ = true

pub is_flushed : String → List Event → Stage → Slot → Bool → Bool
unfolding next flushes
is_flushed content [] stage s whole = whole
is_flushed content (e ∷ events) stage s whole =
    let (stage', s') = next content e stage s in
    is_flushed content events stage' s' (flushes e stage && whole)

-- The states in which a write of `new` over `old` can be found; `whole` says whether the closing of
-- the temporary file has lost nothing.
data Reaches (old new : String) (whole : Bool) : Stage → Slot → Type 0 where
  opened : Reaches old new whole opening (only old)
  filled :
      (part : String)
      → Reaches old new whole filling
          (record { target = some old; temp = some part; backup = none })
  spoilt :
      (part : String)
      → Reaches old new whole discarding
          (record { target = some old; temp = some part; backup = none })
  shut :
      (part : String)
      → Reaches old new whole closing
          (record { target = some old; temp = some part; backup = none })
  written :
      (text : String)
      → (whole ≡ true → text ≡ new)
      → Reaches old new whole backing_up
          (record { target = some old; temp = some text; backup = none })
  backed_up :
      (text : String)
      → (whole ≡ true → text ≡ new)
      → Reaches old new whole swapping
          (record { target = none; temp = some text; backup = some old })
  swapped :
      (text : String)
      → (whole ≡ true → text ≡ new)
      → Reaches old new whole cleaning
          (record { target = some text; temp = none; backup = some old })
  done :
      (text : String)
      → (whole ≡ true → text ≡ new)
      → Reaches old new whole (returned true) (only text)
  gave_up :
      (temp : Option String)
      → Reaches old new whole
          (returned false)
          (record { target = some old; temp = temp; backup = none })
  gave_up_backed_up :
      (text : String)
      → (whole ≡ true → text ≡ new)
      → Reaches old new whole
          (returned false)
          (record { target = none; temp = some text; backup = some old })
  gave_up_swapped :
      (text : String)
      → (whole ≡ true → text ≡ new)
      → Reaches old new whole
          (returned false)
          (record { target = some text; temp = none; backup = some old })

-- What a run over `old` leaves, in terms of the text that was to replace it: recovery gives the old
-- text or that text, also after an attempt to put the backup back.
abbrev pub Leaves : String → String → Stage → Slot → Type 0
Leaves old text stage s =
    ((reconcile_interrupted_write none s ≡ only old)
      ⊎ (reconcile_interrupted_write none s ≡ only text))
    × (stage ≡ returned true → s ≡ only text)
    × (stage ≡ returned false
        → ((restore_from_backup false s).0.target ≡ some old)
          × (reconcile_interrupted_write none (restore_from_backup false s).0 ≡ only old)
          × ((restore_from_backup true s).0 ≡ s)
          × ((s.target ≡ some old) ⊎ (s.backup ≡ some old)))

module _ {old new : String} where
  Reaches-next :
      (e : Event) (whole : Bool) {stage : Stage} {s : Slot}
      → Reaches old new whole stage s
      → Reaches old new (flushes e stage && whole) (next new e stage s).0 (next new e stage s).1
  unfolding next flushes
  Reaches-next succeeds w opened = filled ""
  Reaches-next succeeds w (filled part) = shut part
  Reaches-next succeeds w (spoilt part) = gave_up none
  Reaches-next succeeds w (shut part) = written new (λ h. refl)
  Reaches-next succeeds w (written t h) = backed_up t h
  Reaches-next succeeds w (backed_up t h) = swapped t h
  Reaches-next succeeds w (swapped t h) = done t h
  Reaches-next succeeds w (done t h) = done t h
  Reaches-next succeeds w (gave_up temp) = gave_up temp
  Reaches-next succeeds w (gave_up_backed_up t h) = gave_up_backed_up t h
  Reaches-next succeeds w (gave_up_swapped t h) = gave_up_swapped t h
  Reaches-next fails w opened = gave_up none
  Reaches-next fails w (filled part) = spoilt part
  Reaches-next fails w (spoilt part) = gave_up (some part)
  Reaches-next fails w (shut part) = written part (λ h. cc)
  Reaches-next fails w (written t h) = gave_up (some t)
  Reaches-next fails w (backed_up t h) = gave_up_backed_up t h
  Reaches-next fails w (swapped t h) = gave_up_swapped t h
  Reaches-next fails w (done t h) = done t h
  Reaches-next fails w (gave_up temp) = gave_up temp
  Reaches-next fails w (gave_up_backed_up t h) = gave_up_backed_up t h
  Reaches-next fails w (gave_up_swapped t h) = gave_up_swapped t h
  Reaches-next (fills text) w opened = opened
  Reaches-next (fills text) w (filled part) = filled text
  Reaches-next (fills text) w (spoilt part) = spoilt part
  Reaches-next (fills text) w (shut part) = shut text
  Reaches-next (fills text) w (written t h) = written t h
  Reaches-next (fills text) w (backed_up t h) = backed_up t h
  Reaches-next (fills text) w (swapped t h) = swapped t h
  Reaches-next (fills text) w (done t h) = done t h
  Reaches-next (fills text) w (gave_up temp) = gave_up temp
  Reaches-next (fills text) w (gave_up_backed_up t h) = gave_up_backed_up t h
  Reaches-next (fills text) w (gave_up_swapped t h) = gave_up_swapped t h

  Reaches-write :
      (events : List Event) (whole : Bool) {stage : Stage} {s : Slot}
      → Reaches old new whole stage s
      → Reaches old new
          (is_flushed new events stage s whole)
          (write_from new events stage s).0
          (write_from new events stage s).1
  unfolding write_from is_flushed
  Reaches-write [] w r = r
  Reaches-write (e ∷ events) w r = Reaches-write events _ (Reaches-next e w r)

  left :
      {whole : Bool} {stage : Stage} {s : Slot}
      → Reaches old new whole stage s
      → (text : String) × (whole ≡ true → text ≡ new) × Leaves old text stage s
  unfolding reconcile_interrupted_write repairs perform_all perform restore_from_backup
  left opened = (new, λ h. refl, (inl refl, λ e. cc, λ e. cc))
  left (filled part) = (new, λ h. refl, (inl refl, λ e. cc, λ e. cc))
  left (spoilt part) = (new, λ h. refl, (inl refl, λ e. cc, λ e. cc))
  left (shut part) = (new, λ h. refl, (inl refl, λ e. cc, λ e. cc))
  left (written t h) = (t, h, (inl refl, λ e. cc, λ e. cc))
  left (backed_up t h) = (t, h, (inr refl, λ e. cc, λ e. cc))
  left (swapped t h) = (t, h, (inr refl, λ e. cc, λ e. cc))
  left (done t h) = (t, h, (inr refl, λ e. refl, λ e. cc))
  left (gave_up none) = (new, λ h. refl, (inl refl, λ e. cc, λ e. (refl, refl, refl, inl refl)))
  left (gave_up (some t)) = (new, λ h. refl, (inl refl, λ e. cc, λ e. (refl, refl, refl, inl refl)))
  left (gave_up_backed_up t h) = (t, h, (inr refl, λ e. cc, λ e. (refl, refl, refl, inr refl)))
  left (gave_up_swapped t h) = (t, h, (inr refl, λ e. cc, λ e. (refl, refl, refl, inr refl)))

-- A record's file holds `old`, with no sibling, and is to be replaced by `new`. However the write goes
-- (each operation may fail, the temporary file may be filled piece by piece with any text) and
-- wherever it stops, there is one text, which is `new` unless the closing of the temporary file lost
-- a part of it unnoticed, such that a recovery that does not fail leaves the file with the old text or
-- with that text and no sibling. If the write returns true, the file already holds that text with no
-- sibling. If it returns false, the old text is in the file or in its backup; putting the backup back
-- gives the file the old text, also after a recovery, and if the renaming for it fails, nothing
-- changes. A write whose operations all succeed returns true and loses nothing.
pub write_crash_safe :
    (old new : String) (events : List Event)
    → let after = write_file_atomically events new (only old) in
      let all = succeeds ∷ succeeds ∷ succeeds ∷ succeeds ∷ succeeds ∷ succeeds ∷ [] in
      ((text : String) × (is_flushed new events opening (only old) true ≡ true → text ≡ new)
        × Leaves old text after.0 after.1)
      × (write_file_atomically all new (only old) ≡ (returned true, only new))
unfolding write_file_atomically write_from next
write_crash_safe old new events =
    let start : Reaches old new true opening (only old) = opened in
    (left (Reaches-write events true start), refl)
