-- ===== src/Storage/Slots.antt =====
-- One file of the storage directory: what its writing, its saving and its removal leave there, and in
-- every other file.
use cpp_wiki.Prelude.{
  ◌≡◌, ◌⊎◌, inl, inr, refl, ap, sym, subst, ◌∙◌, String, Bool, true, false, Option, none, some, [],
  ◌∷◌, arith, eq_iff, eq_refl, is_some,
}
use cpp_wiki.Files.{Slot, write_file_atomically, write_from, next, restore_from_backup}
use cpp_wiki.Files.Crash.{only}
use cpp_wiki.Storage.{
  no_faults, FilePath, Store, Disk, RepositoryError, same_path, slot_at, put_slot, events_of,
  WriteFaults, has_succeeded, write_slot, write_file, restore_file, after_write, save_file, removed,
  remove_file, without_target, file_exists,
}

pub same_path_refl : (p : FilePath) → same_path p p ≡ true
unfolding same_path
same_path_refl p = rw (eq_refl p.directory, eq_refl p.stem, eq_refl p.extension)

one_path :
    {d s e d' s' e' : String}
    → d ≡ d'
    → s ≡ s'
    → e ≡ e'
    → Path FilePath
        (record { directory = d; stem = s; extension = e })
        (record { directory = d'; stem = s'; extension = e' })
one_path x y z = rw (x, y, z)

pub equal_paths : (p q : FilePath) → same_path p q ≡ true → p ≡ q
unfolding same_path
equal_paths p q h =
    one_path (ground (arith, eq_iff p.directory q.directory)) (ground (arith, eq_iff p.stem q.stem))
      (ground (arith, eq_iff p.extension q.extension))

pub slot_at-put_slot :
    (p : FilePath) (slot : Slot) (store : Store) → slot_at p (put_slot p slot store) ≡ slot
unfolding slot_at put_slot
slot_at-put_slot p slot [] = rw (same_path_refl p)
slot_at-put_slot p slot ((q, s) ∷ store) = ground (arith, slot_at-put_slot p slot store)

pub slot_at-put_other :
    (p q : FilePath) (slot : Slot) (store : Store)
    → same_path q p ≡ false
    → slot_at q (put_slot p slot store) ≡ slot_at q store
unfolding slot_at put_slot
slot_at-put_other p q slot [] h = rw h
slot_at-put_other p q slot ((r, s) ∷ store) h =
    ground (arith, slot_at-put_other p q slot store h, equal_paths p r)

-- A write to a file that has no backup. On success the file has the new text alone, unless the closing
-- of the temporary file has lost a part of it. After a failure and the restoration it has what it
-- had, if it was there, and a restoration that fails leaves what it had in it or in its backup.
abbrev pub WroteOr : Bool → String → Slot → Slot × Bool → Type 0
WroteOr loses content before (after, success) =
    (success ≡ true → after.backup ≡ none)
    × (success ≡ true → loses ≡ false → after ≡ only content)
    × (success ≡ false
        → ((restore_from_backup false after).0.backup ≡ none)
          × (((restore_from_backup false after).0.target ≡ before.target) ⊎ (before.target ≡ none)))
    × (success ≡ false → (after.target ≡ before.target) ⊎ (after.backup ≡ before.target))
    × ((restore_from_backup true after).0 ≡ after)

abbrev faults_by : Bool → Bool → Bool → Bool → String → Bool → Bool → Bool → WriteFaults
faults_by a b c d reached e f g = record {
  open_fails = a;
  fill_fails = b;
  discard_fails = c;
  close_fails = d;
  reached = reached;
  backup_fails = e;
  swap_fails = f;
  clean_fails = g;
}

stuck_restore :
    (target temp backup : Option String)
    → let s : Slot = record { target = target; temp = temp; backup = backup } in
      (restore_from_backup true s).0 ≡ s
unfolding restore_from_backup
stuck_restore target temp none = refl
stuck_restore target temp (some t) = refl

write_slot-WroteOr :
    (a b c d : Bool) (r : String) (e f g : Bool) (content : String) (target temp : Option String)
    → let before : Slot = record { target = target; temp = temp; backup = none } in
      WroteOr d content before (write_slot (faults_by a b c d r e f g) content before)
unfolding write_slot events_of has_succeeded write_file_atomically write_from next
    restore_from_backup
write_slot-WroteOr true b c d r e f g content target temp =
    (λ h. cc, λ h. cc, λ h. (refl, inl refl), λ h. inl refl, refl)
write_slot-WroteOr false true true d r e f g content target temp =
    (λ h. cc, λ h. cc, λ h. (refl, inl refl), λ h. inl refl, refl)
write_slot-WroteOr false true false d r e f g content target temp =
    (λ h. cc, λ h. cc, λ h. (refl, inl refl), λ h. inl refl, refl)
write_slot-WroteOr false false c true r true f g content target temp =
    (λ h. cc, λ h. cc, λ h. (refl, inl refl), λ h. inl refl, refl)
write_slot-WroteOr false false c false r true f g content target temp =
    (λ h. cc, λ h. cc, λ h. (refl, inl refl), λ h. inl refl, refl)
write_slot-WroteOr false false c true r false true g content none temp =
    (λ h. cc, λ h. cc, λ h. (refl, inl refl), λ h. inl refl, refl)
write_slot-WroteOr false false c true r false true g content (some t) temp =
    (λ h. cc, λ h. cc, λ h. (refl, inl refl), λ h. inr refl, refl)
write_slot-WroteOr false false c false r false true g content none temp =
    (λ h. cc, λ h. cc, λ h. (refl, inl refl), λ h. inl refl, refl)
write_slot-WroteOr false false c false r false true g content (some t) temp =
    (λ h. cc, λ h. cc, λ h. (refl, inl refl), λ h. inr refl, refl)
write_slot-WroteOr false false c true r false false true content none temp =
    (λ h. cc, λ h. cc, λ h. (refl, inr refl), λ h. inr refl, refl)
write_slot-WroteOr false false c true r false false true content (some t) temp =
    (λ h. cc, λ h. cc, λ h. (refl, inl refl), λ h. inr refl, refl)
write_slot-WroteOr false false c false r false false true content none temp =
    (λ h. cc, λ h. cc, λ h. (refl, inr refl), λ h. inr refl, refl)
write_slot-WroteOr false false c false r false false true content (some t) temp =
    (λ h. cc, λ h. cc, λ h. (refl, inl refl), λ h. inr refl, refl)
write_slot-WroteOr false false c true r false false false content none temp =
    (λ h. refl, λ h. λ k. cc, λ h. cc, λ h. cc, refl)
write_slot-WroteOr false false c true r false false false content (some t) temp =
    (λ h. refl, λ h. λ k. cc, λ h. cc, λ h. cc, refl)
write_slot-WroteOr false false c false r false false false content none temp =
    (λ h. refl, λ h. λ k. refl, λ h. cc, λ h. cc, refl)
write_slot-WroteOr false false c false r false false false content (some t) temp =
    (λ h. refl, λ h. λ k. refl, λ h. cc, λ h. cc, refl)

-- What a save leaves in the storage: `p` is the file, and every other file is as before.
abbrev pub Others : FilePath → Store → Store → Type 0
Others p before after = (q : FilePath) → same_path q p ≡ false → slot_at q after ≡ slot_at q before

-- The effect of a save of a text in a file that has no backup; `loses` says whether the closing of the
-- temporary file loses a part of it, `stuck` whether putting the backup back fails.
abbrev pub SavedOr :
    Bool → Bool → FilePath → String → Store → Store × Option RepositoryError → Type 0
SavedOr loses stuck p content before (after, e) =
    Others p before after
    × (e ≡ none → (slot_at p after).backup ≡ none)
    × (e ≡ none → loses ≡ false → slot_at p after ≡ only content)
    × (is_some e ≡ true
        → stuck ≡ false
        → ((slot_at p after).backup ≡ none)
          × (((slot_at p after).target ≡ (slot_at p before).target)
              ⊎ ((slot_at p before).target ≡ none)))
    × (is_some e ≡ true
        → ((slot_at p after).target ≡ (slot_at p before).target)
          ⊎ (((slot_at p after).backup ≡ (slot_at p before).target)
              ⊎ ((slot_at p before).target ≡ none)))

written_slot :
    (faults : WriteFaults) (content : String) (slot : Slot)
    → slot.backup ≡ none
    → WroteOr faults.close_fails content slot (write_slot faults content slot)
written_slot faults content slot h =
    subst
      (λ b.
        let before : Slot = record { target = slot.target; temp = slot.temp; backup = b } in
        WroteOr faults.close_fails content before (write_slot faults content before))
      (sym h)
      (write_slot-WroteOr faults.open_fails faults.fill_fails faults.discard_fails
        faults.close_fails faults.reached faults.backup_fails faults.swap_fails faults.clean_fails
        content slot.target slot.temp)

restored_slot :
    (loses stuck : Bool) (content : String) (before slot : Slot)
    → WroteOr loses content before (slot, false)
    → let after = (restore_from_backup stuck slot).0 in
      (stuck ≡ false
        → (after.backup ≡ none) × ((after.target ≡ before.target) ⊎ (before.target ≡ none)))
      × ((after.target ≡ before.target) ⊎ ((after.backup ≡ before.target) ⊎ (before.target ≡ none)))
restored_slot loses true content before slot (done, exact, put, kept, same) =
    (λ h. cc, rw same (elim (kept refl) [ inl t ↦ inl t | inr b ↦ inr (inl b) ]))
restored_slot loses false content before slot (done, exact, put, kept, same) =
    let (clean, there) = put refl in
    (λ h. (clean, there), elim there [ inl t ↦ inl t | inr n ↦ inr (inr n) ])

after_write-SavedOr :
    (disk : Disk) (p : FilePath) (content message : String) (slot : Slot) (success : Bool)
    (store : Store)
    → WroteOr (disk.write_faults p).close_fails content (slot_at p store) (slot, success)
    → SavedOr
        (disk.write_faults p).close_fails
        (disk.restore_fails p)
        p
        content
        store
        (after_write disk p message (put_slot p slot store, success))
unfolding after_write restore_file
after_write-SavedOr disk p content message slot true store h =
    let written = slot_at-put_slot p slot store in
    (
      λ q other. slot_at-put_other p q slot store other,
      λ e. rw written (h.0 refl),
      λ e k. rw written (h.1 refl k),
      λ e. cc,
      λ e. cc,
    )
after_write-SavedOr disk p content message slot false store h =
    let restored = (restore_from_backup (disk.restore_fails p) slot).0 in
    let written = slot_at-put_slot p slot store in
    let put = slot_at-put_slot p restored (put_slot p slot store) in
    let result =
      restored_slot (disk.write_faults p).close_fails (disk.restore_fails p) content
        (slot_at p store) slot h in
    (
      λ q other.
          rw
            (
              written,
              slot_at-put_other p q restored (put_slot p slot store) other,
              slot_at-put_other p q slot store other,
            )
            refl,
      λ e. cc,
      λ e. cc,
      λ e k. rw (written, put) (result.0 k),
      λ e. rw (written, put) result.1,
    )

-- Saving a text in a file that has no backup changes no other file, whatever the disk does. Without an
-- error the file has the text, if the closing of the temporary file loses nothing. With one it has
-- what it had, if it was there and the backup can be put back; if it cannot, what it had is in it
-- or in its backup.
pub save_file-SavedOr :
    (disk : Disk) (p : FilePath) (content message : String) (store : Store)
    → (slot_at p store).backup ≡ none
    → SavedOr
        (disk.write_faults p).close_fails
        (disk.restore_fails p)
        p
        content
        store
        (save_file disk p content message store)
unfolding save_file write_file
save_file-SavedOr disk p content message store h =
    let written = write_slot (disk.write_faults p) content (slot_at p store) in
    after_write-SavedOr disk p content message written.0 written.1 store
      (written_slot (disk.write_faults p) content (slot_at p store) h)

-- A save changes no other file, whatever stood there before.
after_write-Others :
    (disk : Disk) (p : FilePath) (message : String) (slot : Slot) (success : Bool) (store : Store)
    → Others p store (after_write disk p message (put_slot p slot store, success)).0
unfolding after_write restore_file
after_write-Others disk p message slot true store =
    λ q other. slot_at-put_other p q slot store other
after_write-Others disk p message slot false store = λ q other.
    slot_at-put_other p q
      (restore_from_backup (disk.restore_fails p) (slot_at p (put_slot p slot store))).0
      (put_slot p slot store) other
    ∙ slot_at-put_other p q slot store other

pub save_file-Others :
    (disk : Disk) (p : FilePath) (content message : String) (store : Store)
    → Others p store (save_file disk p content message store).0
unfolding save_file write_file
save_file-Others disk p content message store =
    let written = write_slot (disk.write_faults p) content (slot_at p store) in
    after_write-Others disk p message written.0 written.1 store

-- A save that meets no fault has no error.
write_slot_works :
    (content : String) (target temp backup : Option String)
    → (write_slot no_faults content (record { target = target; temp = temp; backup = backup })).1
      ≡ true
unfolding write_slot events_of has_succeeded write_file_atomically write_from next
write_slot_works content none temp none = refl
write_slot_works content none temp (some b) = refl
write_slot_works content (some t) temp none = refl
write_slot_works content (some t) temp (some b) = refl

after_write_works :
    (disk : Disk) (p : FilePath) (message : String) (store : Store) (success : Bool)
    → success ≡ true
    → (after_write disk p message (store, success)).1 ≡ none
unfolding after_write
after_write_works disk p message store true h = refl
after_write_works disk p message store false h = cc

pub save_file_works :
    (disk : Disk) (p : FilePath) (content message : String) (store : Store)
    → disk.write_faults p ≡ no_faults
    → (save_file disk p content message store).1 ≡ none
unfolding save_file write_file
save_file_works disk p content message store h =
    let s = slot_at p store in
    let works =
      ap (λ f. (write_slot f content s).1) h ∙ write_slot_works content s.target s.temp s.backup in
    after_write_works disk p message
      (put_slot p (write_slot (disk.write_faults p) content s).0 store)
      (write_slot (disk.write_faults p) content s).1 works

-- What a removal leaves: without an error there is no file, and every other file is as before.
abbrev pub RemovedOr : FilePath → Store → Store × Option RepositoryError → Type 0
RemovedOr p before (after, e) =
    Others p before after
    × ((slot_at p after).backup ≡ (slot_at p before).backup)
    × (e ≡ none → (slot_at p after).target ≡ none)
    × (is_some e ≡ true → after ≡ before)

removed-RemovedOr :
    (b : Bool) (fault : Option String) (p : FilePath) (store : Store)
    → is_some (slot_at p store).target ≡ b
    → RemovedOr p store (removed b fault p store)
unfolding removed
removed-RemovedOr false fault p store h = (λ q other. refl, refl, λ e. ground arith, λ e. refl)
removed-RemovedOr true (some message) p store h = (λ q other. refl, refl, λ e. cc, λ e. refl)
removed-RemovedOr true none p store h =
    let put = slot_at-put_slot p (without_target (slot_at p store)) store in
    (
      λ q other. slot_at-put_other p q (without_target (slot_at p store)) store other,
      rw put refl,
      λ e. rw put refl,
      λ e. cc,
    )

pub remove_file-RemovedOr :
    (disk : Disk) (p : FilePath) (store : Store) → RemovedOr p store (remove_file disk p store)
unfolding remove_file file_exists
remove_file-RemovedOr disk p store =
    removed-RemovedOr (file_exists p store) (disk.remove_fault p) p store refl

-- A write that returned true and whose closing lost nothing left the new text alone in the file, and
-- every write leaves the others.
pub write_file-Wrote :
    (disk : Disk) (p : FilePath) (content : String) (store : Store)
    → (slot_at p store).backup ≡ none
    → (disk.write_faults p).close_fails ≡ false
    → let (after, success) = write_file disk p content store in
      Others p store after × (success ≡ true → slot_at p after ≡ only content)
unfolding write_file
write_file-Wrote disk p content store clean whole =
    let written = write_slot (disk.write_faults p) content (slot_at p store) in
    let or = written_slot (disk.write_faults p) content (slot_at p store) clean in
    (
      λ q other. slot_at-put_other p q written.0 store other,
      λ e. slot_at-put_slot p written.0 store ∙ or.1 e whole,
    )
