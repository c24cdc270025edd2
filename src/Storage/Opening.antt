-- ===== src/Storage/Opening.antt =====
-- storage/file_document_repository.cc: the recovery of interrupted writes when a repository is opened
-- (the constructor of FileDocumentRepository::Impl).
use cpp_wiki.Prelude.{
  ℕ, is_some, ◌&&◌, subst, Distinct, ◌≡◌, refl, ap, sym, ◌∙◌, String, Bool, true, false, Option,
  none, some, List, [], ◌∷◌, arith, eq_iff, ◌==◌, Bool-cases, inl, inr, if◌then◌else◌, elem,
}
use cpp_wiki.Files.{Slot, reconcile_interrupted_write, repairs, perform_all, perform}
use cpp_wiki.Files.Sweep.{reconcile_resumes}
use cpp_wiki.Storage.{FilePath, Store, Disk, same_path, slot_at, no_file}
use cpp_wiki.Storage.Slots.{equal_paths}

-- The sweep of one target: a call of the recovery for each sibling that the scan has found. A target
-- without one is left alone by a recovery too.
unfoldable pub recovered : Option ℕ × Option ℕ → Slot → Slot
recovered (first, second) slot =
    let once = reconcile_interrupted_write first slot in
    if is_some slot.temp && is_some slot.backup
    then reconcile_interrupted_write second once
    else once

-- A sweep of a directory, over the files of the storage.
unfoldable pub sweep_directory : Disk → String → Store → Store
unfolding recovered
sweep_directory disk directory [] = []
sweep_directory disk directory ((p, slot) ∷ store) =
    (p, if p.directory == directory then recovered (disk.repair_faults p) slot else slot)
    ∷ sweep_directory disk directory store

unfoldable pub sweep_directories : Disk → List String → Store → Store
unfolding sweep_directory
sweep_directories disk [] store = store
sweep_directories disk (d ∷ ds) store = sweep_directories disk ds (sweep_directory disk d store)

abbrev pub swept_directories : List String
swept_directories =
    "pages" ∷ "conflicts" ∷ "attachments" ∷ "property-definitions" ∷ "page-property-values"
    ∷ "relation-types" ∷ "page-relations" ∷ []

unfoldable pub open_repository : Disk → Store → Store
unfolding sweep_directories
open_repository disk store = sweep_directories disk swept_directories store

nothing_to_repair : (faults : Option ℕ × Option ℕ) → recovered faults no_file ≡ no_file
unfolding recovered reconcile_interrupted_write repairs perform_all perform
nothing_to_repair (first, second) = refl

no_siblings_by :
    (target temp backup : Option String)
    → let after =
        reconcile_interrupted_write none
          (record { target = target; temp = temp; backup = backup }) in
      (after.temp ≡ none) × (after.backup ≡ none)
unfolding reconcile_interrupted_write repairs perform_all perform
no_siblings_by none none none = (refl, refl)
no_siblings_by none none (some b) = (refl, refl)
no_siblings_by none (some t) none = (refl, refl)
no_siblings_by none (some t) (some b) = (refl, refl)
no_siblings_by (some f) none none = (refl, refl)
no_siblings_by (some f) none (some b) = (refl, refl)
no_siblings_by (some f) (some t) none = (refl, refl)
no_siblings_by (some f) (some t) (some b) = (refl, refl)

either_order : (s t : String) → (s == t) ≡ (t == s)
either_order s t = ground (arith, eq_iff s t, eq_iff t s)

-- A first call that does not fail does it all; and whatever fails, a later recovery ends as it would
-- have at once.
recovered_whole :
    (first second : Option ℕ) (slot : Slot)
    → first ≡ none
    → recovered (first, second) slot ≡ reconcile_interrupted_write none slot
unfolding recovered
recovered_whole first second slot h = rw h (either (is_some slot.temp && is_some slot.backup))
  where
    either :
        (b : Bool)
        → (if b
            then reconcile_interrupted_write second (reconcile_interrupted_write none slot)
            else reconcile_interrupted_write none slot)
          ≡ reconcile_interrupted_write none slot
    either true = (reconcile_resumes second slot).1
    either false = refl

recovered_later :
    (first second : Option ℕ) (slot : Slot)
    → reconcile_interrupted_write none (recovered (first, second) slot)
      ≡ reconcile_interrupted_write none slot
unfolding recovered
recovered_later first second slot = either (is_some slot.temp && is_some slot.backup)
  where
    either :
        (b : Bool)
        → reconcile_interrupted_write none (
            if b
            then reconcile_interrupted_write second (reconcile_interrupted_write first slot)
            else reconcile_interrupted_write first slot)
          ≡ reconcile_interrupted_write none slot
    either true =
        (reconcile_resumes second (reconcile_interrupted_write first slot)).0
        ∙ (reconcile_resumes first slot).0
    either false = (reconcile_resumes first slot).0

module _ (disk : Disk) (p : FilePath) where
  slot_at-sweep :
      (d : String) (store : Store)
      → slot_at p (sweep_directory disk d store) ≡ (
          if p.directory == d
          then recovered (disk.repair_faults p) (slot_at p store)
          else slot_at p store)
  unfolding slot_at sweep_directory
  slot_at-sweep d [] = nothing (p.directory == d)
    where
      nothing :
          (b : Bool) → no_file ≡ (if b then recovered (disk.repair_faults p) no_file else no_file)
      nothing true = sym (nothing_to_repair (disk.repair_faults p))
      nothing false = refl
  slot_at-sweep d ((q, slot) ∷ store) = elim (Bool-cases (same_path p q)) [
    | inl e ↦ rw e (
        ap (λ x. if x.directory == d then recovered (disk.repair_faults x) slot else slot)
          (sym (equal_paths p q e)))
    | inr e ↦ rw e (slot_at-sweep d store)
  ]

  not_swept :
      (ds : List String) (store : Store)
      → elem p.directory ds ≡ false
      → slot_at p (sweep_directories disk ds store) ≡ slot_at p store
  unfolding sweep_directories
  not_swept [] store h = refl
  not_swept (d ∷ ds) store h =
      let away : (d == p.directory) ≡ false = ground arith in
      not_swept ds (sweep_directory disk d store) (ground arith)
      ∙ slot_at-sweep d store
      ∙ ap (λ b. if b then recovered (disk.repair_faults p) (slot_at p store) else slot_at p store)
          (either_order p.directory d ∙ away)

  swept_once :
      (ds : List String) (store : Store)
      → Distinct ds
      → elem p.directory ds ≡ true
      → slot_at p (sweep_directories disk ds store)
        ≡ recovered (disk.repair_faults p) (slot_at p store)
  unfolding sweep_directories
  swept_once [] store once h = absurd (ground arith)
  swept_once (d ∷ ds) store (fresh, once) h = elim (Bool-cases (d == p.directory)) [
    | inl e ↦
        let same : d ≡ p.directory = ground (arith, eq_iff d p.directory) in
        not_swept ds (sweep_directory disk d store) (subst (λ x. elem x ds ≡ false) same fresh)
        ∙ slot_at-sweep d store
        ∙ ap
            (λ b. if b then recovered (disk.repair_faults p) (slot_at p store) else slot_at p store)
            (either_order p.directory d ∙ e)
    | inr e ↦
        swept_once ds (sweep_directory disk d store) once (ground arith)
        ∙ ap (recovered (disk.repair_faults p)) (
            slot_at-sweep d store
            ∙ ap
                (λ b.
                  if b then recovered (disk.repair_faults p) (slot_at p store) else slot_at p store)
                (either_order p.directory d ∙ e))
  ]

  -- Opening the repository leaves a file of one of the seven swept directories as the calls of its
  -- recovery leave it. If the first of them does not fail, that is as one recovery leaves it, with no
  -- sibling, so a save finds no backup there; and whatever fails, a later recovery ends as it would
  -- have before the opening. A file of any other directory stays as it was.
  pub open_repository_exact :
      (store : Store)
      → let before = slot_at p store in
        let after = slot_at p (open_repository disk store) in
        (elem p.directory swept_directories ≡ true
          → (after ≡ recovered (disk.repair_faults p) before)
            × ((disk.repair_faults p).0 ≡ none
                → (after ≡ reconcile_interrupted_write none before)
                  × (after.temp ≡ none)
                  × (after.backup ≡ none))
            × (reconcile_interrupted_write none after ≡ reconcile_interrupted_write none before))
        × (elem p.directory swept_directories ≡ false → after ≡ before)
  unfolding open_repository
  open_repository_exact store =
      let before = slot_at p store in
      let faults = disk.repair_faults p in
      (
        λ e.
            let swept =
              swept_once swept_directories store
                (refl, (refl, (refl, (refl, (refl, (refl, (refl, tt))))))) e in
            (
              swept,
              λ works.
                  let repaired = swept ∙ recovered_whole faults.0 faults.1 before works in
                  let (no_temp, no_backup) =
                    no_siblings_by before.target before.temp before.backup in
                  (repaired, rw repaired no_temp, rw repaired no_backup),
              ap (reconcile_interrupted_write none) swept
                  ∙ recovered_later faults.0 faults.1 before,
            ),
        λ e. not_swept swept_directories store e,
      )
