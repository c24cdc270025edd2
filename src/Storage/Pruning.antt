-- ===== src/Storage/Pruning.antt =====
-- Operations that only remove files: what they leave alone, and what is gone after them.
use cpp_wiki.Prelude.{
  ◌≡◌, inl, inr, refl, ap, ◌∙◌, Bool, true, false, Option, none, some, List, [], ◌∷◌, arith,
  Bool-cases, Option-cases, is_some,
}
use cpp_wiki.Storage.{
  FilePath, Store, Disk, Answer, found, failed, RepositoryError, same_path, slot_at, remove_file,
}
use cpp_wiki.Storage.Slots.{equal_paths, remove_file-RemovedOr}
use cpp_wiki.Storage.Links.{and_then, remove_each, remove_answered}
use cpp_wiki.Storage.Orders.{In}

-- Only files that `may` allows have changed, and no file has appeared.
abbrev pub Prunes : (FilePath → Bool) → Store → Store → Type 0
Prunes may before after =
    ((q : FilePath) → may q ≡ false → slot_at q after ≡ slot_at q before)
    × ((q : FilePath) → (slot_at q before).target ≡ none → (slot_at q after).target ≡ none)

pub Prunes-refl : (may : FilePath → Bool) (store : Store) → Prunes may store store
Prunes-refl may store = (λ q h. refl, λ q h. h)

pub Prunes-trans :
    (may : FilePath → Bool) (a b c : Store) → Prunes may a b → Prunes may b c → Prunes may a c
Prunes-trans may a b c x y = (λ q h. y.0 q h ∙ x.0 q h, λ q h. y.1 q (x.1 q h))

pub remove_file-Prunes :
    (may : FilePath → Bool) (disk : Disk) (p : FilePath) (store : Store)
    → may p ≡ true
    → Prunes may store (remove_file disk p store).0
remove_file-Prunes may disk p store h =
    let (others, no_backup, gone, unchanged) = remove_file-RemovedOr disk p store in
    let after = (remove_file disk p store).0 in
    (
      λ q e. elim (Bool-cases (same_path q p)) [
        | inl same ↦ absurd (ground (arith, equal_paths q p same))
        | inr other ↦ others q other
      ],
      λ q e. elim (Bool-cases (same_path q p)) [
        | inl same ↦ elim (Option-cases (remove_file disk p store).1) [
          | inl ok ↦ ap (λ x. (slot_at x after).target) (equal_paths q p same) ∙ gone ok
          | inr (m, bad) ↦ ap (λ s. (slot_at q s).target) (unchanged (ap is_some bad)) ∙ e
        ]
        | inr other ↦ ap (λ s. s.target) (others q other) ∙ e
      ],
    )

pub and_then-Prunes :
    (may : FilePath → Bool) (store : Store) (first : Store × Option RepositoryError)
    (next : Store → Store × Option RepositoryError)
    → Prunes may store first.0
    → ((s : Store) → Prunes may s (next s).0)
    → Prunes may store (and_then first next).0
unfolding and_then
and_then-Prunes may store (s, some e) next h k = h
and_then-Prunes may store (s, none) next h k = Prunes-trans may store s (next s).0 h (k s)

pub and_then_done :
    (first : Store × Option RepositoryError) (next : Store → Store × Option RepositoryError)
    → (and_then first next).1 ≡ none
    → (first.1 ≡ none) × ((next first.0).1 ≡ none) × ((and_then first next).0 ≡ (next first.0).0)
unfolding and_then
and_then_done (s, some e) next h = cc
and_then_done (s, none) next h = (refl, h, refl)

module _ {R : Type 0} (remove : R → Store → Store × Option RepositoryError) (may : FilePath → Bool)
    (prunes : (r : R) (s : Store) → Prunes may s (remove r s).0) where
  remove_each-Prunes :
      (rs : List R) (store : Store) → Prunes may store (remove_each remove rs store).0
  unfolding remove_each
  remove_each-Prunes [] store = Prunes-refl may store
  remove_each-Prunes (r ∷ rs) store =
      and_then-Prunes may store (remove r store) (λ s. remove_each remove rs s) (prunes r store)
        (λ s. remove_each-Prunes rs s)

  pub remove_answered-Prunes :
      (rs : Answer (List R)) (store : Store) → Prunes may store (remove_answered remove rs store).0
  unfolding remove_answered
  remove_answered-Prunes (failed e) store = Prunes-refl may store
  remove_answered-Prunes (found rs) store = remove_each-Prunes rs store

  -- A file that the removal of a listed record removes is gone after all removals.
  pub remove_each_gone :
      (rs : List R) (r : R) (p : FilePath) (store : Store)
      → In r rs
      → ((s : Store) → (remove r s).1 ≡ none → (slot_at p (remove r s).0).target ≡ none)
      → (remove_each remove rs store).1 ≡ none
      → (slot_at p (remove_each remove rs store).0).target ≡ none
  unfolding remove_each
  remove_each_gone [] r p store h gone ok = absurd h
  remove_each_gone (q ∷ qs) r p store h gone ok =
      let (first, second, same) =
        and_then_done (remove q store) (λ s. remove_each remove qs s) ok in
      rw same (elim h [
        | inl e ↦
            (remove_each-Prunes qs (remove q store).0).1 p (rw (← e) (gone store (rw e first)))
        | inr later ↦ remove_each_gone qs r p (remove q store).0 later gone second
      ])
