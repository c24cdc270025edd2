-- ===== src/Locks/Expiry.antt =====
-- What each call returns in terms of the owner that a query reports, what it does to that owner,
-- and that a lease that has run out binds nobody.
use mathlib.Core.Bool.{false≢true}
use cpp_wiki.Prelude.{
  ℕ, ◌+◌, ◌≤◌, ◌<◌, ◌≡◌, ◌≢◌, ◌⊎◌, ◌↔◌, String, true, false, none, some, arith, eq_iff, Option, inl,
  inr, refl, is_some, Bool-cases,
}
use cpp_wiki.Locks.{
  LockService, LockInfo, prune_expired, owner_of, acquire_found, heartbeat_found, release_found,
  is_owned_by, put, acquire, heartbeat, release, force_release, is_locked, get_owner, Call,
  acquires, heartbeats, releases, force_releases, asks_locked, asks_owner, step,
}

-- At one clock reading, over the entry that the pruned map holds.
module _ (s : LockService) (d o : String) (now : ℕ) where
  acquire_reply :
      (entry : Option LockInfo)
      → ((acquire_found s d o now entry).1 ≡ true)
        ↔ ((owner_of entry ≡ none) ⊎ (owner_of entry ≡ some o))
  unfolding acquire get_owner
  acquire_reply none = (λ _. inl refl, λ _. refl)
  acquire_reply (some lock) =
      (λ h. inr (ground (arith, eq_iff lock.owner o)), λ h. ground (arith, eq_iff lock.owner o))

  heartbeat_reply :
      (entry : Option LockInfo)
      → ((heartbeat_found s d o now entry).1 ≡ true) ↔ (owner_of entry ≡ some o)
  unfolding heartbeat get_owner
  heartbeat_reply none = (λ h. cc, λ h. cc)
  heartbeat_reply (some lock) =
      (λ h. ground (arith, eq_iff lock.owner o), λ h. ground (arith, eq_iff lock.owner o))

  release_reply :
      (entry : Option LockInfo) → ((release_found s d o entry).1 ≡ true) ↔ (owner_of entry ≡ some o)
  unfolding release get_owner
  release_reply none = (λ h. cc, λ h. cc)
  release_reply (some lock) =
      (λ h. ground (arith, eq_iff lock.owner o), λ h. ground (arith, eq_iff lock.owner o))

is_some_reply : (entry : Option LockInfo) → (is_some entry ≡ true) ↔ (owner_of entry ≢ none)
unfolding get_owner
is_some_reply none = (λ h. cc, λ h. absurd (h refl))
is_some_reply (some lock) = (λ h e. cc, λ h. refl)

-- At one clock reading: acquire succeeds exactly when no owner or the caller is reported, heartbeat
-- and release exactly when the caller is, a forced release exactly when some owner is, and
-- `is_locked` says whether an owner is reported.
pub replies_by_owner :
    (s : LockService) (d o : String) (now : ℕ)
    → let seen = (get_owner s d now).1 in
      (((acquire s d o now).1 ≡ true) ↔ ((seen ≡ none) ⊎ (seen ≡ some o)))
      × (((heartbeat s d o now).1 ≡ true) ↔ (seen ≡ some o))
      × (((release s d o now).1 ≡ true) ↔ (seen ≡ some o))
      × (((force_release s d now).1 ≡ true) ↔ (seen ≢ none))
      × (((is_locked s d now).1 ≡ true) ↔ (seen ≢ none))
unfolding acquire heartbeat release force_release is_locked get_owner
replies_by_owner s d o now =
    let pruned = prune_expired s now in
    let entry = pruned.locks d in
    (
      acquire_reply pruned d o now entry,
      heartbeat_reply pruned d o now entry,
      release_reply pruned d o now entry,
      is_some_reply entry,
      is_some_reply entry,
    )

put-none_frees :
    (s : LockService) (d other : String) (later : ℕ)
    → ((get_owner (put s d none) d later).1 ≡ none)
      × ((acquire (put s d none) d other later).1 ≡ true)
unfolding get_owner acquire
put-none_frees s d other later = (ground (arith, eq_iff d d), ground (arith, eq_iff d d))

release_found_frees :
    (s : LockService) (d o other : String) (later : ℕ) (entry : Option LockInfo)
    → (release_found s d o entry).1 ≡ true
    → ((get_owner (release_found s d o entry).0 d later).1 ≡ none)
      × ((acquire (release_found s d o entry).0 d other later).1 ≡ true)
unfolding release_found
release_found_frees s d o other later entry h = elim (Bool-cases (is_owned_by entry o)) [
  | inl e ↦ rw e (put-none_frees s d other later)
  | inr e ↦ absurd (false≢true (rw e at h))
]

-- A successful release, and any forced release, leaves the document with no reported owner at every
-- later or earlier clock reading, and any client then acquires it.
pub release_frees :
    (s : LockService) (d o other : String) (now later : ℕ)
    → let t = (release s d o now).0 in
      let u = (force_release s d now).0 in
      ((release s d o now).1 ≡ true
        → ((get_owner t d later).1 ≡ none) × ((acquire t d other later).1 ≡ true))
      × ((get_owner u d later).1 ≡ none)
      × ((acquire u d other later).1 ≡ true)
unfolding release force_release get_owner acquire
release_frees s d o other now later =
    let pruned = prune_expired s now in
    (
      release_found_frees pruned d o other later (pruned.locks d),
      (put-none_frees pruned d other later).0,
      (put-none_frees pruned d other later).1,
    )

-- A call that cannot change a document: it names another one, or it is a query.
abbrev pub Leaves : String → Call → Type 0
Leaves d (acquires e o) = e ≢ d
Leaves d (heartbeats e o) = e ≢ d
Leaves d (releases e o) = e ≢ d
Leaves d (force_releases e) = e ≢ d
Leaves d (asks_locked e) = Unit
Leaves d (asks_owner e) = Unit

-- A call that names another document, or a query of any document, with all the pruning that it does,
-- does not change the owner that is reported for a document at a clock reading not before the call's.
pub get_owner-step :
    (s : LockService) (d : String) (now later : ℕ) (c : Call)
    → Leaves d c
    → now ≤ later
    → (get_owner (step s (now, c)) d later).1 ≡ (get_owner s d later).1
unfolding step acquire heartbeat release force_release is_locked get_owner
get_owner-step s d now later (acquires e o) ne h = ground (arith, eq_iff e d)
get_owner-step s d now later (heartbeats e o) ne h = ground (arith, eq_iff e d)
get_owner-step s d now later (releases e o) ne h = ground (arith, eq_iff e d)
get_owner-step s d now later (force_releases e) ne h = ground (arith, eq_iff e d)
get_owner-step s d now later (asks_locked e) ne h = ground arith
get_owner-step s d now later (asks_owner e) ne h = ground arith

-- Once a positive lease has run out since the last heartbeat, the former owner can neither renew
-- nor release the lock, the document counts as unlocked, and any client acquires it and is then
-- reported as its owner.
pub expired_lock_binds_nobody :
    (s : LockService) (d o : String) (now : ℕ) (lock : LockInfo)
    → s.locks d ≡ some lock
    → 0 < s.lock_lease
    → lock.heartbeat_at + s.lock_lease ≤ now
    → ((heartbeat s d lock.owner now).1 ≡ false)
      × ((release s d lock.owner now).1 ≡ false)
      × ((is_locked s d now).1 ≡ false)
      × ((acquire s d o now).1 ≡ true)
      × ((get_owner (acquire s d o now).0 d now).1 ≡ some o)
unfolding heartbeat release is_locked acquire get_owner
expired_lock_binds_nobody s d o now lock e positive over = ground (arith, eq_iff d d)
