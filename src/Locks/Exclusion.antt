-- ===== src/Locks/Exclusion.antt =====
-- Who holds a lock, and that nobody else gets it.
use cpp_wiki.Prelude.{
  ℕ, ◌+◌, ◌≤◌, ◌<◌, ◌≡◌, ◌≢◌, ◌⊎◌, String, true, false, Option, none, some, List, [], ◌∷◌, arith,
  eq_iff, All, refl, ◌∙◌,
}
use cpp_wiki.Locks.{
  LockService, LockInfo, prune_expired, acquire_found, acquire, heartbeat, release, force_release,
  is_locked, get_owner, Call, acquires, heartbeats, releases, force_releases, asks_locked,
  asks_owner, step, run,
}

-- An entry owned by `owner` whose last heartbeat is not before `since`.
abbrev pub HeldEntry : String → ℕ → Option LockInfo → Type 0
HeldEntry owner since none = ⊥
HeldEntry owner since (some lock) = (lock.owner ≡ owner) × (since ≤ lock.heartbeat_at)

-- A clock reading at which a heartbeat at `since` has not run out.
abbrev pub Within : ℕ → ℕ → ℕ → Type 0
Within lease since now = (lease ≡ 0) ⊎ (now < since + lease)

module _ (document_id owner : String) (since : ℕ) where
  abbrev pub Held : LockService → Type 0
  Held s = HeldEntry owner since (s.locks document_id)

  -- A call that leaves the lock with its owner: its clock reading is within the lease, it does not
  -- give the lock up on the owner's behalf or by force, and where the owner renews the lock the
  -- reading is not before `since`.
  abbrev pub Spares : ℕ → ℕ × Call → Type 0
  Spares lease (now, acquires d o) =
      Within lease since now × ((since ≤ now) ⊎ (d ≢ document_id) ⊎ (o ≢ owner))
  Spares lease (now, heartbeats d o) =
      Within lease since now × ((since ≤ now) ⊎ (d ≢ document_id) ⊎ (o ≢ owner))
  Spares lease (now, releases d o) = Within lease since now × ((d ≢ document_id) ⊎ (o ≢ owner))
  Spares lease (now, force_releases d) = Within lease since now × (d ≢ document_id)
  Spares lease (now, asks_locked d) = Within lease since now
  Spares lease (now, asks_owner d) = Within lease since now

  step-Held : (s : LockService) (c : ℕ × Call) → Spares s.lock_lease c → Held s → Held (step s c)
  unfolding step acquire heartbeat release force_release is_locked get_owner
  step-Held s (now, acquires d o) h held = ground (arith, eq_iff d document_id, eq_iff owner o)
  step-Held s (now, heartbeats d o) h held = ground (arith, eq_iff d document_id, eq_iff owner o)
  step-Held s (now, releases d o) h held = ground (arith, eq_iff d document_id, eq_iff owner o)
  step-Held s (now, force_releases d) h held = ground (arith, eq_iff d document_id)
  step-Held s (now, asks_locked d) h held = ground arith
  step-Held s (now, asks_owner d) h held = ground arith

  lock_lease-step : (s : LockService) (c : ℕ × Call) → (step s c).lock_lease ≡ s.lock_lease
  unfolding step acquire heartbeat release force_release is_locked get_owner
  lock_lease-step s (now, acquires d o) = ground arith
  lock_lease-step s (now, heartbeats d o) = ground arith
  lock_lease-step s (now, releases d o) = ground arith
  lock_lease-step s (now, force_releases d) = ground arith
  lock_lease-step s (now, asks_locked d) = ground arith
  lock_lease-step s (now, asks_owner d) = ground arith

  run-Held :
      (s : LockService) (cs : List (ℕ × Call))
      → All (Spares s.lock_lease) cs
      → Held s
      → Held (run s cs) × ((run s cs).lock_lease ≡ s.lock_lease)
  unfolding run
  run-Held s [] h held = (held, refl)
  run-Held s (c ∷ cs) (h, hs) held =
      let same = lock_lease-step s c in
      let rest = run-Held (step s c) cs (rw same hs) (step-Held s c h held) in
      (rest.0, rest.1 ∙ same)

  acquire_found-Held :
      (s : LockService) (entry : Option LockInfo)
      → (acquire_found s document_id owner since entry).1 ≡ true
      → Held (acquire_found s document_id owner since entry).0
        × ((acquire_found s document_id owner since entry).0.lock_lease ≡ s.lock_lease)
  unfolding acquire
  acquire_found-Held s none h = ground (arith, eq_iff document_id document_id)
  acquire_found-Held s (some lock) h =
      ground (arith, eq_iff document_id document_id, eq_iff lock.owner owner)

  acquire-Held :
      (s : LockService)
      → (acquire s document_id owner since).1 ≡ true
      → Held (acquire s document_id owner since).0
        × ((acquire s document_id owner since).0.lock_lease ≡ s.lock_lease)
  unfolding acquire
  acquire-Held s h = acquire_found-Held (prune_expired s since) _ h

  -- What the calls of another client return while the lock is held.
  Held-replies :
      (s : LockService) (other : String) (now : ℕ)
      → Held s
      → Within s.lock_lease since now
      → owner ≢ other
      → ((acquire s document_id other now).1 ≡ false)
        × ((heartbeat s document_id other now).1 ≡ false)
        × ((release s document_id other now).1 ≡ false)
        × ((get_owner s document_id now).1 ≡ some owner)
  unfolding acquire heartbeat release get_owner
  Held-replies s other now held h ne = ground (arith, eq_iff owner other)

-- After a successful acquire at `since`, whatever calls of any clients follow, if each has a clock
-- reading before the lease runs out (or the lease is 0), none releases the lock for its owner or
-- by force, and the owner's own renewals have readings not before `since`: then at any reading
-- within the lease, acquire, heartbeat and release by any other owner fail, and the reported owner
-- is the one who acquired.
pub acquire_excludes :
    (s : LockService) (document_id owner other : String) (since now : ℕ) (cs : List (ℕ × Call))
    → (acquire s document_id owner since).1 ≡ true
    → All (Spares document_id owner since s.lock_lease) cs
    → Within s.lock_lease since now
    → owner ≢ other
    → let t = run (acquire s document_id owner since).0 cs in
      ((acquire t document_id other now).1 ≡ false)
      × ((heartbeat t document_id other now).1 ≡ false)
      × ((release t document_id other now).1 ≡ false)
      × ((get_owner t document_id now).1 ≡ some owner)
acquire_excludes s document_id owner other since now cs won spares within ne =
    let (held, lease) = acquire-Held document_id owner since s won in
    let (held', lease') = run-Held document_id owner since _ cs (rw lease spares) held in
    Held-replies document_id owner since _ other now held' (rw (lease', lease) within) ne
