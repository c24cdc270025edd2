-- ===== src/Locks.antt =====
-- server/service/lock_service.{h,cc}: leases on documents, one owner at a time. A call reads the
-- steady clock before it takes the mutex, so the time is an argument of each call, and two calls
-- may run in the other order than their clock readings. Clock readings and the lease are natural
-- numbers of ticks; a lease that is not positive is 0. The hash map is never iterated over but to
-- erase what a test on the value selects, so it is a function of the key.
pub mod Exclusion
pub mod Expiry
pub mod Handler
mod Tests
use cpp_wiki.Prelude.{
  ℕ, ◌-◌, String, Bool, true, false, ◌&&◌, Option, none, some, List, [], ◌∷◌, ltb, leb, ◌==◌,
  if◌then◌else◌, is_some,
}

pub record LockInfo : Type 0 where
  pub owner : String
  pub acquired_at : ℕ
  pub heartbeat_at : ℕ

pub record LockService : Type 0 where
  pub locks : String → Option LockInfo
  pub lock_lease : ℕ

pub init : ℕ → LockService
init lease = record { locks = λ _. none; lock_lease = lease }

-- `now - heartbeat_at` is a signed duration; where it is negative, a positive lease exceeds it.
is_expired : LockService → LockInfo → ℕ → Bool
is_expired s lock now = ltb 0 s.lock_lease && leb s.lock_lease (now - lock.heartbeat_at)

unless_expired : LockService → ℕ → Option LockInfo → Option LockInfo
unless_expired s now none = none
unless_expired s now (some lock) = if is_expired s lock now then none else some lock

prune_expired : LockService → ℕ → LockService
unfolding unless_expired is_expired
prune_expired s now = record s { locks = λ id. unless_expired s now (s.locks id) }

-- The map with the entry of one key replaced (or erased, by `none`).
put : LockService → String → Option LockInfo → LockService
put s document_id entry = record s { locks = λ id. if document_id == id then entry else s.locks id }

is_owned_by : Option LockInfo → String → Bool
is_owned_by none owner = false
is_owned_by (some lock) owner = lock.owner == owner

acquire_found : LockService → String → String → ℕ → Option LockInfo → LockService × Bool
acquire_found s document_id owner now none = (
  put s document_id (some (record { owner = owner; acquired_at = now; heartbeat_at = now })),
  true,
)
acquire_found s document_id owner now (some lock) =
    if is_owned_by (some lock) owner
    then (put s document_id (some (record lock { heartbeat_at = now })), true)
    else (s, false)

pub acquire : LockService → String → String → ℕ → LockService × Bool
unfolding prune_expired acquire_found put is_owned_by
acquire s document_id owner now =
    let pruned = prune_expired s now in
    acquire_found pruned document_id owner now (pruned.locks document_id)

heartbeat_found : LockService → String → String → ℕ → Option LockInfo → LockService × Bool
heartbeat_found s document_id owner now none = (s, false)
heartbeat_found s document_id owner now (some lock) =
    if is_owned_by (some lock) owner
    then (put s document_id (some (record lock { heartbeat_at = now })), true)
    else (s, false)

pub heartbeat : LockService → String → String → ℕ → LockService × Bool
unfolding prune_expired heartbeat_found put is_owned_by
heartbeat s document_id owner now =
    let pruned = prune_expired s now in
    heartbeat_found pruned document_id owner now (pruned.locks document_id)

release_found : LockService → String → String → Option LockInfo → LockService × Bool
release_found s document_id owner entry =
    if is_owned_by entry owner then (put s document_id none, true) else (s, false)

pub release : LockService → String → String → ℕ → LockService × Bool
unfolding prune_expired release_found put is_owned_by
release s document_id owner now =
    let pruned = prune_expired s now in
    release_found pruned document_id owner (pruned.locks document_id)

pub force_release : LockService → String → ℕ → LockService × Bool
unfolding prune_expired put
force_release s document_id now =
    let pruned = prune_expired s now in
    (put pruned document_id none, is_some (pruned.locks document_id))

-- The two queries prune as well, since the map is mutable.
pub is_locked : LockService → String → ℕ → LockService × Bool
unfolding prune_expired
is_locked s document_id now =
    let pruned = prune_expired s now in (pruned, is_some (pruned.locks document_id))

owner_of : Option LockInfo → Option String
owner_of none = none
owner_of (some lock) = some lock.owner

pub get_owner : LockService → String → ℕ → LockService × Option String
unfolding prune_expired owner_of
get_owner s document_id now =
    let pruned = prune_expired s now in (pruned, owner_of (pruned.locks document_id))

-- The calls of a client, and histories of calls with their clock readings.
pub data Call : Type 0 where
  acquires heartbeats releases : String → String → Call
  force_releases asks_locked asks_owner : String → Call

pub step : LockService → ℕ × Call → LockService
step s (now, acquires document_id owner) = (acquire s document_id owner now).0
step s (now, heartbeats document_id owner) = (heartbeat s document_id owner now).0
step s (now, releases document_id owner) = (release s document_id owner now).0
step s (now, force_releases document_id) = (force_release s document_id now).0
step s (now, asks_locked document_id) = (is_locked s document_id now).0
step s (now, asks_owner document_id) = (get_owner s document_id now).0

pub run : LockService → List (ℕ × Call) → LockService
run s [] = s
run s (c ∷ cs) = run (step s c) cs
