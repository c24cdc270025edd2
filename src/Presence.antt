-- ===== src/Presence.antt =====
-- server/service/presence_service.{h,cc}: who was seen in which workspace. Both calls read the
-- steady clock under the mutex, so their clock readings do not fall. A clock reading is a number of
-- nanoseconds. The map of workspaces is a function of the key; the map of one workspace, which
-- `get_presence` iterates over in an unspecified order, is a list of entries with distinct keys.
mod Entries
pub mod History
mod Tests
use cpp_wiki.Prelude.{
  ℕ, ◌-◌, ◌*◌, ◌^◌, String, Bool, Option, none, some, List, [], ◌∷◌, map, ltb, ◌==◌, if◌then◌else◌,
  value_or,
}

pub record PresenceInfo : Type 0 where
  pub user_id : String
  pub scope : String
  pub last_seen : ℕ

-- kPresenceTtl, 30 seconds.
abbrev pub presence_ttl : ℕ
presence_ttl = 30 * 10 ^ 9

abbrev pub WorkspacePresenceMap : Type 0
WorkspacePresenceMap = List (String × PresenceInfo)

pub record PresenceService : Type 0 where
  pub presence_by_workspace : String → Option WorkspacePresenceMap

pub init : PresenceService
init = record { presence_by_workspace = λ _. none }

is_stale : ℕ → PresenceInfo → Bool
is_stale now info = ltb presence_ttl (now - info.last_seen)

pub prune_expired : ℕ → WorkspacePresenceMap → WorkspacePresenceMap
prune_expired now [] = []
prune_expired now ((user_id, info) ∷ rest) =
    let kept = prune_expired now rest in if is_stale now info then kept else (user_id, info) ∷ kept

-- `map[key] = info`
pub assign : String → PresenceInfo → WorkspacePresenceMap → WorkspacePresenceMap
assign key info [] = (key, info) ∷ []
assign key info ((k, i) ∷ rest) =
    if k == key then (key, info) ∷ rest else (k, i) ∷ assign key info rest

put : PresenceService → String → Option WorkspacePresenceMap → PresenceService
put s workspace_id entries = record s {
  presence_by_workspace = λ id. if workspace_id == id then entries else s.presence_by_workspace id;
}

pub heartbeat : PresenceService → String → String → String → ℕ → PresenceService
unfolding put
heartbeat s workspace_id user_id scope now =
    let workspace_presence =
      prune_expired now (value_or (s.presence_by_workspace workspace_id) []) in
    let info : PresenceInfo = record { user_id = user_id; scope = scope; last_seen = now } in
    put s workspace_id (some (assign user_id info workspace_presence))

abbrev pub infos : WorkspacePresenceMap → List PresenceInfo
infos = map (λ (entry : String × PresenceInfo). entry.1)

-- A workspace in which nobody is left is forgotten.
keep_pruned : PresenceService → String → WorkspacePresenceMap → PresenceService × List PresenceInfo
unfolding put
keep_pruned s workspace_id [] = (put s workspace_id none, [])
keep_pruned s workspace_id (entry ∷ rest) =
    (put s workspace_id (some (entry ∷ rest)), infos (entry ∷ rest))

get_found :
    PresenceService → String → ℕ → Option WorkspacePresenceMap → PresenceService × List PresenceInfo
unfolding keep_pruned
get_found s workspace_id now none = (s, [])
get_found s workspace_id now (some entries) = keep_pruned s workspace_id (prune_expired now entries)

pub get_presence : PresenceService → String → ℕ → PresenceService × List PresenceInfo
unfolding get_found
get_presence s workspace_id now =
    get_found s workspace_id now (s.presence_by_workspace workspace_id)

-- The calls, with their clock readings.
pub data Call : Type 0 where
  heartbeats : String → String → String → Call
  asks : String → Call

pub step : PresenceService → ℕ × Call → PresenceService
step s (now, heartbeats workspace_id user_id scope) = heartbeat s workspace_id user_id scope now
step s (now, asks workspace_id) = (get_presence s workspace_id now).0

pub run : PresenceService → List (ℕ × Call) → PresenceService
run s [] = s
run s (c ∷ cs) = run (step s c) cs
