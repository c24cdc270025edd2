-- ===== src/Presence/History.antt =====
-- The service against the history of its calls.
use cpp_wiki.Prelude.{
  ℕ, ◌≤◌, ◌≡◌, refl, String, ◌&&◌, Option, none, some, List, [], ◌∷◌, map, arith, ◌==◌, eq_iff,
  if◌then◌else◌, Distinct, value_or, Bool-cases, inl, inr, ◌∙◌, ap,
}
use cpp_wiki.Presence.{
  PresenceInfo, WorkspacePresenceMap, PresenceService, init, prune_expired, assign, infos,
  keep_pruned, get_found, heartbeat, get_presence, Call, heartbeats, asks, step, run,
}
use cpp_wiki.Presence.Entries.{
  lookup, find_user, fresh, IsMap, fresh-fresh, lookup-assign, lookup-prune_expired,
  IsMap-prune_expired, IsMap-assign, find_user-infos, user_ids-infos,
}

-- The last heartbeat of each user in each workspace.
abbrev pub Seen : Type 0
Seen = String → String → Option PresenceInfo

pub note : Seen → ℕ × Call → Seen
note seen (now, heartbeats workspace_id user_id scope) = λ w u.
    if workspace_id == w && user_id == u
    then some (record { user_id = user_id; scope = scope; last_seen = now })
    else seen w u
note seen (now, asks workspace_id) = seen

pub note_all : Seen → List (ℕ × Call) → Seen
note_all seen [] = seen
note_all seen (c ∷ cs) = note_all (note seen c) cs

-- The clock readings of a history do not fall, from `t` up to `now`.
abbrev pub Rising : ℕ → List (ℕ × Call) → ℕ → Type 0
Rising t [] now = t ≤ now
Rising t (c ∷ cs) now = (t ≤ c.0) × Rising c.0 cs now

entries : PresenceService → String → WorkspacePresenceMap
entries s workspace_id = value_or (s.presence_by_workspace workspace_id) []

entries-heartbeat :
    (s : PresenceService) (w u scope v : String) (now : ℕ)
    → entries (heartbeat s w u scope now) v ≡ (
        if w == v
        then assign u
            (record { user_id = u; scope = scope; last_seen = now })
            (prune_expired now (entries s v))
        else entries s v)
unfolding heartbeat entries
entries-heartbeat s w u scope v now = ground (arith, eq_iff w v)

entries-keep_pruned :
    (s : PresenceService) (w v : String) (m : WorkspacePresenceMap)
    → (entries (keep_pruned s w m).0 v ≡ (if w == v then m else entries s v))
      × ((keep_pruned s w m).1 ≡ infos m)
unfolding keep_pruned entries
entries-keep_pruned s w v [] = ground arith
entries-keep_pruned s w v (e ∷ m) = ground arith

entries-get_found :
    (s : PresenceService) (w v : String) (now : ℕ) (o : Option WorkspacePresenceMap)
    → s.presence_by_workspace w ≡ o
    → (entries (get_found s w now o).0 v
        ≡ (if w == v then prune_expired now (value_or o []) else entries s v))
      × ((get_found s w now o).1 ≡ infos (prune_expired now (value_or o [])))
unfolding get_found prune_expired entries
entries-get_found s w v now none e = ground (arith, eq_iff w v)
entries-get_found s w v now (some m) e = entries-keep_pruned s w v (prune_expired now m)

entries-get_presence :
    (s : PresenceService) (w v : String) (now : ℕ)
    → (entries (get_presence s w now).0 v
        ≡ (if w == v then prune_expired now (entries s w) else entries s v))
      × ((get_presence s w now).1 ≡ infos (prune_expired now (entries s w)))
unfolding get_presence entries
entries-get_presence s w v now = entries-get_found s w v now (s.presence_by_workspace w) refl

-- The state refines the recorded heartbeats, as seen from clock reading `t` on.
record Refines (s : PresenceService) (seen : Seen) (t : ℕ) : Type 0 where
  maps : (w : String) → IsMap (entries s w)
  views :
      (w u : String) (later : ℕ)
      → t ≤ later
      → fresh later (lookup u (entries s w)) ≡ fresh later (seen w u)

fresh-lookup-prune :
    (m : WorkspacePresenceMap) (u : String) (now later : ℕ)
    → IsMap m
    → now ≤ later
    → fresh later (lookup u (prune_expired now m)) ≡ fresh later (lookup u m)
fresh-lookup-prune m u now later h le =
    ap (fresh later) (lookup-prune_expired now u m h.distinct)
    ∙ fresh-fresh now later (lookup u m) le

heartbeat-Refines :
    (s : PresenceService) (seen : Seen) (t now : ℕ) (w u scope : String)
    → t ≤ now
    → Refines s seen t
    → Refines (heartbeat s w u scope now) (note seen (now, heartbeats w u scope)) now
unfolding note
heartbeat-Refines s seen t now w u scope le r = record {
  maps = λ v. elim (Bool-cases (w == v)) [
    | inl e ↦
        rw (entries-heartbeat s w u scope v now, e)
          (IsMap-assign u _ _ refl (IsMap-prune_expired now _ (r.maps v)))
    | inr e ↦ rw (entries-heartbeat s w u scope v now, e) (r.maps v)
  ];
  views = λ v k later h. elim (Bool-cases (w == v)) [
    | inl e ↦
        rw (entries-heartbeat s w u scope v now, e, lookup-assign u k)
          (ground
            (arith, fresh-lookup-prune (entries s v) k now later (r.maps v) h, r.views v k later))
    | inr e ↦ rw (entries-heartbeat s w u scope v now, e) (r.views v k later (omega arith))
  ];
}

get_presence-Refines :
    (s : PresenceService) (seen : Seen) (t now : ℕ) (w : String)
    → t ≤ now
    → Refines s seen t
    → Refines (get_presence s w now).0 seen now
get_presence-Refines s seen t now w le r = record {
  maps = λ v. elim (Bool-cases (w == v)) [
    | inl e ↦ rw ((entries-get_presence s w v now).0, e) (IsMap-prune_expired now _ (r.maps w))
    | inr e ↦ rw ((entries-get_presence s w v now).0, e) (r.maps v)
  ];
  views = λ v k later h. elim (Bool-cases (w == v)) [
    | inl e ↦
        rw ((entries-get_presence s w v now).0, e, (eq_iff w v).0 e)
          (fresh-lookup-prune (entries s v) k now later (r.maps v) h
            ∙ r.views v k later (omega arith))
    | inr e ↦ rw ((entries-get_presence s w v now).0, e) (r.views v k later (omega arith))
  ];
}

step-Refines :
    (s : PresenceService) (seen : Seen) (t : ℕ) (c : ℕ × Call)
    → t ≤ c.0
    → Refines s seen t
    → Refines (step s c) (note seen c) c.0
unfolding step note
step-Refines s seen t (now, heartbeats w u scope) le r =
    heartbeat-Refines s seen t now w u scope le r
step-Refines s seen t (now, asks w) le r = get_presence-Refines s seen t now w le r

run-Refines :
    (s : PresenceService) (seen : Seen) (t now : ℕ) (cs : List (ℕ × Call))
    → Rising t cs now
    → Refines s seen t
    → Refines (run s cs) (note_all seen cs) now
unfolding run note_all
run-Refines s seen t now [] le r = record {
  maps = r.maps;
  views = λ w u later h. r.views w u later (omega arith);
}
run-Refines s seen t now (c ∷ cs) (le, rest) r =
    run-Refines (step s c) (note seen c) c.0 now cs rest (step-Refines s seen t c le r)

init-Refines : Refines init (λ w u. none) 0
unfolding init entries lookup
init-Refines = record {
  maps = λ w. record { distinct = tt; named = tt };
  views = λ w u later h. refl;
}

-- After any history whose clock readings do not fall, an answer lists no user twice, and it lists a
-- user exactly when that user's last heartbeat in the workspace is at most 30 seconds old, with the
-- scope and the clock reading of that heartbeat.
pub get_presence_exact :
    (w : String) (cs : List (ℕ × Call)) (now : ℕ)
    → Rising 0 cs now
    → let answer = (get_presence (run init cs) w now).1 in
      Distinct (map (λ (i : PresenceInfo). i.user_id) answer)
      × ((u : String) → find_user u answer ≡ fresh now (note_all (λ v k. none) cs w u))
get_presence_exact w cs now rising =
    let r = run-Refines init (λ v k. none) 0 now cs rising init-Refines in
    let m = entries (run init cs) w in
    let pruned = IsMap-prune_expired now m (r.maps w) in
    rw (entries-get_presence (run init cs) w w now).1 (
      rw (user_ids-infos (prune_expired now m) pruned.named) pruned.distinct,
      λ u.
          find_user-infos u (prune_expired now m) pruned.named
          ∙ lookup-prune_expired now u m (r.maps w).distinct
          ∙ r.views w u now (omega arith),
    )
