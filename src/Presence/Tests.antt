-- ===== src/Presence/Tests.antt =====
-- A run of the presence service, and its theorem at that run.
use cpp_wiki.Prelude.{ℕ, ◌*◌, ◌^◌, ◌≡◌, refl, String, none, List, [], ◌∷◌, map, arith, Distinct}
use cpp_wiki.Presence.{
  PresenceInfo, init, is_stale, prune_expired, assign, heartbeat, get_presence, Call, heartbeats,
  asks, step, run,
}
use cpp_wiki.Presence.Entries.{find_user, fresh}
use cpp_wiki.Presence.History.{note_all, get_presence_exact}

abbrev second : ℕ
second = 10 ^ 9

abbrev visits : List (ℕ × Call)
visits =
    (1 * second, heartbeats "w" "ada" "view")
    ∷ (5 * second, heartbeats "w" "bob" "edit")
    ∷ (6 * second, asks "w")
    ∷ (20 * second, heartbeats "w" "ada" "edit")
    ∷ []

-- Bob's heartbeat is 35 seconds old, Ada's second one 20.
get_presence_runs :
    (get_presence (run init visits) "w" (40 * second)).1
    ≡ record { user_id = "ada"; scope = "edit"; last_seen = 20 * second } ∷ []
unfolding run step init get_presence heartbeat prune_expired assign is_stale
get_presence_runs = refl

get_presence_exact_example :
    let answer = (get_presence (run init visits) "w" (40 * second)).1 in
    Distinct (map (λ (i : PresenceInfo). i.user_id) answer)
    × ((u : String)
        → find_user u answer ≡ fresh (40 * second) (note_all (λ v k. none) visits "w" u))
get_presence_exact_example = get_presence_exact "w" visits (40 * second) (omega arith)
