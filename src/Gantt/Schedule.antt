-- ===== src/Gantt/Schedule.antt =====
-- gui/project_board/gantt/project_board_gantt_critical_path.cc: the two passes over the sorted tasks, and
-- what is critical.
use cpp_wiki.Prelude.{
  ℕ, String, not, ◌&&◌, Option, List, [], ◌∷◌, ◌++◌, ◌==◌, if◌then◌else◌, is_empty, length, elem,
  eqb,
}
use cpp_wiki.Gantt.{
  RelationType, start_start, start_finish, finish_finish, finish_start, Edge, TaskEntry, LinkEntry,
  Numbers, value_of, keys, collect_tasks, collect_edges, outgoing, incoming, sort_tasks,
}

-- The start and the finish of a task.
pub record Span (N : Type 0) : Type 0 where
  pub start : N
  pub finish : N

-- The times of the tasks seen so far, the newest first.
abbrev pub Times : Type 0 → Type 0
Times N = List (String × Span N)

pub record CriticalPathResult : Type 0 where
  pub critical_task_ids : List String
  pub critical_link_ids : List String

unfoldable pub reversed : List String → List String
reversed [] = []
reversed (id ∷ ids) = reversed ids ++ id ∷ []

module _ {N : Type 0} (numbers : Numbers N) where
  open numbers use {origin, from_int, plus, minus, larger, smaller, is_close}

  unfoldable pub duration_of : String → List (String × ℕ) → N
  duration_of id [] = origin
  duration_of id ((key, n) ∷ rest) =
      let more = duration_of id rest in if key == id then from_int n else more

  unfoldable pub start_at : String → Times N → N
  unfolding value_of
  start_at id times = (value_of (record { start = origin; finish = origin }) id times).start

  unfoldable pub finish_at : String → Times N → N
  unfolding value_of
  finish_at id times = (value_of (record { start = origin; finish = origin }) id times).finish

  -- What an edge asks of its target's start.
  unfoldable pub required : N → Times N → RelationType → String → N → N
  unfolding start_at finish_at
  required duration times finish_start source lag = plus (finish_at source times) lag
  required duration times start_start source lag = plus (start_at source times) lag
  required duration times finish_finish source lag =
      minus (plus (finish_at source times) lag) duration
  required duration times start_finish source lag =
      minus (plus (start_at source times) lag) duration

  unfoldable pub earliest_from : N → Times N → List (Edge N) → N → N
  unfolding required
  earliest_from duration times [] start = start
  earliest_from duration times (e ∷ es) start =
      earliest_from duration times es (larger start (required duration times e.type e.source e.lag))

  unfoldable pub forward_pass : List (String × ℕ) → List (Edge N) → List String → Times N → Times N
  unfolding earliest_from incoming duration_of
  forward_pass durations edges [] times = times
  forward_pass durations edges (id ∷ ids) times =
      let duration = duration_of id durations in
      let start = earliest_from duration times (incoming id edges) origin in
      forward_pass durations edges ids
        ((id, record { start = start; finish = plus start duration }) ∷ times)

  unfoldable pub project_end : List String → Times N → N → N
  unfolding finish_at
  project_end [] times end = end
  project_end (id ∷ ids) times end = project_end ids times (larger end (finish_at id times))

  -- What an edge allows of its source's finish.
  unfoldable pub allowed : N → Times N → RelationType → String → N → N
  unfolding start_at finish_at
  allowed duration times finish_start target lag = minus (start_at target times) lag
  allowed duration times start_start target lag = plus (minus (start_at target times) lag) duration
  allowed duration times finish_finish target lag = minus (finish_at target times) lag
  allowed duration times start_finish target lag =
      plus (minus (finish_at target times) lag) duration

  unfoldable pub latest_from : N → Times N → List (Edge N) → N → N
  unfolding allowed
  latest_from duration times [] finish = finish
  latest_from duration times (e ∷ es) finish =
      latest_from duration times es (smaller finish (allowed duration times e.type e.target e.lag))

  -- The order given is the reverse of the topological one.
  unfoldable pub backward_pass :
      List (String × ℕ) → List (Edge N) → N → List String → Times N → Times N
  unfolding latest_from outgoing duration_of
  backward_pass durations edges end [] times = times
  backward_pass durations edges end (id ∷ ids) times =
      let duration = duration_of id durations in
      let finish = latest_from duration times (outgoing id edges) end in
      backward_pass durations edges end ids
        ((id, record { start = minus finish duration; finish = finish }) ∷ times)

  unfoldable pub critical_tasks : List String → Times N → Times N → List String
  unfolding start_at
  critical_tasks [] earliest latest = []
  critical_tasks (id ∷ ids) earliest latest =
      let more = critical_tasks ids earliest latest in
      if is_close (start_at id latest) (start_at id earliest) then id ∷ more else more

  unfoldable pub critical_links : List String → List (Edge N) → List String
  critical_links tasks [] = []
  critical_links tasks (e ∷ es) =
      let more = critical_links tasks es in
      if elem e.source tasks && elem e.target tasks && not (is_empty e.link_id)
      then e.link_id ∷ more
      else more

  unfoldable pub schedule : List (String × ℕ) → List (Edge N) → List String → CriticalPathResult
  unfolding forward_pass project_end backward_pass critical_tasks critical_links reversed
  schedule durations edges order =
      let ids = keys durations in
      let earliest = forward_pass durations edges order [] in
      let end = project_end ids earliest origin in
      let latest = backward_pass durations edges end (reversed order) [] in
      let tasks = critical_tasks ids earliest latest in
      record { critical_task_ids = tasks; critical_link_ids = critical_links tasks edges }

  abbrev pub nothing_critical : CriticalPathResult
  nothing_critical = record { critical_task_ids = []; critical_link_ids = [] }

  -- A board on which the sorting leaves tasks out has a cycle.
  unfoldable pub compute_critical_path :
      List (Option TaskEntry) → List (Option (LinkEntry N)) → CriticalPathResult
  unfolding schedule collect_tasks collect_edges sort_tasks keys
  compute_critical_path tasks links =
      let durations = collect_tasks tasks [] in
      let ids = keys durations in
      if eqb (length ids) 0
      then nothing_critical
      else let edges = collect_edges durations links in
        let order = (sort_tasks (length ids) ids edges).topo_order in
        if eqb (length order) (length ids) then schedule durations edges order else nothing_critical
