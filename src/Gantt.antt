-- ===== src/Gantt.antt =====
-- gui/project_board/gantt/project_board_gantt_critical_path.cc: the critical path of a board of tasks and
-- links, by the critical path method. What Qt reads of the board is given: a task's id and its
-- duration, a link's texts and its lag; an entry that is not an object is `none`. The numbers of the
-- schedule, which are doubles, are a type `N` with the operations that the code uses.
-- Per task, the lists of outgoing and incoming edges are the edges filtered. The queue has its last
-- entry, which is taken first, at its head.
pub mod Loop
pub mod Schedule
pub mod Passes
mod Counters
pub mod Order
pub mod Board
mod Tests
use cpp_wiki.Prelude.{
  ℕ, zero, suc, ℤ, pos, negsuc, pos_part, eqb_ℤ, String, Bool, true, false, not, ◌&&◌, ◌||◌, Option,
  none, some, List, [], ◌∷◌, ◌++◌, ◌==◌, if◌then◌else◌, is_empty, length, eqb,
}

pub data RelationType : Type 0 where
  start_start start_finish finish_finish finish_start : RelationType

unfoldable pub relation_type_from_string : String → RelationType
relation_type_from_string type =
    if type == "s2s"
    then start_start
    else if type == "s2e"
    then start_finish
    else if type == "e2e"
    then finish_finish
    else finish_start

pub record Edge (N : Type 0) : Type 0 where
  pub source : String
  pub target : String
  pub type : RelationType
  pub lag : N
  pub link_id : String

pub record TaskEntry : Type 0 where
  pub id : String
  -- `toInt(1)`
  pub duration : ℤ

pub record LinkEntry (N : Type 0) : Type 0 where
  pub source : String
  pub target : String
  pub type : String
  pub lag : N
  pub id : String

-- The operations on doubles.
pub record Numbers (N : Type 0) : Type 0 where
  pub origin : N
  pub from_int : ℕ → N
  pub plus : N → N → N
  pub minus : N → N → N
  pub larger : N → N → N
  pub smaller : N → N → N
  -- The absolute difference is below `kEpsilon`.
  pub is_close : N → N → Bool

-- A hash from tasks, with a default for a key that is not there.
unfoldable pub value_of : {A : Type 0} → A → String → List (String × A) → A
value_of default id [] = default
value_of default id ((key, a) ∷ rest) =
    let more = value_of default id rest in if key == id then a else more

unfoldable pub has_key : {A : Type 0} → String → List (String × A) → Bool
has_key id [] = false
has_key id ((key, a) ∷ rest) = key == id || has_key id rest

unfoldable pub keys : {A : Type 0} → List (String × A) → List String
keys [] = []
keys ((key, a) ∷ rest) = key ∷ keys rest

-- The tasks with their durations, in the order of the board: the first of an id counts.
unfoldable pub add_task : TaskEntry → List (String × ℕ) → List (String × ℕ)
unfolding has_key
add_task entry tasks =
    if is_empty entry.id || has_key entry.id tasks
    then tasks
    else tasks ++ (entry.id, pos_part entry.duration) ∷ []

unfoldable pub collect_tasks : List (Option TaskEntry) → List (String × ℕ) → List (String × ℕ)
unfolding add_task
collect_tasks [] tasks = tasks
collect_tasks (none ∷ entries) tasks = collect_tasks entries tasks
collect_tasks (some entry ∷ entries) tasks = collect_tasks entries (add_task entry tasks)

-- How many edges lead to a task.
unfoldable pub indegree_of : {N : Type 0} → String → List (Edge N) → ℕ
indegree_of id [] = 0
indegree_of id (e ∷ es) = let n = indegree_of id es in if e.target == id then suc n else n

unfoldable pub outgoing : {N : Type 0} → String → List (Edge N) → List (Edge N)
outgoing id [] = []
outgoing id (e ∷ es) = let more = outgoing id es in if e.source == id then e ∷ more else more

unfoldable pub incoming : {N : Type 0} → String → List (Edge N) → List (Edge N)
incoming id [] = []
incoming id (e ∷ es) = let more = incoming id es in if e.target == id then e ∷ more else more

unfoldable pub collect_edges :
    {N : Type 0} → List (String × ℕ) → List (Option (LinkEntry N)) → List (Edge N)
unfolding has_key relation_type_from_string
collect_edges tasks [] = []
collect_edges tasks (none ∷ entries) = collect_edges tasks entries
collect_edges tasks (some link ∷ entries) =
    let more = collect_edges tasks entries in
    if is_empty link.source
      || is_empty link.target
      || link.source == link.target
      || not (has_key link.source tasks)
      || not (has_key link.target tasks)
    then more
    else record {
      source = link.source;
      target = link.target;
      type = relation_type_from_string link.type;
      lag = link.lag;
      link_id = link.id;
    }
      ∷ more

-- The state of the sorting.
pub record Sorting : Type 0 where
  pub topo_order : List String
  pub queue : List String
  pub remaining_indegree : List (String × ℤ)

unfoldable pub before_ℤ : ℤ → ℤ
before_ℤ (pos zero) = negsuc 0
before_ℤ (pos (suc n)) = pos n
before_ℤ (negsuc n) = negsuc (suc n)

-- `remaining_indegree[id] -= 1`, where a missing entry counts as zero.
unfoldable pub decrement : String → List (String × ℤ) → List (String × ℤ)
unfolding before_ℤ
decrement id [] = (id, negsuc 0) ∷ []
decrement id ((key, n) ∷ rest) =
    let more = decrement id rest in if key == id then (key, before_ℤ n) ∷ rest else (key, n) ∷ more

unfoldable pub is_zero : ℤ → Bool
is_zero (pos zero) = true
is_zero _ = false

-- The loop over the edges that leave a task.
unfoldable pub visit :
    {N : Type 0} → List (Edge N) → List String × List (String × ℤ) → List String × List (String × ℤ)
unfolding decrement value_of is_zero
visit [] (queue, remaining) = (queue, remaining)
visit (e ∷ es) (queue, remaining) =
    let left = decrement e.target remaining in
    visit es (if is_zero (value_of (pos 0) e.target left) then e.target ∷ queue else queue, left)

-- The while loop, with as many rounds as the fuel allows.
unfoldable pub sort_loop :
    {N : Type 0} → List (Edge N) → ℕ → List String → List String → List (String × ℤ) → Sorting
unfolding visit outgoing
sort_loop edges zero order queue remaining = record {
  topo_order = order;
  queue = queue;
  remaining_indegree = remaining;
}
sort_loop edges (suc fuel) order [] remaining = record {
  topo_order = order;
  queue = [];
  remaining_indegree = remaining;
}
sort_loop edges (suc fuel) order (id ∷ rest) remaining =
    let (queue, left) = visit (outgoing id edges) (rest, remaining) in
    sort_loop edges fuel (order ++ id ∷ []) queue left

unfoldable pub indegrees : {N : Type 0} → List String → List (Edge N) → List (String × ℤ)
unfolding indegree_of
indegrees [] edges = []
indegrees (id ∷ ids) edges = (id, pos (indegree_of id edges)) ∷ indegrees ids edges

-- The tasks without an incoming edge, the last of them first.
unfoldable pub sources_onto : {N : Type 0} → List String → List (Edge N) → List String → List String
unfolding indegree_of
sources_onto [] edges queue = queue
sources_onto (id ∷ ids) edges queue =
    sources_onto ids edges (if eqb (indegree_of id edges) 0 then id ∷ queue else queue)

-- One round for each task.
unfoldable pub sort_tasks : {N : Type 0} → ℕ → List String → List (Edge N) → Sorting
unfolding sort_loop indegrees sources_onto
sort_tasks fuel ids edges =
    sort_loop edges fuel [] (sources_onto ids edges []) (indegrees ids edges)
