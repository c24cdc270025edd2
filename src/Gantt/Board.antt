-- ===== src/Gantt/Board.antt =====
-- The times that the forward pass gives the tasks of a board.
use cpp_wiki.Prelude.{
  sym, subst, eq_refl, ◌≡◌, refl, ap, ◌∙◌, inl, inr, ℕ, String, true, false, not, ◌||◌, Option,
  none, some, List, [], ◌∷◌, ◌++◌, ◌==◌, is_empty, pos_part, arith, eq_iff, elem, Bool-cases,
  Distinct,
}
use cpp_wiki.Gantt.{
  RelationType, start_start, start_finish, finish_finish, finish_start, Edge, incoming, TaskEntry,
  LinkEntry, Numbers, has_key, keys, add_task, collect_tasks, collect_edges, sort_tasks,
}
use cpp_wiki.Gantt.Schedule.{
  forward_pass, Times, Span, duration_of, start_at, finish_at, required, earliest_from,
}
use cpp_wiki.Gantt.Passes.{
  IsSorted, asked, stays, span_first, start_is, finish_is, AllEdges, NumberLaws,
  forward_pass-Respects,
}
use cpp_wiki.Gantt.Order.{sort_tasks-IsSorted}

has_key_iff : (x : String) (tasks : List (String × ℕ)) → elem x (keys tasks) ≡ has_key x tasks
unfolding has_key keys
has_key_iff x [] = refl
has_key_iff x ((key, n) ∷ rest) = ap (λ b. key == x || b) (has_key_iff x rest)

keys_append :
    (tasks : List (String × ℕ)) (id : String) (n : ℕ)
    → keys (tasks ++ (id, n) ∷ []) ≡ keys tasks ++ id ∷ []
unfolding keys
keys_append [] id n = refl
keys_append ((key, m) ∷ rest) id n = ap (λ l. key ∷ l) (keys_append rest id n)

elem_append : (x id : String) (xs : List String) → elem x (xs ++ id ∷ []) ≡ elem x xs || id == x
elem_append x id [] = ground arith
elem_append x id (y ∷ ys) = ground (arith, elem_append x id ys)

append-Distinct :
    (xs : List String) (id : String) → Distinct xs → elem id xs ≡ false → Distinct (xs ++ id ∷ [])
append-Distinct [] id d h = (refl, tt)
append-Distinct (x ∷ xs) id (new, d) h = (
  elem_append x id xs ∙ ground (arith, eq_iff id x, eq_iff x id),
  append-Distinct xs id d (ground arith),
)

add_task-Distinct :
    (entry : TaskEntry) (tasks : List (String × ℕ))
    → Distinct (keys tasks)
    → Distinct (keys (add_task entry tasks))
unfolding add_task
add_task-Distinct entry tasks d = elim (Bool-cases (is_empty entry.id || has_key entry.id tasks)) [
  | inl h ↦ rw h d
  | inr h ↦
      rw (h, keys_append tasks entry.id (pos_part entry.duration))
        (append-Distinct (keys tasks) entry.id d (has_key_iff entry.id tasks ∙ ground arith))
]

collect_tasks-Distinct :
    (entries : List (Option TaskEntry)) (tasks : List (String × ℕ))
    → Distinct (keys tasks)
    → Distinct (keys (collect_tasks entries tasks))
unfolding collect_tasks
collect_tasks-Distinct [] tasks d = d
collect_tasks-Distinct (none ∷ entries) tasks d = collect_tasks-Distinct entries tasks d
collect_tasks-Distinct (some entry ∷ entries) tasks d =
    collect_tasks-Distinct entries (add_task entry tasks) (add_task-Distinct entry tasks d)

targets_known :
    {N : Type 0} (tasks : List (String × ℕ)) (entries : List (Option (LinkEntry N)))
    → AllEdges (λ e. elem e.target (keys tasks) ≡ true) (collect_edges tasks entries)
unfolding collect_edges
targets_known tasks [] = tt
targets_known tasks (none ∷ entries) = targets_known tasks entries
targets_known tasks (some link ∷ entries) =
    elim (Bool-cases (
      is_empty link.source
      || is_empty link.target
      || link.source == link.target
      || not (has_key link.source tasks)
      || not (has_key link.target tasks))) [
        | inl h ↦ rw h (targets_known tasks entries)
        | inr h ↦ rw h (has_key_iff link.target tasks ∙ ground arith, targets_known tasks entries)
      ]

module _ {N : Type 0} (numbers : Numbers N) (IsAtMost : N → N → Type 0)
    (laws : NumberLaws numbers IsAtMost) where
  -- What a link between two tasks means for their times.
  abbrev pub IsKept : RelationType → N → N → String → String → Times N → Type 0
  IsKept finish_start lag duration source target times =
      IsAtMost (numbers.plus (finish_at numbers source times) lag) (start_at numbers target times)
  IsKept start_start lag duration source target times =
      IsAtMost (numbers.plus (start_at numbers source times) lag) (start_at numbers target times)
  IsKept finish_finish lag duration source target times =
      IsAtMost (numbers.minus (numbers.plus (finish_at numbers source times) lag) duration)
        (start_at numbers target times)
  IsKept start_finish lag duration source target times =
      IsAtMost (numbers.minus (numbers.plus (start_at numbers source times) lag) duration)
        (start_at numbers target times)

  -- A start late enough for what is required of it keeps the link.
  required-IsKept :
      (type : RelationType) (lag duration : N) (source target : String) (times : Times N)
      → IsAtMost (required numbers duration times type source lag) (start_at numbers target times)
      → IsKept type lag duration source target times
  unfolding required
  required-IsKept finish_start lag duration source target times h = h
  required-IsKept start_start lag duration source target times h = h
  required-IsKept finish_finish lag duration source target times h = h
  required-IsKept start_finish lag duration source target times h = h

  pass_finish :
      (durations : List (String × ℕ)) (edges : List (Edge N)) (ids done : List String)
      (times : Times N) (x : String)
      → IsSorted edges done ids
      → elem x ids ≡ true
      → let final = forward_pass numbers durations edges ids times in
        finish_at numbers x final
        ≡ numbers.plus (start_at numbers x final) (duration_of numbers x durations)
  unfolding forward_pass
  pass_finish durations edges [] done times x h k = absurd (ground arith)
  pass_finish durations edges (id ∷ ids) done times x (fresh, before, later) k =
      elim (Bool-cases (id == x)) [
        | inl e ↦
            let duration = duration_of numbers id durations in
            let start = earliest_from numbers duration times (incoming id edges) numbers.origin in
            let s : Span N = record { start = start; finish = numbers.plus start duration } in
            let final = forward_pass numbers durations edges ids ((id, s) ∷ times) in
            let own =
              stays numbers IsAtMost laws durations edges ids (id ∷ done) ((id, s) ∷ times) id later
                (rw (eq_refl id) refl)
              ∙ span_first numbers IsAtMost laws id s times in
            let p : id ≡ x = ground (arith, eq_iff id x) in
            subst
              (λ y.
                finish_at numbers y final
                ≡ numbers.plus (start_at numbers y final) (duration_of numbers y durations))
              p
              (finish_is numbers IsAtMost laws id s final own
                ∙ ap (λ n. numbers.plus n duration)
                    (sym (start_is numbers IsAtMost laws id s final own)))
        | inr e ↦ pass_finish durations edges ids (id ∷ done) _ x later (ground arith)
      ]

  incoming-IsKept :
      (durations : List (String × ℕ)) (ids : List String) (times : Times N) (id : String)
      (es : List (Edge N))
      → elem id ids ≡ true
      → AllEdges
          (λ e.
            elem e.target ids ≡ true
            → IsAtMost
                (asked numbers IsAtMost laws durations times e)
                (start_at numbers e.target times))
          es
      → AllEdges
          (λ e. IsKept e.type e.lag (duration_of numbers id durations) e.source id times)
          (incoming id es)
  unfolding incoming
  incoming-IsKept durations ids times id [] h a = tt
  incoming-IsKept durations ids times id (e ∷ es) h (first, a) =
      elim (Bool-cases (e.target == id)) [
        | inl k ↦
            let p : e.target ≡ id = ground (arith, eq_iff e.target id) in
            let late = first (ap (λ y. elem y ids) p ∙ h) in
            rw k (
              required-IsKept e.type e.lag (duration_of numbers id durations) e.source id times (
                  subst
                    (λ y.
                      IsAtMost
                        (required numbers (duration_of numbers y durations) times e.type e.source
                          e.lag)
                        (start_at numbers y times))
                    p late),
              incoming-IsKept durations ids times id es h a,
            )
        | inr k ↦ rw k (incoming-IsKept durations ids times id es h a)
      ]

  -- `NumberLaws` hold of the numbers: a comparison that is an order around those that are not NaN, and in
  -- which the larger of two is above both. Then for the tasks and links of any board, sorted with any number of
  -- rounds, in the times that the forward pass gives, every sorted task starts at the origin or later,
  -- finishes its duration after its start, and keeps every link that leads to it: its start is at least
  -- the start or the finish of the source, as the type of the link says, plus the lag, less its own
  -- duration if the link is to its finish.
  pub forward_pass-IsKept :
      (entries : List (Option TaskEntry)) (links : List (Option (LinkEntry N))) (fuel : ℕ)
      (id : String)
      → let durations = collect_tasks entries [] in
        let edges = collect_edges durations links in
        let order = (sort_tasks fuel (keys durations) edges).topo_order in
        let times = forward_pass numbers durations edges order [] in
        elem id order ≡ true
        → IsAtMost numbers.origin (start_at numbers id times)
          × (finish_at numbers id times
              ≡ numbers.plus (start_at numbers id times) (duration_of numbers id durations))
          × AllEdges
              (λ e. IsKept e.type e.lag (duration_of numbers id durations) e.source id times)
              (incoming id edges)
  unfolding keys
  forward_pass-IsKept entries links fuel id h =
      let durations = collect_tasks entries [] in
      let edges = collect_edges durations links in
      let order = (sort_tasks fuel (keys durations) edges).topo_order in
      let times = forward_pass numbers durations edges order [] in
      let sorted =
        sort_tasks-IsSorted (keys durations) edges fuel (collect_tasks-Distinct entries [] tt)
          (targets_known durations links) in
      let respects = forward_pass-Respects numbers IsAtMost laws durations edges order sorted in
      let finish = pass_finish durations edges order [] [] id sorted h in
      (respects.0 id h, finish, incoming-IsKept durations order times id edges h respects.1)
