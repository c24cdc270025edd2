-- ===== src/Gantt/Tests.antt =====
-- A board of three tasks, one with a cycle, and the theorems at concrete inputs.
use cpp_wiki.Prelude.{
  ℤ, negsuc, pos_part, neg_part, max_ℤ, ltb_ℤ, eqb_ℤ, ◌≤ℤ◌, elem, true, ◌≡◌, refl, ℕ, ◌+◌, ◌-◌, ltb,
  pos, String, Option, none, some, List, [], ◌∷◌, arith, length, if◌then◌else◌,
}
use cpp_wiki.Gantt.{
  incoming, finish_start, start_start, Edge, TaskEntry, LinkEntry, Numbers, sort_tasks, keys,
  collect_tasks, collect_edges,
}
use cpp_wiki.Gantt.Loop.{sort_tasks_ends}
use cpp_wiki.Gantt.Schedule.{
  Times, start_at, finish_at, duration_of, compute_critical_path, forward_pass,
}
use cpp_wiki.Gantt.Passes.{NumberLaws, AllEdges}
use cpp_wiki.Gantt.Board.{IsKept, forward_pass-IsKept}

-- The schedule over the integers, all of which are numbers.
abbrev difference : ℕ → ℕ → ℤ
difference m n = if ltb m n then negsuc (n - m - 1) else pos (m - n)

abbrev smaller_ℤ : ℤ → ℤ → ℤ
smaller_ℤ a b = if ltb_ℤ b a then b else a

abbrev whole : Numbers ℤ
whole = record {
  origin = pos 0;
  from_int = λ n. pos n;
  plus = λ a b. difference (pos_part a + pos_part b) (neg_part a + neg_part b);
  minus = λ a b. difference (pos_part a + neg_part b) (neg_part a + pos_part b);
  larger = max_ℤ;
  smaller = smaller_ℤ;
  is_close = eqb_ℤ;
}

whole_laws : NumberLaws whole (λ a b. a ≤ℤ b)
whole_laws = record {
  IsNumber = λ a. Unit;
  origin-IsNumber = tt;
  larger-IsNumber = λ a b n. tt;
  at_most_refl = λ a. omega arith;
  at_most_trans = λ a b c n h k. omega (arith, h, k);
  larger_left = λ a b. ground arith;
  larger_right = λ a b. ground arith;
}

abbrev task_of : String → ℕ → Option TaskEntry
task_of id n = some (record { id = id; duration = pos n })

abbrev link_of : String → String → String → ℤ → String → Option (LinkEntry ℤ)
link_of id source target lag type =
    some (record { source = source; target = target; type = type; lag = lag; id = id })

abbrev board : List (Option TaskEntry)
board = task_of "c" 1 ∷ none ∷ task_of "a" 2 ∷ task_of "b" 3 ∷ task_of "a" 9 ∷ []

abbrev links : List (Option (LinkEntry ℤ))
links =
    link_of "l1" "a" "b" (pos 1) "e2s"
    ∷ link_of "l2" "a" "c" (pos 0) "s2s"
    ∷ none
    ∷ link_of "l3" "a" "d" (pos 0) "e2s"
    ∷ []

compute_critical_path_runs :
    (compute_critical_path whole board links
      ≡ record { critical_task_ids = "a" ∷ "b" ∷ []; critical_link_ids = "l1" ∷ [] })
    × (compute_critical_path whole board (link_of "l4" "b" "a" (pos 0) "e2s" ∷ links)
        ≡ record { critical_task_ids = []; critical_link_ids = [] })
unfolding compute_critical_path
compute_critical_path_runs = (refl, refl)

abbrev edges : List (Edge ℤ)
edges =
    record { source = "a"; target = "b"; type = finish_start; lag = pos 1; link_id = "l1" }
    ∷ record { source = "a"; target = "c"; type = start_start; lag = pos 0; link_id = "l2" }
    ∷ []

abbrev ids : List String
ids = "c" ∷ "a" ∷ "b" ∷ []

sort_tasks_ends_example :
    ((sort_tasks (length ids) ids edges).queue ≡ [])
    × (sort_tasks 100 ids edges ≡ sort_tasks (length ids) ids edges)
sort_tasks_ends_example = sort_tasks_ends ids edges 100 (omega arith)

abbrev plan_durations : List (String × ℕ)
plan_durations = collect_tasks board []

abbrev plan_edges : List (Edge ℤ)
plan_edges = collect_edges plan_durations links

abbrev plan_order : List String
plan_order = (sort_tasks 3 (keys plan_durations) plan_edges).topo_order

abbrev plan_times : Times ℤ
plan_times = forward_pass whole plan_durations plan_edges plan_order []

b_is_sorted : elem "b" plan_order ≡ true
unfolding collect_tasks collect_edges keys sort_tasks
b_is_sorted = refl

forward_pass-IsKept_example :
    (pos 0 ≤ℤ start_at whole "b" plan_times)
    × (finish_at whole "b" plan_times
        ≡ whole.plus (start_at whole "b" plan_times) (duration_of whole "b" plan_durations))
    × AllEdges
        (λ e.
          IsKept whole
            (λ a b. a ≤ℤ b)
            whole_laws
            e.type
            e.lag
            (duration_of whole "b" plan_durations)
            e.source
            "b"
            plan_times)
        (incoming "b" plan_edges)
forward_pass-IsKept_example =
    forward_pass-IsKept whole (λ a b. a ≤ℤ b) whole_laws board links 3 "b" b_is_sorted
