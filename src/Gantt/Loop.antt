-- ===== src/Gantt/Loop.antt =====
-- The topological sorting of the tasks ends.
use cpp_wiki.Prelude.{
  ◌≡◌, refl, ℕ, zero, suc, ◌+◌, ◌≤◌, ℤ, pos, negsuc, String, Bool, true, false, List, [], ◌∷◌, ◌++◌,
  ◌==◌, if◌then◌else◌, length, eqb, arith, eq_refl, Bool-cases, inl, inr,
}
use cpp_wiki.Gantt.{
  Edge, value_of, before_ℤ, decrement, is_zero, visit, outgoing, sort_loop, indegree_of, indegrees,
  sources_onto, sort_tasks,
}

is_positive : ℤ → Bool
is_positive (pos (suc n)) = true
is_positive _ = false

-- How many tasks still wait for an edge.
waiting : List (String × ℤ) → ℕ
unfolding is_positive
waiting [] = 0
waiting ((key, n) ∷ rest) = let more = waiting rest in if is_positive n then suc more else more

one_if : Bool → ℕ
one_if true = 1
one_if false = 0

before_drops :
    (n : ℤ)
    → one_if (is_zero (before_ℤ n)) + one_if (is_positive (before_ℤ n)) ≤ one_if (is_positive n)
unfolding one_if is_zero before_ℤ is_positive
before_drops (pos zero) = omega arith
before_drops (pos (suc zero)) = omega arith
before_drops (pos (suc (suc n))) = omega arith
before_drops (negsuc n) = omega arith

waiting_step :
    (key : String) (n : ℤ) (rest : List (String × ℤ))
    → waiting ((key, n) ∷ rest) ≡ one_if (is_positive n) + waiting rest
unfolding waiting one_if
waiting_step key n rest = elim (Bool-cases (is_positive n)) [
  | inl e ↦ rw e (omega arith)
  | inr e ↦ rw e (omega arith)
]

first_entry :
    (id : String)
    → one_if (is_zero (value_of (pos 0) id (decrement id []))) + waiting (decrement id [])
      ≤ waiting []
unfolding decrement value_of is_zero waiting is_positive one_if
first_entry id = rw (eq_refl id) (omega arith)

-- A task enters the queue only when it stops waiting.
decrement-waiting :
    (id : String) (r : List (String × ℤ))
    → one_if (is_zero (value_of (pos 0) id (decrement id r))) + waiting (decrement id r) ≤ waiting r
unfolding decrement value_of
decrement-waiting id [] = first_entry id
decrement-waiting id ((key, n) ∷ rest) = elim (Bool-cases (key == id)) [
  | inl e ↦
      rw (e, e, waiting_step key n rest, waiting_step key (before_ℤ n) rest)
        (omega (arith, before_drops n))
  | inr e ↦
      rw (e, e, waiting_step key n rest, waiting_step key n (decrement id rest))
        (omega (arith, decrement-waiting id rest))
]

queued :
    (b : Bool) (id : String) (queue : List String)
    → length (if b then id ∷ queue else queue) ≡ one_if b + length queue
unfolding one_if
queued true id queue = omega arith
queued false id queue = omega arith

nobody_waits : waiting [] ≡ 0
unfolding waiting
nobody_waits = refl

-- A task is queued at the start or waits.
either_counts :
    (id : String) (n : ℕ) (queue : List String)
    → length (if eqb n 0 then id ∷ queue else queue) + one_if (is_positive (pos n))
      ≡ suc (length queue)
unfolding one_if is_positive
either_counts id zero queue = omega arith
either_counts id (suc n) queue = ground arith

module _ {N : Type 0} where
  -- Visiting edges does not add to the tasks that are queued or wait.
  visit-waiting :
      (es : List (Edge N)) (queue : List String) (remaining : List (String × ℤ))
      → let after = visit es (queue, remaining) in
        length after.0 + waiting after.1 ≤ length queue + waiting remaining
  unfolding visit
  visit-waiting [] queue remaining = omega arith
  visit-waiting (e ∷ es) queue remaining =
      let left = decrement e.target remaining in
      let freed = is_zero (value_of (pos 0) e.target left) in
      let next : List String = if freed then e.target ∷ queue else queue in
      omega (
        arith,
        visit-waiting es next left,
        queued freed e.target queue,
        decrement-waiting e.target remaining,
      )

  loop_empty :
      (edges : List (Edge N)) (fuel : ℕ) (order : List String) (remaining : List (String × ℤ))
      → sort_loop edges fuel order [] remaining
        ≡ record { topo_order = order; queue = []; remaining_indegree = remaining }
  unfolding sort_loop
  loop_empty edges zero order remaining = refl
  loop_empty edges (suc fuel) order remaining = refl

  -- With enough fuel the loop ends with an empty queue, and more fuel changes nothing.
  loop_ends :
      (edges : List (Edge N)) (fuel enough : ℕ) (order queue : List String)
      (remaining : List (String × ℤ))
      → length queue + waiting remaining ≤ enough
      → enough ≤ fuel
      → ((sort_loop edges enough order queue remaining).queue ≡ [])
        × (sort_loop edges fuel order queue remaining
            ≡ sort_loop edges enough order queue remaining)
  unfolding sort_loop
  loop_ends edges fuel enough order [] remaining h g =
      rw (loop_empty edges enough order remaining, loop_empty edges fuel order remaining)
        (refl, refl)
  loop_ends edges fuel zero order (id ∷ rest) remaining h g = absurd (omega (arith, h))
  loop_ends edges zero (suc enough) order (id ∷ rest) remaining h g = absurd (omega (arith, g))
  loop_ends edges (suc fuel) (suc enough) order (id ∷ rest) remaining h g =
      let after = visit (outgoing id edges) (rest, remaining) in
      loop_ends edges fuel enough (order ++ id ∷ []) after.0 after.1
        (omega (arith, h, visit-waiting (outgoing id edges) rest remaining)) (omega (arith, g))

  source_or_waiting :
      (ids : List String) (edges : List (Edge N)) (queue : List String)
      → length (sources_onto ids edges queue) + waiting (indegrees ids edges)
        ≡ length queue + length ids
  unfolding sources_onto indegrees
  source_or_waiting [] edges queue = omega (arith, nobody_waits)
  source_or_waiting (id ∷ ids) edges queue =
      rw (waiting_step id (pos (indegree_of id edges)) (indegrees ids edges)) (
        omega (
          arith,
          either_counts id (indegree_of id edges) queue,
          source_or_waiting ids edges (if eqb (indegree_of id edges) 0 then id ∷ queue else queue),
        ))

  -- The sorting of tasks takes one round for each task at most: after that many, its queue is empty, and
  -- further rounds would change nothing. So the loop ends, whatever the links are.
  pub sort_tasks_ends :
      (ids : List String) (edges : List (Edge N)) (fuel : ℕ)
      → length ids ≤ fuel
      → ((sort_tasks (length ids) ids edges).queue ≡ [])
        × (sort_tasks fuel ids edges ≡ sort_tasks (length ids) ids edges)
  unfolding sort_tasks
  sort_tasks_ends ids edges fuel h =
      loop_ends edges fuel (length ids) [] (sources_onto ids edges []) (indegrees ids edges)
        (omega (arith, source_or_waiting ids edges [])) h
