-- ===== src/Gantt/Passes.antt =====
-- The forward pass over sorted tasks respects every link.
use cpp_wiki.Prelude.{
  ◌≡◌, refl, ap, sym, subst, ◌∙◌, inl, inr, ℕ, String, Bool, true, false, List, [], ◌∷◌, ◌==◌,
  arith, eq_iff, eq_refl, if◌then◌else◌, elem, Bool-cases,
}
use cpp_wiki.Gantt.{
  RelationType, start_start, start_finish, finish_finish, finish_start, Edge, Numbers, value_of,
  incoming,
}
use cpp_wiki.Gantt.Schedule.{
  Span, Times, duration_of, start_at, finish_at, required, earliest_from, forward_pass,
}

-- What is relied on of doubles. `IsAtMost a b` stands for `!(b < a)`, `larger a b` for `qMax(a, b)`, that
-- is `a < b ? b : a`, and `IsNumber` for a double that is not a NaN: with these the laws hold of all
-- doubles. Nothing is relied on of sums and differences, which are rounded.
pub record NumberLaws {N : Type 0} (numbers : Numbers N) (IsAtMost : N → N → Type 0) : Type 1 where
  pub IsNumber : N → Type 0
  pub origin-IsNumber : IsNumber numbers.origin
  pub larger-IsNumber : (a b : N) → IsNumber a → IsNumber (numbers.larger a b)
  pub at_most_refl : (a : N) → IsAtMost a a
  pub at_most_trans : (a b c : N) → IsNumber b → IsAtMost a b → IsAtMost b c → IsAtMost a c
  pub larger_left : (a b : N) → IsAtMost a (numbers.larger a b)
  pub larger_right : (a b : N) → IsAtMost b (numbers.larger a b)

abbrev pub AllEdges : {N : Type 0} → (Edge N → Type 0) → List (Edge N) → Type 0
AllEdges P [] = Unit
AllEdges P (e ∷ es) = P e × AllEdges P es

-- No task stands twice in the order, and the source of every edge stands before its target. `done` are
-- the tasks before the order.
abbrev pub IsSorted : {N : Type 0} → List (Edge N) → List String → List String → Type 0
IsSorted edges done [] = Unit
IsSorted edges done (id ∷ ids) =
    (elem id done ≡ false)
    × AllEdges (λ e. e.target ≡ id → elem e.source done ≡ true) edges
    × IsSorted edges (id ∷ done) ids

module _ {N : Type 0} (numbers : Numbers N) (IsAtMost : N → N → Type 0)
    (laws : NumberLaws numbers IsAtMost) where
  open laws use {
    IsNumber, origin-IsNumber, larger-IsNumber, at_most_refl, at_most_trans, larger_left,
    larger_right,
  }

  -- What an edge asks of its target.
  abbrev pub asked : List (String × ℕ) → Times N → Edge N → N
  asked durations times e =
      required numbers (duration_of numbers e.target durations) times e.type e.source e.lag

  -- The span of a task is not changed by later tasks.
  pub span : String → Times N → Span N
  span id times = value_of (record { start = numbers.origin; finish = numbers.origin }) id times

  span_later :
      (id key : String) (s : Span N) (times : Times N)
      → (key == id) ≡ false
      → span id ((key, s) ∷ times) ≡ span id times
  unfolding span value_of
  span_later id key s times e = rw e refl

  differs :
      (id x : String) (done : List String)
      → elem id done ≡ false
      → elem x done ≡ true
      → (id == x) ≡ false
  differs id x done h k = elim (Bool-cases (id == x)) [
    | inl e ↦
        let p : id ≡ x = ground (arith, eq_iff id x) in
        let clash : false ≡ true = sym h ∙ ap (λ t. elem t done) p ∙ k in cc
    | inr e ↦ e
  ]

  pub stays :
      (durations : List (String × ℕ)) (edges : List (Edge N)) (ids done : List String)
      (times : Times N) (x : String)
      → IsSorted edges done ids
      → elem x done ≡ true
      → span x (forward_pass numbers durations edges ids times) ≡ span x times
  unfolding forward_pass
  stays durations edges [] done times x h k = refl
  stays durations edges (id ∷ ids) done times x (fresh, before, later) k =
      stays durations edges ids (id ∷ done) _ x later (ground arith)
      ∙ span_later x id _ times (differs id x done fresh k)

  at_least_start :
      (duration : N) (times : Times N) (es : List (Edge N)) (start : N)
      → IsNumber start
      → IsAtMost start (earliest_from numbers duration times es start)
  unfolding earliest_from
  at_least_start duration times [] start n = at_most_refl start
  at_least_start duration times (e ∷ es) start n =
      let r = required numbers duration times e.type e.source e.lag in
      at_most_trans _ _ _ (larger-IsNumber start r n) (larger_left start r)
        (at_least_start duration times es (numbers.larger start r) (larger-IsNumber start r n))

  at_least_asked :
      (duration : N) (times : Times N) (es : List (Edge N)) (start : N)
      → IsNumber start
      → AllEdges
          (λ e.
            IsAtMost
              (required numbers duration times e.type e.source e.lag)
              (earliest_from numbers duration times es start))
          es
  unfolding earliest_from
  at_least_asked duration times [] start n = tt
  at_least_asked duration times (e ∷ es) start n =
      let r = required numbers duration times e.type e.source e.lag in
      (
        at_most_trans _ _ _ (larger-IsNumber start r n) (larger_right start r)
            (at_least_start duration times es (numbers.larger start r) (larger-IsNumber start r n)),
        at_least_asked duration times es (numbers.larger start r) (larger-IsNumber start r n),
      )

  incoming_head :
      (P : Edge N → Type 0) (id : String) (e : Edge N) (b : Bool) (more : List (Edge N))
      → (e.target == id) ≡ b
      → AllEdges P (if b then e ∷ more else more)
      → (e.target ≡ id → P e) × AllEdges P more
  incoming_head P id e true more same h = (λ t. h.0, h.1)
  incoming_head P id e false more same h = (λ t. absurd (ground (arith, eq_iff e.target id)), h)

  incoming_all :
      (P : Edge N → Type 0) (id : String) (edges : List (Edge N))
      → AllEdges P (incoming id edges)
      → AllEdges (λ e. e.target ≡ id → P e) edges
  unfolding incoming
  incoming_all P id [] h = tt
  incoming_all P id (e ∷ es) h =
      let (first, rest) = incoming_head P id e (e.target == id) (incoming id es) refl h in
      (first, incoming_all P id es rest)

  -- Each task starts at the origin or later, and each edge to one of the tasks has what it asks.
  abbrev pub Respects : List (String × ℕ) → List (Edge N) → List String → Times N → Type 0
  Respects durations edges ids times =
      ((id : String) → elem id ids ≡ true → IsAtMost numbers.origin (start_at numbers id times))
      × AllEdges
          (λ e.
            elem e.target ids ≡ true
            → IsAtMost (asked durations times e) (start_at numbers e.target times))
          edges

  required_same :
      (type : RelationType) (duration : N) (a b : Times N) (source : String) (lag : N)
      → span source a ≡ span source b
      → required numbers duration a type source lag ≡ required numbers duration b type source lag
  unfolding required start_at finish_at span
  required_same finish_start duration a b source lag h = ap (λ s. numbers.plus s.finish lag) h
  required_same start_start duration a b source lag h = ap (λ s. numbers.plus s.start lag) h
  required_same finish_finish duration a b source lag h =
      ap (λ s. numbers.minus (numbers.plus s.finish lag) duration) h
  required_same start_finish duration a b source lag h =
      ap (λ s. numbers.minus (numbers.plus s.start lag) duration) h

  pub span_first : (id : String) (s : Span N) (times : Times N) → span id ((id, s) ∷ times) ≡ s
  unfolding span value_of
  span_first id s times = rw (eq_refl id) refl

  pub start_is :
      (id : String) (s : Span N) (times : Times N)
      → span id times ≡ s
      → start_at numbers id times ≡ s.start
  unfolding start_at span
  start_is id s times h = ap (λ s. s.start) h

  pub finish_is :
      (id : String) (s : Span N) (times : Times N)
      → span id times ≡ s
      → finish_at numbers id times ≡ s.finish
  unfolding finish_at span
  finish_is id s times h = ap (λ s. s.finish) h

  -- One task: its start is the one computed, and that is enough for it.
  task_respects :
      (durations : List (String × ℕ)) (edges : List (Edge N)) (id : String) (times final : Times N)
      (start : N)
      → start
        ≡ earliest_from numbers
            (duration_of numbers id durations)
            times
            (incoming id edges)
            numbers.origin
      → start_at numbers id final ≡ start
      → IsAtMost numbers.origin (start_at numbers id final)
        × AllEdges
            (λ e.
              e.target ≡ id
              → IsAtMost
                  (required numbers (duration_of numbers id durations) times e.type e.source e.lag)
                  (start_at numbers id final))
            edges
  task_respects durations edges id times final start computed own =
      let duration = duration_of numbers id durations in
      rw (own, computed)
        (
          at_least_start duration times (incoming id edges) numbers.origin origin-IsNumber,
          incoming_all _ id edges
              (at_least_asked duration times (incoming id edges) numbers.origin origin-IsNumber),
        )

  edge_respects :
      (durations : List (String × ℕ)) (e : Edge N) (id : String) (ids : List String)
      (times final : Times N)
      → (e.target ≡ id → span e.source final ≡ span e.source times)
      → (e.target ≡ id
          → IsAtMost
              (required numbers (duration_of numbers id durations) times e.type e.source e.lag)
              (start_at numbers id final))
      → (elem e.target ids ≡ true
          → IsAtMost (asked durations final e) (start_at numbers e.target final))
      → elem e.target (id ∷ ids) ≡ true
      → IsAtMost (asked durations final e) (start_at numbers e.target final)
  edge_respects durations e id ids times final kept own later h =
      elim (Bool-cases (id == e.target)) [
        | inl same ↦
            let t : e.target ≡ id = ground (arith, eq_iff id e.target) in
            let asks =
              ap
                (λ x.
                  required numbers (duration_of numbers x durations) final e.type e.source e.lag)
                t
              ∙ required_same e.type (duration_of numbers id durations) final times e.source e.lag
                  (kept t) in
            subst (λ x. IsAtMost x (start_at numbers e.target final)) (sym asks)
              (subst
                (λ x.
                  IsAtMost
                    (required numbers (duration_of numbers id durations) times e.type e.source
                      e.lag)
                    (start_at numbers x final))
                (sym t) (own t))
        | inr other ↦ later (ground arith)
      ]

  no_targets :
      (P : Edge N → Type 0) (edges : List (Edge N))
      → AllEdges (λ e. elem e.target [] ≡ true → P e) edges
  no_targets P [] = tt
  no_targets P (e ∷ es) = (λ h. absurd (ground arith), no_targets P es)

  three_all :
      (P Q B S : Edge N → Type 0) (edges : List (Edge N))
      → ((e : Edge N) → B e → P e → Q e → S e)
      → AllEdges B edges
      → AllEdges P edges
      → AllEdges Q edges
      → AllEdges S edges
  three_all P Q B S [] f b p q = tt
  three_all P Q B S (e ∷ es) f b p q = (f e b.0 p.0 q.0, three_all P Q B S es f b.1 p.1 q.1)

  forward-Respects :
      (durations : List (String × ℕ)) (edges : List (Edge N)) (ids done : List String)
      (times : Times N)
      → IsSorted edges done ids
      → Respects durations edges ids (forward_pass numbers durations edges ids times)
  unfolding forward_pass
  forward-Respects durations edges [] done times h = (λ id e. cc, no_targets _ edges)
  forward-Respects durations edges (id ∷ ids) done times (fresh, before, later) =
      let duration = duration_of numbers id durations in
      let start = earliest_from numbers duration times (incoming id edges) numbers.origin in
      let s : Span N = record { start = start; finish = numbers.plus start duration } in
      let final = forward_pass numbers durations edges ids ((id, s) ∷ times) in
      let rest = forward-Respects durations edges ids (id ∷ done) ((id, s) ∷ times) later in
      let in_done : elem id (id ∷ done) ≡ true = rw (eq_refl id) refl in
      let own = start_is id s final (
        stays durations edges ids (id ∷ done) ((id, s) ∷ times) id later in_done
        ∙ span_first id s times) in
      let task = task_respects durations edges id times final start refl own in
      (
        λ x h. elim (Bool-cases (id == x)) [
          | inl e ↦
              let p : id ≡ x = ground (arith, eq_iff id x) in
              subst (λ y. IsAtMost numbers.origin (start_at numbers y final)) p task.0
          | inr e ↦ rest.0 x (ground arith)
        ],
        three_all
            (λ e.
              e.target ≡ id
              → IsAtMost (required numbers duration times e.type e.source e.lag)
                  (start_at numbers id final))
            (λ e.
              elem e.target ids ≡ true
              → IsAtMost (asked durations final e) (start_at numbers e.target final))
            (λ e. e.target ≡ id → elem e.source done ≡ true)
            (λ e.
              elem e.target (id ∷ ids) ≡ true
              → IsAtMost (asked durations final e) (start_at numbers e.target final))
            edges
            (λ e b p q.
              edge_respects durations e id ids times final
                (λ t.
                  stays durations edges (id ∷ ids) done times e.source (fresh, before, later) (b t))
                p q)
            before task.1 rest.1,
      )

  -- In an order that is sorted, the times of the forward pass respect every link.
  pub forward_pass-Respects :
      (durations : List (String × ℕ)) (edges : List (Edge N)) (ids : List String)
      → IsSorted edges [] ids
      → Respects durations edges ids (forward_pass numbers durations edges ids [])
  forward_pass-Respects durations edges ids sorted =
      forward-Respects durations edges ids [] [] sorted
