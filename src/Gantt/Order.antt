-- ===== src/Gantt/Order.antt =====
-- The topological sorting puts the source of every link before its target.
use cpp_wiki.Prelude.{
  ◌≡◌, refl, ap, sym, subst, ◌∙◌, inl, inr, ℕ, zero, suc, ℤ, pos, pos_part, String, Bool, true,
  false, List, [], ◌∷◌, ◌++◌, ◌==◌, arith, eq_iff, eq_refl, if◌then◌else◌, elem, Bool-cases,
  append-nil, append_assoc, Distinct, eqb,
}
use cpp_wiki.Gantt.{
  Edge, value_of, visit, outgoing, sort_loop, indegree_of, indegrees, sources_onto, sort_tasks,
}
use cpp_wiki.Gantt.Passes.{AllEdges, IsSorted}
use cpp_wiki.Gantt.Counters.{
  IsFresh, open_edges, open_nothing, all_closed, Counted, visit-Counted, pop-Counted,
}

module _ {N : Type 0} where
  loop_order :
      (edges : List (Edge N)) (fuel : ℕ) (order queue : List String) (r : List (String × ℤ))
      → (sort_loop edges fuel order queue r).topo_order
        ≡ order ++ (sort_loop edges fuel [] queue r).topo_order
  unfolding sort_loop
  loop_order edges zero order queue r = sym (append-nil order)
  loop_order edges (suc fuel) order [] r = sym (append-nil order)
  loop_order edges (suc fuel) order (id ∷ rest) r =
      let after = visit (outgoing id edges) (rest, r) in
      loop_order edges fuel (order ++ id ∷ []) after.0 after.1
      ∙ append_assoc order (id ∷ []) _
      ∙ ap (λ l. order ++ l) (sym (loop_order edges fuel (id ∷ []) after.0 after.1))

  loop-IsSorted :
      (edges : List (Edge N)) (fuel : ℕ) (done queue : List String) (r : List (String × ℤ))
      → Counted edges done queue r []
      → IsSorted edges done (sort_loop edges fuel [] queue r).topo_order
  unfolding sort_loop indegree_of
  loop-IsSorted edges zero done queue r h = tt
  loop-IsSorted edges (suc fuel) done [] r h = tt
  loop-IsSorted edges (suc fuel) done (id ∷ rest) r h =
      let after = visit (outgoing id edges) (rest, r) in
      let closed : open_edges done id edges ≡ 0 =
        omega (arith, ap pos_part (sym (h.0 id) ∙ h.1 id (ground (arith, eq_refl id)))) in
      subst (IsSorted edges done) (sym (loop_order edges fuel (id ∷ []) after.0 after.1)) (
        h.2.0,
        all_closed done id edges closed,
        loop-IsSorted edges fuel (id ∷ done) after.0 after.1 (
            visit-Counted edges (outgoing id edges) (id ∷ done) rest r
              (pop-Counted edges id done rest r h)),
      )

  indegrees_known :
      (x : String) (ids : List String) (edges : List (Edge N))
      → elem x ids ≡ true
      → value_of (pos 0) x (indegrees ids edges) ≡ pos (indegree_of x edges)
  unfolding indegrees value_of
  indegrees_known x [] edges h = absurd (ground arith)
  indegrees_known x (id ∷ ids) edges h = elim (Bool-cases (id == x)) [
    | inl k ↦
        let p : id ≡ x = ground (arith, eq_iff id x) in rw k (ap (λ y. pos (indegree_of y edges)) p)
    | inr k ↦ rw k (indegrees_known x ids edges (ground arith))
  ]

  indegrees_other :
      (x : String) (ids : List String) (edges : List (Edge N))
      → elem x ids ≡ false
      → value_of (pos 0) x (indegrees ids edges) ≡ pos 0
  unfolding indegrees value_of
  indegrees_other x [] edges h = refl
  indegrees_other x (id ∷ ids) edges h = elim (Bool-cases (id == x)) [
    | inl k ↦ absurd (ground arith)
    | inr k ↦ rw k (indegrees_other x ids edges (ground arith))
  ]

  no_edges_to :
      (x : String) (ids : List String) (edges : List (Edge N))
      → AllEdges (λ e. elem e.target ids ≡ true) edges
      → elem x ids ≡ false
      → indegree_of x edges ≡ 0
  unfolding indegree_of
  no_edges_to x ids [] a h = refl
  no_edges_to x ids (e ∷ es) (t, a) h = elim (Bool-cases (e.target == x)) [
    | inl k ↦
        let p : e.target ≡ x = ground (arith, eq_iff e.target x) in
        let clash : true ≡ false = sym t ∙ ap (λ y. elem y ids) p ∙ h in absurd (ground arith)
    | inr k ↦ rw k (no_edges_to x ids es a h)
  ]

  indegrees_right :
      (x : String) (ids : List String) (edges : List (Edge N))
      → AllEdges (λ e. elem e.target ids ≡ true) edges
      → value_of (pos 0) x (indegrees ids edges) ≡ pos (indegree_of x edges)
  indegrees_right x ids edges a = elim (Bool-cases (elem x ids)) [
    | inl k ↦ indegrees_known x ids edges k
    | inr k ↦ indegrees_other x ids edges k ∙ ap pos (sym (no_edges_to x ids edges a k))
  ]

  queue_zero :
      (id : String) (edges : List (Edge N)) (queue : List String) (source : Bool)
      → eqb (indegree_of id edges) 0 ≡ source
      → ((x : String) → elem x queue ≡ true → indegree_of x edges ≡ 0)
      → (x : String) → elem x (if source then id ∷ queue else queue) ≡ true
      → indegree_of x edges ≡ 0
  queue_zero id edges queue true e z x h = elim (Bool-cases (id == x)) [
    | inl q ↦
        let p : id ≡ x = ground (arith, eq_iff id x) in
        subst (λ y. indegree_of y edges ≡ 0) p (ground arith)
    | inr q ↦ z x (ground arith)
  ]
  queue_zero id edges queue false e z x h = z x h

  sources_zero :
      (ids : List String) (edges : List (Edge N)) (queue : List String)
      → ((x : String) → elem x queue ≡ true → indegree_of x edges ≡ 0)
      → (x : String) → elem x (sources_onto ids edges queue) ≡ true
      → indegree_of x edges ≡ 0
  unfolding sources_onto
  sources_zero [] edges queue z x h = z x h
  sources_zero (id ∷ ids) edges queue z x h =
      sources_zero ids edges (if eqb (indegree_of id edges) 0 then id ∷ queue else queue)
        (queue_zero id edges queue _ refl z) x h

  sources-IsFresh :
      (ids : List String) (edges : List (Edge N)) (queue : List String)
      → Distinct ids
      → IsFresh [] queue
      → ((x : String) → elem x queue ≡ true → elem x ids ≡ false)
      → IsFresh [] (sources_onto ids edges queue)
  unfolding sources_onto
  sources-IsFresh [] edges queue d f apart = f
  sources-IsFresh (id ∷ ids) edges queue (new, d) f apart =
      elim (Bool-cases (eqb (indegree_of id edges) 0)) [
        | inl k ↦
            let out : elem id queue ≡ false = elim (Bool-cases (elem id queue)) [
              | inl q ↦ absurd (ground (arith, apart id q, eq_refl id))
              | inr q ↦ q
            ] in
            let later = λ (x : String) (h : elem x (id ∷ queue) ≡ true).
              elim (Bool-cases (id == x)) as (λ _. elem x ids ≡ false) [
                | inl q ↦
                    let p : id ≡ x = ground (arith, eq_iff id x) in
                    subst (λ y. elem y ids ≡ false) p new
                | inr q ↦ ground (arith, apart x (ground arith))
              ] in
            rw k (sources-IsFresh ids edges (id ∷ queue) d (refl, out, f) (λ x h. later x h))
        | inr k ↦ rw k (sources-IsFresh ids edges queue d f (λ x h. ground (arith, apart x h)))
      ]

  -- In the topological order no task stands twice, and the source of every edge stands before its target.
  pub sort_tasks-IsSorted :
      (ids : List String) (edges : List (Edge N)) (fuel : ℕ)
      → Distinct ids
      → AllEdges (λ e. elem e.target ids ≡ true) edges
      → IsSorted edges [] (sort_tasks fuel ids edges).topo_order
  unfolding sort_tasks indegree_of
  sort_tasks-IsSorted ids edges fuel d a =
      let counts = λ (x : String). indegrees_right x ids edges a in
      loop-IsSorted edges fuel [] (sources_onto ids edges []) (indegrees ids edges) (
        λ x. counts x ∙ ap pos (omega (arith, open_nothing x edges)),
        λ x h. counts x ∙ ap pos (sources_zero ids edges [] (λ y k. absurd (ground arith)) x h),
        sources-IsFresh ids edges [] d tt (λ x h. absurd (ground arith)),
      )
