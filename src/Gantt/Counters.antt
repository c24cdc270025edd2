-- ===== src/Gantt/Counters.antt =====
-- The counters and the queue while tasks are sorted.
use cpp_wiki.Prelude.{
  ◌≡◌, refl, ap, sym, subst, ◌∙◌, inl, inr, ◌+◌, ℕ, zero, suc, ℤ, pos, negsuc, pos_part, String,
  Bool, true, false, ◌||◌, List, [], ◌∷◌, ◌==◌, arith, eq_iff, eq_refl, if◌then◌else◌, elem,
  Bool-cases,
}
use cpp_wiki.Gantt.{Edge, value_of, before_ℤ, decrement, is_zero, visit, outgoing, indegree_of}
use cpp_wiki.Gantt.Passes.{AllEdges}

-- The value of a counter after it is decremented.
decrement_same :
    (x : String) (r : List (String × ℤ))
    → value_of (pos 0) x (decrement x r) ≡ before_ℤ (value_of (pos 0) x r)
unfolding decrement value_of before_ℤ
decrement_same x [] = rw (eq_refl x) refl
decrement_same x ((key, n) ∷ rest) = elim (Bool-cases (key == x)) [
  | inl e ↦ rw (e, e) refl
  | inr e ↦ rw (e, e) (decrement_same x rest)
]

decrement_other :
    (t x : String) (r : List (String × ℤ))
    → (t == x) ≡ false
    → value_of (pos 0) x (decrement t r) ≡ value_of (pos 0) x r
unfolding decrement value_of
decrement_other t x [] h = rw h refl
decrement_other t x ((key, n) ∷ rest) h = elim (Bool-cases (key == t)) [
  | inl e ↦
      let p : key ≡ t = ground (arith, eq_iff key t) in
      let k : (key == x) ≡ false = ap (λ y. y == x) p ∙ h in rw (e, k) refl
  | inr e ↦ elim (Bool-cases (key == x)) [
    | inl k ↦ rw (e, k) refl
    | inr k ↦ rw (e, k) (decrement_other t x rest h)
  ]
]

-- No text of the queue stands in it twice or among those done.
abbrev pub IsFresh : List String → List String → Type 0
IsFresh done [] = Unit
IsFresh done (q ∷ qs) = (elem q done ≡ false) × (elem q qs ≡ false) × IsFresh done qs

pop-IsFresh :
    (q : String) (done qs : List String)
    → elem q qs ≡ false
    → IsFresh done qs
    → IsFresh (q ∷ done) qs
pop-IsFresh q done [] h f = tt
pop-IsFresh q done (x ∷ qs) h (a, b, c) =
    (ground (arith, eq_iff q x, eq_iff x q), b, pop-IsFresh q done qs (ground arith) c)

zero_is : (n : ℤ) → is_zero n ≡ true → n ≡ pos 0
unfolding is_zero
zero_is (pos zero) h = refl
zero_is (pos (suc n)) h = absurd (ground arith)
zero_is (negsuc n) h = absurd (ground arith)

module _ {N : Type 0} where
  -- How many edges to a task come from a task that is not done.
  pub open_edges : List String → String → List (Edge N) → ℕ
  open_edges done x [] = 0
  open_edges done x (e ∷ es) =
      let n = open_edges done x es in
      if e.target == x then (if elem e.source done then n else suc n) else n

  pub open_nothing : (x : String) (es : List (Edge N)) → open_edges [] x es ≡ indegree_of x es
  unfolding open_edges indegree_of
  open_nothing x [] = refl
  open_nothing x (e ∷ es) = elim (Bool-cases (e.target == x)) [
    | inl h ↦ rw h (ap suc (open_nothing x es))
    | inr h ↦ rw h (open_nothing x es)
  ]

  -- The edges that leave a task are closed when it is done.
  open_split :
      (id : String) (done : List String) (x : String) (es : List (Edge N))
      → elem id done ≡ false
      → open_edges done x es ≡ open_edges (id ∷ done) x es + indegree_of x (outgoing id es)
  unfolding open_edges indegree_of outgoing
  open_split id done x [] h = omega arith
  open_split id done x (e ∷ es) h = elim (Bool-cases (e.source == id)) [
    | inl s ↦
        let p : e.source ≡ id = ground (arith, eq_iff e.source id) in
        let k : elem e.source done ≡ false = ap (λ y. elem y done) p ∙ h in
        let m : (id == e.source) ≡ true = ap (λ y. id == y) p ∙ eq_refl id in
        elim (Bool-cases (e.target == x)) [
          | inl t ↦ ground (arith, open_split id done x es h)
          | inr t ↦ ground (arith, open_split id done x es h)
        ]
    | inr s ↦
        let m : (id == e.source) ≡ false = ground (arith, eq_iff e.source id, eq_iff id e.source) in
        elim (Bool-cases (e.target == x)) [
          | inl t ↦ ground (arith, open_split id done x es h)
          | inr t ↦ ground (arith, open_split id done x es h)
        ]
  ]

  pub all_closed :
      (done : List String) (x : String) (es : List (Edge N))
      → open_edges done x es ≡ 0
      → AllEdges (λ e. e.target ≡ x → elem e.source done ≡ true) es
  unfolding open_edges
  all_closed done x [] h = tt
  all_closed done x (e ∷ es) h = elim (Bool-cases (e.target == x)) [
    | inl t ↦ elim (Bool-cases (elem e.source done)) [
      | inl s ↦ (λ _. s, all_closed done x es (ground arith))
      | inr s ↦ absurd (ground arith)
    ]
    | inr t ↦ (λ p. absurd (ground (arith, eq_iff e.target x)), all_closed done x es (ground arith))
  ]

  -- What holds before each round and within it: the tasks done, those in the queue, the counters, and
  -- the edges still to visit. A counter counts the edges from tasks that are not done.
  abbrev pub Counted :
      List (Edge N) → List String → List String → List (String × ℤ) → List (Edge N) → Type 0
  Counted edges done queue r es =
      ((x : String) → value_of (pos 0) x r ≡ pos (open_edges done x edges + indegree_of x es))
      × ((x : String) → elem x done || elem x queue ≡ true → value_of (pos 0) x r ≡ pos 0)
      × IsFresh done queue

  -- A counter above zero is that of a task neither done nor queued.
  Counted-out :
      (edges es : List (Edge N)) (done queue : List String) (r : List (String × ℤ)) (x : String)
      (n : ℕ)
      → Counted edges done queue r es
      → value_of (pos 0) x r ≡ pos (suc n)
      → (elem x done ≡ false) × (elem x queue ≡ false)
  Counted-out edges es done queue r x n (c, idle, f) h =
      elim (Bool-cases (elem x done || elem x queue)) [
        | inl e ↦ absurd (omega (arith, ap pos_part (sym h ∙ idle x e)))
        | inr e ↦ (ground arith, ground arith)
      ]

  step_counts :
      (edges es : List (Edge N)) (e : Edge N) (done : List String) (r : List (String × ℤ))
      → ((x : String)
          → value_of (pos 0) x r ≡ pos (open_edges done x edges + indegree_of x (e ∷ es)))
      → (x : String)
      → value_of (pos 0) x (decrement e.target r) ≡ pos (open_edges done x edges + indegree_of x es)
  unfolding indegree_of before_ℤ
  step_counts edges es e done r c x = elim (Bool-cases (e.target == x)) [
    | inl k ↦
        let t = e.target in
        let m = open_edges done t edges + indegree_of t es in
        let p : t ≡ x = ground (arith, eq_iff t x) in
        let at_t : value_of (pos 0) t r ≡ pos (suc m) =
          c t ∙ ap pos (rw (eq_refl t) (omega arith)) in
        subst
          (λ y.
            value_of (pos 0) y (decrement t r) ≡ pos (open_edges done y edges + indegree_of y es))
          p (decrement_same t r ∙ ap before_ℤ at_t)
    | inr k ↦ decrement_other e.target x r k ∙ c x ∙ ap pos (rw k refl)
  ]

  step_out :
      (edges es : List (Edge N)) (e : Edge N) (done queue : List String) (r : List (String × ℤ))
      → Counted edges done queue r (e ∷ es)
      → (elem e.target done ≡ false) × (elem e.target queue ≡ false)
  unfolding indegree_of
  step_out edges es e done queue r h =
      let t = e.target in
      Counted-out edges (e ∷ es) done queue r t (open_edges done t edges + indegree_of t es) h
        (h.0 t ∙ ap pos (rw (eq_refl t) (omega arith)))

  step-Counted :
      (edges es : List (Edge N)) (e : Edge N) (done queue : List String) (r : List (String × ℤ))
      (freed : Bool)
      → is_zero (value_of (pos 0) e.target (decrement e.target r)) ≡ freed
      → Counted edges done queue r (e ∷ es)
      → Counted edges done (if freed then e.target ∷ queue else queue) (decrement e.target r) es
  step-Counted edges es e done queue r true z (c, idle, f) =
      let out = step_out edges es e done queue r (c, idle, f) in
      (
        step_counts edges es e done r c,
        λ x h. elim (Bool-cases (e.target == x)) [
          | inl k ↦
              let p : e.target ≡ x = ground (arith, eq_iff e.target x) in
              subst (λ y. value_of (pos 0) y (decrement e.target r) ≡ pos 0) p (zero_is _ z)
          | inr k ↦ decrement_other e.target x r k ∙ idle x (ground arith)
        ],
        (out.0, out.1, f),
      )
  step-Counted edges es e done queue r false z (c, idle, f) =
      let out = step_out edges es e done queue r (c, idle, f) in
      (
        step_counts edges es e done r c,
        λ x h. elim (Bool-cases (e.target == x)) [
          | inl k ↦
              let p : e.target ≡ x = ground (arith, eq_iff e.target x) in
              let none_here : elem x done || elem x queue ≡ false =
                subst (λ y. elem y done || elem y queue ≡ false) p (ground arith) in
              absurd (ground arith)
          | inr k ↦ decrement_other e.target x r k ∙ idle x h
        ],
        f,
      )

  pub visit-Counted :
      (edges es : List (Edge N)) (done queue : List String) (r : List (String × ℤ))
      → Counted edges done queue r es
      → let after = visit es (queue, r) in Counted edges done after.0 after.1 []
  unfolding visit
  visit-Counted edges [] done queue r h = h
  visit-Counted edges (e ∷ es) done queue r h =
      visit-Counted edges es done _ (decrement e.target r)
        (step-Counted edges es e done queue r _ refl h)

  -- The first of the queue is done.
  pub pop-Counted :
      (edges : List (Edge N)) (id : String) (done queue : List String) (r : List (String × ℤ))
      → Counted edges done (id ∷ queue) r []
      → Counted edges (id ∷ done) queue r (outgoing id edges)
  unfolding indegree_of
  pop-Counted edges id done queue r (c, idle, (a, b, f)) = (
    λ x. c x ∙ ap pos (omega (arith, open_split id done x edges a)),
    λ x h. idle x (ground arith),
    pop-IsFresh id done queue b f,
  )
