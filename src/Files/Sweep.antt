-- ===== src/Files/Sweep.antt =====
-- Recovery may itself be cut short or repeated, and a sweep repairs exactly the targets it has found.
use cpp_wiki.Prelude.{
  ℕ, zero, suc, not, ◌&&◌, ◌||◌, is_some, ◌≡◌, refl, sym, ap, ◌∙◌, String, Bool, true, false,
  Option, none, some, List, [], ◌∷◌, arith, eq_iff, ◌==◌, Bool-cases, inl, inr,
}
use cpp_wiki.Files.{
  Slot, perform, perform_all, repairs, reconcile_interrupted_write, Directory, reconcile_at,
  sweep_interrupted_writes,
}

-- A recovery has at most two operations, of which none, the first or the second may throw.
resumes_cases :
    (target temp backup : Option String) (n : ℕ)
    → let s : Slot = record { target = target; temp = temp; backup = backup } in
      let whole = reconcile_interrupted_write none s in
      (reconcile_interrupted_write none whole ≡ whole)
      × (reconcile_interrupted_write (some n) whole ≡ whole)
      × (reconcile_interrupted_write none (reconcile_interrupted_write (some 0) s) ≡ whole)
      × (reconcile_interrupted_write none (reconcile_interrupted_write (some 1) s) ≡ whole)
      × (reconcile_interrupted_write (some (suc (suc n))) s ≡ whole)
unfolding reconcile_interrupted_write repairs perform_all perform
resumes_cases none none none n = (refl, refl, refl, refl, refl)
resumes_cases none none (some b) n = (refl, refl, refl, refl, refl)
resumes_cases none (some t) none n = (refl, refl, refl, refl, refl)
resumes_cases none (some t) (some b) n = (refl, refl, refl, refl, refl)
resumes_cases (some f) none none n = (refl, refl, refl, refl, refl)
resumes_cases (some f) none (some b) n = (refl, refl, refl, refl, refl)
resumes_cases (some f) (some t) none n = (refl, refl, refl, refl, refl)
resumes_cases (some f) (some t) (some b) n = (refl, refl, refl, refl, refl)

-- A recovery that fails or is cut short after any number of its operations, and is then started again,
-- ends as one that was not interrupted; and after a recovery without a failure another one, whether
-- it fails or not, changes nothing.
pub reconcile_resumes :
    (fault : Option ℕ) (s : Slot)
    → (reconcile_interrupted_write none (reconcile_interrupted_write fault s)
        ≡ reconcile_interrupted_write none s)
      × (reconcile_interrupted_write fault (reconcile_interrupted_write none s)
          ≡ reconcile_interrupted_write none s)
reconcile_resumes none s = let r = resumes_cases s.target s.temp s.backup 0 in (r.0, r.0)
reconcile_resumes (some zero) s = let r = resumes_cases s.target s.temp s.backup 0 in (r.2, r.1)
reconcile_resumes (some (suc zero)) s =
    let r = resumes_cases s.target s.temp s.backup 1 in (r.3, r.1)
reconcile_resumes (some (suc (suc n))) s =
    let r = resumes_cases s.target s.temp s.backup n in
    let again = resumes_cases s.target s.temp s.backup (suc (suc n)) in
    (ap (reconcile_interrupted_write none) r.4 ∙ r.0, again.1)

-- A call of the recovery of a name, and one that does not fail.
pub is_named : String → List (String × Option ℕ) → Bool
is_named name [] = false
is_named name ((n, fault) ∷ calls) = name == n || is_named name calls

pub is_repaired : String → List (String × Option ℕ) → Bool
is_repaired name [] = false
is_repaired name ((n, fault) ∷ calls) = name == n && not (is_some fault) || is_repaired name calls

module _ (name : String) where
  at_same :
      (n : String) (fault : Option ℕ) (d : Directory)
      → (name == n) ≡ true
      → reconcile_at n fault d name ≡ reconcile_interrupted_write fault (d name)
  unfolding reconcile_at
  at_same n fault d h =
      rw h (ap (λ x. reconcile_interrupted_write fault (d x)) (sym ((eq_iff name n).0 h)))

  at_other :
      (n : String) (fault : Option ℕ) (d : Directory)
      → (name == n) ≡ false
      → reconcile_at n fault d name ≡ d name
  unfolding reconcile_at
  at_other n fault d h = rw h refl

  -- A recovered target stays as it is.
  stays :
      (calls : List (String × Option ℕ)) (d : Directory) (s : Slot)
      → d name ≡ reconcile_interrupted_write none s
      → sweep_interrupted_writes calls d name ≡ reconcile_interrupted_write none s
  unfolding sweep_interrupted_writes
  stays [] d s h = h
  stays ((n, fault) ∷ calls) d s h =
      stays calls (reconcile_at n fault d) s (elim (Bool-cases (name == n)) [
        | inl e ↦
            at_same n fault d e
            ∙ ap (reconcile_interrupted_write fault) h
            ∙ (reconcile_resumes fault s).1
        | inr e ↦ at_other n fault d e ∙ h
      ])

  untouched :
      (calls : List (String × Option ℕ)) (d : Directory)
      → is_named name calls ≡ false
      → sweep_interrupted_writes calls d name ≡ d name
  unfolding sweep_interrupted_writes is_named
  untouched [] d h = refl
  untouched ((n, fault) ∷ calls) d h =
      untouched calls (reconcile_at n fault d) (ground arith) ∙ at_other n fault d (ground arith)

  resumed :
      (calls : List (String × Option ℕ)) (d : Directory)
      → reconcile_interrupted_write none (sweep_interrupted_writes calls d name)
        ≡ reconcile_interrupted_write none (d name)
  unfolding sweep_interrupted_writes
  resumed [] d = refl
  resumed ((n, fault) ∷ calls) d =
      resumed calls (reconcile_at n fault d) ∙ elim (Bool-cases (name == n)) [
        | inl e ↦
            ap (reconcile_interrupted_write none) (at_same n fault d e)
            ∙ (reconcile_resumes fault (d name)).0
        | inr e ↦ ap (reconcile_interrupted_write none) (at_other n fault d e)
      ]

  repaired :
      (calls : List (String × Option ℕ)) (d : Directory)
      → is_repaired name calls ≡ true
      → sweep_interrupted_writes calls d name ≡ reconcile_interrupted_write none (d name)
  unfolding sweep_interrupted_writes is_repaired
  repaired [] d h = absurd (ground arith)
  repaired ((n, none) ∷ calls) d h = elim (Bool-cases (name == n)) [
    | inl e ↦ stays calls (reconcile_at n none d) (d name) (at_same n none d e)
    | inr e ↦
        repaired calls (reconcile_at n none d) (ground arith)
        ∙ ap (reconcile_interrupted_write none) (at_other n none d e)
  ]
  repaired ((n, some k) ∷ calls) d h =
      repaired calls (reconcile_at n (some k) d) (ground arith) ∙ elim (Bool-cases (name == n)) [
        | inl e ↦
            ap (reconcile_interrupted_write none) (at_same n (some k) d e)
            ∙ (reconcile_resumes (some k) (d name)).0
        | inr e ↦ ap (reconcile_interrupted_write none) (at_other n (some k) d e)
      ]

-- After a sweep over the collected names, the files of each of them (however often it was collected)
-- are as one recovery of that target without a failure leaves them, if one of the calls for it did
-- not fail; those of every target that was not collected are as before; and whichever calls have
-- failed, a later recovery ends as it would have before the sweep.
pub sweep_exact :
    (calls : List (String × Option ℕ)) (d : Directory) (name : String)
    → let after = sweep_interrupted_writes calls d name in
      (is_repaired name calls ≡ true → after ≡ reconcile_interrupted_write none (d name))
      × (is_named name calls ≡ false → after ≡ d name)
      × (reconcile_interrupted_write none after ≡ reconcile_interrupted_write none (d name))
sweep_exact calls d name = (repaired name calls d, untouched name calls d, resumed name calls d)
