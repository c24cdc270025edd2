-- ===== src/Storage/Orders.antt =====
-- The sorting that ends every list: what it keeps, and the order that it makes.
use cpp_wiki.Prelude.{
  ◌≡◌, ◌⊎◌, inl, inr, refl, Bool, true, false, List, [], ◌∷◌, arith, Bool-cases, length, suc, ap,
  ◌∙◌, All,
}
use cpp_wiki.Storage.Lists.{insert_sorted, sorted_by}

abbrev pub In : {R : Type 0} → R → List R → Type 0
In r [] = ⊥
In r (q ∷ qs) = (r ≡ q) ⊎ In r qs

module _ {R : Type 0} (goes_before : R → R → Bool) where
  -- No entry is followed at once by one that goes before it.
  abbrev pub FollowsIn : R → List R → Type 0
  FollowsIn r [] = Unit
  FollowsIn r (q ∷ qs) = goes_before q r ≡ false

  abbrev pub Ordered : List R → Type 0
  Ordered [] = Unit
  Ordered (r ∷ rs) = FollowsIn r rs × Ordered rs

  length-insert_sorted :
      (r : R) (rs : List R) → length (insert_sorted goes_before r rs) ≡ suc (length rs)
  unfolding insert_sorted
  length-insert_sorted r [] = refl
  length-insert_sorted r (q ∷ qs) = ground (arith, length-insert_sorted r qs)

  pub length-sorted_by : (rs : List R) → length (sorted_by goes_before rs) ≡ length rs
  unfolding sorted_by
  length-sorted_by [] = refl
  length-sorted_by (r ∷ rs) =
      length-insert_sorted r (sorted_by goes_before rs) ∙ ap suc (length-sorted_by rs)

  inserted : (r x : R) (rs : List R) → (x ≡ r) ⊎ In x rs → In x (insert_sorted goes_before r rs)
  unfolding insert_sorted
  inserted r x [] h = h
  inserted r x (q ∷ qs) h = elim (Bool-cases (goes_before q r)) [
    | inl e ↦ rw e (elim h [
      | inl same ↦ inr (inserted r x qs (inl same))
      | inr (inl first) ↦ inl first
      | inr (inr later) ↦ inr (inserted r x qs (inr later))
    ])
    | inr e ↦ rw e h
  ]

  pub sorted_in : (x : R) (rs : List R) → In x rs → In x (sorted_by goes_before rs)
  unfolding sorted_by
  sorted_in x [] h = absurd h
  sorted_in x (r ∷ rs) (inl same) = inserted r x (sorted_by goes_before rs) (inl same)
  sorted_in x (r ∷ rs) (inr later) =
      inserted r x (sorted_by goes_before rs) (inr (sorted_in x rs later))

  module _ {κ} (P : R → Type κ) where
    inserted_all : (r : R) (rs : List R) → P r → All P rs → All P (insert_sorted goes_before r rs)
    unfolding insert_sorted
    inserted_all r [] h hs = (h, tt)
    inserted_all r (q ∷ qs) h hs = elim (Bool-cases (goes_before q r)) [
      | inl e ↦ rw e (hs.0, inserted_all r qs h hs.1)
      | inr e ↦ rw e (h, hs)
    ]

    pub sorted_all : (rs : List R) → All P rs → All P (sorted_by goes_before rs)
    unfolding sorted_by
    sorted_all [] h = tt
    sorted_all (r ∷ rs) h = inserted_all r (sorted_by goes_before rs) h.0 (sorted_all rs h.1)

  module _ (asym : (a b : R) → goes_before a b ≡ true → goes_before b a ≡ false) where
    follows_inserted :
        (q r : R) (qs : List R)
        → goes_before r q ≡ false
        → FollowsIn q qs
        → FollowsIn q (insert_sorted goes_before r qs)
    unfolding insert_sorted
    follows_inserted q r [] h f = h
    follows_inserted q r (s ∷ ss) h f = elim (Bool-cases (goes_before s r)) [
      | inl e ↦ rw e f
      | inr e ↦ rw e h
    ]

    inserted-Ordered : (r : R) (rs : List R) → Ordered rs → Ordered (insert_sorted goes_before r rs)
    unfolding insert_sorted
    inserted-Ordered r [] h = (tt, tt)
    inserted-Ordered r (q ∷ qs) h = elim (Bool-cases (goes_before q r)) [
      | inl e ↦ rw e (follows_inserted q r qs (asym q r e) h.0, inserted-Ordered r qs h.1)
      | inr e ↦ rw e (e, h)
    ]

    pub sorted_by-Ordered : (rs : List R) → Ordered (sorted_by goes_before rs)
    unfolding sorted_by
    sorted_by-Ordered [] = tt
    sorted_by-Ordered (r ∷ rs) =
        inserted-Ordered r (sorted_by goes_before rs) (sorted_by-Ordered rs)
