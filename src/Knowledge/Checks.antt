-- ===== src/Knowledge/Checks.antt =====
-- Chains of tests read as conditions: a rule for each way to build a test, so that what a validator
-- accepts is derived along its text.
use cpp_wiki.Prelude.{
  ◌≡◌, ◌≢◌, ◌↔◌, ◌⊎◌, refl, String, Bool, true, false, not, ◌&&◌, ◌||◌, Option, none, some, List,
  [], ◌∷◌, arith, ◌==◌, eq_iff, is_empty, is_blank, is_some, Distinct, All, Bool-cases, inl, inr,
}
use cpp_wiki.Knowledge.{AuditMetadata}
use cpp_wiki.Knowledge.Validation.{
  first_failure, after, has_audit_metadata, has_blank, has_duplicate, has_duplicate_or_blank_values,
  no_values, blank_if_given,
}

-- All the conditions of a list.
abbrev pub AllOf : List (Type 0) → Type 0
AllOf [] = Unit
AllOf (P ∷ Ps) = P × AllOf Ps

abbrev pub NonEmpty : String → Type 0
NonEmpty s = s ≢ ""

abbrev pub NonBlank : String → Type 0
NonBlank s = is_blank s ≡ false

abbrev pub NonBlankIfGiven : Option String → Type 0
NonBlankIfGiven none = Unit
NonBlankIfGiven (some s) = NonBlank s

abbrev pub IsAudited : AuditMetadata → Type 0
IsAudited a = AllOf (
    NonEmpty a.created_at
    ∷ NonEmpty a.updated_at
    ∷ NonEmpty a.created_by
    ∷ NonEmpty a.updated_by
    ∷ [])

pub accepted : (first_failure [] ≡ none) ↔ Unit {0}
unfolding first_failure
accepted = (λ h. tt, λ h. refl)

module _ {P Q : Type 0} where
  pub tested :
      {b : Bool} (message : String) (rest : List (Bool × String))
      → (b ≡ false) ↔ P
      → (first_failure rest ≡ none) ↔ Q
      → (first_failure ((b, message) ∷ rest) ≡ none) ↔ (P × Q)
  unfolding first_failure
  tested {b = true} message rest p q = (λ h. cc, λ h. cc (p.1 h.0))
  tested {b = false} message rest p q = (λ h. (p.0 refl, q.0 h), λ h. q.1 h.1)

  pub after-none :
      (prefix : String) {first rest : Option String}
      → (first ≡ none) ↔ P
      → (rest ≡ none) ↔ Q
      → (after prefix first rest ≡ none) ↔ (P × Q)
  unfolding after
  after-none prefix {first = some m} p q = (λ h. cc, λ h. cc (p.1 h.0))
  after-none prefix {first = none} p q = (λ h. (p.0 refl, q.0 h), λ h. q.1 h.1)

  pub both_fail : {a b : Bool} → (a ≡ false) ↔ P → (b ≡ false) ↔ Q → ((a || b) ≡ false) ↔ (P × Q)
  both_fail {a = true} p q = (λ h. cc, λ h. cc (p.1 h.0))
  both_fail {a = false} p q = (λ h. (p.0 refl, q.0 h), λ h. q.1 h.1)

  pub implied : {a b : Bool} → (a ≡ true) ↔ P → (b ≡ false) ↔ Q → ((a && b) ≡ false) ↔ (P → Q)
  implied {a = true} p q = (λ h _. q.0 h, λ f. q.1 (f (p.0 refl)))
  implied {a = false} p q = (λ h x. cc (p.1 x), λ f. refl)

  pub unless :
      {a b : Bool} → (a ≡ false) ↔ P → (b ≡ true) ↔ Q → ((not a && not b) ≡ false) ↔ (P → Q)
  unless {a = true} {b} p q = (λ h x. cc (p.1 x), λ f. refl)
  unless {a = false} {b = true} p q = (λ h _. q.0 refl, λ f. refl)
  unless {a = false} {b = false} p q = (λ h _. cc, λ f. cc (q.1 (f (p.0 refl))))

pub one_of :
    {P Q R : Type 0} {a b c : Bool}
    → (a ≡ true) ↔ P
    → (b ≡ true) ↔ Q
    → (c ≡ true) ↔ R
    → ((a && not b && not c) ≡ false) ↔ (P → Q ⊎ R)
one_of {a = true} {b = true} p q r = (λ h _. inl (q.0 refl), λ f. refl)
one_of {a = true} {b = false} {c = true} p q r = (λ h _. inr (r.0 refl), λ f. refl)
one_of {a = true} {b = false} {c = false} p q r =
    (λ h. cc, λ f. elim (f (p.0 refl)) [ inl x ↦ cc (q.1 x) | inr x ↦ cc (r.1 x) ])
one_of {a = false} {b} {c} p q r = (λ h x. cc (p.1 x), λ f. refl)

pub required : {P : Type 0} {a : Bool} → (a ≡ true) ↔ P → (not a ≡ false) ↔ P
required {a = true} p = (λ h. p.0 refl, λ h. refl)
required {a = false} p = (λ h. cc, λ h. cc (p.1 h))

pub non_empty : (s : String) → (is_empty s ≡ false) ↔ NonEmpty s
non_empty s = (λ h. ground (arith, eq_iff s ""), λ h. ground (arith, eq_iff s ""))

pub non_blank : (s : String) → ((is_empty s || is_blank s) ≡ false) ↔ NonBlank s
unfolding is_blank
non_blank s = elim (Bool-cases (is_empty s)) [
  | inl e ↦ rw ((eq_iff s "").0 e) (λ h. h, λ h. h)
  | inr e ↦ rw e (λ h. h, λ h. h)
]

pub non_blank_if_given : (o : Option String) → (blank_if_given o ≡ false) ↔ NonBlankIfGiven o
non_blank_if_given none = (λ h. tt, λ h. refl)
non_blank_if_given (some s) = non_blank s

pub same_text : (s t : String) → (not (s == t) ≡ false) ↔ (s ≡ t)
same_text s t = required (eq_iff s t)

all-IsAudited : (a : AuditMetadata) → (has_audit_metadata a ≡ true) ↔ IsAudited a
unfolding has_audit_metadata
all-IsAudited a =
    let c = eq_iff a.created_at "" in
    let u = eq_iff a.updated_at "" in
    let d = eq_iff a.created_by "" in
    let v = eq_iff a.updated_by "" in
    (λ h. ground (arith, c, u, d, v), λ h. ground (arith, c, u, d, v))

pub audited : (a : AuditMetadata) → (not (has_audit_metadata a) ≡ false) ↔ IsAudited a
audited a = required (all-IsAudited a)

no_blank : (vs : List String) → (has_blank vs ≡ false) ↔ All NonBlank vs
unfolding has_blank
no_blank [] = (λ h. tt, λ h. refl)
no_blank (v ∷ vs) = both_fail (non_blank v) (no_blank vs)

pub no_duplicate : (vs : List String) → (has_duplicate vs ≡ false) ↔ Distinct vs
unfolding has_duplicate
no_duplicate [] = (λ h. tt, λ h. refl)
no_duplicate (v ∷ vs) = both_fail (λ h. h, λ h. h) (no_duplicate vs)

pub no_duplicate_or_blank :
    (vs : List String)
    → (has_duplicate_or_blank_values vs ≡ false) ↔ (All NonBlank vs × Distinct vs)
unfolding has_duplicate_or_blank_values
no_duplicate_or_blank vs = both_fail (no_blank vs) (no_duplicate vs)

pub some_values {ℓ} : {A : Type ℓ} (xs : List A) → (no_values xs ≡ false) ↔ (xs ≢ [])
some_values [] = (λ h. cc, λ h. absurd (h refl))
some_values (x ∷ xs) = (λ h e. cc, λ h. refl)

pub absent {ℓ} : {A : Type ℓ} (o : Option A) → (is_some o ≡ false) ↔ (o ≡ none)
absent none = (λ h. refl, λ h. refl)
absent (some a) = (λ h. cc, λ h. cc)

pub present {ℓ} : {A : Type ℓ} (o : Option A) → (not (is_some o) ≡ false) ↔ (o ≢ none)
present none = (λ h. cc, λ h. absurd (h refl))
present (some a) = (λ h e. cc, λ h. refl)
