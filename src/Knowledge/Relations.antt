-- ===== src/Knowledge/Relations.antt =====
-- Relation types, and relations between pages: what is accepted, and the normal form of a symmetric
-- relation.
use Prim.Native.Char.{code}
use Prim.Native.Nat.{Ordering}
use Prim.Native.Nat
use Prim.Native.String
use Prim.Native.String.compare
use text.Mathlib.TextEquality.{path_by_compare}
use mathlib.Core.Option.{some-injective}
use cpp_wiki.Prelude.{
  ℕ, ◌≡◌, ◌≢◌, ◌↔◌, ◌⊎◌, refl, sym, ap, ◌∙◌, String, true, false, not, ◌&&◌, Option, none, some, [],
  ◌∷◌, arith, ◌==◌, eq_iff, if◌then◌else◌, Bool-cases, inl, inr,
}
use cpp_wiki.Knowledge.{
  RelationDirection, directed, symmetric, RelationType, ArtifactKind, page, PageRelation,
}
use cpp_wiki.Knowledge.Validation.{
  after, is_directed, is_page, blank_or_missing, text_lt, page_relation_failure, swap_endpoints,
  normalize_endpoints, judged, validate_relation_type, normalize_and_validate_page_relation,
}
use cpp_wiki.Knowledge.Checks.{
  AllOf, NonEmpty, NonBlank, IsAudited, accepted, tested, after-none, both_fail, implied, non_empty,
  non_blank, same_text, audited, absent,
}

-- A name that is there and not blank.
abbrev pub NonBlankGiven : Option String → Type 0
NonBlankGiven none = ⊥
NonBlankGiven (some s) = NonBlank s

non_blank_given : (o : Option String) → (blank_or_missing o ≡ false) ↔ NonBlankGiven o
non_blank_given none = (λ h. cc, λ h. elim h [ ])
non_blank_given (some s) = non_blank s

directed_iff : (d : RelationDirection) → (is_directed d ≡ true) ↔ (d ≡ directed)
unfolding is_directed
directed_iff directed = (λ h. refl, λ h. refl)
directed_iff symmetric = (λ h. cc, λ h. cc)

symmetric_iff : (d : RelationDirection) → (not (is_directed d) ≡ true) ↔ (d ≡ symmetric)
unfolding is_directed
symmetric_iff directed = (λ h. cc, λ h. cc)
symmetric_iff symmetric = (λ h. refl, λ h. refl)

abbrev pub IsRelationType : RelationType → Type 0
IsRelationType t = AllOf (
    (NonEmpty t.id × NonEmpty t.workspace_id)
    ∷ NonBlank t.name
    ∷ IsAudited t.audit
    ∷ (t.direction ≡ directed → NonBlankGiven t.inverse_name)
    ∷ (t.direction ≡ symmetric → t.inverse_name ≡ none)
    ∷ [])

-- A relation type is accepted exactly when its id and workspace are not empty, its name is not blank,
-- its audit metadata is complete, and it has an inverse name that is not blank if it is directed
-- and none if it is symmetric.
pub validate_relation_type_iff :
    (t : RelationType) → (validate_relation_type t ≡ none) ↔ IsRelationType t
unfolding validate_relation_type
validate_relation_type_iff t = tested _ _ (both_fail (non_empty t.id) (non_empty t.workspace_id)) (
    tested _ _ (non_blank t.name) (
      tested _ _ (audited t.audit) (
        tested _ _ (implied (directed_iff t.direction) (non_blank_given t.inverse_name))
          (tested _ _ (implied (symmetric_iff t.direction) (absent t.inverse_name)) accepted))))

page_iff : (k : ArtifactKind) → (not (is_page k) ≡ false) ↔ (k ≡ page)
unfolding is_page
page_iff page = (λ h. refl, λ h. refl)
page_iff _ = (λ h. cc, λ h. cc)

differ_iff : (s t : String) → ((s == t) ≡ false) ↔ (s ≢ t)
differ_iff s t = (λ h e. ground (arith, eq_iff s t), λ h. ground (arith, eq_iff s t))

abbrev pub IsPageRelation : PageRelation → RelationType → Type 0
IsPageRelation r t = AllOf (
    ((((NonEmpty r.id × NonEmpty r.workspace_id) × NonEmpty r.relation_type_id)
        × NonEmpty r.source_page_id)
      × NonEmpty r.target_page_id)
    ∷ ((r.workspace_id ≡ t.workspace_id) × (r.relation_type_id ≡ t.id))
    ∷ ((r.source_kind ≡ page) × (r.target_kind ≡ page))
    ∷ IsAudited r.audit
    ∷ (r.source_page_id ≢ r.target_page_id)
    ∷ [])

page_relation_failure_iff :
    (r : PageRelation) (t : RelationType) → (page_relation_failure r t ≡ none) ↔ IsPageRelation r t
unfolding page_relation_failure
page_relation_failure_iff r t =
    tested _ _
      (both_fail
        (both_fail
          (both_fail (both_fail (non_empty r.id) (non_empty r.workspace_id))
            (non_empty r.relation_type_id))
          (non_empty r.source_page_id))
        (non_empty r.target_page_id))
      (tested _ _
        (both_fail (same_text r.workspace_id t.workspace_id) (same_text r.relation_type_id t.id))
        (tested _ _ (both_fail (page_iff r.source_kind) (page_iff r.target_kind)) (
          tested _ _ (audited r.audit)
            (tested _ _ (differ_iff r.source_page_id r.target_page_id) accepted))))

normalize_endpoints_cases :
    (r : PageRelation) (t : RelationType)
    → (normalize_endpoints r t ≡ r) ⊎ (normalize_endpoints r t ≡ swap_endpoints r)
unfolding normalize_endpoints
normalize_endpoints_cases r t =
    elim (Bool-cases (not (is_directed t.direction) && text_lt r.target_page_id r.source_page_id)) [
      | inl e ↦ inr (rw e)
      | inr e ↦ inl (rw e)
    ]

decided :
    (failure : Option String) (r : PageRelation) (t : RelationType)
    → let (r', e) = judged failure r t in
      ((e ≡ none) ↔ (failure ≡ none))
      × (e ≢ none → r' ≡ some r)
      × (e ≡ none → r' ≡ some (normalize_endpoints r t))
unfolding normalize_and_validate_page_relation
decided none r t = ((λ h. refl, λ h. refl), λ h. absurd (h refl), λ h. refl)
decided (some m) r t = ((λ h. cc, λ h. cc), λ h. refl, λ h. cc)

-- A page relation is accepted exactly when its relation type is valid and its ids, workspace, kinds,
-- audit metadata and distinct endpoints are in order; a rejected relation is left as it was, and an
-- accepted one differs at most in the order of its endpoints.
pub normalize_and_validate_page_relation_iff :
    (r : PageRelation) (t : RelationType)
    → let (r', e) = normalize_and_validate_page_relation (some r) t in
      ((e ≡ none) ↔ (IsRelationType t × IsPageRelation r t))
      × (e ≢ none → r' ≡ some r)
      × (e ≡ none → (r' ≡ some r) ⊎ (r' ≡ some (swap_endpoints r)))
unfolding normalize_and_validate_page_relation
normalize_and_validate_page_relation_iff r t =
    let failure =
      after "Relation type is invalid: " (validate_relation_type t) (page_relation_failure r t) in
    let (outcome, refused, changed) = decided failure r t in
    let rules = after-none _ (validate_relation_type_iff t) (page_relation_failure_iff r t) in
    (
      (λ h. rules.0 (outcome.0 h), λ h. outcome.1 (rules.1 h)),
      refused,
      λ h. elim (normalize_endpoints_cases r t) [
        | inl same ↦ inl (changed h ∙ ap some same)
        | inr swapped ↦ inr (changed h ∙ ap some swapped)
      ],
    )

-- The order of texts: comparing the other way round turns the answer round.
flip : Ordering → Ordering
flip Ordering.lt = Ordering.gt
flip Ordering.eq = Ordering.eq
flip Ordering.gt = Ordering.lt

first_differs :
    (m n : ℕ) (o : Ordering)
    → String.then (Nat.compare n m) (flip o) ≡ flip (String.then (Nat.compare m n) o)
unfolding flip
first_differs m n o = ground arith

compare-flip : (s t : String) → String.compare t s ≡ flip (String.compare s t)
unfolding flip
compare-flip String.[] String.[] = refl
compare-flip String.[] (String.◌∷◌ d t) = rw (compare.cons-nil d t, compare.nil-cons d t)
compare-flip (String.◌∷◌ c s) String.[] = rw (compare.cons-nil c s, compare.nil-cons c s)
compare-flip (String.◌∷◌ c s) (String.◌∷◌ d t) =
    rw (compare.cons-cons c d s t, compare.cons-cons d c t s, compare-flip s t)
      (first_differs (code c) (code d) (String.compare s t))

pub text_lt_asym : (s t : String) → text_lt s t ≡ true → text_lt t s ≡ false
unfolding text_lt flip
text_lt_asym s t h = ground (arith, compare-flip s t)

pub text_lt_total : (s t : String) → s ≢ t → text_lt s t ≡ false → text_lt t s ≡ true
unfolding text_lt flip
text_lt_total s t ne h = ground (arith, compare-flip s t, path_by_compare s t)

swap_endpoints-IsPageRelation :
    (r : PageRelation) (t : RelationType) → IsPageRelation r t → IsPageRelation (swap_endpoints r) t
unfolding swap_endpoints
swap_endpoints-IsPageRelation r t
      (((ids, source), target), (scope, (kinds, (audit, (differ, _))))) =
    (((ids, target), source), (scope, (kinds, (audit, ((λ e. differ (sym e)), tt)))))

accepts :
    (r : PageRelation) (t : RelationType)
    → IsRelationType t
    → IsPageRelation r t
    → normalize_and_validate_page_relation (some r) t ≡ (some (normalize_endpoints r t), none)
unfolding normalize_and_validate_page_relation
accepts r t type_ok ok =
    rw (
      (after-none _ (validate_relation_type_iff t) (page_relation_failure_iff r t)).1 (type_ok, ok))

-- The relation with the smaller endpoint first.
sorted : PageRelation → PageRelation
sorted r = if text_lt r.target_page_id r.source_page_id then swap_endpoints r else r

normalize_sorted :
    (r : PageRelation) (t : RelationType)
    → t.direction ≡ symmetric
    → normalize_endpoints r t ≡ sorted r
unfolding normalize_endpoints sorted
normalize_sorted r t e = rw e

sorted-swap :
    (r : PageRelation) → r.source_page_id ≢ r.target_page_id → sorted (swap_endpoints r) ≡ sorted r
unfolding sorted swap_endpoints
sorted-swap r ne = ground (
  arith,
  text_lt_asym r.source_page_id r.target_page_id,
  text_lt_total r.target_page_id r.source_page_id,
)

sorted_order :
    (r : PageRelation)
    → r.source_page_id ≢ r.target_page_id
    → text_lt (sorted r).source_page_id (sorted r).target_page_id ≡ true
unfolding sorted swap_endpoints
sorted_order r ne = ground (arith, text_lt_total r.target_page_id r.source_page_id)

sorted-sorted :
    (r : PageRelation) → r.source_page_id ≢ r.target_page_id → sorted (sorted r) ≡ sorted r
unfolding sorted swap_endpoints
sorted-sorted r ne = ground (arith, text_lt_asym r.target_page_id r.source_page_id)

sorted-IsPageRelation :
    (r : PageRelation) (t : RelationType) → IsPageRelation r t → IsPageRelation (sorted r) t
unfolding sorted
sorted-IsPageRelation r t ok = elim (Bool-cases (text_lt r.target_page_id r.source_page_id)) [
  | inl e ↦ rw e (swap_endpoints-IsPageRelation r t ok)
  | inr e ↦ rw e ok
]

-- For an accepted symmetric relation the order in which the endpoints were given does not matter:
-- the relation and the one with its endpoints swapped are stored alike, with the smaller endpoint
-- first, and storing again changes nothing.
pub normalize_symmetric :
    (r : PageRelation) (t : RelationType)
    → t.direction ≡ symmetric
    → IsRelationType t
    → IsPageRelation r t
    → let stored = normalize_and_validate_page_relation (some r) t in
      (normalize_and_validate_page_relation (some (swap_endpoints r)) t ≡ stored)
      × ((q : PageRelation)
          → stored.0 ≡ some q
          → (text_lt q.source_page_id q.target_page_id ≡ true)
            × (normalize_and_validate_page_relation (some q) t ≡ stored))
normalize_symmetric r t sym_t type_ok ok =
    let differ = ok.1.1.1.1.0 in
    let swapped_ok = swap_endpoints-IsPageRelation r t ok in
    let sorted_ok = sorted-IsPageRelation r t ok in
    rw
      (
        accepts r t type_ok ok,
        accepts (swap_endpoints r) t type_ok swapped_ok,
        normalize_sorted r t sym_t,
        normalize_sorted (swap_endpoints r) t sym_t,
        sorted-swap r differ,
      )
      (
        refl,
        λ q e.
            let same = some-injective _ _ e in
            rw
              (
                ← same,
                accepts (sorted r) t type_ok sorted_ok,
                normalize_sorted (sorted r) t sym_t,
                sorted-sorted r differ,
              )
              (sorted_order r differ, refl),
      )
