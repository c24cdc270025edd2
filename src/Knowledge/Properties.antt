-- ===== src/Knowledge/Properties.antt =====
-- What the validators of properties accept, said as conditions.
use cpp_wiki.Prelude.{
  ◌≡◌, ◌≢◌, ◌↔◌, ◌⊎◌, refl, String, Bool, true, false, not, ◌&&◌, none, List, [], ◌∷◌, arith, ◌==◌,
  eq_iff, elem, length, eqb, Distinct, All,
}
use cpp_wiki.Knowledge.{
  PropertyValueKind, number, checkbox, select, multi_select, tags, relation, PropertyDefinition,
  PagePropertyValue,
}
use cpp_wiki.Knowledge.Validation.{
  needs_options, is_single_value_kind, is_checkbox, is_number, has_undeclared, no_values, front,
  validate_property_definition, validate_page_property_value,
}
use cpp_wiki.Knowledge.Checks.{
  AllOf, NonEmpty, NonBlank, NonBlankIfGiven, IsAudited, accepted, tested, after-none, both_fail,
  implied, one_of, unless, required, non_empty, non_blank, non_blank_if_given, same_text, audited,
  no_duplicate_or_blank, some_values,
}

-- The kinds whose values are chosen among options.
abbrev pub TakesOptions : PropertyValueKind → Type 0
TakesOptions select = Unit
TakesOptions multi_select = Unit
TakesOptions _ = ⊥

takes_options : (k : PropertyValueKind) → (needs_options k ≡ true) ↔ TakesOptions k
unfolding needs_options
takes_options select = (λ h. tt, λ h. refl)
takes_options multi_select = (λ h. tt, λ h. refl)
takes_options _ = (λ h. cc, λ h. elim h [ ])

takes_no_options : (k : PropertyValueKind) → (needs_options k ≡ false) ↔ ¬ TakesOptions k
unfolding needs_options
takes_no_options select = (λ h _. cc, λ h. absurd (h tt))
takes_no_options multi_select = (λ h _. cc, λ h. absurd (h tt))
takes_no_options _ = (λ h e. elim e [ ], λ h. refl)

no_options {ℓ} : {A : Type ℓ} (xs : List A) → (no_values xs ≡ true) ↔ (xs ≡ [])
no_options [] = (λ h. refl, λ h. refl)
no_options (x ∷ xs) = (λ h. cc, λ h. cc)

abbrev pub IsPropertyDefinition : PropertyDefinition → Type 0
IsPropertyDefinition d = AllOf (
    (NonEmpty d.id × NonEmpty d.workspace_id)
    ∷ NonBlank d.name
    ∷ NonBlankIfGiven d.group_name
    ∷ IsAudited d.audit
    ∷ (TakesOptions d.value_kind → d.options ≢ [])
    ∷ (¬ TakesOptions d.value_kind → d.options ≡ [])
    ∷ (All NonBlank d.options × Distinct d.options)
    ∷ [])

-- A property definition is accepted exactly when its id and workspace are not empty, its name and
-- any group name are not blank, its audit metadata is complete, it has options if it is a select or
-- multi-select and none otherwise, and the options are not blank and pairwise distinct.
pub validate_property_definition_iff :
    (d : PropertyDefinition) → (validate_property_definition d ≡ none) ↔ IsPropertyDefinition d
unfolding validate_property_definition
validate_property_definition_iff d =
    tested _ _ (both_fail (non_empty d.id) (non_empty d.workspace_id)) (
      tested _ _ (non_blank d.name) (
        tested _ _ (non_blank_if_given d.group_name) (
          tested _ _ (audited d.audit) (
            tested _ _ (implied (takes_options d.value_kind) (some_values d.options)) (
              tested _ _ (unless (takes_no_options d.value_kind) (no_options d.options))
                (tested _ _ (no_duplicate_or_blank d.options) accepted))))))

abbrev pub IsSingle : PropertyValueKind → Type 0
IsSingle multi_select = ⊥
IsSingle tags = ⊥
IsSingle relation = ⊥
IsSingle _ = Unit

IsSingle-kind : (k : PropertyValueKind) → (is_single_value_kind k ≡ true) ↔ IsSingle k
unfolding is_single_value_kind
IsSingle-kind multi_select = (λ h. cc, λ h. elim h [ ])
IsSingle-kind tags = (λ h. cc, λ h. elim h [ ])
IsSingle-kind relation = (λ h. cc, λ h. elim h [ ])
IsSingle-kind _ = (λ h. tt, λ h. refl)

checkbox_kind : (k : PropertyValueKind) → (is_checkbox k ≡ true) ↔ (k ≡ checkbox)
unfolding is_checkbox
checkbox_kind checkbox = (λ h. refl, λ h. refl)
checkbox_kind _ = (λ h. cc, λ h. cc)

number_kind : (k : PropertyValueKind) → (is_number k ≡ true) ↔ (k ≡ number)
unfolding is_number
number_kind number = (λ h. refl, λ h. refl)
number_kind _ = (λ h. cc, λ h. cc)

declared :
    (d : PropertyDefinition) (vs : List String)
    → (has_undeclared d vs ≡ false) ↔ All (λ v. elem v d.options ≡ true) vs
unfolding has_undeclared
declared d [] = (λ h. tt, λ h. refl)
declared d (v ∷ vs) = both_fail (required (λ h. h, λ h. h)) (declared d vs)

one_value : (vs : List String) → (not (eqb (length vs) 1) ≡ false) ↔ (length vs ≡ 1)
one_value vs = (λ h. ground arith, λ h. ground arith)

checkbox_values :
    (k : PropertyValueKind) (v : String)
    → ((is_checkbox k && not (v == "true") && not (v == "false")) ≡ false)
      ↔ (k ≡ checkbox → (v ≡ "true") ⊎ (v ≡ "false"))
checkbox_values k v = one_of (checkbox_kind k) (eq_iff v "true") (eq_iff v "false")

module _ (parses_number : String → Bool) where
  abbrev pub IsPagePropertyValue : PagePropertyValue → PropertyDefinition → Type 0
  IsPagePropertyValue v d = AllOf (
      (((NonEmpty v.id × NonEmpty v.workspace_id) × NonEmpty v.page_id)
        × NonEmpty v.property_definition_id)
      ∷ ((v.workspace_id ≡ d.workspace_id) × (v.property_definition_id ≡ d.id))
      ∷ IsAudited v.audit
      ∷ ((v.values ≢ []) × (All NonBlank v.values × Distinct v.values))
      ∷ (IsSingle d.value_kind → length v.values ≡ 1)
      ∷ (d.value_kind ≡ checkbox → (front v.values ≡ "true") ⊎ (front v.values ≡ "false"))
      ∷ (d.value_kind ≡ number → parses_number (front v.values) ≡ true)
      ∷ (TakesOptions d.value_kind → All (λ x. elem x d.options ≡ true) v.values)
      ∷ [])

  -- A value of a page property is accepted exactly when its definition is, its ids are not empty and
  -- name that definition and its workspace, its audit metadata is complete, it has values and they
  -- are not blank and pairwise distinct, a kind that takes one value has exactly one, a checkbox is
  -- "true" or "false", a number is read as a number, and the values of a select or multi-select are
  -- among the declared options.
  pub validate_page_property_value_iff :
      (v : PagePropertyValue) (d : PropertyDefinition)
      → (validate_page_property_value parses_number v d ≡ none)
        ↔ (IsPropertyDefinition d × IsPagePropertyValue v d)
  unfolding validate_page_property_value
  validate_page_property_value_iff v d = after-none _ (validate_property_definition_iff d) (
      tested _ _
        (both_fail
          (both_fail (both_fail (non_empty v.id) (non_empty v.workspace_id)) (non_empty v.page_id))
          (non_empty v.property_definition_id))
        (tested _ _
          (both_fail (same_text v.workspace_id d.workspace_id)
            (same_text v.property_definition_id d.id))
          (tested _ _ (audited v.audit) (
            tested _ _ (both_fail (some_values v.values) (no_duplicate_or_blank v.values)) (
              tested _ _ (implied (IsSingle-kind d.value_kind) (one_value v.values)) (
                tested _ _ (checkbox_values d.value_kind (front v.values)) (
                  tested _ _ (implied (number_kind d.value_kind) (required (λ h. h, λ h. h))) (
                    tested _ _ (implied (takes_options d.value_kind) (declared d v.values))
                      accepted))))))))
