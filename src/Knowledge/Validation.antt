-- ===== src/Knowledge/Validation.antt =====
-- knowledge/knowledge_record.cc: the validators. A chain of `if (test) return message;` is a list
-- of pairs of a test and its message, and the answer is the first message whose test holds.
use Prim.Native.String
use Prim.Native.Nat.{Ordering}
use cpp_wiki.Prelude.{
  String, Bool, true, false, not, ◌&&◌, ◌||◌, Option, none, some, List, [], ◌∷◌, ◌==◌, eqb,
  if◌then◌else◌, is_empty, is_blank, is_some, elem, length, ◌+++◌,
}
use cpp_wiki.Knowledge.{
  PropertyValueKind, text, number, date, checkbox, select, multi_select, AuditMetadata,
  PropertyDefinition, PagePropertyValue, RelationDirection, directed, symmetric, RelationType,
  ArtifactKind, page, PageRelation, RepositoryArtifact,
}

unfoldable pub first_failure : List (Bool × String) → Option String
first_failure [] = none
first_failure ((true, message) ∷ rest) = some message
first_failure ((false, message) ∷ rest) = first_failure rest

-- The error of a part, with a text in front: `if (const auto e = f(x)) return prefix + *e;`
unfoldable pub after : String → Option String → Option String → Option String
after prefix none rest = rest
after prefix (some message) rest = some (prefix +++ message)

unfoldable pub has_audit_metadata : AuditMetadata → Bool
has_audit_metadata audit =
    not (is_empty audit.created_at)
    && not (is_empty audit.updated_at)
    && not (is_empty audit.created_by)
    && not (is_empty audit.updated_by)

-- The two loops of HasDuplicateOrBlankValues.
unfoldable pub has_blank : List String → Bool
has_blank [] = false
has_blank (value ∷ rest) = (is_empty value || is_blank value) || has_blank rest

unfoldable pub has_duplicate : List String → Bool
has_duplicate [] = false
has_duplicate (first ∷ rest) = elem first rest || has_duplicate rest

unfoldable pub has_duplicate_or_blank_values : List String → Bool
unfolding has_blank has_duplicate
has_duplicate_or_blank_values values = has_blank values || has_duplicate values

unfoldable pub has_option : PropertyDefinition → String → Bool
has_option definition value = elem value definition.options

unfoldable pub is_single_value_kind : PropertyValueKind → Bool
is_single_value_kind text = true
is_single_value_kind number = true
is_single_value_kind date = true
is_single_value_kind checkbox = true
is_single_value_kind select = true
is_single_value_kind _ = false

unfoldable pub needs_options : PropertyValueKind → Bool
needs_options select = true
needs_options multi_select = true
needs_options _ = false

-- An optional text that is there and blank.
abbrev pub blank_if_given : Option String → Bool
blank_if_given none = false
blank_if_given (some value) = is_empty value || is_blank value

abbrev pub blank_or_missing : Option String → Bool
blank_or_missing none = true
blank_or_missing (some value) = is_empty value || is_blank value

-- `values.empty()`
abbrev pub no_values {ℓ} : {A : Type ℓ} → List A → Bool
no_values [] = true
no_values (x ∷ xs) = false

unfoldable pub validate_property_definition : PropertyDefinition → Option String
unfolding needs_options
validate_property_definition definition = first_failure (
    (
      is_empty definition.id || is_empty definition.workspace_id,
      "Property definition id and workspace id must be non-empty.",
    )
    ∷ (
      is_empty definition.name || is_blank definition.name,
      "Property definition name must be non-empty.",
    )
    ∷ (blank_if_given definition.group_name, "Property definition group name must not be blank.")
    ∷ (
      not (has_audit_metadata definition.audit),
      "Property definition audit metadata must be complete.",
    )
    ∷ (
      needs_options definition.value_kind && no_values definition.options,
      "Select property definitions must define options.",
    )
    ∷ (
      not (needs_options definition.value_kind) && not (no_values definition.options),
      "Only select property definitions may define options.",
    )
    ∷ (
      has_duplicate_or_blank_values definition.options,
      "Property definition options must be unique and non-blank.",
    )
    ∷ [])

abbrev pub front : List String → String
front [] = ""
front (value ∷ rest) = value

unfoldable pub is_checkbox : PropertyValueKind → Bool
is_checkbox checkbox = true
is_checkbox _ = false

unfoldable pub is_number : PropertyValueKind → Bool
is_number number = true
is_number _ = false

-- Whether the loop over the selected values meets one that the definition does not declare.
unfoldable pub has_undeclared : PropertyDefinition → List String → Bool
unfolding has_option
has_undeclared definition [] = false
has_undeclared definition (selected ∷ rest) =
    not (has_option definition selected) || has_undeclared definition rest

-- `parses_number` says whether `std::from_chars` reads a whole text as a double.
module _ (parses_number : String → Bool) where
  unfoldable pub validate_page_property_value :
      PagePropertyValue → PropertyDefinition → Option String
  unfolding is_single_value_kind is_checkbox is_number needs_options has_undeclared
  validate_page_property_value value definition =
      after "Property definition is invalid: " (validate_property_definition definition) (
        first_failure (
          (
            is_empty value.id
                || is_empty value.workspace_id
                || is_empty value.page_id
                || is_empty value.property_definition_id,
            "Page property value identity and scope must be non-empty.",
          )
          ∷ (
            not (value.workspace_id == definition.workspace_id)
                || not (value.property_definition_id == definition.id),
            "Page property value must refer to its property definition in the same workspace.",
          )
          ∷ (
            not (has_audit_metadata value.audit),
            "Page property value audit metadata must be complete.",
          )
          ∷ (
            no_values value.values || has_duplicate_or_blank_values value.values,
            "Page property values must be non-empty, unique and non-blank.",
          )
          ∷ (
            is_single_value_kind definition.value_kind && not (eqb (length value.values) 1),
            "This property value kind requires exactly one value.",
          )
          ∷ (
            is_checkbox definition.value_kind
                && not (front value.values == "true")
                && not (front value.values == "false"),
            "Checkbox property values must be true or false.",
          )
          ∷ (
            is_number definition.value_kind && not (parses_number (front value.values)),
            "Number property values must contain a number.",
          )
          ∷ (
            needs_options definition.value_kind && has_undeclared definition value.values,
            "Select property values must be declared by their definition.",
          )
          ∷ []))

unfoldable pub is_directed : RelationDirection → Bool
is_directed directed = true
is_directed symmetric = false

unfoldable pub validate_relation_type : RelationType → Option String
unfolding is_directed
validate_relation_type relation_type = first_failure (
    (
      is_empty relation_type.id || is_empty relation_type.workspace_id,
      "Relation type id and workspace id must be non-empty.",
    )
    ∷ (
      is_empty relation_type.name || is_blank relation_type.name,
      "Relation type name must be non-empty.",
    )
    ∷ (
      not (has_audit_metadata relation_type.audit),
      "Relation type audit metadata must be complete.",
    )
    ∷ (
      is_directed relation_type.direction && blank_or_missing relation_type.inverse_name,
      "Directed relation types require a non-blank inverse name.",
    )
    ∷ (
      not (is_directed relation_type.direction) && is_some relation_type.inverse_name,
      "Symmetric relation types must not define an inverse name.",
    )
    ∷ [])

unfoldable pub is_page : ArtifactKind → Bool
is_page page = true
is_page _ = false

-- `s < t` of std::string: the order of the first bytes that differ, which for texts in UTF-8 is the
-- order of the first characters that differ.
unfoldable pub text_lt : String → String → Bool
text_lt s t = elim (String.compare s t) [ Ordering.lt ↦ true | _ ↦ false ]

-- What NormalizeAndValidatePageRelation rejects once the relation type is valid.
unfoldable pub page_relation_failure : PageRelation → RelationType → Option String
unfolding is_page
page_relation_failure relation relation_type = first_failure (
    (
      is_empty relation.id
          || is_empty relation.workspace_id
          || is_empty relation.relation_type_id
          || is_empty relation.source_page_id
          || is_empty relation.target_page_id,
      "Page relation identity, scope and endpoints must be non-empty.",
    )
    ∷ (
      not (relation.workspace_id == relation_type.workspace_id)
          || not (relation.relation_type_id == relation_type.id),
      "Page relation must refer to its relation type in the same workspace.",
    )
    ∷ (
      not (is_page relation.source_kind) || not (is_page relation.target_kind),
      "Page relation only supports page endpoints until non-page artifact kinds exist.",
    )
    ∷ (not (has_audit_metadata relation.audit), "Page relation audit metadata must be complete.")
    ∷ (
      relation.source_page_id == relation.target_page_id,
      "Page relation endpoints must be distinct.",
    )
    ∷ [])

unfoldable pub swap_endpoints : PageRelation → PageRelation
swap_endpoints relation = record relation {
  source_page_id = relation.target_page_id;
  target_page_id = relation.source_page_id;
}

-- The final swap, which is made only for a relation that has passed every test.
unfoldable pub normalize_endpoints : PageRelation → RelationType → PageRelation
unfolding is_directed text_lt swap_endpoints
normalize_endpoints relation relation_type =
    if not (is_directed relation_type.direction)
      && text_lt relation.target_page_id relation.source_page_id
    then swap_endpoints relation
    else relation

-- The relation after the tests, and the error.
unfoldable pub judged :
    Option String → PageRelation → RelationType → Option PageRelation × Option String
judged (some message) relation relation_type = (some relation, some message)
judged none relation relation_type = (some (normalize_endpoints relation relation_type), none)

-- The relation that the pointer leads to afterwards, and the error. `none` is a null pointer.
unfoldable pub normalize_and_validate_page_relation :
    Option PageRelation → RelationType → Option PageRelation × Option String
unfolding judged
normalize_and_validate_page_relation none relation_type =
    (none, some "Page relation must not be null.")
normalize_and_validate_page_relation (some relation) relation_type =
    let failure =
      after "Relation type is invalid: " (validate_relation_type relation_type)
        (page_relation_failure relation relation_type) in
    judged failure relation relation_type

unfoldable pub validate_repository_artifact : RepositoryArtifact → Option String
validate_repository_artifact repository = first_failure (
    (
      is_empty repository.id || is_empty repository.workspace_id,
      "Repository artifact id and workspace id must be non-empty.",
    )
    ∷ (
      is_empty repository.name || is_blank repository.name,
      "Repository artifact name must be non-empty.",
    )
    ∷ (
      is_empty repository.remote_url || is_blank repository.remote_url,
      "Repository artifact remote url must be non-empty.",
    )
    ∷ (
      is_empty repository.default_branch || is_blank repository.default_branch,
      "Repository artifact default branch must be non-empty.",
    )
    ∷ (
      not (has_audit_metadata repository.audit),
      "Repository artifact audit metadata must be complete.",
    )
    ∷ [])
