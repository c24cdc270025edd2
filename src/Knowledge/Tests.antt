-- ===== src/Knowledge/Tests.antt =====
-- The validators at concrete records.
use cpp_wiki.Prelude.{◌≡◌, ◌≢◌, ◌↔◌, ◌⊎◌, refl, true, false, none, some, [], ◌∷◌, ◌==◌, is_blank}
use cpp_wiki.Knowledge.{
  AuditMetadata, PropertyDefinition, select, PagePropertyValue, active, RelationType, symmetric,
  PageRelation, page, AgentRun, pending, running, succeeded, ResultReference, diff,
  RepositoryArtifact, ContextPack, approved,
}
use cpp_wiki.Knowledge.Validation.{
  validate_property_definition, validate_page_property_value, validate_relation_type,
  normalize_and_validate_page_relation, swap_endpoints, text_lt, first_failure, has_audit_metadata,
  has_duplicate_or_blank_values, after, page_relation_failure, normalize_endpoints,
  validate_repository_artifact,
}
use cpp_wiki.Knowledge.RunValidation.{
  is_terminal_agent_run_status, validate_agent_run, validate_result_reference,
  validate_context_pack,
}
use cpp_wiki.Knowledge.Properties.{
  IsPropertyDefinition, IsPagePropertyValue, validate_property_definition_iff,
  validate_page_property_value_iff,
}
use cpp_wiki.Knowledge.Relations.{
  IsRelationType, IsPageRelation, validate_relation_type_iff,
  normalize_and_validate_page_relation_iff, normalize_symmetric,
}
use cpp_wiki.Knowledge.Runs.{
  IsAgentRun, IsContextPack, validate_agent_run_iff, validate_context_pack_iff,
}
use cpp_wiki.Knowledge.Lives.{Accepted, IsLife, Accepted-lives}

abbrev audit : AuditMetadata
audit = record { created_at = "t0"; updated_at = "t1"; created_by = "ada"; updated_by = "bob" }

abbrev priority : PropertyDefinition
priority = record {
  id = "d";
  workspace_id = "w";
  name = "Priority";
  group_name = none;
  value_kind = select;
  options = "low" ∷ "high" ∷ [];
  state = active;
  audit = audit;
}

abbrev high : PagePropertyValue
high = record {
  id = "v";
  workspace_id = "w";
  page_id = "p";
  property_definition_id = "d";
  values = "high" ∷ [];
  audit = audit;
}

abbrev related : RelationType
related = record {
  id = "t";
  workspace_id = "w";
  name = "related to";
  inverse_name = none;
  direction = symmetric;
  state = active;
  audit = audit;
}

abbrev link : PageRelation
link = record {
  id = "r";
  workspace_id = "w";
  relation_type_id = "t";
  source_page_id = "q";
  target_page_id = "p";
  source_kind = page;
  target_kind = page;
  audit = audit;
}

abbrev run : AgentRun
run = record {
  id = "a";
  workspace_id = "w";
  task_id = "k";
  context_pack_ref = "c@1.0";
  runtime_id = "local";
  status = succeeded;
  started_at = "t0";
  completed_at = some "t1";
  audit = audit;
}

abbrev log : ResultReference
log = record {
  id = "f";
  workspace_id = "w";
  agent_run_id = "a";
  kind = diff;
  locator = "main..fix";
  summary = none;
  created_at = "t1";
  created_by = "ada";
}

abbrev sources : RepositoryArtifact
sources = record {
  id = "s";
  workspace_id = "w";
  name = "wiki";
  remote_url = "git";
  default_branch = "main";
  state = active;
  audit = audit;
}

abbrev pack : ContextPack
pack = record {
  id = "c";
  workspace_id = "w";
  task_id = "k";
  task_intent = "fix it";
  items =
      record {
        id = "i";
        relation_id = "r";
        artifact_kind = page;
        artifact_id = "p";
        included = true;
      }
      ∷ [];
  repository_guidance = none;
  state = approved;
  audit = audit;
}

-- Each of the records is accepted, and a run that is over without a completion time is not.
validators_run :
    (validate_property_definition priority ≡ none)
    × (validate_page_property_value (λ s. false) high priority ≡ none)
    × (validate_relation_type related ≡ none)
    × (normalize_and_validate_page_relation (some link) related
        ≡ (some (swap_endpoints link), none))
    × (validate_agent_run run ≡ none)
    × (validate_agent_run (record run { completed_at = none })
        ≡ some "A terminal agent run must record when it completed.")
    × (validate_result_reference log run ≡ none)
    × (validate_repository_artifact sources ≡ none)
    × (validate_context_pack pack ≡ none)
unfolding validate_property_definition validate_page_property_value validate_relation_type
    normalize_and_validate_page_relation validate_agent_run validate_result_reference
    validate_repository_artifact validate_context_pack swap_endpoints first_failure is_blank
    has_audit_metadata has_duplicate_or_blank_values after page_relation_failure normalize_endpoints
    is_terminal_agent_run_status
validators_run = (refl, refl, refl, refl, refl, refl, refl, refl, refl)

validate_property_definition_iff_example :
    (validate_property_definition priority ≡ none) ↔ IsPropertyDefinition priority
validate_property_definition_iff_example = validate_property_definition_iff priority

validate_page_property_value_iff_example :
    (validate_page_property_value (λ s. s == "1") high priority ≡ none)
    ↔ (IsPropertyDefinition priority × IsPagePropertyValue (λ s. s == "1") high priority)
validate_page_property_value_iff_example =
    validate_page_property_value_iff (λ s. s == "1") high priority

normalize_and_validate_page_relation_iff_example :
    let (r', e) = normalize_and_validate_page_relation (some link) related in
    ((e ≡ none) ↔ (IsRelationType related × IsPageRelation link related))
    × (e ≢ none → r' ≡ some link)
    × (e ≡ none → (r' ≡ some link) ⊎ (r' ≡ some (swap_endpoints link)))
normalize_and_validate_page_relation_iff_example =
    normalize_and_validate_page_relation_iff link related

related_ok : IsRelationType related
related_ok = (validate_relation_type_iff related).0 (validators_run.2)

link_ok : IsRelationType related × IsPageRelation link related
unfolding normalize_and_validate_page_relation after validate_relation_type first_failure is_blank
    has_audit_metadata page_relation_failure
link_ok = (normalize_and_validate_page_relation_iff link related).0.0 refl

normalize_symmetric_example :
    let stored = normalize_and_validate_page_relation (some link) related in
    (normalize_and_validate_page_relation (some (swap_endpoints link)) related ≡ stored)
    × ((q : PageRelation)
        → stored.0 ≡ some q
        → (text_lt q.source_page_id q.target_page_id ≡ true)
          × (normalize_and_validate_page_relation (some q) related ≡ stored))
normalize_symmetric_example = normalize_symmetric link related refl related_ok link_ok.1

validate_agent_run_iff_example : (validate_agent_run run ≡ none) ↔ IsAgentRun run
validate_agent_run_iff_example = validate_agent_run_iff run

validate_context_pack_iff_example : (validate_context_pack pack ≡ none) ↔ IsContextPack pack
validate_context_pack_iff_example = validate_context_pack_iff pack

Accepted-lives_example :
    Accepted pending (running ∷ succeeded ∷ []) ↔ IsLife (running ∷ succeeded ∷ [])
Accepted-lives_example = Accepted-lives (running ∷ succeeded ∷ [])
