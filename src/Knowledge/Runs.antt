-- ===== src/Knowledge/Runs.antt =====
-- Agent runs, their results and context packs: what is accepted, and the life of a run.
use cpp_wiki.Prelude.{
  ◌≡◌, ◌≢◌, ◌↔◌, ◌⊎◌, refl, true, false, not, none, List, [], ◌∷◌, arith, Distinct, All,
}
use cpp_wiki.Knowledge.{
  AgentRunStatus, pending, running, AgentRun, ResultReference, RepositoryArtifact, ContextPackState,
  draft, approved, ContextPackItem, ContextPack,
}
use cpp_wiki.Knowledge.Validation.{validate_repository_artifact, validate_relation_type}
use cpp_wiki.Knowledge.Relations.{IsRelationType, validate_relation_type_iff}
use cpp_wiki.Knowledge.{RelationType}
use cpp_wiki.Knowledge.RunValidation.{
  is_terminal_agent_run_status, validate_agent_run, validate_result_reference, has_incomplete_item,
  has_included_item, relation_ids, is_approved, validate_context_pack,
}
use cpp_wiki.Knowledge.Checks.{
  AllOf, NonEmpty, NonBlank, NonBlankIfGiven, IsAudited, accepted, tested, after-none, both_fail,
  implied, required, non_empty, non_blank, non_blank_if_given, same_text, audited, no_duplicate,
  some_values, absent, present,
}

-- The statuses in which a run is over.
abbrev pub IsOver : AgentRunStatus → Type 0
IsOver pending = ⊥
IsOver running = ⊥
IsOver _ = Unit

terminal_iff : (s : AgentRunStatus) → (is_terminal_agent_run_status s ≡ true) ↔ IsOver s
unfolding is_terminal_agent_run_status
terminal_iff pending = (λ h. cc, λ h. elim h [ ])
terminal_iff running = (λ h. cc, λ h. elim h [ ])
terminal_iff _ = (λ h. tt, λ h. refl)

not_terminal_iff : (s : AgentRunStatus) → (not (is_terminal_agent_run_status s) ≡ true) ↔ ¬ IsOver s
unfolding is_terminal_agent_run_status
not_terminal_iff pending = (λ h x. elim x [ ], λ h. refl)
not_terminal_iff running = (λ h x. elim x [ ], λ h. refl)
not_terminal_iff _ = (λ h. cc, λ h. absurd (h tt))

abbrev pub IsAgentRun : AgentRun → Type 0
IsAgentRun r = AllOf (
    ((NonEmpty r.id × NonEmpty r.workspace_id) × NonEmpty r.task_id)
    ∷ NonBlank r.context_pack_ref
    ∷ NonBlank r.runtime_id
    ∷ NonEmpty r.started_at
    ∷ IsAudited r.audit
    ∷ (IsOver r.status → r.completed_at ≢ none)
    ∷ (¬ IsOver r.status → r.completed_at ≡ none)
    ∷ [])

-- An agent run is accepted exactly when its ids and start are not empty, its context pack and
-- runtime are not blank, its audit metadata is complete, and it records a completion time if it is
-- over and none otherwise.
pub validate_agent_run_iff : (r : AgentRun) → (validate_agent_run r ≡ none) ↔ IsAgentRun r
unfolding validate_agent_run
validate_agent_run_iff r =
    tested _ _
      (both_fail (both_fail (non_empty r.id) (non_empty r.workspace_id)) (non_empty r.task_id))
      (tested _ _ (non_blank r.context_pack_ref) (
        tested _ _ (non_blank r.runtime_id) (
          tested _ _ (non_empty r.started_at) (
            tested _ _ (audited r.audit) (
              tested _ _ (implied (terminal_iff r.status) (present r.completed_at)) (
                tested _ _ (implied (not_terminal_iff r.status) (absent r.completed_at))
                  accepted))))))

abbrev pub IsResultReference : ResultReference → AgentRun → Type 0
IsResultReference p r = AllOf (
    ((NonEmpty p.id × NonEmpty p.workspace_id) × NonEmpty p.agent_run_id)
    ∷ ((p.workspace_id ≡ r.workspace_id) × (p.agent_run_id ≡ r.id))
    ∷ NonBlank p.locator
    ∷ (NonEmpty p.created_at × NonEmpty p.created_by)
    ∷ [])

-- A result reference is accepted exactly when its run is, its ids are not empty and name that run
-- and its workspace, its locator is not blank, and it records when and by whom it was created.
pub validate_result_reference_iff :
    (p : ResultReference) (r : AgentRun)
    → (validate_result_reference p r ≡ none) ↔ (IsAgentRun r × IsResultReference p r)
unfolding validate_result_reference
validate_result_reference_iff p r = after-none _ (validate_agent_run_iff r) (
    tested _ _
      (both_fail (both_fail (non_empty p.id) (non_empty p.workspace_id)) (non_empty p.agent_run_id))
      (tested _ _
        (both_fail (same_text p.workspace_id r.workspace_id) (same_text p.agent_run_id r.id))
        (tested _ _ (non_blank p.locator)
          (tested _ _ (both_fail (non_empty p.created_at) (non_empty p.created_by)) accepted))))

abbrev pub IsRepositoryArtifact : RepositoryArtifact → Type 0
IsRepositoryArtifact r = AllOf (
    (NonEmpty r.id × NonEmpty r.workspace_id)
    ∷ NonBlank r.name
    ∷ NonBlank r.remote_url
    ∷ NonBlank r.default_branch
    ∷ IsAudited r.audit
    ∷ [])

-- A repository artifact is accepted exactly when its ids are not empty, its name, remote url and
-- default branch are not blank, and its audit metadata is complete.
pub validate_repository_artifact_iff :
    (r : RepositoryArtifact) → (validate_repository_artifact r ≡ none) ↔ IsRepositoryArtifact r
unfolding validate_repository_artifact
validate_repository_artifact_iff r =
    tested _ _ (both_fail (non_empty r.id) (non_empty r.workspace_id)) (
      tested _ _ (non_blank r.name) (
        tested _ _ (non_blank r.remote_url)
          (tested _ _ (non_blank r.default_branch) (tested _ _ (audited r.audit) accepted))))

abbrev pub IsItem : ContextPackItem → Type 0
IsItem i = (NonEmpty i.id × NonEmpty i.relation_id) × NonEmpty i.artifact_id

-- Some item of the list is included.
abbrev pub AnyIncluded : List ContextPackItem → Type 0
AnyIncluded [] = ⊥
AnyIncluded (i ∷ is) = (i.included ≡ true) ⊎ AnyIncluded is

complete_items : (is : List ContextPackItem) → (has_incomplete_item is ≡ false) ↔ All IsItem is
unfolding has_incomplete_item
complete_items [] = (λ h. tt, λ h. refl)
complete_items (i ∷ is) =
    both_fail
      (both_fail (both_fail (non_empty i.id) (non_empty i.relation_id)) (non_empty i.artifact_id))
      (complete_items is)

any_included : (is : List ContextPackItem) → (has_included_item is ≡ true) ↔ AnyIncluded is
unfolding has_included_item
any_included [] = (λ h. cc, λ h. elim h [ ])
any_included (i ∷ is) = (λ h. ground (arith, any_included is), λ h. ground (arith, any_included is))

approved_iff : (s : ContextPackState) → (is_approved s ≡ true) ↔ (s ≡ approved)
approved_iff draft = (λ h. cc, λ h. cc)
approved_iff approved = (λ h. refl, λ h. refl)

abbrev pub IsContextPack : ContextPack → Type 0
IsContextPack p = AllOf (
    ((NonEmpty p.id × NonEmpty p.workspace_id) × NonEmpty p.task_id)
    ∷ NonBlank p.task_intent
    ∷ NonBlankIfGiven p.repository_guidance
    ∷ IsAudited p.audit
    ∷ (p.items ≢ [])
    ∷ All IsItem p.items
    ∷ Distinct (relation_ids p.items)
    ∷ (p.state ≡ approved → AnyIncluded p.items)
    ∷ [])

-- A context pack is accepted exactly when its ids are not empty, its intent and any guidance are not
-- blank, its audit metadata is complete, it has items, each item has its three ids, the items come
-- from pairwise distinct relations, and, if it is approved, some item is included.
pub validate_context_pack_iff :
    (p : ContextPack) → (validate_context_pack p ≡ none) ↔ IsContextPack p
unfolding validate_context_pack
validate_context_pack_iff p =
    tested _ _
      (both_fail (both_fail (non_empty p.id) (non_empty p.workspace_id)) (non_empty p.task_id))
      (tested _ _ (non_blank p.task_intent) (
        tested _ _ (non_blank_if_given p.repository_guidance) (
          tested _ _ (audited p.audit) (
            tested _ _ (some_values p.items) (
              tested _ _ (complete_items p.items) (
                tested _ _ (no_duplicate (relation_ids p.items)) (
                  tested _ _ (implied (approved_iff p.state) (required (any_included p.items)))
                    accepted)))))))

-- A relation type is accepted exactly when its id and workspace are not empty, its name is not blank,
-- its audit metadata is complete, and it has an inverse name that is not blank if it is directed
-- and none if it is symmetric. A result reference is accepted exactly when its run is, its ids are
-- not empty and name that run and its workspace, its locator is not blank, and it records when and
-- by whom it was created. A repository artifact is accepted exactly when its ids are not empty, its
-- name, remote url and default branch are not blank, and its audit metadata is complete.
pub linked_validators_iff :
    ((t : RelationType) → (validate_relation_type t ≡ none) ↔ IsRelationType t)
    × ((p : ResultReference) (r : AgentRun)
        → (validate_result_reference p r ≡ none) ↔ (IsAgentRun r × IsResultReference p r))
    × ((r : RepositoryArtifact) → (validate_repository_artifact r ≡ none) ↔ IsRepositoryArtifact r)
linked_validators_iff =
    (validate_relation_type_iff, validate_result_reference_iff, validate_repository_artifact_iff)
