-- ===== src/Knowledge/RunValidation.antt =====
-- knowledge/knowledge_record.cc: the validators of agent runs, their results and context packs.
use cpp_wiki.Prelude.{
  String, Bool, true, false, not, ◌&&◌, ◌||◌, Option, none, some, List, [], ◌∷◌, map, ◌==◌,
  if◌then◌else◌, is_empty, is_blank, is_some,
}
use cpp_wiki.Knowledge.{
  AgentRunStatus, pending, running, succeeded, failed, cancelled, AgentRun, ResultReference,
  ContextPackState, draft, approved, ContextPackItem, ContextPack,
}
use cpp_wiki.Knowledge.Validation.{
  first_failure, after, has_audit_metadata, has_duplicate, no_values, blank_if_given,
}

unfoldable pub is_terminal_agent_run_status : AgentRunStatus → Bool
is_terminal_agent_run_status succeeded = true
is_terminal_agent_run_status failed = true
is_terminal_agent_run_status cancelled = true
is_terminal_agent_run_status _ = false

unfoldable pub validate_agent_run : AgentRun → Option String
validate_agent_run run =
    let is_terminal = is_terminal_agent_run_status run.status in
    first_failure (
      (
        is_empty run.id || is_empty run.workspace_id || is_empty run.task_id,
        "Agent run identity and scope must be non-empty.",
      )
      ∷ (
        is_empty run.context_pack_ref || is_blank run.context_pack_ref,
        "Agent run must reference a context pack.",
      )
      ∷ (is_empty run.runtime_id || is_blank run.runtime_id, "Agent run must name its runtime.")
      ∷ (is_empty run.started_at, "Agent run must record when it started.")
      ∷ (not (has_audit_metadata run.audit), "Agent run audit metadata must be complete.")
      ∷ (
        is_terminal && not (is_some run.completed_at),
        "A terminal agent run must record when it completed.",
      )
      ∷ (
        not is_terminal && is_some run.completed_at,
        "A non-terminal agent run must not record a completion time.",
      )
      ∷ [])

abbrev is_running : AgentRunStatus → Bool
is_running running = true
is_running _ = false

abbrev is_pending : AgentRunStatus → Bool
is_pending pending = true
is_pending _ = false

abbrev is_cancelled : AgentRunStatus → Bool
is_cancelled cancelled = true
is_cancelled _ = false

unfoldable pub validate_agent_run_transition : AgentRunStatus → AgentRunStatus → Option String
unfolding is_terminal_agent_run_status
validate_agent_run_transition from to =
    if is_terminal_agent_run_status from
    then some "A terminal agent run status can never transition."
    else if is_pending from
    then (if is_running to || is_cancelled to
        then none
        else some "A pending agent run may only move to running or cancelled.")
    else if is_running from
    then (if is_terminal_agent_run_status to
        then none
        else some "A running agent run may only move to a terminal status.")
    else some "Unsupported agent run status transition."

unfoldable pub validate_result_reference : ResultReference → AgentRun → Option String
validate_result_reference reference run = after "Agent run is invalid: " (validate_agent_run run) (
    first_failure (
      (
        is_empty reference.id || is_empty reference.workspace_id || is_empty reference.agent_run_id,
        "Result reference identity and scope must be non-empty.",
      )
      ∷ (
        not (reference.workspace_id == run.workspace_id) || not (reference.agent_run_id == run.id),
        "Result reference must refer to its agent run in the same workspace.",
      )
      ∷ (
        is_empty reference.locator || is_blank reference.locator,
        "Result reference must have a non-blank locator.",
      )
      ∷ (
        is_empty reference.created_at || is_empty reference.created_by,
        "Result reference must record when and by whom it was created.",
      )
      ∷ []))

-- The first loop over the items: whether one lacks an id, and whether one is included.
unfoldable pub has_incomplete_item : List ContextPackItem → Bool
has_incomplete_item [] = false
has_incomplete_item (item ∷ rest) =
    (is_empty item.id || is_empty item.relation_id || is_empty item.artifact_id)
    || has_incomplete_item rest

unfoldable pub has_included_item : List ContextPackItem → Bool
has_included_item [] = false
has_included_item (item ∷ rest) = item.included || has_included_item rest

abbrev pub relation_ids : List ContextPackItem → List String
relation_ids = map (λ (item : ContextPackItem). item.relation_id)

abbrev pub is_approved : ContextPackState → Bool
is_approved approved = true
is_approved draft = false

unfoldable pub validate_context_pack : ContextPack → Option String
unfolding has_incomplete_item has_included_item
validate_context_pack pack = first_failure (
    (
      is_empty pack.id || is_empty pack.workspace_id || is_empty pack.task_id,
      "Context pack identity and scope must be non-empty.",
    )
    ∷ (
      is_empty pack.task_intent || is_blank pack.task_intent,
      "Context pack must capture a non-blank task intent.",
    )
    ∷ (
      blank_if_given pack.repository_guidance,
      "Context pack repository guidance must not be blank.",
    )
    ∷ (not (has_audit_metadata pack.audit), "Context pack audit metadata must be complete.")
    ∷ (no_values pack.items, "Context pack must capture at least one selected artifact.")
    ∷ (
      has_incomplete_item pack.items,
      "Context pack item identity, provenance and artifact id must be non-empty.",
    )
    ∷ (
      has_duplicate (relation_ids pack.items),
      "Context pack items must each come from a distinct source relation.",
    )
    ∷ (
      is_approved pack.state && not (has_included_item pack.items),
      "An approved context pack must have at least one included item.",
    )
    ∷ [])
