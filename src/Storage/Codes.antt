-- ===== src/Storage/Codes.antt =====
-- The numbers that a static_cast gives the cases of an enum, and the way back.
use cpp_wiki.Prelude.{zero, suc, ℤ, pos, negsuc, Option, none, some, List, [], ◌∷◌}
use cpp_wiki.Knowledge.{
  PropertyValueKind, RecordState, RelationDirection, ArtifactKind, AgentRunStatus,
  ResultReferenceKind, ContextPackState,
}
use cpp_wiki.Knowledge as Cases

infixl 5 ◌>>=◌
abbrev pub ◌>>=◌ {ℓ κ} : {A : Type ℓ} {B : Type κ} → Option A → (A → Option B) → Option B
none >>= f = none
some a >>= f = f a

-- The case with the number `n` of an enum with the given cases, if there is one.
unfoldable pub case_at : {K : Type 0} → ℤ → List K → Option K
case_at (negsuc n) cases = none
case_at n [] = none
case_at (pos zero) (k ∷ ks) = some k
case_at (pos (suc n)) (k ∷ ks) = case_at (pos n) ks

unfoldable pub property_value_kind_code : PropertyValueKind → ℤ
property_value_kind_code Cases.text = pos 0
property_value_kind_code Cases.number = pos 1
property_value_kind_code Cases.date = pos 2
property_value_kind_code Cases.checkbox = pos 3
property_value_kind_code Cases.select = pos 4
property_value_kind_code Cases.multi_select = pos 5
property_value_kind_code Cases.tags = pos 6
property_value_kind_code Cases.relation = pos 7

unfoldable pub property_value_kind_from_code : ℤ → Option PropertyValueKind
unfolding case_at
property_value_kind_from_code n = case_at n (
    Cases.text ∷ Cases.number ∷ Cases.date ∷ Cases.checkbox ∷ Cases.select ∷ Cases.multi_select
    ∷ Cases.tags ∷ Cases.relation ∷ [])

unfoldable pub record_state_code : RecordState → ℤ
record_state_code Cases.active = pos 0
record_state_code Cases.retired = pos 1

unfoldable pub record_state_from_code : ℤ → Option RecordState
unfolding case_at
record_state_from_code n = case_at n (Cases.active ∷ Cases.retired ∷ [])

unfoldable pub relation_direction_code : RelationDirection → ℤ
relation_direction_code Cases.directed = pos 0
relation_direction_code Cases.symmetric = pos 1

unfoldable pub relation_direction_from_code : ℤ → Option RelationDirection
unfolding case_at
relation_direction_from_code n = case_at n (Cases.directed ∷ Cases.symmetric ∷ [])

unfoldable pub artifact_kind_code : ArtifactKind → ℤ
artifact_kind_code Cases.page = pos 0
artifact_kind_code Cases.repository = pos 1
artifact_kind_code Cases.agent_run = pos 2
artifact_kind_code Cases.result_reference = pos 3

unfoldable pub artifact_kind_from_code : ℤ → Option ArtifactKind
unfolding case_at
artifact_kind_from_code n =
    case_at n (Cases.page ∷ Cases.repository ∷ Cases.agent_run ∷ Cases.result_reference ∷ [])

unfoldable pub agent_run_status_code : AgentRunStatus → ℤ
agent_run_status_code Cases.pending = pos 0
agent_run_status_code Cases.running = pos 1
agent_run_status_code Cases.succeeded = pos 2
agent_run_status_code Cases.failed = pos 3
agent_run_status_code Cases.cancelled = pos 4

unfoldable pub agent_run_status_from_code : ℤ → Option AgentRunStatus
unfolding case_at
agent_run_status_from_code n =
    case_at n
      (Cases.pending ∷ Cases.running ∷ Cases.succeeded ∷ Cases.failed ∷ Cases.cancelled ∷ [])

unfoldable pub result_reference_kind_code : ResultReferenceKind → ℤ
result_reference_kind_code Cases.git_ref = pos 0
result_reference_kind_code Cases.diff = pos 1
result_reference_kind_code Cases.log = pos 2
result_reference_kind_code Cases.external_url = pos 3

unfoldable pub result_reference_kind_from_code : ℤ → Option ResultReferenceKind
unfolding case_at
result_reference_kind_from_code n =
    case_at n (Cases.git_ref ∷ Cases.diff ∷ Cases.log ∷ Cases.external_url ∷ [])

unfoldable pub context_pack_state_code : ContextPackState → ℤ
context_pack_state_code Cases.draft = pos 0
context_pack_state_code Cases.approved = pos 1

unfoldable pub context_pack_state_from_code : ℤ → Option ContextPackState
unfolding case_at
context_pack_state_from_code n = case_at n (Cases.draft ∷ Cases.approved ∷ [])
