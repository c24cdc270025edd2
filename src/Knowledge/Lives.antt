-- ===== src/Knowledge/Lives.antt =====
-- The life of an agent run: the statuses that it takes when each change has passed the validator.
use cpp_wiki.Prelude.{◌≡◌, ◌↔◌, refl, none, List, [], ◌∷◌}
use cpp_wiki.Knowledge.{AgentRunStatus, pending, running, succeeded, failed, cancelled}
use cpp_wiki.Knowledge.RunValidation.{validate_agent_run_transition}
use cpp_wiki.Knowledge.Runs.{IsOver}

-- The edges of the state machine.
abbrev pub Edge : AgentRunStatus → AgentRunStatus → Type 0
Edge pending running = Unit
Edge pending cancelled = Unit
Edge running succeeded = Unit
Edge running failed = Unit
Edge running cancelled = Unit
Edge _ _ = ⊥

pub validate_agent_run_transition_iff :
    (from to : AgentRunStatus) → (validate_agent_run_transition from to ≡ none) ↔ Edge from to
unfolding validate_agent_run_transition
validate_agent_run_transition_iff pending running = (λ h. tt, λ h. refl)
validate_agent_run_transition_iff pending cancelled = (λ h. tt, λ h. refl)
validate_agent_run_transition_iff running succeeded = (λ h. tt, λ h. refl)
validate_agent_run_transition_iff running failed = (λ h. tt, λ h. refl)
validate_agent_run_transition_iff running cancelled = (λ h. tt, λ h. refl)
validate_agent_run_transition_iff _ _ = (λ h. cc, λ h. elim h [ ])

-- A list of the statuses that follow `from`, each change accepted by the validator.
abbrev pub Accepted : AgentRunStatus → List AgentRunStatus → Type 0
Accepted from [] = Unit
Accepted from (to ∷ rest) = (validate_agent_run_transition from to ≡ none) × Accepted to rest

abbrev pub IsLife : List AgentRunStatus → Type 0
IsLife [] = Unit
IsLife (running ∷ []) = Unit
IsLife (cancelled ∷ []) = Unit
IsLife (running ∷ s ∷ []) = IsOver s
IsLife _ = ⊥

over_is_final :
    (s : AgentRunStatus) (t : AgentRunStatus) (rest : List AgentRunStatus)
    → IsOver s
    → Accepted s (t ∷ rest)
    → ⊥
unfolding validate_agent_run_transition
over_is_final succeeded t rest o (h, _) = cc
over_is_final failed t rest o (h, _) = cc
over_is_final cancelled t rest o (h, _) = cc
over_is_final pending t rest o h = o
over_is_final running t rest o h = o

Edge-IsOver : (s : AgentRunStatus) → Edge running s → IsOver s
Edge-IsOver pending e = e
Edge-IsOver running e = e
Edge-IsOver _ e = tt

over_is_Edge : (s : AgentRunStatus) → IsOver s → Edge running s
over_is_Edge pending o = o
over_is_Edge running o = o
over_is_Edge succeeded o = tt
over_is_Edge failed o = tt
over_is_Edge cancelled o = tt

-- A new run goes through exactly these lists of accepted statuses: none, running alone, cancelled
-- alone, or running and then succeeded, failed or cancelled.
pub Accepted-lives : (statuses : List AgentRunStatus) → Accepted pending statuses ↔ IsLife statuses
Accepted-lives [] = (λ h. tt, λ h. tt)
Accepted-lives (running ∷ []) =
    (λ h. tt, λ h. ((validate_agent_run_transition_iff pending running).1 tt, tt))
Accepted-lives (cancelled ∷ []) =
    (λ h. tt, λ h. ((validate_agent_run_transition_iff pending cancelled).1 tt, tt))
Accepted-lives (running ∷ s ∷ []) = (
  λ h. Edge-IsOver s ((validate_agent_run_transition_iff running s).0 h.1.0),
  λ o. (
    (validate_agent_run_transition_iff pending running).1 tt,
    ((validate_agent_run_transition_iff running s).1 (over_is_Edge s o), tt),
  ),
)
Accepted-lives (running ∷ s ∷ t ∷ rest) = (
  λ h.
      over_is_final s t rest (Edge-IsOver s ((validate_agent_run_transition_iff running s).0 h.1.0))
        h.1.1,
  λ h. elim h [ ],
)
Accepted-lives (cancelled ∷ s ∷ rest) =
    (λ h. over_is_final cancelled s rest tt h.1, λ h. elim h [ ])
Accepted-lives (pending ∷ rest) =
    (λ h. (validate_agent_run_transition_iff pending pending).0 h.0, λ h. elim h [ ])
Accepted-lives (succeeded ∷ rest) =
    (λ h. (validate_agent_run_transition_iff pending succeeded).0 h.0, λ h. elim h [ ])
Accepted-lives (failed ∷ rest) =
    (λ h. (validate_agent_run_transition_iff pending failed).0 h.0, λ h. elim h [ ])
