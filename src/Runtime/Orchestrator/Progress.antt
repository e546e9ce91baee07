-- ===== src/Runtime/Orchestrator/Progress.antt =====
-- runtime/orchestrator/engineering.py: a run whose agents all succeed and ask for no other stage.
use git_hub_engineering_work.Common.{ℕ, ◌≡◌, true, false, none, some, List, [], ◌∷◌}
use git_hub_engineering_work.Common.Outcome.{Outcome, returned}
use git_hub_engineering_work.Runtime.Models.{
  WorkflowStage, WorkflowState, ExecutionContext, AgentResult, with_active_agent, succeeded,
}
use git_hub_engineering_work.Runtime.Registry.{AgentMetadata}
use git_hub_engineering_work.Runtime.Orchestrator.{Environment, select_agent, dispatch}
use git_hub_engineering_work.Runtime.Stages.{is_terminal, requested_stage, successor}

-- In a stage, an agent is found, it is dispatched, it succeeds, and it asks for no other stage.
abbrev pub IsServed : Environment → ℕ → ExecutionContext → Type 0
IsServed env n c =
    (m : AgentMetadata) × (select_agent env c ≡ returned m)
    × ((r : AgentResult) × (dispatch env n m (with_active_agent (some m.identifier) c) ≡ returned r)
        × (succeeded r ≡ true)
        × (requested_stage r.next_recommended_action ≡ none))

abbrev pub AlwaysServed : Environment → Type 0
AlwaysServed env =
    (n : ℕ) (c : ExecutionContext)
    → (env.cancelled_at_start n ≡ false) × (is_terminal c.current_stage ≡ false → IsServed env n c)

-- The stages behind a stage, each the successor of the one before it, up to `completed`.
abbrev Follows : WorkflowStage → List WorkflowStage → Type 0
Follows s [] = s ≡ WorkflowStage.completed
Follows s (t ∷ ts) = (is_terminal s ≡ false) × (successor s ≡ returned t) × Follows t ts

abbrev pub IsCompleted : Outcome ExecutionContext → Type 0
IsCompleted o =
    (d : ExecutionContext) × (o ≡ returned d)
    × (d.current_stage ≡ WorkflowStage.completed)
    × (d.current_state ≡ WorkflowState.completed)

-- the default order behind its first stage
abbrev later_stages : List WorkflowStage
later_stages =
    WorkflowStage.receive_issue ∷ WorkflowStage.understand_issue ∷ WorkflowStage.collect_context
    ∷ WorkflowStage.repository_search ∷ WorkflowStage.read_relevant_files
    ∷ WorkflowStage.analyze_root_cause ∷ WorkflowStage.create_engineering_plan
    ∷ WorkflowStage.generate_patch ∷ WorkflowStage.apply_changes ∷ WorkflowStage.validate
    ∷ WorkflowStage.run_tests ∷ WorkflowStage.decision_point ∷ WorkflowStage.review
    ∷ WorkflowStage.completed ∷ []
