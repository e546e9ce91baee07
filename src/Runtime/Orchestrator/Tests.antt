-- ===== src/Runtime/Orchestrator/Tests.antt =====
-- Runs of the orchestrator at concrete inputs.
use git_hub_engineering_work.Common.{
  ◌≡◌, ◌≤◌, ◌⊎◌, refl, true, false, none, some, [], ◌∷◌, map, arith,
}
use git_hub_engineering_work.Common.Outcome.{returned}
use git_hub_engineering_work.Runtime.Models.{
  WorkflowStage, WorkflowState, ExecutionContext, AgentResult, initial_context, stage_value,
  all_stages, with_stage,
}
use git_hub_engineering_work.Runtime.Registry.{AgentMetadata, Registry}
use git_hub_engineering_work.Runtime.Orchestrator.{Environment, Implementation, run_workflow}
use git_hub_engineering_work.Runtime.Stages.{is_terminal}
use git_hub_engineering_work.Runtime.Orchestrator.Bounds.{run_workflow-IsEnd}

-- an agent for every stage that always succeeds
abbrev agent : AgentMetadata
agent = record {
  identifier = "agent";
  name = "Agent";
  version = "1";
  capabilities = [];
  supported_stages = map stage_value all_stages;
}

abbrev result : AgentResult
result = record {
  task_id = "task";
  agent_id = "agent";
  status = "success";
  summary = "done";
  artifact_refs = "a" ∷ [];
  next_recommended_action = none;
}

abbrev agents : Registry Implementation
agents = record {
  kind = "agent";
  metadata = ("agent", agent) ∷ [];
  implementations = ("agent", some (λ n c. returned result)) ∷ [];
}

abbrev environment : Environment
environment = record {
  agents = agents;
  task_id = λ n. "task";
  cancelled_at_start = λ n. false;
  cancelled_at_dispatch = λ n. false;
}

abbrev at_stage : WorkflowStage → ExecutionContext → ExecutionContext
at_stage s c = record c { current_stage = s }

-- Without agents the run raises; a cancelled one returns.
abbrev cancelled : Environment
cancelled = record {
  agents = agents;
  task_id = λ n. "task";
  cancelled_at_start = λ n. true;
  cancelled_at_dispatch = λ n. false;
}

abbrev cancelled_context : ExecutionContext
cancelled_context = with_stage WorkflowStage.cancelled WorkflowState.cancelled initial_context

cancelled_run : run_workflow cancelled 128 initial_context ≡ returned cancelled_context
unfolding run_workflow
cancelled_run = refl

run_workflow-IsEnd_example :
    ((is_terminal cancelled_context.current_stage ≡ true)
      ⊎ (cancelled_context.current_stage ≡ WorkflowStage.retry))
    × (cancelled_context.retry_count ≤ 1)
run_workflow-IsEnd_example =
    run_workflow-IsEnd cancelled 128 initial_context cancelled_context (omega arith) cancelled_run
