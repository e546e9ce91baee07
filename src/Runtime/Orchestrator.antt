-- ===== src/Runtime/Orchestrator.antt =====
-- runtime/orchestrator/engineering.py, with the dispatcher of runtime/dispatcher/agent_dispatcher.py.
-- What an agent answers and whether the token is cancelled comes from outside, step by step.
pub mod Bounds
pub mod Progress
mod Tests
use git_hub_engineering_work.Common.{
  ℕ, zero, suc, ◌+◌, String, ◌<>◌, ◌==◌, Bool, not, ◌&&◌, Option, none, some, List, [], ◌∷◌, any,
  keep, nat_eq, if◌then◌else◌,
}
use git_hub_engineering_work.Common.Outcome.{Exc, Outcome, returned, raised}
use git_hub_engineering_work.Runtime.Models
use git_hub_engineering_work.Runtime.Models.{
  WorkflowStage, WorkflowState, ExecutionContext, AgentResult, stage_value, with_stage,
  with_active_agent, with_retry_count, add_timeline_entry, add_temporary_artifact, succeeded,
}
use git_hub_engineering_work.Runtime.Registry.{
  AgentMetadata, Registry, discover, get_implementation,
}
use git_hub_engineering_work.Runtime.Stages.{
  is_terminal, workflow_exception, dispatch_exception, cancelled_exception, least, next_stage,
  state_for_stage,
}

-- `_record_timeline`
unfoldable pub record_timeline : String → List String → ExecutionContext → ExecutionContext
record_timeline summary refs c =
    add_timeline_entry (record { stage = c.current_stage; summary = summary; artifact_refs = refs })
      c

-- `_handle_failure`
unfoldable pub handle_failure : Exc → ExecutionContext → ExecutionContext
unfolding record_timeline with_stage
handle_failure e c =
    if nat_eq c.retry_count 0
    then record_timeline ("Failure routed to retry: " <> e.text) [] (
        with_stage WorkflowStage.retry WorkflowState.retrying
          (with_retry_count (c.retry_count + 1) c))
    else record_timeline ("Failure routed to escalation: " <> e.text) []
        (with_stage WorkflowStage.escalate WorkflowState.escalating c)

abbrev add_artifacts : List String → ExecutionContext → ExecutionContext
add_artifacts [] c = c
add_artifacts (a ∷ refs) c = add_artifacts refs (add_temporary_artifact a c)

move_to : AgentResult → ExecutionContext → Outcome WorkflowStage → Outcome ExecutionContext
unfolding state_for_stage record_timeline with_stage
move_to result c (raised e) = raised e
move_to result c (returned stage) = returned (
    record_timeline result.summary result.artifact_refs (
      add_artifacts result.artifact_refs
        (with_stage stage (state_for_stage stage) (with_active_agent none c))))

-- `_apply_agent_result`
unfoldable pub apply_agent_result : AgentResult → ExecutionContext → Outcome ExecutionContext
unfolding handle_failure next_stage move_to
apply_agent_result result c =
    if succeeded result
    then move_to result c (next_stage c.current_stage result)
    else returned (handle_failure (workflow_exception result.summary) c)

finalize_at : WorkflowStage → ExecutionContext → ExecutionContext
unfolding record_timeline with_stage
finalize_at WorkflowStage.escalate c = c
finalize_at WorkflowStage.cancelled c = c
finalize_at WorkflowStage.failed c = c
finalize_at _ c =
    record_timeline "Workflow completed" []
      (with_stage WorkflowStage.completed WorkflowState.completed c)

-- `_finalize_terminal`
unfoldable pub finalize_terminal : ExecutionContext → ExecutionContext
unfolding finalize_at
finalize_terminal c = finalize_at c.current_stage c

-- How a round of the loop ends.
data Round : Type 0 where
  ended : Outcome ExecutionContext → Round
  moved : ExecutionContext → Round

-- An implementation: at a round and a task, what `execute` gives; `none` where it is not an `Agent`.
abbrev pub Implementation : Type 0
Implementation = Option (ℕ → ExecutionContext → Outcome AgentResult)

-- What surrounds a run: the agents, the identifier of the task of each round, and whether the token is
-- cancelled at the start of a round and at its dispatch.
pub record Environment : Type 0 where
  pub agents : Registry Implementation
  pub task_id : ℕ → String
  pub cancelled_at_start : ℕ → Bool
  pub cancelled_at_dispatch : ℕ → Bool

chosen : WorkflowStage → Option AgentMetadata → Outcome AgentMetadata
chosen stage none =
    raised (workflow_exception ("No registered agent supports stage: " <> stage_value stage))
chosen stage (some m) = returned m

checked : String → AgentMetadata → Outcome AgentResult → Outcome AgentResult
checked task m (raised e) = raised (dispatch_exception ("Agent dispatch failed: " <> m.identifier))
checked task m (returned r) =
    if r.task_id == task && r.agent_id == m.identifier
    then returned r
    else raised (dispatch_exception "Agent result does not match dispatched task")

run_agent :
    ℕ → String → AgentMetadata → ExecutionContext → Outcome Implementation → Outcome AgentResult
unfolding checked
run_agent n task m c (raised e) = raised e
run_agent n task m c (returned none) =
    raised (dispatch_exception ("Registered implementation is not an agent: " <> m.identifier))
run_agent n task m c (returned (some execute)) = checked task m (execute n c)

module _ (env : Environment) where
  -- `_select_agent`
  unfoldable pub select_agent : ExecutionContext → Outcome AgentMetadata
  unfolding chosen least discover stage_value
  select_agent c = chosen c.current_stage (
      least (
        keep (λ m. any (λ s. s == stage_value c.current_stage) m.supported_stages)
          (discover none env.agents)))

  -- `RegisteredAgentDispatcher.dispatch`
  unfoldable pub dispatch : ℕ → AgentMetadata → ExecutionContext → Outcome AgentResult
  unfolding run_agent get_implementation
  dispatch n m c =
      if env.cancelled_at_dispatch n
      then raised cancelled_exception
      else run_agent n (env.task_id n) m c (get_implementation m.identifier env.agents)

  apply_or_end : Outcome ExecutionContext → Round
  apply_or_end (raised e) = ended (raised e)
  apply_or_end (returned c) = moved c

  -- a dispatch that failed ends the loop, without the retry that its stage announces
  after_dispatch : ExecutionContext → Outcome AgentResult → Round
  unfolding apply_or_end apply_agent_result handle_failure
  after_dispatch active (returned result) = apply_or_end (apply_agent_result result active)
  after_dispatch active (raised e) =
      if e.class_name == "DispatchException"
      then ended (returned (handle_failure e active))
      else ended (raised e)

  with_agent : ℕ → ExecutionContext → Outcome AgentMetadata → Round
  unfolding after_dispatch dispatch
  with_agent n c (raised e) = ended (raised e)
  with_agent n c (returned m) =
      let active = with_active_agent (some m.identifier) c in
      after_dispatch active (dispatch n m active)

  -- one round of the loop
  round : ℕ → ExecutionContext → Round
  unfolding with_agent select_agent finalize_terminal
  round n c =
      if env.cancelled_at_start n
      then ended (raised cancelled_exception)
      else if is_terminal c.current_stage
      then ended (returned (finalize_terminal c))
      else with_agent n c (select_agent c)

  continue : Round → (ExecutionContext → Outcome ExecutionContext) → Outcome ExecutionContext
  continue (ended o) f = o
  continue (moved c) f = f c

  -- `_run_loop`: the rounds that are left, the number of this one, and the context
  pub loop : ℕ → ℕ → ExecutionContext → Outcome ExecutionContext
  unfolding continue round
  loop zero n c = raised (workflow_exception "Workflow exceeded maximum orchestrator steps")
  loop (suc left) n c = continue (round n c) (loop left (suc n))

  -- What `run` makes of the loop's outcome. An exception falls back to the context before the loop.
  concluded : ExecutionContext → Outcome ExecutionContext → Outcome ExecutionContext
  unfolding with_stage
  concluded c (returned d) = returned d
  concluded c (raised e) =
      if e.class_name == "ExecutionCancelledException"
      then returned (with_stage WorkflowStage.cancelled WorkflowState.cancelled c)
      else if e.class_name == "WorkflowException"
      then raised e
      else returned (with_stage WorkflowStage.failed WorkflowState.failed c)

  -- `run`, with `max_steps` rounds; the context of the summary
  pub run_workflow : ℕ → ExecutionContext → Outcome ExecutionContext
  unfolding concluded loop record_timeline with_stage
  run_workflow max_steps c = concluded c (
      loop max_steps 0 (
        record_timeline "Workflow running" [] (with_stage c.current_stage WorkflowState.running c)))
