-- ===== src/Runtime/Models.antt =====
-- runtime/models/workflow.py, runtime/models/agent.py and runtime/context/execution_context.py. Of a
-- context, the fields that the orchestrator reads or changes.
use git_hub_engineering_work.Common.{ℕ, String, ◌==◌, Bool, Option, none, List, [], ◌∷◌, ◌++◌}

pub data WorkflowStage : Type 0 where
  receive_repository : WorkflowStage
  receive_issue : WorkflowStage
  understand_issue : WorkflowStage
  collect_context : WorkflowStage
  repository_search : WorkflowStage
  read_relevant_files : WorkflowStage
  analyze_root_cause : WorkflowStage
  create_engineering_plan : WorkflowStage
  generate_patch : WorkflowStage
  apply_changes : WorkflowStage
  validate : WorkflowStage
  run_tests : WorkflowStage
  decision_point : WorkflowStage
  retry : WorkflowStage
  escalate : WorkflowStage
  review : WorkflowStage
  completed : WorkflowStage
  failed : WorkflowStage
  cancelled : WorkflowStage

-- `stage.value`
unfoldable pub stage_value : WorkflowStage → String
stage_value receive_repository = "Receive Repository"
stage_value receive_issue = "Receive Issue"
stage_value understand_issue = "Understand Issue"
stage_value collect_context = "Collect Context"
stage_value repository_search = "Repository Search"
stage_value read_relevant_files = "Read Relevant Files"
stage_value analyze_root_cause = "Analyze Root Cause"
stage_value create_engineering_plan = "Create Engineering Plan"
stage_value generate_patch = "Generate Patch"
stage_value apply_changes = "Apply Changes"
stage_value validate = "Validate"
stage_value run_tests = "Run Tests"
stage_value decision_point = "Decision Point"
stage_value retry = "Retry"
stage_value escalate = "Escalate"
stage_value review = "Review"
stage_value completed = "Completed"
stage_value failed = "Failed"
stage_value cancelled = "Cancelled"

-- `list(WorkflowStage)`
abbrev pub all_stages : List WorkflowStage
all_stages =
    receive_repository ∷ receive_issue ∷ understand_issue ∷ collect_context ∷ repository_search
    ∷ read_relevant_files ∷ analyze_root_cause ∷ create_engineering_plan ∷ generate_patch
    ∷ apply_changes ∷ validate ∷ run_tests ∷ decision_point ∷ retry ∷ escalate ∷ review ∷ completed
    ∷ failed ∷ cancelled ∷ []

-- `WorkflowState`; `initializing` and `waiting` are never entered
pub data WorkflowState : Type 0 where
  created : WorkflowState
  initializing : WorkflowState
  running : WorkflowState
  waiting : WorkflowState
  retrying : WorkflowState
  escalating : WorkflowState
  completed : WorkflowState
  failed : WorkflowState
  cancelled : WorkflowState

-- `TimelineEntry`, without its time
pub record TimelineEntry : Type 0 where
  pub stage : WorkflowStage
  pub summary : String
  pub artifact_refs : List String

pub record ExecutionContext : Type 0 where
  pub current_stage : WorkflowStage
  pub current_state : WorkflowState
  pub active_agent : Option String
  pub retry_count : ℕ
  pub visited_states : List WorkflowState
  pub timeline : List TimelineEntry
  pub temporary_artifacts : List String

unfoldable pub with_stage : WorkflowStage → WorkflowState → ExecutionContext → ExecutionContext
with_stage stage state c = record c {
  current_stage = stage;
  current_state = state;
  visited_states = c.visited_states ++ state ∷ [];
}

abbrev pub with_active_agent : Option String → ExecutionContext → ExecutionContext
with_active_agent agent c = record c { active_agent = agent }

abbrev pub with_retry_count : ℕ → ExecutionContext → ExecutionContext
with_retry_count n c = record c { retry_count = n }

abbrev pub add_timeline_entry : TimelineEntry → ExecutionContext → ExecutionContext
add_timeline_entry entry c = record c { timeline = c.timeline ++ entry ∷ [] }

abbrev pub add_temporary_artifact : String → ExecutionContext → ExecutionContext
add_temporary_artifact a c = record c { temporary_artifacts = c.temporary_artifacts ++ a ∷ [] }

-- the context that `ExecutionContextBuilder.create` makes
abbrev pub initial_context : ExecutionContext
initial_context = record {
  current_stage = receive_repository;
  current_state = created;
  active_agent = none;
  retry_count = 0;
  visited_states = created ∷ [];
  timeline = [];
  temporary_artifacts = [];
}

pub record AgentResult : Type 0 where
  pub task_id : String
  pub agent_id : String
  pub status : String
  pub summary : String
  pub artifact_refs : List String
  pub next_recommended_action : Option String

-- `succeeded`
abbrev pub succeeded : AgentResult → Bool
succeeded r = r.status == "success"
