-- ===== src/Runtime/Stages.antt =====
-- runtime/orchestrator/engineering.py: which stage comes next, which are terminal, and which agent is
-- taken for a stage.
use git_hub_engineering_work.Common.{
  ℕ, String, ◌<>◌, ◌==◌, Bool, true, false, ◌&&◌, ◌||◌, Option, none, some, List, [], ◌∷◌, first,
  map, nat_eq, ltb, if◌then◌else◌,
}
use git_hub_engineering_work.Common.Text.{strip, codes, same_codes, lower_code}
use git_hub_engineering_work.Common.Outcome.{Exc, Outcome, returned, raised}
use git_hub_engineering_work.Runtime.Models.{
  WorkflowStage, WorkflowState, AgentResult, stage_value, all_stages,
}
use git_hub_engineering_work.Runtime.Registry.{AgentMetadata}

-- `DEFAULT_STAGE_ORDER`
abbrev pub default_stage_order : List WorkflowStage
default_stage_order =
    WorkflowStage.receive_repository ∷ WorkflowStage.receive_issue ∷ WorkflowStage.understand_issue
    ∷ WorkflowStage.collect_context ∷ WorkflowStage.repository_search
    ∷ WorkflowStage.read_relevant_files ∷ WorkflowStage.analyze_root_cause
    ∷ WorkflowStage.create_engineering_plan ∷ WorkflowStage.generate_patch
    ∷ WorkflowStage.apply_changes ∷ WorkflowStage.validate ∷ WorkflowStage.run_tests
    ∷ WorkflowStage.decision_point ∷ WorkflowStage.review ∷ WorkflowStage.completed ∷ []

-- `stage in TERMINAL_STAGES`
abbrev pub is_terminal : WorkflowStage → Bool
is_terminal WorkflowStage.completed = true
is_terminal WorkflowStage.failed = true
is_terminal WorkflowStage.cancelled = true
is_terminal WorkflowStage.escalate = true
is_terminal _ = false

abbrev pub workflow_exception : String → Exc
workflow_exception m = record { class_name = "WorkflowException"; text = m }

abbrev pub dispatch_exception : String → Exc
dispatch_exception m = record { class_name = "DispatchException"; text = m }

abbrev pub cancelled_exception : Exc
cancelled_exception = record { class_name = "ExecutionCancelledException"; text = "" }

-- `a < b` of texts, by code points
unfoldable pub less_codes : List ℕ → List ℕ → Bool
less_codes [] [] = false
less_codes [] (b ∷ bs) = true
less_codes (a ∷ as') [] = false
less_codes (a ∷ as') (b ∷ bs) = let rest = less_codes as' bs in ltb a b || (nat_eq a b && rest)

-- the key `(item.name, item.version)`
unfoldable pub less_agent : AgentMetadata → AgentMetadata → Bool
unfolding less_codes
less_agent m n =
    less_codes (codes m.name) (codes n.name)
    || (m.name == n.name && less_codes (codes m.version) (codes n.version))

-- `sorted(…)[0]`: the first of the least ones
unfoldable pub least_from : AgentMetadata → List AgentMetadata → AgentMetadata
unfolding less_agent
least_from m [] = m
least_from m (n ∷ rest) =
    let a = least_from n rest in let b = least_from m rest in if less_agent n m then a else b

unfoldable pub least : List AgentMetadata → Option AgentMetadata
unfolding least_from
least [] = none
least (m ∷ rest) = some (least_from m rest)

abbrev pub blank_underscore : ℕ → ℕ
blank_underscore c = if nat_eq c 95 then 32 else c

-- `text.strip().lower().replace("_", " ")`, to be compared with texts of ASCII letters without a k
unfoldable pub normalized : String → List ℕ
unfolding strip
normalized text = map (λ c. blank_underscore (lower_code c)) (codes (strip text))

-- `_stage_from_text`: the lower case of a stage's value is that of its name with blanks
unfoldable pub stage_from_text : String → Option WorkflowStage
unfolding normalized stage_value
stage_from_text text =
    first (λ stage. same_codes (map lower_code (codes (stage_value stage))) (normalized text))
      all_stages

-- `==` of stages compares their values, since they are texts
abbrev pub same_stage : WorkflowStage → WorkflowStage → Bool
unfolding stage_value
same_stage a b = stage_value a == stage_value b

abbrev pub head_or : List WorkflowStage → WorkflowStage
head_or [] = WorkflowStage.completed
head_or (a ∷ rest) = a

-- what follows the first occurrence in an order, and `completed` at its end
unfoldable pub after_in : WorkflowStage → List WorkflowStage → Outcome WorkflowStage
unfolding same_stage
after_in stage [] = raised (workflow_exception ("Unknown workflow stage: " <> stage_value stage))
after_in stage (a ∷ rest) =
    let later = after_in stage rest in if same_stage stage a then returned (head_or rest) else later

unfoldable pub successor : WorkflowStage → Outcome WorkflowStage
unfolding after_in
successor stage = after_in stage default_stage_order

abbrev pub requested_stage : Option String → Option WorkflowStage
requested_stage none = none
requested_stage (some text) = if text == "" then none else stage_from_text text

unfoldable pub next_or : WorkflowStage → Option WorkflowStage → Outcome WorkflowStage
unfolding successor
next_or current none = successor current
next_or current (some stage) = returned stage

-- `_next_stage`
unfoldable pub next_stage : WorkflowStage → AgentResult → Outcome WorkflowStage
unfolding next_or
next_stage current result = next_or current (requested_stage result.next_recommended_action)

-- `_state_for_stage`
unfoldable pub state_for_stage : WorkflowStage → WorkflowState
state_for_stage WorkflowStage.retry = WorkflowState.retrying
state_for_stage WorkflowStage.escalate = WorkflowState.escalating
state_for_stage WorkflowStage.completed = WorkflowState.completed
state_for_stage WorkflowStage.failed = WorkflowState.failed
state_for_stage WorkflowStage.cancelled = WorkflowState.cancelled
state_for_stage _ = WorkflowState.running
