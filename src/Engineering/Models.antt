-- ===== src/Engineering/Models.antt =====
-- engineering/models/core.py and engineering/configuration/models.py: what the parts of the engineering
-- pipeline hand to each other. `N` is the type of Python's `float`.
use git_hub_engineering_work.Common.{ℕ, String, ◌<>◌, Bool, Option, List, [], ◌∷◌, ◌++◌, map}
use git_hub_engineering_work.Common.Int.{ℤ}
use git_hub_engineering_work.Common.Text.Lines.{join}

pub record EngineeringIssue : Type 0 where
  pub repository : String
  pub number : ℕ
  pub title : String
  pub body : Option String
  pub labels : List String
  pub url : Option String

-- a path of `FileSnippet` is its text relative to the repository, which is how the validator reads it
pub record FileSnippet : Type 0 where
  pub path : String
  pub content : String
  pub start_line : ℕ
  pub end_line : ℕ
  pub truncated : Bool

pub record PatchValidationResult : Type 0 where
  pub valid : Bool
  pub errors : List String
  pub warnings : List String
  pub modified_files : List String
  pub additions : ℕ
  pub deletions : ℕ
  pub rejected_files : List String

pub record PatchApplicationResult : Type 0 where
  pub applied : Bool
  pub dry_run : Bool
  pub modified_files : List String
  pub backups : List String
  pub errors : List String

-- of `EngineeringConfiguration`, the limits on a patch and the switches of the agent mode
pub record EngineeringConfiguration : Type 0 where
  pub max_patch_changed_files : ℕ
  pub max_patch_changed_lines : ℕ
  pub min_root_cause_evidence : ℕ
  pub max_patch_repair_attempts : ℕ
  pub openclaw_agent_mode : String
  pub openclaw_agent_fallback_enabled : Bool

pub record Prompt : Type 0 where
  pub system : String
  pub instructions : List String
  pub context_sections : List (String × String)
  pub desired_output_format : String

-- `Prompt.render`
unfoldable pub render : Prompt → String
unfolding join
render p = join "\n" (
    (p.system ∷ "" ∷ [])
    ++ p.instructions
    ++ ("" ∷ "Context:" ∷ [])
    ++ map (λ (name, content). "## " <> name <> "\n" <> content) p.context_sections
    ++ ("Desired Output Format:\n" <> p.desired_output_format) ∷ [])

pub record TestCommand : Type 0 where
  pub command : List String
  pub reason : String

pub record TestResult : Type 0 where
  pub command : List String
  pub exit_code : ℤ
  pub duration_ms : ℕ
  pub stdout : String
  pub stderr : String
  pub passed : Bool

pub record ExecutionMetadata : Type 0 where
  pub mode : String
  pub selected_reason : String
  pub selected_model : Option String
  pub selected_provider : Option String
  pub command : List String
  pub subprocess : List String
  pub fallback_reason : Option String
  pub raw_response_excerpt : String
  pub stage_exit_code : Option ℤ
  pub stage_stdout : String
  pub stage_stderr : String
  pub stage_exception : Option String
  pub stage_returned_value : String

module _ (N : Type 0) where
  pub record IssueUnderstanding : Type 0 where
    pub category : String
    pub problem : String
    pub expected_behavior : String
    pub actual_behavior : String
    pub acceptance_criteria : List String
    pub search_terms : List String
    pub confidence : N

  pub record RepositoryAnalysis : Type 0 where
    pub issue_category : String
    pub summary : String
    pub affected_components : List String
    pub possible_root_cause : String
    pub root_cause_evidence : List String
    pub related_modules : List String
    pub dependency_summary : String
    pub investigation_queries : List String
    pub irrelevant_files : List String
    pub files_safe_to_modify : List String
    pub confidence : N

  -- without the candidates, which nothing that is modelled reads
  pub record EngineeringContext : Type 0 where
    pub issue : EngineeringIssue
    pub understanding : IssueUnderstanding
    pub repository_path : String
    pub repository_summary : String
    pub snippets : List FileSnippet
    pub analysis : RepositoryAnalysis
    pub warnings : List String

  pub record PatchResponse : Type 0 where
    pub unified_diff : String
    pub engineering_summary : String
    pub confidence : N
    pub modified_files : List String
    pub reasoning_summary : String
    pub provider_name : String
    pub raw_text : String

  -- without the browser verification, which the pipeline does not fill
  pub record EngineeringResult : Type 0 where
    pub issue : EngineeringIssue
    pub repository : String
    pub patch_summary : String
    pub files_modified : List String
    pub tests_executed : List TestCommand
    pub test_results : List TestResult
    pub confidence : N
    pub warnings : List String
    pub errors : List String
    pub engineering_notes : List String
    pub recommended_next_step : String
    pub execution_metadata : Option ExecutionMetadata
