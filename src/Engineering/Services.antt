-- ===== src/Engineering/Services.antt =====
-- engineering/pipeline.py: the parts that the pipeline is put together from, and what it carries through
-- its loops. `N` is the type of `float`.
use git_hub_engineering_work.Common.{String, Bool, Option, List}
use git_hub_engineering_work.Common.Act.{Act}
use git_hub_engineering_work.Engineering.Models.{
  EngineeringIssue, EngineeringContext, PatchApplicationResult, PatchResponse,
  PatchValidationResult, Prompt, TestCommand, TestResult,
}

-- what the provider tells of its last call, by `getattr`
pub record Selection : Type 0 where
  pub last_selected_model : Option String
  pub last_selected_provider : Option String
  pub last_command : List String
  pub subprocess_command : List String

-- What the pipeline calls of its parts, in the repository at hand. A diff is applied as a dry run
-- where the flag is set.
pub record Services {ℓ} (N : Type 0) (S : Type ℓ) : Type ℓ where
  pub least : N → N → N
  -- the searcher, and the context builder on what it found
  pub build_context : EngineeringIssue → Act S (EngineeringContext N)
  pub build : EngineeringContext N → Prompt
  pub build_repair : EngineeringContext N → String → List String → Prompt
  pub select : Act S (Unit {0})
  pub generate_patch : Prompt → Act S (PatchResponse N)
  pub validate : String → EngineeringContext N → Act S PatchValidationResult
  pub apply : String → Bool → Act S PatchApplicationResult
  pub repository_warnings : List String → Act S (List String)
  pub detect_tests : Act S (List TestCommand)
  pub run_tests : List TestCommand → Act S (List TestResult)
  pub selection : Act S Selection

module _ (N : Type 0) where
  -- a patch, what its validation says, and `repair_notes`
  pub record Draft : Type 0 where
    pub patch : PatchResponse N
    pub validation : PatchValidationResult
    pub notes : List String

  -- a draft, `application` and `errors`
  pub record Settled : Type 0 where
    pub draft : Draft
    pub application : Option PatchApplicationResult
    pub errors : List String
