-- ===== src/Engineering/Pipeline/Agent.antt =====
-- engineering/pipeline.py: `run_until_patch`, which asks the agent first and may fall back to the
-- pipeline that asks the provider for a patch.
pub mod Laws
use git_hub_engineering_work.Common.{
  ℕ, String, ◌<>◌, ◌==◌, Bool, true, false, not, ◌&&◌, Option, none, some, List, [], ◌∷◌, ◌++◌,
  if◌then◌else◌,
}
use git_hub_engineering_work.Common.Int.{ℤ}
use git_hub_engineering_work.Common.Act.{Act, ◌>>=◌, return}
use git_hub_engineering_work.Common.Outcome.{Exc, Outcome, returned, raised}
use git_hub_engineering_work.Engineering.Models.{
  EngineeringIssue, EngineeringConfiguration, EngineeringResult, ExecutionMetadata,
}
use git_hub_engineering_work.Engineering.Services.{Services}
use git_hub_engineering_work.Engineering.Pipeline.{run_infer_pipeline}

-- what `OpenClawAgentCapabilityDetector` finds
pub record Capability : Type 0 where
  pub callable : Bool
  pub configured : Bool
  pub reason : String
  pub command : List String

-- `getattr` of an exception, with the defaults
pub record Details : Type 0 where
  pub exit_code : Option ℤ
  pub stdout : String
  pub stderr : String
  pub returned_value : String

pub record Agent {ℓ} (N : Type 0) (S : Type ℓ) : Type ℓ where
  pub detect : Act S Capability
  pub execute : EngineeringIssue → Bool → Act S (EngineeringResult N)
  pub details : Exc → Details
  -- `0.0`
  pub nought : N

-- `try: return m` with `except Exception as exc`
unfoldable pub rescue {ℓ κ} :
    {S : Type ℓ} {A : Type κ} → S × Outcome A → (Exc → Act S A) → S × Outcome A
rescue (s, returned a) handler = (s, returned a)
rescue (s, raised e) handler = handler e s

abbrev metadata_command : Option ExecutionMetadata → List String
metadata_command none = []
metadata_command (some m) = m.command

abbrev metadata_subprocess : Option ExecutionMetadata → List String
metadata_subprocess none = []
metadata_subprocess (some m) = m.subprocess

abbrev metadata_excerpt : Option ExecutionMetadata → String
metadata_excerpt none = ""
metadata_excerpt (some m) = m.raw_response_excerpt

-- the metadata of a fallback
abbrev metadata_of : String → String → Option ExecutionMetadata → ExecutionMetadata
metadata_of reason why m = record {
  mode = "infer";
  selected_reason = reason;
  selected_model = none;
  selected_provider = none;
  command = metadata_command m;
  subprocess = metadata_subprocess m;
  fallback_reason = some why;
  raw_response_excerpt = metadata_excerpt m;
  stage_exit_code = none;
  stage_stdout = "";
  stage_stderr = "";
  stage_exception = none;
  stage_returned_value = "";
}

-- the metadata of an agent that is not used
abbrev agent_metadata : String → List String → String → ExecutionMetadata
agent_metadata reason command why = record {
  mode = "agent";
  selected_reason = reason;
  selected_model = none;
  selected_provider = none;
  command = command;
  subprocess = command;
  fallback_reason = some why;
  raw_response_excerpt = "";
  stage_exit_code = none;
  stage_stdout = "";
  stage_stderr = "";
  stage_exception = none;
  stage_returned_value = "";
}

-- `f"{exc.__class__.__name__}: {exc}"` and the attributes of the exception
abbrev with_exception : Exc → Details → ExecutionMetadata → ExecutionMetadata
with_exception exc d m = record m {
  stage_exit_code = d.exit_code;
  stage_stdout = d.stdout;
  stage_stderr = d.stderr;
  stage_exception = some (exc.class_name <> ": " <> exc.text);
  stage_returned_value = d.returned_value;
}

module _ {ℓ} {S : Type ℓ} (N : Type 0) (services : Services N S) (agent : Agent N S) where
  -- a result that gives up
  abbrev pub given_up : EngineeringIssue → String → String → ExecutionMetadata → EngineeringResult N
  given_up issue summary error metadata = record {
    issue = issue;
    repository = issue.repository;
    patch_summary = summary;
    files_modified = [];
    tests_executed = [];
    test_results = [];
    confidence = agent.nought;
    warnings = [];
    errors = error ∷ [];
    engineering_notes = "mode=agent" ∷ "fallback=disabled" ∷ [];
    recommended_next_step = "escalate";
    execution_metadata = some metadata;
  }

  -- the result of the other pipeline, with the reason for the fallback
  abbrev pub fallen_back : String → ExecutionMetadata → EngineeringResult N → EngineeringResult N
  fallen_back warning metadata fallback = record fallback {
    warnings = fallback.warnings ++ (warning ∷ "Fell back to infer mode for this attempt." ∷ []);
    engineering_notes = fallback.engineering_notes ++ "mode=infer_fallback" ∷ [];
    execution_metadata = some metadata;
  }

  -- the handler of an agent that raised
  unfoldable pub agent_failed :
      EngineeringConfiguration
      → Capability
      → EngineeringIssue
      → Bool
      → Bool
      → Exc
      → Act S (EngineeringResult N)
  agent_failed config capability issue dry_run run_tests exc =
      if not config.openclaw_agent_fallback_enabled
      then return (
          given_up issue "OpenClaw Agent mode failed and infer fallback is disabled." exc.text (
            with_exception exc (agent.details exc) (
              agent_metadata "Agent mode was selected but execution failed." capability.command
                "infer fallback disabled")))
      else (run_infer_pipeline N services config issue dry_run run_tests >>= λ fallback. return (
          fallen_back ("OpenClaw Agent mode failed: " <> exc.text)
            (with_exception exc (agent.details exc) (
              metadata_of "Infer mode was used only after Agent mode failed." exc.text
                fallback.execution_metadata))
            fallback))

  -- where the agent cannot be used
  unfoldable pub agent_unavailable :
      EngineeringConfiguration
      → Capability
      → EngineeringIssue
      → Bool
      → Bool
      → Act S (EngineeringResult N)
  agent_unavailable config capability issue dry_run run_tests =
      if not config.openclaw_agent_fallback_enabled
      then return (
          given_up issue "OpenClaw Agent mode is unavailable and infer fallback is disabled."
            capability.reason
            (agent_metadata "Agent mode is the required primary execution engine."
              capability.command capability.reason))
      else (run_infer_pipeline N services config issue dry_run run_tests >>= λ fallback. return (
          fallen_back ("OpenClaw Agent mode unavailable: " <> capability.reason)
            (metadata_of "Infer mode was used only because Agent mode was unavailable."
              capability.reason fallback.execution_metadata)
            fallback))

  unfoldable pub with_agent :
      EngineeringConfiguration
      → EngineeringIssue
      → Bool
      → Bool
      → Capability
      → Act S (EngineeringResult N)
  with_agent config issue dry_run run_tests capability s =
      if capability.callable && capability.configured
      then rescue (agent.execute issue run_tests s)
          (agent_failed config capability issue dry_run run_tests)
      else agent_unavailable config capability issue dry_run run_tests s

  unfoldable pub run_until_patch :
      EngineeringConfiguration → EngineeringIssue → Bool → Bool → Act S (EngineeringResult N)
  run_until_patch config issue dry_run run_tests =
      if config.openclaw_agent_mode == "agent"
      then (agent.detect >>= λ capability. with_agent config issue dry_run run_tests capability)
      else run_infer_pipeline N services config issue dry_run run_tests
